-- ===== src/AuthTickets/Registry/Unique.antt =====
-- Entries of the ticket store's map (internal/authtickets/authtickets.go) under one id each.
use openwrt_controller.Base.{
  ℕ, Bool, true, false, not, ◌&&◌, List, [], ◌∷◌, Option, none, some, Text, if◌then◌else◌, text_eq,
  text_eq→eq, text_eq_refl, ◌≡◌, refl, arith,
}
use openwrt_controller.AuthTickets.{Ticket, is_expired, lookup, remove, insert, gc_locked}

-- What the map gives after a deletion of the expired tickets, and after an assignment.
unfoldable pub if_live : ℕ → Option Ticket → Option Ticket
if_live now none = none
if_live now (some t) = if is_expired now t then none else some t

abbrev pub put_entry : Text → Ticket → (Text → Option Ticket) → Text → Option Ticket
put_entry id t f k = if text_eq id k then some t else f k

-- No id has two entries.
absent : Text → List (Text × Ticket) → Bool
absent id [] = true
absent id ((k, t) ∷ m) = not (text_eq k id) && absent id m

unfoldable pub is_unique : List (Text × Ticket) → Bool
unfolding absent
is_unique [] = true
is_unique ((k, t) ∷ m) = absent k m && is_unique m

absent-remove :
    (id k : Text) (m : List (Text × Ticket)) → absent id m ≡ true → absent id (remove k m) ≡ true
unfolding absent remove
absent-remove id k [] h = refl
absent-remove id k ((j, t) ∷ m) h = ground (arith, absent-remove id k m)

absent-remove_self : (id : Text) (m : List (Text × Ticket)) → absent id (remove id m) ≡ true
unfolding absent remove
absent-remove_self id [] = refl
absent-remove_self id ((j, t) ∷ m) = ground (arith, absent-remove_self id m)

absent-gc_locked :
    (id : Text) (now : ℕ) (m : List (Text × Ticket))
    → absent id m ≡ true
    → absent id (gc_locked now m) ≡ true
unfolding absent gc_locked
absent-gc_locked id now [] h = refl
absent-gc_locked id now ((j, t) ∷ m) h = ground (arith, absent-gc_locked id now m)

is_unique-remove :
    (k : Text) (m : List (Text × Ticket)) → is_unique m ≡ true → is_unique (remove k m) ≡ true
unfolding is_unique remove
is_unique-remove k [] h = refl
is_unique-remove k ((j, t) ∷ m) h = ground (arith, is_unique-remove k m, absent-remove j k m)

pub is_unique-insert :
    (k : Text) (t : Ticket) (m : List (Text × Ticket))
    → is_unique m ≡ true
    → is_unique (insert k t m) ≡ true
unfolding is_unique insert
is_unique-insert k t m h = ground (arith, is_unique-remove k m h, absent-remove_self k m)

pub is_unique-gc_locked :
    (now : ℕ) (m : List (Text × Ticket)) → is_unique m ≡ true → is_unique (gc_locked now m) ≡ true
unfolding is_unique gc_locked
is_unique-gc_locked now [] h = refl
is_unique-gc_locked now ((j, t) ∷ m) h =
    ground (arith, is_unique-gc_locked now m, absent-gc_locked j now m)

lookup-absent : (id : Text) (m : List (Text × Ticket)) → absent id m ≡ true → lookup id m ≡ none
unfolding absent lookup
lookup-absent id [] h = refl
lookup-absent id ((j, t) ∷ m) h = ground (arith, lookup-absent id m)

lookup-remove_other :
    (id k : Text) (m : List (Text × Ticket))
    → text_eq id k ≡ false
    → lookup k (remove id m) ≡ lookup k m
unfolding lookup remove
lookup-remove_other id k [] h = refl
lookup-remove_other id k ((j, t) ∷ m) h =
    ground (arith, lookup-remove_other id k m h, text_eq→eq j id, text_eq→eq j k, text_eq_refl k)

pub lookup-insert :
    (id k : Text) (t : Ticket) (m : List (Text × Ticket))
    → lookup k (insert id t m) ≡ put_entry id t (λ j. lookup j m) k
unfolding lookup insert
lookup-insert id k t m = ground (arith, lookup-remove_other id k m)

pub lookup-gc_locked :
    (k : Text) (now : ℕ) (m : List (Text × Ticket))
    → is_unique m ≡ true
    → lookup k (gc_locked now m) ≡ if_live now (lookup k m)
unfolding lookup gc_locked is_unique if_live
lookup-gc_locked k now [] h = refl
lookup-gc_locked k now ((j, t) ∷ m) h = ground (
  arith,
  lookup-gc_locked k now m,
  text_eq→eq j k,
  lookup-absent k (gc_locked now m),
  absent-gc_locked k now m,
)
