-- ===== src/AuthTickets/SingleUse.antt =====
-- Sequences of calls on the ticket store of internal/authtickets/authtickets.go, and spent tickets.
use openwrt_controller.Base.{
  ℕ, Bool, true, false, not, ◌&&◌, ◌||◌, List, [], ◌∷◌, Option, none, some, Text, text_eq, Result,
  ok, err, ◌≡◌, refl, arith,
}
use openwrt_controller.AuthTickets.{
  Ticket, Store, TicketError, lookup, remove, insert, gc_locked, issue, consume, consume_for_device,
  gc_tick, consume_scoped, redeem, check_ticket,
}

-- One locked call on the store; the clock's readings are its arguments.
pub data Call : Type 0 where
  issues : ℕ → Option Text → Text → Text → Text → Text → Call
  validates : ℕ → Text → Call
  consumes : ℕ → ℕ → Text → Call
  consumes_for : ℕ → ℕ → Text → Text → Call
  ticks : ℕ → Call

unfoldable pub step : Call → Option Store → Option Store
step (issues now id username role device_id tenant_schema) s =
    (issue now id username role device_id tenant_schema s).1
step (validates now id) s = s
step (consumes now marked id) s = (consume now marked id s).1
step (consumes_for now marked id device_id) s = (consume_for_device now marked id device_id s).1
step (ticks now) s = gc_tick now s

unfoldable pub run : List Call → Option Store → Option Store
run [] s = s
run (c ∷ cs) s = run cs (step c s)

-- Whether the call issues a ticket under this id.
unfoldable pub issues_id : Text → Call → Bool
issues_id id (issues now (some k) username role device_id tenant_schema) = text_eq k id
issues_id id (issues now none username role device_id tenant_schema) = false
issues_id id (validates now k) = false
issues_id id (consumes now marked k) = false
issues_id id (consumes_for now marked k device_id) = false
issues_id id (ticks now) = false

unfoldable pub never_issues : Text → List Call → Bool
never_issues id [] = true
never_issues id (c ∷ cs) = not (issues_id id c) && never_issues id cs

-- Every entry of the id is marked as consumed.
all_spent : Text → List (Text × Ticket) → Bool
all_spent id [] = true
all_spent id ((k, t) ∷ m) = (not (text_eq k id) || t.consumed) && all_spent id m

is_spent : Text → Option Store → Bool
is_spent id none = true
is_spent id (some s) = all_spent id s.tickets

all_spent-remove :
    (id k : Text) (m : List (Text × Ticket))
    → all_spent id m ≡ true
    → all_spent id (remove k m) ≡ true
unfolding all_spent remove
all_spent-remove id k [] h = refl
all_spent-remove id k ((k', t) ∷ m) h = ground (arith, all_spent-remove id k m)

all_spent-remove_self : (id : Text) (m : List (Text × Ticket)) → all_spent id (remove id m) ≡ true
unfolding all_spent remove
all_spent-remove_self id [] = refl
all_spent-remove_self id ((k, t) ∷ m) = ground (arith, all_spent-remove_self id m)

all_spent-gc_locked :
    (id : Text) (now : ℕ) (m : List (Text × Ticket))
    → all_spent id m ≡ true
    → all_spent id (gc_locked now m) ≡ true
unfolding all_spent gc_locked
all_spent-gc_locked id now [] h = refl
all_spent-gc_locked id now ((k, t) ∷ m) h = ground (arith, all_spent-gc_locked id now m)

spent_ticket :
    (id : Text) (m : List (Text × Ticket)) (t : Ticket)
    → all_spent id m ≡ true
    → lookup id m ≡ some t
    → t.consumed ≡ true
unfolding all_spent lookup
spent_ticket id [] t h e = ground arith
spent_ticket id ((k, u) ∷ m) t h e = ground (arith, spent_ticket id m t)

checked_ticket :
    (now : ℕ) (o : Option Ticket) (t : Ticket)
    → check_ticket now o ≡ ok t
    → (o ≡ some t) × (t.consumed ≡ false)
unfolding check_ticket
checked_ticket now o t h = ground arith

-- A mark can only spend.
redeem-is_spent :
    (id k device_id : Text) (marked : ℕ) (enforce : Bool) (s : Store)
    (r : Result TicketError Ticket)
    → all_spent id s.tickets ≡ true
    → is_spent id ((redeem marked k device_id enforce s r).1) ≡ true
unfolding redeem is_spent all_spent insert
redeem-is_spent id k device_id marked enforce s r h =
    ground (arith, all_spent-remove id k s.tickets)

consume_scoped-is_spent :
    (id k device_id : Text) (now marked : ℕ) (enforce : Bool) (s : Option Store)
    → is_spent id s ≡ true
    → is_spent id ((consume_scoped now marked k device_id enforce s).1) ≡ true
unfolding consume_scoped is_spent
consume_scoped-is_spent id k device_id now marked enforce none h = refl
consume_scoped-is_spent id k device_id now marked enforce (some s) h =
    redeem-is_spent id k device_id marked enforce s (check_ticket now (lookup k s.tickets)) h

all_spent-insert :
    (id k : Text) (t : Ticket) (m : List (Text × Ticket))
    → text_eq k id ≡ false
    → all_spent id m ≡ true
    → all_spent id (insert k t m) ≡ true
unfolding all_spent insert
all_spent-insert id k t m e h = ground (arith, all_spent-remove id k m)

issue-is_spent :
    (id : Text) (now : ℕ) (k : Option Text) (u r d n : Text) (s : Option Store)
    → issues_id id (issues now k u r d n) ≡ false
    → is_spent id s ≡ true
    → is_spent id ((issue now k u r d n s).1) ≡ true
unfolding issues_id issue is_spent insert
issue-is_spent id now k u r d n none e h = refl
issue-is_spent id now none u r d n (some s) e h = h
issue-is_spent id now (some k) u r d n (some s) e h =
    all_spent-gc_locked id now _ (all_spent-insert id k _ s.tickets e h)

gc_tick-is_spent :
    (id : Text) (now : ℕ) (s : Option Store)
    → is_spent id s ≡ true
    → is_spent id (gc_tick now s) ≡ true
unfolding gc_tick is_spent
gc_tick-is_spent id now none h = refl
gc_tick-is_spent id now (some s) h = all_spent-gc_locked id now s.tickets h

step-is_spent :
    (id : Text) (c : Call) (s : Option Store)
    → issues_id id c ≡ false
    → is_spent id s ≡ true
    → is_spent id (step c s) ≡ true
unfolding step consume consume_for_device
step-is_spent id (issues now k u r d n) s e h = issue-is_spent id now k u r d n s e h
step-is_spent id (validates now k) s e h = h
step-is_spent id (consumes now marked k) s e h =
    consume_scoped-is_spent id k [] now marked false s h
step-is_spent id (consumes_for now marked k d) s e h =
    consume_scoped-is_spent id k d now marked true s h
step-is_spent id (ticks now) s e h = gc_tick-is_spent id now s h

run-is_spent :
    (id : Text) (cs : List Call) (s : Option Store)
    → never_issues id cs ≡ true
    → is_spent id s ≡ true
    → is_spent id (run cs s) ≡ true
unfolding run never_issues
run-is_spent id [] s e h = h
run-is_spent id (c ∷ cs) s e h =
    run-is_spent id cs (step c s) (ground arith) (step-is_spent id c s (ground arith) h)

redeem-spends :
    (id device_id : Text) (marked : ℕ) (enforce : Bool) (s : Store) (r : Result TicketError Ticket)
    (t : Ticket)
    → (redeem marked id device_id enforce s r).0 ≡ ok t
    → is_spent id ((redeem marked id device_id enforce s r).1) ≡ true
unfolding redeem is_spent all_spent insert
redeem-spends id device_id marked enforce s r t h =
    ground (arith, all_spent-remove_self id s.tickets)

consume_scoped-spends :
    (id device_id : Text) (now marked : ℕ) (enforce : Bool) (s : Option Store) (t : Ticket)
    → (consume_scoped now marked id device_id enforce s).0 ≡ ok t
    → is_spent id ((consume_scoped now marked id device_id enforce s).1) ≡ true
unfolding consume_scoped
consume_scoped-spends id device_id now marked enforce none t h = ground arith
consume_scoped-spends id device_id now marked enforce (some s) t h =
    redeem-spends id device_id marked enforce s (check_ticket now (lookup id s.tickets)) t h

redeem-ok :
    (id device_id : Text) (marked : ℕ) (enforce : Bool) (s : Store) (r : Result TicketError Ticket)
    (t : Ticket)
    → (redeem marked id device_id enforce s r).0 ≡ ok t
    → (u : Ticket) × (r ≡ ok u)
unfolding redeem
redeem-ok id device_id marked enforce s (err x) t h = ground arith
redeem-ok id device_id marked enforce s (ok u) t h = (u, refl)

spent_is_refused :
    (id device_id : Text) (now marked : ℕ) (enforce : Bool) (s : Option Store) (t : Ticket)
    → is_spent id s ≡ true
    → ¬ ((consume_scoped now marked id device_id enforce s).0 ≡ ok t)
unfolding consume_scoped is_spent
spent_is_refused id device_id now marked enforce none t h e = ground arith
spent_is_refused id device_id now marked enforce (some s) t h e =
    let (u, r) = redeem-ok id device_id marked enforce s _ t e in
    let (l, f) = checked_ticket now (lookup id s.tickets) u r in
    ground (arith, spent_ticket id s.tickets u h l)

-- After a ConsumeForDevice that succeeds, and any calls of the store that issue no ticket under the
-- same id, at any clock readings, neither ConsumeForDevice nor Consume succeeds with that id.
pub redeemed_at_most_once :
    (s : Option Store) (id device_id : Text) (now marked : ℕ) (t : Ticket)
    → (consume_for_device now marked id device_id s).0 ≡ ok t
    → (cs : List Call) → never_issues id cs ≡ true
    → (later mark : ℕ) (device : Text) (u : Ticket)
    → ¬ (
        (consume_for_device later mark id device
          (run cs ((consume_for_device now marked id device_id s).1))).0
        ≡ ok u)
      × ¬ (
          (consume later mark id (run cs ((consume_for_device now marked id device_id s).1))).0
          ≡ ok u)
unfolding consume_for_device consume
redeemed_at_most_once s id device_id now marked t h cs n later mark device u =
    let spent = run-is_spent id cs _ n (consume_scoped-spends id device_id now marked true s t h) in
    (
      spent_is_refused id device later mark true _ u spent,
      spent_is_refused id [] later mark false _ u spent,
    )
