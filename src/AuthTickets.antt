-- ===== src/AuthTickets.antt =====
-- The WebSocket tickets of internal/authtickets/authtickets.go. A store is its map; the mutex makes
-- each call one step, the clock is an argument, and a nil store is `none`.
pub mod Redeem
pub mod SingleUse
pub mod Registry
use openwrt_controller.Base.{
  ℕ, ◌+◌, Bool, true, false, not, ◌&&◌, ◌||◌, List, [], ◌∷◌, Option, none, some, Text, is_empty,
  ltb, ◌==◌, text_eq, if◌then◌else◌, Result, ok, err,
}

pub data TicketError : Type 0 where
  not_initialised not_found expired reused wrong_scope random_failed : TicketError

pub record Ticket : Type 0 where
  pub username : Text
  pub role : Text
  pub device_id : Text
  pub tenant_schema : Text
  pub issued_at : ℕ
  pub expires_at : ℕ
  pub consumed : Bool
  pub consumed_at : Option ℕ

pub record Store : Type 0 where
  -- the map, a key's newest entry first
  pub tickets : List (Text × Ticket)
  pub ttl : ℕ

-- `DefaultTicketTTL`, in nanoseconds.
abbrev pub default_ticket_ttl : ℕ
default_ticket_ttl = 30000000000

unfoldable pub load_store : ℕ → Store
load_store ttl = record { tickets = []; ttl = if ttl == 0 then default_ticket_ttl else ttl }

unfoldable pub lookup : Text → List (Text × Ticket) → Option Ticket
lookup id [] = none
lookup id ((k, t) ∷ m) = if text_eq k id then some t else lookup id m

-- `delete(m, id)`.
unfoldable pub remove : Text → List (Text × Ticket) → List (Text × Ticket)
remove id [] = []
remove id ((k, t) ∷ m) = let rest = remove id m in if text_eq k id then rest else (k, t) ∷ rest

-- `m[id] = t`.
unfoldable pub insert : Text → Ticket → List (Text × Ticket) → List (Text × Ticket)
insert id t m = (id, t) ∷ remove id m

-- `now.After(t.ExpiresAt)`.
abbrev pub is_expired : ℕ → Ticket → Bool
is_expired now t = ltb t.expires_at now

-- `gcLocked`.
unfoldable pub gc_locked : ℕ → List (Text × Ticket) → List (Text × Ticket)
gc_locked now [] = []
gc_locked now ((k, t) ∷ m) =
    let rest = gc_locked now m in if is_expired now t then rest else (k, t) ∷ rest

-- `Issue`; `id` is what newTicketID gives, `none` where it fails.
unfoldable pub issue :
    ℕ
    → Option Text
    → Text
    → Text
    → Text
    → Text
    → Option Store
    → Result TicketError (Text × Ticket) × Option Store
issue now id username role device_id tenant_schema none = (err not_initialised, none)
issue now none username role device_id tenant_schema (some s) = (err random_failed, some s)
issue now (some id) username role device_id tenant_schema (some s) =
    let t : Ticket = record {
      username = username;
      role = role;
      device_id = device_id;
      tenant_schema = tenant_schema;
      issued_at = now;
      expires_at = now + s.ttl;
      consumed = false;
      consumed_at = none;
    } in
    (ok (id, t), some (record s { tickets = gc_locked now (insert id t s.tickets) }))

-- The checks that `Validate` and `consume` share.
check_ticket : ℕ → Option Ticket → Result TicketError Ticket
check_ticket now none = err not_found
check_ticket now (some t) =
    if t.consumed then err reused else if is_expired now t then err expired else ok t

unfoldable pub validate : ℕ → Text → Option Store → Result TicketError Ticket
unfolding check_ticket
validate now id none = err not_initialised
validate now id (some s) = check_ticket now (lookup id s.tickets)

abbrev out_of_scope : Ticket → Text → Bool
out_of_scope t device_id =
    is_empty t.device_id || (is_empty t.tenant_schema || not (text_eq t.device_id device_id))

-- `t.Consumed = true; t.ConsumedAt = time.Now()`, through the pointer that the map holds; `marked` is
-- the clock at the mark.
abbrev pub mark_consumed : ℕ → Ticket → Ticket
mark_consumed marked t = record t { consumed = true; consumed_at = some marked }

redeem :
    ℕ
    → Text
    → Text
    → Bool
    → Store
    → Result TicketError Ticket
    → Result TicketError Ticket × Option Store
redeem marked id device_id enforce s (err x) = (err x, some s)
redeem marked id device_id enforce s (ok t) =
    if enforce && out_of_scope t device_id then (err wrong_scope, some s) else (
      ok (mark_consumed marked t),
      some (record s { tickets = insert id (mark_consumed marked t) s.tickets }),
    )

consume_scoped :
    ℕ → ℕ → Text → Text → Bool → Option Store → Result TicketError Ticket × Option Store
unfolding redeem check_ticket
consume_scoped now marked id device_id enforce none = (err not_initialised, none)
consume_scoped now marked id device_id enforce (some s) =
    redeem marked id device_id enforce s (check_ticket now (lookup id s.tickets))

unfoldable pub consume : ℕ → ℕ → Text → Option Store → Result TicketError Ticket × Option Store
unfolding consume_scoped
consume now marked id s = consume_scoped now marked id [] false s

unfoldable pub consume_for_device :
    ℕ → ℕ → Text → Text → Option Store → Result TicketError Ticket × Option Store
unfolding consume_scoped
consume_for_device now marked id device_id s = consume_scoped now marked id device_id true s

-- One tick of `StartGC`.
unfoldable pub gc_tick : ℕ → Option Store → Option Store
gc_tick now none = none
gc_tick now (some s) = some (record s { tickets = gc_locked now s.tickets })
