-- ===== src/AuthTickets/Registry.antt =====
-- The ticket store of internal/authtickets/authtickets.go against a registry that maps each id to at
-- most one ticket and forgets how the store keeps them.
pub mod Unique
pub mod Simulation
use openwrt_controller.Base.{
  ℕ, ◌+◌, Bool, true, false, not, ◌&&◌, ◌||◌, List, [], ◌∷◌, Option, none, some, Text, text_eq,
  text_eq→eq, text_eq_refl, is_empty, ltb, leb, ◌==◌, if◌then◌else◌, Result, ok, err, ◌≡◌, refl,
  arith, inl, inr, Bool-cases, Result-cases, ap, sym, subst, ◌∙◌,
}
use openwrt_controller.AuthTickets.{
  Ticket, Store, TicketError, not_found, reused, expired, random_failed, wrong_scope, load_store,
  default_ticket_ttl, lookup, remove, insert, is_expired, gc_locked, issue, validate, consume,
  consume_for_device, gc_tick, mark_consumed, out_of_scope, check_ticket, redeem, consume_scoped,
}
use openwrt_controller.AuthTickets.SingleUse.{
  Call, issues, validates, consumes, consumes_for, ticks, step,
}

-- What a caller sees of a call.
pub data Answer : Type 0 where
  issued : Result TicketError (Text × Ticket) → Answer
  told : Result TicketError Ticket → Answer
  silent : Answer

-- The answer of the store.
unfoldable pub answer : Call → Option Store → Answer
answer (issues now id u r d n) s = issued (issue now id u r d n s).0
answer (validates now id) s = told (validate now id s)
answer (consumes now marked id) s = told (consume now marked id s).0
answer (consumes_for now marked id d) s = told (consume_for_device now marked id d s).0
answer (ticks now) s = silent

unfoldable pub answers : List Call → Option Store → List Answer
answers [] s = []
answers (c ∷ cs) s = answer c s ∷ answers cs (step c s)

-- What a ticket lets its holder do, for how long.
pub record Grant : Type 0 where
  pub username : Text
  pub role : Text
  pub device_id : Text
  pub tenant_schema : Text
  pub issued_at : ℕ
  pub expires_at : ℕ

-- An id names no ticket, one that nobody took, or one that was taken at a time.
pub data Slot : Type 0 where
  vacant : Slot
  free : Grant → Slot
  taken : Grant → ℕ → Slot

pub record Registry : Type 0 where
  pub ttl : ℕ
  pub slot : Text → Slot

unfoldable pub new_registry : ℕ → Registry
new_registry ttl = record { ttl = if ttl == 0 then default_ticket_ttl else ttl; slot = λ _. vacant }

-- The tickets that a caller is shown.
abbrev pub free_ticket : Grant → Ticket
free_ticket h = record {
  username = h.username;
  role = h.role;
  device_id = h.device_id;
  tenant_schema = h.tenant_schema;
  issued_at = h.issued_at;
  expires_at = h.expires_at;
  consumed = false;
  consumed_at = none;
}

abbrev pub taken_ticket : Grant → ℕ → Ticket
taken_ticket h marked = record {
  username = h.username;
  role = h.role;
  device_id = h.device_id;
  tenant_schema = h.tenant_schema;
  issued_at = h.issued_at;
  expires_at = h.expires_at;
  consumed = true;
  consumed_at = some marked;
}

-- A slot whose ticket is past its time is vacant.
unfoldable pub at_time : ℕ → Slot → Slot
at_time now vacant = vacant
at_time now (free h) = if leb now h.expires_at then free h else vacant
at_time now (taken h marked) = if leb now h.expires_at then taken h marked else vacant

abbrev pub put : Text → Slot → (Text → Slot) → Text → Slot
put id t f k = if text_eq id k then t else f k

abbrev pub grant : ℕ → ℕ → Text → Text → Text → Text → Grant
grant now ttl username role device_id tenant_schema = record {
  username = username;
  role = role;
  device_id = device_id;
  tenant_schema = tenant_schema;
  issued_at = now;
  expires_at = now + ttl;
}

unfoldable pub registry_issue :
    ℕ → Option Text → Text → Text → Text → Text → Registry → Answer × Registry
unfolding at_time
registry_issue now none u r d n g = (issued (err random_failed), g)
registry_issue now (some id) u r d n g =
    let h = grant now g.ttl u r d n in
    (
      issued (ok (id, free_ticket h)),
      record g { slot = λ k. at_time now (put id (free h) g.slot k) },
    )

-- A look at a slot: only a ticket that nobody took and whose time is not past is shown.
unfoldable pub shown : ℕ → Slot → Answer
shown now vacant = told (err not_found)
shown now (taken h marked) = told (err reused)
shown now (free h) = if leb now h.expires_at then told (ok (free_ticket h)) else told (err expired)

-- Taking the ticket of a slot, for a holder that `admitted` tells of.
unfoldable pub take_slot : ℕ → ℕ → Text → (Grant → Bool) → Registry → Slot → Answer × Registry
take_slot now marked id admitted g vacant = (told (err not_found), g)
take_slot now marked id admitted g (taken h before) = (told (err reused), g)
take_slot now marked id admitted g (free h) =
    if not (leb now h.expires_at)
    then (told (err expired), g)
    else if admitted h
    then (told (ok (taken_ticket h marked)), record g { slot = put id (taken h marked) g.slot })
    else (told (err wrong_scope), g)

-- Consume asks nothing of the holder; ConsumeForDevice takes a ticket that names a tenant and the
-- device that asks.
abbrev pub anyone : Grant → Bool
anyone h = true

abbrev pub on_device : Text → Grant → Bool
on_device d h =
    not (is_empty h.tenant_schema) && (not (is_empty h.device_id) && text_eq h.device_id d)

unfoldable pub registry_call : Call → Registry → Answer × Registry
unfolding registry_issue take_slot shown at_time
registry_call (issues now id u r d n) g = registry_issue now id u r d n g
registry_call (validates now id) g = (shown now (g.slot id), g)
registry_call (consumes now marked id) g = take_slot now marked id anyone g (g.slot id)
registry_call (consumes_for now marked id d) g = take_slot now marked id (on_device d) g (g.slot id)
registry_call (ticks now) g = (silent, record g { slot = λ k. at_time now (g.slot k) })

unfoldable pub registry_answers : List Call → Registry → List Answer
unfolding registry_call
registry_answers [] g = []
registry_answers (c ∷ cs) g = (registry_call c g).0 ∷ registry_answers cs (registry_call c g).1
