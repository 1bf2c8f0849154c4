-- ===== src/AuthTickets/Redeem.antt =====
-- Issuing and redeeming one ticket (internal/authtickets/authtickets.go).
use openwrt_controller.Base.{
  ℕ, ◌+◌, Bool, true, false, List, ◌∷◌, Option, none, some, Text, ltb, text_eq, if◌then◌else◌,
  Result, ok, err, ◌≡◌, refl, arith, ◌≤◌, is_empty, text_eq_refl,
}
use openwrt_controller.AuthTickets.{
  Ticket, Store, TicketError, expired, wrong_scope, lookup, insert, gc_locked, issue,
  consume_for_device, mark_consumed, consume_scoped, redeem, check_ticket, out_of_scope,
}

redeem-refused :
    (id device_id : Text) (marked : ℕ) (enforce : Bool) (s : Store) (r : Result TicketError Ticket)
    (x : TicketError)
    → (redeem marked id device_id enforce s r).0 ≡ err x
    → (redeem marked id device_id enforce s r).1 ≡ some s
unfolding redeem
redeem-refused id device_id marked enforce s r x h = ground arith

-- A ConsumeForDevice that fails, with whatever error, leaves the store as it was.
pub refusal_keeps_the_store :
    (s : Option Store) (id device_id : Text) (now marked : ℕ) (x : TicketError)
    → (consume_for_device now marked id device_id s).0 ≡ err x
    → (consume_for_device now marked id device_id s).1 ≡ s
unfolding consume_for_device consume_scoped
refusal_keeps_the_store none id device_id now marked x h = refl
refusal_keeps_the_store (some s) id device_id now marked x h =
    redeem-refused id device_id marked true s (check_ticket now (lookup id s.tickets)) x h

gc_locked-head :
    (now : ℕ) (id : Text) (t : Ticket) (m : List (Text × Ticket))
    → now ≤ t.expires_at
    → lookup id (gc_locked now ((id, t) ∷ m)) ≡ some t
unfolding gc_locked lookup
gc_locked-head now id t m h = ground (arith, text_eq_refl id)

-- A ticket found under its id, unconsumed and unexpired.
consume_live :
    (s : Store) (id device_id : Text) (now marked : ℕ) (t : Ticket)
    → lookup id s.tickets ≡ some t
    → t.consumed ≡ false
    → now ≤ t.expires_at
    → (consume_for_device now marked id device_id (some s)).0
      ≡ (if out_of_scope t device_id then err wrong_scope else ok (mark_consumed marked t))
unfolding consume_for_device consume_scoped redeem check_ticket
consume_live s id device_id now marked t l c h = ground arith

-- The ticket that Issue creates, as ConsumeForDevice hands it out at `marked`.
unfoldable pub redeemed : ℕ → ℕ → ℕ → Text → Text → Text → Text → Ticket
redeemed now ttl marked username role device_id tenant_schema = record {
  username = username;
  role = role;
  device_id = device_id;
  tenant_schema = tenant_schema;
  issued_at = now;
  expires_at = now + ttl;
  consumed = true;
  consumed_at = some marked;
}

-- A ticket that Issue made for a device and a tenant, both named, is redeemed by that device with the
-- fields it was issued for, marked as consumed, and refused as expired once the clock is past the
-- ttl.
pub issue-consume_for_device :
    (s : Store) (id username role device_id tenant_schema : Text) (now later marked : ℕ)
    → is_empty device_id ≡ false
    → is_empty tenant_schema ≡ false
    → (consume_for_device later marked id device_id
        (issue now (some id) username role device_id tenant_schema (some s)).1).0
      ≡ (if ltb (now + s.ttl) later
          then err expired
          else ok (redeemed now s.ttl marked username role device_id tenant_schema))
unfolding issue consume_for_device consume_scoped redeem check_ticket redeemed insert gc_locked
    lookup
issue-consume_for_device s id username role device_id tenant_schema now later marked hd ht =
    ground (arith, text_eq_refl id, text_eq_refl device_id)

-- An attempt by another device within the ttl is refused for its scope, and the device that the ticket
-- was issued for still redeems it within the ttl.
pub stranger_spares_the_ticket :
    (s : Store) (id username role device_id tenant_schema stranger : Text)
    (now tried mark later marked : ℕ)
    → is_empty device_id ≡ false
    → is_empty tenant_schema ≡ false
    → text_eq device_id stranger ≡ false
    → tried ≤ now + s.ttl
    → later ≤ now + s.ttl
    → ((consume_for_device tried mark id stranger
          (issue now (some id) username role device_id tenant_schema (some s)).1).0
        ≡ err wrong_scope)
      × ((consume_for_device later marked id device_id
            (consume_for_device tried mark id stranger
              (issue now (some id) username role device_id tenant_schema (some s)).1).1).0
          ≡ ok (redeemed now s.ttl marked username role device_id tenant_schema))
unfolding issue consume_for_device consume_scoped redeem check_ticket redeemed insert gc_locked
    lookup
stranger_spares_the_ticket s id username role device_id tenant_schema stranger now tried mark later
      marked hd ht hs h1 h2 =
    ground (arith, text_eq_refl id, text_eq_refl device_id)
