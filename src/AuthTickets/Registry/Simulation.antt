-- ===== src/AuthTickets/Registry/Simulation.antt =====
-- The ticket store (internal/authtickets/authtickets.go) and the registry, call by call.
use openwrt_controller.Base.{
  ℕ, Bool, true, false, ◌&&◌, List, [], ◌∷◌, Option, none, some, Text, ok, ◌≡◌, refl, inl, inr,
  Bool-cases, ap, sym, subst, ◌∙◌, not, ◌||◌, leb, text_eq, arith,
}
use openwrt_controller.AuthTickets.{
  Ticket, Store, load_store, is_expired, lookup, insert, gc_locked, issue, validate, consume,
  consume_for_device, gc_tick, out_of_scope, check_ticket, redeem, consume_scoped,
}
use openwrt_controller.AuthTickets.SingleUse.{
  Call, issues, validates, consumes, consumes_for, ticks, step,
}
use openwrt_controller.AuthTickets.Registry.{
  Answer, issued, told, answer, answers, Grant, Slot, vacant, free, taken, Registry, new_registry,
  free_ticket, taken_ticket, at_time, put, grant, registry_issue, shown, take_slot, anyone,
  on_device, registry_call, registry_answers,
}
use openwrt_controller.AuthTickets.Registry.Unique.{
  if_live, put_entry, is_unique, is_unique-insert, is_unique-gc_locked, lookup-insert,
  lookup-gc_locked,
}

-- The ticket of a slot.
abbrev view : Slot → Option Ticket
view vacant = none
view (free h) = some (free_ticket h)
view (taken h marked) = some (taken_ticket h marked)

-- The store keeps what the registry holds.
IsKeptBy : Registry → Store → Type 0
IsKeptBy g s =
    (is_unique s.tickets ≡ true)
    × (s.ttl ≡ g.ttl)
    × ((k : Text) → lookup k s.tickets ≡ view (g.slot k))

ttl_of : (g : Registry) (s : Store) → IsKeptBy g s → s.ttl ≡ g.ttl
unfolding IsKeptBy
ttl_of g s kept = kept.1

slot_of :
    (g : Registry) (s : Store) (k : Text) → IsKeptBy g s → lookup k s.tickets ≡ view (g.slot k)
unfolding IsKeptBy
slot_of g s k kept = kept.2 k

-- A call that gives the same answer on both and keeps the relation.
Simulates : Answer → Option Store → Answer × Registry → Type 0
Simulates a s next = (a ≡ next.0) × (t : Store) × (s ≡ some t) × IsKeptBy next.1 t

put_same :
    (id k : Text) (x : Slot) (t : Ticket) (f : Text → Option Ticket) (g : Text → Slot)
    → view x ≡ some t
    → f k ≡ view (g k)
    → put_entry id t f k ≡ view (put id x g k)
put_same id k x t f g same e = elim (Bool-cases (text_eq id k)) [
  | inl y ↦ rw y (sym same)
  | inr n ↦ rw n e
]

put-IsKeptBy :
    (g : Registry) (s : Store) (id : Text) (x : Slot) (t : Ticket)
    → view x ≡ some t
    → IsKeptBy g s
    → IsKeptBy (record g { slot = put id x g.slot }) (record s { tickets = insert id t s.tickets })
unfolding IsKeptBy
put-IsKeptBy g s id x t seen (unique, ttl, same) = (
  is_unique-insert id t s.tickets unique,
  ttl,
  λ k.
      lookup-insert id k t s.tickets
      ∙ put_same id k x t (λ j. lookup j s.tickets) g.slot seen (same k),
)

view-at_time : (now : ℕ) (x : Slot) → if_live now (view x) ≡ view (at_time now x)
unfolding if_live at_time
view-at_time now vacant = refl
view-at_time now (free h) = ground arith
view-at_time now (taken h marked) = ground arith

gc-IsKeptBy :
    (now : ℕ) (g : Registry) (s : Store)
    → IsKeptBy g s
    → IsKeptBy
        (record g { slot = λ k. at_time now (g.slot k) })
        (record s { tickets = gc_locked now s.tickets })
unfolding IsKeptBy
gc-IsKeptBy now g s (unique, ttl, same) = (
  is_unique-gc_locked now s.tickets unique,
  ttl,
  λ k.
      lookup-gc_locked k now s.tickets unique
      ∙ (ap (if_live now) (same k) ∙ view-at_time now (g.slot k)),
)

issue-Simulates :
    (now : ℕ) (id : Option Text) (u r d n : Text) (g : Registry) (s : Store)
    → IsKeptBy g s
    → Simulates
        (issued (issue now id u r d n (some s)).0)
        (issue now id u r d n (some s)).1
        (registry_issue now id u r d n g)
unfolding issue registry_issue Simulates
issue-Simulates now none u r d n g s kept = (refl, s, refl, kept)
issue-Simulates now (some id) u r d n g s kept =
    let ttl = ttl_of g s kept in
    let h = grant now s.ttl u r d n in
    let t = free_ticket h in
    (
      ap (λ z. issued (ok (id, free_ticket (grant now z u r d n)))) ttl,
      record s { tickets = gc_locked now (insert id t s.tickets) },
      refl,
      subst
          (λ z.
            IsKeptBy
              (record g { slot = λ k. at_time now (put id (free (grant now z u r d n)) g.slot k) })
              (record s { tickets = gc_locked now (insert id t s.tickets) }))
          ttl
          (gc-IsKeptBy now (record g { slot = put id (free h) g.slot })
            (record s { tickets = insert id t s.tickets })
            (put-IsKeptBy g s id (free h) t refl kept)),
    )

check_ticket-shown : (now : ℕ) (x : Slot) → told (check_ticket now (view x)) ≡ shown now x
unfolding check_ticket shown
check_ticket-shown now vacant = refl
check_ticket-shown now (free h) = ground arith
check_ticket-shown now (taken h marked) = refl

-- The code's test of the scope, and who may take a ticket.
scopes_agree :
    (enforce : Bool) (d : Text) (h : Grant)
    → (enforce && out_of_scope (free_ticket h) d) ≡ not (not enforce || on_device d h)
scopes_agree enforce d h = ground arith

redeem-Simulates :
    (now marked : ℕ) (id d : Text) (enforce : Bool) (admitted : Grant → Bool) (g : Registry)
    (s : Store) (x : Slot)
    → ((h : Grant) → admitted h ≡ (not enforce || on_device d h))
    → IsKeptBy g s
    → Simulates
        (told (redeem marked id d enforce s (check_ticket now (view x))).0)
        (redeem marked id d enforce s (check_ticket now (view x))).1
        (take_slot now marked id admitted g x)
unfolding redeem take_slot check_ticket Simulates
redeem-Simulates now marked id d enforce admitted g s vacant who kept = (refl, s, refl, kept)
redeem-Simulates now marked id d enforce admitted g s (taken h before) who kept =
    (refl, s, refl, kept)
redeem-Simulates now marked id d enforce admitted g s (free h) who kept =
    elim (Bool-cases (leb now h.expires_at)) [
      | inr late ↦
          let past : is_expired now (free_ticket h) ≡ true = ground arith in
          rw late (rw past (refl, s, refl, kept))
      | inl live ↦
          let within : is_expired now (free_ticket h) ≡ false = ground arith in
          elim (Bool-cases (admitted h)) [
            | inl fits ↦
                let scope : (enforce && out_of_scope (free_ticket h) d) ≡ false =
                  scopes_agree enforce d h ∙ ap not (sym (who h) ∙ fits) in
                rw live (
                  rw within (
                    rw scope (
                      rw fits (
                        refl,
                        _,
                        refl,
                        put-IsKeptBy g s id (taken h marked) (taken_ticket h marked) refl kept,
                      ))))
            | inr strange ↦
                let scope : (enforce && out_of_scope (free_ticket h) d) ≡ true =
                  scopes_agree enforce d h ∙ ap not (sym (who h) ∙ strange) in
                rw live (rw within (rw scope (rw strange (refl, s, refl, kept))))
          ]
    ]

consume-Simulates :
    (now marked : ℕ) (id d : Text) (enforce : Bool) (admitted : Grant → Bool) (g : Registry)
    (s : Store)
    → ((h : Grant) → admitted h ≡ (not enforce || on_device d h))
    → IsKeptBy g s
    → Simulates
        (told (consume_scoped now marked id d enforce (some s)).0)
        (consume_scoped now marked id d enforce (some s)).1
        (take_slot now marked id admitted g (g.slot id))
unfolding consume_scoped
consume-Simulates now marked id d enforce admitted g s who kept =
    subst
      (λ z.
        Simulates (told (redeem marked id d enforce s (check_ticket now z)).0)
          (redeem marked id d enforce s (check_ticket now z)).1
          (take_slot now marked id admitted g (g.slot id)))
      (sym (slot_of g s id kept))
      (redeem-Simulates now marked id d enforce admitted g s (g.slot id) who kept)

call-Simulates :
    (c : Call) (g : Registry) (s : Store)
    → IsKeptBy g s
    → Simulates (answer c (some s)) (step c (some s)) (registry_call c g)
unfolding answer step registry_call Simulates validate consume consume_for_device gc_tick
call-Simulates (issues now id u r d n) g s kept = issue-Simulates now id u r d n g s kept
call-Simulates (validates now id) g s kept =
    rw (slot_of g s id kept) (check_ticket-shown now (g.slot id), s, refl, kept)
call-Simulates (consumes now marked id) g s kept =
    consume-Simulates now marked id [] false anyone g s (λ h. refl) kept
call-Simulates (consumes_for now marked id d) g s kept =
    consume-Simulates now marked id d true (on_device d) g s (λ h. refl) kept
call-Simulates (ticks now) g s kept = (refl, _, refl, gc-IsKeptBy now g s kept)

run_agrees :
    (cs : List Call) (g : Registry) (s : Store)
    → IsKeptBy g s
    → answers cs (some s) ≡ registry_answers cs g
unfolding answers registry_answers Simulates
run_agrees [] g s kept = refl
run_agrees (c ∷ cs) g s kept =
    let (same, t, next, kept2) = call-Simulates c g s kept in
    rw same (rw next (ap (λ z. (registry_call c g).0 ∷ z) (run_agrees cs _ t kept2)))

-- The store implements the registry: from a new store, any sequence of Issue, Validate, Consume and
-- ConsumeForDevice calls and of ticks of the collector, at any clock readings, gives the answers of a
-- new registry. In the registry an id names no ticket, a free one or a taken one; a ticket is issued
-- free, becomes taken when it is handed out, and is handed out or shown only while it is free and its
-- time is not past, by ConsumeForDevice only where it names a tenant and the device that asks; an
-- Issue and a tick forget the tickets past their time.
pub store_implements_registry :
    (ttl : ℕ) (cs : List Call)
    → answers cs (some (load_store ttl)) ≡ registry_answers cs (new_registry ttl)
unfolding load_store new_registry IsKeptBy is_unique lookup
store_implements_registry ttl cs =
    run_agrees cs (new_registry ttl) (load_store ttl) (refl, refl, λ k. refl)
