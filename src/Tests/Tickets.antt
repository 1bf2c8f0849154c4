-- ===== src/Tests/Tickets.antt =====
-- WebSocket tickets at a sample store.
use openwrt_controller.Base.{
  ◌≡◌, refl, arith, true, false, List, [], ◌∷◌, Option, some, Text, codes, ok, err, ltb,
  if◌then◌else◌, text_eq,
}
use openwrt_controller.AuthTickets.{
  Store, expired, wrong_scope, issue, consume, consume_for_device, gc_locked, insert, lookup,
}
use openwrt_controller.AuthTickets.Redeem.{
  refusal_keeps_the_store, issue-consume_for_device, stranger_spares_the_ticket, redeemed,
}
use openwrt_controller.AuthTickets.SingleUse.{
  Call, issues, validates, consumes, consumes_for, ticks, run, never_issues, redeemed_at_most_once,
  issues_id,
}
use openwrt_controller.AuthTickets.{load_store}
use openwrt_controller.AuthTickets.Registry.{answers, registry_answers, new_registry}
use openwrt_controller.AuthTickets.Registry.Simulation.{store_implements_registry}

abbrev user : Text
user = codes "alice"

abbrev role : Text
role = codes "admin"

abbrev router : Text
router = codes "r1"

abbrev other_router : Text
other_router = codes "r2"

abbrev tenant : Text
tenant = codes "tenant_a"

abbrev id : Text
id = codes "t-1"

-- Tickets live 100 ticks; one that has run out is still stored.
abbrev store : Store
store = record { tickets = (codes "t-0", redeemed 0 100 9 user role router tenant) ∷ []; ttl = 100 }

issue-consume_for_device_example :
    (consume_for_device 700 701 id router
      (issue 500 (some id) user role router tenant (some store)).1).0
    ≡ (if ltb 600 700 then err expired else ok (redeemed 500 100 701 user role router tenant))
issue-consume_for_device_example =
    issue-consume_for_device store id user role router tenant 500 700 701 refl refl

strangers : (text_eq router other_router) ≡ false
unfolding text_eq
strangers = refl

stranger_spares_the_ticket_example :
    ((consume_for_device 510 511 id other_router
        (issue 500 (some id) user role router tenant (some store)).1).0
      ≡ err wrong_scope)
    × ((consume_for_device 520 521 id router
          (consume_for_device 510 511 id other_router
            (issue 500 (some id) user role router tenant (some store)).1).1).0
        ≡ ok (redeemed 500 100 521 user role router tenant))
stranger_spares_the_ticket_example =
    stranger_spares_the_ticket store id user role router tenant other_router 500 510 511 520 521
      refl refl strangers (omega arith) (omega arith)

abbrev after_issue : Option Store
after_issue = (issue 500 (some id) user role router tenant (some store)).1

refused : (consume_for_device 700 701 id router after_issue).0 ≡ err expired
unfolding consume_for_device issue lookup gc_locked insert text_eq
refused = refl

refusal_keeps_the_store_example : (consume_for_device 700 701 id router after_issue).1 ≡ after_issue
refusal_keeps_the_store_example =
    refusal_keeps_the_store after_issue id router 700 701 expired refused

taken :
    (consume_for_device 520 521 id router after_issue).0
    ≡ ok (redeemed 500 100 521 user role router tenant)
unfolding consume_for_device issue lookup gc_locked insert text_eq redeemed
taken = refl

-- What other users do meanwhile.
abbrev later_calls : List Call
later_calls =
    validates 530 id
    ∷ issues 540 (some (codes "t-2")) user role other_router tenant
    ∷ consumes 550 551 id
    ∷ ticks 560
    ∷ []

other_ids : never_issues id later_calls ≡ true
unfolding never_issues issues_id text_eq
other_ids = refl

redeemed_at_most_once_example :
    ¬ (
      (consume_for_device 570 571 id router
        (run later_calls (consume_for_device 520 521 id router after_issue).1)).0
      ≡ ok (redeemed 500 100 571 user role router tenant))
    × ¬ (
        (consume 570 571 id
          (run later_calls (consume_for_device 520 521 id router after_issue).1)).0
        ≡ ok (redeemed 500 100 571 user role router tenant))
redeemed_at_most_once_example =
    redeemed_at_most_once after_issue id router 520 521
      (redeemed 500 100 521 user role router tenant) taken later_calls other_ids 570 571 router
      (redeemed 500 100 571 user role router tenant)

-- Two tickets, one of them taken twice, and the collector.
abbrev session : List Call
session =
    issues 500 (some id) user role router tenant
    ∷ consumes_for 510 511 id router
    ∷ consumes_for 520 521 id router
    ∷ issues 530 (some (codes "t-2")) user role other_router tenant
    ∷ ticks 900
    ∷ validates 905 (codes "t-2")
    ∷ []

store_implements_registry_example :
    answers session (some (load_store 100)) ≡ registry_answers session (new_registry 100)
store_implements_registry_example = store_implements_registry 100 session
