-- ===== src/Tests/Deliveries.antt =====
-- One change set from the queue to COMMITTED, at a sample device.
use openwrt_controller.Base.{◌≡◌, ◌<◌, refl, arith, true, [], ◌∷◌, text_eq, count_rows, select_row}
use openwrt_controller.Schema.{applying, committed, Tables, state_eq}
use openwrt_controller.ChangeSet.{identity_of}
use openwrt_controller.DeviceChangeSet.Queue.{
  no_owner, accepts, queue, bigint_max, change_set_capability_contract, has_capability,
  no_active_rollout,
}
use openwrt_controller.DeviceChangeSet.Status.{apply_status}
use openwrt_controller.DeviceChangeSet.KeyedRow.{IsRow}
use openwrt_controller.DeviceChangeSet.Delivered.{IsDelivered, queued_change_set_commits}
use openwrt_controller.Tests.Samples.{platform, router, idle_device, change_set, report, tables_of}

abbrev start : Tables
start = tables_of (idle_device ∷ []) []

only-IsRow : IsRow router start.devices idle_device
unfolding count_rows select_row text_eq
only-IsRow = record { key = omega arith; row = refl }

idle_accepts : accepts platform 20 no_owner router (identity_of change_set) [] idle_device ≡ true
unfolding accepts text_eq has_capability change_set_capability_contract state_eq no_active_rollout
idle_accepts = refl

in_range : 4 < bigint_max
unfolding bigint_max
in_range = omega arith

abbrev after_queue : Tables
after_queue = (queue platform 20 no_owner router change_set (identity_of change_set) start).1

abbrev after_first : Tables
after_first =
    (apply_status 21 (report applying) (identity_of (report applying)) router after_queue).1

queued_change_set_commits_example :
    IsDelivered router 5
      (report committed)
      (queue platform 20 no_owner router change_set (identity_of change_set) start)
      (apply_status 21 (report applying) (identity_of (report applying)) router after_queue)
      (apply_status 22 (report committed) (identity_of (report committed)) router after_first)
queued_change_set_commits_example =
    queued_change_set_commits platform 20 21 22 no_owner router change_set (report applying)
      (report committed) start idle_device refl refl in_range only-IsRow idle_accepts
      (record { same_id = refl; same_hash = refl; at_generation = refl; in_state = refl })
      (record { same_id = refl; same_hash = refl; at_generation = refl; in_state = refl })
