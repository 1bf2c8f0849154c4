-- ===== src/ChangePlan/Agreement.antt =====
-- The validation of internal/services/device_change_set.go against parseDeviceChangeSet of
-- internal/database/device_change_sets.go.
use openwrt_controller.Base.{
  ◌≡◌, ◌≢◌, refl, arith, ap, sym, subst, map, &&_true, ◌&&◌, Option, Bool, true, false, not, ◌||◌,
  List, [], ◌∷◌, none, some, Text, codes, all, is_nil, text_eq, text_eq→eq, if◌then◌else◌, ok, err,
}
use openwrt_controller.Schema.{
  invalid_change_set_command, Platform, Command, ChangeOperation, ChangeSetEnvelope, absent,
  elements,
}
use openwrt_controller.Identity.{device_change_set_config_allowed}
use openwrt_controller.ChangeSet.{
  identity_of, device_change_set_plan_hash, parse_device_change_set, valid_health_checks,
  operations_supported, commands_valid, valid_device_change_set_command,
}
use openwrt_controller.Uci.Commands.{
  set_option, add_list, del_list, delete, delete_option, add_anonymous_section, rename,
}
use openwrt_controller.Uci.Translate.{translate_command}
use openwrt_controller.ChangePlan.{
  DeviceChangeSet, envelope_of, plan_content, omit_zero, sent_command, sent_operation, sent_checks,
  validate_targets, validate_health_targets, is_plain_action, action_error, validate_command,
  validate_commands, failure_of, validate_device_operation, validate_operations, header_error,
  validate_device_change_set,
}

-- The actions that the bridge renders and the queue does not know.
unfoldable pub is_macro : Command → Bool
is_macro c = text_eq c.action (codes "ensure_host") || text_eq c.action (codes "delete_all")

unfoldable pub no_macros : List ChangeOperation → Bool
no_macros os = all (λ o. all (λ c. not (is_macro c)) o.commands) os

targets_valid :
    (pf : Platform) (seen ts : List Text)
    → failure_of (validate_targets pf seen ts) ≡ ok tt
    → valid_health_checks pf ts ≡ true
unfolding validate_targets valid_health_checks
targets_valid pf seen [] h = refl
targets_valid pf seen (t ∷ ts) h =
    ground (arith, targets_valid pf seen ts, targets_valid pf (t ∷ seen) ts)

command_agrees :
    (ipv4 : Text → Bool) (config : Text) (c : Command)
    → device_change_set_config_allowed config ≡ true
    → validate_command ipv4 config c ≡ ok tt
    → valid_device_change_set_command c ≡ not (is_macro c)
unfolding validate_command action_error is_plain_action valid_device_change_set_command is_macro
    translate_command set_option add_list del_list delete delete_option add_anonymous_section rename
command_agrees ipv4 config c a h = ground (
  arith,
  text_eq→eq c.config config,
  text_eq→eq c.action (codes "set"),
  text_eq→eq c.action (codes "delete"),
  text_eq→eq c.action (codes "add_list"),
  text_eq→eq c.action (codes "del_list"),
  text_eq→eq c.action (codes "add"),
  text_eq→eq c.action (codes "rename"),
  text_eq→eq c.action (codes "ensure_host"),
  text_eq→eq c.action (codes "delete_all"),
)

commands_agree :
    (ipv4 : Text → Bool) (config : Text) (cs : List Command)
    → device_change_set_config_allowed config ≡ true
    → validate_commands ipv4 config cs ≡ ok tt
    → all valid_device_change_set_command cs ≡ all (λ c. not (is_macro c)) cs
unfolding validate_commands
commands_agree ipv4 config [] a h = refl
commands_agree ipv4 config (c ∷ cs) a h =
    let here : validate_command ipv4 config c ≡ ok tt = ground arith in
    let there : validate_commands ipv4 config cs ≡ ok tt = ground arith in
    ground (arith, command_agrees ipv4 config c a here, commands_agree ipv4 config cs a there)

operation_agrees :
    (pf : Platform) (ipv4 : Text → Bool) (config : Text) (cs : List Command) (checks : List Text)
    → device_change_set_config_allowed config ≡ true
    → validate_device_operation pf ipv4 config cs checks ≡ ok tt
    → (is_nil cs ≡ false)
      × (all valid_device_change_set_command cs ≡ all (λ c. not (is_macro c)) cs)
unfolding validate_device_operation
operation_agrees pf ipv4 config cs checks a h =
    let commands : validate_commands ipv4 config cs ≡ ok tt = ground arith in
    (ground arith, commands_agree ipv4 config cs a commands)

operations_agree :
    (pf : Platform) (ipv4 : Text → Bool) (checks seen : List Text) (os : List ChangeOperation)
    → validate_operations pf ipv4 checks seen os ≡ ok tt
    → (operations_supported seen os ≡ true) × (commands_valid os ≡ no_macros os)
unfolding validate_operations operations_supported commands_valid no_macros
operations_agree pf ipv4 checks seen [] h = (refl, refl)
operations_agree pf ipv4 checks seen (o ∷ os) h =
    let allowed : device_change_set_config_allowed o.config ≡ true = ground arith in
    let here : validate_device_operation pf ipv4 o.config o.commands checks ≡ ok tt =
      ground arith in
    let there : validate_operations pf ipv4 checks (o.config ∷ seen) os ≡ ok tt = ground arith in
    ground (
      arith,
      operation_agrees pf ipv4 o.config o.commands checks allowed here,
      operations_agree pf ipv4 checks (o.config ∷ seen) os there,
    )

-- What a validated change set satisfies.
record IsValidated (pf : Platform) (ipv4 : Text → Bool) (cs : DeviceChangeSet) : Type 0 where
  header : header_error cs ≡ none
  targets : failure_of (validate_targets pf [] (elements cs.health_checks)) ≡ ok tt
  operations : validate_operations pf ipv4 (elements cs.health_checks) [] cs.operations ≡ ok tt
  hash : text_eq (pf.content_hash (plan_content cs)) cs.plan_hash ≡ true

validated :
    (pf : Platform) (ipv4 : Text → Bool) (cs : DeviceChangeSet)
    → validate_device_change_set pf ipv4 cs ≡ ok tt
    → IsValidated pf ipv4 cs
unfolding validate_device_change_set validate_health_targets
validated pf ipv4 cs h = record {
  header = ground arith;
  targets = ground arith;
  operations = ground arith;
  hash = ground arith;
}

-- The change set as a document, its texts and its health checks as they are.
abbrev pub document_of : DeviceChangeSet → ChangeSetEnvelope
document_of cs = record {
  change_set_id = cs.change_set_id;
  device_id = cs.device_id;
  plan_hash = cs.plan_hash;
  generation = omit_zero cs.generation;
  state = absent;
  failure = [];
  confirmation_policy = cs.confirmation_policy;
  operations = cs.operations;
  health_checks = cs.health_checks;
}

-- The texts of a change set are valid UTF-8.
abbrev pub command_utf8 : Platform → Command → Bool
command_utf8 pf c =
    pf.valid_utf8 c.action
    && (pf.valid_utf8 c.config
        && (pf.valid_utf8 c.section && (pf.valid_utf8 c.option && pf.valid_utf8 c.value)))

abbrev pub operation_utf8 : Platform → ChangeOperation → Bool
operation_utf8 pf o =
    pf.valid_utf8 o.operation_id
    && (pf.valid_utf8 o.config
        && (pf.valid_utf8 o.observed_state_hash && all (command_utf8 pf) o.commands))

abbrev pub change_set_utf8 : Platform → DeviceChangeSet → Bool
change_set_utf8 pf cs =
    (pf.valid_utf8 cs.change_set_id && (pf.valid_utf8 cs.device_id && pf.valid_utf8 cs.plan_hash))
    && (pf.valid_utf8 cs.confirmation_policy
        && (all (operation_utf8 pf) cs.operations && all pf.valid_utf8 (elements cs.health_checks)))

map_same {ℓ} :
    {A : Type ℓ} (f : A → A) (q : A → Bool) (xs : List A)
    → ((x : A) → q x ≡ true → f x ≡ x)
    → all q xs ≡ true
    → map f xs ≡ xs
map_same f q [] h a = refl
map_same f q (x ∷ xs) h a =
    let (first, rest) = &&_true (q x) (all q xs) a in
    rw (h x first) (rw (map_same f q xs h rest) refl)

sent_command-same :
    (pf : Platform) (c : Command)
    → ((s : Text) → pf.valid_utf8 s ≡ true → pf.json_text s ≡ s)
    → command_utf8 pf c ≡ true
    → sent_command pf c ≡ c
sent_command-same pf c json h = rw (json c.action (ground arith)) (
    rw (json c.config (ground arith)) (
      rw (json c.section (ground arith))
        (rw (json c.option (ground arith)) (rw (json c.value (ground arith)) refl))))

sent_operation-same :
    (pf : Platform) (o : ChangeOperation)
    → ((s : Text) → pf.valid_utf8 s ≡ true → pf.json_text s ≡ s)
    → operation_utf8 pf o ≡ true
    → sent_operation pf o ≡ o
sent_operation-same pf o json h = rw (json o.operation_id (ground arith)) (
    rw (json o.config (ground arith)) (
      rw (json o.observed_state_hash (ground arith)) (
        rw
          (map_same (sent_command pf) (command_utf8 pf) o.commands
            (λ c k. sent_command-same pf c json k) (ground arith))
          refl)))

sent_checks-same :
    (pf : Platform) (o : Option (List Text))
    → ((s : Text) → pf.valid_utf8 s ≡ true → pf.json_text s ≡ s)
    → all pf.valid_utf8 (elements o) ≡ true
    → o ≢ some []
    → sent_checks pf o ≡ o
sent_checks-same pf none json h n = refl
sent_checks-same pf (some []) json h n = absurd (n refl)
sent_checks-same pf (some (t ∷ ts)) json h n =
    ap some (map_same pf.json_text pf.valid_utf8 (t ∷ ts) json h)

envelope_of-document_of :
    (pf : Platform) (cs : DeviceChangeSet)
    → ((s : Text) → pf.valid_utf8 s ≡ true → pf.json_text s ≡ s)
    → change_set_utf8 pf cs ≡ true
    → cs.health_checks ≢ some []
    → envelope_of pf cs ≡ document_of cs
envelope_of-document_of pf cs json h n = rw (json cs.change_set_id (ground arith)) (
    rw (json cs.device_id (ground arith)) (
      rw (json cs.plan_hash (ground arith)) (
        rw (json cs.confirmation_policy (ground arith)) (
          rw
            (map_same (sent_operation pf) (operation_utf8 pf) cs.operations
              (λ o k. sent_operation-same pf o json k) (ground arith))
            (rw (sent_checks-same pf cs.health_checks json (ground arith) n) refl)))))

validated-document :
    (pf : Platform) (ipv4 : Text → Bool) (cs : DeviceChangeSet)
    → validate_device_change_set pf ipv4 cs ≡ ok tt
    → parse_device_change_set pf (some (document_of cs)) false ≡ (
        if no_macros cs.operations
        then ok (identity_of (document_of cs))
        else err invalid_change_set_command)
unfolding parse_device_change_set header_error device_change_set_plan_hash
validated-document pf ipv4 cs h =
    let v = validated pf ipv4 cs h in
    ground (
      arith,
      v.header,
      v.hash,
      targets_valid pf [] (elements cs.health_checks) v.targets,
      operations_agree pf ipv4 (elements cs.health_checks) [] cs.operations v.operations,
    )

-- A change set that the planner validates is one that queueDeviceChangeSet parses from its JSON, with
-- its own identity, unless a command of it is an ensure_host or a delete_all: then it is refused for an
-- invalid command. This is for a change set whose texts are valid UTF-8 and whose health checks are
-- no empty slice other than nil, and with encoding/json reading valid UTF-8 as it was written.
pub validated_is_parsed :
    (pf : Platform) (ipv4 : Text → Bool) (cs : DeviceChangeSet)
    → ((s : Text) → pf.valid_utf8 s ≡ true → pf.json_text s ≡ s)
    → change_set_utf8 pf cs ≡ true
    → cs.health_checks ≢ some []
    → validate_device_change_set pf ipv4 cs ≡ ok tt
    → parse_device_change_set pf (some (envelope_of pf cs)) false ≡ (
        if no_macros cs.operations
        then ok (identity_of (document_of cs))
        else err invalid_change_set_command)
validated_is_parsed pf ipv4 cs json texts checks h =
    subst
      (λ e. parse_device_change_set pf (some e) false ≡ (
        if no_macros cs.operations
        then ok (identity_of (document_of cs))
        else err invalid_change_set_command))
      (sym (envelope_of-document_of pf cs json texts checks)) (validated-document pf ipv4 cs h)
