-- ===== src/Schema/Documents.antt =====
-- The change-set and operation documents exchanged with a device agent
-- (internal/database/device_change_sets.go, internal/database/device_operations.go).
use openwrt_controller.Base.{
  ℕ, Bool, true, false, Option, none, some, List, [], Text, ℤ, pos, negsuc, pos_part, ◌==◌, ◌≡◌,
  ◌↔◌, arith,
}

-- The `state` text of a status report: `absent` is the empty or missing text, and `unknown` any
-- text that no code knows.
pub data State : Type 0 where
  absent prepared applying pending_confirm rolling_back committed restored : State
  recovery_required rejected unknown : State

abbrev pub state_tag : State → ℕ
state_tag absent = 0
state_tag prepared = 1
state_tag applying = 2
state_tag pending_confirm = 3
state_tag rolling_back = 4
state_tag committed = 5
state_tag restored = 6
state_tag recovery_required = 7
state_tag rejected = 8
state_tag unknown = 9

-- Equality of a stored state with a state that the validation let through.
unfoldable pub state_eq : State → State → Bool
state_eq a b = state_tag a == state_tag b

pub state_eq_iff : (a b : State) → (state_eq a b ≡ true) ↔ (a ≡ b)
unfolding state_eq
state_eq_iff a b = ground arith

-- `deviceChangeSetCommand`, and `UciCommand` of internal/services/uci_bridge.go.
pub record Command : Type 0 where
  pub action : Text
  pub config : Text
  pub section : Text
  pub option : Text
  pub value : Text

pub record ChangeOperation : Type 0 where
  pub operation_id : Text
  pub config : Text
  pub observed_state_hash : Text
  pub commands : List Command

-- The elements of a slice, where `none` is the nil slice.
abbrev pub elements : Option (List Text) → List Text
elements none = []
elements (some ts) = ts

-- `deviceChangeSetEnvelope`; its health checks are nil where the field is missing or null.
pub record ChangeSetEnvelope : Type 0 where
  pub change_set_id : Text
  pub device_id : Text
  pub plan_hash : Text
  pub generation : Option ℤ
  pub state : State
  pub failure : Text
  pub confirmation_policy : Text
  pub operations : List ChangeOperation
  pub health_checks : Option (List Text)

-- `deviceChangeSetOperationContent` and `deviceChangeSetContent`: what the plan hash covers.
pub record OperationContent : Type 0 where
  pub config : Text
  pub commands : List Command
  pub observed_state_hash : Text

pub record ChangeSetContent : Type 0 where
  pub operations : List OperationContent
  pub health_checks : Option (List Text)
  pub confirmation_policy : Text

-- The envelope of `parseOperationIdentity` with the state of a status; `body` is the rest of the
-- document, as text.
pub record OperationEnvelope : Type 0 where
  pub operation_id : Text
  pub id : Text
  pub plan_hash : Text
  pub generation : Option ℤ
  pub state : State
  pub body : Text

-- `->>'generation' = g` for the decimal text of a number g, which is -n for no n.
abbrev pub generation_is : Option ℤ → ℕ → Bool
generation_is none g = false
generation_is (some (pos n)) g = n == g
generation_is (some (negsuc n)) g = false

-- `COALESCE(->>'generation', '') = ''`.
abbrev pub generation_absent : Option ℤ → Bool
generation_absent none = true
generation_absent (some g) = false

-- `valueOrZero`, on a value that the validation found not negative.
abbrev pub value_or_zero : Option ℤ → ℕ
value_or_zero none = 0
value_or_zero (some g) = pos_part g
