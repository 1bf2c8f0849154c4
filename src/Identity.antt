-- ===== src/Identity.antt =====
-- The checks on identifiers and names: internal/database/device_operations.go,
-- internal/database/device_change_sets.go, internal/database/postgres.go and
-- internal/services/uci_bridge.go. The regular expressions are matchers over the bytes: a byte
-- above 127 is in none of their classes, as is the character that it belongs to.
pub mod Laws
use openwrt_controller.Base.{
  ℕ, ◌-◌, Bool, true, false, not, ◌&&◌, ◌||◌, List, [], ◌∷◌, ◌++◌, Text, codes, is_empty, length,
  all, ltb, leb, ◌==◌, text_eq, if◌then◌else◌,
}
use openwrt_controller.Base.{Result, ok, err}
use openwrt_controller.Schema.{Error, invalid_schema_identifier}

abbrev pub is_letter : ℕ → Bool
is_letter c = (leb b'A' c && leb c b'Z') || (leb b'a' c && leb c b'z')

abbrev pub is_digit : ℕ → Bool
is_digit c = leb b'0' c && leb c b'9'

abbrev pub is_hex_digit : ℕ → Bool
is_hex_digit c = (leb b'A' c && leb c b'F') || ((leb b'a' c && leb c b'f') || is_digit c)

unfoldable pub operation_id_char : ℕ → Bool
operation_id_char c = is_letter c || (is_digit c || (c == b'.' || (c == b'_' || c == b'-')))

unfoldable pub valid_device_operation_id : Text → Bool
valid_device_operation_id id =
    if is_empty id || ltb 128 (length id) then false else all operation_id_char id

unfoldable pub valid_device_operation_plan_hash : Text → Bool
valid_device_operation_plan_hash hash =
    if not (length hash == 64) then false else all (λ c. is_hex_digit c) hash

unfoldable pub valid_device_change_set_id : Text → Bool
unfolding valid_device_operation_id
valid_device_change_set_id id = valid_device_operation_id id

unfoldable pub device_id_char : ℕ → Bool
device_id_char c = c == b':' || operation_id_char c

unfoldable pub valid_device_change_set_device_id : Text → Bool
valid_device_change_set_device_id id =
    if is_empty id || ltb 50 (length id) then false else all device_id_char id

-- `[A-Za-z0-9_-]`
unfoldable pub name_char : ℕ → Bool
name_char c = is_letter c || (is_digit c || (c == b'_' || c == b'-'))

-- `^[A-Za-z0-9_-]+$`
unfoldable pub name_pattern : Text → Bool
name_pattern s = not (is_empty s) && all name_char s

-- `[0-9]+\]$`, after the digits that were read if `seen`.
unfoldable pub index_digits : Bool → Text → Bool
index_digits seen [] = false
index_digits seen (c ∷ s) =
    let rest = index_digits true s in if is_digit c then rest else seen && (c == b']' && is_empty s)

-- `-?[0-9]+\]$`
unfoldable pub index_start : Text → Bool
unfolding index_digits
index_start [] = false
index_start (c ∷ s) = if c == b'-' then index_digits false s else index_digits false (c ∷ s)

-- `[A-Za-z0-9_-]+(?:\[-?[0-9]+\])?$`, after the name that was read if `seen`.
unfoldable pub anonymous_section : Bool → Text → Bool
anonymous_section seen [] = seen
anonymous_section seen (c ∷ s) =
    let rest = anonymous_section true s in
    if name_char c then rest else seen && (c == b'[' && index_start s)

-- `^(?:[A-Za-z0-9_-]+|@[A-Za-z0-9_-]+(?:\[-?[0-9]+\])?)$`
unfoldable pub section_pattern : Text → Bool
unfolding name_pattern anonymous_section index_start index_digits
section_pattern [] = false
section_pattern (c ∷ s) = if c == b'@' then anonymous_section false s else name_pattern (c ∷ s)

unfoldable pub health_char : ℕ → Bool
health_char c = is_letter c || (is_digit c || (c == b'.' || c == b'-'))

-- `^[A-Za-z0-9.-]{1,253}$`
unfoldable pub health_pattern : Text → Bool
health_pattern s = not (is_empty s) && (leb (length s) 253 && all health_char s)

unfoldable pub device_change_set_config_allowed : Text → Bool
device_change_set_config_allowed config =
    text_eq config (codes "system")
    || (text_eq config (codes "dhcp")
        || (text_eq config (codes "firewall")
            || (text_eq config (codes "dropbear") || text_eq config (codes "sqm"))))

unfoldable pub schema_char : ℕ → Bool
schema_char c = is_letter c || (is_digit c || c == b'_')

-- `^[a-zA-Z_][a-zA-Z0-9_]{0,62}$`
unfoldable pub is_valid_schema_name : Text → Bool
is_valid_schema_name [] = false
is_valid_schema_name (c ∷ s) =
    (is_letter c || c == b'_') && (leb (length s) 62 && all schema_char s)

unfoldable pub safe_schema_ident : Text → Result Error Text
unfolding is_valid_schema_name
safe_schema_ident schema =
    if not (is_valid_schema_name schema) then err invalid_schema_identifier else ok schema

-- Three messages of one error: an empty alias, one of more than 55 bytes, and one that is no name.
unfoldable pub safe_tenant_schema : Text → Result Error Text
unfolding is_valid_schema_name
safe_tenant_schema alias =
    if is_empty alias
    then err invalid_schema_identifier
    else if ltb 55 (length alias)
    then err invalid_schema_identifier
    else if not (is_valid_schema_name alias)
    then err invalid_schema_identifier
    else ok (codes "tenant_" ++ alias)
