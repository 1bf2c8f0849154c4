-- ===== src/Schema/External.antt =====
-- What the database layer takes from the Go library and from PostgreSQL, as parameters.
use openwrt_controller.Base.{Bool, Text}
use openwrt_controller.Schema.Documents.{ChangeSetContent}

pub record Platform : Type 0 where
  -- strings.EqualFold
  pub equal_fold : Text → Text → Bool
  -- strings.TrimSpace
  pub trim_space : Text → Text
  -- SQL LOWER
  pub lower : Text → Text
  -- net.ParseIP(s) != nil
  pub parse_ip : Text → Bool
  -- the hexadecimal SHA-256 of the JSON encoding
  pub content_hash : ChangeSetContent → Text
  -- utf8.ValidString, and the text that json.Unmarshal reads from json.Marshal of a text
  pub valid_utf8 : Text → Bool
  pub json_text : Text → Text
  -- equality and containment (@>) of JSONB values
  pub jsonb_eq : Text → Text → Bool
  pub jsonb_contains : Text → Text → Bool
