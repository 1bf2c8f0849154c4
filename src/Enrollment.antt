-- ===== src/Enrollment.antt =====
-- The site enrollment tokens of internal/database/enrollment.go: issuing, revoking and resolving
-- them. The tables of one tenant schema are lists of their rows, CURRENT_TIMESTAMP is an argument,
-- and the errors are named for the Go errors or for their message. Identifiers are in the form in
-- which PostgreSQL prints a UUID.
pub mod Enroll
pub mod Admission
pub mod Calls
pub mod Retry
pub mod Authority
pub mod Rotation
pub mod Handler
use openwrt_controller.Base.{
  ℕ, zero, suc, ◌+◌, Bool, true, false, not, ◌&&◌, ◌||◌, List, [], ◌∷◌, Option, none, some, Text,
  is_empty, ltb, ◌==◌, text_eq, if◌then◌else◌, Result, ok, err, ◌>>=◌, ◌>>◌, fail_if, ℤ, pos,
  negsuc, update_rows, count_rows, select_row,
}
use openwrt_controller.Schema.{Error}
use openwrt_controller.Identity.{safe_schema_ident, safe_tenant_schema}

pub data EnrollmentError : Type 0 where
  token_not_found site_not_found enrollment_disabled nonce_conflict : EnrollmentError
  already_enrolled invalid_schema ttl_not_positive identity_incomplete : EnrollmentError
  record_incomplete ambiguous_token no_device random_failed nonce_taken : EnrollmentError

-- A row of `sites`, with the columns that enrollment uses.
pub record Site : Type 0 where
  pub id : Text
  pub auto_adopt : Option Bool
  pub enrollment_token_hash : Option Text
  pub enrollment_token_expires_at : Option ℕ
  pub updated_at : ℕ

-- A row of `devices`, with the columns that enrollment uses.
pub record Member : Type 0 where
  pub id : Text
  pub site_id : Option Text
  pub status : Text
  pub device_token : Option Text
  pub capabilities : Text
  pub updated_at : ℕ

-- A row of `device_enrollment_nonces`, with primary key (site_id, nonce_hash).
pub record Nonce : Type 0 where
  pub site_id : Text
  pub nonce_hash : Text
  pub device_id : Text
  pub expires_at : ℕ

pub record SiteTables : Type 0 where
  pub sites : List Site
  pub devices : List Member
  pub nonces : List Nonce

-- A tenant with the tables of its schema.
pub record TenantSites : Type 0 where
  pub schema_alias : Text
  pub is_active : Bool
  pub tables : SiteTables

-- strings.TrimSpace, strings.ToUpper, and the hexadecimal SHA-256 of a text.
pub record Digest : Type 0 where
  pub trim_space : Text → Text
  pub to_upper : Text → Text
  pub sha256_hex : Text → Text

pub record EnrollmentToken : Type 0 where
  pub token : Text
  pub expires_at : ℕ

abbrev pub is_site : Text → Site → Bool
is_site id s = text_eq s.id id

-- COALESCE(flag, false)
abbrev pub coalesce_false : Option Bool → Bool
coalesce_false none = false
coalesce_false (some b) = b

-- `column > CURRENT_TIMESTAMP`, false on NULL.
abbrev pub is_after : ℕ → Option ℕ → Bool
is_after now none = false
is_after now (some t) = ltb now t

-- `column = value`, false on NULL.
abbrev pub holds_text : Text → Option Text → Bool
holds_text x none = false
holds_text x (some y) = text_eq y x

abbrev pub check_schema : Result Error Text → Result EnrollmentError Unit
check_schema (err x) = err invalid_schema
check_schema (ok s) = ok tt

-- The time to live, if it is positive.
abbrev pub positive : ℤ → Result EnrollmentError ℕ
positive (negsuc n) = err ttl_not_positive
positive (pos zero) = err ttl_not_positive
positive (pos (suc n)) = ok (suc n)

abbrev pub fresh_token : Option Text → Result EnrollmentError Text
fresh_token none = err random_failed
fresh_token (some token) = ok token

abbrev pub set_token : ℕ → Text → ℕ → Site → Site
set_token now hash expires s = record s {
  enrollment_token_hash = some hash;
  enrollment_token_expires_at = some expires;
  updated_at = now;
}

abbrev pub clear_token : ℕ → Site → Site
clear_token now s = record s {
  enrollment_token_hash = none;
  enrollment_token_expires_at = none;
  updated_at = now;
}

-- An UPDATE of the site that must affect one row.
unfoldable pub update_site : Text → (Site → Site) → SiteTables → Result EnrollmentError SiteTables
update_site id f t =
    if not (count_rows (is_site id) t.sites == 1)
    then err site_not_found
    else ok (record t { sites = update_rows (is_site id) f t.sites })

-- IssueDeviceEnrollmentToken: the token with the tables after it. `random` is what
-- randomEnrollmentToken gives, `none` where it fails.
unfoldable pub issue_device_enrollment_token :
    Digest
    → ℕ
    → Option Text
    → Text
    → Text
    → ℤ
    → SiteTables
    → Result EnrollmentError (EnrollmentToken × SiteTables)
unfolding update_site
issue_device_enrollment_token d now random schema site ttl t =
    check_schema (safe_schema_ident schema)
    >> fail_if (is_empty (d.trim_space site)) site_not_found
    >> positive ttl
    >>= λ live.
        fail_if (count_rows (is_site site) t.sites == 0) site_not_found
        >> fresh_token random
        >>= λ token.
            update_site site (set_token now (d.sha256_hex token) (now + live)) t >>= λ after.
            ok (record { token = token; expires_at = now + live }, after)

unfoldable pub revoke_device_enrollment_token :
    ℕ → Text → Text → SiteTables → Result EnrollmentError SiteTables
unfolding update_site
revoke_device_enrollment_token now schema site t =
    check_schema (safe_schema_ident schema) >> update_site site (clear_token now) t

-- The condition of the query on the sites of one tenant.
abbrev pub accepts_hash : ℕ → Text → Site → Bool
accepts_hash now hash s =
    holds_text hash s.enrollment_token_hash
    && (is_after now s.enrollment_token_expires_at && coalesce_false s.auto_adopt)

-- One turn of the loop over the aliases, on what the query finds: `matched` is the pair of
-- matchedSchema and matchedSite.
abbrev pub match_site :
    Text → Option Site → Option (Text × Text) → Result EnrollmentError (Option (Text × Text))
match_site schema none matched = ok matched
match_site schema (some s) none = ok (some (schema, s.id))
match_site schema (some s) (some m) = err ambiguous_token

match_alias :
    ℕ
    → Text
    → SiteTables
    → Result Error Text
    → Option (Text × Text)
    → Result EnrollmentError (Option (Text × Text))
match_alias now hash t (err x) matched = ok matched
match_alias now hash t (ok schema) matched =
    match_site schema (select_row (accepts_hash now hash) t.sites) matched

unfoldable pub match_tenants :
    ℕ
    → Text
    → List TenantSites
    → Option (Text × Text)
    → Result EnrollmentError (Option (Text × Text))
unfolding match_alias
match_tenants now hash [] matched = ok matched
match_tenants now hash (x ∷ xs) matched =
    (if x.is_active
      then match_alias now hash x.tables (safe_tenant_schema x.schema_alias) matched
      else ok matched)
    >>= match_tenants now hash xs

matched_or : Option (Text × Text) → Result EnrollmentError (Text × Text)
matched_or none = err token_not_found
matched_or (some m) = ok m

-- ResolveDeviceEnrollmentToken: the schema and the site of the token.
unfoldable pub resolve_device_enrollment_token :
    Digest → ℕ → List TenantSites → Text → Result EnrollmentError (Text × Text)
unfolding match_tenants matched_or
resolve_device_enrollment_token d now tenants token =
    if is_empty (d.trim_space token)
    then err token_not_found
    else match_tenants now (d.sha256_hex token) tenants none >>= matched_or
