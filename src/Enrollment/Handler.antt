-- ===== src/Enrollment/Handler.antt =====
-- The enrollment endpoint: DeviceEnrollmentHandler and what it parses, internal/api/handlers/
-- enrollment.go. The tenants are searched for the token, and the device is enrolled in the tables of
-- the tenant that was found.
pub mod Endpoint
use openwrt_controller.Base.{
  ℕ, ◌+◌, Bool, false, not, ◌&&◌, ◌||◌, List, [], ◌∷◌, Option, none, some, Text, codes, is_empty,
  length, take, all, ltb, leb, ◌==◌, text_eq, if◌then◌else◌, Result, ok, err,
}
use openwrt_controller.Identity.{is_digit, name_char, safe_tenant_schema}
use openwrt_controller.Schema.{Error}
use openwrt_controller.Enrollment.{
  EnrollmentError, token_not_found, site_not_found, enrollment_disabled, nonce_conflict,
  already_enrolled, SiteTables, TenantSites, Digest, resolve_device_enrollment_token,
}
use openwrt_controller.Enrollment.Enroll.{Enrolled, Attempt, enroll_device}

-- deviceEnrollmentRequest as it is decoded; `capabilities` is the raw JSON, empty where it is absent.
pub record EnrollmentRequest : Type 0 where
  pub device_id : Text
  pub nonce : Text
  pub capabilities : Text

-- encoding/json: Decode with DisallowUnknownFields, whether the next Decode gives io.EOF, and
-- whether a raw message is an object.
pub record Decoding : Type 0 where
  pub decode : Text → Option EnrollmentRequest
  pub at_end : Text → Bool
  pub is_object : Text → Bool

abbrev pub max_body : ℕ
max_body = 65536

abbrev pub is_upper_or_digit : ℕ → Bool
is_upper_or_digit c = (leb b'A' c && leb c b'Z') || is_digit c

abbrev pub device_char : ℕ → Bool
device_char c = is_upper_or_digit c || (c == b':' || (c == b'.' || (c == b'_' || c == b'-')))

-- `^[A-Z0-9][A-Z0-9:._-]{0,49}$`
unfoldable pub device_id_pattern : Text → Bool
device_id_pattern [] = false
device_id_pattern (c ∷ s) = is_upper_or_digit c && (leb (length s) 49 && all device_char s)

-- `^[A-Za-z0-9_-]{16,128}$`
unfoldable pub nonce_pattern : Text → Bool
nonce_pattern s = leb 16 (length s) && (leb (length s) 128 && all name_char s)

unfoldable pub normalize_enrollment_device_id : Digest → Text → Option Text
unfolding device_id_pattern
normalize_enrollment_device_id d raw =
    let id = d.to_upper (d.trim_space raw) in if not (device_id_pattern id) then none else some id

checked_request : Digest → Decoding → EnrollmentRequest → Option Text → Option EnrollmentRequest
unfolding nonce_pattern
checked_request d j q none = none
checked_request d j q (some id) =
    let capabilities = if is_empty q.capabilities then codes "{}" else q.capabilities in
    if not (nonce_pattern (d.trim_space q.nonce)) || not (j.is_object capabilities)
    then none
    else some (record { device_id = id; nonce = d.trim_space q.nonce; capabilities = capabilities })

decoded_request : Digest → Decoding → Text → Option EnrollmentRequest → Option EnrollmentRequest
unfolding checked_request normalize_enrollment_device_id
decoded_request d j raw none = none
decoded_request d j raw (some q) =
    if not (j.at_end raw)
    then none
    else checked_request d j q (normalize_enrollment_device_id d q.device_id)

-- parseDeviceEnrollmentRequest, on what the limited reader gives; `none` where it fails.
unfoldable pub parse_device_enrollment_request : Digest → Decoding → Text → Option EnrollmentRequest
unfolding decoded_request
parse_device_enrollment_request d j body =
    let raw = take (max_body + 1) body in
    if ltb max_body (length raw) then none else decoded_request d j raw (j.decode raw)

-- The tables of the schema, and the tenants with other tables for it.
holds_schema : Text → Result Error Text → Bool
holds_schema schema (err x) = false
holds_schema schema (ok s) = text_eq s schema

unfoldable pub tables_of : Text → List TenantSites → Option SiteTables
unfolding holds_schema
tables_of schema [] = none
tables_of schema (x ∷ xs) =
    if holds_schema schema (safe_tenant_schema x.schema_alias)
    then some x.tables
    else tables_of schema xs

unfoldable pub put_tables : Text → SiteTables → List TenantSites → List TenantSites
unfolding holds_schema
put_tables schema t [] = []
put_tables schema t (x ∷ xs) =
    if holds_schema schema (safe_tenant_schema x.schema_alias)
    then record x { tables = t } ∷ xs
    else x ∷ put_tables schema t xs

resolve_status : EnrollmentError → ℕ
resolve_status token_not_found = 403
resolve_status _ = 503

enroll_status : EnrollmentError → ℕ
enroll_status token_not_found = 403
enroll_status enrollment_disabled = 403
enroll_status nonce_conflict = 409
enroll_status already_enrolled = 409
enroll_status site_not_found = 404
enroll_status _ = 500

enroll_answer : Result EnrollmentError Enrolled → Result ℕ (ℕ × Enrolled)
unfolding enroll_status
enroll_answer (err x) = err (enroll_status x)
enroll_answer (ok r) = ok (if r.created then 201 else 200, r)

enroll_in :
    Digest
    → ℕ
    → Option Text
    → Text
    → EnrollmentRequest
    → List TenantSites
    → Text
    → Text
    → Option SiteTables
    → Result ℕ (ℕ × Enrolled) × List TenantSites
unfolding enroll_answer
enroll_in d now random token q tenants schema site none = (err 500, tenants)
enroll_in d now random token q tenants schema site (some t) =
    let attempt : Attempt = record {
      site_id = site;
      token_hash = d.sha256_hex token;
      device_id = q.device_id;
      nonce = q.nonce;
      capabilities = q.capabilities;
    } in
    let r = enroll_device d now random schema attempt t in
    (enroll_answer r.0, put_tables schema r.1 tenants)

enroll_resolved :
    Digest
    → ℕ
    → Option Text
    → Text
    → EnrollmentRequest
    → List TenantSites
    → Result EnrollmentError (Text × Text)
    → Result ℕ (ℕ × Enrolled) × List TenantSites
unfolding enroll_in resolve_status
enroll_resolved d now random token q tenants (err x) = (err (resolve_status x), tenants)
enroll_resolved d now random token q tenants (ok (schema, site)) =
    enroll_in d now random token q tenants schema site (tables_of schema tenants)

enroll_parsed :
    Digest
    → ℕ
    → Option Text
    → Text
    → List TenantSites
    → Option EnrollmentRequest
    → Result ℕ (ℕ × Enrolled) × List TenantSites
unfolding enroll_resolved
enroll_parsed d now random token tenants none = (err 400, tenants)
enroll_parsed d now random token tenants (some q) =
    enroll_resolved d now random token q tenants
      (resolve_device_enrollment_token d now tenants token)

-- DeviceEnrollmentHandler for a POST: the header X-Site-Enrollment-Token and the body give the
-- status of a refusal, or the status with the answer.
unfoldable pub device_enrollment_handler :
    Digest
    → Decoding
    → ℕ
    → Option Text
    → Text
    → Text
    → List TenantSites
    → Result ℕ (ℕ × Enrolled) × List TenantSites
unfolding enroll_parsed
device_enrollment_handler d j now random header body tenants =
    if is_empty (d.trim_space header) || ltb 256 (length (d.trim_space header))
    then (err 401, tenants)
    else enroll_parsed d now random (d.trim_space header) tenants
        (parse_device_enrollment_request d j body)
