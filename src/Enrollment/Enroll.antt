-- ===== src/Enrollment/Enroll.antt =====
-- EnrollDevice of internal/database/enrollment.go. A call that fails rolls its transaction back.
use openwrt_controller.Base.{
  ℕ, ◌+◌, Bool, true, false, not, ◌&&◌, ◌||◌, List, [], ◌∷◌, ◌++◌, Option, none, some, Text, codes,
  is_empty, ltb, ◌==◌, text_eq, if◌then◌else◌, Result, ok, err, ◌>>=◌, ◌>>◌, fail_if, update_rows,
  count_rows, select_row,
}
use openwrt_controller.Identity.{safe_schema_ident}
use openwrt_controller.Enrollment.{
  EnrollmentError, token_not_found, enrollment_disabled, nonce_conflict, already_enrolled,
  identity_incomplete, record_incomplete, no_device, nonce_taken, Site, Member, Nonce, SiteTables,
  Digest, is_site, coalesce_false, is_after, holds_text, check_schema, fresh_token,
}

pub record Enrolled : Type 0 where
  pub device_id : Text
  pub site_id : Text
  pub token : Text
  pub created : Bool

-- What a device presents: its site, the hash of the site's token, its id, its nonce and its
-- capabilities.
pub record Attempt : Type 0 where
  pub site_id : Text
  pub token_hash : Text
  pub device_id : Text
  pub nonce : Text
  pub capabilities : Text

abbrev pub is_member : Text → Member → Bool
is_member id d = text_eq d.id id

-- INTERVAL '24 hours', in microseconds.
abbrev pub nonce_lifetime : ℕ
nonce_lifetime = 86400000000

abbrev pub is_incomplete : Attempt → Bool
is_incomplete a =
    is_empty a.site_id || (is_empty a.token_hash || (is_empty a.device_id || is_empty a.nonce))

-- The checks on the row of the site.
unfoldable pub check_site : ℕ → Text → Option Site → Result EnrollmentError Unit
check_site now hash none = err token_not_found
check_site now hash (some s) =
    if not (coalesce_false s.auto_adopt)
    then err enrollment_disabled
    else if not (is_after now s.enrollment_token_expires_at)
        || not (holds_text hash s.enrollment_token_hash)
    then err token_not_found
    else ok tt

-- The row of a nonce, and the one that is still in force.
abbrev pub is_nonce : Text → Text → Nonce → Bool
is_nonce site hash n = text_eq n.site_id site && text_eq n.nonce_hash hash

abbrev pub is_live_nonce : ℕ → Text → Text → Nonce → Bool
is_live_nonce now site hash n = is_nonce site hash n && ltb now n.expires_at

abbrev pub stored_token : Option Text → Text
stored_token none = []
stored_token (some token) = token

-- The answer to a retry, on the row of the device.
unfoldable pub replay : Attempt → Option Member → Result EnrollmentError Enrolled
replay a none = err no_device
replay a (some d) =
    if not (holds_text a.site_id d.site_id) || is_empty (stored_token d.device_token)
    then err record_incomplete
    else ok (record {
      device_id = a.device_id;
      site_id = a.site_id;
      token = stored_token d.device_token;
      created = false;
    })

abbrev pub new_member : ℕ → Attempt → Text → Member
new_member now a token = record {
  id = a.device_id;
  site_id = some a.site_id;
  status = codes "Adopted";
  device_token = some token;
  capabilities = if is_empty a.capabilities then codes "{}" else a.capabilities;
  updated_at = now;
}

-- The SET of the UPDATE, which leaves the id.
abbrev pub adopt_member : ℕ → Attempt → Text → Member → Member
adopt_member now a token d = record d {
  site_id = some a.site_id;
  status = codes "Adopted";
  device_token = some token;
  capabilities = if is_empty a.capabilities then codes "{}" else a.capabilities;
  updated_at = now;
}

unfoldable pub put_member : ℕ → Attempt → Text → List Member → Option Member → List Member
put_member now a token ds none = ds ++ (new_member now a token ∷ [])
put_member now a token ds (some d) =
    update_rows (is_member a.device_id) (adopt_member now a token) ds

abbrev pub has_site : Option Member → Bool
has_site none = false
has_site (some d) = not (is_empty (stored_token d.site_id))

-- The INSERT of the nonce, which its primary key refuses where an expired one is left.
unfoldable pub bind_nonce : Digest → ℕ → Attempt → List Nonce → Result EnrollmentError (List Nonce)
bind_nonce g now a ns =
    if not (count_rows (is_nonce a.site_id (g.sha256_hex a.nonce)) ns == 0)
    then err nonce_taken
    else ok (
        ns
        ++ (record {
          site_id = a.site_id;
          nonce_hash = g.sha256_hex a.nonce;
          device_id = a.device_id;
          expires_at = now + nonce_lifetime;
        }
            ∷ []))

-- The first enrollment with a nonce, on the row of the device.
unfoldable pub admit :
    Digest
    → ℕ
    → Option Text
    → Attempt
    → SiteTables
    → Option Member
    → Result EnrollmentError (Enrolled × SiteTables)
unfolding put_member bind_nonce
admit g now random a t found =
    fail_if (has_site found) already_enrolled >> fresh_token random >>= λ token.
    bind_nonce g now a t.nonces >>= λ nonces. ok (
      record { device_id = a.device_id; site_id = a.site_id; token = token; created = true },
      record t { devices = put_member now a token t.devices found; nonces = nonces },
    )

abbrev pub with_tables :
    SiteTables → Result EnrollmentError Enrolled → Result EnrollmentError (Enrolled × SiteTables)
with_tables t (err x) = err x
with_tables t (ok r) = ok (r, t)

-- After the checks on the site, on the live row of the nonce.
unfoldable pub enroll_with_nonce :
    Digest
    → ℕ
    → Option Text
    → Attempt
    → SiteTables
    → Option Nonce
    → Result EnrollmentError (Enrolled × SiteTables)
unfolding replay admit
enroll_with_nonce g now random a t none =
    admit g now random a t (select_row (is_member a.device_id) t.devices)
enroll_with_nonce g now random a t (some n) =
    if not (text_eq n.device_id a.device_id)
    then err nonce_conflict
    else with_tables t (replay a (select_row (is_member a.device_id) t.devices))

unfoldable pub enroll_checked :
    Digest
    → ℕ
    → Option Text
    → Text
    → Attempt
    → SiteTables
    → Result EnrollmentError (Enrolled × SiteTables)
unfolding check_site enroll_with_nonce
enroll_checked g now random schema a t =
    check_schema (safe_schema_ident schema)
    >> fail_if (is_incomplete a) identity_incomplete
    >> check_site now a.token_hash (select_row (is_site a.site_id) t.sites)
    >> enroll_with_nonce g now random a t
        (select_row (is_live_nonce now a.site_id (g.sha256_hex a.nonce)) t.nonces)

abbrev pub committed :
    SiteTables
    → Result EnrollmentError (Enrolled × SiteTables)
    → Result EnrollmentError Enrolled × SiteTables
committed t (err x) = (err x, t)
committed t (ok (r, after)) = (ok r, after)

-- EnrollDevice: the answer, with the tables after the call.
unfoldable pub enroll_device :
    Digest
    → ℕ
    → Option Text
    → Text
    → Attempt
    → SiteTables
    → Result EnrollmentError Enrolled × SiteTables
unfolding enroll_checked
enroll_device g now random schema a t = committed t (enroll_checked g now random schema a t)
