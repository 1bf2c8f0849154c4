-- ===== src/Tests/Enrollments.antt =====
-- A site whose token is issued, two devices that enroll with it, and a retry.
use openwrt_controller.Identity.{name_char, safe_schema_ident, safe_tenant_schema, schema_char}
use openwrt_controller.Base.{
  ℕ, true, false, List, [], ◌∷◌, ◌++◌, none, some, Text, codes, text_eq, if◌then◌else◌, Result, ok,
  pos, select_row, count_rows, update_rows, ◌≡◌, refl, arith,
}
use openwrt_controller.Enrollment.{
  EnrollmentError, Site, Member, SiteTables, TenantSites, Digest, EnrollmentToken, is_site,
  is_after, issue_device_enrollment_token, revoke_device_enrollment_token,
  resolve_device_enrollment_token,
}
use openwrt_controller.Enrollment.Enroll.{Enrolled, Attempt, is_member, check_site, enroll_device}
use openwrt_controller.Enrollment.Calls.{Call, enrolls, revokes, run, step}
use openwrt_controller.Enrollment.Retry.{retry_gets_the_same_token}
use openwrt_controller.Enrollment.Authority.{enrolled_device_is_fixed}
use openwrt_controller.Enrollment.Rotation.{
  issue_retires_old_tokens, revoke_retires_all_tokens, none_issuing, not_issuing,
}
use openwrt_controller.Enrollment.Handler.{
  Decoding, device_id_pattern, tables_of, device_enrollment_handler,
  parse_device_enrollment_request,
}
use openwrt_controller.Enrollment.Handler.Endpoint.{endpoint_enrolls_at_the_token_site}

abbrev digest : Digest
digest = record { trim_space = λ s. s; to_upper = λ s. s; sha256_hex = λ s. codes "#" ++ s }

abbrev home : Text
home = codes "home"

abbrev schema : Text
schema = codes "tenant_acme"

-- The site holds an older token.
abbrev open_site : Site
open_site = record {
  id = home;
  auto_adopt = some true;
  enrollment_token_hash = some (codes "#old");
  enrollment_token_expires_at = some 9000;
  updated_at = 1;
}

abbrev before : SiteTables
before = record { sites = open_site ∷ []; devices = []; nonces = [] }

abbrev new_token : EnrollmentToken
new_token = record { token = codes "new"; expires_at = 6000 }

abbrev issued : SiteTables
issued = record before {
  sites =
      (record open_site {
        enrollment_token_hash = some (codes "#new");
        enrollment_token_expires_at = some 6000;
        updated_at = 1000;
      })
      ∷ [];
}

issue-ok :
    issue_device_enrollment_token digest 1000 (some (codes "new")) schema home (pos 5000) before
    ≡ ok (new_token, issued)
unfolding issue_device_enrollment_token safe_schema_ident schema_char count_rows text_eq update_rows
issue-ok = refl

abbrev revoked : SiteTables
revoked = record before {
  sites =
      (record open_site {
        enrollment_token_hash = none;
        enrollment_token_expires_at = none;
        updated_at = 1000;
      })
      ∷ [];
}

revoke-ok : revoke_device_enrollment_token 1000 schema home before ≡ ok revoked
unfolding revoke_device_enrollment_token safe_schema_ident schema_char count_rows text_eq
    update_rows
revoke-ok = refl

abbrev attempt : Attempt
attempt = record {
  site_id = home;
  token_hash = codes "#new";
  device_id = codes "AP1";
  nonce = codes "nonce-0123456789";
  capabilities = codes "{}";
}

abbrev neighbour : Attempt
neighbour = record attempt { device_id = codes "AP2"; nonce = codes "other-0123456789" }

abbrev first : Result EnrollmentError Enrolled × SiteTables
first = enroll_device digest 1100 (some (codes "secret")) schema attempt issued

abbrev granted : Enrolled
granted = record { device_id = codes "AP1"; site_id = home; token = codes "secret"; created = true }

first-ok : first.0 ≡ ok granted
unfolding enroll_device safe_schema_ident schema_char select_row text_eq count_rows
first-ok = refl

abbrev calls : List Call
calls = enrolls 1200 (some (codes "hidden")) neighbour ∷ revokes 1250 (codes "away") ∷ []

still_open :
    check_site 2000
      (codes "#new")
      (select_row (is_site home) (run digest schema calls first.1).sites)
    ≡ ok tt
unfolding check_site select_row run step revoke_device_enrollment_token safe_schema_ident
    schema_char count_rows enroll_device text_eq
still_open = refl

retry_gets_the_same_token_example :
    enroll_device digest 2000 none schema attempt (run digest schema calls first.1) ≡ (
      ok (record {
        device_id = codes "AP1";
        site_id = home;
        token = codes "secret";
        created = false;
      }),
      run digest schema calls first.1,
    )
retry_gets_the_same_token_example =
    retry_gets_the_same_token digest 1100 (some (codes "secret")) schema attempt issued granted
      calls 2000 none first-ok refl refl (omega arith) still_open

abbrev member : Member
member = record {
  id = codes "AP1";
  site_id = some home;
  status = codes "Adopted";
  device_token = some (codes "secret");
  capabilities = codes "{}";
  updated_at = 1100;
}

member-row : select_row (is_member (codes "AP1")) first.1.devices ≡ some member
unfolding select_row enroll_device safe_schema_ident schema_char text_eq count_rows
member-row = refl

enrolled_device_is_fixed_example :
    select_row (is_member (codes "AP1")) (run digest schema calls first.1).devices ≡ some member
enrolled_device_is_fixed_example =
    enrolled_device_is_fixed digest schema calls first.1 (codes "AP1") member member-row refl

abbrev stale : Attempt
stale = record attempt { token_hash = codes "#old" }

quiet : none_issuing home calls ≡ true
unfolding none_issuing not_issuing
quiet = refl

replaced : text_eq (codes "#new") (codes "#old") ≡ false
unfolding text_eq
replaced = refl

issue_retires_old_tokens_example : ¬ (
    (enroll_device digest 2000 none schema stale (run digest schema calls issued)).0 ≡ ok granted)
issue_retires_old_tokens_example =
    issue_retires_old_tokens digest 1000 (some (codes "new")) schema (pos 5000) before calls 2000
      none stale granted new_token issued quiet issue-ok replaced

revoke_retires_all_tokens_example : ¬ (
    (enroll_device digest 2000 none schema stale (run digest schema calls revoked)).0 ≡ ok granted)
revoke_retires_all_tokens_example =
    revoke_retires_all_tokens digest 1000 schema before calls 2000 none stale granted revoked quiet
      revoke-ok

abbrev tenants : List TenantSites
tenants =
    (record { schema_alias = codes "other"; is_active = true; tables = before })
    ∷ (record { schema_alias = codes "acme"; is_active = true; tables = issued })
    ∷ []

abbrev decoding : Decoding
decoding = record {
  decode = λ s. some (record {
    device_id = codes "AP1";
    nonce = codes "nonce-0123456789";
    capabilities = codes "{}";
  });
  at_end = λ s. true;
  is_object = λ s. true;
}

endpoint-ok :
    (device_enrollment_handler digest decoding 1100
      (some (codes "secret"))
      (codes "new")
      (codes "{}")
      tenants).0
    ≡ ok (201, granted)
unfolding device_enrollment_handler parse_device_enrollment_request name_char
    resolve_device_enrollment_token safe_tenant_schema schema_char select_row text_eq tables_of
    enroll_device safe_schema_ident count_rows
endpoint-ok = refl

endpoint_enrolls_at_the_token_site_example :
    (schema : Text) × (site : Text) × (t : SiteTables) × (s : Site)
    × (resolve_device_enrollment_token digest 1100 tenants (codes "new") ≡ ok (schema, site))
    × (tables_of schema tenants ≡ some t)
    × (select_row (is_site site) t.sites ≡ some s)
    × (s.auto_adopt ≡ some true)
    × (s.enrollment_token_hash ≡ some (codes "#new"))
    × (is_after 1100 s.enrollment_token_expires_at ≡ true)
    × (granted.site_id ≡ site)
    × (device_id_pattern granted.device_id ≡ true)
    × (Path ℕ 201 (if granted.created then 201 else 200))
endpoint_enrolls_at_the_token_site_example =
    endpoint_enrolls_at_the_token_site digest decoding 1100 (some (codes "secret")) (codes "new")
      (codes "{}") tenants 201 granted endpoint-ok
