-- ===== src/Enrollment/Calls.antt =====
-- Sequences of the enrollment calls of internal/database/enrollment.go on one tenant schema.
use openwrt_controller.Base.{
  ℕ, ◌+◌, true, List, [], ◌∷◌, Option, some, Text, is_empty, ◌==◌, Result, ok, err, ◌>>◌, >>=_ok,
  fail_if, ok_injective, ℤ, count_rows, select_row, ◌≡◌, refl, arith, inl, inr, Result-cases, subst,
  ap,
}
use openwrt_controller.Identity.{safe_schema_ident}
use openwrt_controller.Enrollment.{
  EnrollmentError, EnrollmentToken, Site, Member, SiteTables, Digest, is_site, check_schema,
  set_token, positive, site_not_found, issue_device_enrollment_token,
  revoke_device_enrollment_token, update_site, fresh_token,
}
use openwrt_controller.Enrollment.Enroll.{
  Attempt, is_member, has_site, enroll_device, enroll_checked,
}
use openwrt_controller.Enrollment.Admission.{enroll_checked-passed, enroll_with_nonce-keeps, IsKept}

-- One call on the schema, with the clock and the random token that it uses.
pub data Call : Type 0 where
  issues : ℕ → Option Text → Text → ℤ → Call
  revokes : ℕ → Text → Call
  enrolls : ℕ → Option Text → Attempt → Call

abbrev pub after_issue :
    SiteTables → Result EnrollmentError (EnrollmentToken × SiteTables) → SiteTables
after_issue t (err x) = t
after_issue t (ok (token, after)) = after

abbrev pub after_revoke : SiteTables → Result EnrollmentError SiteTables → SiteTables
after_revoke t (err x) = t
after_revoke t (ok after) = after

unfoldable pub step : Digest → Text → Call → SiteTables → SiteTables
step g schema (issues now random site ttl) t =
    after_issue t (issue_device_enrollment_token g now random schema site ttl t)
step g schema (revokes now site) t =
    after_revoke t (revoke_device_enrollment_token now schema site t)
step g schema (enrolls now random a) t = (enroll_device g now random schema a t).1

unfoldable pub run : Digest → Text → List Call → SiteTables → SiteTables
run g schema [] t = t
run g schema (c ∷ cs) t = run g schema cs (step g schema c t)

enroll_device-keeps :
    (g : Digest) (now : ℕ) (random : Option Text) (schema : Text) (a : Attempt) (t : SiteTables)
    (id : Text) (d : Member)
    → select_row (is_member id) t.devices ≡ some d
    → has_site (some d) ≡ true
    → IsKept id d t (enroll_device g now random schema a t).1
unfolding enroll_device IsKept
enroll_device-keeps g now random schema a t id d s y =
    elim (Result-cases (enroll_checked g now random schema a t)) [
      | inl (x, bad) ↦ rw bad (s, λ p n k. k)
      | inr ((r, after), good) ↦
          let (_, _, last) = enroll_checked-passed g now random schema a t after r good in
          rw good (enroll_with_nonce-keeps g now random a t after _ r id d last s y)
    ]

update_site-keeps :
    (site : Text) (f : Site → Site) (t after : SiteTables)
    → update_site site f t ≡ ok after
    → (after.devices ≡ t.devices) × (after.nonces ≡ t.nonces)
unfolding update_site
update_site-keeps site f t after h = ground arith

issue_device_enrollment_token-keeps :
    (g : Digest) (now : ℕ) (random : Option Text) (schema site : Text) (ttl : ℤ)
    (t after : SiteTables) (k : EnrollmentToken)
    → issue_device_enrollment_token g now random schema site ttl t ≡ ok (k, after)
    → (after.devices ≡ t.devices) × (after.nonces ≡ t.nonces)
unfolding issue_device_enrollment_token
issue_device_enrollment_token-keeps g now random schema site ttl t after k h =
    let (live, _, e1) =
      >>=_ok
        (check_schema (safe_schema_ident schema)
          >> fail_if (is_empty (g.trim_space site)) site_not_found
          >> positive ttl)
        _ (k, after) h in
    let (token, _, e2) =
      >>=_ok (fail_if (count_rows (is_site site) t.sites == 0) site_not_found >> fresh_token random)
        _ (k, after) e1 in
    let (end, moved, e3) =
      >>=_ok (update_site site (set_token now (g.sha256_hex token) (now + live)) t) _ (k, after)
        e2 in
    let same : end ≡ after = ap (λ q. q.1) (ok_injective e3) in
    subst (λ z. (z.devices ≡ t.devices) × (z.nonces ≡ t.nonces)) same
      (update_site-keeps site _ t end moved)

revoke_device_enrollment_token-keeps :
    (now : ℕ) (schema site : Text) (t after : SiteTables)
    → revoke_device_enrollment_token now schema site t ≡ ok after
    → (after.devices ≡ t.devices) × (after.nonces ≡ t.nonces)
unfolding revoke_device_enrollment_token
revoke_device_enrollment_token-keeps now schema site t after h =
    let (_, _, moved) = >>=_ok (check_schema (safe_schema_ident schema)) _ after h in
    update_site-keeps site _ t after moved

after_issue-keeps :
    (g : Digest) (now : ℕ) (random : Option Text) (schema site : Text) (ttl : ℤ) (t : SiteTables)
    → let after = after_issue t (issue_device_enrollment_token g now random schema site ttl t) in
      (after.devices ≡ t.devices) × (after.nonces ≡ t.nonces)
after_issue-keeps g now random schema site ttl t =
    elim (Result-cases (issue_device_enrollment_token g now random schema site ttl t)) [
      | inl (x, bad) ↦ rw bad (refl, refl)
      | inr ((k, after), good) ↦
          rw good (issue_device_enrollment_token-keeps g now random schema site ttl t after k good)
    ]

after_revoke-keeps :
    (now : ℕ) (schema site : Text) (t : SiteTables)
    → let after = after_revoke t (revoke_device_enrollment_token now schema site t) in
      (after.devices ≡ t.devices) × (after.nonces ≡ t.nonces)
after_revoke-keeps now schema site t =
    elim (Result-cases (revoke_device_enrollment_token now schema site t)) [
      | inl (x, bad) ↦ rw bad (refl, refl)
      | inr (after, good) ↦
          rw good (revoke_device_enrollment_token-keeps now schema site t after good)
    ]

step-keeps :
    (g : Digest) (schema : Text) (c : Call) (t : SiteTables) (id : Text) (d : Member)
    → select_row (is_member id) t.devices ≡ some d
    → has_site (some d) ≡ true
    → IsKept id d t (step g schema c t)
unfolding step IsKept
step-keeps g schema (issues now random site ttl) t id d s y =
    let (ds, ns) = after_issue-keeps g now random schema site ttl t in rw ds (rw ns (s, λ p n k. k))
step-keeps g schema (revokes now site) t id d s y =
    let (ds, ns) = after_revoke-keeps now schema site t in rw ds (rw ns (s, λ p n k. k))
step-keeps g schema (enrolls now random a) t id d s y =
    enroll_device-keeps g now random schema a t id d s y

pub run-keeps :
    (g : Digest) (schema : Text) (cs : List Call) (t : SiteTables) (id : Text) (d : Member)
    → select_row (is_member id) t.devices ≡ some d
    → has_site (some d) ≡ true
    → IsKept id d t (run g schema cs t)
unfolding run IsKept
run-keeps g schema [] t id d s y = (s, λ p n k. k)
run-keeps g schema (c ∷ cs) t id d s y =
    let (s', k') = step-keeps g schema c t id d s y in
    let (s2, k2) = run-keeps g schema cs (step g schema c t) id d s' y in
    (s2, λ p n k. k2 p n (k' p n k))
