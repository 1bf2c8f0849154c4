-- ===== src/Enrollment/Authority.antt =====
-- Which credentials EnrollDevice (internal/database/enrollment.go) accepts, and where a device stays.
use openwrt_controller.Base.{
  ℕ, true, List, Option, some, Text, text_eq→eq, ok, select_row, ◌≡◌, arith, inl, inr, Option-cases,
  Result-cases,
}
use openwrt_controller.Enrollment.{Site, Member, SiteTables, Digest, is_site, is_after}
use openwrt_controller.Enrollment.Enroll.{
  Enrolled, Attempt, is_member, has_site, check_site, enroll_device, enroll_checked,
}
use openwrt_controller.Enrollment.Admission.{enroll_checked-passed, IsKept}
use openwrt_controller.Enrollment.Calls.{Call, run, run-keeps}

-- A device that is in a site stays there with its token: no sequence of calls that issue or revoke
-- tokens or enroll devices on the schema changes its row.
pub enrolled_device_is_fixed :
    (g : Digest) (schema : Text) (cs : List Call) (t : SiteTables) (id : Text) (d : Member)
    → select_row (is_member id) t.devices ≡ some d
    → has_site (some d) ≡ true
    → select_row (is_member id) (run g schema cs t).devices ≡ some d
unfolding IsKept
enrolled_device_is_fixed g schema cs t id d s y = (run-keeps g schema cs t id d s y).0

accepting_site :
    (now : ℕ) (hash : Text) (s : Site)
    → check_site now hash (some s) ≡ ok tt
    → (s.auto_adopt ≡ some true)
      × (s.enrollment_token_hash ≡ some hash)
      × (is_after now s.enrollment_token_expires_at ≡ true)
unfolding check_site
accepting_site now hash s h = elim (Option-cases s.enrollment_token_hash) [
  | inl bare ↦ absurd (ground (arith, bare))
  | inr (x, kept) ↦ ground (arith, kept, text_eq→eq x hash)
]

-- A device is enrolled only with the hash of a site's token that has not expired, in a site that
-- adopts devices by itself. This holds of first enrollments and of retries.
pub enrollment_is_authorised :
    (g : Digest) (now : ℕ) (random : Option Text) (schema : Text) (a : Attempt) (t : SiteTables)
    (r : Enrolled)
    → (enroll_device g now random schema a t).0 ≡ ok r
    → (s : Site) × (select_row (is_site a.site_id) t.sites ≡ some s)
      × (s.auto_adopt ≡ some true)
      × (s.enrollment_token_hash ≡ some a.token_hash)
      × (is_after now s.enrollment_token_expires_at ≡ true)
unfolding enroll_device check_site
enrollment_is_authorised g now random schema a t r h =
    elim (Result-cases (enroll_checked g now random schema a t)) [
      | inl (x, bad) ↦ absurd (let z = (rw bad at h) in ground arith)
      | inr ((q, after), good) ↦
          let (_, open_site, _) = enroll_checked-passed g now random schema a t after q good in
          elim (Option-cases (select_row (is_site a.site_id) t.sites)) [
            | inl gone ↦ absurd (let z = (rw gone at open_site) in ground arith)
            | inr (s, row) ↦
                let (auto, hash, live) = accepting_site now a.token_hash s (rw row at open_site) in
                (s, row, auto, hash, live)
          ]
    ]
