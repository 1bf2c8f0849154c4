-- ===== src/Enrollment/Handler/Endpoint.antt =====
-- What the enrollment endpoint (internal/api/handlers/enrollment.go) answers.
use openwrt_controller.Base.{
  ℕ, true, not, ◌||◌, List, Option, none, some, Text, is_empty, length, take, ◌+◌, ltb, text_eq,
  if◌then◌else◌, Result, ok, err, ◌>>◌, >>=_ok, fail_if, ok_injective, select_row, ◌≡◌, refl, arith,
  inl, inr, Bool-cases, Option-cases, Result-cases, subst, ap, sym,
}
use openwrt_controller.Enrollment.{
  EnrollmentError, already_enrolled, nonce_conflict, Site, Member, Nonce, SiteTables, TenantSites,
  Digest, is_site, is_after, fresh_token, resolve_device_enrollment_token,
}
use openwrt_controller.Enrollment.Enroll.{
  Enrolled, Attempt, has_site, enroll_device, enroll_checked, enroll_with_nonce, admit, replay,
  bind_nonce, with_tables,
}
use openwrt_controller.Enrollment.Admission.{enroll_checked-passed}
use openwrt_controller.Enrollment.Authority.{enrollment_is_authorised}
use openwrt_controller.Enrollment.Handler.{
  max_body, EnrollmentRequest, Decoding, device_id_pattern, nonce_pattern,
  normalize_enrollment_device_id, checked_request, decoded_request, parse_device_enrollment_request,
  tables_of, enroll_answer, enroll_in, enroll_resolved, enroll_parsed, device_enrollment_handler,
}

-- The answer names the attempt's device and site.
Answers : Attempt → Enrolled → Type 0
Answers a r = (r.device_id ≡ a.device_id) × (r.site_id ≡ a.site_id)

with_tables-Answers :
    (a : Attempt) (n : Nonce) (t after : SiteTables) (o : Option Member) (r : Enrolled)
    → (if not (text_eq n.device_id a.device_id)
        then err nonce_conflict
        else with_tables t (replay a o))
      ≡ ok (r, after)
    → Answers a r
unfolding replay Answers
with_tables-Answers a n t after o r h = ground arith

admit-Answers :
    (g : Digest) (now : ℕ) (random : Option Text) (a : Attempt) (t after : SiteTables)
    (o : Option Member) (r : Enrolled)
    → admit g now random a t o ≡ ok (r, after)
    → Answers a r
unfolding admit Answers
admit-Answers g now random a t after o r e =
    let (token, _, e2) =
      >>=_ok (fail_if (has_site o) already_enrolled >> fresh_token random) _ (r, after) e in
    let (nonces, _, e3) = >>=_ok (bind_nonce g now a t.nonces) _ (r, after) e2 in
    let done = ok_injective e3 in
    (sym (ap (λ q. q.0.device_id) done), sym (ap (λ q. q.0.site_id) done))

enroll_with_nonce-Answers :
    (g : Digest) (now : ℕ) (random : Option Text) (a : Attempt) (t after : SiteTables)
    (o : Option Nonce) (r : Enrolled)
    → enroll_with_nonce g now random a t o ≡ ok (r, after)
    → Answers a r
unfolding enroll_with_nonce
enroll_with_nonce-Answers g now random a t after none r e =
    admit-Answers g now random a t after _ r e
enroll_with_nonce-Answers g now random a t after (some n) r e =
    with_tables-Answers a n t after _ r e

enroll_device-Answers :
    (g : Digest) (now : ℕ) (random : Option Text) (schema : Text) (a : Attempt) (t : SiteTables)
    (r : Enrolled)
    → (enroll_device g now random schema a t).0 ≡ ok r
    → Answers a r
unfolding enroll_device
enroll_device-Answers g now random schema a t r h =
    elim (Result-cases (enroll_checked g now random schema a t)) [
      | inl (x, bad) ↦ absurd (let z = (rw bad at h) in ground arith)
      | inr ((q, after), good) ↦
          let same : q ≡ r = ok_injective (rw good at h) in
          let (_, _, last) = enroll_checked-passed g now random schema a t after q good in
          subst (λ z. Answers a z) same (enroll_with_nonce-Answers g now random a t after _ q last)
    ]

-- A request that was parsed has an id of the pattern and a nonce of the pattern.
IsParsed : EnrollmentRequest → Type 0
IsParsed q = (device_id_pattern q.device_id ≡ true) × (nonce_pattern q.nonce ≡ true)

checked_request-IsParsed :
    (d : Digest) (j : Decoding) (raw q : EnrollmentRequest) (o : Option Text)
    → ((id : Text) → o ≡ some id → device_id_pattern id ≡ true)
    → checked_request d j raw o ≡ some q
    → IsParsed q
unfolding checked_request IsParsed
checked_request-IsParsed d j raw q none v h = absurd (ground arith)
checked_request-IsParsed d j raw q (some id) v h = ground (arith, v id refl)

normalize_enrollment_device_id-valid :
    (d : Digest) (raw id : Text)
    → normalize_enrollment_device_id d raw ≡ some id
    → device_id_pattern id ≡ true
unfolding normalize_enrollment_device_id
normalize_enrollment_device_id-valid d raw id h = ground arith

decoded_request-IsParsed :
    (d : Digest) (j : Decoding) (raw : Text) (o : Option EnrollmentRequest) (q : EnrollmentRequest)
    → decoded_request d j raw o ≡ some q
    → IsParsed q
unfolding decoded_request
decoded_request-IsParsed d j raw none q h = absurd (ground arith)
decoded_request-IsParsed d j raw (some p) q h = elim (Bool-cases (not (j.at_end raw))) [
  | inl bad ↦ absurd (let z = (rw bad at h) in ground arith)
  | inr good ↦
      checked_request-IsParsed d j p q (normalize_enrollment_device_id d p.device_id)
        (normalize_enrollment_device_id-valid d p.device_id) (rw good at h)
]

parse_device_enrollment_request-IsParsed :
    (d : Digest) (j : Decoding) (body : Text) (q : EnrollmentRequest)
    → parse_device_enrollment_request d j body ≡ some q
    → IsParsed q
unfolding parse_device_enrollment_request
parse_device_enrollment_request-IsParsed d j body q h =
    elim (Bool-cases (ltb max_body (length (take (max_body + 1) body)))) [
      | inl long ↦ absurd (let z = (rw long at h) in ground arith)
      | inr fits ↦ decoded_request-IsParsed d j (take (max_body + 1) body) _ q (rw fits at h)
    ]

enroll_answer-ok :
    (r : Result EnrollmentError Enrolled) (status : ℕ) (e : Enrolled)
    → enroll_answer r ≡ ok (status, e)
    → (r ≡ ok e) × (status ≡ (if e.created then 201 else 200))
unfolding enroll_answer
enroll_answer-ok r status e h = ground arith

-- An enrollment that the endpoint grants is for the site that the token was found at, in the tables of
-- its tenant, where that site adopts devices and holds the hash of the token unexpired. The answer
-- names that site and a device id of the pattern, and its status is 201 where the device was
-- enrolled now and 200 where this is a retry.
pub endpoint_enrolls_at_the_token_site :
    (d : Digest) (j : Decoding) (now : ℕ) (random : Option Text) (header body : Text)
    (tenants : List TenantSites) (status : ℕ) (r : Enrolled)
    → (device_enrollment_handler d j now random header body tenants).0 ≡ ok (status, r)
    → (schema : Text) × (site : Text) × (t : SiteTables) × (s : Site)
      × (resolve_device_enrollment_token d now tenants (d.trim_space header) ≡ ok (schema, site))
      × (tables_of schema tenants ≡ some t)
      × (select_row (is_site site) t.sites ≡ some s)
      × (s.auto_adopt ≡ some true)
      × (s.enrollment_token_hash ≡ some (d.sha256_hex (d.trim_space header)))
      × (is_after now s.enrollment_token_expires_at ≡ true)
      × (r.site_id ≡ site)
      × (device_id_pattern r.device_id ≡ true)
      × (status ≡ (if r.created then 201 else 200))
unfolding device_enrollment_handler enroll_parsed enroll_resolved enroll_in IsParsed Answers
endpoint_enrolls_at_the_token_site d j now random header body tenants status r h =
    elim (Bool-cases (is_empty (d.trim_space header) || ltb 256 (length (d.trim_space header)))) [
      | inl bad ↦ absurd (let z = (rw bad at h) in ground arith)
      | inr fits ↦
          let h1 = (rw fits at h) in
          elim (Option-cases (parse_device_enrollment_request d j body)) [
            | inl bad ↦ absurd (let z = (rw bad at h1) in ground arith)
            | inr (q, parsed) ↦
                let h2 = (rw parsed at h1) in
                elim (Result-cases
                  (resolve_device_enrollment_token d now tenants (d.trim_space header))) [
                    | inl (x, bad) ↦ absurd (let z = (rw bad at h2) in ground arith)
                    | inr ((schema, site), found) ↦
                        let h3 = (rw found at h2) in
                        elim (Option-cases (tables_of schema tenants)) [
                          | inl bad ↦ absurd (let z = (rw bad at h3) in ground arith)
                          | inr (t, held) ↦
                              let a : Attempt = record {
                                site_id = site;
                                token_hash = d.sha256_hex (d.trim_space header);
                                device_id = q.device_id;
                                nonce = q.nonce;
                                capabilities = q.capabilities;
                              } in
                              let h4 : enroll_answer (enroll_device d now random schema a t).0
                                  ≡ ok (status, r) =
                                (rw held at h3) in
                              let (granted, code) = enroll_answer-ok _ status r h4 in
                              let (s, row, auto, hash, live) =
                                enrollment_is_authorised d now random schema a t r granted in
                              let (device, at_site) =
                                enroll_device-Answers d now random schema a t r granted in
                              let (valid, _) =
                                parse_device_enrollment_request-IsParsed d j body q parsed in
                              (
                                schema,
                                site,
                                t,
                                s,
                                found,
                                held,
                                row,
                                auto,
                                hash,
                                live,
                                at_site,
                                subst (λ z. device_id_pattern z ≡ true) (sym device) valid,
                                code,
                              )
                        ]
                  ]
          ]
    ]
