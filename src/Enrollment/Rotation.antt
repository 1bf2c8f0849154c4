-- ===== src/Enrollment/Rotation.antt =====
-- Tokens that were replaced or revoked (internal/database/enrollment.go).
use openwrt_controller.Base.{
  ℕ, ◌+◌, Bool, true, false, not, ◌&&◌, List, [], ◌∷◌, Option, some, Text, is_empty, ◌==◌, text_eq,
  text_eq_refl, text_eq→eq, ok, ◌>>◌, >>=_ok, fail_if, &&_true, ok_injective, ℤ, update_rows,
  count_rows, select_row, select_row-holds, ◌≡◌, ◌⊎◌, refl, arith, inl, inr, Bool-cases,
  Result-cases, subst, ap, sym, ◌∙◌,
}
use openwrt_controller.Identity.{safe_schema_ident}
use openwrt_controller.Enrollment.{
  site_not_found, EnrollmentToken, Site, SiteTables, Digest, is_site, check_schema, holds_text,
  issue_device_enrollment_token, revoke_device_enrollment_token, update_site, fresh_token, positive,
  set_token, clear_token,
}
use openwrt_controller.Enrollment.Enroll.{Enrolled, Attempt, enroll_device, enroll_checked}
use openwrt_controller.Enrollment.Admission.{enroll_checked-passed, enroll_with_nonce-sites}
use openwrt_controller.Enrollment.Calls.{Call, issues, revokes, enrolls, step, run}
use openwrt_controller.Enrollment.Authority.{enrollment_is_authorised}

-- No row of the site holds the hash.
IsRetired : Text → Text → SiteTables → Type 0
IsRetired site hash t =
    (s : Site)
    → select_row (is_site site) t.sites ≡ some s
    → holds_text hash s.enrollment_token_hash ≡ false

-- A row that is found after an UPDATE is the new form of a row, or one that was there.
select_row-updated {ℓ} :
    {A : Type ℓ} (p q : A → Bool) (f : A → A) (xs : List A) (x : A)
    → ((y : A) → p (f y) ≡ p y)
    → select_row p (update_rows q f xs) ≡ some x
    → (y : A) × (select_row p xs ≡ some y)
      × (((q y ≡ false) × (x ≡ y)) ⊎ ((q y ≡ true) × (x ≡ f y)))
unfolding select_row update_rows
select_row-updated p q f [] x k h = absurd (ground arith)
select_row-updated p q f (y ∷ ys) x k h = elim (Bool-cases (q y)) [
  | inl t ↦ elim (Bool-cases (p y)) [
    | inl m ↦
        let e : some (f y) ≡ some x = (rw m at (rw (k y) at (rw t at h))) in
        rw m (y, refl, inr (t, cc))
    | inr n ↦
        let e : select_row p (update_rows q f ys) ≡ some x = (rw n at (rw (k y) at (rw t at h))) in
        rw n (select_row-updated p q f ys x k e)
  ]
  | inr t ↦ elim (Bool-cases (p y)) [
    | inl m ↦ let e : some y ≡ some x = (rw m at (rw t at h)) in rw m (y, refl, inl (t, cc))
    | inr n ↦
        let e : select_row p (update_rows q f ys) ≡ some x = (rw n at (rw t at h)) in
        rw n (select_row-updated p q f ys x k e)
  ]
]

enroll_device-sites :
    (g : Digest) (now : ℕ) (random : Option Text) (schema : Text) (a : Attempt) (t : SiteTables)
    → (enroll_device g now random schema a t).1.sites ≡ t.sites
unfolding enroll_device
enroll_device-sites g now random schema a t =
    elim (Result-cases (enroll_checked g now random schema a t)) [
      | inl (x, bad) ↦ rw bad refl
      | inr ((q, after), good) ↦
          let (_, _, last) = enroll_checked-passed g now random schema a t after q good in
          rw good (enroll_with_nonce-sites g now random a t after _ q last)
    ]

-- An update of a site gives the site no hash but the one it writes.
update_site-IsRetired :
    (site other hash : Text) (f : Site → Site) (t after : SiteTables)
    → ((s : Site) → is_site site (f s) ≡ is_site site s)
    → ((s : Site)
        → is_site other s ≡ true
        → is_site site s ≡ true
        → holds_text hash (f s).enrollment_token_hash ≡ false)
    → update_site other f t ≡ ok after
    → ((s : Site)
        → select_row (is_site site) t.sites ≡ some s
        → is_site other s ≡ false
        → holds_text hash s.enrollment_token_hash ≡ false)
    → IsRetired site hash after
unfolding update_site IsRetired
update_site-IsRetired site other hash f t after keeps clears h old s row =
    elim (Bool-cases (not (count_rows (is_site other) t.sites == 1))) [
      | inl bad ↦ absurd (let z = (rw bad at h) in ground arith)
      | inr good ↦
          let done = ok_injective (rw good at h) in
          let found : select_row (is_site site) (update_rows (is_site other) f t.sites) ≡ some s =
            ap (λ z. select_row (is_site site) z.sites) done ∙ row in
          let (y, before, how) =
            select_row-updated (is_site site) (is_site other) f t.sites s keeps found in
          let mine = select_row-holds (is_site site) t.sites y before in
          elim how [
            | inl (miss, same) ↦ rw same (old y before miss)
            | inr (hit, made) ↦ rw made (clears y hit mine)
          ]
    ]

-- The call is no Issue for the site.
unfoldable pub not_issuing : Text → Call → Bool
not_issuing site (issues now random other ttl) = not (text_eq other site)
not_issuing site (revokes now other) = true
not_issuing site (enrolls now random a) = true

unfoldable pub none_issuing : Text → List Call → Bool
none_issuing site [] = true
none_issuing site (c ∷ cs) = not_issuing site c && none_issuing site cs

-- Two sites of one row are the same.
one_site :
    (site other : Text) (s : Site)
    → is_site other s ≡ true
    → is_site site s ≡ true
    → text_eq other site ≡ true
one_site site other s hit mine =
    let a = text_eq→eq s.id other hit in
    let b = text_eq→eq s.id site mine in subst (λ z. text_eq z site ≡ true) a mine

own_site :
    (site other : Text) (s : Site)
    → is_site site s ≡ true
    → is_site other s ≡ false
    → text_eq other site ≡ false
own_site site other s mine miss = elim (Bool-cases (text_eq other site)) [
  | inl t ↦
      let a = text_eq→eq s.id site mine in
      let b = text_eq→eq other site t in absurd (ground (arith, text_eq_refl site, miss))
  | inr f ↦ f
]

-- What an Issue for `other` leaves of a hash of `site`.
issue-IsRetired :
    (g : Digest) (now : ℕ) (random : Option Text) (schema site other hash : Text) (ttl : ℤ)
    (t after : SiteTables) (k : EnrollmentToken)
    → (text_eq other site ≡ true → text_eq (g.sha256_hex k.token) hash ≡ false)
    → (text_eq other site ≡ false → IsRetired site hash t)
    → issue_device_enrollment_token g now random schema other ttl t ≡ ok (k, after)
    → IsRetired site hash after
unfolding issue_device_enrollment_token IsRetired
issue-IsRetired g now random schema site other hash ttl t after k apart old h =
    let (live, _, e1) =
      >>=_ok
        (check_schema (safe_schema_ident schema)
          >> fail_if (is_empty (g.trim_space other)) site_not_found
          >> positive ttl)
        _ (k, after) h in
    let (token, _, e2) =
      >>=_ok
        (fail_if (count_rows (is_site other) t.sites == 0) site_not_found >> fresh_token random) _
        (k, after) e1 in
    let (end, moved, e3) =
      >>=_ok (update_site other (set_token now (g.sha256_hex token) (now + live)) t) _ (k, after)
        e2 in
    let done = ok_injective e3 in
    let named : token ≡ k.token = ap (λ q. q.0.token) done in
    let fresh : text_eq other site ≡ true → text_eq (g.sha256_hex token) hash ≡ false =
      subst (λ z. text_eq other site ≡ true → text_eq (g.sha256_hex z) hash ≡ false) (sym named)
        apart in
    subst (λ z. IsRetired site hash z) (ap (λ q. q.1) done)
      (update_site-IsRetired site other hash (set_token now (g.sha256_hex token) (now + live)) t end
        (λ s. refl) (λ s hit mine. fresh (one_site site other s hit mine)) moved
        (λ s row miss.
          old (own_site site other s (select_row-holds (is_site site) t.sites s row) miss) s row))

revoke-IsRetired :
    (now : ℕ) (schema site other hash : Text) (t after : SiteTables)
    → (text_eq other site ≡ false → IsRetired site hash t)
    → revoke_device_enrollment_token now schema other t ≡ ok after
    → IsRetired site hash after
unfolding revoke_device_enrollment_token IsRetired
revoke-IsRetired now schema site other hash t after old h =
    let (_, _, moved) = >>=_ok (check_schema (safe_schema_ident schema)) _ after h in
    update_site-IsRetired site other hash (clear_token now) t after (λ s. refl) (λ s hit mine. refl)
      moved
      (λ s row miss.
        old (own_site site other s (select_row-holds (is_site site) t.sites s row) miss) s row)

step-IsRetired :
    (g : Digest) (schema site hash : Text) (c : Call) (t : SiteTables)
    → not_issuing site c ≡ true
    → IsRetired site hash t
    → IsRetired site hash (step g schema c t)
unfolding step not_issuing IsRetired
step-IsRetired g schema site hash (issues now random other ttl) t away old =
    elim (Result-cases (issue_device_enrollment_token g now random schema other ttl t)) [
      | inl (x, bad) ↦ rw bad old
      | inr ((k, after), good) ↦ rw good (
          issue-IsRetired g now random schema site other hash ttl t after k
            (λ same. absurd (ground arith)) (λ _. old) good)
    ]
step-IsRetired g schema site hash (revokes now other) t away old =
    elim (Result-cases (revoke_device_enrollment_token now schema other t)) [
      | inl (x, bad) ↦ rw bad old
      | inr (after, good) ↦
          rw good (revoke-IsRetired now schema site other hash t after (λ _. old) good)
    ]
step-IsRetired g schema site hash (enrolls now random a) t away old = λ s row. old s (
    subst (λ z. select_row (is_site site) z ≡ some s) (enroll_device-sites g now random schema a t)
      row)

run-IsRetired :
    (g : Digest) (schema site hash : Text) (cs : List Call) (t : SiteTables)
    → none_issuing site cs ≡ true
    → IsRetired site hash t
    → IsRetired site hash (run g schema cs t)
unfolding run none_issuing
run-IsRetired g schema site hash [] t away old = old
run-IsRetired g schema site hash (c ∷ cs) t away old =
    let (first, rest) = &&_true (not_issuing site c) (none_issuing site cs) away in
    run-IsRetired g schema site hash cs _ rest (step-IsRetired g schema site hash c t first old)

retired_is_refused :
    (g : Digest) (later : ℕ) (random : Option Text) (schema : Text) (a : Attempt) (t : SiteTables)
    (r : Enrolled)
    → IsRetired a.site_id a.token_hash t
    → ¬ ((enroll_device g later random schema a t).0 ≡ ok r)
unfolding IsRetired
retired_is_refused g later random schema a t r old h =
    let (s, row, _, hash, _) = enrollment_is_authorised g later random schema a t r h in
    ground (arith, old s row, hash, text_eq_refl a.token_hash)

-- Issuing a token for a site retires the tokens it had: after an Issue that succeeds, and any calls that
-- issue no other token for the site, an attempt with another hash than that of the new token is
-- refused.
pub issue_retires_old_tokens :
    (g : Digest) (now : ℕ) (random : Option Text) (schema : Text) (ttl : ℤ) (t : SiteTables)
    (cs : List Call) (later : ℕ) (random2 : Option Text) (a : Attempt) (r : Enrolled)
    (k : EnrollmentToken) (issued : SiteTables)
    → none_issuing a.site_id cs ≡ true
    → issue_device_enrollment_token g now random schema a.site_id ttl t ≡ ok (k, issued)
    → text_eq (g.sha256_hex k.token) a.token_hash ≡ false
    → ¬ ((enroll_device g later random2 schema a (run g schema cs issued)).0 ≡ ok r)
issue_retires_old_tokens g now random schema ttl t cs later random2 a r k issued away h apart =
    retired_is_refused g later random2 schema a _ r (
      run-IsRetired g schema a.site_id a.token_hash cs issued away (
        issue-IsRetired g now random schema a.site_id a.site_id a.token_hash ttl t issued k
          (λ _. apart) (λ clash. absurd (ground (arith, clash, text_eq_refl a.site_id))) h))

-- Revoking retires every token of a site: after a Revoke that succeeds, and any calls that issue no
-- token for the site, every attempt for the site is refused.
pub revoke_retires_all_tokens :
    (g : Digest) (now : ℕ) (schema : Text) (t : SiteTables) (cs : List Call) (later : ℕ)
    (random : Option Text) (a : Attempt) (r : Enrolled) (revoked : SiteTables)
    → none_issuing a.site_id cs ≡ true
    → revoke_device_enrollment_token now schema a.site_id t ≡ ok revoked
    → ¬ ((enroll_device g later random schema a (run g schema cs revoked)).0 ≡ ok r)
revoke_retires_all_tokens g now schema t cs later random a r revoked away h =
    retired_is_refused g later random schema a _ r (
      run-IsRetired g schema a.site_id a.token_hash cs revoked away (
        revoke-IsRetired now schema a.site_id a.site_id a.token_hash t revoked
          (λ clash. absurd (ground (arith, clash, text_eq_refl a.site_id))) h))
