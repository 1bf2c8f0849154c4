-- ===== src/Enrollment/Retry.antt =====
-- Devices that are enrolled, and their retries (internal/database/enrollment.go).
use openwrt_controller.Base.{
  ℕ, ◌+◌, ◌<◌, Bool, true, false, not, List, [], ◌∷◌, ◌++◌, Option, none, some, Text, is_empty,
  ◌==◌, text_eq, text_eq_refl, if◌then◌else◌, ok, err, ◌>>◌, >>=_ok, fail_if, ok_injective,
  update_rows, count_rows, select_row, ◌≡◌, refl, arith, inl, inr, Bool-cases, Result-cases, subst,
  ap, sym, ◌∙◌,
}
use openwrt_controller.Identity.{safe_schema_ident}
use openwrt_controller.Enrollment.{
  already_enrolled, nonce_conflict, Member, Nonce, SiteTables, Digest, is_site, check_schema,
  fresh_token,
}
use openwrt_controller.Enrollment.Enroll.{
  Enrolled, Attempt, is_member, is_incomplete, is_nonce, is_live_nonce, has_site, check_site,
  enroll_device, enroll_checked, enroll_with_nonce, admit, replay, bind_nonce, put_member,
  new_member, adopt_member, with_tables, nonce_lifetime,
}
use openwrt_controller.Enrollment.Admission.{enroll_checked-passed, IsKept}
use openwrt_controller.Enrollment.Calls.{Call, run, run-keeps}

select_row-append_last {ℓ} :
    {A : Type ℓ} (p : A → Bool) (xs : List A) (x : A)
    → select_row p xs ≡ none
    → p x ≡ true
    → select_row p (xs ++ (x ∷ [])) ≡ some x
unfolding select_row
select_row-append_last p [] x h t = rw t refl
select_row-append_last p (y ∷ ys) x h t = elim (Bool-cases (p y)) [
  | inl m ↦ absurd (ground (arith, m))
  | inr n ↦ rw n (select_row-append_last p ys x (rw n at h) t)
]

select_row-update_same {ℓ} :
    {A : Type ℓ} (p : A → Bool) (f : A → A) (xs : List A) (x : A)
    → ((y : A) → p y ≡ true → p (f y) ≡ true)
    → select_row p xs ≡ some x
    → select_row p (update_rows p f xs) ≡ some (f x)
unfolding select_row update_rows
select_row-update_same p f [] x k h = absurd (ground arith)
select_row-update_same p f (y ∷ ys) x k h = elim (Bool-cases (p y)) [
  | inl t ↦
      let e : some y ≡ some x = (rw t at h) in
      let same : y ≡ x = cc in rw t (rw (k y t) (ap (λ z. some (f z)) same))
  | inr n ↦ rw n (rw n (select_row-update_same p f ys x k (rw n at h)))
]

-- The row that the admission writes.
put_member-row :
    (now : ℕ) (a : Attempt) (token : Text) (ds : List Member) (o : Option Member)
    → select_row (is_member a.device_id) ds ≡ o
    → (d : Member) × (select_row (is_member a.device_id) (put_member now a token ds o) ≡ some d)
      × (d.site_id ≡ some a.site_id)
      × (d.device_token ≡ some token)
unfolding put_member
put_member-row now a token ds none h = (
  new_member now a token,
  select_row-append_last (is_member a.device_id) ds _ h (text_eq_refl a.device_id),
  refl,
  refl,
)
put_member-row now a token ds (some e) h = (
  adopt_member now a token e,
  select_row-update_same (is_member a.device_id) _ ds e (λ y t. t) h,
  refl,
  refl,
)

zero_plus : (n : ℕ) → (0 + n == 0) ≡ true → (n == 0) ≡ true
zero_plus n h = ground arith

no_nonce :
    (g : Digest) (a : Attempt) (later : ℕ) (ns : List Nonce)
    → (count_rows (is_nonce a.site_id (g.sha256_hex a.nonce)) ns == 0) ≡ true
    → select_row (is_live_nonce later a.site_id (g.sha256_hex a.nonce)) ns ≡ none
unfolding select_row count_rows
no_nonce g a later [] h = refl
no_nonce g a later (n ∷ ns) h = elim (Bool-cases (is_nonce a.site_id (g.sha256_hex a.nonce) n)) [
  | inl t ↦ absurd (let z = (rw t at h) in ground (arith, z))
  | inr f ↦ rw f (no_nonce g a later ns (zero_plus _ (rw f at h)))
]

bind_nonce-row :
    (g : Digest) (now : ℕ) (a : Attempt) (later : ℕ) (ns after : List Nonce)
    → bind_nonce g now a ns ≡ ok after
    → later < now + nonce_lifetime
    → (n : Nonce) × (select_row (is_live_nonce later a.site_id (g.sha256_hex a.nonce)) after
        ≡ some n)
      × (n.device_id ≡ a.device_id)
unfolding bind_nonce
bind_nonce-row g now a later ns after h live =
    elim (Bool-cases (count_rows (is_nonce a.site_id (g.sha256_hex a.nonce)) ns == 0)) [
      | inr bad ↦ absurd (let z = (rw bad at h) in ground arith)
      | inl good ↦
          let same = ok_injective (rw good at h) in
          subst
            (λ z.
              (n : Nonce) × (select_row (is_live_nonce later a.site_id (g.sha256_hex a.nonce)) z
                ≡ some n)
              × (n.device_id ≡ a.device_id))
            same
            (
              _,
              select_row-append_last (is_live_nonce later a.site_id (g.sha256_hex a.nonce)) ns _
                  (no_nonce g a later ns good)
                  (ground
                    (arith, live, text_eq_refl a.site_id, text_eq_refl (g.sha256_hex a.nonce))),
              refl,
            )
    ]

-- What a first enrollment leaves.
IsRecorded : Digest → ℕ → Attempt → Text → SiteTables → Type 0
IsRecorded g later a token t =
    (d : Member) × (select_row (is_member a.device_id) t.devices ≡ some d)
    × (d.site_id ≡ some a.site_id)
    × (d.device_token ≡ some token)
    × (n : Nonce) × (select_row (is_live_nonce later a.site_id (g.sha256_hex a.nonce)) t.nonces
        ≡ some n)
    × (n.device_id ≡ a.device_id)

admit-IsRecorded :
    (g : Digest) (now : ℕ) (random : Option Text) (a : Attempt) (t after : SiteTables)
    (r : Enrolled) (later : ℕ)
    → admit g now random a t (select_row (is_member a.device_id) t.devices) ≡ ok (r, after)
    → later < now + nonce_lifetime
    → IsRecorded g later a r.token after
unfolding admit IsRecorded
admit-IsRecorded g now random a t after r later e live =
    let found = select_row (is_member a.device_id) t.devices in
    let (token, _, e2) =
      >>=_ok (fail_if (has_site found) already_enrolled >> fresh_token random) _ (r, after) e in
    let (nonces, bound, e3) = >>=_ok (bind_nonce g now a t.nonces) _ (r, after) e2 in
    let done = ok_injective e3 in
    let (d, row, site, tok) = put_member-row now a token t.devices found refl in
    let (n, live_row, dev) = bind_nonce-row g now a later t.nonces nonces bound live in
    let named : token ≡ r.token = ap (λ q. q.0.token) done in
    subst (λ z. IsRecorded g later a r.token z) (ap (λ q. q.1) done)
      (d, row, site, tok ∙ ap some named, n, live_row, dev)

replay-old :
    (a : Attempt) (o : Option Member) (r : Enrolled) → replay a o ≡ ok r → r.created ≡ false
unfolding replay
replay-old a o r h = ground arith

with_tables-old :
    (a : Attempt) (n : Nonce) (t after : SiteTables) (o : Option Member) (r : Enrolled)
    → (if not (text_eq n.device_id a.device_id)
        then err nonce_conflict
        else with_tables t (replay a o))
      ≡ ok (r, after)
    → r.created ≡ false
with_tables-old a n t after o r h = ground (arith, replay-old a o r)

created-IsRecorded :
    (g : Digest) (now : ℕ) (random : Option Text) (a : Attempt) (t after : SiteTables)
    (q : Enrolled) (later : ℕ) (o : Option Nonce)
    → enroll_with_nonce g now random a t o ≡ ok (q, after)
    → q.created ≡ true
    → later < now + nonce_lifetime
    → IsRecorded g later a q.token after
unfolding enroll_with_nonce
created-IsRecorded g now random a t after q later none e c live =
    admit-IsRecorded g now random a t after q later e live
created-IsRecorded g now random a t after q later (some n) e c live =
    let old = with_tables-old a n t after (select_row (is_member a.device_id) t.devices) q e in
    absurd (ground arith)

-- The first enrollment with a nonce.
enroll_device-IsRecorded :
    (g : Digest) (now : ℕ) (random : Option Text) (schema : Text) (a : Attempt) (t : SiteTables)
    (r : Enrolled) (later : ℕ)
    → (enroll_device g now random schema a t).0 ≡ ok r
    → r.created ≡ true
    → later < now + nonce_lifetime
    → (is_incomplete a ≡ false)
      × IsRecorded g later a r.token (enroll_device g now random schema a t).1
unfolding enroll_device
enroll_device-IsRecorded g now random schema a t r later h c live =
    elim (Result-cases (enroll_checked g now random schema a t)) [
      | inl (x, bad) ↦ absurd (let z = (rw bad at h) in ground arith)
      | inr ((q, after), good) ↦
          let same : q ≡ r = ok_injective (rw good at h) in
          let (full, _, last) = enroll_checked-passed g now random schema a t after q good in
          rw good (
            full,
            subst (λ z. IsRecorded g later a z.token after) same
                (created-IsRecorded g now random a t after q later _ last
                  (subst (λ z. z.created ≡ true) (sym same) c) live),
          )
    ]

enrolled_in_schema :
    (g : Digest) (now : ℕ) (random : Option Text) (schema : Text) (a : Attempt) (t : SiteTables)
    (r : Enrolled)
    → (enroll_device g now random schema a t).0 ≡ ok r
    → check_schema (safe_schema_ident schema) ≡ ok tt
unfolding enroll_device enroll_checked
enrolled_in_schema g now random schema a t r h =
    elim (Result-cases (check_schema (safe_schema_ident schema))) [
      | inl (x, bad) ↦ absurd (let z = (rw bad at h) in ground arith)
      | inr (u, good) ↦ good
    ]

-- A retry, where the device is in the site and the nonce is its own.
enroll_device-replays :
    (g : Digest) (later : ℕ) (random : Option Text) (schema : Text) (a : Attempt) (t : SiteTables)
    (token : Text) (d : Member) (n : Nonce)
    → check_schema (safe_schema_ident schema) ≡ ok tt
    → is_incomplete a ≡ false
    → check_site later a.token_hash (select_row (is_site a.site_id) t.sites) ≡ ok tt
    → select_row (is_member a.device_id) t.devices ≡ some d
    → d.site_id ≡ some a.site_id
    → d.device_token ≡ some token
    → is_empty token ≡ false
    → select_row (is_live_nonce later a.site_id (g.sha256_hex a.nonce)) t.nonces ≡ some n
    → n.device_id ≡ a.device_id
    → enroll_device g later random schema a t ≡ (
      ok (record { device_id = a.device_id; site_id = a.site_id; token = token; created = false }),
      t,
    )
unfolding enroll_device enroll_checked enroll_with_nonce replay
enroll_device-replays g later random schema a t token d n valid full open_site row site tok real
      live own =
    rw valid (
      rw full (
        rw open_site (
          rw live (
            rw row
              (ground (arith, site, tok, own, text_eq_refl a.site_id, text_eq_refl a.device_id))))))

-- A lost answer can be asked for again: after an enrollment that created the record, and any calls
-- that issue or revoke tokens or enroll devices on the schema, the same attempt within 24 hours gets
-- the same token, not created again, and changes no table, as long as the site still accepts the
-- token's hash. The first call's token is not empty.
pub retry_gets_the_same_token :
    (g : Digest) (now : ℕ) (random : Option Text) (schema : Text) (a : Attempt) (t : SiteTables)
    (r : Enrolled) (cs : List Call) (later : ℕ) (random2 : Option Text)
    → (enroll_device g now random schema a t).0 ≡ ok r
    → r.created ≡ true
    → is_empty r.token ≡ false
    → later < now + nonce_lifetime
    → check_site later a.token_hash (
        select_row
          (is_site a.site_id)
          (run g schema cs (enroll_device g now random schema a t).1).sites)
      ≡ ok tt
    → enroll_device g later random2 schema a
        (run g schema cs (enroll_device g now random schema a t).1)
      ≡ (
        ok (record {
          device_id = a.device_id;
          site_id = a.site_id;
          token = r.token;
          created = false;
        }),
        run g schema cs (enroll_device g now random schema a t).1,
      )
unfolding IsRecorded IsKept
retry_gets_the_same_token g now random schema a t r cs later random2 h c real live open_site =
    let (full, recorded) = enroll_device-IsRecorded g now random schema a t r later h c live in
    let (d, row, site, tok, n, nonce, own) = recorded in
    let there : has_site (some d) ≡ true = ground (arith, site, full) in
    let (row2, nonces2) = run-keeps g schema cs _ a.device_id d row there in
    enroll_device-replays g later random2 schema a _ r.token d n
      (enrolled_in_schema g now random schema a t r h) full open_site row2 site tok real
      (nonces2 _ n nonce) own
