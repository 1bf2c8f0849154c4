-- ===== src/Enrollment/Admission.antt =====
-- What a successful call of EnrollDevice (internal/database/enrollment.go) has passed and what it
-- leaves alone.
use openwrt_controller.Base.{
  ℕ, Bool, true, false, not, List, [], ◌∷◌, ◌++◌, Option, none, some, Text, ◌==◌, text_eq,
  text_eq_refl, text_eq→eq, if◌then◌else◌, ok, err, ◌>>◌, >>=_ok, fail_if, fail_if-ok, ok_injective,
  update_rows, count_rows, select_row, ◌≡◌, refl, arith, inl, inr, Bool-cases, subst, ap, sym, ◌∙◌,
}
use openwrt_controller.Identity.{safe_schema_ident}
use openwrt_controller.Enrollment.{
  already_enrolled, identity_incomplete, nonce_conflict, Member, Nonce, SiteTables, Digest, is_site,
  check_schema, fresh_token,
}
use openwrt_controller.Enrollment.Enroll.{
  Enrolled, Attempt, is_member, is_incomplete, is_nonce, is_live_nonce, has_site, check_site,
  enroll_checked, enroll_with_nonce, admit, replay, bind_nonce, put_member, adopt_member,
  with_tables,
}

-- A SELECT that finds a row finds it also after an append, and after an UPDATE of other rows.
pub select_row-append {ℓ} :
    {A : Type ℓ} (p : A → Bool) (xs ys : List A) (x : A)
    → select_row p xs ≡ some x
    → select_row p (xs ++ ys) ≡ some x
unfolding select_row
select_row-append p [] ys x h = absurd (ground arith)
select_row-append p (z ∷ zs) ys x h = elim (Bool-cases (p z)) [
  | inl t ↦ rw t (rw t at h)
  | inr n ↦ rw n (select_row-append p zs ys x (rw n at h))
]

select_row-update_other {ℓ} :
    {A : Type ℓ} (p q : A → Bool) (f : A → A) (xs : List A)
    → ((y : A) → q y ≡ true → (p y ≡ false) × (p (f y) ≡ false))
    → select_row p (update_rows q f xs) ≡ select_row p xs
unfolding select_row update_rows
select_row-update_other p q f [] away = refl
select_row-update_other p q f (z ∷ zs) away = elim (Bool-cases (q z)) [
  | inl t ↦ let (a, b) = away z t in rw t (rw b (rw a (select_row-update_other p q f zs away)))
  | inr n ↦ rw n (rw (select_row-update_other p q f zs away) refl)
]

-- The row of an enrolled device stays the first with its id.
pub other_id : (id other : Text) → text_eq id other ≡ false → text_eq other id ≡ false
other_id id other f = elim (Bool-cases (text_eq other id)) [
  | inl t ↦ let same = text_eq→eq other id t in absurd (ground (arith, f, text_eq_refl id, same))
  | inr n ↦ n
]

put_member-other :
    (now : ℕ) (a : Attempt) (token id : Text) (ds : List Member) (o : Option Member) (d : Member)
    → select_row (is_member a.device_id) ds ≡ o
    → has_site o ≡ false
    → select_row (is_member id) ds ≡ some d
    → has_site (some d) ≡ true
    → select_row (is_member id) (put_member now a token ds o) ≡ some d
unfolding put_member
put_member-other now a token id ds none d h n s y = select_row-append (is_member id) ds _ d s
put_member-other now a token id ds (some e) d h n s y = elim (Bool-cases (text_eq id a.device_id)) [
  | inl t ↦
      let same = text_eq→eq id a.device_id t in
      let both : some e ≡ some d = sym h ∙ (ap (λ z. select_row (is_member z) ds) (sym same) ∙ s) in
      let clash : has_site (some e) ≡ true = subst (λ z. has_site z ≡ true) (sym both) y in
      absurd (ground arith)
  | inr f ↦
      select_row-update_other (is_member id) (is_member a.device_id) (adopt_member now a token) ds
        (λ z m. ground (arith, text_eq→eq z.id a.device_id m, other_id id a.device_id f))
      ∙ s
]

admit-device :
    (g : Digest) (now : ℕ) (random : Option Text) (a : Attempt) (t after : SiteTables)
    (o : Option Member) (r : Enrolled) (id : Text) (d : Member)
    → select_row (is_member a.device_id) t.devices ≡ o
    → admit g now random a t o ≡ ok (r, after)
    → select_row (is_member id) t.devices ≡ some d
    → has_site (some d) ≡ true
    → select_row (is_member id) after.devices ≡ some d
unfolding admit
admit-device g now random a t after o r id d h e s y =
    let (token, first, e2) =
      >>=_ok (fail_if (has_site o) already_enrolled >> fresh_token random) _ (r, after) e in
    let (u, free, _) = >>=_ok (fail_if (has_site o) already_enrolled) _ token first in
    let (nonces, _, e3) = >>=_ok (bind_nonce g now a t.nonces) _ (r, after) e2 in
    let done : put_member now a token t.devices o ≡ after.devices =
      ap (λ p. p.1.devices) (ok_injective e3) in
    subst (λ z. select_row (is_member id) z ≡ some d) done
      (put_member-other now a token id t.devices o d h
        (fail_if-ok (has_site o) already_enrolled u free) s y)

bind_nonce-keeps :
    (g : Digest) (now : ℕ) (a : Attempt) (ns after : List Nonce) (p : Nonce → Bool) (n : Nonce)
    → bind_nonce g now a ns ≡ ok after
    → select_row p ns ≡ some n
    → select_row p after ≡ some n
unfolding bind_nonce
bind_nonce-keeps g now a ns after p n e s =
    elim (Bool-cases (not (count_rows (is_nonce a.site_id (g.sha256_hex a.nonce)) ns == 0))) [
      | inl bad ↦ absurd (let z = (rw bad at e) in ground arith)
      | inr good ↦
          subst (λ z. select_row p z ≡ some n) (ok_injective (rw good at e))
            (select_row-append p ns _ n s)
    ]

admit-nonce :
    (g : Digest) (now : ℕ) (random : Option Text) (a : Attempt) (t after : SiteTables)
    (o : Option Member) (r : Enrolled) (p : Nonce → Bool) (n : Nonce)
    → admit g now random a t o ≡ ok (r, after)
    → select_row p t.nonces ≡ some n
    → select_row p after.nonces ≡ some n
unfolding admit
admit-nonce g now random a t after o r p n e s =
    let (token, _, e2) =
      >>=_ok (fail_if (has_site o) already_enrolled >> fresh_token random) _ (r, after) e in
    let (nonces, bound, e3) = >>=_ok (bind_nonce g now a t.nonces) _ (r, after) e2 in
    let done : nonces ≡ after.nonces = ap (λ q. q.1.nonces) (ok_injective e3) in
    subst (λ z. select_row p z ≡ some n) done (bind_nonce-keeps g now a t.nonces nonces p n bound s)

-- What a call of EnrollDevice that succeeds has passed.
pub enroll_checked-passed :
    (g : Digest) (now : ℕ) (random : Option Text) (schema : Text) (a : Attempt)
    (t after : SiteTables) (r : Enrolled)
    → enroll_checked g now random schema a t ≡ ok (r, after)
    → (is_incomplete a ≡ false)
      × (check_site now a.token_hash (select_row (is_site a.site_id) t.sites) ≡ ok tt)
      × (enroll_with_nonce g now random a t
            (select_row (is_live_nonce now a.site_id (g.sha256_hex a.nonce)) t.nonces)
          ≡ ok (r, after))
unfolding enroll_checked
enroll_checked-passed g now random schema a t after r e =
    let (u, e1, last) =
      >>=_ok
        (check_schema (safe_schema_ident schema)
          >> fail_if (is_incomplete a) identity_incomplete
          >> check_site now a.token_hash (select_row (is_site a.site_id) t.sites))
        _ (r, after) e in
    let (_, e2, checked) =
      >>=_ok
        (check_schema (safe_schema_ident schema) >> fail_if (is_incomplete a) identity_incomplete) _
        u e1 in
    let (v, _, full) = >>=_ok (check_schema (safe_schema_ident schema)) _ _ e2 in
    (fail_if-ok (is_incomplete a) identity_incomplete _ full, checked, last)

replay_keeps :
    (a : Attempt) (m : Nonce) (t after : SiteTables) (o : Option Member) (r : Enrolled)
    → (if not (text_eq m.device_id a.device_id)
        then err nonce_conflict
        else with_tables t (replay a o))
      ≡ ok (r, after)
    → t ≡ after
replay_keeps a m t after o r e = ground arith

-- What a call leaves: the row of the enrolled device, and each nonce that a SELECT finds.
unfoldable pub IsKept : Text → Member → SiteTables → SiteTables → Type 0
IsKept id d t after =
    (select_row (is_member id) after.devices ≡ some d)
    × ((p : Nonce → Bool) (n : Nonce)
        → select_row p t.nonces ≡ some n
        → select_row p after.nonces ≡ some n)

pub enroll_with_nonce-keeps :
    (g : Digest) (now : ℕ) (random : Option Text) (a : Attempt) (t after : SiteTables)
    (o : Option Nonce) (r : Enrolled) (id : Text) (d : Member)
    → enroll_with_nonce g now random a t o ≡ ok (r, after)
    → select_row (is_member id) t.devices ≡ some d
    → has_site (some d) ≡ true
    → IsKept id d t after
unfolding enroll_with_nonce IsKept
enroll_with_nonce-keeps g now random a t after none r id d e s y = (
  admit-device g now random a t after _ r id d refl e s y,
  λ p n k. admit-nonce g now random a t after _ r p n e k,
)
enroll_with_nonce-keeps g now random a t after (some m) r id d e s y =
    subst (λ z. IsKept id d t z) (replay_keeps a m t after _ r e) (s, λ p n k. k)

admit-sites :
    (g : Digest) (now : ℕ) (random : Option Text) (a : Attempt) (t after : SiteTables)
    (o : Option Member) (r : Enrolled)
    → admit g now random a t o ≡ ok (r, after)
    → after.sites ≡ t.sites
unfolding admit
admit-sites g now random a t after o r e =
    let (token, _, e2) =
      >>=_ok (fail_if (has_site o) already_enrolled >> fresh_token random) _ (r, after) e in
    let (nonces, _, e3) = >>=_ok (bind_nonce g now a t.nonces) _ (r, after) e2 in
    sym (ap (λ q. q.1.sites) (ok_injective e3))

pub enroll_with_nonce-sites :
    (g : Digest) (now : ℕ) (random : Option Text) (a : Attempt) (t after : SiteTables)
    (o : Option Nonce) (r : Enrolled)
    → enroll_with_nonce g now random a t o ≡ ok (r, after)
    → after.sites ≡ t.sites
unfolding enroll_with_nonce
enroll_with_nonce-sites g now random a t after none r e = admit-sites g now random a t after _ r e
enroll_with_nonce-sites g now random a t after (some m) r e =
    ap (λ z. z.sites) (sym (replay_keeps a m t after _ r e))
