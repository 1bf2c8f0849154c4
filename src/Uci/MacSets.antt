-- ===== src/Uci/MacSets.antt =====
-- The MAC addresses that ParseMACList (internal/services/uci_bridge.go) gives.
use openwrt_controller.Base.{
  ◌≡◌, refl, arith, Bool, true, false, not, ◌&&◌, List, [], ◌∷◌, map, some, Text, any, all, is_nil,
  text_eq, text_eq_refl, text_eq→eq, sym, subst, leb, inl, inr, Bool-cases,
}
use openwrt_controller.Uci.Macs.{dedupe, upper, scan_macs, parse_mac_list}

-- No text stands twice.
unfoldable pub distinct : List Text → Bool
distinct [] = true
distinct (x ∷ xs) = not (any (λ s. text_eq s x) xs) && distinct xs

unfoldable pub is_upper : Text → Bool
is_upper s = all (λ c. not (leb b'a' c && leb c b'z')) s

upper-is_upper : (s : Text) → is_upper (map upper s) ≡ true
unfolding is_upper upper
upper-is_upper [] = refl
upper-is_upper (c ∷ s) = ground (arith, upper-is_upper s)

dedupe-fresh :
    (m : Text) (seen ms : List Text)
    → any (λ s. text_eq s m) seen ≡ true
    → any (λ s. text_eq s m) (dedupe seen ms) ≡ false
unfolding dedupe
dedupe-fresh m seen [] h = refl
dedupe-fresh m seen (x ∷ xs) h = elim (Bool-cases (any (λ s. text_eq s (map upper x)) seen)) [
  | inl t ↦ rw t (dedupe-fresh m seen xs h)
  | inr n ↦ elim (Bool-cases (text_eq (map upper x) m)) [
    | inl e ↦
        let same : m ≡ map upper x = sym (text_eq→eq (map upper x) m e) in
        let there = subst (λ z. any (λ s. text_eq s z) seen ≡ true) same h in
        absurd (ground (arith, there, n))
    | inr e ↦ let later = dedupe-fresh m (map upper x ∷ seen) xs (rw e h) in rw n (rw e later)
  ]
]

dedupe-distinct : (seen ms : List Text) → distinct (dedupe seen ms) ≡ true
unfolding dedupe distinct
dedupe-distinct seen [] = refl
dedupe-distinct seen (x ∷ xs) = ground (
  arith,
  dedupe-distinct seen xs,
  dedupe-distinct (map upper x ∷ seen) xs,
  dedupe-fresh (map upper x) (map upper x ∷ seen) xs,
  text_eq_refl (map upper x),
)

dedupe-upper : (seen ms : List Text) → all is_upper (dedupe seen ms) ≡ true
unfolding dedupe
dedupe-upper seen [] = refl
dedupe-upper seen (x ∷ xs) =
    ground (arith, dedupe-upper seen xs, dedupe-upper (map upper x ∷ seen) xs, upper-is_upper x)

dedupe-is_nil : (ms : List Text) → is_nil ms ≡ false → is_nil (dedupe [] ms) ≡ false
unfolding dedupe
dedupe-is_nil [] h = h
dedupe-is_nil (x ∷ xs) h = refl

-- A list of MAC addresses that is parsed is not empty, holds no address twice, and has no lower-case
-- letter.
pub parse_mac_list-distinct :
    (raw : Text) (ms : List Text)
    → parse_mac_list raw ≡ some ms
    → (is_nil ms ≡ false) × (distinct ms ≡ true) × (all is_upper ms ≡ true)
unfolding parse_mac_list
parse_mac_list-distinct raw ms h = elim (Bool-cases (is_nil (scan_macs 0 raw).0)) [
  | inl t ↦ absurd (ground (arith, t))
  | inr n ↦
      let same : dedupe [] (scan_macs 0 raw).0 ≡ ms = ground (arith, n) in
      (
        subst (λ z. is_nil z ≡ false) same (dedupe-is_nil (scan_macs 0 raw).0 n),
        subst (λ z. distinct z ≡ true) same (dedupe-distinct [] (scan_macs 0 raw).0),
        subst (λ z. all is_upper z ≡ true) same (dedupe-upper [] (scan_macs 0 raw).0),
      )
]
