-- ===== src/Uci/Plain.antt =====
-- The bytes of names, sections and paths (internal/services/uci_bridge.go) as a shell reads them.
use openwrt_controller.Base.{
  ℕ, ◌≡◌, refl, Bool, true, false, ◌||◌, [], ◌∷◌, ◌++◌, Text, ◌==◌, Bool-cases, inl, inr, arith,
  all,
}
use openwrt_controller.Identity.{
  is_digit, name_char, name_pattern, section_pattern, index_digits, index_start, anonymous_section,
}
use openwrt_controller.Uci.Commands.{option_path, section_path}
use openwrt_controller.Uci.Shell.{is_plain}

pub name_char-plain : (l : Bool) (c : ℕ) → name_char c ≡ true → is_plain l c ≡ true
unfolding name_char is_plain
name_char-plain l c h = ground arith

pub name_pattern-plain : (l : Bool) (s : Text) → name_pattern s ≡ true → all (is_plain l) s ≡ true
unfolding name_pattern
name_pattern-plain l s h = each s (ground arith)
  where
    each : (t : Text) → all name_char t ≡ true → all (is_plain l) t ≡ true
    each = elim [ [] ↦ λ k. refl | c ∷ (t → ih) ↦ λ k. ground (arith, name_char-plain l c, ih) ]

-- A character of an index: digits, `-`, `[` and `]`.
pub index_char-plain :
    (c : ℕ)
    → (is_digit c || (c == b'-' || (c == b'[' || (c == b']' || c == b'@')))) ≡ true
    → is_plain true c ≡ true
unfolding is_plain
index_char-plain c h = ground arith

pub digits-plain :
    (seen : Bool) (s : Text) → index_digits seen s ≡ true → all (is_plain true) s ≡ true
unfolding index_digits
digits-plain seen [] h = refl
digits-plain seen (c ∷ []) h = ground (arith, index_char-plain c)
digits-plain seen (c ∷ d ∷ s) h = ground (arith, index_char-plain c, digits-plain true (d ∷ s))

pub start-plain : (s : Text) → index_start s ≡ true → all (is_plain true) s ≡ true
unfolding index_start index_digits
start-plain [] h = refl
start-plain (c ∷ s) h = elim (Bool-cases (c == b'-')) [
  | inl dash ↦ ground (arith, dash, index_char-plain c, digits-plain false s)
  | inr other ↦ digits-plain false (c ∷ s) (ground (arith, other))
]

pub anonymous-plain :
    (seen : Bool) (s : Text) → anonymous_section seen s ≡ true → all (is_plain true) s ≡ true
unfolding anonymous_section
anonymous-plain seen [] h = refl
anonymous-plain seen (c ∷ s) h = elim (Bool-cases (name_char c)) [
  | inl n ↦ ground (arith, n, name_char-plain true c n, anonymous-plain true s)
  | inr n ↦ ground (arith, n, index_char-plain c, start-plain s)
]

pub section_pattern-plain : (s : Text) → section_pattern s ≡ true → all (is_plain true) s ≡ true
unfolding section_pattern
section_pattern-plain [] h = refl
section_pattern-plain (c ∷ s) h = elim (Bool-cases (c == b'@')) [
  | inl at_sign ↦ ground (arith, at_sign, index_char-plain c, anonymous-plain false s)
  | inr other ↦ name_pattern-plain true (c ∷ s) (ground (arith, other))
]

-- A section whose `[`, if it has one, stands for itself.
pub section-plain :
    (l : Bool) (s : Text)
    → section_pattern s ≡ true
    → (l || name_pattern s) ≡ true
    → all (is_plain l) s ≡ true
section-plain true s h n = section_pattern-plain s h
section-plain false s h n = name_pattern-plain false s n

pub all-append :
    (l : Bool) (s t : Text)
    → all (is_plain l) s ≡ true
    → all (is_plain l) t ≡ true
    → all (is_plain l) (s ++ t) ≡ true
all-append l [] t hs ht = ht
all-append l (c ∷ s) t hs ht = ground (arith, all-append l s t (ground arith) ht)

pub dot-plain :
    (l : Bool) (s : Text) → all (is_plain l) s ≡ true → all (is_plain l) (b'.' ∷ s) ≡ true
unfolding is_plain
dot-plain l s h = ground arith

pub section_path-plain :
    (l : Bool) (config section : Text)
    → name_pattern config ≡ true
    → section_pattern section ≡ true
    → (l || name_pattern section) ≡ true
    → all (is_plain l) (section_path config section) ≡ true
section_path-plain l config section hc hs hl =
    all-append l config (b'.' ∷ section) (name_pattern-plain l config hc)
      (dot-plain l section (section-plain l section hs hl))

pub option_path-plain :
    (l : Bool) (config section option : Text)
    → name_pattern config ≡ true
    → section_pattern section ≡ true
    → (l || name_pattern section) ≡ true
    → name_pattern option ≡ true
    → all (is_plain l) (option_path config section option) ≡ true
option_path-plain l config section option hc hs hl ho =
    all-append l config (b'.' ∷ (section ++ b'.' ∷ option)) (name_pattern-plain l config hc) (
      dot-plain l (section ++ b'.' ∷ option) (
        all-append l section (b'.' ∷ option) (section-plain l section hs hl)
          (dot-plain l option (name_pattern-plain l option ho))))
