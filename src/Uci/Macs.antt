-- ===== src/Uci/Macs.antt =====
-- ParseMACList of internal/services/uci_bridge.go.
use openwrt_controller.Base.{
  ℕ, zero, suc, ◌-◌, Bool, true, false, not, ◌&&◌, ◌||◌, List, [], ◌∷◌, map, Option, none, some,
  Text, is_nil, any, ◌==◌, leb, text_eq, if◌then◌else◌, take,
}
use openwrt_controller.Identity.{is_hex_digit}

-- `(?i)(?:[0-9a-f]{2}:){5}[0-9a-f]{2}` at the start: pairs of digits, `pairs` of them with a colon.
unfoldable pub mac_at : ℕ → Text → Bool
mac_at zero (a ∷ b ∷ s) = is_hex_digit a && is_hex_digit b
mac_at (suc pairs) (a ∷ b ∷ c ∷ s) =
    is_hex_digit a && (is_hex_digit b && (c == b':' && mac_at pairs s))
mac_at _ _ = false

-- FindAllString and ReplaceAllString in one scan: the matches, and the text outside them. The pattern
-- has one length, 17 bytes, of which `skip` are still to be passed over.
unfoldable pub scan_macs : ℕ → Text → List Text × Text
scan_macs skip [] = ([], [])
scan_macs (suc skip) (c ∷ s) = scan_macs skip s
scan_macs zero (c ∷ s) = elim (mac_at 5 (c ∷ s)) [
  | true ↦ let (macs, rest) = scan_macs 16 s in (take 17 (c ∷ s) ∷ macs, rest)
  | false ↦ let (macs, rest) = scan_macs 0 s in (macs, c ∷ rest)
]

-- The characters that the replacer drops: quotes and white space.
unfoldable pub is_separator : ℕ → Bool
is_separator c = c == b'\'' || (c == 34 || (c == 32 || (c == 9 || (c == 13 || c == 10))))

-- strings.ToUpper on hexadecimal digits and colons.
unfoldable pub upper : ℕ → ℕ
upper c = if leb b'a' c && leb c b'z' then c - 32 else c

-- The last loop; `seen` is the map of what the result holds.
unfoldable pub dedupe : List Text → List Text → List Text
dedupe seen [] = []
dedupe seen (m ∷ ms) =
    let rest = dedupe (map upper m ∷ seen) ms in
    let skipped = dedupe seen ms in
    if any (λ s. text_eq s (map upper m)) seen then skipped else map upper m ∷ rest

abbrev only_separators : Text → Bool
only_separators [] = true
only_separators (c ∷ s) = is_separator c && only_separators s

unfoldable pub parse_mac_list : Text → Option (List Text)
unfolding scan_macs mac_at is_separator dedupe upper
parse_mac_list raw =
    let (macs, rest) = scan_macs 0 raw in
    if is_nil macs then none else if not (only_separators rest) then none else some (dedupe [] macs)
