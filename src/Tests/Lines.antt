-- ===== src/Tests/Lines.antt =====
-- Rendered UCI lines at sample values.
use openwrt_controller.Base.{
  ◌≡◌, true, false, [], ◌∷◌, some, none, Text, codes, text_eq, is_nil, all, List, refl,
}
use openwrt_controller.Uci.Macs.{parse_mac_list}
use openwrt_controller.Uci.MacSets.{distinct, is_upper, parse_mac_list-distinct}
use openwrt_controller.Uci.Commands.{set_option, add_list, del_list, shell_quote}
use openwrt_controller.Uci.Shell.{unquoted, words}
use openwrt_controller.Uci.Quoting.{shell_quote_is_one_word}
use openwrt_controller.Uci.Lines.{ReadsAs, admits, assignment, value_is_one_word}

-- A value that would end the command if it were not quoted.
abbrev hostile : Text
hostile = codes "a'; reboot; '"

shell_quote_is_one_word_example :
    words false unquoted none (shell_quote hostile) ≡ some (hostile ∷ [])
shell_quote_is_one_word_example = shell_quote_is_one_word false hostile

value_is_one_word_example :
    ReadsAs true
      (admits (codes "system") (codes "@system[0]") (codes "hostname") true)
      (set_option (codes "system") (codes "@system[0]") (codes "hostname") hostile)
      (assignment (codes "set") (codes "system") (codes "@system[0]") (codes "hostname") hostile)
    × ReadsAs true
        (admits (codes "system") (codes "@system[0]") (codes "hostname") false)
        (add_list (codes "system") (codes "@system[0]") (codes "hostname") hostile)
        (assignment
          (codes "add_list")
          (codes "system")
          (codes "@system[0]")
          (codes "hostname")
          hostile)
    × ReadsAs true
        (admits (codes "system") (codes "@system[0]") (codes "hostname") false)
        (del_list (codes "system") (codes "@system[0]") (codes "hostname") hostile)
        (assignment
          (codes "del_list")
          (codes "system")
          (codes "@system[0]")
          (codes "hostname")
          hostile)
value_is_one_word_example =
    value_is_one_word true (codes "system") (codes "@system[0]") (codes "hostname") hostile refl

-- One address twice, in both cases, and another one.
abbrev raw_macs : Text
raw_macs = codes "aa:bb:cc:00:00:01' 'AA:BB:CC:00:00:01' 'aa:bb:cc:00:00:02"

abbrev two_macs : List Text
two_macs = codes "AA:BB:CC:00:00:01" ∷ codes "AA:BB:CC:00:00:02" ∷ []

macs_run : parse_mac_list raw_macs ≡ some two_macs
unfolding parse_mac_list text_eq
macs_run = refl

parse_mac_list-distinct_example :
    (is_nil two_macs ≡ false) × (distinct two_macs ≡ true) × (all is_upper two_macs ≡ true)
parse_mac_list-distinct_example = parse_mac_list-distinct raw_macs two_macs macs_run
