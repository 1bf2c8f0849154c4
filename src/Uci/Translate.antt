-- ===== src/Uci/Translate.antt =====
-- translateCommand, ensureDHCPHost and PreviewCommands (internal/services/uci_bridge.go). `is_ipv4`
-- is net.ParseIP followed by To4.
use openwrt_controller.Base.{
  ℕ, zero, suc, ◌+◌, ◌/◌, ◌%◌, Bool, not, ◌||◌, List, [], ◌∷◌, ◌++◌, Option, none, some, Text,
  codes, is_empty, any, length, ltb, ◌==◌, text_eq, if◌then◌else◌,
}
use openwrt_controller.Schema.{Command}
use openwrt_controller.Identity.{name_pattern}
use openwrt_controller.Uci.Commands.{
  shell_quote, set_option, add_list, del_list, delete, delete_option, add_anonymous_section, rename,
}
use openwrt_controller.Uci.Macs.{parse_mac_list}

-- `%d` of a number, on fuel that its value bounds.
decimal_digits : ℕ → ℕ → Text → Text
decimal_digits zero n acc = acc
decimal_digits (suc fuel) n acc =
    let more = decimal_digits fuel (n / 10) ((n % 10 + b'0') ∷ acc) in
    if ltb n 10 then (n + b'0') ∷ acc else more

unfoldable pub decimal : ℕ → Text
unfolding decimal_digits
decimal n = decimal_digits (suc n) n []

-- strings.Join(macs, " ")
join_blank : List Text → Text
join_blank [] = []
join_blank (m ∷ []) = m
join_blank (m ∷ n ∷ ms) = m ++ b' ' ∷ join_blank (n ∷ ms)

-- The script of a static lease.
host_script : Text → Text → Text → ℕ → Text
host_script ip name mac_list count =
    codes "host_ip="
    ++ (ip
        ++ (codes "\nhost_name="
            ++ (name
                ++ (codes "\nhost_macs="
                    ++ (mac_list
                        ++ (codes "\nhost_mac_count="
                            ++ (decimal count
                                ++ (codes
                                    "\nhost_ref=\nfor host_mac in $host_macs; do\n  host_ref=$(uci show dhcp | grep -i -F \"$host_mac\" | grep -F \".mac=\" | cut -d= -f1 | cut -d. -f2 | head -n 1)\n  if [ -n \"$host_ref\" ]; then\n    break\n  fi\ndone\nif [ -z \"$host_ref\" ]; then\n  host_ref=$(\n    uci show dhcp | grep -F \".ip=\" | while IFS= read -r host_line; do\n      host_path=${host_line%=*}\n      host_value=${host_line#*=}\n      host_value=$(printf '%s' \"$host_value\" | sed \"s/^'//; s/'$//\")\n      if [ \"$host_value\" = \"$host_ip\" ]; then\n        host_path=${host_path#dhcp.}\n        host_path=${host_path%.ip}\n        printf '%s\\n' \"$host_path\"\n        break\n      fi\n    done\n  )\nfi\nif [ -z \"$host_ref\" ]; then\n  uci add dhcp host\n  host_ref=@host[-1]\nfi\nuci set \"dhcp.$host_ref.name=$host_name\"\nuci -q delete \"dhcp.$host_ref.mac\" || true\nif [ \"$host_mac_count\" -eq 1 ]; then\n  uci set \"dhcp.$host_ref.mac=$host_macs\"\nelse\n  for host_mac in $host_macs; do\n    uci add_list \"dhcp.$host_ref.mac=$host_mac\"\n  done\nfi\nuci set \"dhcp.$host_ref.ip=$host_ip\""))))))))

has_line_break : Text → Bool
has_line_break s = any (λ c. c == 13 || c == 10) s

render_host : Command → Option (List Text) → Text
unfolding host_script join_blank decimal
render_host cmd none = []
render_host cmd (some macs) =
    host_script (shell_quote cmd.value) (shell_quote cmd.section) (shell_quote (join_blank macs))
      (length macs)

unfoldable pub ensure_dhcp_host : (Text → Bool) → Command → Text
unfolding has_line_break render_host
ensure_dhcp_host is_ipv4 cmd =
    if not (text_eq cmd.config (codes "dhcp"))
      || (is_empty cmd.section
          || (ltb 128 (length cmd.section)
              || (has_line_break cmd.section || (is_empty cmd.option || not (is_ipv4 cmd.value)))))
    then []
    else render_host cmd (parse_mac_list cmd.option)

unfoldable pub delete_all : Command → Text
delete_all cmd =
    if not (name_pattern cmd.config)
      || (not (name_pattern cmd.section) || (not (is_empty cmd.option) || not (is_empty cmd.value)))
    then []
    else codes "while uci -q delete "
      ++ (cmd.config ++ codes ".@" ++ (cmd.section ++ codes "[0]; do :; done"))

unfoldable pub translate_command : (Text → Bool) → Command → Text
translate_command is_ipv4 cmd =
    if text_eq cmd.action (codes "set")
    then set_option cmd.config cmd.section cmd.option cmd.value
    else if text_eq cmd.action (codes "delete")
    then (if not (is_empty cmd.option)
        then delete_option cmd.config cmd.section cmd.option
        else delete cmd.config cmd.section)
    else if text_eq cmd.action (codes "add_list")
    then add_list cmd.config cmd.section cmd.option cmd.value
    else if text_eq cmd.action (codes "del_list")
    then del_list cmd.config cmd.section cmd.option cmd.value
    else if text_eq cmd.action (codes "add")
    then add_anonymous_section cmd.config cmd.value
    else if text_eq cmd.action (codes "ensure_host")
    then ensure_dhcp_host is_ipv4 cmd
    else if text_eq cmd.action (codes "delete_all")
    then delete_all cmd
    else if text_eq cmd.action (codes "rename")
    then rename cmd.config cmd.section cmd.option cmd.value
    else []

unfoldable pub preview_commands : (Text → Bool) → List Command → List Text
preview_commands is_ipv4 [] = []
preview_commands is_ipv4 (c ∷ cs) =
    let line = translate_command is_ipv4 c in
    let rest = preview_commands is_ipv4 cs in if not (is_empty line) then line ∷ rest else rest
