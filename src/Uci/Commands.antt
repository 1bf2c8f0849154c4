-- ===== src/Uci/Commands.antt =====
-- escapeVal, shellQuote, SetOption, AddList, DelList, Delete, DeleteOption, AddAnonymousSection and
-- Rename (internal/services/uci_bridge.go). The empty text is the refusal.
use openwrt_controller.Base.{
  not, ◌&&◌, ◌||◌, [], ◌∷◌, ◌++◌, Text, codes, is_empty, ◌==◌, if◌then◌else◌,
}
use openwrt_controller.Identity.{name_pattern, section_pattern}

-- strings.ReplaceAll(s, "'", "'\\''")
unfoldable pub escape_val : Text → Text
escape_val [] = []
escape_val (c ∷ s) = (if c == b'\'' then codes "'\\''" else c ∷ []) ++ escape_val s

unfoldable pub shell_quote : Text → Text
shell_quote s = b'\'' ∷ escape_val s ++ b'\'' ∷ []

-- `config.section` and `config.section.option`.
abbrev pub section_path : Text → Text → Text
section_path config section = config ++ b'.' ∷ section

abbrev pub option_path : Text → Text → Text → Text
option_path config section option = config ++ b'.' ∷ (section ++ b'.' ∷ option)

-- `path='value'`
abbrev pub assign : Text → Text → Text
assign path value = path ++ b'=' ∷ shell_quote value

unfoldable pub set_option : Text → Text → Text → Text → Text
set_option config section option value =
    if not (name_pattern config)
      || (not (section_pattern section) || (not (is_empty option) && not (name_pattern option)))
    then []
    else if is_empty option
    then codes "uci set " ++ assign (section_path config section) value
    else codes "uci set " ++ assign (option_path config section option) value

unfoldable pub add_list : Text → Text → Text → Text → Text
add_list config section option value =
    if not (name_pattern config) || (not (section_pattern section) || not (name_pattern option))
    then []
    else codes "uci add_list " ++ assign (option_path config section option) value

unfoldable pub del_list : Text → Text → Text → Text → Text
del_list config section option value =
    if not (name_pattern config) || (not (section_pattern section) || not (name_pattern option))
    then []
    else codes "uci del_list " ++ assign (option_path config section option) value

unfoldable pub delete : Text → Text → Text
delete config section =
    if not (name_pattern config) || not (section_pattern section)
    then []
    else codes "uci -q delete " ++ (section_path config section ++ codes " || true")

unfoldable pub delete_option : Text → Text → Text → Text
delete_option config section option =
    if not (name_pattern config) || (not (section_pattern section) || not (name_pattern option))
    then []
    else codes "uci -q delete " ++ (option_path config section option ++ codes " || true")

unfoldable pub add_anonymous_section : Text → Text → Text
add_anonymous_section config section_type =
    if not (name_pattern config) || not (name_pattern section_type)
    then []
    else codes "uci add " ++ (config ++ b' ' ∷ section_type)

unfoldable pub rename : Text → Text → Text → Text → Text
rename config section option new_name =
    if not (name_pattern config)
      || (not (section_pattern section)
          || ((not (is_empty option) && not (name_pattern option)) || not (name_pattern new_name)))
    then []
    else if is_empty option
    then codes "uci rename " ++ assign (section_path config section) new_name
    else codes "uci rename " ++ assign (option_path config section option) new_name
