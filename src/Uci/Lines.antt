-- ===== src/Uci/Lines.antt =====
-- The lines of SetOption, AddList and DelList (internal/services/uci_bridge.go) as a shell reads them.
use openwrt_controller.Uci.Plain.{section_path-plain, option_path-plain}
use openwrt_controller.Base.{
  ◌↔◌, ℕ, ◌≡◌, ◌≢◌, refl, sym, ap, ◌∙◌, Bool, true, false, ◌&&◌, ◌||◌, List, [], ◌∷◌, ◌++◌, none,
  some, Text, codes, is_empty, arith, all, if◌then◌else◌,
}
use mathlib.Core.List.{append-nil, append_assoc}
use openwrt_controller.Identity.{name_pattern, section_pattern}
use openwrt_controller.Uci.Commands.{
  set_option, add_list, del_list, shell_quote, assign, option_path, section_path,
}
use openwrt_controller.Uci.Shell.{unquoted, is_plain, finish, words}
use openwrt_controller.Uci.Quoting.{words-shell_quote, words_plain}

-- `path='value'`, after the word begun by the first character of the path.
words-assign :
    (l : Bool) (c : ℕ) (path value : Text)
    → all (is_plain l) (c ∷ path) ≡ true
    → words l unquoted none (assign (c ∷ path) value) ≡ some (((c ∷ path) ++ b'=' ∷ value) ∷ [])
words-assign l c path value h =
    first c (path ++ b'=' ∷ shell_quote value) (ground arith)
    ∙ (words_plain l path (c ∷ []) (b'=' ∷ shell_quote value) (ground arith)
        ∙ (equals ((c ∷ []) ++ path)
            ∙ (ap (words l unquoted (some (((c ∷ []) ++ path) ++ b'=' ∷ [])))
                  (sym (append-nil (shell_quote value)))
                ∙ (words-shell_quote l value (((c ∷ []) ++ path) ++ b'=' ∷ []) []
                    ∙ unfold words in
                      ap (λ w. some (w ∷ []))
                        (append_assoc ((c ∷ []) ++ path) (b'=' ∷ []) value)))))
  where
    first :
        (d : ℕ) (rest : Text)
        → is_plain l d ≡ true
        → words l unquoted none (d ∷ rest) ≡ words l unquoted (some (d ∷ [])) rest
    first d rest p = unfold words is_plain in ground arith

    equals :
        (w : Text)
        → words l unquoted (some w) (b'=' ∷ shell_quote value)
          ≡ words l unquoted (some (w ++ b'=' ∷ [])) (shell_quote value)
    equals w = unfold words is_plain in refl

-- The path of a `set`: that of the section where the option is empty.
abbrev pub target : Text → Text → Text → Text
target config section option =
    if is_empty option then section_path config section else option_path config section option

target-plain :
    (l : Bool) (config section option : Text)
    → name_pattern config ≡ true
    → section_pattern section ≡ true
    → (l || name_pattern section) ≡ true
    → (is_empty option || name_pattern option) ≡ true
    → all (is_plain l) (target config section option) ≡ true
target-plain l config section [] hc hs hl ho = section_path-plain l config section hc hs hl
target-plain l config section (c ∷ o) hc hs hl ho =
    option_path-plain l config section (c ∷ o) hc hs hl (ground arith)

-- A line of a verb and an assignment.
words-verb :
    (l : Bool) (verb : Text) (config section option value : Text)
    → ((rest : Text)
        → words l unquoted none (codes "uci " ++ (verb ++ b' ' ∷ rest))
          ≡ finish (some (codes "uci")) (finish (some verb) (words l unquoted none rest)))
    → name_pattern config ≡ true
    → section_pattern section ≡ true
    → (l || name_pattern section) ≡ true
    → (is_empty option || name_pattern option) ≡ true
    → words l unquoted none
        (codes "uci " ++ (verb ++ b' ' ∷ assign (target config section option) value))
      ≡ some (codes "uci" ∷ verb ∷ (target config section option ++ b'=' ∷ value) ∷ [])
words-verb l verb [] section option value reads hc hs hl ho =
    absurd (unfold name_pattern in ground arith)
words-verb l verb (c ∷ cs) section [] value reads hc hs hl ho =
    reads (assign (target (c ∷ cs) section []) value)
    ∙ ap (λ w. finish (some (codes "uci")) (finish (some verb) w))
        (words-assign l c (cs ++ b'.' ∷ section) value
          (target-plain l (c ∷ cs) section [] hc hs hl ho))
words-verb l verb (c ∷ cs) section (d ∷ o) value reads hc hs hl ho =
    reads (assign (target (c ∷ cs) section (d ∷ o)) value)
    ∙ ap (λ w. finish (some (codes "uci")) (finish (some verb) w))
        (words-assign l c (cs ++ b'.' ∷ (section ++ b'.' ∷ (d ∷ o))) value
          (target-plain l (c ∷ cs) section (d ∷ o) hc hs hl ho))

set_option-rendered :
    (config section option value : Text)
    → set_option config section option value ≢ []
    → (name_pattern config ≡ true)
      × (section_pattern section ≡ true)
      × ((is_empty option || name_pattern option) ≡ true)
      × (set_option config section option value
          ≡ codes "uci " ++ (codes "set" ++ b' ' ∷ assign (target config section option) value))
unfolding set_option name_pattern
set_option-rendered config section [] value h =
    (ground arith, ground arith, ground arith, ground arith)
set_option-rendered config section (d ∷ o) value h =
    (ground arith, ground arith, ground arith, ground arith)

add_list-rendered :
    (config section option value : Text)
    → add_list config section option value ≢ []
    → (name_pattern config ≡ true)
      × (section_pattern section ≡ true)
      × ((is_empty option || name_pattern option) ≡ true)
      × (add_list config section option value
          ≡ codes "uci "
            ++ (codes "add_list" ++ b' ' ∷ assign (target config section option) value))
unfolding add_list name_pattern
add_list-rendered config section [] value h =
    (ground arith, ground arith, ground arith, ground arith)
add_list-rendered config section (d ∷ o) value h =
    (ground arith, ground arith, ground arith, ground arith)

del_list-rendered :
    (config section option value : Text)
    → del_list config section option value ≢ []
    → (name_pattern config ≡ true)
      × (section_pattern section ≡ true)
      × ((is_empty option || name_pattern option) ≡ true)
      × (del_list config section option value
          ≡ codes "uci "
            ++ (codes "del_list" ++ b' ' ∷ assign (target config section option) value))
unfolding del_list name_pattern
del_list-rendered config section [] value h =
    (ground arith, ground arith, ground arith, ground arith)
del_list-rendered config section (d ∷ o) value h =
    (ground arith, ground arith, ground arith, ground arith)

-- The words of an assignment to an option or, with the empty option, a section.
abbrev pub assignment : Text → Text → Text → Text → Text → List Text
assignment verb config section option value =
    codes "uci" ∷ verb ∷ (target config section option ++ b'=' ∷ value) ∷ []

set_option-words :
    (l : Bool) (config section option value : Text)
    → (l || name_pattern section) ≡ true
    → set_option config section option value ≢ []
    → words l unquoted none (set_option config section option value)
      ≡ some (assignment (codes "set") config section option value)
unfolding words is_plain
set_option-words l config section option value hl h =
    let (hc, hs, ho, e) = set_option-rendered config section option value h in
    rw e (words-verb l (codes "set") config section option value (λ rest. refl) hc hs hl ho)

add_list-words :
    (l : Bool) (config section option value : Text)
    → (l || name_pattern section) ≡ true
    → add_list config section option value ≢ []
    → words l unquoted none (add_list config section option value)
      ≡ some (assignment (codes "add_list") config section option value)
unfolding words is_plain
add_list-words l config section option value hl h =
    let (hc, hs, ho, e) = add_list-rendered config section option value h in
    rw e (words-verb l (codes "add_list") config section option value (λ rest. refl) hc hs hl ho)

del_list-words :
    (l : Bool) (config section option value : Text)
    → (l || name_pattern section) ≡ true
    → del_list config section option value ≢ []
    → words l unquoted none (del_list config section option value)
      ≡ some (assignment (codes "del_list") config section option value)
unfolding words is_plain
del_list-words l config section option value hl h =
    let (hc, hs, ho, e) = del_list-rendered config section option value h in
    rw e (words-verb l (codes "del_list") config section option value (λ rest. refl) hc hs hl ho)

-- Where the line needs an option, or may be of a section.
unfoldable pub admits : Text → Text → Text → Bool → Bool
admits config section option whole =
    name_pattern config
    && (section_pattern section && (name_pattern option || (whole && is_empty option)))

refusals :
    (config section option value : Text)
    → ((set_option config section option value ≡ []) ↔ (admits config section option true ≡ false))
      × ((add_list config section option value ≡ []) ↔ (admits config section option false ≡ false))
      × ((del_list config section option value ≡ []) ↔ (admits config section option false ≡ false))
unfolding set_option add_list del_list admits
refusals config section option value = ground arith

-- The shell reads an admitted line as these words, and a line that is not admitted is refused.
unfoldable pub ReadsAs : Bool → Bool → Text → List Text → Type 0
ReadsAs l true line ws = words l unquoted none line ≡ some ws
ReadsAs l false line ws = line ≡ []

reads_as :
    (l : Bool) (b : Bool) (line : Text) (ws : List Text)
    → ((line ≡ []) ↔ (b ≡ false))
    → (line ≢ [] → words l unquoted none line ≡ some ws)
    → ReadsAs l b line ws
unfolding ReadsAs
reads_as l true line ws e f = f (λ h. ground (arith, e.0 h))
reads_as l false line ws e f = e.1 refl

-- SetOption, AddList and DelList refuse a line exactly when the configuration or the section is no name,
-- or the option is none; only SetOption takes the empty option, for the whole section. Otherwise the
-- shell reads three words: `uci`, the verb, and the path, an equals sign and the value as it is,
-- whatever bytes the value holds. Where the section is by index, as in `@type[0]`, its word is a
-- pattern, and this is for a shell that finds no file that matches it.
pub value_is_one_word :
    (literal : Bool) (config section option value : Text)
    → (literal || name_pattern section) ≡ true
    → ReadsAs literal
        (admits config section option true)
        (set_option config section option value)
        (assignment (codes "set") config section option value)
      × ReadsAs literal
          (admits config section option false)
          (add_list config section option value)
          (assignment (codes "add_list") config section option value)
      × ReadsAs literal
          (admits config section option false)
          (del_list config section option value)
          (assignment (codes "del_list") config section option value)
value_is_one_word literal config section option value named =
    let (s, a, d) = refusals config section option value in
    (
      reads_as literal _ (set_option config section option value) _ s
          (set_option-words literal config section option value named),
      reads_as literal _ (add_list config section option value) _ a
          (add_list-words literal config section option value named),
      reads_as literal _ (del_list config section option value) _ d
          (del_list-words literal config section option value named),
    )
