-- ===== src/Uci/Quoting.antt =====
-- shellQuote (internal/services/uci_bridge.go) as a shell reads it.
use openwrt_controller.Base.{
  ℕ, ◌≡◌, ap, ◌∙◌, Bool, true, [], ◌∷◌, ◌++◌, none, some, Text, ◌==◌, ==_iff, Bool-cases, inl, inr,
  arith, all,
}
use mathlib.Core.List.{append-nil, append_assoc}
use openwrt_controller.Uci.Commands.{escape_val, shell_quote}
use openwrt_controller.Uci.Shell.{unquoted, single_quoted, is_plain, words}

-- Inside quotes, an escaped text and the closing quote add the text to the word.
words-escape_val :
    (l : Bool) (v w rest : Text)
    → words l single_quoted (some w) (escape_val v ++ b'\'' ∷ rest)
      ≡ words l unquoted (some (w ++ v)) rest
unfolding words escape_val
words-escape_val l [] w rest = rw append-nil
words-escape_val l (c ∷ v) w rest = elim (Bool-cases (c == b'\'')) [
  | inl quote ↦ rw ((==_iff c b'\'').0 quote) (
      words-escape_val l v (w ++ b'\'' ∷ []) rest
      ∙ ap (λ t. words l unquoted (some t) rest) (append_assoc w (b'\'' ∷ []) v))
  | inr other ↦ rw other (
      rw (other, words)
        (words-escape_val l v (w ++ c ∷ []) rest
          ∙ ap (λ t. words l unquoted (some t) rest) (append_assoc w (c ∷ []) v)))
]

-- A quoted text within a word adds that text to the word, whatever it holds and whatever follows.
pub words-shell_quote :
    (l : Bool) (v w rest : Text)
    → words l unquoted (some w) (shell_quote v ++ rest) ≡ words l unquoted (some (w ++ v)) rest
unfolding shell_quote words
words-shell_quote l v w rest =
    ap (words l single_quoted (some w)) (append_assoc (escape_val v) (b'\'' ∷ []) rest)
    ∙ words-escape_val l v w rest

-- A quoted text alone on a line is one word, the text, whatever bytes it holds.
pub shell_quote_is_one_word :
    (l : Bool) (v : Text) → words l unquoted none (shell_quote v) ≡ some (v ∷ [])
unfolding shell_quote words
shell_quote_is_one_word l v = words-escape_val l v [] []

-- Plain characters add themselves.
pub words_plain :
    (l : Bool) (t w rest : Text)
    → all (is_plain l) t ≡ true
    → words l unquoted (some w) (t ++ rest) ≡ words l unquoted (some (w ++ t)) rest
words_plain l [] w rest h = rw append-nil
words_plain l (c ∷ t) w rest h =
    words_plain_char c w (t ++ rest) (ground arith)
    ∙ (words_plain l t (w ++ c ∷ []) rest (ground arith)
        ∙ ap (λ x. words l unquoted (some x) rest) (append_assoc w (c ∷ []) t))
  where
    words_plain_char :
        (d : ℕ) (u more : Text)
        → is_plain l d ≡ true
        → words l unquoted (some u) (d ∷ more) ≡ words l unquoted (some (u ++ d ∷ [])) more
    words_plain_char d u more p = unfold words is_plain in ground arith
