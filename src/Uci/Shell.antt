-- ===== src/Uci/Shell.antt =====
-- How a POSIX shell reads a simple command line: blanks separate words, single quotes quote, a
-- backslash quotes one character. Operators, expansions and double quotes are outside of this reader,
-- which refuses them. A `[` outside quotes begins a pattern, which the shell replaces by the files that
-- match its word and leaves as it is where none does: `literal` says that none does, and without it the
-- reader refuses the `[`.
use openwrt_controller.Base.{
  ℕ, Bool, not, ◌&&◌, ◌||◌, List, [], ◌∷◌, ◌++◌, Option, none, some, Text, ◌==◌, any, if◌then◌else◌,
}

pub data Mode : Type 0 where
  unquoted single_quoted escaped : Mode

-- `\n " $ & ( ) * ; < > ? \` { | } ~ # !` stand for more than themselves outside quotes.
unfoldable pub is_special : Bool → ℕ → Bool
is_special literal c =
    (c == b'[' && not literal)
    || any (λ d. d == c)
        (10 ∷ 34 ∷ b'$' ∷ b'&' ∷ b'(' ∷ b')' ∷ b'*' ∷ b';' ∷ b'<' ∷ b'>' ∷ b'?' ∷ b'`' ∷ b'{' ∷ b'|'
          ∷ b'}' ∷ b'~' ∷ b'#' ∷ b'!' ∷ [])

-- A character that a word holds as it is.
unfoldable pub is_plain : Bool → ℕ → Bool
unfolding is_special
is_plain literal c =
    not (c == b' ') && (not (c == b'\'') && (not (c == 92) && not (is_special literal c)))

abbrev pub add_char : Option Text → ℕ → Option Text
add_char none c = some (c ∷ [])
add_char (some w) c = some (w ++ c ∷ [])

abbrev pub begun : Option Text → Option Text
begun none = some []
begun (some w) = some w

abbrev pub finish : Option Text → Option (List Text) → Option (List Text)
finish w none = none
finish none (some ws) = some ws
finish (some w) (some ws) = some (w ∷ ws)

-- The words of a line, the word in progress being `w`.
unfoldable pub words : Bool → Mode → Option Text → Text → Option (List Text)
words literal unquoted w [] = finish w (some [])
words literal single_quoted w [] = none
words literal escaped w [] = none
words literal single_quoted w (c ∷ s) =
    let closed = words literal unquoted w s in
    let inside = words literal single_quoted (add_char w c) s in
    if c == b'\'' then closed else inside
words literal escaped w (c ∷ s) = if c == 10 then none else words literal unquoted (add_char w c) s
words literal unquoted w (c ∷ s) =
    let blank = finish w (words literal unquoted none s) in
    let quote = words literal single_quoted (begun w) s in
    let backslash = words literal escaped w s in
    let plain = words literal unquoted (add_char w c) s in
    if c == b' '
    then blank
    else if c == b'\''
    then quote
    else if c == 92
    then backslash
    else if is_special literal c
    then none
    else plain
