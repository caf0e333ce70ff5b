-- ===== src/Scan/Shell.antt =====
-- `quote` of src/common/common.cpp against the way a POSIX shell reads a quoted word.
use mathlib.Core.Option
use gazon.Base.{
  ℕ, ◌≡◌, refl, Bool, ◌||◌, [], ◌∷◌, ◌++◌, Option, none, some, Text, nat_eq, if◌then◌else◌,
  Bool-cases, inl, inr, nat_eq_iff,
}
use gazon.Scan.{quote, escape_quotes, single_quote, double_quote, backslash}

-- Where the shell's reader stands: between quotes, inside '…', or inside "…".
pub data ShellMode : Type 0 where
  bare in_sq in_dq : ShellMode

-- `$`, `` ` `` and `\` keep a meaning inside "…"
abbrev pub is_expanded : ℕ → Bool
is_expanded c = nat_eq c 36 || nat_eq c 96 || nat_eq c backslash

-- The text that one fully quoted word stands for. `none`: the word does not end where the text
-- does, or the shell would interpret some byte of it.
unfoldable pub shell_word : ShellMode → Text → Option Text
shell_word bare [] = some []
shell_word in_sq [] = none
shell_word in_dq [] = none
shell_word bare (c ∷ s) =
    let sq = shell_word in_sq s in
    let dq = shell_word in_dq s in
    if nat_eq c single_quote then sq else if nat_eq c double_quote then dq else none
shell_word in_sq (c ∷ s) =
    let out = shell_word bare s in
    let on = Option.map (λ r. c ∷ r) (shell_word in_sq s) in
    if nat_eq c single_quote then out else on
shell_word in_dq (c ∷ s) =
    let out = shell_word bare s in
    let on = Option.map (λ r. c ∷ r) (shell_word in_dq s) in
    if nat_eq c double_quote then out else if is_expanded c then none else on

shell_word-escape : (s : Text) → shell_word in_sq (escape_quotes s ++ single_quote ∷ []) ≡ some s
unfolding shell_word escape_quotes
shell_word-escape [] = refl
shell_word-escape (c ∷ s) = elim (Bool-cases (nat_eq c single_quote)) [
  | inl e ↦
      let e' : c ≡ single_quote = (nat_eq_iff c single_quote).0 e in
      rw (e, shell_word-escape s, e') refl
  | inr e ↦ rw (e, e) (rw (shell_word-escape s) refl)
]

-- Whatever the bytes of `s`, the shell reads `quote(s)` as one word, which stands for `s`, and
-- interprets none of them.
pub shell_word-quote : (s : Text) → shell_word bare (quote s) ≡ some s
unfolding shell_word quote
shell_word-quote s = shell_word-escape s
