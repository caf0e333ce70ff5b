-- ===== src/Scan.antt =====
-- src/common/common.cpp: the scanners over a text and an index, `splitString` and `quote`.
-- An index is a `uint`; texts are shorter than 2^32, so it does not wrap. A loop
-- `for (i = start; i < s.size() && test; ++i) end = i + 1` recurs on the rounds that the bound leaves.
pub mod Skip
pub mod Segment
pub mod Split
pub mod Shell
use gazon.Base.{
  ℕ, zero, suc, ◌+◌, ◌-◌, Bool, true, false, not, ◌&&◌, List, [], ◌∷◌, ◌++◌, Text, length, char_at,
  is_space, nat_eq, if◌then◌else◌, codes,
}

-- the loop that the three `skip` functions and `skipArg` share; the test is of the index
unfoldable pub skip_loop : (ℕ → Bool) → ℕ → ℕ → ℕ → ℕ
skip_loop test zero i end = end
skip_loop test (suc n) i end = elim (test i) [
  | true ↦ skip_loop test n (i + 1) (i + 1)
  | false ↦ end
]

unfoldable pub skip_empty_chars : ℕ → Text → ℕ
unfolding skip_loop
skip_empty_chars start s = skip_loop (λ i. is_space (char_at s i)) (length s - start) start start

unfoldable pub skip_non_empty_chars : ℕ → Text → ℕ
unfolding skip_loop
skip_non_empty_chars start s =
    skip_loop (λ i. not (is_space (char_at s i))) (length s - start) start start

-- `chars.find(c) != npos`
unfoldable pub contains_byte : Text → ℕ → Bool
contains_byte [] c = false
contains_byte (b ∷ s) c = if nat_eq b c then true else contains_byte s c

unfoldable pub skip_until : ℕ → Text → Text → ℕ
unfolding contains_byte skip_loop
skip_until start s chars =
    skip_loop (λ i. not (contains_byte chars (char_at s i))) (length s - start) start start

abbrev pub single_quote : ℕ
single_quote = 39

abbrev pub double_quote : ℕ
double_quote = 34

abbrev pub backslash : ℕ
backslash = 92

-- inside '…': up to the next quote
unfoldable pub in_single : Text → ℕ → Bool
in_single s i = not (nat_eq (char_at s i) single_quote)

-- inside "…": up to the next quote that no backslash precedes
unfoldable pub in_double : Text → ℕ → Bool
in_double s i =
    not (nat_eq (char_at s i) double_quote && not (nat_eq (char_at s (i - 1)) backslash))

-- The end of the argument at `start`, and whether it is quoted.
unfoldable pub skip_arg : ℕ → Text → ℕ × Bool
unfolding in_single in_double skip_loop skip_non_empty_chars
skip_arg start s =
    if nat_eq (char_at s start) single_quote
    then (skip_loop (in_single s) (length s - (start + 1)) (start + 1) (start + 1) + 1, true)
    else if nat_eq (char_at s start) double_quote
    then (skip_loop (in_double s) (length s - (start + 1)) (start + 1) (start + 1) + 1, true)
    else (skip_non_empty_chars start s, false)

-- `if (c != "") out.push_back(c)`
pub push_part : List Text → Text → List Text
push_part out [] = out
push_part out (x ∷ c) = out ++ (x ∷ c) ∷ []

-- `for (const char x : s)` of `splitString`, with its variables `out` and `c`
pub split_loop : ℕ → Text → List Text → Text → List Text
unfolding push_part
split_loop sep [] out c = push_part out c
split_loop sep (x ∷ s) out c =
    let at_sep = split_loop sep s (push_part out c) [] in
    let in_part = split_loop sep s out (c ++ x ∷ []) in if nat_eq x sep then at_sep else in_part

unfoldable pub split_string : Text → ℕ → List Text
unfolding split_loop
split_string s sep = split_loop sep s [] []

-- `regex_replace(s, "'", "'\"'\"'")`
pub escape_quotes : Text → Text
escape_quotes [] = []
escape_quotes (c ∷ s) =
    (if nat_eq c single_quote then codes "'\"'\"'" else c ∷ []) ++ escape_quotes s

unfoldable pub quote : Text → Text
unfolding escape_quotes
quote s = single_quote ∷ (escape_quotes s ++ single_quote ∷ [])
