-- ===== src/Regex/Postfix.antt =====
-- include/common/regexpostfix.h: a regular expression in postfix order, its operators on bytes that
-- are not printable.
-- After the loops of `popAllConcat` and `popAllPipe` the counters may be -1, which is 0 here: at ')'
-- and at the end the scope is dropped, and at '|' there is a concatenation to count.
pub mod Arity
pub mod Ends
use gazon.Base.{
  ℕ, zero, suc, ◌+◌, ◌-◌, Bool, true, false, not, ◌&&◌, ◌||◌, List, [], ◌∷◌, ◌++◌, Option, none,
  some, Text, codes, length, char_at, substr, ltb, nat_eq, if◌then◌else◌,
}
use gazon.Errors.{Result, ok, throw, Exception, regex_exception}
use gazon.Numbers.{ℤ, pos, negsuc, int_max, stoi}
use gazon.Scan.{skip_empty_chars, skip_until}

abbrev pub concat_char : ℕ
concat_char = 1

abbrev pub pipe_char : ℕ
pipe_char = 2

abbrev pub zero_or_one : ℕ
zero_or_one = 3

abbrev pub one_or_more : ℕ
one_or_more = 4

abbrev pub zero_or_more : ℕ
zero_or_more = 5

abbrev pub any_char : ℕ
any_char = 6

-- `index_start_group` is -1 at first.
pub record StackElem : Type 0 where
  pub n_concat : ℕ
  pub n_pipe : ℕ
  pub index_start_group : Option ℕ

pub record RegexPostfix : Type 0 where
  pub postfix : Text
  pub stack : List StackElem
  pub current_scope : StackElem

abbrev pub new_scope : StackElem
new_scope = record { n_concat = 0; n_pipe = 0; index_start_group = none }

unfoldable pub to_char : ℕ → ℕ
to_char c =
    if nat_eq c b'*'
    then zero_or_more
    else if nat_eq c b'?'
    then zero_or_one
    else if nat_eq c b'+'
    then one_or_more
    else if nat_eq c b'|'
    then pipe_char
    else if nat_eq c b'$'
    then concat_char
    else if nat_eq c b'.'
    then any_char
    else c

unfoldable pub is_unary : ℕ → Bool
is_unary x = nat_eq x b'?' || nat_eq x b'*' || nat_eq x b'+'

abbrev pub emit : ℕ → RegexPostfix → RegexPostfix
emit c r = record r { postfix = r.postfix ++ c ∷ [] }

abbrev pub with_concat : ℕ → RegexPostfix → RegexPostfix
with_concat n r = record r { current_scope = record r.current_scope { n_concat = n } }

unfoldable pub pop_one_concat : RegexPostfix → RegexPostfix
pop_one_concat r =
    if ltb 1 r.current_scope.n_concat
    then emit concat_char (with_concat (r.current_scope.n_concat - 1) r)
    else r

-- `while (n_concat-- > 1)`
unfoldable pub concat_loop : ℕ → Text → Text
concat_loop zero postfix = postfix
concat_loop (suc zero) postfix = postfix
concat_loop (suc (suc n)) postfix = concat_loop (suc n) (postfix ++ concat_char ∷ [])

unfoldable pub pop_all_concat : RegexPostfix → RegexPostfix
unfolding concat_loop
pop_all_concat r =
    with_concat 0 (record r { postfix = concat_loop r.current_scope.n_concat r.postfix })

-- `while (n_pipe-- > 0)`
unfoldable pub pipe_loop : ℕ → Text → Text
pipe_loop zero postfix = postfix
pipe_loop (suc n) postfix = pipe_loop n (postfix ++ pipe_char ∷ [])

unfoldable pub pop_all_pipe : RegexPostfix → RegexPostfix
unfolding pipe_loop
pop_all_pipe r = record r {
  postfix = pipe_loop r.current_scope.n_pipe r.postfix;
  current_scope = record r.current_scope { n_pipe = 0 };
}

unfoldable pub deal_with_unary : ℕ → RegexPostfix → Result RegexPostfix
unfolding to_char
deal_with_unary unary r =
    if nat_eq r.current_scope.n_concat 0
    then throw (regex_exception (codes "[Syntax error] Regex can't have a unary op here."))
    else ok (emit (to_char unary) r)

-- the test `min < 0 || min > max`, and the two numbers where it fails
unfoldable pub check_bounds : ℤ → ℤ → Option (ℕ × ℕ)
check_bounds (pos a) (pos b) = if ltb b a then none else some (a, b)
check_bounds (negsuc a) b = none
check_bounds (pos a) (negsuc b) = none

-- What one round of `parseRepetitions` leads to: the values of `i_next_token`, `saw_one_coma`,
-- `repetitions_min` and `repetitions_max`, or an end.
pub data Repetitions : Type 0 where
  goes_on : ℕ → Bool → ℤ → ℤ → Repetitions
  returns : ℕ → ℕ → ℕ → Repetitions
  fails : Exception → Repetitions

abbrev pub invalid_syntax : Exception
invalid_syntax = regex_exception (codes "[Syntax error] Invalid syntax for a {...} expression")

-- at a '}'
unfoldable pub close_repetitions : ℕ → ℤ → ℤ → Repetitions
unfolding check_bounds
close_repetitions i low high = elim (check_bounds low high) [
  | none ↦
      fails (regex_exception (codes "[Syntax error] An {n, m} expression must have 0 <= n <= m"))
  | some (a, b) ↦ returns i a b
]

-- a number up to `i_end_number`
unfoldable pub read_number : ℕ → Bool → ℤ → ℤ → Option ℤ → Repetitions
read_number stop saw_one_coma low high none = fails invalid_syntax
read_number stop false low high (some number) = goes_on stop false number high
read_number stop true low high (some number) = goes_on stop true low number

-- one round of the loop
unfoldable pub repetition_step : Text → ℕ → Bool → ℤ → ℤ → Repetitions
unfolding skip_empty_chars skip_until stoi close_repetitions read_number
repetition_step s i saw_one_coma low high =
    let start = skip_empty_chars i s in
    let c = char_at s start in
    let stop = skip_until start s (codes ",}") in
    if nat_eq c b'}'
    then close_repetitions start low (if saw_one_coma then high else low)
    else if nat_eq c b',' && not saw_one_coma
    then goes_on (start + 1) true low high
    else read_number stop saw_one_coma low high (stoi (substr s start (stop - start)))

-- The loop of `parseRepetitions`. `none`: the fuel ran out.
unfoldable pub repetition_loop : ℕ → Text → Repetitions → Option (Result (ℕ × (ℕ × ℕ)))
unfolding repetition_step
repetition_loop fuel s (returns i a b) = some (ok (i, (a, b)))
repetition_loop fuel s (fails e) = some (throw e)
repetition_loop zero s (goes_on i saw low high) = none
repetition_loop (suc fuel) s (goes_on i saw low high) =
    let next = repetition_step s i saw low high in
    let rest = repetition_loop fuel s next in
    if ltb i (length s) then rest else some (throw invalid_syntax)

-- `parseRepetitions`; a round moves on by a byte at least, so the fuel is more than the bytes
unfoldable pub parse_repetitions : Text → ℕ → Option (Result (ℕ × (ℕ × ℕ)))
unfolding repetition_loop
parse_repetitions s i = repetition_loop (suc (length s)) s (goes_on i false (pos 0) (pos int_max))

-- a text, so many times
unfoldable pub repeat : ℕ → Text → Text
repeat zero s = []
repeat (suc n) s = s ++ repeat n s

-- `translateRepetitions`: the postfix expression after it
unfoldable pub translate_repetitions : Text → ℕ → ℕ → Text → Text
unfolding repeat
translate_repetitions pattern low high postfix =
    if nat_eq low 0 && nat_eq high int_max
    then postfix ++ zero_or_more ∷ []
    else if nat_eq low 0
    then (postfix ++ zero_or_one ∷ [])
      ++ repeat (high - 1) (pattern ++ zero_or_one ∷ concat_char ∷ [])
    else if nat_eq high int_max
    then (postfix ++ repeat (low - 2) (pattern ++ concat_char ∷ []))
      ++ (pattern ++ one_or_more ∷ concat_char ∷ [])
    else (postfix ++ repeat (low - 1) (pattern ++ concat_char ∷ []))
      ++ repeat (high - low) (pattern ++ zero_or_one ∷ concat_char ∷ [])
