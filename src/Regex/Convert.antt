-- ===== src/Regex/Convert.antt =====
-- `RegexPostfix::convert` of include/common/regexpostfix.h.
pub mod Total
pub mod Syntax
pub mod Reads
pub mod Pieces
pub mod Correct
use gazon.Base.{
  ℕ, zero, suc, ◌+◌, ◌-◌, ◌≡◌, refl, Bool, true, false, not, ◌&&◌, ◌||◌, List, [], ◌∷◌, ◌++◌,
  Option, none, some, Text, codes, length, char_at, substr, ltb, nat_eq, if◌then◌else◌,
}
use gazon.Errors.{Result, ok, throw, Exception, regex_exception, ◌>>=◌}
use gazon.Regex.Postfix.{
  RegexPostfix, StackElem, new_scope, emit, with_concat, to_char, is_unary, pop_one_concat,
  pop_all_concat, pop_all_pipe, deal_with_unary, parse_repetitions, translate_repetitions,
}

-- what a round leads to: the index of the last byte that it read, and the state. `none`: the fuel
-- of `parseRepetitions` ran out.
abbrev pub Round : Type 0
Round = Option (Result (ℕ × RegexPostfix))

abbrev pub start_group : ℕ → RegexPostfix → RegexPostfix
start_group i r = record r { current_scope = record r.current_scope { index_start_group = some i } }

-- '('
unfoldable pub open_group : RegexPostfix → RegexPostfix
unfolding pop_one_concat
open_group r =
    let r' = pop_one_concat r in
    let r'' = start_group (length r'.postfix) r' in
    record r'' { stack = r''.current_scope ∷ r''.stack; current_scope = new_scope }

-- ')', with the scope on top of the stack and those below it
unfoldable pub close_group : StackElem → List StackElem → RegexPostfix → RegexPostfix
unfolding pop_all_concat pop_all_pipe
close_group scope stack r = record (pop_all_pipe (pop_all_concat r)) {
  current_scope = record scope { n_concat = scope.n_concat + 1 };
  stack = stack;
}

-- '|'
unfoldable pub add_pipe : RegexPostfix → Result RegexPostfix
unfolding pop_all_concat
add_pipe r =
    if nat_eq r.current_scope.n_concat 0
    then throw (
        regex_exception
          (codes "[Syntax error] '|' operator expression expects tokens on the left."))
    else ok (record (pop_all_concat r) {
      current_scope = record (pop_all_concat r).current_scope {
        n_pipe = r.current_scope.n_pipe + 1;
      };
    })

-- '{', once the repetitions are read
unfoldable pub repeat_group : Option ℕ → ℕ → ℕ → ℕ → RegexPostfix → Result (ℕ × RegexPostfix)
unfolding translate_repetitions
repeat_group none i low high r =
    throw (regex_exception (codes "[Syntax error] A {...} expression expects tokens on the left."))
repeat_group (some start) i low high r =
    let pattern = substr r.postfix start (length r.postfix - start + 1) in
    ok (i, record r { postfix = translate_repetitions pattern low high r.postfix })

-- any other byte
unfoldable pub add_char : ℕ → RegexPostfix → RegexPostfix
unfolding pop_one_concat to_char
add_char c r =
    let r' = pop_one_concat r in
    emit (to_char c)
      (start_group (length r'.postfix) (with_concat (r'.current_scope.n_concat + 1) r'))

unfoldable pub repeat_read : Option (Result (ℕ × (ℕ × ℕ))) → RegexPostfix → Round
unfolding repeat_group
repeat_read none r = none
repeat_read (some (throw e)) r = some (throw e)
repeat_read (some (ok (i, (low, high)))) r =
    some (repeat_group r.current_scope.index_start_group i low high r)

-- the result of a branch that reads the byte at `i` only
abbrev pub stay : ℕ → Result RegexPostfix → Round
stay i (ok r) = some (ok (i, r))
stay i (throw e) = some (throw e)

-- the branches behind those of the parentheses
unfoldable pub plain_round : Text → ℕ → RegexPostfix → Round
unfolding add_pipe pop_one_concat repeat_read parse_repetitions is_unary deal_with_unary add_char
plain_round s i r =
    let c = char_at s i in
    if nat_eq c b'|'
    then stay i (add_pipe r)
    else if nat_eq c 92
    then some (ok (i + 1, emit (char_at s (i + 1)) (pop_one_concat r)))
    else if nat_eq c b'{'
    then repeat_read (parse_repetitions s (i + 1)) r
    else if is_unary c
    then stay i (deal_with_unary c r)
    else some (ok (i, add_char c r))

-- ')' closes a group if there is one
unfoldable pub close_round : Text → ℕ → List StackElem → RegexPostfix → Round
unfolding plain_round close_group
close_round s i [] r = plain_round s i r
close_round s i (scope ∷ stack) r =
    if nat_eq (char_at s i) b')'
    then some (ok (i, close_group scope stack r))
    else plain_round s i r

-- one round of the loop of `convert`
unfoldable pub convert_round : Text → ℕ → RegexPostfix → Round
unfolding open_group close_round
convert_round s i r =
    if nat_eq (char_at s i) b'(' then some (ok (i, open_group r)) else close_round s i r.stack r

-- The loop of `convert`; `none`: the fuel ran out.
unfoldable pub convert_loop : ℕ → Text → ℕ → RegexPostfix → Option (Result RegexPostfix)
unfolding convert_round
convert_loop zero s i r = none
convert_loop (suc fuel) s i r = elim (ltb i (length s)) [
  | false ↦ some (ok r)
  | true ↦ elim (convert_round s i r) [
    | none ↦ none
    | some (throw e) ↦ some (throw e)
    | some (ok (j, r')) ↦ convert_loop fuel s (j + 1) r'
  ]
]

abbrev pub finish : Option (Result RegexPostfix) → Option (Result Text)
finish none = none
finish (some (throw e)) = some (throw e)
finish (some (ok r)) = some (ok (pop_all_pipe (pop_all_concat r)).postfix)

-- `RegexPostfix(infix).get()`; a round moves on by a byte at least
unfoldable pub convert : Text → Option (Result Text)
unfolding convert_loop pop_all_concat pop_all_pipe
convert infix_text = finish (
    convert_loop (suc (length infix_text)) infix_text 0
      (record { postfix = []; stack = []; current_scope = new_scope }))
