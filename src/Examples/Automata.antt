-- ===== src/Examples/Automata.antt =====
-- The automata of regular expressions on concrete patterns and texts.
use gazon.Base.{
  ℕ, ◌≡◌, ◌≢◌, ◌↔◌, refl, Bool, true, false, [], ◌∷◌, Option, none, some, Text, codes, arith,
}
use gazon.Errors.{Result, ok, throw}
use gazon.Regex.Convert.{convert}
use gazon.Regex.Convert.Syntax.{
  Pattern, only, either, first, behind, literal, group, starred, expression,
}
use gazon.Regex.Convert.Correct.{convert-render}
use gazon.Regex.Nfa.{Memory, Nfa, new_nfa, from, invalid}
use gazon.Regex.Nfa.Graph.{Denotes, post}
use gazon.Regex.Nfa.Run.{match}
use gazon.Regex.Nfa.Inside.{InBounds}
use gazon.Regex.Nfa.Bounds.{Connected}
use gazon.Regex.Nfa.Room.{from_stays_inside}
use gazon.Regex.Nfa.From.{Recognises, from-Recognises}
use gazon.Regex.Nfa.Correct.{Decides, from_match_correct}
use gazon.Regex.Nfa.Malformed.{from_outcome}
use gazon.Regex.Postfix.Arity.{operands}
use gazon.Regex.Dfa.{Dfa}
use gazon.Regex.Dfa.Sane.{Sane}
use gazon.Regex.Pattern.{
  new_regex, regex_match, new_dfa, new_dfa-Sane, Serves, new_regex-render, regex_match_correct,
}

abbrev untouched : Memory
untouched = λ (i : ℕ). record { c = 7; left = 9; right = 9; last_step_seen = 9 }

abbrev fresh_nfa : Nfa
fresh_nfa = new_nfa untouched

fresh_nfa-InBounds : InBounds fresh_nfa
fresh_nfa-InBounds = (omega arith, omega arith, λ i pos lt. absurd (omega arith))

-- (a|b)*c
abbrev sample : Pattern
sample = only (
    behind (first (starred (group (either (first (literal 97)) (only (first (literal 98)))))))
      (literal 99))

convert-render_example : convert (codes "(a|b)*c") ≡ some (ok (post (expression sample)))
convert-render_example = convert-render sample (ground arith)

from_match_correct_example :
    (n' : Nfa) × (from (post (expression sample)) fresh_nfa ≡ some (ok n'))
    × Decides (expression sample) (codes "abc") n'
from_match_correct_example =
    from_match_correct (expression sample) (codes "abc") fresh_nfa (omega arith) fresh_nfa-InBounds
      (omega arith) (omega arith)

from_stays_inside_example :
    (r : Result Nfa) × (from (97 ∷ 98 ∷ 2 ∷ 5 ∷ []) fresh_nfa ≡ some r) × Connected 0 (some r)
from_stays_inside_example =
    from_stays_inside (97 ∷ 98 ∷ 2 ∷ 5 ∷ []) fresh_nfa fresh_nfa-InBounds (omega arith)

from_outcome_example :
    (operands (some 0) (97 ∷ 2 ∷ []) ≡ some 1
      → (n' : Nfa) × (from (97 ∷ 2 ∷ []) fresh_nfa ≡ some (ok n')))
    × (operands (some 0) (97 ∷ 2 ∷ []) ≢ some 1
        → from (97 ∷ 2 ∷ []) fresh_nfa ≡ some (throw invalid))
from_outcome_example = from_outcome (97 ∷ 2 ∷ []) fresh_nfa (omega arith)

lone_pipe_throws : from (97 ∷ 2 ∷ []) fresh_nfa ≡ some (throw invalid)
unfolding from
lone_pipe_throws = refl

new_regex-render_example :
    (d : Dfa) × (new_regex (codes "(a|b)*c") untouched ≡ some (ok d)) × Serves (expression sample) d
new_regex-render_example = new_regex-render sample untouched (ground arith) (omega arith)

sample_nfa-Recognises :
    (n : Nfa) × (from (post (expression sample)) fresh_nfa ≡ some (ok n))
    × Recognises (expression sample) n
sample_nfa-Recognises =
    from-Recognises (expression sample) fresh_nfa (omega arith) fresh_nfa-InBounds (omega arith)

abbrev sample_nfa : Nfa
sample_nfa = sample_nfa-Recognises.0

sample_dfa-Sane : Sane sample_nfa (new_dfa sample_nfa)
sample_dfa-Sane = new_dfa-Sane (expression sample) sample_nfa (omega arith) sample_nfa-Recognises.2

sample_dfa-Serves : Serves (expression sample) (new_dfa sample_nfa)
sample_dfa-Serves = (sample_nfa, sample_nfa-Recognises.2, sample_dfa-Sane)

regex_match_correct_example :
    (b : Bool) × (d' : Dfa) × (regex_match (codes "abc") (new_dfa sample_nfa) ≡ some (b, d'))
    × (codes "abc" ≢ [] → (b ≡ true) ↔ Denotes (expression sample) (codes "abc"))
    × Serves (expression sample) d'
regex_match_correct_example =
    regex_match_correct (expression sample) (codes "abc") (new_dfa sample_nfa) (omega arith)
      sample_dfa-Serves (omega arith)

-- what `match` answers on an automaton that was built
abbrev answer_on : Text → Option (Result Nfa) → Option Bool
answer_on s (some (ok n)) = elim (match s n) [ some (b, n') ↦ some b | none ↦ none ]
answer_on s r = none

text_is_matched : answer_on (codes "abac") (from (post (expression sample)) fresh_nfa) ≡ some true
unfolding from match
text_is_matched = refl

text_is_not_matched :
    answer_on (codes "abca") (from (post (expression sample)) fresh_nfa) ≡ some false
unfolding from match
text_is_not_matched = refl
