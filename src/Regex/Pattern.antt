-- ===== src/Regex/Pattern.antt =====
-- The class Regex of include/common/regex.h and src/common/regex.cpp: a pattern, the automata made
-- of it, and matching.
use gazon.Base.{
  ℕ, ◌+◌, ◌<◌, ◌≡◌, ◌≢◌, ◌↔◌, refl, sym, Bool, true, false, [], All, Option, none, some, Text,
  arith,
}
use gazon.Errors.{Result, ok, throw}
use gazon.Regex.Convert.{convert}
use gazon.Regex.Convert.Syntax.{Pattern, render, expression, IsWritable, expression-IsPlain}
use gazon.Regex.Convert.Correct.{convert-render}
use gazon.Regex.Nfa.{Nfa, Memory, new_nfa, from, max_size}
use gazon.Regex.Nfa.Graph.{Regex, Denotes, IsPlain, size, post}
use gazon.Regex.Nfa.Run.{match}
use gazon.Regex.Nfa.Inside.{InBounds}
use gazon.Regex.Nfa.From.{Recognises, from-Recognises}
use gazon.Regex.Nfa.Match.{NotSplit}
use gazon.Regex.Nfa.Correct.{Accepts-iff, match_iff, Recognises-Like}
use gazon.Regex.Dfa.{Dfa, DfaState, dfa_match}
use gazon.Regex.Dfa.Sane.{Sane}
use gazon.Regex.Dfa.Correct.{dfa_match-DfaAnswers}

-- `RegexDfa()` and `linkNfa`
abbrev pub new_dfa : Nfa → Dfa
new_dfa n = record {
  nfa = n;
  heap = λ (id : ℕ). none;
  fresh = 0;
  dfa_cache = [];
  dfa_start_state = none;
}

abbrev pub link_nfa : Option (Result Nfa) → Option (Result Dfa)
link_nfa none = none
link_nfa (some (throw e)) = some (throw e)
link_nfa (some (ok n)) = some (ok (new_dfa n))

abbrev pub from_postfix : Option (Result Text) → Memory → Option (Result Dfa)
from_postfix none m = none
from_postfix (some (throw e)) m = some (throw e)
from_postfix (some (ok postfix)) m = link_nfa (from postfix (new_nfa m))

-- `Regex::Regex`, on the memory that `m_states` is found in
unfoldable pub new_regex : Text → Memory → Option (Result Dfa)
unfolding convert from
new_regex pattern m = from_postfix (convert pattern) m

-- `Regex::match`
unfoldable pub regex_match : Text → Dfa → Option (Bool × Dfa)
unfolding dfa_match
regex_match s d = dfa_match s d

-- The automaton on demand was made of one for the expression.
abbrev pub Serves : Regex → Dfa → Type 0
Serves e d = (n : Nfa) × Recognises e n × Sane n d

pub new_dfa-Sane : (e : Regex) (n : Nfa) → IsPlain e → Recognises e n → Sane n (new_dfa n)
new_dfa-Sane e n pl R = record {
  like = Recognises-Like e n pl R;
  same_start = refl;
  entries = λ k id h. elim h [ ];
  indexed = λ id st h. absurd (dead st h);
  closed = λ id st h. absurd (dead st h);
  nexts = λ id st c id' h. absurd (dead st h);
  starts = λ id h. absurd (cc);
}
  where
    dead : (st : DfaState) → ◌≡◌ {A = Option DfaState} none (some st) → ⊥
    dead st h = cc

new_nfa-InBounds : (m : Memory) → InBounds (new_nfa m)
new_nfa-InBounds m = (omega arith, omega arith, λ i pos lt. absurd (omega arith))

-- A pattern whose postfix order is that of an expression without operator bytes as literals, with
-- room for the states, gives an automaton that serves the expression.
pub new_regex-Serves :
    (pattern : Text) (e : Regex) (m : Memory)
    → convert pattern ≡ some (ok (post e))
    → IsPlain e
    → 1 + size e < max_size
    → (d : Dfa) × (new_regex pattern m ≡ some (ok d)) × Serves e d
unfolding new_regex
new_regex-Serves pattern e m c pl h =
    let (n, returns, R) = from-Recognises e (new_nfa m) pl (new_nfa-InBounds m) h in
    (new_dfa n, rw c (rw returns refl), (n, R, new_dfa-Sane e n pl R))

-- As long as an automaton serves an expression, `match` on a text without byte 2 returns, accesses
-- no deleted state of the cache, answers true on the texts of the expression that are not empty and
-- false on all others that are not empty, and leaves an automaton that serves the expression: so one
-- text after the other is answered alike, whatever is in the cache.
pub regex_match_correct :
    (e : Regex) (s : Text) (d : Dfa)
    → IsPlain e
    → Serves e d
    → All NotSplit s
    → (b : Bool) × (d' : Dfa) × (regex_match s d ≡ some (b, d'))
      × (s ≢ [] → (b ≡ true) ↔ Denotes e s)
      × Serves e d'
unfolding regex_match
regex_match_correct e s d pl (n, R, S) ns =
    let (b, d', returns, S', iff) = dfa_match-DfaAnswers n s d R.start_in.1 ns S in
    (
      b,
      d',
      returns,
      λ ne.
          let (f, g) = iff ne in
          let (h, k) = Accepts-iff e n pl R s in (λ t. h (f t), λ t. g (k t)),
      (n, R, S'),
    )

-- A pattern of literals, dots, groups, bars and unary operators, if it leaves room for the states in
-- `m_states`, gives an automaton that serves the expression that the pattern stands for, whatever
-- `m_states` held.
pub new_regex-render :
    (p : Pattern) (m : Memory)
    → IsWritable p
    → 1 + size (expression p) < max_size
    → (d : Dfa) × (new_regex (render p) m ≡ some (ok d)) × Serves (expression p) d
new_regex-render p m w h =
    new_regex-Serves (render p) (expression p) m (convert-render p w) (expression-IsPlain p w) h

-- On a text that is not empty and has no byte 2, the automaton on demand answers like the one that
-- it is made of, whatever is in its cache.
pub dfa_match-match :
    (e : Regex) (n : Nfa) (s : Text) (d : Dfa)
    → IsPlain e
    → Recognises e n
    → Sane n d
    → All NotSplit s
    → s ≢ []
    → (b : Bool) × (d' : Dfa) × (n' : Nfa) × (dfa_match s d ≡ some (b, d'))
      × (match s n ≡ some (b, n'))
dfa_match-match e n s d pl R S ns ne =
    let (b, d', returns, S', iff) = dfa_match-DfaAnswers n s d R.start_in.1 ns S in
    let (b', n', returns', iff', R') = match_iff e s n pl R ns in
    let (f, g) = iff ne in
    let (h, k) = Accepts-iff e n pl R s in
    let same = same_answer b b' (λ t. iff'.1 (ne, h (f t))) (λ t. g (k (iff'.0 t).1)) in
    (b, d', n', returns, rw same returns')
  where
    same_answer : (x y : Bool) → (x ≡ true → y ≡ true) → (y ≡ true → x ≡ true) → x ≡ y
    same_answer true y f g = sym (f refl)
    same_answer false true f g = g refl
    same_answer false false f g = refl
