-- ===== src/Regex/Nfa.antt =====
-- include/common/regexnfa.h: the automaton of a regular expression in postfix order.
-- `m_states` is a function from `stateptr` to states, a pointer to a field of a state is a Slot, and
-- a step's uid does not wrap. `none`: a state is written behind `m_states`, which is undefined
-- behaviour.
pub mod Run
pub mod Graph
pub mod Language
pub mod Slots
pub mod Construct
pub mod Branches
pub mod Compile
pub mod Inside
pub mod Bounds
pub mod From
pub mod Marks
pub mod Visit
pub mod Step
pub mod Follow
pub mod Match
pub mod Correct
pub mod Reuse
pub mod Operands
pub mod Malformed
pub mod Room
use gazon.Base.{
  ℕ, zero, suc, ◌+◌, ◌≡◌, refl, Bool, true, false, ◌||◌, List, [], ◌∷◌, ◌++◌, Option, none, some,
  Text, codes, ltb, nat_eq, if◌then◌else◌,
}
use gazon.Errors.{Result, ok, throw, Exception, regex_exception}
use gazon.Regex.Postfix.{concat_char, pipe_char, zero_or_one, one_or_more, zero_or_more, any_char}

abbrev pub any_node : ℕ
any_node = 1

abbrev pub split_node : ℕ
split_node = 2

abbrev pub match_node : ℕ
match_node = 3

abbrev pub max_size : ℕ
max_size = 65535

pub record State : Type 0 where
  pub c : ℕ
  pub left : ℕ
  pub right : ℕ
  pub last_step_seen : ℕ

abbrev pub Memory : Type 0
Memory = ℕ → State

pub record Nfa : Type 0 where
  pub step_uid : ℕ
  pub states : Memory
  pub top : ℕ
  pub final_state : ℕ
  pub start_state : ℕ

pub data Slot : Type 0 where
  left_of right_of : ℕ → Slot

pub record Fragment : Type 0 where
  pub state : ℕ
  pub needs_linking : List Slot

abbrev pub write_state : ℕ → State → Memory → Memory
write_state i s m = λ (j : ℕ). if nat_eq j i then s else m j

-- `*x = target`
abbrev pub assign_slot : Slot → ℕ → Memory → Memory
assign_slot (left_of i) v m = write_state i (record (m i) { left = v }) m
assign_slot (right_of i) v m = write_state i (record (m i) { right = v }) m

abbrev pub link : List Slot → ℕ → Memory → Memory
link [] v m = m
link (x ∷ xs) v m = link xs v (assign_slot x v m)

-- `allocateState(c, left, right)`; the new state is the old top. The code has no test for the end of
-- `m_states`: the test here tells the undefined write, `none`, from the others.
unfoldable pub allocate : ℕ → ℕ → ℕ → Nfa → Option Nfa
allocate c l r n =
    if ltb n.top max_size
    then some (record n {
      states =
          write_state n.top (record { c = c; left = l; right = r; last_step_seen = 0 }) n.states;
      top = n.top + 1;
    })
    else none

abbrev pub Fragments : Type 0
Fragments = List Fragment × Nfa

abbrev pub Outcome : Type 0
Outcome = Option (Result Fragments)

-- what `popFragment` throws on an empty stack
abbrev pub invalid : Exception
invalid = regex_exception (codes "[Nfa] Invalid postfix expression")

-- a fragment on a state that was just allocated
abbrev pub pushed : Option Nfa → Fragment → List Fragment → Outcome
pushed none f fs = none
pushed (some n) f fs = some (ok (f ∷ fs, n))

unfoldable pub add_leaf : ℕ → List Fragment → Nfa → Outcome
unfolding allocate
add_leaf c fs n =
    pushed (allocate c 0 0 n) (record { state = n.top; needs_linking = left_of n.top ∷ [] }) fs

unfoldable pub add_concat : List Fragment → Nfa → Outcome
add_concat [] n = some (throw invalid)
add_concat (e2 ∷ []) n = some (throw invalid)
add_concat (e2 ∷ e1 ∷ fs) n = some (
    ok (
      record { state = e1.state; needs_linking = e2.needs_linking } ∷ fs,
      record n { states = link e1.needs_linking e2.state n.states },
    ))

unfoldable pub add_alternative : List Fragment → Nfa → Outcome
unfolding allocate
add_alternative [] n = some (throw invalid)
add_alternative (e2 ∷ []) n = some (throw invalid)
add_alternative (e2 ∷ e1 ∷ fs) n =
    pushed (allocate split_node e1.state e2.state n)
      (record { state = n.top; needs_linking = e1.needs_linking ++ e2.needs_linking }) fs

unfoldable pub add_optional : List Fragment → Nfa → Outcome
unfolding allocate
add_optional [] n = some (throw invalid)
add_optional (e ∷ fs) n =
    pushed (allocate split_node e.state 0 n)
      (record { state = n.top; needs_linking = e.needs_linking ++ (right_of n.top ∷ []) }) fs

-- The links are written after the allocation, to other states than the new one, or to its own slots.
abbrev pub loop_back : List Slot → ℕ → Option Nfa → Option Nfa
loop_back xs v none = none
loop_back xs v (some n) = some (record n { states = link xs v n.states })

unfoldable pub add_star : List Fragment → Nfa → Outcome
unfolding allocate
add_star [] n = some (throw invalid)
add_star (e ∷ fs) n =
    pushed (loop_back e.needs_linking n.top (allocate split_node e.state 0 n))
      (record { state = n.top; needs_linking = right_of n.top ∷ [] }) fs

unfoldable pub add_plus : List Fragment → Nfa → Outcome
unfolding allocate
add_plus [] n = some (throw invalid)
add_plus (e ∷ fs) n =
    pushed (loop_back e.needs_linking n.top (allocate split_node e.state 0 n))
      (record { state = e.state; needs_linking = right_of n.top ∷ [] }) fs

-- the switch of `from`
unfoldable pub add_byte : ℕ → List Fragment → Nfa → Outcome
unfolding add_leaf add_concat add_alternative add_optional add_star add_plus
add_byte c fs n =
    if nat_eq c any_char
    then add_leaf any_node fs n
    else if nat_eq c concat_char
    then add_concat fs n
    else if nat_eq c pipe_char
    then add_alternative fs n
    else if nat_eq c zero_or_one
    then add_optional fs n
    else if nat_eq c zero_or_more
    then add_star fs n
    else if nat_eq c one_or_more
    then add_plus fs n
    else add_leaf c fs n

-- what follows a byte, unless it threw or was undefined
abbrev pub then_build : Outcome → (List Fragment → Nfa → Outcome) → Outcome
then_build none k = none
then_build (some (throw e)) k = some (throw e)
then_build (some (ok (fs, n))) k = k fs n

-- the loop of `from`
unfoldable pub build : Text → List Fragment → Nfa → Outcome
unfolding add_byte
build [] fs n = some (ok (fs, n))
build (c ∷ cs) fs n = then_build (add_byte c fs n) (build cs)

-- `from` behind its loop: the final state is allocated at the old top, and what the last fragment
-- leaves open leads to it
unfoldable pub close_nfa : ℕ → List Fragment → Nfa → Option (Result Nfa)
close_nfa f [] n = some (throw invalid)
close_nfa f (e ∷ []) n = some (
    ok (record n {
      states = link e.needs_linking f n.states;
      final_state = f;
      start_state = e.state;
    }))
close_nfa f (e ∷ e' ∷ fs) n = some (throw invalid)

abbrev pub with_final : List Fragment → ℕ → Option Nfa → Option (Result Nfa)
with_final fs f none = none
with_final fs f (some n) = close_nfa f fs n

abbrev pub close_on : Outcome → Option (Result Nfa)
close_on none = none
close_on (some (throw e)) = some (throw e)
close_on (some (ok (fs, n))) = with_final fs n.top (allocate match_node 0 0 n)

unfoldable pub from : Text → Nfa → Option (Result Nfa)
unfolding build close_nfa allocate
from postfix n = close_on (build postfix [] n)

-- An automaton as it is constructed: state 0 is reserved, and `m_states` is not initialised.
abbrev pub new_nfa : Memory → Nfa
new_nfa m = record { step_uid = 0; states = m; top = 1; final_state = 1; start_state = 1 }
