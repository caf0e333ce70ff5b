-- ===== src/Regex/Nfa/Run.antt =====
-- The matching of include/common/regexnfa.h. `none`: the fuel of `addStateToStateList` ran out.
use gazon.Base.{
  ℕ, zero, suc, ◌+◌, Bool, false, ◌||◌, List, [], ◌∷◌, ◌++◌, Option, none, some, Text, nat_eq,
  if◌then◌else◌,
}
use gazon.Regex.Nfa.{Memory, Nfa, write_state, any_node, split_node, match_node}

-- `addStateToStateList`, with the states that it works on, and what it returns
abbrev pub Seen : Type 0
Seen = Memory × List ℕ × Bool

abbrev pub mark : ℕ → ℕ → Memory → Memory
mark uid p m = write_state p (record (m p) { last_step_seen = uid }) m

-- the states that are left to visit, behind those that are visited
abbrev pub or_seen : Bool → Option Seen → Option Seen
or_seen b none = none
or_seen b (some (m, out, b')) = some (m, out, b || b')

abbrev pub then_seen : Option Seen → (Memory → List ℕ → Option Seen) → Option Seen
then_seen none k = none
then_seen (some (m, out, b)) k = or_seen b (k m out)

abbrev pub push_seen : ℕ → Bool → Option Seen → Option Seen
push_seen p b none = none
push_seen p b (some (m, out, b')) = some (m, out ++ (p ∷ []), b' || b)

unfoldable pub add_state : ℕ → ℕ → ℕ → Memory → List ℕ → Option Seen
add_state zero uid p m out = none
add_state (suc fuel) uid p m out =
    let visit = add_state fuel uid in
    let is_match = nat_eq (m p).c match_node in
    if nat_eq p 0
    then some (m, out, false)
    else if nat_eq (m p).last_step_seen uid
    then some (m, out, is_match)
    else if nat_eq (m p).c split_node
    then push_seen p is_match (then_seen (visit (m p).left (mark uid p m) out) (visit (m p).right))
    else some (mark uid p m, out ++ (p ∷ []), is_match)

-- the loop of `step`
unfoldable pub step_states : ℕ → ℕ → ℕ → List ℕ → Memory → List ℕ → Option Seen
unfolding add_state
step_states fuel uid x [] m out = some (m, out, false)
step_states fuel uid x (p ∷ ps) m out =
    let rest = step_states fuel uid x ps in
    if nat_eq (m p).c any_node || nat_eq (m p).c x
    then then_seen (add_state fuel uid (m p).left m out) rest
    else rest m out

-- the automaton behind a step, the states that it leads to, and `isMatch`
abbrev pub Stepped : Type 0
Stepped = Option (Nfa × List ℕ × Bool)

abbrev pub stepped : Nfa → Option Seen → Stepped
stepped n none = none
stepped n (some (m, out, b)) = some (record n { states = m }, out, b)

abbrev pub next_uid : Nfa → Nfa
next_uid n = record n { step_uid = n.step_uid + 1 }

-- At most all states are visited, and one more call finds its state seen.
unfoldable pub step : List ℕ → ℕ → Nfa → Stepped
unfolding step_states
step ps x n = stepped (next_uid n) (step_states (n.top + 1) (n.step_uid + 1) x ps n.states [])

unfoldable pub get_start_states : Nfa → Stepped
unfolding add_state
get_start_states n =
    stepped (next_uid n) (add_state (n.top + 1) (n.step_uid + 1) n.start_state n.states [])

-- the loop of `match`, on what the round before led to; the automaton is kept with its marks
unfoldable pub match_loop : Text → Nfa → List ℕ → Bool → Option (Bool × Nfa)
unfolding step
match_loop [] n ps b = some (b, n)
match_loop (x ∷ s) n ps b = elim (step ps x n) [
  | none ↦ none
  | some (n', ps', b') ↦ match_loop s n' ps' b'
]

unfoldable pub match : Text → Nfa → Option (Bool × Nfa)
unfolding match_loop get_start_states
match s n = elim (get_start_states n) [ none ↦ none | some (n', ps, b) ↦ match_loop s n' ps false ]
