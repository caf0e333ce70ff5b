-- ===== src/Regex/Nfa/Reuse.antt =====
-- What `match` of include/common/regexnfa.h leaves of the automaton: it writes marks.
use gazon.Base.{ℕ, ◌+◌, ◌≡◌, refl, ◌∙◌, Bool, false, List, [], ◌∷◌, Option, some, none, Text}
use gazon.Regex.Nfa.{Memory, Nfa}
use gazon.Regex.Nfa.Graph.{Regex, chr, any, cat, alt, opt, star, plus, Automaton, Splits}
use gazon.Regex.Nfa.Run.{
  step, stepped, next_uid, get_start_states, add_state, step_states, match_loop, match, Seen,
  Stepped,
}
use gazon.Regex.Nfa.Marks.{SameShape}

module _ (g m : Memory) (h : SameShape g m) where
  Splits-SameShape : (p l r : ℕ) → Splits g p l r → Splits m p l r
  Splits-SameShape p l r (pos, c, el, er) =
      let (c', l', r') = h p in (pos, c' ∙ c, l' ∙ el, r' ∙ er)

  pub Automaton-SameShape : (e : Regex) (p t : ℕ) → Automaton g p e t → Automaton m p e t
  Automaton-SameShape (chr c) p t (pos, k, l) = let (c', l', r') = h p in (pos, c' ∙ k, l' ∙ l)
  Automaton-SameShape any p t (pos, k, l) = let (c', l', r') = h p in (pos, c' ∙ k, l' ∙ l)
  Automaton-SameShape (cat a b) p t (q, x, y) =
      (q, Automaton-SameShape a p q x, Automaton-SameShape b q t y)
  Automaton-SameShape (alt a b) p t (q, q', sp, x, y) =
      (q, q', Splits-SameShape p q q' sp, Automaton-SameShape a q t x, Automaton-SameShape b q' t y)
  Automaton-SameShape (opt a) p t (q, sp, x) =
      (q, Splits-SameShape p q t sp, Automaton-SameShape a q t x)
  Automaton-SameShape (star a) p t (q, sp, x) =
      (q, Splits-SameShape p q t sp, Automaton-SameShape a q p x)
  Automaton-SameShape (plus a) p t (q, sp, x) =
      (q, Splits-SameShape q p t sp, Automaton-SameShape a p q x)

-- the states at which the automaton starts and ends
abbrev pub SameEnds : Nfa → Nfa → Type 0
SameEnds n n' = (n'.start_state ≡ n.start_state) × (n'.final_state ≡ n.final_state)

abbrev pub StepKeeps : Nfa → Stepped → Type 0
StepKeeps n none = Unit
StepKeeps n (some (n', ps, b)) = SameEnds n n'

stepped-StepKeeps : (n : Nfa) (o : Option Seen) → StepKeeps n (stepped (next_uid n) o)
stepped-StepKeeps n none = tt
stepped-StepKeeps n (some (m, out, b)) = (refl, refl)

pub step-StepKeeps : (n : Nfa) (ps : List ℕ) (x : ℕ) → StepKeeps n (step ps x n)
unfolding step
step-StepKeeps n ps x =
    stepped-StepKeeps n (step_states (n.top + 1) (n.step_uid + 1) x ps n.states [])

pub start-StepKeeps : (n : Nfa) → StepKeeps n (get_start_states n)
unfolding get_start_states
start-StepKeeps n =
    stepped-StepKeeps n (add_state (n.top + 1) (n.step_uid + 1) n.start_state n.states [])

abbrev pub MatchKeeps : Nfa → Option (Bool × Nfa) → Type 0
MatchKeeps n none = Unit
MatchKeeps n (some (b, n')) = SameEnds n n'

SameEnds-MatchKeeps :
    (n n' : Nfa) (o : Option (Bool × Nfa)) → SameEnds n n' → MatchKeeps n' o → MatchKeeps n o
SameEnds-MatchKeeps n n' none h k = tt
SameEnds-MatchKeeps n n' (some (b, n'')) (s, f) (s', f') = (s' ∙ s, f' ∙ f)

match_loop-MatchKeeps :
    (s : Text) (n : Nfa) (ps : List ℕ) (b : Bool) → MatchKeeps n (match_loop s n ps b)
unfolding match_loop
match_loop-MatchKeeps [] n ps b = (refl, refl)
match_loop-MatchKeeps (x ∷ s) n ps b =
    elim (step ps x n)
        as (λ o.
          StepKeeps n o
          → MatchKeeps n (elim o [ none ↦ none | some (n', ps', b') ↦ match_loop s n' ps' b' ])) [
            | none ↦ λ k. tt
            | some (n', ps', b') ↦ λ k.
                SameEnds-MatchKeeps n n' (match_loop s n' ps' b') k
                  (match_loop-MatchKeeps s n' ps' b')
          ]
      (step-StepKeeps n ps x)

pub match-MatchKeeps : (s : Text) (n : Nfa) → MatchKeeps n (match s n)
unfolding match
match-MatchKeeps s n =
    elim (get_start_states n)
        as (λ o.
          StepKeeps n o
          → MatchKeeps n (elim o [ none ↦ none | some (n', ps, b) ↦ match_loop s n' ps false ])) [
            | none ↦ λ k. tt
            | some (n', ps, b) ↦ λ k.
                SameEnds-MatchKeeps n n' (match_loop s n' ps false) k
                  (match_loop-MatchKeeps s n' ps false)
          ]
      (start-StepKeeps n)
