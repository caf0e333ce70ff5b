-- ===== src/Regex/Nfa/From.antt =====
-- `RegexNfa::from` of include/common/regexnfa.h on the postfix order of an expression.
use gazon.Base.{◌+◌, ◌<◌, ◌≡◌, ap, subst, sym, ◌∙◌, [], ◌∷◌, append-nil, some, Text, arith}
use gazon.Errors.{ok}
use gazon.Regex.Nfa.{
  Memory, State, Nfa, Fragment, left_of, link, match_node, max_size, build, from, close_nfa,
}
use gazon.Regex.Nfa.Graph.{Regex, IsPlain, size, post, Automaton}
use gazon.Regex.Nfa.Slots.{
  place, c-link, value-link_in, value-link_out, value-eq, write_state_ne, write_state_self,
}
use gazon.Regex.Nfa.Construct.{Built, state_of, allocated, allocate-allocated}
use gazon.Regex.Nfa.Compile.{compile, Compiled}
use gazon.Regex.Nfa.Inside.{InBounds}
use gazon.Regex.Nfa.Bounds.{Connected, from-InBounds}

-- the automaton of the expression, with a match state at its end
pub record Recognises (e : Regex) (n : Nfa) : Type 0 where
  pub automaton : Automaton n.states n.start_state e n.final_state
  pub final_matches : (n.states n.final_state).c ≡ match_node
  pub final_is_last : (n.states n.final_state).left ≡ 0
  pub in_bounds : InBounds n
  pub start_in : (0 < n.start_state) × (n.start_state < n.top)
  pub final_in : (0 < n.final_state) × (n.final_state < n.top)

module _ (e : Regex) (n n1 : Nfa) (f : Fragment) (B : Built e n.top n.states f n1) where
  abbrev ended : Nfa
  ended = record n1 {
    states = link f.needs_linking n1.top (allocated match_node 0 0 n1).states;
    top = n1.top + 1;
    final_state = n1.top;
    start_state = f.state;
  }

  -- the memory before the links are written
  abbrev closed : Memory
  closed = (allocated match_node 0 0 n1).states

  closed-top : closed n1.top ≡ state_of match_node 0 0
  closed-top = write_state_self n1.top (state_of match_node 0 0) n1.states

  ended-Automaton : Automaton ended.states f.state e n1.top
  ended-Automaton =
      B.automaton ended.states n1.top
        (λ y l h.
          let k = write_state_ne n1.top (place y) (state_of match_node 0 0) n1.states h in
          (
            c-link f.needs_linking n1.top closed (place y) ∙ ap (λ (s : State). s.c) k,
            λ ny. value-link_out f.needs_linking n1.top closed y ny ∙ value-eq closed n1.states y k,
          ))
        (λ y h. value-link_in f.needs_linking n1.top closed y h)

  ended-matches : (ended.states n1.top).c ≡ match_node
  ended-matches = c-link f.needs_linking n1.top closed n1.top ∙ ap (λ (s : State). s.c) closed-top

  ended-is_last : (ended.states n1.top).left ≡ 0
  ended-is_last =
      value-link_out f.needs_linking n1.top closed (left_of n1.top)
        (λ h. let k = B.within (left_of n1.top) h in absurd (omega arith))
      ∙ ap (λ (s : State). s.left) closed-top

  from-ended :
      build (post e) [] n ≡ some (ok (f ∷ [], n1))
      → n1.top < max_size
      → from (post e) n ≡ some (ok ended)
  unfolding from close_nfa
  from-ended built h = rw built (rw (allocate-allocated match_node 0 0 n1 h))

-- With room for its states and for the final one, `from` returns the automaton of the expression.
pub from-Recognises :
    (e : Regex) (n : Nfa)
    → IsPlain e
    → InBounds n
    → n.top + size e < max_size
    → (n' : Nfa) × (from (post e) n ≡ some (ok n')) × Recognises e n'
unfolding build
from-Recognises e n pl b h = go (compile e n pl b.0 (omega arith))
  where
    connected :
        (f : Fragment) (n1 : Nfa) (B : Built e n.top n.states f n1)
        → Connected n.step_uid (some (ok (ended e n n1 f B)))
        → Recognises e (ended e n n1 f B)
    connected f n1 B (inside, start, start', final, final', u) = record {
      automaton = ended-Automaton e n n1 f B;
      final_matches = ended-matches e n n1 f B;
      final_is_last = ended-is_last e n n1 f B;
      in_bounds = inside;
      start_in = (start, start');
      final_in = (final, final');
    }

    go : Compiled e n → (n' : Nfa) × (from (post e) n ≡ some (ok n')) × Recognises e n'
    go (f, n1, B, pushes) =
        let top = B.top in
        let returns =
          from-ended e n n1 f B
            (ap (λ (x : Text). build x [] n) (sym (append-nil (post e))) ∙ pushes [] [])
            (omega arith) in
        (
          ended e n n1 f B,
          returns,
          connected f n1 B (subst (Connected n.step_uid) returns (from-InBounds (post e) n b)),
        )
