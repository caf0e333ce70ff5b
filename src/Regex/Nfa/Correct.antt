-- ===== src/Regex/Nfa/Correct.antt =====
-- include/common/regexnfa.h on the postfix order of an expression: what `match` answers, against
-- the language of the expression.
use gazon.Base.{
  ℕ, zero, suc, ◌+◌, ◌<◌, ◌≡◌, ◌≢◌, ◌↔◌, inl, inr, refl, ap, sym, ◌∙◌, Bool, true, subst, [], ◌∷◌,
  ◌++◌, append-nil, All, some, Text, arith,
}
use gazon.Errors.{ok}
use gazon.Regex.Nfa.{Nfa, max_size, from}
use gazon.Regex.Nfa.Graph.{Regex, Denotes, IsPlain, size, post, AcceptsIn, Accepts, Automaton}
use gazon.Regex.Nfa.Language.{ReadsTo, Automaton-Sound, Automaton-Complete}
use gazon.Regex.Nfa.Inside.{InBounds}
use gazon.Regex.Nfa.From.{Recognises, from-Recognises}
use gazon.Regex.Nfa.Run.{match}
use gazon.Regex.Nfa.Marks.{SameShape}
use gazon.Regex.Nfa.Follow.{Like}
use gazon.Regex.Nfa.Match.{NotSplit, match-Answers, match-Answers-empty}
use gazon.Regex.Nfa.Reuse.{SameEnds, Automaton-SameShape, MatchKeeps, match-MatchKeeps}

module _ (e : Regex) (n : Nfa) (pl : IsPlain e) (R : Recognises e n) where
  -- The final state accepts the empty text only.
  final_only : (k : ℕ) (v : Text) → AcceptsIn n.states k n.final_state v → v ≡ []
  final_only zero v a = absurd a
  final_only (suc k) v (pos, inl (_, e)) = e
  final_only (suc k) v (pos, inr (inl (c, _))) = let m = R.final_matches in absurd (omega arith)
  final_only (suc zero) v (pos, inr (inr (x, r, _, _, a))) = absurd a
  final_only (suc (suc k)) v (pos, inr (inr (x, r, _, _, (pos', _)))) =
      let z = R.final_is_last in absurd (omega arith)

  sound : (s : Text) (k : ℕ) → ReadsTo n.states (Denotes e) k n.final_state s → Denotes e s
  sound s k (u, v, i, es, hk, d, a) =
      subst (Denotes e) (sym (es ∙ ap (λ (x : Text). u ++ x) (final_only i v a) ∙ append-nil u)) d

  pub Accepts-iff : (s : Text) → Accepts n.states n.start_state s ↔ Denotes e s
  Accepts-iff s = (
    λ (k, a).
        sound s k (Automaton-Sound n.states e n.start_state n.final_state pl R.automaton k s a),
    λ d. subst (Accepts n.states n.start_state) (append-nil s) (
        Automaton-Complete n.states e n.start_state n.final_state pl R.automaton s [] d
          (1, (R.final_in.0, inl (R.final_matches, refl)))),
  )

  pub Recognises-Like : Like n.states n.top n
  Recognises-Like =
      let (pos, size, inside) = R.in_bounds in
      record {
        tops = refl;
        shape = λ i. (refl, refl, refl);
        unmarked = λ i pos lt. let k = inside i pos lt in omega arith;
        pointers = inside;
      }

-- After a match the automaton is still that of the expression.
Like-Recognises :
    (e : Regex) (n n' : Nfa)
    → Recognises e n
    → Like n.states n.top n'
    → SameEnds n n'
    → Recognises e n'
Like-Recognises e n n' R L (es, ef) =
    let (_, size, inside) = R.in_bounds in
    let start = R.start_in in
    let final = R.final_in in
    let tops = L.tops in
    record {
      automaton =
          subst (λ (p : ℕ). Automaton n'.states p e n'.final_state) (sym es)
            (subst (λ (t : ℕ). Automaton n'.states n.start_state e t) (sym ef)
              (Automaton-SameShape n.states n'.states L.shape e n.start_state n.final_state
                R.automaton));
      final_matches =
          ap (λ (i : ℕ). (n'.states i).c) ef ∙ (L.shape n.final_state).0 ∙ R.final_matches;
      final_is_last = ap (λ (i : ℕ). (n'.states i).left) ef ∙ left_same L.shape ∙ R.final_is_last;
      in_bounds = (
        omega arith,
        omega arith,
        λ i pos lt.
            let k = L.unmarked i pos (omega arith) in
            let p = L.pointers i pos (omega arith) in let s = L.shape i in omega arith,
      );
      start_in = omega arith;
      final_in = omega arith;
    }
  where
    left_same :
        SameShape n.states n'.states
        → (n'.states n.final_state).left ≡ (n.states n.final_state).left
    left_same h = let (_, l, _) = h n.final_state in l

-- An answer on a text, and the automaton behind it.
abbrev pub Decides : Regex → Text → Nfa → Type 0
Decides e s n =
    (b : Bool) × (n' : Nfa) × (match s n ≡ some (b, n'))
    × ((b ≡ true) ↔ ((s ≢ []) × Denotes e s))
    × Recognises e n'

-- On the automaton of an expression `match` returns, and it answers true on the texts of the
-- expression, but for the empty one, as long as the text has no byte 2; afterwards the automaton is
-- still that of the expression.
pub match_iff :
    (e : Regex) (s : Text) (n : Nfa) → IsPlain e → Recognises e n → All NotSplit s → Decides e s n
match_iff e [] n pl R ns =
    let (b, n', returns, iff, L) =
      match-Answers-empty n.states n.top n (Recognises-Like e n pl R) R.start_in.1 in
    (
      b,
      n',
      returns,
      (λ k. absurd (iff.0 k), λ (ne, _). absurd (ne refl)),
      Like-Recognises e n n' R L (kept [] n b n' returns),
    )
  where
    kept : (s : Text) (n : Nfa) (b : Bool) (n' : Nfa) → match s n ≡ some (b, n') → SameEnds n n'
    kept s n b n' returns = subst (MatchKeeps n) returns (match-MatchKeeps s n)
match_iff e (x ∷ s) n pl R ns =
    let (b, n', returns, iff, L) =
      match-Answers n.states n.top x s n ns (Recognises-Like e n pl R) R.start_in.1 in
    (
      b,
      n',
      returns,
      (
        λ k. (λ no. absurd (cc), (Accepts-iff e n pl R (x ∷ s)).0 (iff.0 k)),
        λ (_, d). iff.1 ((Accepts-iff e n pl R (x ∷ s)).1 d),
      ),
      Like-Recognises e n n' R L (subst (MatchKeeps n) returns (match-MatchKeeps (x ∷ s) n)),
    )

-- For an expression without operator bytes as literals, with room for its states and one more in
-- `m_states`: `from` on its postfix order returns, and `match` then returns on every text without
-- byte 2, with the answer true if the text is one of the expression and not empty, and false
-- otherwise.
pub from_match_correct :
    (e : Regex) (s : Text) (n : Nfa)
    → IsPlain e
    → InBounds n
    → n.top + size e < max_size
    → All NotSplit s
    → (n' : Nfa) × (from (post e) n ≡ some (ok n')) × Decides e s n'
from_match_correct e s n pl b h ns =
    let (n', returns, R) = from-Recognises e n pl b h in (n', returns, match_iff e s n' pl R ns)
