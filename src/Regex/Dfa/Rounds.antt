-- ===== src/Regex/Dfa/Rounds.antt =====
-- A round of the loop of `RegexDfa::match` of include/common/regexdfa.h, and the invariant.
use gazon.Base.{
  ℕ, ◌≡◌, ◌≢◌, ◌↔◌, inl, inr, refl, sym, ap, subst, ◌∙◌, Bool, true, Option-cases, List, [], Option,
  some,
}
use gazon.Regex.Nfa.{Nfa}
use gazon.Regex.Nfa.Run.{step, step_states}
use gazon.Regex.Nfa.Follow.{Like, Closed}
use gazon.Regex.Nfa.Match.{Follows, step-Follows}
use gazon.Regex.Nfa.Reuse.{StepKeeps, step-StepKeeps}
use gazon.Regex.Dfa.{DfaState, Dfa, get_dfa_state, build_next, link_on, read_byte}
use gazon.Regex.Dfa.Sane.{HasMatch, Exact, Leads, Sane}
use gazon.Regex.Dfa.Grow.{Gives, get_dfa_state-Gives}
use gazon.Regex.Dfa.Relink.{relinked, relinked-Sane, relinked-old, set_next-relinked}

-- From no state no state is reached.
step-nil : (c : ℕ) (n n' : Nfa) (ps : List ℕ) (b : Bool) → step [] c n ≡ some (n', ps, b) → ps ≡ []
unfolding step step_states
step-nil c n n' ps b e = cc

abbrev pub with_nfa : Nfa → Dfa → Dfa
with_nfa n d = record d { nfa = n }

module _ (n0 : Nfa) where
  pub with_nfa-Sane :
      (d : Dfa) (n : Nfa)
      → Sane n0 d
      → Like n0.states n0.top n
      → n.start_state ≡ n0.start_state
      → Sane n0 (with_nfa n d)
  with_nfa-Sane d n S L e = record {
    like = L;
    same_start = e;
    entries = S.entries;
    indexed = S.indexed;
    closed = S.closed;
    nexts = S.nexts;
    starts = S.starts;
  }

  -- A round returned a live state, which stands for what the byte leads to.
  abbrev pub Reads : Dfa → DfaState → ℕ → Option (ℕ × Dfa) → Type 0
  Reads d st c o =
      (id : ℕ) × (d' : Dfa) × (st' : DfaState) × (o ≡ some (id, d'))
      × Sane n0 d'
      × (d'.heap id ≡ some st')
      × Leads n0 st.states c st'.states
      × Exact n0 st'

  built-Reads :
      (d : Dfa) (cur : ℕ) (st : DfaState) (c : ℕ)
      → c ≢ 2
      → Sane n0 d
      → d.heap cur ≡ some st
      → Reads d st c (build_next cur c (step st.states c d.nfa) d)
  built-Reads d cur st c nc S live = go (
      step-Follows n0.states n0.top d.nfa st.states (S.closed cur st live).0 c nc S.like
        (S.closed cur st live).1)
    where
      linked :
          (n : Nfa) (ps : List ℕ) (b : Bool)
          → Closed n0.states n0.top ps b
          → Leads n0 st.states c ps
          → Gives n0 (some cur) (with_nfa n d) ps (get_dfa_state ps (some cur) (with_nfa n d))
          → Reads d st c (link_on cur c b (get_dfa_state ps (some cur) (with_nfa n d)))
      linked n ps b C leads (id, d2, s2, e2, S2, live2, k2, still) =
          let (s1, live1, k1) = still st live in
          let leads' : Leads n0 s1.states c s2.states =
            subst (λ (x : List ℕ). Leads n0 x c s2.states) (sym k1)
              (subst (Leads n0 st.states c) (sym k2) leads) in
          let exact : (b ≡ true) ↔ HasMatch n0 s2.states =
            subst (λ (x : List ℕ). (b ≡ true) ↔ HasMatch n0 x) (sym k2)
              (C.sees, λ (i, h, m). C.matches i h m) in
          let (s', live', k', ex) =
            relinked-old n0 d2 S2 cur c id s1 s2 b live1 live2 leads' exact id s2 live2 in
          (
            id,
            relinked n0 d2 S2 cur c id s1 s2 b live1 live2 leads' exact,
            s',
            rw e2 (set_next-relinked n0 d2 S2 cur c id s1 s2 b live1 live2 leads' exact),
            relinked-Sane n0 d2 S2 cur c id s1 s2 b live1 live2 leads' exact,
            live',
            subst (Leads n0 st.states c) (sym (k' ∙ k2)) leads,
            ex (inl refl),
          )

      go :
          Follows n0.states n0.top d.nfa st.states c
          → Reads d st c (build_next cur c (step st.states c d.nfa) d)
      go (n, ps, b, e, L, C, leads) =
          let keeps = subst (StepKeeps d.nfa) e (step-StepKeeps d.nfa st.states c) in
          rw e (
            linked n ps b C leads (
              get_dfa_state-Gives n0 (some cur) (with_nfa n d) ps
                (with_nfa-Sane d n S L (keeps.0 ∙ S.same_start)) (b, C)
                (
                  st,
                  live,
                  λ k. step-nil c d.nfa n ps b (ap (λ (x : List ℕ). step x c d.nfa) (sym k) ∙ e),
                )))

  pub read_byte-Reads :
      (d : Dfa) (cur : ℕ) (st : DfaState) (c : ℕ)
      → c ≢ 2
      → Sane n0 d
      → d.heap cur ≡ some st
      → Reads d st c (read_byte c cur d)
  unfolding read_byte
  read_byte-Reads d cur st c nc S live = elim (Option-cases (st.next c)) [
    | inl e ↦ rw (live, read_byte) (rw (e, read_byte) (built-Reads d cur st c nc S live))
    | inr (id, e) ↦
        let (st', live', leads, exact) = S.nexts cur st c id live e in
        (id, d, st', rw (live, read_byte) (rw (e, read_byte) refl), S, live', leads, exact)
  ]
