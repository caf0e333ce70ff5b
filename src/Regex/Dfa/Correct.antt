-- ===== src/Regex/Dfa/Correct.antt =====
-- `RegexDfa::match` of include/common/regexdfa.h, against the automaton below.
use gazon.Base.{
  ℕ, ◌<◌, ◌≡◌, ◌≢◌, ◌↔◌, ◌⊎◌, inl, inr, refl, sym, ap, subst, ◌∙◌, Bool, true, Option-cases, List,
  [], ◌∷◌, All, Option, none, some, Text, arith,
}
use gazon.Regex.Nfa.{Nfa}
use gazon.Regex.Nfa.Graph.{Accepts}
use gazon.Regex.Nfa.Run.{get_start_states}
use gazon.Regex.Nfa.Follow.{SomeAccepts}
use gazon.Regex.Nfa.Match.{NotSplit, at_end, Started, get_start_states-Started}
use gazon.Regex.Nfa.Reuse.{StepKeeps, start-StepKeeps}
use gazon.Regex.Dfa.{
  DfaState, Dfa, get_dfa_state, read_text, get_dfa_start, start_on, started, answer, dfa_match,
}
use gazon.Regex.Dfa.Sane.{HasMatch, Exact, Good, Starts, Sane}
use gazon.Regex.Dfa.Grow.{Gives, get_dfa_state-Gives}
use gazon.Regex.Dfa.Rounds.{with_nfa, with_nfa-Sane, read_byte-Reads}

module _ (n0 : Nfa) where
  -- The rounds returned a live state, which stands for what the text leads to.
  abbrev ReadsText : Text → DfaState → Option (ℕ × Dfa) → Type 0
  ReadsText s st o =
      (id : ℕ) × (d' : Dfa) × (st' : DfaState) × (o ≡ some (id, d'))
      × Sane n0 d'
      × (d'.heap id ≡ some st')
      × (SomeAccepts n0.states n0.top st.states s ↔ SomeAccepts n0.states n0.top st'.states [])
      × (((s ≢ []) ⊎ Exact n0 st) → Exact n0 st')

  read_text-ReadsText :
      (s : Text) (d : Dfa) (cur : ℕ) (st : DfaState)
      → All NotSplit s
      → Sane n0 d
      → d.heap cur ≡ some st
      → ReadsText s st (read_text s cur d)
  unfolding read_text
  read_text-ReadsText [] d cur st ns S live = (
    cur,
    d,
    st,
    refl,
    S,
    live,
    (λ h. h, λ h. h),
    λ h. elim h [ inl ne ↦ absurd (ne refl) | inr x ↦ x ],
  )
  read_text-ReadsText (c ∷ s) d cur st (nc, ns) S live =
      let (id, d1, s1, e1, S1, live1, leads, exact) = read_byte-Reads n0 d cur st c nc S live in
      let (id2, d2, s2, e2, S2, live2, iff, ex) = read_text-ReadsText s d1 id s1 ns S1 live1 in
      (
        id2,
        d2,
        s2,
        rw (e1, read_text) e2,
        S2,
        live2,
        (λ h. iff.0 ((leads s).0 h), λ h. (leads s).1 (iff.1 h)),
        λ _. ex (inr exact),
      )

  -- A closed list accepts the empty text if it has a match state.
  nil_iff : (ps : List ℕ) → Good n0 ps → SomeAccepts n0.states n0.top ps [] ↔ HasMatch n0 ps
  nil_iff ps (b, C) = (
    λ (i, h, (n, a)). C.sees (at_end n0.states n0.top ps b C n i h a),
    λ (i, h, m). (i, h, (1, ((C.inside i h).0, inl (m, refl)))),
  )

  -- The start state is live, and stands for the start of the automaton below.
  abbrev Begins : Option (ℕ × Dfa) → Type 0
  Begins o =
      (id : ℕ) × (d' : Dfa) × (st : DfaState) × (o ≡ some (id, d'))
      × Sane n0 d'
      × (d'.heap id ≡ some st)
      × Starts n0 st.states

  started-Begins :
      (d : Dfa) (ps : List ℕ) (o : Option (ℕ × Dfa))
      → Starts n0 ps
      → Gives n0 none d ps o
      → Begins (started o)
  started-Begins d ps o h (id, d1, st, e, S, live, k, _) =
      let starts = subst (Starts n0) (sym k) h in
      (
        id,
        record d1 { dfa_start_state = some id },
        st,
        rw e refl,
        record {
          like = S.like;
          same_start = S.same_start;
          entries = S.entries;
          indexed = S.indexed;
          closed = S.closed;
          nexts = S.nexts;
          starts = λ j e. (st, ap d1.heap (same id j e) ∙ live, starts);
        },
        live,
        starts,
      )
    where
      same : (i j : ℕ) → ◌≡◌ {A = Option ℕ} (some i) (some j) → j ≡ i
      same i j e = cc

  get_dfa_start-Begins : (d : Dfa) → Sane n0 d → n0.start_state < n0.top → Begins (get_dfa_start d)
  unfolding get_dfa_start
  get_dfa_start-Begins d S lt = elim (Option-cases d.dfa_start_state) [
    | inr (id, e) ↦
        let (st, live, starts) = S.starts id e in (id, d, st, ap start_of e, S, live, starts)
    | inl e ↦ subst Begins (sym (ap start_of e)) (
        go (
          get_start_states-Started n0.states n0.top d.nfa S.like
            (let k = S.same_start in omega arith)))
  ]
    where
      start_of : Option ℕ → Option (ℕ × Dfa)
      start_of o = elim o [ some id ↦ some (id, d) | none ↦ start_on (get_start_states d.nfa) d ]

      go : Started n0.states n0.top d.nfa → Begins (start_on (get_start_states d.nfa) d)
      go (n, ps, b, e, L, C, iff) =
          let keeps = subst (StepKeeps d.nfa) e (start-StepKeeps d.nfa) in
          rw e (
            started-Begins (with_nfa n d) ps (get_dfa_state ps none (with_nfa n d))
              (λ s.
                subst (λ (i : ℕ). Accepts n0.states i s ↔ SomeAccepts n0.states n0.top ps s)
                  S.same_start (iff s))
              (get_dfa_state-Gives n0 none (with_nfa n d) ps
                (with_nfa-Sane n0 d n S L (keeps.0 ∙ S.same_start)) (b, C) tt))

  -- The code returned, and for a text that is not empty the answer is that of the automaton below.
  abbrev pub DfaAnswers : Text → Option (Bool × Dfa) → Type 0
  DfaAnswers s o =
      (b : Bool) × (d' : Dfa) × (o ≡ some (b, d'))
      × Sane n0 d'
      × (s ≢ [] → (b ≡ true) ↔ Accepts n0.states n0.start_state s)

  pub dfa_match-DfaAnswers :
      (s : Text) (d : Dfa)
      → n0.start_state < n0.top
      → All NotSplit s
      → Sane n0 d
      → DfaAnswers s (dfa_match s d)
  unfolding dfa_match
  dfa_match-DfaAnswers s d lt ns S =
      let (id, d1, s1, e1, S1, live1, starts) = get_dfa_start-Begins d S lt in
      let (id2, d2, s2, e2, S2, live2, iff, ex) = read_text-ReadsText s d1 id s1 ns S1 live1 in
      (
        s2.is_match,
        d2,
        rw e1 (rw e2 (rw (live2, answer) refl)),
        S2,
        λ ne.
            let exact = ex (inl ne) in
            let end = nil_iff s2.states (S2.closed id2 s2 live2) in
            (
              λ h. (starts s).1 (iff.1 (end.1 (exact.0 h))),
              λ h. exact.1 (end.0 (iff.0 ((starts s).0 h))),
            ),
      )
