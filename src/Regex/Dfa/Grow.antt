-- ===== src/Regex/Dfa/Grow.antt =====
-- `getDfaState` of include/common/regexdfa.h, the invariant, and the state that is in use.
use gazon.Base.{
  ℕ, ◌+◌, ◌<◌, ◌≡◌, ◌≢◌, ◌⊎◌, inl, inr, refl, sym, ap, subst, ◌∙◌, false, Bool-cases, Option-cases,
  List, [], ◌∷◌, Option, none, some, length, leb, nat_eq, nat_eq_iff, arith, eq_iff, eq_self,
  text_Eq,
}
use gazon.Base.Maps.{find, insert, find-insert}
use gazon.Regex.Nfa.{Nfa}
use gazon.Regex.Dfa.{DfaState, Dfa, put, flush_cache, no_next, add_dfa_state, get_dfa_state}
use gazon.Regex.Dfa.Flush.{Mem-insert, Mem-find}
use gazon.Regex.Dfa.Sane.{
  Good, Sane, some_same, emptied, emptied-Sane, flush_none, reduced, kept_state, reduced-Sane,
  reduced-cur, flush_some,
}

module _ (n0 : Nfa) where
  module _ (d : Dfa) (S : Sane n0 d) (ps : List ℕ) (new : find ps d.dfa_cache ≡ none)
      (good : Good n0 ps) where
    abbrev pub new_state : DfaState
    new_state = record { states = ps; next = no_next; is_match = false }

    abbrev pub grown : Dfa
    grown = record d {
      heap = put d.fresh new_state d.heap;
      fresh = d.fresh + 1;
      dfa_cache = insert ps d.fresh d.dfa_cache;
    }

    pub grown-old : (id : ℕ) (st : DfaState) → d.heap id ≡ some st → grown.heap id ≡ some st
    grown-old id st e = let k = S.indexed id st e in ground arith

    pub grown-new : grown.heap d.fresh ≡ some new_state
    grown-new = ground arith

    -- What lives in the new heap is the new state or lived before.
    grown-cases :
        (id : ℕ) (st : DfaState)
        → grown.heap id ≡ some st
        → ((id ≡ d.fresh) × (st ≡ new_state)) ⊎ (d.heap id ≡ some st)
    grown-cases id st e = elim (Bool-cases (nat_eq id d.fresh)) [
      | inl t ↦ inl ((nat_eq_iff id d.fresh).0 t, ground arith)
      | inr f ↦ inr (ground arith)
    ]

    find-grown :
        (ks : List ℕ) (id : ℕ) → find ks d.dfa_cache ≡ some id → find ks grown.dfa_cache ≡ some id
    find-grown ks id e =
        find-insert ps ks d.fresh d.dfa_cache
        ∙ ground (arith, eq_iff ps ks, ap (λ (x : List ℕ). find x d.dfa_cache))

    pub grown-Sane : Sane n0 grown
    grown-Sane = record {
      like = S.like;
      same_start = S.same_start;
      entries = λ k id h. elim (Mem-insert ps k d.fresh id d.dfa_cache h) [
        | inl e ↦
            let i : id ≡ d.fresh = ap (λ (q : List ℕ × ℕ). q.1) e in
            (new_state, ap grown.heap i ∙ grown-new, sym (ap (λ (q : List ℕ × ℕ). q.0) e))
        | inr m ↦ let (st, live, k') = S.entries k id m in (st, grown-old id st live, k')
      ];
      indexed = λ id st e. elim (grown-cases id st e) [
        | inl (i, s) ↦
            subst
              (λ (p : ℕ × DfaState).
                (find p.1.states grown.dfa_cache ≡ some p.0) × (p.0 < grown.fresh))
              (λ j. (sym i j, sym s j)) (found, omega arith)
        | inr live ↦ let (f, lt) = S.indexed id st live in (find-grown st.states id f, omega arith)
      ];
      closed = λ id st e. elim (grown-cases id st e) [
        | inl (i, s) ↦ subst (λ (x : DfaState). Good n0 x.states) (sym s) good
        | inr live ↦ S.closed id st live
      ];
      nexts = λ id st c id' e k. elim (grown-cases id st e) [
        | inl (i, s) ↦ absurd (no_successor c id' (ap (λ (x : DfaState). x.next c) (sym s) ∙ k))
        | inr live ↦
            let (st', live', leads, exact) = S.nexts id st c id' live k in
            (st', grown-old id' st' live', leads, exact)
      ];
      starts = λ id e. let (st, live, k) = S.starts id e in (st, grown-old id st live, k);
    }
      where
        found : find ps grown.dfa_cache ≡ some d.fresh
        found = find-insert ps ps d.fresh d.dfa_cache ∙ rw (eq_self ps) refl

        no_successor : (c id' : ℕ) → no_next c ≡ some id' → ⊥
        no_successor c id' h = cc

  -- The state in use lives, and is no dead end from which another list is asked for.
  abbrev pub KeepsUse : Option ℕ → Dfa → List ℕ → Type 0
  KeepsUse none d ps = Unit
  KeepsUse (some cur) d ps = (st : DfaState) × (d.heap cur ≡ some st) × (st.states ≡ [] → ps ≡ [])

  -- The state in use stands for the list that it stood for.
  abbrev pub StillUsed : Option ℕ → Dfa → Dfa → Type 0
  StillUsed none d d' = Unit
  StillUsed (some cur) d d' =
      (st : DfaState)
      → d.heap cur ≡ some st
      → (st' : DfaState) × (d'.heap cur ≡ some st') × (st'.states ≡ st.states)

  abbrev pub Gives : Option ℕ → Dfa → List ℕ → Option (ℕ × Dfa) → Type 0
  Gives keep d ps o =
      (id : ℕ) × (d' : Dfa) × (st : DfaState) × (o ≡ some (id, d'))
      × Sane n0 d'
      × (d'.heap id ≡ some st)
      × (st.states ≡ ps)
      × StillUsed keep d d'

  -- the state is added to what a flush, if there was one, left
  added-Gives :
      (keep : Option ℕ) (d d1 : Dfa) (ps : List ℕ) (S : Sane n0 d1)
      (new : find ps d1.dfa_cache ≡ none) (good : Good n0 ps)
      → StillUsed keep d d1
      → Gives keep d ps (add_dfa_state ps (some d1))
  added-Gives keep d d1 ps S new good u = (
    d1.fresh,
    grown d1 S ps new good,
    new_state d1 S ps new good,
    refl,
    grown-Sane d1 S ps new good,
    grown-new d1 S ps new good,
    refl,
    still keep u,
  )
    where
      still : (keep : Option ℕ) → StillUsed keep d d1 → StillUsed keep d (grown d1 S ps new good)
      still none u = tt
      still (some cur) u =
          λ st e. let (st', live, k) = u st e in (st', grown-old d1 S ps new good cur st' live, k)

  StillUsed-refl : (keep : Option ℕ) (d : Dfa) → StillUsed keep d d
  StillUsed-refl none d = tt
  StillUsed-refl (some cur) d = λ st e. (st, e, refl)

  -- the list is in the cache
  found-Gives :
      (keep : Option ℕ) (d : Dfa) (ps : List ℕ) (id : ℕ)
      → Sane n0 d
      → find ps d.dfa_cache ≡ some id
      → Gives keep d ps (some (id, d))
  found-Gives keep d ps id S e =
      let (st, live, k) = S.entries ps id (Mem-find ps d.dfa_cache id e) in
      (id, d, st, refl, S, live, k, StillUsed-refl keep d)

  find-nil : (ps : List ℕ) → find {V = ℕ} ps [] ≡ none
  unfolding find
  find-nil ps = refl

  find_other : (ps ks : List ℕ) (id : ℕ) → ks ≢ ps → find ps ((ks, id) ∷ []) ≡ none
  unfolding find
  find_other ps ks id h = ground (arith, eq_iff ks ps)

  -- the cache is full
  flushed-Gives :
      (keep : Option ℕ) (d : Dfa) (ps : List ℕ)
      → Sane n0 d
      → Good n0 ps
      → KeepsUse keep d ps
      → find ps d.dfa_cache ≡ none
      → Gives keep d ps (add_dfa_state ps (flush_cache keep d))
  flushed-Gives none d ps S good u e =
      subst (λ (o : Option Dfa). Gives none d ps (add_dfa_state ps o)) (sym (flush_none n0 d S))
        (added-Gives none d (emptied n0 d) ps (emptied-Sane n0 d S) (find-nil ps) good tt)
  flushed-Gives (some cur) d ps S good (st, live, dead) e =
      let known = (S.indexed cur st live).0 in
      let other : st.states ≢ ps = λ k.
        absurd (none_some cur (sym e ∙ ap (λ (x : List ℕ). find x d.dfa_cache) (sym k) ∙ known)) in
      subst (λ (o : Option Dfa). Gives (some cur) d ps (add_dfa_state ps o))
        (sym (flush_some n0 d S cur st live (λ k. other (k ∙ sym (dead k)))))
        (added-Gives (some cur) d (reduced n0 d S cur st live) ps (reduced-Sane n0 d S cur st live)
          (find_other ps st.states cur other) good
          (λ st' live'. (
            kept_state n0 d S cur st live,
            reduced-cur n0 d S cur st live,
            ap (λ (x : DfaState). x.states) (some_same n0 st st' (d.heap cur) live live'),
          )))
    where
      none_some : (id : ℕ) → ◌≡◌ {A = Option ℕ} none (some id) → ⊥
      none_some id h = cc

  pub get_dfa_state-Gives :
      (keep : Option ℕ) (d : Dfa) (ps : List ℕ)
      → Sane n0 d
      → Good n0 ps
      → KeepsUse keep d ps
      → Gives keep d ps (get_dfa_state ps keep d)
  unfolding get_dfa_state
  get_dfa_state-Gives keep d ps S good u = elim (Option-cases (find ps d.dfa_cache)) [
    | inr (id, e) ↦ rw (e, get_dfa_state) (found-Gives keep d ps id S e)
    | inl e ↦ elim (Bool-cases (leb 256 (length d.dfa_cache))) [
      | inl t ↦ rw (e, get_dfa_state) (rw t (flushed-Gives keep d ps S good u e))
      | inr f ↦
          rw (e, get_dfa_state) (rw f (added-Gives keep d d ps S e good (StillUsed-refl keep d)))
    ]
  ]
