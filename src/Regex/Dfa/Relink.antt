-- ===== src/Regex/Dfa/Relink.antt =====
-- The two assignments in the loop of `RegexDfa::match` of include/common/regexdfa.h, and the
-- invariant.
use gazon.Base.{
  ℕ, ◌≡◌, ◌↔◌, ◌⊎◌, inl, inr, refl, sym, ap, subst, ◌∙◌, Bool, true, false, Bool-cases, List, some,
  nat_eq, nat_eq_iff, if◌then◌else◌, text_Eq, arith,
}
use gazon.Regex.Nfa.{Nfa}
use gazon.Regex.Dfa.{DfaState, Dfa, Heap, put, set_next, set_match}
use gazon.Regex.Dfa.Sane.{HasMatch, Exact, Leads, Sane, Good, Starts, some_same}
use gazon.Base.Maps.{find}

module _ (n0 : Nfa) (d : Dfa) (S : Sane n0 d) (cur c id : ℕ) (s1 s2 : DfaState) (b : Bool)
    (at_cur : d.heap cur ≡ some s1) (at_id : d.heap id ≡ some s2)
    (leads : Leads n0 s1.states c s2.states) (exact : (b ≡ true) ↔ HasMatch n0 s2.states) where
  abbrev with_next : DfaState
  with_next = record s1 { next = λ (j : ℕ). if nat_eq j c then some id else s1.next j }

  abbrev heap1 : Heap
  heap1 = put cur with_next d.heap

  -- the target, which may be the state itself
  pub target :
      (st : DfaState) × (heap1 id ≡ some st)
      × (st.states ≡ s2.states)
      × ((i j : ℕ) → st.next i ≡ some j → ((id ≡ cur) × (i ≡ c) × (j ≡ id)) ⊎ (s2.next i ≡ some j))
  target = elim (Bool-cases (nat_eq id cur)) [
    | inl t ↦
        let e : id ≡ cur = (nat_eq_iff id cur).0 t in
        let same = some_same n0 s1 s2 (d.heap cur) at_cur (ap d.heap (sym e) ∙ at_id) in
        (
          with_next,
          rw t refl,
          ap (λ (x : DfaState). x.states) same,
          λ i j k. elim (Bool-cases (nat_eq i c)) [
            | inl t' ↦ inl (e, (nat_eq_iff i c).0 t', ground arith)
            | inr f' ↦ inr (ap (λ (x : DfaState). x.next i) (sym same) ∙ other i j f' k)
          ],
        )
    | inr f ↦ (s2, rw f at_id, refl, λ i j k. inr k)
  ]
    where
      other : (i j : ℕ) → nat_eq i c ≡ false → with_next.next i ≡ some j → s1.next i ≡ some j
      other i j f k = ground arith

  abbrev matched : DfaState
  matched = record target.0 { is_match = b }

  abbrev pub relinked : Dfa
  relinked = record d { heap = put id matched heap1 }

  pub set_next-relinked : set_next cur c id b d ≡ some (id, relinked)
  set_next-relinked = rw (at_cur, set_next) (rw (target.1, set_match) refl)

  -- A state that lived lives on, with the same list.
  pub relinked-old :
      (j : ℕ) (s0 : DfaState)
      → d.heap j ≡ some s0
      → (s : DfaState) × (relinked.heap j ≡ some s)
        × (s.states ≡ s0.states)
        × (((j ≡ id) ⊎ Exact n0 s0) → Exact n0 s)
  relinked-old j s0 e = elim (Bool-cases (nat_eq j id)) [
    | inl t ↦
        let k : j ≡ id = (nat_eq_iff j id).0 t in
        let same = some_same n0 s2 s0 (d.heap id) at_id (ap d.heap (sym k) ∙ e) in
        (
          matched,
          rw t refl,
          target.2 ∙ ap (λ (x : DfaState). x.states) same,
          λ _. subst (λ (x : List ℕ). (b ≡ true) ↔ HasMatch n0 x) (sym target.2) exact,
        )
    | inr f ↦ elim (Bool-cases (nat_eq j cur)) [
      | inl t ↦
          let k : j ≡ cur = (nat_eq_iff j cur).0 t in
          let same = some_same n0 s1 s0 (d.heap cur) at_cur (ap d.heap (sym k) ∙ e) in
          (
            with_next,
            rw f (rw t refl),
            ap (λ (x : DfaState). x.states) same,
            λ h. elim h [ inl i ↦ absurd (ground arith) | inr x ↦ subst (Exact n0) (sym same) x ],
          )
      | inr f' ↦
          (s0, rw f (rw f' e), refl, λ h. elim h [ inl i ↦ absurd (ground arith) | inr x ↦ x ])
    ]
  ]

  -- A state that lives lived, and its successors are those that it had, but for the new one.
  relinked-was :
      (j : ℕ) (s : DfaState)
      → relinked.heap j ≡ some s
      → (s0 : DfaState) × (d.heap j ≡ some s0)
        × (s0.states ≡ s.states)
        × ((i k : ℕ) → s.next i ≡ some k → ((j ≡ cur) × (i ≡ c) × (k ≡ id)) ⊎ (s0.next i ≡ some k))
  relinked-was j s e = elim (Bool-cases (nat_eq j id)) [
    | inl t ↦
        let k : j ≡ id = (nat_eq_iff j id).0 t in
        let same : matched ≡ s = ground arith in
        (
          s2,
          ap d.heap k ∙ at_id,
          sym target.2 ∙ ap (λ (x : DfaState). x.states) same,
          λ i l h. elim (target.3 i l (ap (λ (x : DfaState). x.next i) same ∙ h)) [
            | inl (a, a', a'') ↦ inl (k ∙ a, a', a'')
            | inr o ↦ inr o
          ],
        )
    | inr f ↦ elim (Bool-cases (nat_eq j cur)) [
      | inl t ↦
          let k : j ≡ cur = (nat_eq_iff j cur).0 t in
          let same : with_next ≡ s = ground arith in
          (
            s1,
            ap d.heap k ∙ at_cur,
            ap (λ (x : DfaState). x.states) same,
            λ i l h. elim (Bool-cases (nat_eq i c)) [
              | inl t' ↦ inl (k, (nat_eq_iff i c).0 t', ground arith)
              | inr f' ↦ inr (other i l f' (ap (λ (x : DfaState). x.next i) same ∙ h))
            ],
          )
      | inr f' ↦ (s, ground arith, refl, λ i l h. inr h)
    ]
  ]
    where
      other : (i j : ℕ) → nat_eq i c ≡ false → with_next.next i ≡ some j → s1.next i ≡ some j
      other i j f k = ground arith

  Leads-cong :
      (ps ps' qs qs' : List ℕ) (i i' : ℕ)
      → ps ≡ ps'
      → qs ≡ qs'
      → i ≡ i'
      → Leads n0 ps i qs
      → Leads n0 ps' i' qs'
  Leads-cong ps ps' qs qs' i i' p q r h =
      subst (λ (x : List ℕ). Leads n0 x i' qs') p
        (subst (λ (x : List ℕ). Leads n0 ps i' x) q (subst (λ (x : ℕ). Leads n0 ps x qs) r h))

  new_edge :
      (j : ℕ) (s s0 : DfaState) (i k : ℕ)
      → d.heap j ≡ some s0
      → s0.states ≡ s.states
      → (j ≡ cur) × (i ≡ c) × (k ≡ id)
      → (st' : DfaState) × (relinked.heap k ≡ some st')
        × Leads n0 s.states i st'.states
        × Exact n0 st'
  new_edge j s s0 i k live st (jc, ic, kid) =
      let (s', live', st', ex) = relinked-old id s2 at_id in
      let same = some_same n0 s1 s0 (d.heap cur) at_cur (ap d.heap (sym jc) ∙ live) in
      (
        s',
        ap relinked.heap kid ∙ live',
        Leads-cong s1.states s.states s2.states s'.states c i
            (ap (λ (x : DfaState). x.states) same ∙ st) (sym st') (sym ic) leads,
        ex (inl refl),
      )

  pub relinked-Sane : Sane n0 relinked
  relinked-Sane = record {
    like = S.like;
    same_start = S.same_start;
    entries = λ k j h.
        let (st, live, e) = S.entries k j h in
        let (s, live', e', _) = relinked-old j st live in (s, live', e' ∙ e);
    indexed = λ j s h.
        let (s0, live, e, _) = relinked-was j s h in
        let (f, lt) = S.indexed j s0 live in
        (subst (λ (x : List ℕ). find x d.dfa_cache ≡ some j) e f, lt);
    closed = λ j s h.
        let (s0, live, e, _) = relinked-was j s h in subst (Good n0) e (S.closed j s0 live);
    nexts = λ j s i k h nx.
        let (s0, live, e, edges) = relinked-was j s h in
        elim (edges i k nx) [
          | inl new ↦ new_edge j s s0 i k live e new
          | inr old ↦
              let (st', live', leads', exact') = S.nexts j s0 i k live old in
              let (s', live'', e', ex) = relinked-old k st' live' in
              (
                s',
                live'',
                Leads-cong s0.states s.states st'.states s'.states i i e (sym e') refl leads',
                ex (inr exact'),
              )
        ];
    starts = λ j h.
        let (st, live, k) = S.starts j h in
        let (s, live', e, _) = relinked-old j st live in (s, live', subst (Starts n0) (sym e) k);
  }
