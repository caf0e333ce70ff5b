-- ===== src/Regex/Dfa/Sane.antt =====
-- The invariant of include/common/regexdfa.h: the states of the cache stand for lists of states of
-- the automaton below, and no live state points to a deleted one.
use gazon.Base.{
  ℕ, ◌<◌, ◌≡◌, ◌≢◌, ◌↔◌, inl, inr, refl, sym, ap, subst, ◌∙◌, Bool, true, false, Bool-cases, List,
  [], ◌∷◌, Memᴰ, here, there, Option, none, some, Text, nat_eq, nat_eq_iff, arith, eq_self, text_Eq,
}
use gazon.Base.Maps.{find}
use gazon.Regex.Nfa.{Nfa, match_node}
use gazon.Regex.Nfa.Graph.{Accepts}
use gazon.Regex.Nfa.Follow.{Like, Closed, SomeAccepts}
use gazon.Regex.Dfa.{
  DfaState, Dfa, Heap, put, is_kept, delete_but, backup_of, flush_cache, restore, no_next,
}
use gazon.Regex.Dfa.Flush.{
  Mem-find, delete_but-some, delete_but-Mem, delete_but-kept, backup_of-key,
}

-- `n0` has the shape of the automaton below and its start state.
module _ (n0 : Nfa) where
  abbrev pub HasMatch : List ℕ → Type 0
  HasMatch ps = (i : ℕ) × Memᴰ i ps × ((n0.states i).c ≡ match_node)

  -- `isMatch` tells whether the list has a match state.
  abbrev pub Exact : DfaState → Type 0
  Exact st = (st.is_match ≡ true) ↔ HasMatch st.states

  abbrev pub Good : List ℕ → Type 0
  Good ps = (b : Bool) × Closed n0.states n0.top ps b

  abbrev pub Leads : List ℕ → ℕ → List ℕ → Type 0
  Leads ps c ps' =
      (s : Text) → SomeAccepts n0.states n0.top ps (c ∷ s) ↔ SomeAccepts n0.states n0.top ps' s

  abbrev pub Starts : List ℕ → Type 0
  Starts ps = (s : Text) → Accepts n0.states n0.start_state s ↔ SomeAccepts n0.states n0.top ps s

  pub record Sane (d : Dfa) : Type 0 where
    pub like : Like n0.states n0.top d.nfa
    pub same_start : d.nfa.start_state ≡ n0.start_state
    pub entries :
        (k : List ℕ) (id : ℕ)
        → Memᴰ (k, id) d.dfa_cache
        → (st : DfaState) × (d.heap id ≡ some st) × (st.states ≡ k)
    pub indexed :
        (id : ℕ) (st : DfaState)
        → d.heap id ≡ some st
        → (find st.states d.dfa_cache ≡ some id) × (id < d.fresh)
    pub closed : (id : ℕ) (st : DfaState) → d.heap id ≡ some st → Good st.states
    pub nexts :
        (id : ℕ) (st : DfaState) (c id' : ℕ)
        → d.heap id ≡ some st
        → st.next c ≡ some id'
        → (st' : DfaState) × (d.heap id' ≡ some st') × Leads st.states c st'.states × Exact st'
    pub starts :
        (id : ℕ)
        → d.dfa_start_state ≡ some id
        → (st : DfaState) × (d.heap id ≡ some st) × Starts st.states

  pub some_same : (x y : DfaState) (o : Option DfaState) → o ≡ some x → o ≡ some y → x ≡ y
  some_same x y o e e' = cc

  find_self : (k : List ℕ) (id : ℕ) → find k ((k, id) ∷ []) ≡ some id
  unfolding find
  find_self k id = ground (arith, eq_self k)

  -- Nothing is kept: the cache and the heap are empty.
  abbrev pub emptied : Dfa → Dfa
  emptied d = record d {
    heap = delete_but none d.dfa_cache d.heap;
    dfa_cache = [];
    dfa_start_state = none;
  }

  module _ (d : Dfa) (S : Sane d) where
    emptied-dead : (id : ℕ) (st : DfaState) → (emptied d).heap id ≡ some st → ⊥
    emptied-dead id st e =
        let live = delete_but-some none d.dfa_cache d.heap id st e in
        let listed = Mem-find st.states d.dfa_cache id (S.indexed id st live).0 in
        let gone = delete_but-Mem none st.states d.dfa_cache d.heap id listed refl in absurd (cc)

    pub emptied-Sane : Sane (emptied d)
    emptied-Sane = record {
      like = S.like;
      same_start = S.same_start;
      entries = λ k id h. elim h [ ];
      indexed = λ id st e. absurd (emptied-dead id st e);
      closed = λ id st e. absurd (emptied-dead id st e);
      nexts = λ id st c id' e. absurd (emptied-dead id st e);
      starts = λ id e. absurd (cc);
    }

    pub flush_none : flush_cache none d ≡ some (emptied d)
    unfolding flush_cache
    flush_none = refl

    module _ (cur : ℕ) (st : DfaState) (e : d.heap cur ≡ some st) where
      abbrev pub kept_state : DfaState
      kept_state = record st { next = no_next }

      abbrev pub kept_heap : Heap
      kept_heap = delete_but (some cur) d.dfa_cache d.heap

      -- Only the current state is kept.
      abbrev pub reduced : Dfa
      reduced = record d {
        heap = put cur kept_state kept_heap;
        dfa_cache = (st.states, cur) ∷ [];
        dfa_start_state = none;
      }

      backed_up : backup_of (some cur) d.dfa_cache [] ≡ st.states
      backed_up =
          backup_of-key cur st.states d.dfa_cache []
            (λ k' h.
              let (st', e', k) = S.entries k' cur h in
              sym k ∙ ap (λ (x : DfaState). x.states) (some_same st' st (d.heap cur) e' e))
            (inr (Mem-find st.states d.dfa_cache cur (S.indexed cur st e).0))

      cur-is_kept : is_kept (some cur) cur ≡ true
      cur-is_kept = (nat_eq_iff cur cur).1 refl

      pub flush_some : st.states ≢ [] → flush_cache (some cur) d ≡ some reduced
      unfolding flush_cache
      flush_some ne = rw backed_up (restored st.states refl)
        where
          restored :
              (ks : List ℕ)
              → st.states ≡ ks
              → restore
                  (some cur)
                  ks
                  (record d { heap = kept_heap; dfa_cache = []; dfa_start_state = none })
                ≡ some (record d {
                  heap = put cur kept_state kept_heap;
                  dfa_cache = (ks, cur) ∷ [];
                  dfa_start_state = none;
                })
          restored [] k = absurd (ne k)
          restored (x ∷ ks) k =
              rw (delete_but-kept (some cur) d.dfa_cache d.heap cur cur-is_kept ∙ e, restore) refl

      reduced-live :
          (id : ℕ) (st' : DfaState) → reduced.heap id ≡ some st' → (id ≡ cur) × (st' ≡ kept_state)
      reduced-live id st' h = elim (Bool-cases (nat_eq id cur)) [
        | inl t ↦ ((nat_eq_iff id cur).0 t, ground arith)
        | inr f ↦
            let live : kept_heap id ≡ some st' = ground arith in
            let old = delete_but-some (some cur) d.dfa_cache d.heap id st' live in
            let listed = Mem-find st'.states d.dfa_cache id (S.indexed id st' old).0 in
            let other : nat_eq cur id ≡ false = ground arith in
            let gone =
              delete_but-Mem (some cur) st'.states d.dfa_cache d.heap id listed (ground arith) in
            absurd (cc)
      ]

      pub reduced-cur : reduced.heap cur ≡ some kept_state
      reduced-cur = rw cur-is_kept refl

      pub reduced-Sane : Sane reduced
      reduced-Sane = record {
        like = S.like;
        same_start = S.same_start;
        entries = λ k id h. only k id h;
        indexed = λ id st' h.
            let (i, s) = reduced-live id st' h in
            subst
              (λ (p : ℕ × DfaState).
                (find p.1.states reduced.dfa_cache ≡ some p.0) × (p.0 < d.fresh))
              (λ j. (sym i j, sym s j)) (found, (S.indexed cur st e).1);
        closed = λ id st' h.
            let (i, s) = reduced-live id st' h in
            subst (λ (x : DfaState). Good x.states) (sym s) (S.closed cur st e);
        nexts = λ id st' c id' h k.
            let (i, s) = reduced-live id st' h in
            absurd (no_successor c id' (ap (λ (x : DfaState). x.next c) (sym s) ∙ k));
        starts = λ id h. absurd (cc);
      }
        where
          only :
              (k : List ℕ) (id : ℕ)
              → Memᴰ {A = List ℕ × ℕ} (k, id) ((st.states, cur) ∷ [])
              → (st' : DfaState) × (reduced.heap id ≡ some st') × (st'.states ≡ k)
          only k id (there h) = elim h [ ]
          only k id (here p) =
              let i : id ≡ cur = ap (λ (q : List ℕ × ℕ). q.1) p in
              (kept_state, ap reduced.heap i ∙ reduced-cur, sym (ap (λ (q : List ℕ × ℕ). q.0) p))

          found : find st.states reduced.dfa_cache ≡ some cur
          found = find_self st.states cur

          no_successor : (c id' : ℕ) → no_next c ≡ some id' → ⊥
          no_successor c id' h = cc
