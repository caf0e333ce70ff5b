-- ===== src/Regex/Nfa/Match.antt =====
-- `match` of include/common/regexnfa.h, against the paths from the start state.
use gazon.Base.{
  ℕ, zero, suc, ◌+◌, ◌<◌, ◌≡◌, ◌≢◌, ◌↔◌, ◌⊎◌, inl, inr, refl, sym, ◌∙◌, Bool, true, false, subst,
  List, [], ◌∷◌, Memᴰ, All, Option, some, Text, arith,
}
use gazon.Regex.Nfa.{Memory, Nfa, any_node, split_node}
use gazon.Regex.Nfa.Graph.{AcceptsIn, Accepts}
use gazon.Regex.Nfa.Run.{step, get_start_states, add_state, step_states, match_loop, match}
use gazon.Regex.Nfa.Marks.{unseen_le}
use gazon.Regex.Nfa.Visit.{Visited, add_state-Visits}
use gazon.Regex.Nfa.Step.{Steps, Stepping, step_states-Stepping}
use gazon.Regex.Nfa.Follow.{
  Like, InList, Closed, SomeAccepts, Added-Closed, accepts_origin, Accepts-reached, no_marks, after,
  after-Like,
}

-- The byte is not that of a split state.
abbrev pub NotSplit : ℕ → Type 0
NotSplit x = x ≢ split_node

module _ (g : Memory) (top : ℕ) where
  -- A successor that accepts is no null pointer.
  in_list :
      (R : Type 0) (ps : List ℕ) (n q : ℕ) (s : Text)
      → InList ps q
      → (Memᴰ q ps → AcceptsIn g n q s → R)
      → AcceptsIn g n q s
      → R
  in_list R ps n q s (inr h) f a = f h a
  in_list R ps zero q s (inl e) f a = absurd a
  in_list R ps (suc n) q s (inl e) f (pos, _) = absurd (omega arith)

  -- What an accepting path reads first, a state of the closed list reads.
  first_step :
      (ps : List ℕ) (b : Bool) (x : ℕ) (s : Text)
      → Closed g top ps b
      → (n i : ℕ) → Memᴰ i ps
      → AcceptsIn g n i (x ∷ s)
      → (p : ℕ) × Steps g ps x p × Accepts g (g p).left s
  first_step ps b x s C zero i h a = absurd a
  first_step ps b x s C (suc n) i h (pos, inl (_, e)) = absurd (cc)
  first_step ps b x s C (suc n) i h (pos, inr (inl (k, inl a))) =
      in_list _ ps n (g i).left (x ∷ s) (C.splits i h k).0 (first_step ps b x s C n (g i).left) a
  first_step ps b x s C (suc n) i h (pos, inr (inl (k, inr a))) =
      in_list _ ps n (g i).right (x ∷ s) (C.splits i h k).1 (first_step ps b x s C n (g i).right) a
  first_step ps b x s C (suc n) i h (pos, inr (inr (y, r, e, (_, rd), a))) = (
    i,
    (h, subst (λ (z : ℕ). ((g i).c ≡ any_node) ⊎ ((g i).c ≡ z)) (cc) rd),
    (n, subst (λ (t : Text). AcceptsIn g n (g i).left t) (cc) a),
  )

  pub at_end :
      (ps : List ℕ) (b : Bool)
      → Closed g top ps b
      → (n i : ℕ) → Memᴰ i ps
      → AcceptsIn g n i []
      → b ≡ true
  at_end ps b C zero i h a = absurd a
  at_end ps b C (suc n) i h (pos, inl (e, _)) = C.matches i h e
  at_end ps b C (suc n) i h (pos, inr (inl (k, inl a))) =
      in_list _ ps n (g i).left [] (C.splits i h k).0 (at_end ps b C n (g i).left) a
  at_end ps b C (suc n) i h (pos, inr (inl (k, inr a))) =
      in_list _ ps n (g i).right [] (C.splits i h k).1 (at_end ps b C n (g i).right) a
  at_end ps b C (suc n) i h (pos, inr (inr (y, r, e, _, _))) = absurd (cc)

  -- What `step` returns accepts what the list accepts behind the byte.
  abbrev pub Follows : Nfa → List ℕ → ℕ → Type 0
  Follows n ps x =
      (n' : Nfa) × (ps' : List ℕ) × (b : Bool) × (step ps x n ≡ some (n', ps', b))
      × Like g top n'
      × Closed g top ps' b
      × ((s : Text) → SomeAccepts g top ps (x ∷ s) ↔ SomeAccepts g top ps' s)

  pub step-Follows :
      (n : Nfa) (ps : List ℕ) (b : Bool) (x : ℕ)
      → NotSplit x
      → Like g top n
      → Closed g top ps b
      → Follows n ps x
  unfolding step
  step-Follows n ps b x nx L C = go (
      step_states-Stepping g top (n.step_uid + 1)
        (λ i pos lt. let k = L.pointers i pos lt in omega arith) (n.top + 1)
        (let e = L.tops in omega arith) Q x ps C.inside (λ p h s a. (p, h, a)) n.states [] L.shape)
    where
      Q : Text → Type 0
      Q s = (p : ℕ) × Steps g ps x p × Accepts g (g p).left s

      back : (s : Text) → Q s → SomeAccepts g top ps (x ∷ s)
      back s (p, (h, rd), (k, a)) = (
        p,
        h,
        (
          suc k,
          (
            (C.inside p h).0,
            inr (
                inr (
                  x,
                  s,
                  refl,
                  (
                    λ e. elim rd [ inl o ↦ absurd (omega arith) | inr o ↦ absurd (nx (sym o ∙ e)) ],
                    rd,
                  ),
                  a,
                )),
          ),
        ),
      )

      go :
          Stepping g top
            (n.step_uid + 1)
            Q
            ps
            x
            n.states
            []
            (step_states (n.top + 1) (n.step_uid + 1) x ps n.states [])
          → Follows n ps x
      go (m', out, b', e, A, r) = (
        after g top n m',
        out,
        b',
        rw e,
        after-Like g top n Q m' out b' L A,
        Added-Closed g top (n.step_uid + 1) Q n.states m' out b' (no_marks g top n L) A,
        λ s. (
          λ (i, h, (k, a)).
              let (p, sp, a') = first_step ps b x s C k i h a in
              Accepts-reached g top (n.step_uid + 1) Q n.states m' out b' (no_marks g top n L) A
                (g p).left s (r p sp) a',
          λ h. back s (
              accepts_origin g top (n.step_uid + 1) Q n.states m' out b' (no_marks g top n L) A s
                h),
        ),
      )

  abbrev pub Started : Nfa → Type 0
  Started n =
      (n' : Nfa) × (ps : List ℕ) × (b : Bool) × (get_start_states n ≡ some (n', ps, b))
      × Like g top n'
      × Closed g top ps b
      × ((s : Text) → Accepts g n.start_state s ↔ SomeAccepts g top ps s)

  pub get_start_states-Started : (n : Nfa) → Like g top n → n.start_state < top → Started n
  unfolding get_start_states
  get_start_states-Started n L lt = go (
      add_state-Visits g top (n.step_uid + 1)
        (λ i pos lt. let k = L.pointers i pos lt in omega arith) (n.top + 1) n.start_state n.states
        [] L.shape lt (let e = L.tops in omega (arith, unseen_le (n.step_uid + 1) n.states top)))
    where
      go :
          Visited g top
            (n.step_uid + 1)
            (Accepts g n.start_state)
            n.start_state
            n.states
            []
            (add_state (n.top + 1) (n.step_uid + 1) n.start_state n.states [])
          → Started n
      go (m', out, b, e, A, r) = (
        after g top n m',
        out,
        b,
        rw e,
        after-Like g top n (Accepts g n.start_state) m' out b L A,
        Added-Closed g top (n.step_uid + 1) (Accepts g n.start_state) n.states m' out b
            (no_marks g top n L) A,
        λ s. (
          Accepts-reached g top (n.step_uid + 1) (Accepts g n.start_state) n.states m' out b
              (no_marks g top n L) A n.start_state s r,
          accepts_origin g top (n.step_uid + 1) (Accepts g n.start_state) n.states m' out b
              (no_marks g top n L) A s,
        ),
      )

  -- The code returned, and its answer is `P`.
  abbrev pub Answers : Type 0 → Option (Bool × Nfa) → Type 0
  Answers P o = (b : Bool) × (n : Nfa) × (o ≡ some (b, n)) × ((b ≡ true) ↔ P) × Like g top n

  match_loop-Answers :
      (s : Text) (n : Nfa) (ps : List ℕ) (b : Bool)
      → All NotSplit s
      → Like g top n
      → Closed g top ps b
      → Answers (SomeAccepts g top ps s) (match_loop s n ps b)
  unfolding match_loop
  match_loop-Answers [] n ps b _ L C = (
    b,
    n,
    refl,
    (
      λ e. let (i, h, k) = C.sees e in (i, h, (1, ((C.inside i h).0, inl (k, refl)))),
      λ (i, h, (k, a)). at_end ps b C k i h a,
    ),
    L,
  )
  match_loop-Answers (x ∷ s) n ps b (nx, ns) L C =
      let (n', ps', b', e, L', C', iff) = step-Follows n ps b x nx L C in
      let (r, n'', e', iff', L'') = match_loop-Answers s n' ps' b' ns L' C' in
      (r, n'', rw (e, match_loop) e', (λ k. (iff s).1 (iff'.0 k), λ k. iff'.1 ((iff s).0 k)), L'')

  -- `match` on a text with a byte at least: the answer does not depend on the flag at the start
  pub match-Answers :
      (x : ℕ) (s : Text) (n : Nfa)
      → All NotSplit (x ∷ s)
      → Like g top n
      → n.start_state < top
      → Answers (Accepts g n.start_state (x ∷ s)) (match (x ∷ s) n)
  unfolding match match_loop
  match-Answers x s n ns L lt =
      let (n', ps, b, e, L', C, iff) = get_start_states-Started n L lt in
      let (r, n'', e', iff', L'') = match_loop-Answers (x ∷ s) n' ps b ns L' C in
      (
        r,
        n'',
        rw (e, match) e',
        (λ k. (iff (x ∷ s)).1 (iff'.0 k), λ k. iff'.1 ((iff (x ∷ s)).0 k)),
        L'',
      )

  -- `match` on the empty text: the answer is false, whatever the automaton
  pub match-Answers-empty : (n : Nfa) → Like g top n → n.start_state < top → Answers ⊥ (match [] n)
  unfolding match match_loop
  match-Answers-empty n L lt =
      let (n', ps, b, e, L', C, iff) = get_start_states-Started n L lt in
      (false, n', rw (e, match) refl, (λ k. absurd (cc), λ k. absurd k), L')
