-- ===== src/Regex/Nfa/Step.antt =====
-- The loop of `step` of include/common/regexnfa.h, against what the states lead to by a byte.
use gazon.Base.{
  ℕ, ◌<◌, ◌≡◌, ◌⊎◌, inl, inr, refl, sym, Bool, true, false, ◌||◌, Bool-cases, subst, List, [], ◌∷◌,
  Memᴰ, here, there, Option, some, Text, nat_eq, arith,
}
use gazon.Regex.Nfa.{Memory, any_node}
use gazon.Regex.Nfa.Graph.{Accepts}
use gazon.Regex.Nfa.Inside.{StatesIn}
use gazon.Regex.Nfa.Run.{Seen, add_state, step_states}
use gazon.Regex.Nfa.Marks.{
  SameShape, unseen_le, Reached, Reached-Keeps, Added, Added-refl, Added-weaken, Added-trans,
}
use gazon.Regex.Nfa.Visit.{add_state-Visits}

-- a state of the list that reads the byte
abbrev pub Steps : Memory → List ℕ → ℕ → ℕ → Type 0
Steps m ps x p = Memᴰ p ps × (((m p).c ≡ any_node) ⊎ ((m p).c ≡ x))

module _ (g : Memory) (top uid : ℕ) where
  abbrev pub Stepping : (Text → Type 0) → List ℕ → ℕ → Memory → List ℕ → Option Seen → Type 0
  Stepping Q ps x m out o =
      (m' : Memory) × (out' : List ℕ) × (b : Bool) × (o ≡ some (m', out', b))
      × Added g top uid Q m out m' out' b
      × ((p : ℕ) → Steps g ps x p → Reached g top uid m' (g p).left)

  reads :
      (m : Memory) (p x : ℕ)
      → SameShape g m
      → nat_eq (m p).c any_node || nat_eq (m p).c x ≡ true
      → ((g p).c ≡ any_node) ⊎ ((g p).c ≡ x)
  reads m p x h t = ground (arith, h p)

  skipped :
      (m : Memory) (p : ℕ) (ps : List ℕ) (x : ℕ) (m2 : Memory)
      → SameShape g m
      → nat_eq (m p).c any_node || nat_eq (m p).c x ≡ false
      → ((i : ℕ) → Steps g ps x i → Reached g top uid m2 (g i).left)
      → (i : ℕ) → Steps g (p ∷ ps) x i
      → Reached g top uid m2 (g i).left
  skipped m p ps x m2 h t r i (there k, rd) = r i (k, rd)
  skipped m p ps x m2 h t r i (here e, rd) =
      absurd (no (subst (λ j. ((g j).c ≡ any_node) ⊎ ((g j).c ≡ x)) e rd))
    where
      no : ((g p).c ≡ any_node) ⊎ ((g p).c ≡ x) → ⊥
      no rd = ground (arith, h p)

  -- the first state reads the byte
  stepped_first :
      (p : ℕ) (ps : List ℕ) (m : Memory) (out : List ℕ) (fuel : ℕ) (m1 : Memory) (out1 : List ℕ)
      (b1 : Bool) (m2 : Memory) (out2 : List ℕ) (b2 : Bool) (x : ℕ) (Q : Text → Type 0)
      → SameShape g m
      → nat_eq (m p).c any_node || nat_eq (m p).c x ≡ true
      → add_state fuel uid (m p).left m out ≡ some (m1, out1, b1)
      → step_states fuel uid x ps m1 out1 ≡ some (m2, out2, b2)
      → Added g top uid (Accepts g (m p).left) m out m1 out1 b1
      → Added g top uid Q m1 out1 m2 out2 b2
      → Reached g top uid m1 (m p).left
      → ((i : ℕ) → Steps g ps x i → Reached g top uid m2 (g i).left)
      → ((s : Text) → Accepts g (g p).left s → Q s)
      → Stepping Q (p ∷ ps) x m out (step_states fuel uid x (p ∷ ps) m out)
  unfolding step_states
  stepped_first p ps m out fuel m1 out1 b1 m2 out2 b2 x Q h t e1 e2 A1 A2 r1 r2 q =
      let (c, l, r) = h p in
      (
        m2,
        out2,
        b1 || b2,
        rw t (rw e1 (rw e2)),
        Added-trans g top uid Q m out m1 out1 b1 m2 out2 b2
            (Added-weaken g top uid (Accepts g (m p).left) Q m out m1 out1 b1
              (λ s a. q s (subst (λ i. Accepts g i s) l a)) A1)
            A2,
        reached,
      )
    where
      reached : (i : ℕ) → Steps g (p ∷ ps) x i → Reached g top uid m2 (g i).left
      reached i (there k, rd) = r2 i (k, rd)
      reached i (here e, rd) =
          let (c, l, r) = h p in
          subst (λ j. Reached g top uid m2 (g j).left) (sym e)
            (Reached-Keeps g top uid m1 m2 (g p).left A2.kept (subst (Reached g top uid m1) l r1))

  -- The loop of `step` reaches what the states of the list lead to by the byte.
  pub step_states-Stepping :
      StatesIn top uid g
      → (fuel : ℕ) → top < fuel
      → (Q : Text → Type 0) (x : ℕ) (ps : List ℕ) → ((p : ℕ) → Memᴰ p ps → (0 < p) × (p < top))
      → ((p : ℕ) → Steps g ps x p → (s : Text) → Accepts g (g p).left s → Q s)
      → (m : Memory) (out : List ℕ) → SameShape g m
      → Stepping Q ps x m out (step_states fuel uid x ps m out)
  unfolding step_states
  step_states-Stepping inside fuel hf Q x [] hp q m out h =
      (m, out, false, refl, Added-refl g top uid Q m out h, λ p (k, _). elim k [ ])
  step_states-Stepping inside fuel hf Q x (p ∷ ps) hp q m out h =
      elim (Bool-cases (nat_eq (m p).c any_node || nat_eq (m p).c x)) [
        | inl t ↦
            let shape = h p in
            let (pos, lt) = hp p (here refl) in
            let bound = inside p pos lt in
            let few = unseen_le uid m top in
            let (m1, out1, b1, e1, A1, r1) =
              add_state-Visits g top uid inside fuel (m p).left m out h (omega arith)
                (omega arith) in
            let (m2, out2, b2, e2, A2, r2) =
              step_states-Stepping inside fuel hf Q x ps (λ i k. hp i (there k))
                (λ i (k, rd). q i (there k, rd)) m1 out1 A1.shape in
            stepped_first p ps m out fuel m1 out1 b1 m2 out2 b2 x Q h t e1 e2 A1 A2 r1 r2
              (q p (here refl, reads m p x h t))
        | inr t ↦
            let (m2, out2, b2, e2, A2, r2) =
              step_states-Stepping inside fuel hf Q x ps (λ i k. hp i (there k))
                (λ i (k, rd). q i (there k, rd)) m out h in
            (m2, out2, b2, rw t e2, A2, λ i k. skipped m p ps x m2 h t r2 i k)
      ]
