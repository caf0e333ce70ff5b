-- ===== src/Regex/Nfa/Construct.antt =====
-- `RegexNfa::from` of include/common/regexnfa.h and the automaton of an expression.
use gazon.Base.{ℕ, ◌+◌, ◌≤◌, ◌<◌, ◌≡◌, refl, ap, ◌∙◌, List, [], ◌∷◌, Memᴰ, here, there, some, arith}
use gazon.Regex.Nfa.{
  Memory, State, Nfa, Fragment, Slot, left_of, write_state, link, any_node, max_size, allocate,
}
use gazon.Regex.Nfa.Graph.{Regex, chr, any, cat, size, Automaton}
use gazon.Regex.Nfa.Slots.{
  place, Within, Filled, Agree, Agree-part, c-link, value-link_in, value-link_out, link-below,
  value-eq, write_state_ne, write_state_self,
}

-- The fragment is the automaton of the expression but for the slots that it leaves open: once they
-- are filled with `t`, whatever is written elsewhere, it leads to `t`. It stands in the states from
-- `lo` on, and those below are as they were in `before`.
pub record Built (e : Regex) (lo : ℕ) (before : Memory) (f : Fragment) (n : Nfa) : Type 0 where
  pub top : n.top ≡ lo + size e
  pub below : (j : ℕ) → j < lo → n.states j ≡ before j
  pub within : Within lo n.top f.needs_linking
  pub automaton :
      (m : Memory) (t : ℕ)
      → Agree lo n.top f.needs_linking n.states m
      → Filled m f.needs_linking t
      → Automaton m f.state e t

abbrev pub state_of : ℕ → ℕ → ℕ → State
state_of c l r = record { c = c; left = l; right = r; last_step_seen = 0 }

abbrev pub allocated : ℕ → ℕ → ℕ → Nfa → Nfa
allocated c l r n = record n {
  states = write_state n.top (state_of c l r) n.states;
  top = n.top + 1;
}

pub allocate-allocated :
    (c l r : ℕ) (n : Nfa) → n.top < max_size → allocate c l r n ≡ some (allocated c l r n)
unfolding allocate
allocate-allocated c l r n h = ground arith

abbrev pub relinked : List Slot → ℕ → Nfa → Nfa
relinked xs v n = record n { states = link xs v n.states }

abbrev pub leaf_fragment : ℕ → Fragment
leaf_fragment p = record { state = p; needs_linking = left_of p ∷ [] }

-- A state that reads the byte.
Leaf :
    (k : ℕ) (n : Nfa) (m : Memory) (t : ℕ)
    → 0 < n.top
    → Agree n.top (n.top + 1) (left_of n.top ∷ []) (write_state n.top (state_of k 0 0) n.states) m
    → Filled m (left_of n.top ∷ []) t
    → (0 < n.top) × ((m n.top).c ≡ k) × ((m n.top).left ≡ t)
Leaf k n m t pos ag fl = (
  pos,
  (ag (left_of n.top) (omega arith) (omega arith)).0
      ∙ ap (λ (s : State). s.c) (write_state_self n.top (state_of k 0 0) n.states),
  fl (left_of n.top) (here refl),
)

pub within_one :
    (y x : Slot) (p : ℕ) → place x ≡ p → Memᴰ y (x ∷ []) → (p ≤ place y) × (place y < p + 1)
within_one y x p e (here e') = let at_p : place y ≡ p = ap place e' ∙ e in omega arith
within_one y x p e (there h) = elim h [ ]

pub Built-chr :
    (c : ℕ) (n : Nfa)
    → 0 < n.top
    → Built (chr c) n.top n.states (leaf_fragment n.top) (allocated c 0 0 n)
Built-chr c n pos = record {
  top = refl;
  below = λ j h. write_state_ne n.top j (state_of c 0 0) n.states h;
  within = λ y h. within_one y (left_of n.top) n.top refl h;
  automaton = λ m t ag fl. Leaf c n m t pos ag fl;
}

pub Built-any :
    (n : Nfa)
    → 0 < n.top
    → Built any n.top n.states (leaf_fragment n.top) (allocated any_node 0 0 n)
Built-any n pos = record {
  top = refl;
  below = λ j h. write_state_ne n.top j (state_of any_node 0 0) n.states h;
  within = λ y h. within_one y (left_of n.top) n.top refl h;
  automaton = λ m t ag fl. Leaf any_node n m t pos ag fl;
}

module _ (a b : Regex) (lo : ℕ) (m0 : Memory) (f1 f2 : Fragment) (n1 n2 : Nfa)
    (A : Built a lo m0 f1 n1) (B : Built b n1.top n1.states f2 n2) where
  -- a slot that the first fragment leaves open is not in the second
  apart : (y : Slot) → Memᴰ y f1.needs_linking → ¬ Memᴰ y f2.needs_linking
  apart y h h' = let p = A.within y h in let q = B.within y h' in absurd (omega arith)

  pub Built-cat :
      Built
        (cat a b)
        lo
        m0
        (record { state = f1.state; needs_linking = f2.needs_linking })
        (relinked f1.needs_linking f2.state n2)
  Built-cat = record {
    top = let p = A.top in let q = B.top in omega arith;
    below = λ j h.
        let p = A.top in
        link-below lo n1.top f1.needs_linking f2.state n2.states j A.within h
        ∙ B.below j (omega arith)
        ∙ A.below j h;
    within = λ y h. let p = A.top in let q = B.within y h in omega arith;
    automaton = λ m t ag fl.
        let p = A.top in
        let q = B.top in
        (
          f2.state,
          A.automaton m f2.state
              (Agree-part lo n2.top lo n1.top f2.needs_linking f1.needs_linking
                (link f1.needs_linking f2.state n2.states) n1.states m ag (omega arith)
                (omega arith) (λ y hi _ _ h. let k = B.within y h in absurd (omega arith))
                (λ y l h. (
                  c-link f1.needs_linking f2.state n2.states (place y)
                      ∙ ap (λ (s : State). s.c) (B.below (place y) h),
                  λ ny.
                      value-link_out f1.needs_linking f2.state n2.states y ny
                      ∙ value-eq n2.states n1.states y (B.below (place y) h),
                )))
              (λ y h.
                let k = A.within y h in
                (ag y k.0 (omega arith)).1 (apart y h)
                ∙ value-link_in f1.needs_linking f2.state n2.states y h),
          B.automaton m t
              (Agree-part lo n2.top n1.top n2.top f2.needs_linking f2.needs_linking
                (link f1.needs_linking f2.state n2.states) n2.states m ag (omega arith)
                (omega arith) (λ y _ ny _. ny)
                (λ y l h. (
                  c-link f1.needs_linking f2.state n2.states (place y),
                  λ ny.
                      value-link_out f1.needs_linking f2.state n2.states y
                        (λ h'. let k = A.within y h' in absurd (omega arith)),
                )))
              fl,
        );
  }
