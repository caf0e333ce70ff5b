-- ===== src/Regex/Nfa/Branches.antt =====
-- The fragments of include/common/regexnfa.h that start or end in a split state.
use gazon.Base.{
  ℕ, ◌+◌, ◌≤◌, ◌<◌, ◌≡◌, inl, inr, refl, ap, ◌∙◌, List, [], ◌∷◌, ◌++◌, Memᴰ, here, there,
  append_left, append_right, Mem-append, arith,
}
use gazon.Regex.Nfa.{Memory, State, Nfa, Fragment, Slot, left_of, right_of, write_state, split_node}
use gazon.Regex.Nfa.Graph.{Regex, alt, opt, star, plus, Splits, Automaton}
use gazon.Regex.Nfa.Slots.{
  place, Within, Filled, Agree, Agree-part, Splits-made, c-link, value-link_in, value-link_out,
  link-below, value-eq, write_state_ne, write_state_self,
}
use gazon.Regex.Nfa.Construct.{Built, state_of, allocated, relinked, within_one}

module _ (a b : Regex) (lo : ℕ) (m0 : Memory) (f1 f2 : Fragment) (n1 n2 : Nfa) (pos : 0 < lo)
    (A : Built a lo m0 f1 n1) (B : Built b n1.top n1.states f2 n2) where
  abbrev both : List Slot
  both = f1.needs_linking ++ f2.needs_linking

  abbrev forked : Nfa
  forked = allocated split_node f1.state f2.state n2

  forked-below : (j : ℕ) → j < n2.top → forked.states j ≡ n2.states j
  forked-below j h = write_state_ne n2.top j (state_of split_node f1.state f2.state) n2.states h

  forked-top : forked.states n2.top ≡ state_of split_node f1.state f2.state
  forked-top = write_state_self n2.top (state_of split_node f1.state f2.state) n2.states

  both-Within : (y : Slot) → Memᴰ y both → (lo ≤ place y) × (place y < n2.top)
  both-Within y h = elim (Mem-append y f1.needs_linking f2.needs_linking h) [
    | inl l ↦ let p = A.top in let q = B.top in let k = A.within y l in omega arith
    | inr r ↦ let p = A.top in let k = B.within y r in omega arith
  ]

  not_top : (y : Slot) → place y ≡ n2.top → ¬ Memᴰ y both
  not_top y e h = let k = both-Within y h in absurd (omega arith)

  first_only : (y : Slot) → place y < n1.top → ¬ Memᴰ y f1.needs_linking → ¬ Memᴰ y both
  first_only y k ny h = elim (Mem-append y f1.needs_linking f2.needs_linking h) [
    | inl l ↦ ny l
    | inr r ↦ let q = B.within y r in absurd (omega arith)
  ]

  second_only : (y : Slot) → n1.top ≤ place y → ¬ Memᴰ y f2.needs_linking → ¬ Memᴰ y both
  second_only y k ny h = elim (Mem-append y f1.needs_linking f2.needs_linking h) [
    | inl l ↦ let q = A.within y l in absurd (omega arith)
    | inr r ↦ ny r
  ]

  forked-Automaton :
      (m : Memory) (t : ℕ)
      → Agree lo (n2.top + 1) both forked.states m
      → Filled m both t
      → Automaton m n2.top (alt a b) t
  forked-Automaton m t ag fl =
      let p = A.top in
      let q = B.top in
      (
        f1.state,
        f2.state,
        Splits-made lo (n2.top + 1) n2.top f1.state f2.state both forked.states m ag (omega arith)
            (omega arith) (omega arith) (not_top (left_of n2.top) refl)
            (ap (λ (s : State). s.c) forked-top) (ap (λ (s : State). s.left) forked-top)
            ((ag (right_of n2.top) (omega arith) (omega arith)).1 (not_top (right_of n2.top) refl)
              ∙ ap (λ (s : State). s.right) forked-top),
        A.automaton m t
            (Agree-part lo (n2.top + 1) lo n1.top both f1.needs_linking forked.states n1.states m ag
              (omega arith) (omega arith) (λ y hi ny _. first_only y hi ny)
              (λ y l h.
                let e = forked-below (place y) (omega arith) ∙ B.below (place y) h in
                (ap (λ (s : State). s.c) e, λ ny. value-eq forked.states n1.states y e)))
            (λ y h. fl y (append_left f2.needs_linking h)),
        B.automaton m t
            (Agree-part lo (n2.top + 1) n1.top n2.top both f2.needs_linking forked.states n2.states
              m ag (omega arith) (omega arith) (λ y hi ny l. second_only y l ny)
              (λ y l h.
                let e = forked-below (place y) h in
                (ap (λ (s : State). s.c) e, λ ny. value-eq forked.states n2.states y e)))
            (λ y h. fl y (append_right f1.needs_linking h)),
      )

  pub Built-alt : Built (alt a b) lo m0 (record { state = n2.top; needs_linking = both }) forked
  Built-alt = record {
    top = let p = A.top in let q = B.top in omega arith;
    below = λ j h.
        let p = A.top in
        let q = B.top in forked-below j (omega arith) ∙ B.below j (omega arith) ∙ A.below j h;
    within = λ y h. let k = both-Within y h in omega arith;
    automaton = forked-Automaton;
  }

module _ (a : Regex) (lo : ℕ) (m0 : Memory) (f : Fragment) (n : Nfa) (pos : 0 < lo)
    (A : Built a lo m0 f n) where
  abbrev entry : State
  entry = state_of split_node f.state 0

  abbrev exit : List Slot
  exit = right_of n.top ∷ []

  exit-Within : (y : Slot) → Memᴰ y exit → (n.top ≤ place y) × (place y < n.top + 1)
  exit-Within y h = within_one y (right_of n.top) n.top refl h

  not_left : (xs : List Slot) → Within lo n.top xs → ¬ Memᴰ (left_of n.top) (xs ++ exit)
  not_left xs w h = elim (Mem-append (left_of n.top) xs exit h) [
    | inl l ↦ let k = w (left_of n.top) l in absurd (omega arith)
    | inr (here e) ↦ absurd (cc)
    | inr (there k) ↦ elim k [ ]
  ]

  abbrev optional : Nfa
  optional = allocated split_node f.state 0 n

  pub Built-opt :
      Built
        (opt a)
        lo
        m0
        (record { state = n.top; needs_linking = f.needs_linking ++ exit })
        optional
  Built-opt = record {
    top = let p = A.top in omega arith;
    below =
        λ j h. let p = A.top in write_state_ne n.top j entry n.states (omega arith) ∙ A.below j h;
    within = λ y h. elim (Mem-append y f.needs_linking exit h) [
      | inl l ↦ let k = A.within y l in omega arith
      | inr r ↦ let p = A.top in let k = exit-Within y r in omega arith
    ];
    automaton = λ m t ag fl.
        let p = A.top in
        let made = write_state_self n.top entry n.states in
        (
          f.state,
          Splits-made lo (n.top + 1) n.top f.state t (f.needs_linking ++ exit) optional.states m ag
              (omega arith) (omega arith) (omega arith) (not_left f.needs_linking A.within)
              (ap (λ (s : State). s.c) made) (ap (λ (s : State). s.left) made)
              (fl (right_of n.top) (append_right f.needs_linking (here refl))),
          A.automaton m t
              (Agree-part lo (n.top + 1) lo n.top (f.needs_linking ++ exit) f.needs_linking
                optional.states n.states m ag (omega arith) (omega arith)
                (λ y hi ny _ h. elim (Mem-append y f.needs_linking exit h) [
                  | inl l ↦ ny l
                  | inr r ↦ let k = exit-Within y r in absurd (omega arith)
                ])
                (λ y l h.
                  let e = write_state_ne n.top (place y) entry n.states h in
                  (ap (λ (s : State). s.c) e, λ ny. value-eq optional.states n.states y e)))
              (λ y h. fl y (append_left exit h)),
        );
  }

  -- the split of a loop, to which all that the body leaves open leads
  abbrev repeated : Nfa
  repeated = relinked f.needs_linking n.top (allocated split_node f.state 0 n)

  repeated-below : (j : ℕ) → j < lo → repeated.states j ≡ m0 j
  repeated-below j h =
      let p = A.top in
      link-below lo n.top f.needs_linking n.top (write_state n.top entry n.states) j A.within h
      ∙ write_state_ne n.top j entry n.states (omega arith)
      ∙ A.below j h

  module _ (m : Memory) (t : ℕ) (ag : Agree lo (n.top + 1) exit repeated.states m)
      (fl : Filled m exit t) where
    loop-Splits : Splits m n.top f.state t
    loop-Splits =
        let p = A.top in
        let made = write_state_self n.top entry n.states in
        Splits-made lo (n.top + 1) n.top f.state t exit repeated.states m ag (omega arith)
          (omega arith) (omega arith) (not_left [] (λ y h. elim h [ ]))
          (c-link f.needs_linking n.top (write_state n.top entry n.states) n.top
            ∙ ap (λ (s : State). s.c) made)
          (value-link_out f.needs_linking n.top (write_state n.top entry n.states) (left_of n.top)
              (λ h. not_left f.needs_linking A.within (append_left exit h))
            ∙ ap (λ (s : State). s.left) made)
          (fl (right_of n.top) (here refl))

    loop-Automaton : Automaton m f.state a n.top
    loop-Automaton =
        A.automaton m n.top
          (Agree-part lo (n.top + 1) lo n.top exit f.needs_linking repeated.states n.states m ag
            (omega arith) (omega arith)
            (λ y hi ny _ h. let k = exit-Within y h in absurd (omega arith))
            (λ y l h.
              let e = write_state_ne n.top (place y) entry n.states h in
              (
                c-link f.needs_linking n.top (write_state n.top entry n.states) (place y)
                    ∙ ap (λ (s : State). s.c) e,
                λ ny.
                    value-link_out f.needs_linking n.top (write_state n.top entry n.states) y ny
                    ∙ value-eq (write_state n.top entry n.states) n.states y e,
              )))
          (λ y h.
            let k = A.within y h in
            (ag y k.0 (omega arith)).1 (λ h'. let q = exit-Within y h' in absurd (omega arith))
            ∙ value-link_in f.needs_linking n.top (write_state n.top entry n.states) y h)

  pub Built-star : Built (star a) lo m0 (record { state = n.top; needs_linking = exit }) repeated
  Built-star = record {
    top = let p = A.top in omega arith;
    below = repeated-below;
    within = λ y h. let p = A.top in let k = exit-Within y h in omega arith;
    automaton = λ m t ag fl. (f.state, loop-Splits m t ag fl, loop-Automaton m t ag fl);
  }

  pub Built-plus : Built (plus a) lo m0 (record { state = f.state; needs_linking = exit }) repeated
  Built-plus = record {
    top = let p = A.top in omega arith;
    below = repeated-below;
    within = λ y h. let p = A.top in let k = exit-Within y h in omega arith;
    automaton = λ m t ag fl. (n.top, loop-Splits m t ag fl, loop-Automaton m t ag fl);
  }
