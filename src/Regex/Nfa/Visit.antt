-- ===== src/Regex/Nfa/Visit.antt =====
-- `addStateToStateList` of include/common/regexnfa.h: its fuel, and the states that no byte
-- separates.
use gazon.Base.{
  ℕ, zero, suc, ◌<◌, ◌≡◌, ◌≢◌, ◌↔◌, ◌⊎◌, inl, inr, refl, sym, ◌∙◌, Bool, true, false, ◌||◌, subst,
  List, [], ◌∷◌, ◌++◌, Option, some, Text, nat_eq, arith,
}
use gazon.Regex.Nfa.{Memory, split_node, match_node}
use gazon.Regex.Nfa.Graph.{Accepts, Splits}
use gazon.Regex.Nfa.Language.{through_left, through_right}
use gazon.Regex.Nfa.Inside.{StatesIn}
use gazon.Regex.Nfa.Run.{mark, Seen, add_state, then_seen, push_seen}
use gazon.Regex.Nfa.Marks.{
  SameShape, mark-SameShape, unseen, unseen-Keeps, unseen-mark, Reached, Reached-Keeps, Added,
  Added-refl, Added-weaken, Added-trans, push-Added,
}

module _ (g : Memory) (top uid : ℕ) where
  -- The code returned, and reached the state `p`.
  abbrev pub Visited : (Text → Type 0) → ℕ → Memory → List ℕ → Option Seen → Type 0
  Visited Q p m out o =
      (m' : Memory) × (out' : List ℕ) × (b : Bool) × (o ≡ some (m', out', b))
      × Added g top uid Q m out m' out' b
      × Reached g top uid m' p

  abbrev pub Visits : ℕ → Type 0
  Visits fuel =
      (p : ℕ) (m : Memory) (out : List ℕ)
      → SameShape g m
      → p < top
      → unseen uid m top < fuel
      → Visited (Accepts g p) p m out (add_state fuel uid p m out)

  is_match_iff :
      (p : ℕ) (m : Memory)
      → SameShape g m
      → (nat_eq (m p).c match_node ≡ true) ↔ ((g p).c ≡ match_node)
  is_match_iff p m h = ground (arith, h p)

  module _ (p : ℕ) (m : Memory) (out : List ℕ) (fuel : ℕ) (h : SameShape g m) (pos : 0 < p)
      (lt : p < top) where
    abbrev is_match : Bool
    is_match = nat_eq (m p).c match_node

    visit_seen :
        (m p).last_step_seen ≡ uid
        → Visited (Accepts g p) p m out (add_state (suc fuel) uid p m out)
    unfolding add_state
    visit_seen e = (
      m,
      out,
      is_match,
      ground arith,
      record {
        shape = h;
        kept = λ i k. k;
        marks = λ i. inl refl;
        old = λ i k. k;
        closed = λ i k. inl k;
        origin = λ i k. inl k;
        sees = λ k. (p, (pos, lt, e), (is_match_iff p m h).0 k);
      },
      inr (pos, lt, e),
    )

    visit_other :
        (m p).last_step_seen ≢ uid
        → (m p).c ≢ split_node
        → Visited (Accepts g p) p m out (add_state (suc fuel) uid p m out)
    unfolding add_state
    visit_other n ns = (
      mark uid p m,
      out ++ (p ∷ []),
      is_match,
      ground arith,
      push-Added g top uid (Accepts g p) p m out (mark uid p m) out false is_match pos lt
          (Added-refl g top uid (Accepts g p) (mark uid p m) out (mark-SameShape g m uid p h))
          (λ e. absurd (ns ((h p).0 ∙ e))) (is_match_iff p m h) (λ s a. a),
      inr (pos, lt, ground arith),
    )

    -- both successors of a split are visited, then the split is pushed
    module _ (n : (m p).last_step_seen ≢ uid) (sp : (m p).c ≡ split_node) where
      split_shape : Splits g p (g p).left (g p).right
      split_shape = let (c, l, r) = h p in (pos, sym c ∙ sp, refl, refl)

      split_returns :
          add_state (suc fuel) uid p m out
          ≡ push_seen p is_match (
              then_seen
                (add_state fuel uid (m p).left (mark uid p m) out)
                (add_state fuel uid (m p).right))
      unfolding add_state
      split_returns =
          let e0 : nat_eq p 0 ≡ false = ground arith in
          let e1 : nat_eq (m p).last_step_seen uid ≡ false = ground arith in
          let e2 : nat_eq (m p).c split_node ≡ true = ground arith in rw e0 (rw e1 (rw e2))

      -- what is added by the visits of both successors
      both-Added :
          (m1 : Memory) (out1 : List ℕ) (b1 : Bool) (m2 : Memory) (out2 : List ℕ) (b2 : Bool)
          → add_state fuel uid (m p).left (mark uid p m) out ≡ some (m1, out1, b1)
          → add_state fuel uid (m p).right m1 out1 ≡ some (m2, out2, b2)
          → Added g top uid (Accepts g (m p).left) (mark uid p m) out m1 out1 b1
          → Reached g top uid m1 (m p).left
          → Added g top uid (Accepts g (m p).right) m1 out1 m2 out2 b2
          → Reached g top uid m2 (m p).right
          → Visited (Accepts g p) p m out (add_state (suc fuel) uid p m out)
      both-Added m1 out1 b1 m2 out2 b2 e1 e2 A1 r1 A2 r2 =
          let (c, l, r) = h p in
          (
            m2,
            out2 ++ (p ∷ []),
            (b1 || b2) || is_match,
            split_returns ∙ rw e1 (rw e2),
            push-Added g top uid (Accepts g p) p m out m2 out2 (b1 || b2) is_match pos lt
                (Added-trans g top uid (Accepts g p) (mark uid p m) out m1 out1 b1 m2 out2 b2
                  (Added-weaken g top uid (Accepts g (m p).left) (Accepts g p) (mark uid p m) out m1
                    out1 b1
                    (λ s a.
                      through_left g p (g p).left (g p).right s split_shape
                        (subst (λ q. Accepts g q s) l a))
                    A1)
                  (Added-weaken g top uid (Accepts g (m p).right) (Accepts g p) m1 out1 m2 out2 b2
                    (λ s a.
                      through_right g p (g p).left (g p).right s split_shape
                        (subst (λ q. Accepts g q s) r a))
                    A2))
                (λ e. (
                  Reached-Keeps g top uid m1 m2 (g p).left A2.kept
                      (subst (Reached g top uid m1) l r1),
                  subst (Reached g top uid m2) r r2,
                ))
                (is_match_iff p m h) (λ s a. a),
            inr (pos, lt, A2.kept p (A1.kept p (ground arith))),
          )

      visit_split :
          Visits fuel
          → unseen uid m top < suc fuel
          → StatesIn top uid g
          → Visited (Accepts g p) p m out (add_state (suc fuel) uid p m out)
      visit_split visits f inside =
          let shape = h p in
          let bound = inside p pos lt in
          let fewer = unseen-mark uid p m top lt n in
          let (m1, out1, b1, e1, A1, r1) =
            visits (m p).left (mark uid p m) out (mark-SameShape g m uid p h) (omega arith)
              (omega arith) in
          let fewer' = unseen-Keeps uid (mark uid p m) m1 top A1.kept in
          let (m2, out2, b2, e2, A2, r2) =
            visits (m p).right m1 out1 A1.shape (omega arith) (omega arith) in
          both-Added m1 out1 b1 m2 out2 b2 e1 e2 A1 r1 A2 r2

  visit_null :
      (m : Memory) (out : List ℕ) (fuel : ℕ)
      → SameShape g m
      → Visited (Accepts g 0) 0 m out (add_state (suc fuel) uid 0 m out)
  unfolding add_state
  visit_null m out fuel h =
      (m, out, false, refl, Added-refl g top uid (Accepts g 0) m out h, inl refl)

  -- With more fuel than there are states that are not marked, `addStateToStateList` returns.
  pub add_state-Visits : StatesIn top uid g → (fuel : ℕ) → Visits fuel
  add_state-Visits inside zero p m out h lt f = absurd (omega arith)
  add_state-Visits inside (suc fuel) p m out h lt f = elim (null_cases p) [
    | inl e ↦
        subst (λ q. Visited (Accepts g q) q m out (add_state (suc fuel) uid q m out)) (sym e)
          (visit_null m out fuel h)
    | inr pos ↦ elim (eq_cases (m p).last_step_seen uid) [
      | inl e ↦ visit_seen p m out fuel h pos lt e
      | inr n ↦ elim (eq_cases (m p).c split_node) [
        | inl sp ↦ visit_split p m out fuel h pos lt n sp (add_state-Visits inside fuel) f inside
        | inr ns ↦ visit_other p m out fuel h pos lt n ns
      ]
    ]
  ]
    where
      null_cases : (p : ℕ) → (p ≡ 0) ⊎ (0 < p)
      null_cases p = ground arith

      eq_cases : (a b : ℕ) → (a ≡ b) ⊎ (a ≢ b)
      eq_cases a b = ground arith
