-- ===== src/Regex/Nfa/Marks.antt =====
-- The marks `last_step_seen` of include/common/regexnfa.h, and what a visit adds to a list of states.
use gazon.Base.{
  ℕ, zero, suc, ◌+◌, ◌≤◌, ◌<◌, ◌≡◌, ◌≢◌, ◌↔◌, ◌⊎◌, inl, inr, refl, ap, sym, ◌∙◌, Bool, true, false,
  ◌||◌, Bool-cases, subst, List, [], ◌∷◌, ◌++◌, Memᴰ, here, there, append_left, append_right,
  Mem-append, Text, nat_eq, if◌then◌else◌, arith,
}
use gazon.Regex.Nfa.{Memory, split_node, match_node}
use gazon.Regex.Nfa.Graph.{Accepts}
use gazon.Regex.Nfa.Run.{mark}

-- The memories differ in marks only.
abbrev pub SameShape : Memory → Memory → Type 0
SameShape g m =
    (i : ℕ) → ((m i).c ≡ (g i).c) × ((m i).left ≡ (g i).left) × ((m i).right ≡ (g i).right)

pub mark-SameShape : (g m : Memory) (uid p : ℕ) → SameShape g m → SameShape g (mark uid p m)
mark-SameShape g m uid p h i = ground (arith, h i, h p)

-- the states below `k` that are not marked
abbrev pub unseen : ℕ → Memory → ℕ → ℕ
unseen uid m zero = 0
unseen uid m (suc k) = unseen uid m k + (if nat_eq (m k).last_step_seen uid then 0 else 1)

-- What is marked stays marked.
abbrev pub Keeps : ℕ → Memory → Memory → Type 0
Keeps uid m m' = (i : ℕ) → (m i).last_step_seen ≡ uid → (m' i).last_step_seen ≡ uid

pub unseen_le : (uid : ℕ) (m : Memory) (k : ℕ) → unseen uid m k ≤ k
unseen_le uid m zero = omega arith
unseen_le uid m (suc k) = ground (arith, unseen_le uid m k)

pub unseen-Keeps :
    (uid : ℕ) (m m' : Memory) (k : ℕ) → Keeps uid m m' → unseen uid m' k ≤ unseen uid m k
unseen-Keeps uid m m' zero h = omega arith
unseen-Keeps uid m m' (suc k) h = ground (arith, unseen-Keeps uid m m' k h, h k)

pub mark-Keeps : (uid p : ℕ) (m : Memory) → Keeps uid m (mark uid p m)
mark-Keeps uid p m i h = ground arith

pub unseen-mark :
    (uid p : ℕ) (m : Memory) (k : ℕ)
    → p < k
    → (m p).last_step_seen ≢ uid
    → unseen uid (mark uid p m) k < unseen uid m k
unseen-mark uid p m zero h n = absurd (omega arith)
unseen-mark uid p m (suc k) h n =
    ground (arith, unseen-mark uid p m k, unseen-Keeps uid m (mark uid p m) k (mark-Keeps uid p m))

-- `g` has the shape of all memories, `top` states are allocated, and the step is `uid`.
module _ (g : Memory) (top uid : ℕ) where
  abbrev pub Marked : Memory → ℕ → Type 0
  Marked m i = (0 < i) × (i < top) × ((m i).last_step_seen ≡ uid)

  -- a state that the visit has reached, or no state
  abbrev pub Reached : Memory → ℕ → Type 0
  Reached m i = (i ≡ 0) ⊎ Marked m i

  -- The list `out'` has what was marked since, which is closed under the successors of splits and
  -- accepts texts of `Q` only, and `b` tells whether a match state was reached.
  pub record Added (Q : Text → Type 0) (m : Memory) (out : List ℕ) (m' : Memory) (out' : List ℕ)
      (b : Bool) : Type 0 where
    pub shape : SameShape g m'
    pub kept : Keeps uid m m'
    pub marks :
        (i : ℕ) → ((m' i).last_step_seen ≡ (m i).last_step_seen) ⊎ ((m' i).last_step_seen ≡ uid)
    pub old : (i : ℕ) → Memᴰ i out → Memᴰ i out'
    pub closed :
        (i : ℕ)
        → Marked m' i
        → Marked m i
          ⊎ (Memᴰ i out'
              × ((g i).c ≡ split_node → Reached m' (g i).left × Reached m' (g i).right)
              × ((g i).c ≡ match_node → b ≡ true))
    pub origin :
        (i : ℕ) → Memᴰ i out' → Memᴰ i out ⊎ (Marked m' i × ((s : Text) → Accepts g i s → Q s))
    pub sees : b ≡ true → (i : ℕ) × Marked m' i × ((g i).c ≡ match_node)

  pub Reached-Keeps : (m m' : Memory) (i : ℕ) → Keeps uid m m' → Reached m i → Reached m' i
  Reached-Keeps m m' i k (inl e) = inl e
  Reached-Keeps m m' i k (inr (a, b, e)) = inr (a, b, k i e)

  pub Added-refl :
      (Q : Text → Type 0) (m : Memory) (out : List ℕ) → SameShape g m → Added Q m out m out false
  Added-refl Q m out h = record {
    shape = h;
    kept = λ i e. e;
    marks = λ i. inl refl;
    old = λ i e. e;
    closed = λ i e. inl e;
    origin = λ i e. inl e;
    sees = λ e. absurd (cc);
  }

  pub Added-weaken :
      (P Q : Text → Type 0) (m : Memory) (out : List ℕ) (m' : Memory) (out' : List ℕ) (b : Bool)
      → ((s : Text) → P s → Q s)
      → Added P m out m' out' b
      → Added Q m out m' out' b
  Added-weaken P Q m out m' out' b f A = record {
    shape = A.shape;
    kept = A.kept;
    marks = A.marks;
    old = A.old;
    closed = A.closed;
    origin =
        λ i h. elim (A.origin i h) [ inl o ↦ inl o | inr (k, q) ↦ inr (k, λ s a. f s (q s a)) ];
    sees = A.sees;
  }

  pub Added-trans :
      (Q : Text → Type 0) (m : Memory) (out : List ℕ) (m1 : Memory) (out1 : List ℕ) (b1 : Bool)
      (m2 : Memory) (out2 : List ℕ) (b2 : Bool)
      → Added Q m out m1 out1 b1
      → Added Q m1 out1 m2 out2 b2
      → Added Q m out m2 out2 (b1 || b2)
  Added-trans Q m out m1 out1 b1 m2 out2 b2 A B = record {
    shape = B.shape;
    kept = λ i e. B.kept i (A.kept i e);
    marks = λ i. elim (B.marks i) [
      | inl e ↦ elim (A.marks i) [ inl e' ↦ inl (e ∙ e') | inr e' ↦ inr (e ∙ e') ]
      | inr e ↦ inr e
    ];
    old = λ i h. B.old i (A.old i h);
    closed = λ i h. elim (B.closed i h) [
      | inl h1 ↦ elim (A.closed i h1) [
        | inl h0 ↦ inl h0
        | inr (o, sp, ma) ↦ inr (
          B.old i o,
          λ e.
              let (l, r) = sp e in
              (Reached-Keeps m1 m2 (g i).left B.kept l, Reached-Keeps m1 m2 (g i).right B.kept r),
          λ e. let k = ma e in ground arith,
        )
      ]
      | inr (o, sp, ma) ↦ inr (o, sp, λ e. let k = ma e in ground arith)
    ];
    origin = λ i h. elim (B.origin i h) [
      | inl o ↦ elim (A.origin i o) [
        | inl o' ↦ inl o'
        | inr ((a, b, e), q) ↦ inr ((a, b, B.kept i e), q)
      ]
      | inr k ↦ inr k
    ];
    sees = λ e. elim (Bool-cases b1) [
      | inl t ↦ let (i, (a, b, k), c) = A.sees t in (i, (a, b, B.kept i k), c)
      | inr f ↦ B.sees (ground arith)
    ];
  }

  -- The state that was marked first is pushed after its successors.
  pub push-Added :
      (Q : Text → Type 0) (p : ℕ) (m : Memory) (out : List ℕ) (m' : Memory) (out' : List ℕ)
      (b is_match : Bool)
      → 0 < p
      → p < top
      → Added Q (mark uid p m) out m' out' b
      → ((g p).c ≡ split_node → Reached m' (g p).left × Reached m' (g p).right)
      → ((is_match ≡ true) ↔ ((g p).c ≡ match_node))
      → ((s : Text) → Accepts g p s → Q s)
      → Added Q m out m' (out' ++ (p ∷ [])) (b || is_match)
  push-Added Q p m out m' out' b is_match pos lt A sp im q = record {
    shape = A.shape;
    kept = λ i e. A.kept i (mark-Keeps uid p m i e);
    marks = λ i. elim (A.marks i) [
      | inl e ↦ elim (same i) [ inl e' ↦ inl (e ∙ e') | inr e' ↦ inr (e ∙ e') ]
      | inr e ↦ inr e
    ];
    old = λ i h. append_left (p ∷ []) (A.old i h);
    closed = λ i h. elim (A.closed i h) [
      | inl (a, c, e) ↦ elim (was i e) [
        | inl k ↦ inl (a, c, k)
        | inr k ↦ inr (
          append_right out' (here k),
          λ e'.
              subst (λ j. Reached m' (g j).left × Reached m' (g j).right) (sym k)
                (sp (sym (ap (λ j. (g j).c) k) ∙ e')),
          λ e'. let t = im.1 (sym (ap (λ j. (g j).c) k) ∙ e') in ground arith,
        )
      ]
      | inr (o, sp', ma) ↦ inr (append_left (p ∷ []) o, sp', λ e. let k = ma e in ground arith)
    ];
    origin = λ i h. elim (Mem-append i out' (p ∷ []) h) [
      | inl o ↦ elim (A.origin i o) [ inl o' ↦ inl o' | inr k ↦ inr k ]
      | inr (here e) ↦ inr (
        subst (Marked m') (sym e) (pos, lt, A.kept p (marked p m)),
        λ s a. q s (subst (λ j. Accepts g j s) e a),
      )
      | inr (there k) ↦ elim k [ ]
    ];
    sees = λ e. elim (Bool-cases b) [
      | inl t ↦ A.sees t
      | inr f ↦ (p, (pos, lt, A.kept p (marked p m)), im.0 (ground arith))
    ];
  }
    where
      was :
          (i : ℕ) → ((mark uid p m) i).last_step_seen ≡ uid → ((m i).last_step_seen ≡ uid) ⊎ (i ≡ p)
      was i e = ground arith

      marked : (p : ℕ) (m : Memory) → ((mark uid p m) p).last_step_seen ≡ uid
      marked p m = ground arith

      same :
          (i : ℕ)
          → ((mark uid p m i).last_step_seen ≡ (m i).last_step_seen)
            ⊎ ((mark uid p m i).last_step_seen ≡ uid)
      same i = ground arith
