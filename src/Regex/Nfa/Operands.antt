-- ===== src/Regex/Nfa/Operands.antt =====
-- The bytes of a postfix order and the stack of fragments of include/common/regexnfa.h.
use gazon.Base.{
  ℕ, ◌+◌, ◌≤◌, ◌<◌, ◌≡◌, ◌⊎◌, inl, inr, refl, subst, sym, true, List, [], ◌∷◌, Option, some, none,
  length, ltb, arith,
}
use gazon.Errors.{ok, throw}
use gazon.Regex.Postfix.{concat_char, pipe_char, zero_or_one, one_or_more, zero_or_more, any_char}
use gazon.Regex.Postfix.Arity.{after_byte}
use gazon.Regex.Nfa.{
  Nfa, Fragment, Outcome, any_node, max_size, add_byte, add_leaf, add_concat, add_alternative,
  add_optional, add_star, add_plus, invalid,
}
use gazon.Regex.Nfa.Construct.{allocated, allocate-allocated, leaf_fragment}
use gazon.Regex.Nfa.Compile.{
  add_byte-plain, add_byte-cat, add_byte-alt, add_byte-opt, add_byte-star, add_byte-plus,
}

-- The outcome has as many fragments as there are operands, and at most `room` states; if operands
-- lack, the exception was thrown.
abbrev pub Fits : Option ℕ → ℕ → Outcome → Type 0
Fits none room o = o ≡ some (throw invalid)
Fits (some k) room o =
    (fs : List Fragment) × (n : Nfa) × (o ≡ some (ok (fs, n))) × (length fs ≡ k) × (n.top ≤ room)

leaf-Fits :
    (c : ℕ) (fs : List Fragment) (n : Nfa)
    → n.top < max_size
    → Fits (some (length fs + 1)) (n.top + 1) (add_leaf c fs n)
unfolding add_leaf
leaf-Fits c fs n h = (
  leaf_fragment n.top ∷ fs,
  allocated c 0 0 n,
  rw (allocate-allocated c 0 0 n h) refl,
  omega arith,
  omega arith,
)

concat-Fits :
    (fs : List Fragment) (n : Nfa)
    → Fits (after_byte concat_char (length fs)) (n.top + 1) (add_byte concat_char fs n)
unfolding add_byte add_concat
concat-Fits [] n = refl
concat-Fits (e ∷ []) n = refl
concat-Fits (e2 ∷ e1 ∷ fs) n =
    let t : ltb 1 (length (e2 ∷ e1 ∷ fs)) ≡ true = ground arith in
    rw t (_, _, add_byte-cat e1 e2 n fs, omega arith, omega arith)

pipe-Fits :
    (fs : List Fragment) (n : Nfa)
    → n.top < max_size
    → Fits (after_byte pipe_char (length fs)) (n.top + 1) (add_byte pipe_char fs n)
unfolding add_byte add_alternative
pipe-Fits [] n h = refl
pipe-Fits (e ∷ []) n h = refl
pipe-Fits (e2 ∷ e1 ∷ fs) n h =
    let t : ltb 1 (length (e2 ∷ e1 ∷ fs)) ≡ true = ground arith in
    rw t (_, _, add_byte-alt e1 e2 n fs h, omega arith, omega arith)

optional-Fits :
    (fs : List Fragment) (n : Nfa)
    → n.top < max_size
    → Fits (after_byte zero_or_one (length fs)) (n.top + 1) (add_byte zero_or_one fs n)
unfolding add_byte add_optional
optional-Fits [] n h = refl
optional-Fits (e ∷ fs) n h =
    let t : ltb 0 (length (e ∷ fs)) ≡ true = ground arith in
    rw t (_, _, add_byte-opt e n fs h, omega arith, omega arith)

star-Fits :
    (fs : List Fragment) (n : Nfa)
    → n.top < max_size
    → Fits (after_byte zero_or_more (length fs)) (n.top + 1) (add_byte zero_or_more fs n)
unfolding add_byte add_star
star-Fits [] n h = refl
star-Fits (e ∷ fs) n h =
    let t : ltb 0 (length (e ∷ fs)) ≡ true = ground arith in
    rw t (_, _, add_byte-star e n fs h, omega arith, omega arith)

plus-Fits :
    (fs : List Fragment) (n : Nfa)
    → n.top < max_size
    → Fits (after_byte one_or_more (length fs)) (n.top + 1) (add_byte one_or_more fs n)
unfolding add_byte add_plus
plus-Fits [] n h = refl
plus-Fits (e ∷ fs) n h =
    let t : ltb 0 (length (e ∷ fs)) ≡ true = ground arith in
    rw t (_, _, add_byte-plus e n fs h, omega arith, omega arith)

-- the bytes of the operators, and the others
operator_cases :
    (c : ℕ)
    → (c ≡ any_char)
      ⊎ (c ≡ concat_char)
      ⊎ (c ≡ pipe_char)
      ⊎ (c ≡ zero_or_one)
      ⊎ (c ≡ zero_or_more)
      ⊎ (c ≡ one_or_more)
      ⊎ ((c ≡ 0) ⊎ (6 < c))
operator_cases c = ground arith

after_byte-plain : (c k : ℕ) → (c ≡ 0) ⊎ (6 < c) → after_byte c k ≡ some (k + 1)
after_byte-plain c k h = ground arith

pub add_byte-Fits :
    (c : ℕ) (fs : List Fragment) (n : Nfa)
    → n.top < max_size
    → Fits (after_byte c (length fs)) (n.top + 1) (add_byte c fs n)
unfolding add_byte
add_byte-Fits c fs n h = go (operator_cases c)
  where
    at :
        (d : ℕ)
        → c ≡ d
        → Fits (after_byte d (length fs)) (n.top + 1) (add_byte d fs n)
        → Fits (after_byte c (length fs)) (n.top + 1) (add_byte c fs n)
    at d e k =
        subst (λ (x : ℕ). Fits (after_byte x (length fs)) (n.top + 1) (add_byte x fs n)) (sym e) k

    go :
        (c ≡ any_char)
          ⊎ (c ≡ concat_char)
          ⊎ (c ≡ pipe_char)
          ⊎ (c ≡ zero_or_one)
          ⊎ (c ≡ zero_or_more)
          ⊎ (c ≡ one_or_more)
          ⊎ ((c ≡ 0) ⊎ (6 < c))
        → Fits (after_byte c (length fs)) (n.top + 1) (add_byte c fs n)
    go (inl e) = at any_char e (leaf-Fits any_node fs n h)
    go (inr (inl e)) = at concat_char e (concat-Fits fs n)
    go (inr (inr (inl e))) = at pipe_char e (pipe-Fits fs n h)
    go (inr (inr (inr (inl e)))) = at zero_or_one e (optional-Fits fs n h)
    go (inr (inr (inr (inr (inl e))))) = at zero_or_more e (star-Fits fs n h)
    go (inr (inr (inr (inr (inr (inl e)))))) = at one_or_more e (plus-Fits fs n h)
    go (inr (inr (inr (inr (inr (inr p)))))) =
        subst (λ (x : Option ℕ). Fits x (n.top + 1) (add_byte c fs n))
          (sym (after_byte-plain c (length fs) p))
          (subst (Fits (some (length fs + 1)) (n.top + 1)) (sym (add_byte-plain c fs n p))
            (leaf-Fits c fs n h))
