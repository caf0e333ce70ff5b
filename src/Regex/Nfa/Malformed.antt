-- ===== src/Regex/Nfa/Malformed.antt =====
-- `RegexNfa::from` of include/common/regexnfa.h on any bytes, against the number of operands.
use gazon.Base.{
  ℕ, ◌+◌, ◌≤◌, ◌<◌, ◌≡◌, ◌≢◌, refl, ap, subst, sym, List, [], ◌∷◌, Option, some, none, Text, length,
  arith,
}
use gazon.Errors.{ok, throw}
use gazon.Regex.Postfix.Arity.{after_byte, operands}
use gazon.Regex.Nfa.{
  Nfa, Fragment, Outcome, match_node, max_size, add_byte, build, then_build, from, close_nfa,
  invalid,
}
use gazon.Regex.Nfa.Construct.{allocated, allocate-allocated}
use gazon.Regex.Nfa.Operands.{Fits, add_byte-Fits}

operands-none : (bytes : Text) → operands none bytes ≡ none
unfolding operands
operands-none [] = refl
operands-none (c ∷ bytes) = refl

Fits-more : (o : Option ℕ) (a b : ℕ) (out : Outcome) → a ≤ b → Fits o a out → Fits o b out
Fits-more none a b out h e = e
Fits-more (some k) a b out h (fs, n, e, len, lt) = (fs, n, e, len, omega arith)

build-Fits :
    (bytes : Text) (fs : List Fragment) (n : Nfa)
    → n.top + length bytes ≤ max_size
    → Fits (operands (some (length fs)) bytes) (n.top + length bytes) (build bytes fs n)
unfolding build operands
build-Fits [] fs n h = (fs, n, refl, refl, omega arith)
build-Fits (c ∷ bytes) fs n h =
    go (after_byte c (length fs)) (add_byte-Fits c fs n (omega arith)) (build-Fits bytes)
  where
    go :
        (o : Option ℕ)
        → Fits o (n.top + 1) (add_byte c fs n)
        → ((fs' : List Fragment) (n' : Nfa)
            → n'.top + length bytes ≤ max_size
            → Fits
                (operands (some (length fs')) bytes)
                (n'.top + length bytes)
                (build bytes fs' n'))
        → Fits
            (operands o bytes)
            (n.top + length (c ∷ bytes))
            (then_build (add_byte c fs n) (build bytes))
    go none e rest =
        subst
          (λ (o : Option ℕ).
            Fits o (n.top + length (c ∷ bytes)) (then_build (add_byte c fs n) (build bytes)))
          (sym (operands-none bytes)) (rw e refl)
    go (some k) (fs', n', e, len, lt) rest =
        subst
          (λ (j : ℕ).
            Fits (operands (some j) bytes) (n.top + length (c ∷ bytes))
              (then_build (add_byte c fs n) (build bytes)))
          len
          (rw e (
            Fits-more (operands (some (length fs')) bytes) (n'.top + length bytes)
              (n.top + length (c ∷ bytes)) (build bytes fs' n') (omega arith)
              (rest fs' n' (omega arith))))

-- Whatever bytes `from` is given, if there is room for a state for each and one more: it returns
-- when every operator finds its operands and one operand is left, and otherwise throws the
-- exception for an invalid postfix expression.
pub from_outcome :
    (bytes : Text) (n : Nfa)
    → n.top + length bytes < max_size
    → (operands (some 0) bytes ≡ some 1 → (n' : Nfa) × (from bytes n ≡ some (ok n')))
      × (operands (some 0) bytes ≢ some 1 → from bytes n ≡ some (throw invalid))
unfolding from close_nfa
from_outcome bytes n h = go (operands (some 0) bytes) (build-Fits bytes [] n (omega arith))
  where
    one : (k : ℕ) → ◌≡◌ {A = Option ℕ} (some k) (some 1) → k ≡ 1
    one k e = cc

    finished :
        (f : Fragment) (n' : Nfa)
        → build bytes [] n ≡ some (ok (f ∷ [], n'))
        → n'.top < max_size
        → from bytes n ≡ close_nfa n'.top (f ∷ []) (allocated match_node 0 0 n')
    finished f n' e lt = rw e (rw (allocate-allocated match_node 0 0 n' lt) refl)

    go :
        (o : Option ℕ)
        → Fits o (n.top + length bytes) (build bytes [] n)
        → (o ≡ some 1 → (n' : Nfa) × (from bytes n ≡ some (ok n')))
          × (o ≢ some 1 → from bytes n ≡ some (throw invalid))
    go none e = (λ k. absurd (cc), λ _. rw e refl)
    go (some k) ([], n', e, len, lt) = (
      λ j. absurd (omega (arith, one k j)),
      λ _. rw e (rw (allocate-allocated match_node 0 0 n' (omega arith)) refl),
    )
    go (some k) (f ∷ [], n', e, len, lt) =
        (λ _. (_, finished f n' e (omega arith)), λ no. absurd (no (ap some (sym len))))
    go (some k) (f ∷ f' ∷ fs, n', e, len, lt) = (
      λ j. absurd (omega (arith, one k j)),
      λ _. rw e (rw (allocate-allocated match_node 0 0 n' (omega arith)) refl),
    )
