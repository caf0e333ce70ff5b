-- ===== src/Regex/Nfa/Room.antt =====
-- `RegexNfa::from` of include/common/regexnfa.h on any bytes that leave room in `m_states`.
-- `allocateState` has no test for the end of the array.
use gazon.Base.{
  ℕ, ◌+◌, ◌<◌, ◌≡◌, ◌≢◌, subst, Bool-cases, inl, inr, nat_eq, nat_eq_iff, Option, some, none, Text,
  length,
}
use gazon.Errors.{Result, ok, throw}
use gazon.Regex.Postfix.Arity.{operands}
use gazon.Regex.Nfa.{Nfa, max_size, from, invalid}
use gazon.Regex.Nfa.Inside.{InBounds}
use gazon.Regex.Nfa.Bounds.{Connected, from-InBounds}
use gazon.Regex.Nfa.Malformed.{from_outcome}

returns_or_throws :
    (bytes : Text) (n : Nfa)
    → n.top + length bytes < max_size
    → (r : Result Nfa) × (from bytes n ≡ some r)
returns_or_throws bytes n h = go (operands (some 0) bytes) (from_outcome bytes n h)
  where
    some_one : (k : ℕ) → ◌≡◌ {A = Option ℕ} (some k) (some 1) → k ≡ 1
    some_one k e = cc

    go :
        (o : Option ℕ)
        → (o ≡ some 1 → (n' : Nfa) × (from bytes n ≡ some (ok n')))
          × (o ≢ some 1 → from bytes n ≡ some (throw invalid))
        → (r : Result Nfa) × (from bytes n ≡ some r)
    go none (f, g) = (throw invalid, g (λ e. cc))
    go (some k) (f, g) = elim (Bool-cases (nat_eq k 1)) [
      | inl t ↦ let one : k ≡ 1 = (nat_eq_iff k 1).0 t in let (n', e) = f (cc) in (ok n', e)
      | inr other ↦ (throw invalid, g (λ e. let t = (nat_eq_iff k 1).1 (some_one k e) in cc))
    ]

-- Whatever bytes `from` is given, if `m_state_top_ptr` is not 0, there is room for a state for each
-- byte and one more, and every pointer of an allocated state is null or leads to an allocated state
-- (and none was seen in a step to come): it writes inside `m_states` only, and returns or throws.
-- If it returns, the pointers are so again, and the start and the final state are allocated.
pub from_stays_inside :
    (bytes : Text) (n : Nfa)
    → InBounds n
    → n.top + length bytes < max_size
    → (r : Result Nfa) × (from bytes n ≡ some r) × Connected n.step_uid (some r)
from_stays_inside bytes n b h =
    let (r, e) = returns_or_throws bytes n h in
    (r, e, subst (Connected n.step_uid) e (from-InBounds bytes n b))
