-- ===== src/Base/Eqs.antt =====
-- Boolean equality as an interface: the `==` of the program's keys and texts.
use mathlib.Core.Path.{◌≡◌, refl}
use mathlib.Core.Logic.{◌≢◌, ◌↔◌}
use mathlib.Core.Bool.{Bool, true, false, ◌&&◌}
use mathlib.Core.List.{List, [], ◌∷◌}
use Prim.Native.Nat.{ℕ}
use native.Mathlib.Omega.{arith}
use gazon.Base.Tests.{nat_eq, nat_eq_iff}

-- What a type of keys offers: the test of `operator==`, which holds for equal keys only.
pub record Eq {ℓ} (K : Type ℓ) : Type ℓ where
  pub same : K → K → Bool
  pub same_iff : (j k : K) → (same j k ≡ true) ↔ (j ≡ k)

module _ {ℓ} {K : Type ℓ} ⦃keys : Eq K⦄ where
  infix 50 ◌==◌
  abbrev pub ◌==◌ : K → K → Bool
  j == k = keys.same j k

  pub eq_iff : (j k : K) → ((j == k) ≡ true) ↔ (j ≡ k)
  eq_iff = keys.same_iff

  pub eq_self : (k : K) → (k == k) ≡ true
  eq_self k = (keys.same_iff k k).1 refl

  pub eq_ne : (j k : K) → j ≢ k → (j == k) ≡ false
  eq_ne j k h = ground (arith, keys.same_iff j k)

instance abbrev pub nat_Eq : Eq ℕ
nat_Eq = record { same = nat_eq; same_iff = nat_eq_iff }

-- Two texts are equal when they have the same bytes.
unfoldable pub text_eq : List ℕ → List ℕ → Bool
text_eq [] [] = true
text_eq [] (c ∷ s) = false
text_eq (b ∷ r) [] = false
text_eq (b ∷ r) (c ∷ s) = nat_eq b c && text_eq r s

pub text_eq_iff : (r s : List ℕ) → (text_eq r s ≡ true) ↔ (r ≡ s)
unfolding text_eq
text_eq_iff [] [] = ground arith
text_eq_iff [] (c ∷ s) = ground arith
text_eq_iff (b ∷ r) [] = ground arith
text_eq_iff (b ∷ r) (c ∷ s) = ground (arith, text_eq_iff r s)

instance abbrev pub text_Eq : Eq (List ℕ)
text_Eq = record { same = text_eq; same_iff = text_eq_iff }
