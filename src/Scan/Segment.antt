-- ===== src/Scan/Segment.antt =====
-- A stretch of a text between two others: its bytes, its `substr`, and the loops that skip it.
use gazon.Base.{
  ℕ, zero, suc, ◌+◌, ◌-◌, ◌≤◌, ◌<◌, ◌≡◌, refl, ap, Bool, true, false, [], ◌∷◌, ◌++◌, ◌⊎◌, inl, inr,
  Text, length, length-append, char_at, substr, take, drop, All, arith,
}
use gazon.Scan.{skip_loop}
use gazon.Scan.Skip.{skip_loop_exact}

pub char_at-append : (p ys : Text) (i j : ℕ) → i ≡ length p + j → char_at (p ++ ys) i ≡ char_at ys j
char_at-append [] ys i j e = ap (char_at ys) (omega arith)
char_at-append (x ∷ p) ys zero j e = absurd (omega arith)
char_at-append (x ∷ p) ys (suc i) j e = char_at-append p ys i j (omega arith)

pub char_at-left : (a ys : Text) (j : ℕ) → j < length a → char_at (a ++ ys) j ≡ char_at a j
char_at-left [] ys j h = absurd (omega arith)
char_at-left (x ∷ a) ys zero h = refl
char_at-left (x ∷ a) ys (suc j) h = char_at-left a ys j (omega arith)

pub All-at :
    (f : ℕ → Bool) (b : Bool) (a : Text) (j : ℕ)
    → All (λ c. f c ≡ b) a
    → j < length a
    → f (char_at a j) ≡ b
All-at f b [] j h k = absurd (omega arith)
All-at f b (x ∷ a) zero h k = h.0
All-at f b (x ∷ a) (suc j) h k = All-at f b a j h.1 (omega arith)

pub drop-append : (p ys : Text) → drop (length p) (p ++ ys) ≡ ys
drop-append [] ys = refl
drop-append (x ∷ p) ys = drop-append p ys

pub take-append : (a ys : Text) → take (length a) (a ++ ys) ≡ a
take-append [] ys = refl
take-append (x ∷ a) ys = ap (◌∷◌ x) (take-append a ys)

pub substr_segment :
    (p a ys : Text) (i n : ℕ) → i ≡ length p → n ≡ length a → substr (p ++ (a ++ ys)) i n ≡ a
substr_segment p a ys i n e k = rw (e, k, drop-append p (a ++ ys)) (take-append a ys)

-- A loop that starts at a stretch whose bytes all pass, before a byte that fails or the end, stops
-- behind the stretch.
pub skip_segment :
    (f : ℕ → Bool) (p a ys : Text)
    → All (λ c. f c ≡ true) a
    → (ys ≡ []) ⊎ (f (char_at ys 0) ≡ false)
    → skip_loop
        (λ i. f (char_at (p ++ (a ++ ys)) i))
        (length (p ++ (a ++ ys)) - length p)
        (length p)
        (length p)
      ≡ length p + length a
skip_segment f p a ys h stop =
    skip_loop_exact (λ i. f (char_at (p ++ (a ++ ys)) i)) (length (p ++ (a ++ ys)) - length p)
      (length p) (length a) (room p a ys) passes (ends stop)
  where
    room : (p a ys : Text) → length a ≤ length (p ++ (a ++ ys)) - length p
    room p a ys = omega (arith, length-append p (a ++ ys), length-append a ys)

    passes : (j : ℕ) → j < length a → f (char_at (p ++ (a ++ ys)) (length p + j)) ≡ true
    passes j k =
        rw (char_at-append p (a ++ ys) (length p + j) j refl, char_at-left a ys j k)
          (All-at f true a j h k)

    ends :
        (ys ≡ []) ⊎ (f (char_at ys 0) ≡ false)
        → (length a ≡ length (p ++ (a ++ ys)) - length p)
          ⊎ (f (char_at (p ++ (a ++ ys)) (length p + length a)) ≡ false)
    ends (inl e) = inl (omega (arith, length-append p (a ++ ys), length-append a ys, ap length e))
    ends (inr e) = inr (
        rw
          (
            char_at-append p (a ++ ys) (length p + length a) (length a) refl,
            char_at-append a ys (length a) 0 (omega arith),
          )
          e)
