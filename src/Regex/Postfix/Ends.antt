-- ===== src/Regex/Postfix/Ends.antt =====
-- The fuel of the loop of `parseRepetitions` of include/common/regexpostfix.h, and the index at
-- which it ends.
use gazon.Base.{
  ℕ, zero, suc, ◌+◌, ◌-◌, ◌≤◌, ◌<◌, ◌≡◌, refl, Bool, true, false, not, ◌&&◌, Option, none, some,
  Text, codes, length, char_at, substr, ltb, nat_eq, if◌then◌else◌, arith, Bool-cases, inl, inr,
}
use gazon.Errors.{Result, ok, throw}
use gazon.Numbers.{ℤ, pos, negsuc, int_max, stoi}
use gazon.Scan.{skip_empty_chars, skip_until}
use gazon.Scan.Skip.{le-skip_loop}
use gazon.Regex.Postfix.{
  Repetitions, goes_on, returns, fails, close_repetitions, read_number, check_bounds,
  repetition_step, repetition_loop, parse_repetitions, invalid_syntax,
}

-- A round goes on behind `i`, or returns an index that is not before `i`, with bounds in order.
abbrev pub Ahead : ℕ → Repetitions → Type 0
Ahead i (goes_on j saw low high) = i < j
Ahead i (returns j a b) = (i ≤ j) × (a ≤ b)
Ahead i (fails e) = Unit

abbrev pub Bounded : ℕ → Result (ℕ × (ℕ × ℕ)) → Type 0
Bounded i (ok (j, (a, b))) = (i ≤ j) × (a ≤ b)
Bounded i (throw e) = Unit

either_Ahead :
    (i : ℕ) (b : Bool) (x y : Repetitions)
    → (b ≡ true → Ahead i x)
    → (b ≡ false → Ahead i y)
    → Ahead i (if b then x else y)
either_Ahead i true x y hx hy = hx refl
either_Ahead i false x y hx hy = hy refl

close-Ahead : (i j : ℕ) (low high : ℤ) → i ≤ j → Ahead i (close_repetitions j low high)
unfolding close_repetitions check_bounds
close-Ahead i j (pos a) (pos b) h = elim (Bool-cases (ltb b a)) [
  | inl e ↦ rw (e, Ahead) tt
  | inr e ↦ rw (e, Ahead) (h, ground arith)
]
close-Ahead i j (negsuc a) (pos b) h = tt
close-Ahead i j (negsuc a) (negsuc b) h = tt
close-Ahead i j (pos a) (negsuc b) h = tt

number-Ahead :
    (i stop : ℕ) (saw : Bool) (low high : ℤ) (o : Option ℤ)
    → ((n : ℤ) → o ≡ some n → i < stop)
    → Ahead i (read_number stop saw low high o)
unfolding read_number
number-Ahead i stop saw low high none h = tt
number-Ahead i stop true low high (some n) h = h n refl
number-Ahead i stop false low high (some n) h = h n refl

-- no number is read from no byte
number_takes_bytes : (s : Text) (start n : ℕ) (z : ℤ) → stoi (substr s start n) ≡ some z → 0 < n
unfolding stoi
number_takes_bytes s start zero z h = absurd (cc)
number_takes_bytes s start (suc n) z h = omega arith

le-skip_empty_chars : (i : ℕ) (s : Text) → i ≤ skip_empty_chars i s
unfolding skip_empty_chars
le-skip_empty_chars i s = le-skip_loop _ (length s - i) i

step-Ahead :
    (s : Text) (i : ℕ) (saw : Bool) (low high : ℤ) → Ahead i (repetition_step s i saw low high)
unfolding repetition_step
step-Ahead s i saw low high =
    either_Ahead i (nat_eq (char_at s start) b'}') _ _
      (λ e. close-Ahead i start low (if saw then high else low) (le-skip_empty_chars i s))
      (λ e.
        either_Ahead i (nat_eq (char_at s start) b',' && not saw) _ _
          (λ f. omega (arith, le-skip_empty_chars i s))
          (λ f. number-Ahead i stop saw low high (stoi (substr s start (stop - start))) (λ n g.
            omega (arith, le-skip_empty_chars i s, number_takes_bytes s start (stop - start) n g))))
  where
    start : ℕ
    start = skip_empty_chars i s

    stop : ℕ
    stop = skip_until start s (codes ",}")

-- the fuel is more than the bytes that are left
abbrev Fueled : ℕ → Text → Repetitions → Type 0
Fueled fuel s (goes_on i saw low high) = (length s < fuel + i) × (0 < fuel)
Fueled fuel s (returns i a b) = Unit
Fueled fuel s (fails e) = Unit

weaken :
    (fuel i : ℕ) (s : Text) (x : Repetitions)
    → length s < suc fuel + i
    → i < length s
    → Ahead i x
    → Fueled fuel s x
weaken fuel i s (goes_on j saw low high) h l a = (omega arith, omega arith)
weaken fuel i s (returns j p q) h l a = tt
weaken fuel i s (fails e) h l a = tt

-- not before `low`
abbrev From : ℕ → Repetitions → Type 0
From low (goes_on j saw a b) = low ≤ j
From low (returns j a b) = (low ≤ j) × (a ≤ b)
From low (fails e) = Unit

later : (low i : ℕ) (x : Repetitions) → low ≤ i → Ahead i x → From low x
later low i (goes_on j saw a b) h k = omega arith
later low i (returns j a b) h k = (omega (arith, k.0), k.1)
later low i (fails e) h k = tt

repetition_loop_ends :
    (fuel low : ℕ) (s : Text) (x : Repetitions)
    → Fueled fuel s x
    → From low x
    → (r : Result (ℕ × (ℕ × ℕ))) × (repetition_loop fuel s x ≡ some r) × Bounded low r
unfolding repetition_loop
repetition_loop_ends fuel low s (returns i a b) h k = (ok (i, (a, b)), refl, k)
repetition_loop_ends fuel low s (fails e) h k = (throw e, refl, tt)
repetition_loop_ends zero low s (goes_on i saw a b) h k =
    (throw invalid_syntax, absurd (omega (arith, h.1)), tt)
repetition_loop_ends (suc fuel) low s (goes_on i saw a b) h k =
    elim (Bool-cases (ltb i (length s))) [
      | inl e ↦
          let ahead = step-Ahead s i saw a b in
          let (r, run, bound) =
            repetition_loop_ends fuel low s (repetition_step s i saw a b)
              (weaken fuel i s (repetition_step s i saw a b) h.0 (ground arith) ahead)
              (later low i (repetition_step s i saw a b) k ahead) in
          (r, rw e run, bound)
      | inr e ↦ (throw invalid_syntax, rw e refl, tt)
    ]

-- `parseRepetitions` ends for every text and index: it throws, or returns an index that is not
-- before the one given and two numbers of which the first is not greater than the second.
pub parse_repetitions_total :
    (s : Text) (i : ℕ) → (r : Result (ℕ × (ℕ × ℕ))) × (parse_repetitions s i ≡ some r) × Bounded i r
unfolding parse_repetitions
parse_repetitions_total s i =
    repetition_loop_ends (suc (length s)) i s (goes_on i false (pos 0) (pos int_max))
      (omega arith, omega arith) (omega arith)
