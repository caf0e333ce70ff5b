-- ===== src/Command/Tokens.antt =====
-- The loop of `commandFromInput` of src/common/command.cpp, and lines that are rendered.
pub mod Words
pub mod Lines
use gazon.Base.{
  ℕ, zero, suc, ◌+◌, ◌-◌, ◌≤◌, ◌<◌, ◌≡◌, ◌≢◌, refl, sym, ap, ◌∙◌, Bool, true, false, not, List, [],
  ◌∷◌, ◌++◌, Option, none, some, ◌⊎◌, inl, inr, Text, length, char_at, substr, Bool-cases, nat_eq,
  nat_eq_iff, ltb, leb, is_space, if◌then◌else◌, arith,
}
use gazon.Errors.{Result, ok, throw, ◌>>=◌, out_of_range}
use gazon.Scan.{
  skip_loop, skip_empty_chars, skip_non_empty_chars, skip_arg, in_single, in_double, single_quote,
  double_quote,
}
use gazon.Scan.Skip.{le-skip_loop, skip_loop-le, skip_loop_stops, skip_loop_moves}
use gazon.Command.{
  arg_text, collect, keep_arg, parse_args, command_from_input, create, name_stop, command_name,
}

-- past the end the byte is NUL
char_at_end : (s : Text) (i : ℕ) → length s ≤ i → char_at s i ≡ 0
char_at_end [] i h = refl
char_at_end (c ∷ s) zero h = absurd (omega arith)
char_at_end (c ∷ s) (suc i) h = char_at_end s i (omega arith)

skip_empty_bounds :
    (start : ℕ) (s : Text)
    → start ≤ length s
    → (start ≤ skip_empty_chars start s)
      × (skip_empty_chars start s ≤ length s)
      × ((skip_empty_chars start s ≡ length s)
          ⊎ (is_space (char_at s (skip_empty_chars start s)) ≡ false))
unfolding skip_empty_chars
skip_empty_bounds start s h =
    let test = λ (i : ℕ). is_space (char_at s i) in
    (
      le-skip_loop test (length s - start) start,
      omega (arith, skip_loop-le test (length s - start) start),
      stops (skip_loop_stops test (length s - start) start),
    )
  where
    stops :
        {e : ℕ} {b : Bool}
        → (e ≡ start + (length s - start)) ⊎ (b ≡ false)
        → (e ≡ length s) ⊎ (b ≡ false)
    stops (inl e) = inl (omega arith)
    stops (inr f) = inr f

-- what `skip_arg` may return: the end behind a closing quote, or the end of a plain word
skip_arg_cases :
    (b : ℕ) (s : Text)
    → ((e : ℕ) × (skip_arg b s ≡ (e + 1, true)) × (b < e) × (char_at s b ≢ 0))
      ⊎ (skip_arg b s ≡ (skip_non_empty_chars b s, false))
skip_arg_cases b s = elim (Bool-cases (nat_eq (char_at s b) single_quote)) [
  | inl q ↦
      let e = skip_loop (in_single s) (length s - (b + 1)) (b + 1) (b + 1) in
      let far = le-skip_loop (in_single s) (length s - (b + 1)) (b + 1) in
      inl (e, unfold skip_arg in rw (q, skip_arg), omega arith, ground arith)
  | inr q ↦ elim (Bool-cases (nat_eq (char_at s b) double_quote)) [
    | inl d ↦
        let e = skip_loop (in_double s) (length s - (b + 1)) (b + 1) (b + 1) in
        let far = le-skip_loop (in_double s) (length s - (b + 1)) (b + 1) in
        inl (e, unfold skip_arg in rw (q, d, skip_arg), omega arith, ground arith)
    | inr d ↦ inr (unfold skip_arg in rw (q, d, skip_arg))
  ]
]

-- One round of the loop: `substr` is in range, and the next start lies further on.
abbrev FineRound : Text → ℕ → ℕ → Type 0
FineRound s start b =
    (arg : Text) × (arg_text s b (skip_arg b s).0 (skip_arg b s).1 ≡ some arg)
    × (start < (skip_arg b s).0)

fine_round :
    (s : Text) (start : ℕ) → start < length s → FineRound s start (skip_empty_chars start s)
fine_round s start h =
    let b = skip_empty_chars start s in
    let (le, ge, stop) = skip_empty_bounds start s (omega arith) in
    go b le ge stop (skip_arg_cases b s)
  where
    plain :
        (b : ℕ)
        → start ≤ b
        → (b ≡ length s) ⊎ (is_space (char_at s b) ≡ false)
        → b ≤ length s
        → start < skip_non_empty_chars b s
    plain b le (inl e) ge =
        unfold skip_non_empty_chars in
        omega (arith, le-skip_loop (λ i. not (is_space (char_at s i))) (length s - b) b)
    plain b le (inr f) ge = elim (Bool-cases (ltb b (length s))) [
      | inl lt ↦
          unfold skip_non_empty_chars in
          omega (
            arith,
            skip_loop_moves (λ i. not (is_space (char_at s i))) (length s - b) b (ground arith)
                (rw f refl),
          )
      | inr no' ↦
          unfold skip_non_empty_chars in
          omega
            (arith, le-skip_loop (λ i. not (is_space (char_at s i))) (length s - b) b, ge-of b no')
    ]
      where
        ge-of : (b : ℕ) → ltb b (length s) ≡ false → length s ≤ b
        ge-of b h = ground arith

    go :
        (b : ℕ)
        → start ≤ b
        → b ≤ length s
        → (b ≡ length s) ⊎ (is_space (char_at s b) ≡ false)
        → ((e : ℕ) × (skip_arg b s ≡ (e + 1, true)) × (b < e) × (char_at s b ≢ 0))
          ⊎ (skip_arg b s ≡ (skip_non_empty_chars b s, false))
        → FineRound s start b
    go b le ge stop (inl (e, eq, far, quote)) =
        let inside : b < length s = ground (arith, char_at_end s b) in
        let fits : leb (b + 1) (length s) ≡ true = ground arith in
        (
          substr s (b + 1) (e + 1 - 1 - (b + 1)),
          rw eq (unfold arg_text in rw fits),
          rw eq (omega arith),
        )
    go b le ge stop (inr eq) =
        let fits : leb b (length s) ≡ true = ground arith in
        (
          substr s b (skip_non_empty_chars b s - b),
          rw eq (unfold arg_text in rw fits),
          rw eq (plain b le stop ge),
        )

-- With more fuel than bytes ahead the loop ends, and no call of `substr` is out of range.
pub parse_args_total :
    (fuel : ℕ) (s : Text) (start : ℕ)
    → length s < fuel + start
    → 0 < fuel
    → (args : List Text) × (parse_args fuel s start ≡ some args)
parse_args_total zero s start h k = absurd (omega arith)
parse_args_total (suc fuel) s start h k = elim (Bool-cases (ltb start (length s))) [
  | inr done ↦ ([], unfold parse_args in rw done)
  | inl more ↦
      let (arg, taken, moves) = fine_round s start (ground arith) in
      let (args, e) =
        parse_args_total fuel s (skip_arg (skip_empty_chars start s) s).0 (ground arith)
          (ground arith) in
      (keep_arg arg args, step arg taken args e more)
]
  where
    step :
        (arg : Text)
        → arg_text s
            (skip_empty_chars start s)
            (skip_arg (skip_empty_chars start s) s).0
            (skip_arg (skip_empty_chars start s) s).1
          ≡ some arg
        → (args : List Text)
        → parse_args fuel s (skip_arg (skip_empty_chars start s) s).0 ≡ some args
        → ltb start (length s) ≡ true
        → parse_args (suc fuel) s start ≡ some (keep_arg arg args)
    step arg taken args e more = unfold parse_args in rw (more, taken, e) refl

-- Whatever the line, the loop of `commandFromInput` ends with some arguments and no index out of
-- range; the call fails only where `create` finds no command of the name.
pub command_from_input_total :
    (input : Text)
    → (args : List Text) × (command_from_input input
        ≡ (create (command_name input) >>= λ c. ok (c, args)))
command_from_input_total input =
    let (args, e) =
      parse_args_total (suc (length input)) input (name_stop input) (omega arith) (omega arith) in
    (args, unfold command_from_input in rw e refl)
