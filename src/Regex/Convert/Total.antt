-- ===== src/Regex/Convert/Total.antt =====
-- The fuel of the loop of `convert` of include/common/regexpostfix.h.
use gazon.Base.{
  ℕ, zero, suc, ◌+◌, ◌≤◌, ◌<◌, ◌≡◌, refl, ap, sym, subst, Bool, true, false, List, [], ◌∷◌, Option,
  none, some, Text, length, char_at, ltb, nat_eq, if◌then◌else◌, arith, Bool-cases, inl, inr,
}
use gazon.Errors.{Result, ok, throw}
use gazon.Regex.Postfix.{
  RegexPostfix, StackElem, new_scope, is_unary, deal_with_unary, parse_repetitions,
}
use gazon.Regex.Postfix.Ends.{Bounded, parse_repetitions_total}
use gazon.Regex.Convert.{
  Round, stay, repeat_group, repeat_read, add_pipe, plain_round, close_round, convert_round,
  convert_loop, convert, finish,
}

-- a round that ends with an exception, or at an index that is not before `i`
abbrev NotBefore : ℕ → Round → Type 0
NotBefore i none = ⊥
NotBefore i (some (throw e)) = Unit
NotBefore i (some (ok (j, r))) = i ≤ j

either_NotBefore :
    (i : ℕ) (b : Bool) (x y : Round)
    → NotBefore i x
    → NotBefore i y
    → NotBefore i (if b then x else y)
either_NotBefore i true x y hx hy = hx
either_NotBefore i false x y hx hy = hy

stay-NotBefore : (i : ℕ) (r : Result RegexPostfix) → NotBefore i (stay i r)
stay-NotBefore i (ok r) = omega arith
stay-NotBefore i (throw e) = tt

group-NotBefore :
    (i j : ℕ) (start : Option ℕ) (low high : ℕ) (r : RegexPostfix)
    → i ≤ j
    → NotBefore i (some (repeat_group start j low high r))
unfolding repeat_group
group-NotBefore i j none low high r h = tt
group-NotBefore i j (some start) low high r h = h

repeat-NotBefore :
    (s : Text) (i : ℕ) (r : RegexPostfix)
    → NotBefore i (repeat_read (parse_repetitions s (i + 1)) r)
unfolding repeat_read
repeat-NotBefore s i r =
    let (read, run, bound) = parse_repetitions_total s (i + 1) in
    subst (λ o. NotBefore i (repeat_read o r)) (sym run) (go read bound)
  where
    go :
        (read : Result (ℕ × (ℕ × ℕ)))
        → Bounded (i + 1) read
        → NotBefore i (repeat_read (some read) r)
    go (throw e) bound = tt
    go (ok (j, (low, high))) bound =
        group-NotBefore i j r.current_scope.index_start_group low high r (omega (arith, bound.0))

plain_round-NotBefore : (s : Text) (i : ℕ) (r : RegexPostfix) → NotBefore i (plain_round s i r)
unfolding plain_round
plain_round-NotBefore s i r =
    either_NotBefore i (nat_eq (char_at s i) b'|') _ _ (stay-NotBefore i (add_pipe r)) (
      either_NotBefore i (nat_eq (char_at s i) 92) _ _ (omega arith) (
        either_NotBefore i (nat_eq (char_at s i) b'{') _ _ (repeat-NotBefore s i r) (
          either_NotBefore i (is_unary (char_at s i)) _ _
            (stay-NotBefore i (deal_with_unary (char_at s i) r)) (omega arith))))

close_round-NotBefore :
    (s : Text) (i : ℕ) (stack : List StackElem) (r : RegexPostfix)
    → NotBefore i (close_round s i stack r)
unfolding close_round
close_round-NotBefore s i [] r = plain_round-NotBefore s i r
close_round-NotBefore s i (scope ∷ stack) r =
    either_NotBefore i (nat_eq (char_at s i) b')') _ _ (omega arith) (plain_round-NotBefore s i r)

convert_round-NotBefore : (s : Text) (i : ℕ) (r : RegexPostfix) → NotBefore i (convert_round s i r)
unfolding convert_round
convert_round-NotBefore s i r =
    either_NotBefore i (nat_eq (char_at s i) b'(') _ _ (omega arith)
      (close_round-NotBefore s i r.stack r)

convert_loop_ends :
    (fuel : ℕ) (s : Text) (i : ℕ) (r : RegexPostfix)
    → length s < fuel + i
    → 0 < fuel
    → (out : Result RegexPostfix) × (convert_loop fuel s i r ≡ some out)
unfolding convert_loop
convert_loop_ends zero s i r h pos = absurd (omega arith)
convert_loop_ends (suc fuel) s i r h pos = elim (Bool-cases (ltb i (length s))) [
  | inr e ↦ (ok r, rw (e, convert_loop) refl)
  | inl e ↦
      let inside : i < length s = ground arith in
      let (out, run) =
        go (convert_round s i r) refl (convert_round-NotBefore s i r) inside
          (λ j r' l. convert_loop_ends fuel s (j + 1) r' (omega arith) (omega arith)) in
      (out, rw (e, convert_loop) run)
]
  where
    go :
        (round : Round)
        → convert_round s i r ≡ round
        → NotBefore i round
        → i < length s
        → ((j : ℕ) (r' : RegexPostfix)
            → i ≤ j
            → (out : Result RegexPostfix) × (convert_loop fuel s (j + 1) r' ≡ some out))
        → (out : Result RegexPostfix) × ((elim round [
          | none ↦ none
          | some (throw e) ↦ some (throw e)
          | some (ok (j, r')) ↦ convert_loop fuel s (j + 1) r'
        ])
            ≡ some out)
    go none eq h' l ends = absurd h'
    go (some (throw e)) eq h' l ends = (throw e, refl)
    go (some (ok (j, r'))) eq h' l ends = ends j r' h'

-- The conversion of a regular expression ends for every text, with a postfix expression or an
-- exception; neither its loop nor that of `parseRepetitions` runs for ever.
pub convert_total : (s : Text) → (out : Result Text) × (convert s ≡ some out)
unfolding convert
convert_total s =
    let (out, run) =
      convert_loop_ends (suc (length s)) s 0
        (record { postfix = []; stack = []; current_scope = new_scope }) (omega arith)
        (omega arith) in
    go out run
  where
    go :
        (out : Result RegexPostfix)
        → convert_loop
            (suc (length s))
            s
            0
            (record { postfix = []; stack = []; current_scope = new_scope })
          ≡ some out
        → (text : Result Text) × (convert s ≡ some text)
    go (ok r) run = (_, ap finish run)
    go (throw e) run = (throw e, ap finish run)
