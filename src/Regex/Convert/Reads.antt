-- ===== src/Regex/Convert/Reads.antt =====
-- Rounds of the loop of `RegexPostfix::convert` of include/common/regexpostfix.h, one after the other.
use gazon.Base.{
  ℕ, zero, suc, ◌+◌, ◌<◌, ◌≡◌, ◌≢◌, refl, sym, ap, ◌∙◌, true, false, List, [], ◌∷◌, ◌++◌,
  append_assoc, some, Text, length, length-append, char_at, ltb, nat_eq, arith,
}
use gazon.Errors.{ok}
use gazon.Regex.Postfix.{RegexPostfix, StackElem, to_char, is_unary, deal_with_unary}
use gazon.Regex.Convert.{
  open_group, close_group, add_pipe, add_char, plain_round, close_round, convert_round,
  convert_loop,
}
use gazon.Regex.Convert.Syntax.{IsLiteral}

-- Where the bytes stand in the pattern, the rounds that read them lead from `r` to `r'`.
abbrev pub Runs : Text → RegexPostfix → RegexPostfix → Type 0
Runs bytes r r' =
    (s before rest : Text) (fuel fuel' i j : ℕ)
    → s ≡ before ++ (bytes ++ rest)
    → i ≡ length before
    → j ≡ i + length bytes
    → fuel ≡ length bytes + fuel'
    → convert_loop fuel s i r ≡ convert_loop fuel' s j r'

pub Runs-append :
    (xs ys : Text) (r r1 r2 : RegexPostfix) → Runs xs r r1 → Runs ys r1 r2 → Runs (xs ++ ys) r r2
Runs-append xs ys r r1 r2 h k s before rest fuel fuel' i j e ei ej ef =
    h s before (ys ++ rest) fuel (length ys + fuel') i (i + length xs)
      (e ∙ ap (λ (x : Text). before ++ x) (append_assoc xs ys rest)) ei refl
      (omega (arith, length-append {0} xs ys))
    ∙ k s (before ++ xs) rest (length ys + fuel') fuel' (i + length xs) j
        (e
          ∙ ap (λ (x : Text). before ++ x) (append_assoc xs ys rest)
          ∙ sym (append_assoc before xs (ys ++ rest)))
        (omega (arith, length-append {0} before xs)) (omega (arith, length-append {0} xs ys)) refl

char_at-append :
    (before : Text) (c : ℕ) (rest : Text) → char_at (before ++ (c ∷ rest)) (length before) ≡ c
char_at-append [] c rest = refl
char_at-append (b ∷ before) c rest = char_at-append before c rest

loop_step :
    (fuel : ℕ) (s : Text) (i : ℕ) (r r' : RegexPostfix)
    → i < length s
    → convert_round s i r ≡ some (ok (i, r'))
    → convert_loop (suc fuel) s i r ≡ convert_loop fuel s (i + 1) r'
unfolding convert_loop
loop_step fuel s i r r' h e =
    let t : ltb i (length s) ≡ true = ground arith in
    rw (t, convert_loop) (rw (e, convert_loop) refl)

-- a byte that a round of its own reads
pub Runs-byte :
    (c : ℕ) (r r' : RegexPostfix)
    → ((s : Text) (i : ℕ) → char_at s i ≡ c → convert_round s i r ≡ some (ok (i, r')))
    → Runs (c ∷ []) r r'
Runs-byte c r r' h s before rest zero fuel' i j e ei ej ef = absurd (omega arith)
Runs-byte c r r' h s before rest (suc fuel) fuel' i j e ei ej ef =
    loop_step fuel s i r r' inside (h s i at_byte)
    ∙ ap (λ (p : ℕ × ℕ). convert_loop p.0 s p.1 r') (λ k. (same_fuel k, sym ej k))
  where
    inside : i < length s
    inside = omega (arith, ap length e, length-append {0} before (c ∷ rest))

    at_byte : char_at s i ≡ c
    at_byte =
        ap (λ (p : Text × ℕ). char_at p.0 p.1) (λ k. (e k, ei k)) ∙ char_at-append before c rest

    same_fuel : fuel ≡ fuel'
    same_fuel = omega arith

-- '('
pub Runs-open : (r : RegexPostfix) → Runs (b'(' ∷ []) r (open_group r)
unfolding convert_round
Runs-open r = Runs-byte b'(' r (open_group r) (λ s i e. rw e refl)

-- ')', in a group
pub Runs-close :
    (r : RegexPostfix) (scope : StackElem) (stack : List StackElem)
    → r.stack ≡ scope ∷ stack
    → Runs (b')' ∷ []) r (close_group scope stack r)
unfolding convert_round close_round
Runs-close r scope stack h =
    Runs-byte b')' r (close_group scope stack r) (λ s i e. rw e (rw (h, close_round) (rw e refl)))

close_plain :
    (s : Text) (i c : ℕ) (r : RegexPostfix) (stack : List StackElem)
    → char_at s i ≡ c
    → c ≢ b')'
    → close_round s i stack r ≡ plain_round s i r
unfolding close_round
close_plain s i c r [] e k = refl
close_plain s i c r (x ∷ stack) e k =
    let t : nat_eq (char_at s i) b')' ≡ false = ground arith in rw t refl

-- a byte that means neither the start nor the end of a group
plain :
    (s : Text) (i c : ℕ) (r : RegexPostfix)
    → char_at s i ≡ c
    → c ≢ b'('
    → c ≢ b')'
    → convert_round s i r ≡ plain_round s i r
unfolding convert_round
plain s i c r e h k =
    let t : nat_eq (char_at s i) b'(' ≡ false = ground arith in
    rw t (close_plain s i c r r.stack e k)

pub Runs-pipe : (r r' : RegexPostfix) → add_pipe r ≡ ok r' → Runs (b'|' ∷ []) r r'
unfolding plain_round
Runs-pipe r r' h =
    Runs-byte b'|' r r' (λ s i e. plain s i b'|' r e (omega arith) (omega arith) ∙ rw e (rw h refl))

pub Runs-star : (r r' : RegexPostfix) → deal_with_unary b'*' r ≡ ok r' → Runs (b'*' ∷ []) r r'
unfolding plain_round is_unary
Runs-star r r' h =
    Runs-byte b'*' r r' (λ s i e. plain s i b'*' r e (omega arith) (omega arith) ∙ rw e (rw h refl))

pub Runs-optional : (r r' : RegexPostfix) → deal_with_unary b'?' r ≡ ok r' → Runs (b'?' ∷ []) r r'
unfolding plain_round is_unary
Runs-optional r r' h =
    Runs-byte b'?' r r' (λ s i e. plain s i b'?' r e (omega arith) (omega arith) ∙ rw e (rw h refl))

pub Runs-plus : (r r' : RegexPostfix) → deal_with_unary b'+' r ≡ ok r' → Runs (b'+' ∷ []) r r'
unfolding plain_round is_unary
Runs-plus r r' h =
    Runs-byte b'+' r r' (λ s i e. plain s i b'+' r e (omega arith) (omega arith) ∙ rw e (rw h refl))

pub Runs-dot : (r : RegexPostfix) → Runs (b'.' ∷ []) r (add_char b'.' r)
unfolding plain_round is_unary
Runs-dot r =
    Runs-byte b'.' r (add_char b'.' r)
      (λ s i e. plain s i b'.' r e (omega arith) (omega arith) ∙ rw e refl)

literal_round :
    (s : Text) (i c : ℕ) (r : RegexPostfix)
    → char_at s i ≡ c
    → IsLiteral c
    → plain_round s i r ≡ some (ok (i, add_char c r))
unfolding plain_round is_unary add_char to_char
literal_round s i c r e h =
    let t1 : nat_eq c b'|' ≡ false = ground arith in
    let t2 : nat_eq c 92 ≡ false = ground arith in
    let t3 : nat_eq c b'{' ≡ false = ground arith in
    let t4 : nat_eq c b'?' ≡ false = ground arith in
    let t5 : nat_eq c b'*' ≡ false = ground arith in
    let t6 : nat_eq c b'+' ≡ false = ground arith in
    rw e (rw t1 (rw t2 (rw t3 (rw t4 (rw t5 (rw t6 refl))))))

pub Runs-literal : (c : ℕ) (r : RegexPostfix) → IsLiteral c → Runs (c ∷ []) r (add_char c r)
Runs-literal c r h =
    let (_, is_open, is_close, _, _, _, _, _, _, _, _) = h in
    Runs-byte c r (add_char c r)
      (λ s i e. plain s i c r e is_open is_close ∙ literal_round s i c r e h)
