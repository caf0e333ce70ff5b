-- ===== src/Regex/Postfix/Arity.antt =====
-- A postfix expression as a program for a machine that keeps the number of its operands.
use gazon.Base.{
  ℕ, zero, suc, ◌+◌, ◌-◌, ◌≡◌, refl, ap, ◌∙◌, Bool, true, false, ◌&&◌, ◌||◌, [], ◌∷◌, ◌++◌, Option,
  none, some, Text, ltb, leb, nat_eq, if◌then◌else◌, arith, append_assoc,
}
use gazon.Numbers.{int_max}
use gazon.Regex.Postfix.{
  concat_char, pipe_char, zero_or_one, one_or_more, zero_or_more, repeat, translate_repetitions,
}

-- The number of operands after one byte: a binary operator takes two and leaves one, a unary one
-- needs one, any other byte is an operand. `none`: an operator lacks operands.
abbrev pub after_byte : ℕ → ℕ → Option ℕ
after_byte c n =
    if nat_eq c concat_char || nat_eq c pipe_char
    then (if ltb 1 n then some (n - 1) else none)
    else if leb zero_or_one c && leb c zero_or_more
    then (if ltb 0 n then some n else none)
    else some (n + 1)

unfoldable pub operands : Option ℕ → Text → Option ℕ
operands o [] = o
operands none (c ∷ s) = none
operands (some n) (c ∷ s) = operands (after_byte c n) s

-- the text is one operand more
abbrev pub IsOperand : Text → Type 0
IsOperand s = (n : ℕ) → operands (some n) s ≡ some (n + 1)

pub operands-append : (o : Option ℕ) (s t : Text) → operands o (s ++ t) ≡ operands (operands o s) t
unfolding operands
operands-append o [] t = refl
operands-append none (c ∷ s) [] = refl
operands-append none (c ∷ s) (d ∷ t) = refl
operands-append (some n) (c ∷ s) t = operands-append (after_byte c n) s t

-- a text that leaves one operand or more as many
abbrev Neutral : Text → Type 0
Neutral s = (n : ℕ) → operands (some (n + 1)) s ≡ some (n + 1)

append-Neutral : (s t : Text) → Neutral s → Neutral t → Neutral (s ++ t)
append-Neutral s t hs ht n =
    operands-append (some (n + 1)) s t ∙ (ap (λ o. operands o t) (hs n) ∙ ht n)

repeat-Neutral : (k : ℕ) (s : Text) → Neutral s → Neutral (repeat k s)
unfolding repeat operands
repeat-Neutral zero s h = λ n. refl
repeat-Neutral (suc k) s h = append-Neutral s (repeat k s) h (repeat-Neutral k s h)

unary-Neutral : (c : ℕ) → (leb zero_or_one c && leb c zero_or_more) ≡ true → Neutral (c ∷ [])
unfolding operands
unary-Neutral c h n = ground arith

concat_one : (n : ℕ) → operands (some (n + 1 + 1)) (concat_char ∷ []) ≡ some (n + 1)
unfolding operands
concat_one n = ground arith

unary_concat :
    (c n : ℕ)
    → (leb zero_or_one c && leb c zero_or_more) ≡ true
    → operands (some (n + 1 + 1)) (c ∷ concat_char ∷ []) ≡ some (n + 1)
unfolding operands
unary_concat c n h = ground arith

-- an operand and a concatenation
joined-Neutral : (s : Text) → IsOperand s → Neutral (s ++ concat_char ∷ [])
joined-Neutral s h n =
    operands-append (some (n + 1)) s (concat_char ∷ [])
    ∙ (ap (λ o. operands o (concat_char ∷ [])) (h (n + 1)) ∙ concat_one n)

-- an operand, a unary operator and a concatenation
unary_joined-Neutral :
    (c : ℕ) (s : Text)
    → (leb zero_or_one c && leb c zero_or_more) ≡ true
    → IsOperand s
    → Neutral (s ++ c ∷ concat_char ∷ [])
unary_joined-Neutral c s u h n =
    operands-append (some (n + 1)) s (c ∷ concat_char ∷ [])
    ∙ (ap (λ o. operands o (c ∷ concat_char ∷ [])) (h (n + 1)) ∙ unary_concat c n u)

suffix : Text → ℕ → ℕ → Text
suffix pattern low high =
    if nat_eq low 0 && nat_eq high int_max
    then zero_or_more ∷ []
    else if nat_eq low 0
    then (zero_or_one ∷ []) ++ repeat (high - 1) (pattern ++ zero_or_one ∷ concat_char ∷ [])
    else if nat_eq high int_max
    then repeat (low - 2) (pattern ++ concat_char ∷ [])
      ++ (pattern ++ one_or_more ∷ concat_char ∷ [])
    else repeat (low - 1) (pattern ++ concat_char ∷ [])
      ++ repeat (high - low) (pattern ++ zero_or_one ∷ concat_char ∷ [])

either : {A : Type 0} (P : A → Type 0) (b : Bool) (x y : A) → P x → P y → P (if b then x else y)
either P true x y p q = p
either P false x y p q = q

either_ap :
    {A : Type 0} {B : Type 0} (f : A → B) (b : Bool) (x y : A) (u v : B)
    → u ≡ f x
    → v ≡ f y
    → (if b then u else v) ≡ f (if b then x else y)
either_ap f true x y u v p q = p
either_ap f false x y u v p q = q

suffix-Neutral :
    (pattern : Text) (low high : ℕ) → IsOperand pattern → Neutral (suffix pattern low high)
unfolding suffix
suffix-Neutral pattern low high h =
    either Neutral (nat_eq low 0 && nat_eq high int_max) _ _ (unary-Neutral zero_or_more refl) (
      either Neutral (nat_eq low 0) _ _
        (append-Neutral (zero_or_one ∷ []) _ (unary-Neutral zero_or_one refl)
          (repeat-Neutral (high - 1) _ (unary_joined-Neutral zero_or_one pattern refl h)))
        (either Neutral (nat_eq high int_max) _ _
          (append-Neutral (repeat (low - 2) _) _
            (repeat-Neutral (low - 2) _ (joined-Neutral pattern h))
            (unary_joined-Neutral one_or_more pattern refl h))
          (append-Neutral (repeat (low - 1) _) _
            (repeat-Neutral (low - 1) _ (joined-Neutral pattern h))
            (repeat-Neutral (high - low) _ (unary_joined-Neutral zero_or_one pattern refl h)))))

translate_suffix :
    (pattern : Text) (low high : ℕ) (postfix : Text)
    → translate_repetitions pattern low high postfix ≡ postfix ++ suffix pattern low high
unfolding translate_repetitions suffix
translate_suffix pattern low high postfix =
    either_ap (λ s. postfix ++ s) (nat_eq low 0 && nat_eq high int_max) _ _ _ _ refl
      (either_ap (λ s. postfix ++ s) (nat_eq low 0) _ _ _ _
        (append_assoc postfix (zero_or_one ∷ []) _)
        (either_ap (λ s. postfix ++ s) (nat_eq high int_max) _ _ _ _ (append_assoc postfix _ _)
          (append_assoc postfix _ _)))

-- Where the pattern is one operand, writing out its repetitions leaves as many operands as the
-- postfix expression had, which are one at least, and no operator lacks one.
pub translate_repetitions_balanced :
    (pattern : Text) (low high n : ℕ) (postfix : Text)
    → IsOperand pattern
    → operands (some 0) postfix ≡ some (n + 1)
    → operands (some 0) (translate_repetitions pattern low high postfix) ≡ some (n + 1)
translate_repetitions_balanced pattern low high n postfix h k =
    ap (λ s. operands (some 0) s) (translate_suffix pattern low high postfix)
    ∙ (operands-append (some 0) postfix (suffix pattern low high)
        ∙ (ap (λ o. operands o (suffix pattern low high)) k ∙ suffix-Neutral pattern low high h n))
