-- ===== src/Examples/Patterns.antt =====
-- Regular expressions and their postfix form.
use gazon.Base.{◌≡◌, refl, [], ◌∷◌, some, Text, codes}
use gazon.Errors.{Result, ok}
use gazon.Regex.Postfix.Arity.{IsOperand, operands}
use gazon.Regex.Convert.{convert}
use gazon.Regex.Convert.Total.{convert_total}

group_with_pipe : convert (codes "a(b|c)*") ≡ some (ok (97 ∷ 98 ∷ 99 ∷ 2 ∷ 5 ∷ 1 ∷ []))
unfolding convert
group_with_pipe = refl

convert_total_example : (out : Result Text) × (convert (codes "a{2,") ≡ some out)
convert_total_example = convert_total (codes "a{2,")

one_letter : IsOperand (codes "a")
unfolding operands
one_letter n = refl
