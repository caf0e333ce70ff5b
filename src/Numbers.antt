-- ===== src/Numbers.antt =====
-- `int` and `std::stoi`, which the commands and the regular expressions use.
use gazon.Base.{
  ℕ, ◌+◌, ◌-◌, ◌*◌, ◌^◌, Bool, true, false, ◌&&◌, [], ◌∷◌, Option, none, some, Text, is_space,
  nat_eq, leb, if◌then◌else◌,
}

-- `negsuc n` is -(n + 1).
pub data ℤ : Type 0 where
  pos : ℕ → ℤ
  negsuc : ℕ → ℤ

-- `std::numeric_limits<int>::max()`
abbrev pub int_max : ℕ
int_max = 2 ^ 31 - 1

abbrev pub is_digit : ℕ → Bool
is_digit c = leb b'0' c && leb c b'9'

pub digits_value : ℕ → Text → ℕ
digits_value n [] = n
digits_value n (c ∷ s) =
    let on = digits_value (n * 10 + (c - b'0')) s in if is_digit c then on else n

-- The digits that start the text, if there is one: what follows them is ignored.
pub magnitude : Text → Option ℕ
unfolding digits_value
magnitude [] = none
magnitude (c ∷ s) = if is_digit c then some (digits_value 0 (c ∷ s)) else none

pub in_range : Bool → Option ℕ → Option ℤ
in_range negative none = none
in_range true (some n) =
    if nat_eq n 0 then some (pos 0) else if leb n (int_max + 1) then some (negsuc (n - 1)) else none
in_range false (some n) = if leb n int_max then some (pos n) else none

pub signed : Text → Option ℤ
unfolding magnitude in_range
signed [] = none
signed (c ∷ s) =
    if nat_eq c b'-'
    then in_range true (magnitude s)
    else if nat_eq c b'+'
    then in_range false (magnitude s)
    else in_range false (magnitude (c ∷ s))

-- `std::stoi`; `none` is its exception.
unfoldable pub stoi : Text → Option ℤ
unfolding signed
stoi [] = none
stoi (c ∷ s) = let rest = stoi s in if is_space c then rest else signed (c ∷ s)
