-- ===== src/Base/Texts.antt =====
-- `std::string` as the list of its bytes.
use Prim.Native.Nat.{ℕ}
use Prim.Native.Char.{code}
use Prim.Native.String.{String}
use mathlib.Core.List.{List, [], ◌∷◌}
use mathlib.Core.Bool.{Bool, ◌||◌, ◌&&◌}
use gazon.Base.Tests.{nat_eq, leb}
use gazon.Base.Lists.{get_or, take, drop}

abbrev pub Text : Type 0
Text = List ℕ

-- The bytes of an ASCII literal.
abbrev pub codes : String → Text
codes String.[] = []
codes (String.◌∷◌ c s) = code c ∷ codes s

-- `s[i]`; at `s.size()` it is the terminating NUL.
abbrev pub char_at : Text → ℕ → ℕ
char_at s i = get_or s i 0

-- `s.substr(pos, n)` for `pos <= s.size()`
abbrev pub substr : Text → ℕ → ℕ → Text
substr s pos n = take n (drop pos s)

-- `std::isspace` in the "C" locale: space, and the bytes from tab to carriage return
abbrev pub is_space : ℕ → Bool
is_space c = nat_eq c 32 || (leb 9 c && leb c 13)
