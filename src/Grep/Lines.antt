-- ===== src/Grep/Lines.antt =====
-- The loop over a file's lines in src/common/commands/grep.cpp, with an automaton that serves an
-- expression.
use gazon.Base.{
  ℕ, ◌+◌, ◌≡◌, ◌≢◌, ◌⊎◌, ◌↔◌, inl, inr, refl, sym, subst, Bool, true, false, List, [], ◌∷◌, All,
  Memᴰ, here, there, Option, none, some, Text,
}
use gazon.Regex.Nfa.Graph.{Regex, Denotes, IsPlain}
use gazon.Regex.Nfa.Match.{NotSplit}
use gazon.Regex.Dfa.{Dfa}
use gazon.Regex.Pattern.{Serves, regex_match_correct}
use gazon.Grep.{search_lines, line_matched}

-- A line that may be found, and one that must be: what is answered on an empty line is left open.
abbrev pub MayMatch : Regex → Text → Type 0
MayMatch e line = (line ≡ []) ⊎ Denotes e line

abbrev pub MustMatch : Regex → Text → Type 0
MustMatch e line = (line ≢ []) × Denotes e line

abbrev pub HasLine : (Text → Type 0) → List Text → Type 0
HasLine P lines = (line : Text) × Memᴰ line lines × P line

-- A match is a line that may be found; without one  line must be.
abbrev pub Found : Regex → List Text → Option ℕ → Type 0
Found e lines none = HasLine (MustMatch e) lines → ⊥
Found e lines (some k) = HasLine (MayMatch e) lines

abbrev pub Searched : Regex → List Text → Option (Option ℕ × Dfa) → Type 0
Searched e lines none = ⊥
Searched e lines (some (r, d)) = Found e lines r × Serves e d

may_match :
    (e : Regex) (line : Text) → (line ≢ [] → (true ≡ true) ↔ Denotes e line) → MayMatch e line
may_match e [] iff = inl refl
may_match e (c ∷ line) iff = inr ((iff (λ e. cc)).0 refl)

not_both : ◌≡◌ {A = Bool} false true → ⊥
not_both e = cc

no_line :
    (e : Regex) (line : Text) (lines : List Text)
    → (line ≢ [] → (false ≡ true) ↔ Denotes e line)
    → (HasLine (MustMatch e) lines → ⊥)
    → HasLine (MustMatch e) (line ∷ lines)
    → ⊥
no_line e line lines iff none_in (l, here e0, must) =
    let (ne, D) = subst (MustMatch e) e0 must in not_both ((iff ne).1 D)
no_line e line lines iff none_in (l, there m, p) = none_in (l, m, p)

found_before :
    (e : Regex) (line : Text) (lines : List Text) (r : Option (Option ℕ × Dfa))
    → (line ≢ [] → (false ≡ true) ↔ Denotes e line)
    → Searched e lines r
    → Searched e (line ∷ lines) r
found_before e line lines none iff h = h
found_before e line lines (some (some k, d)) iff ((l, m, p), S) = ((l, there m, p), S)
found_before e line lines (some (none, d)) iff (none_in, S) = (no_line e line lines iff none_in, S)

pub search_lines-Searched :
    (e : Regex) (lines : List Text) (k : ℕ) (d : Dfa)
    → IsPlain e
    → Serves e d
    → All (All NotSplit) lines
    → Searched e lines (search_lines lines k d)
unfolding search_lines
search_lines-Searched e [] k d pl S ns = (λ (l, m, p). elim m [ ], S)
search_lines-Searched e (line ∷ lines) k d pl S (n, ns) =
    let (b, d', returns, iff, S') = regex_match_correct e line d pl S n in
    subst
      (λ (r : Option (Bool × Dfa)).
        Searched e (line ∷ lines) (line_matched r k (search_lines lines (k + 1))))
      (sym returns) (go b d' iff S' (λ d''. search_lines-Searched e lines (k + 1) d'' pl))
  where
    go :
        (b : Bool) (d' : Dfa)
        → (line ≢ [] → (b ≡ true) ↔ Denotes e line)
        → Serves e d'
        → ((d'' : Dfa)
            → Serves e d''
            → All (All NotSplit) lines
            → Searched e lines (search_lines lines (k + 1) d''))
        → Searched e (line ∷ lines) (line_matched (some (b, d')) k (search_lines lines (k + 1)))
    go true d' iff S' rest = ((line, here refl, may_match e line iff), S')
    go false d' iff S' rest = found_before e line lines _ iff (rest d' S' ns)
