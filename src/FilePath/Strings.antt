-- ===== src/FilePath/Strings.antt =====
-- The cached string of a path, and what the operating system reads out of it.
use gazon.Base.{
  ℕ, ◌+◌, ◌≡◌, refl, ap, sym, ◌∙◌, Bool, true, false, ◌||◌, List, [], ◌∷◌, ◌++◌, Text, All, ltb,
  arith,
}
use gazon.Scan.{split_string}
use gazon.Scan.Split.{IsPart, join_with, split_string-join, split_string-leading}
use gazon.FilePath.{FilePath, slash, string_view, reconstruct_string_view}

string_view-join :
    (i : ℕ) (absolute : Bool) (ps : List Text)
    → (ltb 0 i || absolute) ≡ true
    → string_view i absolute ps ≡ join_with slash ps
unfolding string_view join_with
string_view-join i absolute [] h = refl
string_view-join i absolute (p ∷ ps) h =
    rw h (ap (λ t. slash ∷ (p ++ t)) (string_view-join (i + 1) absolute ps (ground arith)))

split_first :
    (p : Text) (ps : List Text)
    → IsPart slash p
    → All (IsPart slash) ps
    → split_string (p ++ join_with slash ps) slash ≡ p ∷ ps
unfolding join_with
split_first p ps h hs =
    sym (split_string-leading (p ++ join_with slash ps) slash)
    ∙ split_string-join (p ∷ ps) slash (h, hs)

-- Reading the string of a path at its slashes gives the parts back, where no part is empty or has
-- a slash in it. So the operating system and the virtual file system see the same parts.
pub split-reconstruct :
    (p : FilePath)
    → All (IsPart slash) p.parts
    → split_string (reconstruct_string_view p).string slash ≡ p.parts
unfolding reconstruct_string_view
split-reconstruct p h = go p.is_absolute p.parts h
  where
    go :
        (absolute : Bool) (ps : List Text)
        → All (IsPart slash) ps
        → split_string (string_view 0 absolute ps) slash ≡ ps
    go absolute [] h = unfold split_string string_view in refl
    go true (q ∷ ps) h =
        rw (string_view-join 0 true (q ∷ ps) refl) (split_string-join (q ∷ ps) slash h)
    go false (q ∷ ps) h =
        unfold string_view in rw (string_view-join (0 + 1) false ps refl) (split_first q ps h.0 h.1)
