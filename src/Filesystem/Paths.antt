-- ===== src/Filesystem/Paths.antt =====
-- The virtual file system as the set of the paths that it has: what insertion and removal do to it.
pub mod Insert
pub mod Remove
use gazon.Base.{
  ℕ, zero, suc, ◌≡◌, refl, ◌↔◌, Bool, true, false, ◌&&◌, List, [], ◌∷◌, Option, none, some, Text,
  length, Option-cases, inl, inr, ◌==◌, text_Eq, arith,
}
use gazon.Filesystem.Tree.{Entry, children, find_child, lookup, missing}

-- The tree has an entry at the path.
unfoldable pub present : Entry → List Text → Bool
unfolding lookup
present e q = elim (lookup e q) [ none ↦ false | some c ↦ true ]

unfoldable pub is_prefix : List Text → List Text → Bool
is_prefix [] qs = true
is_prefix (p ∷ ps) [] = false
is_prefix (p ∷ ps) (q ∷ qs) = p == q && is_prefix ps qs

abbrev pub present_in : Option Entry → List Text → Bool
present_in none qs = false
present_in (some c) qs = present c qs

-- one step of the walk
pub present-cons :
    (e : Entry) (p : Text) (ps : List Text)
    → present e (p ∷ ps) ≡ present_in (find_child p (children e)) ps
unfolding present
present-cons e p ps = ground arith

-- `_getNumberMissingChild` returns 0 exactly for the paths that the walk of `unsafeGetEntryNode`
-- reaches.
pub missing-present : (e : Entry) (q : List Text) → (missing e q ≡ 0) ↔ (present e q ≡ true)
unfolding missing present
missing-present e [] = ground arith
missing-present e (p ∷ ps) = elim (Option-cases (find_child p (children e))) [
  | inl f ↦ rw (f, missing, present, lookup) (ground arith)
  | inr (c, f) ↦ rw (f, missing, present, lookup) (missing-present c ps)
]
