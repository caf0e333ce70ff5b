-- ===== src/FilePath/Traversal.antt =====
-- `attemptParentTraversal` against a walk through the directory tree.
use gazon.Base.{
  ℕ, zero, suc, ◌≡◌, refl, ◌↔◌, false, List, [], ◌∷◌, ◌++◌, Text, take, length, ◌==◌, text_Eq,
  Bool-cases, inl, inr, if◌then◌else◌, All, arith,
}
use gazon.FilePath.{FilePath, traverses, attempt_parent_traversal, dot_dot}
use gazon.FilePath.Normal.{NotUp, IsNormal, names, up}

abbrev pub parent : List Text → List Text
parent [] = []
parent (d ∷ dir) = dir

-- The directory that the parts lead to, the names that lead to it innermost first. ".." goes to
-- the parent, and stays at the root.
unfoldable pub walk : List Text → List Text → List Text
walk dir [] = dir
walk dir (p ∷ ps) = walk (if p == dot_dot then parent dir else p ∷ dir) ps

-- `dir` is `top` or lies below it.
abbrev pub Below : List Text → List Text → Type 0
Below top dir = (names : List Text) × (dir ≡ names ++ top)

walk-Below :
    (top ns ps : List Text)
    → traverses (length ns) ps ≡ false
    → (n : ℕ) → Below top (walk (ns ++ top) (take n ps))
unfolding walk traverses
walk-Below top ns ps h zero = (ns, refl)
walk-Below top ns [] h (suc n) = (ns, refl)
walk-Below top [] (p ∷ ps) h (suc n) = elim (Bool-cases (p == dot_dot)) [
  | inl e ↦ absurd (ground arith)
  | inr e ↦ rw (e, walk) (walk-Below top (p ∷ []) ps (ground arith) n)
]
walk-Below top (d ∷ ns) (p ∷ ps) h (suc n) = elim (Bool-cases (p == dot_dot)) [
  | inl e ↦ rw (e, walk) (walk-Below top ns ps (ground arith) n)
  | inr e ↦ rw (e, walk) (walk-Below top (p ∷ d ∷ ns) ps (ground arith) n)
]

-- A path that `attemptParentTraversal` passes leads from any directory to one at or below it, and
-- so does each of its prefixes.
pub attempt_parent_traversal_sound :
    (p : FilePath) (top : List Text) (n : ℕ)
    → attempt_parent_traversal p ≡ false
    → Below top (walk top (take n p.parts))
unfolding attempt_parent_traversal
attempt_parent_traversal_sound p top n h = walk-Below top [] p.parts h n

traverses-NotUp : (depth : ℕ) (ps : List Text) → All NotUp ps → traverses depth ps ≡ false
unfolding traverses
traverses-NotUp depth [] h = refl
traverses-NotUp zero (p ∷ ps) h = rw h.0 (traverses-NotUp 1 ps h.1)
traverses-NotUp (suc depth) (p ∷ ps) h = rw h.0 (traverses-NotUp (suc (suc depth)) ps h.1)

-- Of parts in normal form the test passes exactly those that have no ".." at all.
pub traverses-IsNormal : (ps : List Text) → IsNormal ps → (traverses 0 ps ≡ false) ↔ All NotUp ps
traverses-IsNormal ps (names ps' h) = (λ _. h, traverses-NotUp 0 ps)
traverses-IsNormal (p ∷ ps) (up p' ps' e h) =
    (λ t. absurd (unfold traverses in ground arith), λ a. absurd (ground arith))
