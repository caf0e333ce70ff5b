-- ===== src/Grep/Places.antt =====
-- Where the paths that `my_grep_aux_unsafe` of src/common/commands/grep.cpp makes lead to.
use gazon.Base.{
  ◌≡◌, inl, inr, refl, sym, ap, subst, ◌∙◌, true, false, Bool-cases, List, [], ◌∷◌, ◌++◌, codes,
  text_eq, Option, none, some, Text, text_Eq,
}
use gazon.Errors.{filesystem_exception, ok, throw}
use gazon.FilePath.{FilePath, append_part, add_path_part, may_pop, reconstruct_string_view}
use gazon.Filesystem.{Filesystem, unsafe_read, unsafe_get_entry_node, is_hidden_file}
use gazon.Filesystem.Tree.{Entry, children, find_child, lookup}

-- The path is absolute and leads to the entry.
abbrev pub At : Filesystem → FilePath → Entry → Type 0
At fs path node = (path.is_absolute ≡ true) × (lookup fs.root path.parts ≡ some node)

pub entry-At :
    (fs : Filesystem) (path : FilePath) (node : Entry)
    → unsafe_get_entry_node fs path ≡ ok node
    → At fs path node
unfolding unsafe_get_entry_node
entry-At fs path node e = elim (Bool-cases path.is_absolute) [
  | inr relative ↦ let k = rw relative at e in absurd (cc)
  | inl absolute ↦ (absolute, go (lookup fs.root path.parts) (rw absolute at e))
]
  where
    go :
        (o : Option Entry)
        → (elim o [
          | none ↦ throw (filesystem_exception (path.string ++ codes ": No such file or directory"))
          | some d ↦ ok d
        ])
          ≡ ok node
        → o ≡ some node
    go none k = absurd (cc)
    go (some d) k = cc

pub read-At :
    (fs : Filesystem) (path : FilePath) (node : Entry)
    → At fs path node
    → unsafe_read fs path ≡ ok path
unfolding unsafe_read unsafe_get_entry_node
read-At fs path node (absolute, found) = rw (absolute, found) refl

lookup_child :
    (e d f : Entry) (ps : List Text) (name : Text)
    → lookup e ps ≡ some d
    → find_child name (children d) ≡ some f
    → lookup e (ps ++ name ∷ []) ≡ some f
unfolding lookup
lookup_child e d f [] name found is_child =
    let same : e ≡ d = cc in
    rw (subst (λ (z : Entry). find_child name (children z) ≡ some f) (sym same) is_child, lookup)
      refl
lookup_child e d f (p ∷ ps) name found is_child =
    go (find_child p (children e)) found (λ c k. lookup_child c d f ps name k is_child)
  where
    go :
        (o : Option Entry)
        → (elim o [ none ↦ none | some c ↦ lookup c ps ]) ≡ some d
        → ((c : Entry) → lookup c ps ≡ some d → lookup c (ps ++ name ∷ []) ≡ some f)
        → (elim o [ none ↦ none | some c ↦ lookup c (ps ++ name ∷ []) ]) ≡ some f
    go none k next = absurd (cc)
    go (some c) k next = next c k

-- A name that is not hidden is neither "." nor "..", so it becomes the last part.
visible_parts :
    (path : FilePath) (name : Text)
    → is_hidden_file name ≡ false
    → ((append_part path name).parts ≡ path.parts ++ name ∷ [])
      × ((append_part path name).is_absolute ≡ path.is_absolute)
unfolding append_part add_path_part may_pop is_hidden_file text_eq reconstruct_string_view
visible_parts path [] visible = (refl, refl)
visible_parts path (c ∷ name) visible = rw visible (refl, refl)

-- A visible child is where its path leads.
pub child-At :
    (fs : Filesystem) (path : FilePath) (node : Entry) (name : Text) (f : Entry)
    → At fs path node
    → find_child name (children node) ≡ some f
    → is_hidden_file name ≡ false
    → At fs (append_part path name) f
child-At fs path node name f (absolute, found) is_child visible =
    let (parts, same) = visible_parts path name visible in
    (
      same ∙ absolute,
      ap (lookup fs.root) parts ∙ lookup_child fs.root node f path.parts name found is_child,
    )
