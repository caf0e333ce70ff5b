-- ===== src/Grep/Listed.antt =====
-- The files below a folder that `my_grep_aux_unsafe` of src/common/commands/grep.cpp may list, and
-- the map of the folder's children.
use gazon.Base.{
  ◌<◌, ◌≡◌, ◌⊎◌, inl, inr, refl, sym, ◌∙◌, Bool, true, false, Bool-cases, List, Memᴰ, here, there,
  some, Text, ◌==◌, eq_iff, text_Eq, arith,
}
use gazon.Base.Maps.{find}
use gazon.FilePath.{FilePath, append_part}
use gazon.Filesystem.{is_hidden_file}
use gazon.Filesystem.Tree.{Entry, Children, no_child, child, info, children, find_child}
use gazon.Transfer.{Disk}
use gazon.Transfer.Get.{contents_or_empty}
use gazon.Grep.{read_lines, names, height, children_height}

-- The lines that are read of the file at that path.
abbrev pub lines_of : Disk → FilePath → List Text
lines_of disk path = read_lines (contents_or_empty (find path.string disk))

module _ (disk : Disk) (P : List Text → Type 0) where
  -- `shown` is the path, from where the search began, of a file below the folder that is not hidden
  -- and not in a hidden folder, and whose lines have the property.
  pub data Listed : FilePath → FilePath → Entry → Text → Type 0 where
    in_file :
        {path relative_path : FilePath} {node : Entry} {shown : Text} (name : Text) (file : Entry)
        → find_child name (children node) ≡ some file
        → is_hidden_file name ≡ false
        → (info file).is_folder ≡ false
        → shown ≡ (append_part relative_path name).string
        → P (lines_of disk (append_part path name))
        → Listed path relative_path node shown
    in_folder :
        {path relative_path : FilePath} {node : Entry} {shown : Text} (name : Text) (folder : Entry)
        → find_child name (children node) ≡ some folder
        → is_hidden_file name ≡ false
        → (info folder).is_folder ≡ true
        → Listed (append_part path name) (append_part relative_path name) folder shown
        → Listed path relative_path node shown

  -- the same, for one child of the folder
  abbrev pub Under : FilePath → FilePath → Bool → Bool → Entry → Text → Type 0
  Under path relative_path hidden folder node shown =
      (hidden ≡ false)
      × (((folder ≡ false) × (shown ≡ relative_path.string) × P (lines_of disk path))
          ⊎ ((folder ≡ true) × Listed path relative_path node shown))

  abbrev pub Below : FilePath → FilePath → Entry → Text → Text → Type 0
  Below path relative_path node name shown =
      (e : Entry) × (find_child name (children node) ≡ some e)
      × Under (append_part path name) (append_part relative_path name) (is_hidden_file name)
          (info e).is_folder e shown

  pub Below-Listed :
      (path relative_path : FilePath) (node : Entry) (name shown : Text)
      → Below path relative_path node name shown
      → Listed path relative_path node shown
  Below-Listed path relative_path node name shown (e, found, (visible, inl (kind, same, p))) =
      in_file name e found visible kind same p
  Below-Listed path relative_path node name shown (e, found, (visible, inr (kind, l))) =
      in_folder name e found visible kind l

  pub Listed-Below :
      (path relative_path : FilePath) (node : Entry) (shown : Text)
      → Listed path relative_path node shown
      → (name : Text) × Below path relative_path node name shown
  Listed-Below path relative_path node shown (in_file name e found visible kind same p) =
      (name, (e, found, (visible, inl (kind, same, p))))
  Listed-Below path relative_path node shown (in_folder name e found visible kind l) =
      (name, (e, found, (visible, inr (kind, l))))

pub Listed-wider :
    (disk : Disk) (P Q : List Text → Type 0)
    → ((lines : List Text) → P lines → Q lines)
    → (path relative_path : FilePath) (node : Entry) (shown : Text)
    → Listed disk P path relative_path node shown
    → Listed disk Q path relative_path node shown
Listed-wider disk P Q f path relative_path node shown (in_file name e found visible kind same p) =
    in_file name e found visible kind same (f (lines_of disk (append_part path name)) p)
Listed-wider disk P Q f path relative_path node shown (in_folder name e found visible kind l) =
    in_folder name e found visible kind
      (Listed-wider disk P Q f (append_part path name) (append_part relative_path name) e shown l)

-- A key of the map has a child, which is less high.
pub child_of :
    (name : Text) (cs : Children)
    → Memᴰ name (names cs)
    → (e : Entry) × (find_child name cs ≡ some e) × (height e < children_height cs)
unfolding find_child
child_of name no_child m = elim m [ ]
child_of name (child n e cs) m = elim (Bool-cases (n == name)) [
  | inl t ↦ (e, rw t refl, omega arith)
  | inr f ↦ elim m [
    | here same ↦ absurd (apart name n f same)
    | there m' ↦ let (e', found, lt) = child_of name cs m' in (e', rw f found, omega (arith, lt))
  ]
]
  where
    apart : (a b : Text) → (b == a) ≡ false → a ≡ b → ⊥
    apart a b f same = let t = (eq_iff b a).1 (sym same) in cc

pub key_of :
    (name : Text) (e : Entry) (cs : Children) → find_child name cs ≡ some e → Memᴰ name (names cs)
unfolding find_child
key_of name e no_child found = absurd (cc)
key_of name e (child n d cs) found = elim (Bool-cases (n == name)) [
  | inl t ↦ here (sym ((eq_iff n name).0 t))
  | inr f ↦ there (key_of name e cs (sym (rw f refl) ∙ found))
]
