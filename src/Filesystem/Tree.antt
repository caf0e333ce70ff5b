-- ===== src/Filesystem/Tree.antt =====
-- include/common/filesystem.h: `FilesystemEntry` and its map of children; the walks of
-- src/common/filesystem.cpp over one tree.
pub mod ChildMap
use gazon.Base.{
  ℕ, zero, suc, ◌+◌, ◌-◌, ◌%◌, ◌^◌, Bool, true, false, List, [], ◌∷◌, Option, none, some, Text,
  length, ◌==◌, text_Eq, if◌then◌else◌,
}

-- The fields of `struct stat` that the program reads.
pub record Stat : Type 0 where
  pub st_size : ℕ
  pub st_mode : ℕ
  pub st_uid : ℕ
  pub st_nlink : ℕ
  pub st_blocks : ℕ
  pub st_mtime : ℕ

-- A `size_t` wraps at 2^64.
abbrev pub size_mod : ℕ
size_mod = 2 ^ 64

abbrev pub add_size : ℕ → ℕ → ℕ
add_size a b = (a + b) % size_mod

abbrev pub sub_size : ℕ → ℕ → ℕ
sub_size a b = (a + size_mod - b % size_mod) % size_mod

abbrev pub bit : Bool → ℕ
bit true = 1
bit false = 0

-- The fields of an entry but its children. `status` is `none` where the pointer is null.
pub record Info : Type 0 where
  pub size : ℕ
  pub n_rec_children : ℕ
  pub n_sub_folders : ℕ
  pub is_folder : Bool
  pub status : Option Stat

mutual
  pub data Entry : Type 0 where
    entry : Info → Children → Entry

  pub data Children : Type 0 where
    no_child : Children
    child : Text → Entry → Children → Children

abbrev pub info : Entry → Info
info (entry i cs) = i

abbrev pub children : Entry → Children
children (entry i cs) = cs

-- `children.find(name)`
unfoldable pub find_child : Text → Children → Option Entry
find_child name no_child = none
find_child name (child n e cs) = if n == name then some e else find_child name cs

-- `children[name] = e`
unfoldable pub put_child : Text → Entry → Children → Children
put_child name e no_child = child name e no_child
put_child name e (child n d cs) =
    if n == name then child n e cs else child n d (put_child name e cs)

-- `children.erase(name)`
unfoldable pub erase_child : Text → Children → Children
erase_child name no_child = no_child
erase_child name (child n e cs) =
    let rest = erase_child name cs in if n == name then rest else child n e rest

-- `new FilesystemEntry`. Its constructor leaves `nSubFolders` indeterminate: `garbage`.
abbrev pub new_entry : ℕ → Entry
new_entry garbage =
    entry
      (record {
        size = 0;
        n_rec_children = 0;
        n_sub_folders = garbage;
        is_folder = false;
        status = none;
      })
      no_child

-- `get(name)`: the child, created if there is none
unfoldable pub get : ℕ → Entry → Text → Entry
unfolding find_child
get garbage e name = elim (find_child name (children e)) [ none ↦ new_entry garbage | some c ↦ c ]

-- what the loop of `unsafeInsertNode` does to each folder on the way
unfoldable pub pass_through : Stat → Bool → Entry → Entry
pass_through st folder (entry i cs) =
    entry
      (record i {
        is_folder = true;
        size = add_size i.size st.st_size;
        n_rec_children = add_size i.n_rec_children 1;
        n_sub_folders = add_size i.n_sub_folders (bit folder);
      })
      cs

-- what it does to the entry at the end of the path
unfoldable pub settle : Stat → Bool → Entry → Entry
settle st folder (entry i cs) =
    entry
      (record i {
        status = some st;
        is_folder = folder;
        size = if folder then 0 else st.st_size;
        n_rec_children = 0;
        n_sub_folders = 0;
      })
      cs

-- `unsafeInsertNode` below `e`, on the path of `p` and `ps`
unfoldable pub insert_at : ℕ → Stat → Bool → Entry → Text → List Text → Entry
unfolding put_child get pass_through settle
insert_at garbage st folder e p [] =
    entry (info e) (put_child p (settle st folder (get garbage e p)) (children e))
insert_at garbage st folder e p (q ∷ ps) = entry (info e) (
    put_child p (insert_at garbage st folder (pass_through st folder (get garbage e p)) q ps)
      (children e))

-- the walk of `unsafeGetEntryNode`
unfoldable pub lookup : Entry → List Text → Option Entry
unfolding find_child
lookup e [] = some e
lookup e (p ∷ ps) = elim (find_child p (children e)) [ none ↦ none | some c ↦ lookup c ps ]

-- `_getNumberMissingChild` below `e`: `path.size() - i` at the first part that is not there
unfoldable pub missing : Entry → List Text → ℕ
unfolding find_child
missing e [] = 0
missing e (p ∷ ps) = elim (find_child p (children e)) [
  | none ↦ suc (length ps)
  | some c ↦ missing c ps
]

-- the three subtractions of `_removeNodeFromVirtualFS`, at each entry on the way
unfoldable pub deduct : Info → Info → Info
deduct node i = record i {
  size = sub_size i.size node.size;
  n_rec_children = sub_size i.n_rec_children (node.n_rec_children + 1);
  n_sub_folders = sub_size i.n_sub_folders (node.n_sub_folders + bit node.is_folder);
}

-- the parent's `nRecChildren--`
unfoldable pub decrement : Info → Info
decrement i = record i { n_rec_children = sub_size i.n_rec_children 1 }

-- The loop of `_removeNodeFromVirtualFS` from `e` on, where `node` is at the end of the path. In a
-- tree the pointers `children[el]` and `node` are equal at the last part, and nowhere before.
unfoldable pub remove_at : Info → Entry → List Text → Entry
unfolding deduct decrement erase_child put_child find_child
remove_at node e [] = e
remove_at node e (p ∷ []) = entry (decrement (deduct node (info e))) (erase_child p (children e))
remove_at node e (p ∷ q ∷ ps) = elim (find_child p (children e)) [
  | none ↦ entry (deduct node (info e)) (children e)
  | some c ↦ entry (deduct node (info e)) (put_child p (remove_at node c (q ∷ ps)) (children e))
]
