-- ===== src/Examples/Files.antt =====
-- The virtual file system of the sample server.
use gazon.Base.{
  ◌%◌, ◌≡◌, refl, true, false, not, ◌&&◌, ◌||◌, List, [], ◌∷◌, some, Text, codes, text_eq,
}
use gazon.Errors.{ok}
use gazon.Filesystem.Commits.{commit_replaces}
use gazon.Filesystem.{TemporaryFile, commit, Filesystem, mkdir, rm}
use gazon.Filesystem.Tree.{
  Entry, entry, no_child, info, children, insert_at, remove_at, lookup, find_child, add_size,
  size_mod,
}
use gazon.Filesystem.Paths.{present, is_prefix}
use gazon.Filesystem.Counts.{items, Counted, CountedIn, counted, nil, cons}
use gazon.Filesystem.Counts.Removed.{remove_at_undercounts}
use gazon.Filesystem.Operations.{mkdir_creates, rm_removes, rm-mkdir}
use gazon.Examples.Samples.{
  sample_os, sample_files, sample_root, sample_stat, file_f, folder_d, folder_b, some_path,
}

abbrev b_e : List Text
b_e = codes "b" ∷ codes "e" ∷ []

-- the file system with the folder /b/e
abbrev with_e : Filesystem
with_e = record sample_files {
  root = insert_at 0 sample_stat true sample_root (codes "b") (codes "e" ∷ []);
}

made_e : mkdir sample_os sample_files (some_path b_e) ≡ ok with_e
unfolding mkdir insert_at text_eq
made_e = refl

file-Counted : Counted file_f
unfolding items
file-Counted = counted (info file_f) (children file_f) refl nil

folder_d-Counted : Counted folder_d
unfolding items find_child text_eq
folder_d-Counted =
    counted (info folder_d) (children folder_d) refl
      (cons (codes "f") file_f _ refl file-Counted nil)

folder_b-Counted : Counted folder_b
unfolding items find_child text_eq
folder_b-Counted =
    counted (info folder_b) (children folder_b) refl
      (cons (codes "d") folder_d _ refl folder_d-Counted nil)

mkdir_creates_example :
    (present sample_root b_e ≡ false)
    × ((q : List Text) → present with_e.root q ≡ (is_prefix q b_e || present sample_root q))
    × (CountedIn (children sample_root) → CountedIn (children with_e.root))
mkdir_creates_example = mkdir_creates sample_os sample_files with_e (some_path b_e) made_e

abbrev b_d : List Text
b_d = codes "b" ∷ codes "d" ∷ []

abbrev without_d : Filesystem
without_d = record sample_files { root = remove_at (info folder_d) sample_root b_d }

removed_d : rm sample_files (some_path b_d) ≡ ok without_d
unfolding rm remove_at text_eq
removed_d = refl

rm_removes_example :
    (present sample_root b_d ≡ true)
    × ((q : List Text)
        → present without_d.root q ≡ (present sample_root q && not (is_prefix b_d q)))
rm_removes_example = rm_removes sample_files without_d (some_path b_d) removed_d (λ e. cc)

abbrev folder_e : Entry
folder_e =
    entry
      (record {
        size = 0;
        n_rec_children = 0;
        n_sub_folders = 0;
        is_folder = true;
        status = some sample_stat;
      })
      no_child

abbrev again : Filesystem
again = record with_e { root = remove_at (info folder_e) with_e.root b_e }

removed_e : rm with_e (some_path b_e) ≡ ok again
unfolding rm remove_at insert_at text_eq
removed_e = refl

rm-mkdir_example : present again.root b_d ≡ present sample_root b_d
rm-mkdir_example = rm-mkdir sample_os sample_files with_e again (some_path b_e) made_e removed_e b_d

d_there : lookup folder_b (codes "d" ∷ []) ≡ some folder_d
unfolding lookup text_eq
d_there = refl

remove_at_undercounts_example :
    add_size (info (remove_at (info folder_d) folder_b (codes "d" ∷ []))).n_rec_children 1
    ≡ items (remove_at (info folder_d) folder_b (codes "d" ∷ [])) % size_mod
remove_at_undercounts_example =
    remove_at_undercounts folder_d folder_b (codes "d") d_there folder_b-Counted

b_d_there : lookup sample_root b_d ≡ some folder_d
unfolding lookup text_eq
b_d_there = refl

abbrev b_d_f : List Text
b_d_f = codes "b" ∷ codes "d" ∷ codes "f" ∷ []

-- a new version of the file /b/d/f
abbrev new_f : TemporaryFile
new_f = record {
  temp_path = some_path (codes "b" ∷ codes ".tmp1" ∷ []);
  real_path = some_path b_d_f;
}

abbrev with_new_f : Filesystem
with_new_f = record sample_files {
  root =
      insert_at 0 sample_stat false (remove_at (info file_f) sample_root b_d_f) (codes "b")
        (codes "d" ∷ codes "f" ∷ []);
}

committed : commit sample_os sample_files new_f ≡ ok with_new_f
unfolding commit insert_at remove_at text_eq
committed = refl

commit_replaces_example :
    present with_new_f.root b_d
    ≡ (is_prefix b_d b_d_f || (present sample_root b_d && not (is_prefix b_d_f b_d)))
commit_replaces_example =
    commit_replaces sample_os sample_files with_new_f new_f committed (λ e. cc) b_d
