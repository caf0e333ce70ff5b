-- ===== src/Filesystem/Commits.antt =====
-- `commit` of src/common/filesystem.cpp, seen as an operation on the set of paths.
use gazon.Base.{
  ◌≡◌, ◌≢◌, refl, ap, sym, ◌∙◌, subst, false, not, ◌&&◌, ◌||◌, List, [], Option, none, some, Text,
  arith,
}
use gazon.Errors.{
  Result, ok, throw, exits, Exception, command_exception, filesystem_exception,
  networking_exception, config_exception, regex_exception, bad_cast, out_of_range, ◌>>=◌,
}
use gazon.FilePath.{FilePath}
use gazon.Filesystem.Tree.{Stat, Entry, lookup}
use gazon.Filesystem.{
  Filesystem, Os, TemporaryFile, commit, commit_file, swallow, remove_node, insert_node,
  unsafe_get_entry_node, rm,
}
use gazon.Filesystem.Paths.{present, is_prefix}
use gazon.Filesystem.Operations.{insert_node-present, rm_removes, present_prefix}

-- what a `commit` that returns has done
commit_done :
    (os : Os) (fs fs' : Filesystem) (file : TemporaryFile)
    → commit os fs file ≡ ok fs'
    → (st : Stat) × (fs1 : Filesystem) × (swallow (remove_node fs file.real_path) fs ≡ ok fs1)
      × (fs' ≡ insert_node os fs1 file.real_path st false)
unfolding commit
commit_done os fs fs' file h =
    go (commit_file os file) (os.stat file.real_path.string)
      (swallow (remove_node fs file.real_path) fs) refl h
  where
    go :
        (c : Result (Unit {0})) (s : Result Stat) (r : Result Filesystem)
        → swallow (remove_node fs file.real_path) fs ≡ r
        → (c >>= λ u. s >>= λ st. r >>= λ fs1. ok (insert_node os fs1 file.real_path st false))
          ≡ ok fs'
        → (st : Stat) × (fs1 : Filesystem) × (swallow (remove_node fs file.real_path) fs ≡ ok fs1)
          × (fs' ≡ insert_node os fs1 file.real_path st false)
    go (ok u) (ok st) (ok fs1) er done = (st, fs1, er, cc)
    go (ok u) (ok st) (throw e) er done = absurd (cc)
    go (ok u) (throw e) r er done = absurd (cc)
    go (throw e) s r er done = absurd (cc)

-- what is left where `_removeNodeFromVirtualFS` throws and the exception is caught
absent :
    (fs : Filesystem) (path : FilePath) (n : Entry) (e : Exception)
    → lookup fs.root path.parts ≡ some n
    → remove_node fs path ≡ throw e
    → e ≡ exits
unfolding remove_node unsafe_get_entry_node
absent fs path n e there thrown = ground arith

swallowed :
    (fs fs1 : Filesystem) (e : Exception) → swallow (throw e) fs ≡ ok fs1 → (fs1 ≡ fs) × (e ≢ exits)
swallowed fs fs1 (command_exception m) h = (cc, λ k. cc)
swallowed fs fs1 (filesystem_exception m) h = (cc, λ k. cc)
swallowed fs fs1 (networking_exception m) h = (cc, λ k. cc)
swallowed fs fs1 (config_exception m) h = (cc, λ k. cc)
swallowed fs fs1 (regex_exception m) h = (cc, λ k. cc)
swallowed fs fs1 bad_cast h = (cc, λ k. cc)
swallowed fs fs1 out_of_range h = (cc, λ k. cc)
swallowed fs fs1 exits h = absurd (cc)

-- the tree before the insertion
without :
    (fs fs1 : Filesystem) (path : FilePath) (q : List Text)
    → path.parts ≢ []
    → swallow (remove_node fs path) fs ≡ ok fs1
    → present fs1.root q ≡ (present fs.root q && not (is_prefix path.parts q))
without fs fs1 path q nonempty h = go (remove_node fs path) refl h
  where
    nowhere :
        (e : Exception)
        → remove_node fs path ≡ throw e
        → e ≢ exits
        → present fs.root path.parts ≡ false
    nowhere e thrown ne = by_lookup (lookup fs.root path.parts) refl
      where
        by_lookup :
            (o : Option Entry) → lookup fs.root path.parts ≡ o → present fs.root path.parts ≡ false
        by_lookup none l = unfold present in rw (l, present) refl
        by_lookup (some n) l = absurd (ne (absent fs path n e l thrown))

    go :
        (r : Result Filesystem)
        → remove_node fs path ≡ r
        → swallow r fs ≡ ok fs1
        → present fs1.root q ≡ (present fs.root q && not (is_prefix path.parts q))
    go (ok fs2) er k =
        let same : fs2 ≡ fs1 = cc in
        subst (λ f. present f.root q ≡ (present fs.root q && not (is_prefix path.parts q))) same
          ((rm_removes fs fs2 path (unfold rm in er) nonempty).1 q)
    go (throw e) er k =
        let (same, ne) = swallowed fs fs1 e k in
        let gone = nowhere e er ne in
        let below = present_prefix fs.root path.parts q in
        subst (λ f. present f.root q ≡ (present fs.root q && not (is_prefix path.parts q)))
          (sym same) (ground (arith, below))

-- After a `commit` that returns, the tree has the file's path and those that lead to it, of what was
-- at the path before nothing is left, and every other path is as before.
pub commit_replaces :
    (os : Os) (fs fs' : Filesystem) (file : TemporaryFile)
    → commit os fs file ≡ ok fs'
    → file.real_path.parts ≢ []
    → (q : List Text)
    → present fs'.root q ≡ (
        is_prefix q file.real_path.parts
        || (present fs.root q && not (is_prefix file.real_path.parts q)))
commit_replaces os fs fs' file h nonempty q =
    let (st, fs1, removed, made) = commit_done os fs fs' file h in
    ap (λ f. present f.root q) made
    ∙ (insert_node-present os fs1 file.real_path st false q nonempty
        ∙ ap (λ b. is_prefix q file.real_path.parts || b)
            (without fs fs1 file.real_path q nonempty removed))
