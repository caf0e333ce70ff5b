-- ===== src/Filesystem/Operations.antt =====
-- `mkdir`, `rm` and `commit` of src/common/filesystem.cpp, seen as operations on the set of paths.
use gazon.Base.{
  suc, ◌≡◌, ◌≢◌, refl, Bool, true, false, not, ◌&&◌, ◌||◌, List, [], ◌∷◌, Option, none, some, Text,
  Option-cases, List-cases, inl, inr, text_Eq, eq_iff, arith, length,
}
use gazon.Errors.{Result, ok, throw}
use gazon.FilePath.{FilePath}
use gazon.Filesystem.Tree.{Entry, Stat, info, children, lookup, missing, find_child, remove_at}
use gazon.Filesystem.{
  Filesystem, Os, mkdir, insert_node, insert_parts, rm, remove_node, unsafe_get_entry_node,
}
use gazon.Filesystem.Paths.{present, present-cons, is_prefix, missing-present}
use gazon.Filesystem.Paths.Insert.{present-insert_at}
use gazon.Filesystem.Paths.Remove.{present-remove_at}
use gazon.Filesystem.Counts.{CountedIn}
use gazon.Filesystem.Counts.Inserted.{insert_at-CountedIn}

-- what a `mkdir` that returns has done
mkdir_done :
    (os : Os) (fs fs' : Filesystem) (path : FilePath)
    → mkdir os fs path ≡ ok fs'
    → (missing fs.root path.parts ≡ 1) × ((st : Stat) × (fs' ≡ insert_node os fs path st true))
unfolding mkdir
mkdir_done os fs fs' path h = go (os.mkdir_error path.string) refl (os.stat path.string) refl
  where
    go :
        (m : Option Text)
        → os.mkdir_error path.string ≡ m
        → (r : Result Stat) → os.stat path.string ≡ r
        → (missing fs.root path.parts ≡ 1) × ((st : Stat) × (fs' ≡ insert_node os fs path st true))
    go none em (ok st) er = (ground arith, (st, ground arith))
    go none em (throw x) er = absurd (ground arith)
    go (some m) em r er = absurd (ground arith)

-- A path is there only with the paths that lead to it.
pub present_prefix :
    (e : Entry) (p q : List Text) → is_prefix p q ≡ true → present e q ≡ true → present e p ≡ true
present_prefix e [] q h k = unfold present lookup in refl
present_prefix e (p ∷ ps) [] h k = absurd (unfold is_prefix in ground arith)
present_prefix e (p ∷ ps) (q ∷ qs) h k = elim (Option-cases (find_child q (children e))) [
  | inl f ↦ let x : false ≡ true = (rw (present-cons, f) at k) in absurd (cc)
  | inr (c, f) ↦
      let same : p ≡ q = unfold is_prefix in ground (arith, eq_iff p q) in
      let tails : is_prefix ps qs ≡ true = unfold is_prefix in ground (arith, eq_iff p q) in
      let below : present c qs ≡ true = (rw (present-cons, f) at k) in
      let ih = present_prefix c ps qs tails below in here c same f ih
]
  where
    here :
        (c : Entry)
        → p ≡ q
        → find_child q (children e) ≡ some c
        → present c ps ≡ true
        → present e (p ∷ ps) ≡ true
    here c same f ih = rw (present-cons, same, f) (ih)

pub insert_node-present :
    (os : Os) (fs : Filesystem) (path : FilePath) (st : Stat) (folder : Bool) (q : List Text)
    → path.parts ≢ []
    → present (insert_node os fs path st folder).root q
      ≡ (is_prefix q path.parts || present fs.root q)
insert_node-present os fs path st folder q h = elim (List-cases path.parts) [
  | inl e ↦ absurd (h e)
  | inr (p, ps, e) ↦
      unfold insert_node insert_parts in
      rw (e, insert_parts) (present-insert_at os.garbage st folder fs.root p ps q)
]

missing_nonempty : (e : Entry) (q : List Text) → missing e q ≡ 1 → q ≢ []
unfolding missing
missing_nonempty e [] h k = absurd (omega arith)
missing_nonempty e (p ∷ ps) h k = cc

-- A `mkdir` that returns found no entry at the path. Afterwards the tree has the path and what it
-- had before, nothing else; and if every `nRecChildren` below the root was the number of the items
-- under its entry, modulo 2^64, it is so again.
pub mkdir_creates :
    (os : Os) (fs fs' : Filesystem) (path : FilePath)
    → mkdir os fs path ≡ ok fs'
    → (present fs.root path.parts ≡ false)
      × ((q : List Text) → present fs'.root q ≡ (is_prefix q path.parts || present fs.root q))
      × (CountedIn (children fs.root) → CountedIn (children fs'.root))
mkdir_creates os fs fs' path h =
    let (one, (st, e)) = mkdir_done os fs fs' path h in
    (
      ground (arith, missing-present fs.root path.parts),
      λ q.
          rw e (insert_node-present os fs path st true q (missing_nonempty fs.root path.parts one)),
      λ k. rw e (counts st one k),
    )
  where
    counts :
        (st : Stat)
        → missing fs.root path.parts ≡ 1
        → CountedIn (children fs.root)
        → CountedIn (children (insert_node os fs path st true).root)
    counts st one k = elim (List-cases path.parts) [
      | inl e ↦ absurd (missing_nonempty fs.root path.parts one e)
      | inr (p, ps, e) ↦
          unfold insert_node insert_parts in
          rw (e, insert_parts)
            (insert_at-CountedIn os.garbage st true fs.root p ps (rw e at one) k).0
    ]

remove_node_done :
    (fs fs' : Filesystem) (path : FilePath)
    → remove_node fs path ≡ ok fs'
    → (n : Entry) × (lookup fs.root path.parts ≡ some n)
      × (fs' ≡ record fs { root = remove_at (info n) fs.root path.parts })
remove_node_done fs fs' path h = go (lookup fs.root path.parts) refl
  where
    go :
        (o : Option Entry)
        → lookup fs.root path.parts ≡ o
        → (n : Entry) × (lookup fs.root path.parts ≡ some n)
          × (fs' ≡ record fs { root = remove_at (info n) fs.root path.parts })
    go none e = absurd (unfold remove_node unsafe_get_entry_node in ground arith)
    go (some n) e = (n, e, unfold remove_node unsafe_get_entry_node in ground arith)

-- An `rm` that returns found an entry at the path. Afterwards that path and all those below it are
-- gone, and every other path is as before. (The path has a part: `rm` of the root's own path
-- changes no entry.)
pub rm_removes :
    (fs fs' : Filesystem) (path : FilePath)
    → rm fs path ≡ ok fs'
    → path.parts ≢ []
    → (present fs.root path.parts ≡ true)
      × ((q : List Text) → present fs'.root q ≡ (present fs.root q && not (is_prefix path.parts q)))
rm_removes fs fs' path h nonempty =
    let (n, l, e) = remove_node_done fs fs' path (unfold rm in h) in
    let there : present fs.root path.parts ≡ true = unfold present in rw (l, present) in
    (there, λ q. rw e (removed n path.parts nonempty there q))
  where
    removed :
        (n : Entry) (ps : List Text)
        → ps ≢ []
        → present fs.root ps ≡ true
        → (q : List Text)
        → present (remove_at (info n) fs.root ps) q ≡ (present fs.root q && not (is_prefix ps q))
    removed n [] h there q = absurd (h refl)
    removed n (p ∷ ps) h there q = present-remove_at (info n) fs.root p ps q there

-- where one part is missing, everything that leads to it is there
parents_present :
    (e : Entry) (ps q : List Text)
    → missing e ps ≡ 1
    → is_prefix q ps ≡ true
    → is_prefix ps q ≡ false
    → present e q ≡ true
parents_present e ps [] m h k = unfold present lookup in refl
parents_present e [] (r ∷ rs) m h k = absurd (unfold is_prefix in ground arith)
parents_present e (p ∷ ps) (r ∷ rs) m h k =
    let same : r ≡ p = unfold is_prefix in ground (arith, eq_iff r p) in
    let h' : is_prefix rs ps ≡ true = unfold is_prefix in ground (arith, eq_iff r p) in
    let k' : is_prefix ps rs ≡ false = unfold is_prefix in ground (arith, eq_iff r p, eq_iff p r) in
    elim (Option-cases (find_child p (children e))) [
      | inl f ↦ absurd (alone ps rs (unfold missing in rw (f, missing) at m) h' k')
      | inr (c, f) ↦
          let ih = parents_present c ps rs (unfold missing in rw (f, missing) at m) h' k' in
          rw (present-cons, same, f) ih
    ]
  where
    alone :
        (ps rs : List Text)
        → suc (length ps) ≡ 1
        → is_prefix rs ps ≡ true
        → is_prefix ps rs ≡ false
        → ⊥
    alone [] rs a b c = unfold is_prefix in cc
    alone (p ∷ ps) rs a b c = omega arith

-- A directory that `mkdir` makes and `rm` removes leaves the paths that were there before.
pub rm-mkdir :
    (os : Os) (fs fs' fs'' : Filesystem) (path : FilePath)
    → mkdir os fs path ≡ ok fs'
    → rm fs' path ≡ ok fs''
    → (q : List Text) → present fs''.root q ≡ present fs.root q
rm-mkdir os fs fs' fs'' path made removed q =
    let (fresh, added, _) = mkdir_creates os fs fs' path made in
    let (one, _) = mkdir_done os fs fs' path made in
    let (_, gone) = rm_removes fs' fs'' path removed (missing_nonempty fs.root path.parts one) in
    grind (
      arith,
      gone q,
      added q,
      present_prefix fs.root path.parts q,
      parents_present fs.root path.parts q one,
    )
