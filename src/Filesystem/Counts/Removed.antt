-- ===== src/Filesystem/Counts/Removed.antt =====
-- `_removeNodeFromVirtualFS` of src/common/filesystem.cpp and the counter `nRecChildren`, at the
-- parent and above it.
use gazon.Base.{
  suc, ◌+◌, ◌%◌, ◌≡◌, refl, subst, ap, List, [], ◌∷◌, none, some, Text, Option-cases, inl, inr,
  arith, text_Eq, eq_iff,
}
use gazon.Filesystem.Tree.{
  Entry, entry, Children, no_child, child, info, children, find_child, put_child, erase_child,
  lookup, deduct, decrement, remove_at, add_size, sub_size, size_mod,
}
use gazon.Filesystem.Counts.{
  items, items_in, Counted, CountedIn, cons, items_in-put_old, find_child-Counted, Counted-eq,
  Counted-children, items-children,
}

erase_absent : (p : Text) (cs : Children) → find_child p cs ≡ none → erase_child p cs ≡ cs
unfolding find_child erase_child
erase_absent p no_child f = refl
erase_absent p (child n e cs) f = ground (arith, erase_absent p cs)

items_in-erase :
    (p : Text) (c : Entry) (cs : Children)
    → find_child p cs ≡ some c
    → CountedIn cs
    → items_in (erase_child p cs) + suc (items c) ≡ items_in cs
unfolding items find_child erase_child
items_in-erase p c no_child f h = absurd (ground arith)
items_in-erase p c (child n e cs) f (cons n' e' cs' fresh ce h) =
    ground (arith, erase_absent p cs, items_in-erase p c cs, eq_iff n p)

-- the first step of a walk that arrives
lookup_step :
    (n e : Entry) (p : Text) (ps : List Text)
    → lookup e (p ∷ ps) ≡ some n
    → (c : Entry) × (find_child p (children e) ≡ some c) × (lookup c ps ≡ some n)
lookup_step n e p ps l = elim (Option-cases (find_child p (children e))) [
  | inl f ↦ let k : none ≡ some n = unfold lookup in (rw (f, lookup) at l) in absurd (cc)
  | inr (c, f) ↦ (c, f, unfold lookup in rw (f, lookup) at l)
]

lookup_here : (n c : Entry) → lookup c [] ≡ some n → c ≡ n
unfolding lookup
lookup_here n c l = ground arith

-- The entry, and all below it, are gone from the tree.
pub items-remove_at :
    (n e : Entry) (p : Text) (ps : List Text)
    → lookup e (p ∷ ps) ≡ some n
    → CountedIn (children e)
    → items (remove_at (info n) e (p ∷ ps)) + suc (items n) ≡ items e
unfolding remove_at
items-remove_at n e p [] l h =
    let (c, f, l') = lookup_step n e p [] l in
    omega (
      arith,
      ap items (lookup_here n c l'),
      items-children e,
      items-children (entry (decrement (deduct (info n) (info e))) (erase_child p (children e))),
      items_in-erase p c (children e) f h,
    )
items-remove_at n e p (r ∷ rs) l h =
    let (c, f, l') = lookup_step n e p (r ∷ rs) l in
    let below =
      items-remove_at n c r rs l' (Counted-children (find_child-Counted p c (children e) f h)) in
    rw (f, remove_at)
      (omega (
        arith,
        below,
        items-children e,
        items-children (
            entry (deduct (info n) (info e))
              (put_child p (remove_at (info n) c (r ∷ rs)) (children e))),
        items_in-put_old p c (remove_at (info n) c (r ∷ rs)) (children e) f,
      ))

lookup-Counted :
    (n e : Entry) (p : Text) (ps : List Text)
    → lookup e (p ∷ ps) ≡ some n
    → CountedIn (children e)
    → Counted n
lookup-Counted n e p [] l h =
    let (c, f, l') = lookup_step n e p [] l in
    subst Counted (lookup_here n c l') (find_child-Counted p c (children e) f h)
lookup-Counted n e p (r ∷ rs) l h =
    let (c, f, l') = lookup_step n e p (r ∷ rs) l in
    lookup-Counted n c r rs l' (Counted-children (find_child-Counted p c (children e) f h))

count_parent :
    (n e : Entry) (p : Text)
    → (info (remove_at (info n) e (p ∷ []))).n_rec_children
      ≡ sub_size (sub_size (info e).n_rec_children ((info n).n_rec_children + 1)) 1
unfolding remove_at deduct decrement
count_parent n e p = refl

count_above :
    (n e : Entry) (p r : Text) (rs : List Text)
    → (info (remove_at (info n) e (p ∷ r ∷ rs))).n_rec_children
      ≡ sub_size (info e).n_rec_children ((info n).n_rec_children + 1)
unfolding remove_at deduct
count_above n e p r rs = elim (Option-cases (find_child p (children e))) [
  | inl f ↦ rw (f, remove_at)
  | inr (c, f) ↦ rw (f, remove_at)
]

-- Below a parent whose counters are right, removing the child `p` leaves the parent's counter one
-- below the number of the items that are left.
pub remove_at_undercounts :
    (n e : Entry) (p : Text)
    → lookup e (p ∷ []) ≡ some n
    → Counted e
    → add_size (info (remove_at (info n) e (p ∷ []))).n_rec_children 1
      ≡ items (remove_at (info n) e (p ∷ [])) % size_mod
remove_at_undercounts n e p l h = omega (
  arith,
  count_parent n e p,
  items-remove_at n e p [] l (Counted-children h),
  Counted-eq h,
  Counted-eq (lookup-Counted n e p [] l (Counted-children h)),
)

-- At an entry above the parent the counter is right again.
pub remove_at_counts_above :
    (n e : Entry) (p r : Text) (rs : List Text)
    → lookup e (p ∷ r ∷ rs) ≡ some n
    → Counted e
    → (info (remove_at (info n) e (p ∷ r ∷ rs))).n_rec_children
      ≡ items (remove_at (info n) e (p ∷ r ∷ rs)) % size_mod
remove_at_counts_above n e p r rs l h = omega (
  arith,
  count_above n e p r rs,
  items-remove_at n e p (r ∷ rs) l (Counted-children h),
  Counted-eq h,
  Counted-eq (lookup-Counted n e p (r ∷ rs) l (Counted-children h)),
)
