-- ===== src/Filesystem/Counts.antt =====
-- The counter `nRecChildren` against the number of items below an entry.
pub mod Inserted
pub mod Removed
use gazon.Base.{
  ℕ, zero, suc, ◌+◌, ◌-◌, ◌%◌, ◌≤◌, ◌≡◌, refl, subst, sym, ap, ◌∙◌, Bool, true, false, List, [],
  ◌∷◌, Option, none, some, Text, Option-cases, inl, inr, ◌==◌, text_Eq, eq_iff, if◌then◌else◌,
  arith, Bool-cases, length,
}
use gazon.Filesystem.Tree.{
  Entry, entry, Children, no_child, child, Info, Stat, info, children, get, new_entry, find_child,
  put_child, erase_child, pass_through, settle, insert_at, missing, deduct, decrement, remove_at,
  add_size, sub_size, size_mod,
}
use gazon.Filesystem.Tree.ChildMap.{find_child-put_child}

-- "Number of items under the current node. That is, number of subfiles and subfolders recursively."
unfoldable mutual
  pub items : Entry → ℕ
  items (entry i cs) = items_in cs

  pub items_in : Children → ℕ
  items_in no_child = 0
  items_in (child n e cs) = suc (items e + items_in cs)

-- Every counter below holds the number of the items, as a `size_t`, and every map has each name
-- once.
mutual
  pub data Counted : Entry → Type 0 where
    counted :
        (i : Info) (cs : Children)
        → i.n_rec_children ≡ items_in cs % size_mod
        → CountedIn cs
        → Counted (entry i cs)

  pub data CountedIn : Children → Type 0 where
    nil : CountedIn no_child
    cons :
        (n : Text) (e : Entry) (cs : Children)
        → find_child n cs ≡ none
        → Counted e
        → CountedIn cs
        → CountedIn (child n e cs)

pub items_in-put_new :
    (p : Text) (e : Entry) (cs : Children)
    → find_child p cs ≡ none
    → items_in (put_child p e cs) ≡ suc (items_in cs + items e)
unfolding items find_child put_child
items_in-put_new p e no_child f = omega arith
items_in-put_new p e (child n d cs) f = ground (arith, items_in-put_new p e cs)

pub items_in-put_old :
    (p : Text) (c e : Entry) (cs : Children)
    → find_child p cs ≡ some c
    → items_in (put_child p e cs) + items c ≡ items_in cs + items e
unfolding items find_child put_child
items_in-put_old p c e no_child f = absurd (ground arith)
items_in-put_old p c e (child n d cs) f = ground (arith, items_in-put_old p c e cs)

pub put_child-CountedIn :
    (p : Text) (e : Entry) (cs : Children) → Counted e → CountedIn cs → CountedIn (put_child p e cs)
unfolding put_child
put_child-CountedIn p e no_child ce h = cons p e no_child (unfold find_child in refl) ce nil
put_child-CountedIn p e (child n d cs) ce (cons n' d' cs' f cd h) = elim (Bool-cases (n == p)) [
  | inl eq ↦ rw eq (cons n e cs f ce h)
  | inr ne ↦ rw ne (
      cons n d _ (rw (find_child-put_child p n e cs) (ground (arith, eq_iff p n, eq_iff n p))) cd
        (put_child-CountedIn p e cs ce h))
]

pub find_child-Counted :
    (p : Text) (c : Entry) (cs : Children) → find_child p cs ≡ some c → CountedIn cs → Counted c
unfolding find_child
find_child-Counted p c no_child f h = absurd (ground arith)
find_child-Counted p c (child n d cs) f (cons n' d' cs' f' cd h) = elim (Bool-cases (n == p)) [
  | inl eq ↦ let same : d ≡ c = ground arith in subst Counted same cd
  | inr ne ↦ find_child-Counted p c cs (ground arith) h
]

pub Counted-eq : {e : Entry} → Counted e → (info e).n_rec_children ≡ items e % size_mod
unfolding items
Counted-eq (counted i cs h k) = h

pub Counted-children : {e : Entry} → Counted e → CountedIn (children e)
Counted-children (counted i cs h k) = k

pub Counted-of :
    (e : Entry) → (info e).n_rec_children ≡ items e % size_mod → CountedIn (children e) → Counted e
unfolding items
Counted-of (entry i cs) h k = counted i cs h k

pub items-children : (e : Entry) → items e ≡ items_in (children e)
unfolding items
items-children (entry i cs) = refl
