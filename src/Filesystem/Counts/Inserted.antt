-- ===== src/Filesystem/Counts/Inserted.antt =====
-- `unsafeInsertNode` and the counter `nRecChildren`, where the path is new and its parent is there.
use gazon.Base.{
  ℕ, suc, ◌≡◌, refl, sym, ◌∙◌, Bool, List, [], ◌∷◌, none, some, Text, Option-cases, inl, inr, arith,
  length, subst,
}
use gazon.Filesystem.Tree.{
  Entry, entry, Stat, info, children, get, new_entry, find_child, put_child, pass_through, settle,
  insert_at, missing, add_size,
}
use gazon.Filesystem.Counts.{
  items, Counted, CountedIn, nil, items_in-put_new, items_in-put_old, put_child-CountedIn,
  find_child-Counted, Counted-eq, Counted-children, Counted-of, items-children,
}

-- The subtree is counted and has one item more than `before`.
record Grown (before : ℕ) (e : Entry) : Type 0 where
  grown : items e ≡ suc before
  all_counted : CountedIn (children e)

one_missing-none :
    (e : Entry) (p : Text) → missing e (p ∷ []) ≡ 1 → find_child p (children e) ≡ none
unfolding missing
one_missing-none e p h = ground arith

one_missing-some :
    (e : Entry) (p r : Text) (rs : List Text)
    → missing e (p ∷ r ∷ rs) ≡ 1
    → (c : Entry) × (find_child p (children e) ≡ some c) × (missing c (r ∷ rs) ≡ 1)
one_missing-some e p r rs h = elim (Option-cases (find_child p (children e))) [
  | inl f ↦
      let k : suc (suc (length rs)) ≡ 1 = unfold missing in (rw (f, missing) at h) in
      absurd (omega arith)
  | inr (c, f) ↦ (c, f, unfold missing in rw (f, missing) at h)
]

new_leaf-Counted :
    (garbage : ℕ) (st : Stat) (folder : Bool)
    → Counted (settle st folder (new_entry garbage))
      × (items (settle st folder (new_entry garbage)) ≡ 0)
unfolding settle items
new_leaf-Counted garbage st folder = (Counted-of _ (omega arith) nil, refl)

children-pass :
    (st : Stat) (folder : Bool) (c : Entry) → children (pass_through st folder c) ≡ children c
unfolding pass_through
children-pass st folder (entry i cs) = refl

count-pass :
    (st : Stat) (folder : Bool) (c : Entry)
    → (info (pass_through st folder c)).n_rec_children ≡ add_size (info c).n_rec_children 1
unfolding pass_through
count-pass st folder (entry i cs) = refl

missing-children :
    (c d : Entry) (q : List Text) → children c ≡ children d → missing c q ≡ missing d q
unfolding missing
missing-children c d [] h = refl
missing-children c d (p ∷ ps) h = rw (h, missing)

grow_under :
    (e c c' : Entry) (p : Text)
    → find_child p (children e) ≡ some c
    → CountedIn (children e)
    → Counted c'
    → items c' ≡ suc (items c)
    → Grown (items e) (entry (info e) (put_child p c' (children e)))
grow_under e c c' p f h k g = record {
  grown =
      items-children (entry (info e) (put_child p c' (children e)))
      ∙ omega (arith, items_in-put_old p c c' (children e) f, items-children e);
  all_counted = put_child-CountedIn p c' (children e) k h;
}

info-insert_at :
    (garbage : ℕ) (st : Stat) (folder : Bool) (e : Entry) (p : Text) (ps : List Text)
    → info (insert_at garbage st folder e p ps) ≡ info e
unfolding insert_at
info-insert_at garbage st folder e p [] = refl
info-insert_at garbage st folder e p (r ∷ rs) = refl

items-pass : (st : Stat) (folder : Bool) (c : Entry) → items (pass_through st folder c) ≡ items c
unfolding pass_through items
items-pass st folder (entry i cs) = refl

-- the step from a folder on the way to the one above it
insert_step :
    (garbage : ℕ) (st : Stat) (folder : Bool) (e c : Entry) (p r : Text) (rs : List Text)
    → find_child p (children e) ≡ some c
    → CountedIn (children e)
    → Counted c
    → Grown
        (items (pass_through st folder c))
        (insert_at garbage st folder (pass_through st folder c) r rs)
    → Grown (items e) (insert_at garbage st folder e p (r ∷ rs))
insert_step garbage st folder e c p r rs f h counted_c g =
    unfold insert_at get in
    rw (f, get)
      (grow_under e c (insert_at garbage st folder (pass_through st folder c) r rs) p f h
        (Counted-of (insert_at garbage st folder (pass_through st folder c) r rs)
          (rw
            (
              info-insert_at garbage st folder (pass_through st folder c) r rs,
              count-pass st folder c,
            )
            (omega (arith, Counted-eq counted_c, g.grown, items-pass st folder c)))
          g.all_counted)
        (omega (arith, g.grown, items-pass st folder c)))

insert_at-Grown :
    (garbage : ℕ) (st : Stat) (folder : Bool) (e : Entry) (p : Text) (ps : List Text)
    → missing e (p ∷ ps) ≡ 1
    → CountedIn (children e)
    → Grown (items e) (insert_at garbage st folder e p ps)
unfolding insert_at
insert_at-Grown garbage st folder e p [] m h =
    let f = one_missing-none e p m in
    let leaf = new_leaf-Counted garbage st folder in
    unfold get in
    rw (f, get)
      (record {
        grown =
            items-children
              (entry (info e) (put_child p (settle st folder (new_entry garbage)) (children e)))
            ∙ omega (
              arith,
              items_in-put_new p (settle st folder (new_entry garbage)) (children e) f,
              items-children e,
              leaf.1,
            );
        all_counted = put_child-CountedIn p _ (children e) leaf.0 h;
      })
insert_at-Grown garbage st folder e p (r ∷ rs) m h =
    let (c, f, m') = one_missing-some e p r rs m in
    let counted_c = find_child-Counted p c (children e) f h in
    let d = pass_through st folder c in
    let g =
      insert_at-Grown garbage st folder d r rs
        (missing-children d c (r ∷ rs) (children-pass st folder c) ∙ m')
        (subst CountedIn (sym (children-pass st folder c)) (Counted-children counted_c)) in
    insert_step garbage st folder e c p r rs f h counted_c g

pub insert_at-CountedIn :
    (garbage : ℕ) (st : Stat) (folder : Bool) (e : Entry) (p : Text) (ps : List Text)
    → missing e (p ∷ ps) ≡ 1
    → CountedIn (children e)
    → CountedIn (children (insert_at garbage st folder e p ps))
      × (items (insert_at garbage st folder e p ps) ≡ suc (items e))
insert_at-CountedIn garbage st folder e p ps m h =
    let g = insert_at-Grown garbage st folder e p ps m h in (g.all_counted, g.grown)
