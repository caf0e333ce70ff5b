-- ===== src/Filesystem/Paths/Insert.antt =====
-- Insertion into the tree, as an operation on the set of paths.
use gazon.Base.{
  ℕ, ◌≡◌, refl, ap, ◌∙◌, Bool, ◌||◌, List, [], ◌∷◌, Text, Option-cases, inl, inr, ◌==◌, text_Eq,
  eq_iff, eq_self, if◌then◌else◌, arith, Bool-cases,
}
use gazon.Filesystem.Tree.{
  Entry, entry, Stat, info, children, get, find_child, put_child, pass_through, settle, insert_at,
  lookup,
}
use gazon.Filesystem.Tree.ChildMap.{find_child-put_child}
use gazon.Filesystem.Paths.{present, present-cons, is_prefix}

present-children :
    (d e : Entry) (q : List Text) → children d ≡ children e → present d q ≡ present e q
unfolding present
present-children d e [] h = refl
present-children d e (p ∷ ps) h = rw (h, present, lookup)

children-settle :
    (st : Stat) (folder : Bool) (e : Entry) → children (settle st folder e) ≡ children e
unfolding settle
children-settle st folder (entry i cs) = refl

children-pass_through :
    (st : Stat) (folder : Bool) (e : Entry) → children (pass_through st folder e) ≡ children e
unfolding pass_through
children-pass_through st folder (entry i cs) = refl

-- below a child that was there or has been created, the paths are those of before
present-get :
    (garbage : ℕ) (e : Entry) (p q : Text) (qs : List Text)
    → present (get garbage e p) (q ∷ qs) ≡ present e (p ∷ q ∷ qs)
present-get garbage e p q qs = elim (Option-cases (find_child p (children e))) [
  | inl f ↦ unfold get present find_child in rw (f, get, present, lookup) refl
  | inr (c, f) ↦ unfold get present in rw (f, get, present, lookup) refl
]

abbrev under : Text → Entry → Entry → Entry
under p e c = entry (info e) (put_child p c (children e))

present-under :
    (p : Text) (e c : Entry) (q : Text) (qs : List Text)
    → present (under p e c) (q ∷ qs) ≡ (if p == q then present c qs else present e (q ∷ qs))
present-under p e c q qs =
    rw (present-cons (under p e c) q qs, find_child-put_child p q c (children e))
      (elim (Bool-cases (p == q)) [ inl h ↦ rw h | inr h ↦ rw (h, present-cons e q qs) ])

present-under_prefix :
    (p : Text) (e c : Entry) (rest q : List Text)
    → ((t : Text) (ts : List Text)
        → present c (t ∷ ts) ≡ (is_prefix (t ∷ ts) rest || present e (p ∷ t ∷ ts)))
    → present (under p e c) q ≡ (is_prefix q (p ∷ rest) || present e q)
present-under_prefix p e c rest [] h = unfold is_prefix present in refl
present-under_prefix p e c rest (q ∷ []) h =
    rw present-under (unfold is_prefix present in ground (arith, eq_iff p q, eq_iff q p))
present-under_prefix p e c rest (q ∷ t ∷ ts) h = rw present-under (elim (Bool-cases (p == q)) [
  | inl eq ↦
      let same : p ≡ q = (eq_iff p q).0 eq in
      rw eq (h t ts ∙ rw same (unfold is_prefix in rw (eq_self q) refl))
  | inr ne ↦ unfold is_prefix in ground (arith, eq_iff p q, eq_iff q p)
])

-- After `unsafeInsertNode` the tree has the path, each of its prefixes, and the paths of before.
pub present-insert_at :
    (garbage : ℕ) (st : Stat) (folder : Bool) (e : Entry) (p : Text) (ps q : List Text)
    → present (insert_at garbage st folder e p ps) q ≡ (is_prefix q (p ∷ ps) || present e q)
unfolding insert_at
present-insert_at garbage st folder e p [] q =
    present-under_prefix p e (settle st folder (get garbage e p)) [] q λ t ts.
      unfold is_prefix in
      present-children (settle st folder (get garbage e p)) (get garbage e p) (t ∷ ts)
        (children-settle st folder (get garbage e p))
      ∙ present-get garbage e p t ts
present-insert_at garbage st folder e p (r ∷ rs) q = present-under_prefix p e _ (r ∷ rs) q λ t ts.
    present-insert_at garbage st folder (pass_through st folder (get garbage e p)) r rs (t ∷ ts)
    ∙ ap (λ b. is_prefix (t ∷ ts) (r ∷ rs) || b)
        (present-children (pass_through st folder (get garbage e p)) (get garbage e p) (t ∷ ts)
            (children-pass_through st folder (get garbage e p))
          ∙ present-get garbage e p t ts)
