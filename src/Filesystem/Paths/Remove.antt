-- ===== src/Filesystem/Paths/Remove.antt =====
-- Removal from the tree, as an operation on the set of paths.
use gazon.Base.{
  ◌≡◌, refl, true, false, not, ◌&&◌, List, [], ◌∷◌, some, Text, Option-cases, inl, inr, ◌==◌,
  text_Eq, eq_iff, arith, Bool-cases,
}
use gazon.Filesystem.Tree.{
  Entry, entry, Info, info, children, find_child, put_child, erase_child, deduct, decrement,
  remove_at,
}
use gazon.Filesystem.Tree.ChildMap.{find_child-put_child, find_child-erase_child}
use gazon.Filesystem.Paths.{present, present-cons, is_prefix}

present-erase :
    (i : Info) (p : Text) (e : Entry) (q : List Text)
    → present (entry i (erase_child p (children e))) q ≡ (present e q && not (is_prefix (p ∷ []) q))
present-erase i p e [] = unfold is_prefix present in refl
present-erase i p e (q ∷ qs) =
    rw
      (
        present-cons (entry i (erase_child p (children e))) q qs,
        find_child-erase_child p q (children e),
        present-cons e q qs,
      )
      (unfold is_prefix in
        elim (Bool-cases (p == q)) [ inl h ↦ rw h (ground arith) | inr h ↦ rw h (ground arith) ])

present-replace :
    (i : Info) (p : Text) (e c c' : Entry) (rest q : List Text)
    → find_child p (children e) ≡ some c
    → ((qs : List Text) → present c' qs ≡ (present c qs && not (is_prefix rest qs)))
    → present (entry i (put_child p c' (children e))) q
      ≡ (present e q && not (is_prefix (p ∷ rest) q))
present-replace i p e c c' rest [] f h = unfold is_prefix present in refl
present-replace i p e c c' rest (q ∷ qs) f h =
    rw
      (
        present-cons (entry i (put_child p c' (children e))) q qs,
        find_child-put_child p q c' (children e),
        present-cons e q qs,
      )
      (unfold is_prefix in
        elim (Bool-cases (p == q)) [
          | inl eq ↦
              let same : p ≡ q = (eq_iff p q).0 eq in
              let f' : find_child q (children e) ≡ some c = rw (← same) f in rw (eq, f') (h qs)
          | inr ne ↦ rw ne (ground arith)
        ])

-- Of a path that the tree has, `_removeNodeFromVirtualFS` takes away exactly the path and those
-- that it is a prefix of.
pub present-remove_at :
    (node : Info) (e : Entry) (p : Text) (ps q : List Text)
    → present e (p ∷ ps) ≡ true
    → present (remove_at node e (p ∷ ps)) q ≡ (present e q && not (is_prefix (p ∷ ps) q))
unfolding remove_at
present-remove_at node e p [] q h = present-erase (decrement (deduct node (info e))) p e q
present-remove_at node e p (r ∷ rs) q h = elim (Option-cases (find_child p (children e))) [
  | inl f ↦ let k : false ≡ true = rw (present-cons, f) at h in absurd (cc)
  | inr (c, f) ↦
      let below : present c (r ∷ rs) ≡ true = rw (present-cons, f) at h in
      rw (f, remove_at)
        (present-replace (deduct node (info e)) p e c (remove_at node c (r ∷ rs)) (r ∷ rs) q f
          λ qs. present-remove_at node c r rs qs below)
]
