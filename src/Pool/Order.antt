-- ===== src/Pool/Order.antt =====
-- `ThreadPoolQueue` as one first-in first-out list of items for each tag.
use gazon.Base.{
  ℕ, ◌<◌, ◌≡◌, refl, ap, sym, ◌∙◌, subst, Bool, true, false, List, [], ◌∷◌, ◌++◌, Option, none,
  some, get_elem?, set, get_elem?-set_self, get_elem?-set_ne, nat_eq, Eq, ◌==◌, eq_self,
  if◌then◌else◌, arith, append-nil, Bool-cases, inl, inr,
}
use gazon.Base.Maps.{find}
use gazon.Pool.Queue.{Queue, slots, push_back}
use gazon.Pool.Spill.{IsQueue, contents}
use gazon.Pool.Fifo.{push_back_appends}
use gazon.Pool.Drain.{get_elem?-lt, pops_first}
use gazon.Pool.Tagged.{ThreadPoolQueue, pops, assign, index_of, push_at, push, block_until_pop}

module _ {Tag Element : Type 0} ⦃tags : Eq Tag⦄ where
  -- the items of one tag, in order
  unfoldable pub items_of : Tag → List (Element × Tag) → List Element
  items_of tag [] = []
  items_of tag ((item, t) ∷ rest) = if t == tag then item ∷ items_of tag rest else items_of tag rest

  abbrev pub items_in : Tag → Option (Queue (Element × Tag)) → List Element
  items_in tag none = []
  items_in tag (some q) = items_of tag (contents q)

  -- The items of a tag that wait in the subqueue of its worker.
  abbrev pub pending : Tag → ThreadPoolQueue Tag Element → List Element
  pending tag p = items_in tag (get_elem? p.subqueues (index_of tag p))

  items_of-append :
      (tag : Tag) (xs ys : List (Element × Tag))
      → items_of tag (xs ++ ys) ≡ items_of tag xs ++ items_of tag ys
  unfolding items_of
  items_of-append tag [] ys = refl
  items_of-append tag ((item, t) ∷ xs) ys = go (t == tag) (items_of-append tag xs ys)
    where
      go :
          (b : Bool)
          → items_of tag (xs ++ ys) ≡ items_of tag xs ++ items_of tag ys
          → (if b then item ∷ items_of tag (xs ++ ys) else items_of tag (xs ++ ys))
            ≡ (if b then item ∷ items_of tag xs else items_of tag xs) ++ items_of tag ys
      go true ih = ap (λ l. item ∷ l) ih
      go false ih = ih

  -- a subqueue is exchanged for one that has as many items of the tag `t`
  exchange :
      (index i : ℕ) (subqueues : List (Queue (Element × Tag))) (q q' : Queue (Element × Tag))
      (t : Tag)
      → get_elem? subqueues index ≡ some q
      → items_of t (contents q') ≡ items_of t (contents q)
      → items_in t (get_elem? (set subqueues index q') i) ≡ items_in t (get_elem? subqueues i)
  exchange index i subqueues q q' t there same = elim (Bool-cases (nat_eq index i)) [
    | inl e ↦
        let here : index ≡ i = ground arith in
        subst
          (λ k.
            items_in t (get_elem? (set subqueues index q') k) ≡ items_in t (get_elem? subqueues k))
          here
          (ap (items_in t)
              (get_elem?-set_self subqueues index q' (get_elem?-lt subqueues index q there))
            ∙ (same ∙ sym (ap (items_in t) there)))
    | inr e ↦ ap (items_in t) (get_elem?-set_ne subqueues index i q' (ground arith))
  ]

  head_same :
      (item : Element) (tag : Tag) (rest : List (Element × Tag))
      → items_of tag ((item, tag) ∷ rest) ≡ item ∷ items_of tag rest
  unfolding items_of
  head_same item tag rest =
      ap (λ b. if b then item ∷ items_of tag rest else items_of tag rest) (eq_self tag)

  head_other :
      (item : Element) (tag t : Tag) (rest : List (Element × Tag))
      → (tag == t) ≡ false
      → items_of t ((item, tag) ∷ rest) ≡ items_of t rest
  unfolding items_of
  head_other item tag t rest other =
      ap (λ b. if b then item ∷ items_of t rest else items_of t rest) other

  -- A worker whose subqueue starts with an item of a tag that is its own pops that item: it is the
  -- first that waits of the tag, the others of the tag wait on in their order, and those of every
  -- other tag wait as before.
  pub pops_in_order :
      (index : ℕ) (p : ThreadPoolQueue Tag Element) (q : Queue (Element × Tag)) (item : Element)
      (tag : Tag) (rest : List (Element × Tag))
      → get_elem? p.subqueues index ≡ some q
      → IsQueue q
      → contents q ≡ (item, tag) ∷ rest
      → index_of tag p ≡ index
      → (p' : ThreadPoolQueue Tag Element) × (block_until_pop index p ≡ some (pops item tag p'))
        × (pending tag p ≡ item ∷ pending tag p')
        × ((t : Tag) → (tag == t) ≡ false → pending t p' ≡ pending t p)
  unfolding index_of
  pops_in_order index p q item tag rest there w held own =
      let (q', run, w', left) = pops_first index p q item tag rest there w held in
      (
        record p { subqueues = set p.subqueues index q' },
        run,
        ap (λ k. items_in tag (get_elem? p.subqueues k)) own
            ∙ (ap (items_in tag) there
                ∙ (ap (items_of tag) held
                    ∙ (head_same item tag rest
                        ∙ ap (λ l. item ∷ l)
                            (ap (items_of tag) (sym left)
                              ∙ (sym (
                                    ap (items_in tag) (
                                      get_elem?-set_self p.subqueues index q'
                                        (get_elem?-lt p.subqueues index q there)))
                                  ∙ ap (λ k. items_in tag (get_elem? (set p.subqueues index q') k))
                                      (sym own)))))),
        λ t other. exchange index (index_of t p) p.subqueues q q' t there (
            ap (items_of t) left
            ∙ (sym (head_other item tag t rest other) ∙ sym (ap (items_of t) held))),
      )

  push_at-some :
      (i : ℕ) (tag : Tag) (item : Element) (p : ThreadPoolQueue Tag Element)
      (q q' : Queue (Element × Tag))
      → get_elem? p.subqueues i ≡ some q
      → push_back q (item, tag) ≡ some q'
      → push_at i tag item p ≡ some (record p { subqueues = set p.subqueues i q' })
  unfolding push_at
  push_at-some i tag item p q q' there run = rw (there, push_at) (rw run refl)

  assign-known :
      (n i : ℕ) (tag : Tag) (p : ThreadPoolQueue Tag Element)
      → find tag p.map ≡ some i
      → assign n tag p ≡ p
  unfolding assign
  assign-known n i tag p known = rw (known, assign) refl

  index_of-known :
      (i : ℕ) (tag : Tag) (p : ThreadPoolQueue Tag Element)
      → find tag p.map ≡ some i
      → index_of tag p ≡ i
  unfolding index_of
  index_of-known i tag p known = rw (known, index_of) refl

  mapped :
      (n i : ℕ) (tag : Tag) (item : Element) (p : ThreadPoolQueue Tag Element)
      → find tag p.map ≡ some i
      → (push n tag item p ≡ push_at i tag item p) × (index_of tag p ≡ i)
  unfolding push
  mapped n i tag item p known = (
    ap (λ p'. push_at (index_of tag p') tag item p') (assign-known n i tag p known)
        ∙ ap (λ k. push_at k tag item p) (index_of-known i tag p known),
    index_of-known i tag p known,
  )

  -- An item that is pushed with a tag that has a worker is the last that waits of its tag, and those
  -- of every other tag wait as before, if the worker's subqueue has a slot left.
  pub pushes_in_order :
      (n i : ℕ) (tag : Tag) (item : Element) (p : ThreadPoolQueue Tag Element)
      (q : Queue (Element × Tag))
      → find tag p.map ≡ some i
      → get_elem? p.subqueues i ≡ some q
      → IsQueue q
      → q.m_push_index < slots
      → (p' : ThreadPoolQueue Tag Element) × (push n tag item p ≡ some p')
        × (pending tag p' ≡ pending tag p ++ item ∷ [])
        × ((t : Tag) → (tag == t) ≡ false → pending t p' ≡ pending t p)
  unfolding index_of
  pushes_in_order n i tag item p q known there w room =
      let (q', run, w', held) = push_back_appends q (item, tag) w room in
      let (at_i, index) = mapped n i tag item p known in
      (
        record p { subqueues = set p.subqueues i q' },
        at_i ∙ push_at-some i tag item p q q' there run,
        ap (λ k. items_in tag (get_elem? (set p.subqueues i q') k)) index
            ∙ (ap (items_in tag)
                  (get_elem?-set_self p.subqueues i q' (get_elem?-lt p.subqueues i q there))
                ∙ (ap (items_of tag) held
                    ∙ (items_of-append tag (contents q) ((item, tag) ∷ [])
                        ∙ (ap (λ l. items_of tag (contents q) ++ l)
                              (head_same item tag [] ∙ nothing item tag)
                            ∙ ap (λ l. l ++ item ∷ [])
                                (sym (ap (items_in tag) there)
                                  ∙ ap (λ k. items_in tag (get_elem? p.subqueues k))
                                      (sym index)))))),
        λ t other. exchange i (index_of t p) p.subqueues q q' t there (
            ap (items_of t) held
            ∙ (items_of-append t (contents q) ((item, tag) ∷ [])
                ∙ (ap (λ l. items_of t (contents q) ++ l)
                      (head_other item tag t [] other ∙ none_left t)
                    ∙ append-nil (items_of t (contents q))))),
      )
    where
      nothing : (item : Element) (tag : Tag) → item ∷ items_of tag [] ≡ item ∷ []
      nothing item tag = unfold items_of in refl

      none_left : (t : Tag) → items_of t [] ≡ []
      none_left t = unfold items_of in refl
