-- ===== src/Pool/Spill.antt =====
-- The items of a `Queue` of include/common/threadpool.h, and what `spill` does with them.
use gazon.Base.{
  ℕ, zero, suc, ◌+◌, ◌≤◌, ◌<◌, ◌≡◌, refl, sym, ap, ◌∙◌, true, List, [], ◌∷◌, ◌++◌, some, get_elem?,
  set, length, length-set, take, ltb, nat_eq, arith, append_assoc, append-nil, inl, inr, Bool-cases,
}
use mathlib.Core.List.{reverse, reverse-append, reverse-reverse}
use gazon.Pool.Queue.{Queue, slots, store, spill_loop, spill}

move_one : (k i : ℕ) → i + suc k ≡ i + 1 + k
move_one k i = omega arith

no_items : (n : ℕ) → 0 + n ≡ 0 → n ≡ 0
no_items n h = omega arith

pub one_more : (i : ℕ) → i + 1 ≡ suc i
one_more i = omega arith

no_more : (i : ℕ) → i ≡ i + 0
no_more i = omega arith

module _ {A : Type 0} where
  -- the items, the front one first
  abbrev pub contents : Queue A → List A
  contents q = reverse (take q.m_pop_index q.m_pop) ++ take q.m_push_index q.m_push

  pub record IsQueue (q : Queue A) : Type 0 where
    pub pop_length : length q.m_pop ≡ slots
    pub push_length : length q.m_push ≡ slots
    pub pop_room : q.m_pop_index ≤ slots
    pub push_room : q.m_push_index ≤ slots

  pub take-set :
      (xs : List A) (i : ℕ) (x : A)
      → i < length xs
      → take (suc i) (set xs i x) ≡ take i xs ++ x ∷ []
  take-set [] i x h = absurd (ground arith)
  take-set (y ∷ xs) zero x h = refl
  take-set (y ∷ xs) (suc i) x h = ap (λ l. y ∷ l) (take-set xs i x (omega arith))

  pub take-suc :
      (xs : List A) (i : ℕ)
      → i < length xs
      → (x : A) × (get_elem? xs i ≡ some x) × (take (suc i) xs ≡ take i xs ++ x ∷ [])
  take-suc [] i h = absurd (ground arith)
  take-suc (y ∷ xs) zero h = (y, refl, refl)
  take-suc (y ∷ xs) (suc i) h =
      let (x, e, t) = take-suc xs i (omega arith) in (x, e, ap (λ l. y ∷ l) t)

  pub store_in : (xs : List A) (i : ℕ) (x : A) → i < length xs → store xs i x ≡ some (set xs i x)
  store_in xs i x h = let in_range : ltb i (length xs) ≡ true = ground arith in rw in_range refl

  spill_step :
      (k : ℕ) (from : List A) (i : ℕ) (to : List A) (x : A)
      → get_elem? from k ≡ some x
      → i < length to
      → spill_loop (suc k) from i to ≡ spill_loop k from (i + 1) (set to i x)
  unfolding spill_loop
  spill_step k from i to x found room =
      rw (found, spill_loop) (rw (store_in to i x room, spill_loop) refl)

  -- The loop of `spill` moves the items of the one array behind those of the other, in reverse.
  spill_loop_moves :
      (k : ℕ) (from : List A) (i : ℕ) (to : List A)
      → k ≤ length from
      → i + k ≤ length to
      → (to' : List A) × (spill_loop k from i to ≡ some (i + k, to'))
        × (length to' ≡ length to)
        × (take (i + k) to' ≡ take i to ++ reverse (take k from))
  unfolding spill_loop
  spill_loop_moves zero from i to h room = (
    to,
    ap (λ n. some (n, to)) (no_more i),
    refl,
    ap (λ n. take n to) (sym (no_more i)) ∙ sym (append-nil (take i to)),
  )
  spill_loop_moves (suc k) from i to h room =
      let (x, found, split) = take-suc from k (omega arith) in
      let (to', run, same, items) =
        spill_loop_moves k from (i + 1) (set to i x) (omega arith)
          (omega (arith, length-set to i x)) in
      (
        to',
        spill_step k from i to x found (omega arith)
            ∙ (run ∙ ap (λ n. some (n, to')) (sym (move_one k i))),
        same ∙ length-set to i x,
        ap (λ n. take n to') (move_one k i)
            ∙ (items
                ∙ joined x (take k from) (take (suc k) from) split (take-set to i x (omega arith))),
      )
    where
      joined :
          (x : A) (low all : List A)
          → all ≡ low ++ x ∷ []
          → take (suc i) (set to i x) ≡ take i to ++ x ∷ []
          → take (i + 1) (set to i x) ++ reverse low ≡ take i to ++ reverse all
      joined x low all e t =
          ap (λ l. l ++ reverse low) (ap (λ n. take n (set to i x)) (one_more i) ∙ t)
          ∙ (append_assoc (take i to) (x ∷ []) (reverse low)
              ∙ ap (λ l. take i to ++ l) (sym (reverse-append low (x ∷ [])) ∙ ap reverse (sym e)))

  -- What `spill` leaves: the same items, and where there are any, at least one to pop.
  pub spill_lem :
      (q : Queue A)
      → IsQueue q
      → (q' : Queue A) × (spill q ≡ some q')
        × IsQueue q'
        × (contents q' ≡ contents q)
        × ((q'.m_pop_index ≡ 0) → contents q ≡ [])
  unfolding spill
  spill_lem q w = elim (Bool-cases (nat_eq q.m_pop_index 0)) [
    | inr some_left ↦ (q, rw some_left refl, w, refl, λ none_left. absurd (ground arith))
    | inl none_left ↦
        let (items, run, same, moved) =
          spill_loop_moves q.m_push_index q.m_push 0 q.m_pop
            (omega (arith, w.push_room, w.push_length))
            (omega (arith, w.push_room, w.pop_length)) in
        let q' = record q {
          m_times_spilled = q.m_times_spilled + 1;
          m_push_index = 0;
          m_pop_index = 0 + q.m_push_index;
          m_pop = items;
        } in
        let zero_left : q.m_pop_index ≡ 0 = ground arith in
        let pushed = ap (λ n. reverse (take n q.m_pop) ++ take q.m_push_index q.m_push) zero_left in
        (
          q',
          rw (none_left, run) refl,
          record {
            pop_length = same ∙ w.pop_length;
            push_length = w.push_length;
            pop_room = omega (arith, w.push_room);
            push_room = omega arith;
          },
          append-nil (reverse (take q'.m_pop_index items))
              ∙ (ap reverse moved ∙ (reverse-reverse (take q.m_push_index q.m_push) ∙ sym pushed)),
          λ none_moved. pushed ∙ ap (λ n. take n q.m_push) (no_items q.m_push_index none_moved),
        )
  ]
