-- ===== src/Pool/Fifo.antt =====
-- `Queue` of include/common/threadpool.h as a first-in first-out list.
use gazon.Base.{
  ℕ, zero, suc, ◌+◌, ◌-◌, ◌<◌, ◌≡◌, ◌≢◌, refl, sym, ap, ◌∙◌, List, [], ◌∷◌, ◌++◌, none, some,
  get_elem?, set, length, length-set, take, arith, append_assoc,
}
use mathlib.Core.List.{reverse, reverse-append, cons≢nil, head-eq_of_cons-eq, tail-eq_of_cons-eq}
use gazon.Pool.Queue.{Queue, slots, push_back, spill, top, pop_front}
use gazon.Pool.Spill.{IsQueue, contents, one_more, take-set, take-suc, store_in, spill_lem}

module _ {A : Type 0} where
  -- An item that is pushed onto a queue with a slot left is the last of its items.
  pub push_back_appends :
      (q : Queue A) (t : A)
      → IsQueue q
      → q.m_push_index < slots
      → (q' : Queue A) × (push_back q t ≡ some q')
        × IsQueue q'
        × (contents q' ≡ contents q ++ t ∷ [])
  unfolding push_back
  push_back_appends q t w room =
      let in_range : q.m_push_index < length q.m_push = omega (arith, w.push_length) in
      (
        record q {
          m_push = set q.m_push q.m_push_index t;
          m_push_index = q.m_push_index + 1;
          m_push_call = q.m_push_call + 1;
        },
        rw (store_in q.m_push q.m_push_index t in_range, push_back) refl,
        record {
          pop_length = w.pop_length;
          push_length = length-set q.m_push q.m_push_index t ∙ w.push_length;
          pop_room = w.pop_room;
          push_room = omega arith;
        },
        ap (λ l. reverse (take q.m_pop_index q.m_pop) ++ l)
              (ap (λ n. take n (set q.m_push q.m_push_index t)) (one_more q.m_push_index)
                ∙ take-set q.m_push q.m_push_index t in_range)
            ∙ sym (
                append_assoc (reverse (take q.m_pop_index q.m_pop)) (take q.m_push_index q.m_push)
                  (t ∷ [])),
      )

  pop_front_step :
      (q q' : Queue A) (x : A)
      → spill q ≡ some q'
      → top q' ≡ some x
      → pop_front q
        ≡ some (x, record q' { m_pop_call = q'.m_pop_call + 1; m_pop_index = q'.m_pop_index - 1 })
  unfolding pop_front
  pop_front_step q q' x run is = rw (run, pop_front) (rw is refl)

  -- An item is popped in the order of the pushes, and the others stay.
  pub pop_front_first :
      (q : Queue A) (x : A) (rest : List A)
      → IsQueue q
      → contents q ≡ x ∷ rest
      → (q' : Queue A) × (pop_front q ≡ some (x, q')) × IsQueue q' × (contents q' ≡ rest)
  pop_front_first q x rest w items =
      let (q1, run, w1, same, none_left) = spill_lem q w in
      go q1 run w1 (same ∙ items) (λ e. cons≢nil (sym items ∙ none_left e)) q1.m_pop_index refl
    where
      go :
          (q1 : Queue A)
          → spill q ≡ some q1
          → IsQueue q1
          → contents q1 ≡ x ∷ rest
          → q1.m_pop_index ≢ 0
          → (n : ℕ) → q1.m_pop_index ≡ n
          → (q' : Queue A) × (pop_front q ≡ some (x, q')) × IsQueue q' × (contents q' ≡ rest)
      go q1 run w1 held more zero index = absurd (more index)
      go q1 run w1 held more (suc i) index =
          let (y, found, split) = take-suc q1.m_pop i (omega (arith, w1.pop_length, w1.pop_room)) in
          let first =
            sym (
              ap (λ n. reverse (take n q1.m_pop) ++ take q1.m_push_index q1.m_push) index
              ∙ ap (λ l. l ++ take q1.m_push_index q1.m_push)
                  (ap reverse split ∙ reverse-append (take i q1.m_pop) (y ∷ [])))
            ∙ held in
          let below : q1.m_pop_index - 1 ≡ i = omega arith in
          let at_top =
            ap (λ n. elim n [ zero ↦ none | suc j ↦ get_elem? q1.m_pop j ]) index ∙ found in
          (
            record q1 { m_pop_call = q1.m_pop_call + 1; m_pop_index = q1.m_pop_index - 1 },
            pop_front_step q q1 y run at_top
                ∙ ap
                    (λ z. some (
                      z,
                      record q1 {
                        m_pop_call = q1.m_pop_call + 1;
                        m_pop_index = q1.m_pop_index - 1;
                      },
                    ))
                    (head-eq_of_cons-eq first),
            record {
              pop_length = w1.pop_length;
              push_length = w1.push_length;
              pop_room = omega (arith, w1.pop_room);
              push_room = w1.push_room;
            },
            ap (λ n. reverse (take n q1.m_pop) ++ take q1.m_push_index q1.m_push) below
                ∙ tail-eq_of_cons-eq first,
          )
