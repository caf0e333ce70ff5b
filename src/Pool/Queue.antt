-- ===== src/Pool/Queue.antt =====
-- The class `Queue` of include/common/threadpool.h: two arrays of 256 slots. Items are pushed onto
-- `m_push` and popped from `m_pop`, and `spill` moves all of the one to the other.
use gazon.Base.{
  ℕ, zero, suc, ◌+◌, ◌-◌, max, Bool, ◌&&◌, List, Option, none, some, get_elem?, set, replicate,
  length, ltb, nat_eq, if◌then◌else◌,
}

pub record Queue {ℓ} (A : Type ℓ) : Type ℓ where
  pub m_pop_index : ℕ
  pub m_push_index : ℕ
  pub m_pop : List A
  pub m_push : List A
  pub m_times_spilled : ℕ
  pub m_pop_call : ℕ
  pub m_push_call : ℕ
  pub m_max_size : ℕ

-- the slots of `m_pop` and of `m_push`
abbrev pub slots : ℕ
slots = 256

module _ {ℓ} {A : Type ℓ} where
  -- the constructor; `item` is what the slots hold at first
  unfoldable pub new_queue : A → Queue A
  new_queue item = record {
    m_pop_index = 0;
    m_push_index = 0;
    m_pop = replicate slots item;
    m_push = replicate slots item;
    m_times_spilled = 0;
    m_pop_call = 0;
    m_push_call = 0;
    m_max_size = 0;
  }

  unfoldable pub empty : Queue A → Bool
  empty q = nat_eq q.m_push_index 0 && nat_eq q.m_pop_index 0

  -- `size`, which also keeps the largest size that it has seen
  unfoldable pub size : Queue A → ℕ × Queue A
  size q =
      let n = q.m_push_index + q.m_pop_index in (n, record q { m_max_size = max q.m_max_size n })

  -- a write into an array, or `none` where it is out of bounds
  abbrev pub store : List A → ℕ → A → Option (List A)
  store xs i x = if ltb i (length xs) then some (set xs i x) else none

  unfoldable pub push_back : Queue A → A → Option (Queue A)
  push_back q t = elim (store q.m_push q.m_push_index t) [
    | none ↦ none
    | some items ↦ some (record q {
      m_push = items;
      m_push_index = q.m_push_index + 1;
      m_push_call = q.m_push_call + 1;
    })
  ]

  -- `while (m_push_index > 0) m_pop[m_pop_index++] = m_push[--m_push_index];`
  unfoldable pub spill_loop : ℕ → List A → ℕ → List A → Option (ℕ × List A)
  spill_loop zero from i to = some (i, to)
  spill_loop (suc k) from i to = elim (get_elem? from k) [
    | none ↦ none
    | some x ↦ elim (store to i x) [ none ↦ none | some to' ↦ spill_loop k from (i + 1) to' ]
  ]

  unfoldable pub spill : Queue A → Option (Queue A)
  unfolding spill_loop
  spill q =
      let moved = spill_loop q.m_push_index q.m_push 0 q.m_pop in
      if nat_eq q.m_pop_index 0
      then elim moved [
        | none ↦ none
        | some (i, items) ↦ some (record q {
          m_times_spilled = q.m_times_spilled + 1;
          m_push_index = 0;
          m_pop_index = i;
          m_pop = items;
        })
      ]
      else some q

  -- `m_pop[m_pop_index - 1]`, or `none` where the index is below the array
  abbrev pub top : Queue A → Option A
  top q = elim q.m_pop_index [ zero ↦ none | suc i ↦ get_elem? q.m_pop i ]

  -- The front item, and the queue, which may have been spilled.
  unfoldable pub front : Queue A → Option (A × Queue A)
  unfolding spill
  front q = elim (spill q) [
    | none ↦ none
    | some q' ↦ elim (top q') [ none ↦ none | some x ↦ some (x, q') ]
  ]

  unfoldable pub pop_front : Queue A → Option (A × Queue A)
  unfolding spill
  pop_front q = elim (spill q) [
    | none ↦ none
    | some q' ↦ elim (top q') [
      | none ↦ none
      | some x ↦
          some (x, record q' { m_pop_call = q'.m_pop_call + 1; m_pop_index = q'.m_pop_index - 1 })
    ]
  ]

  -- `operator[]`
  unfoldable pub item_at : Queue A → ℕ → Option A
  item_at q index =
      if ltb index q.m_push_index
      then get_elem? q.m_push index
      else get_elem? q.m_pop (index - q.m_push_index)
