-- ===== src/Pool/Tagged.antt =====
-- The classes `FileKeyThread`, `ThreadPoolQueue` and `ThreadPool` of include/common/threadpool.h. A
-- block under a mutex is one step, and `blockUntilPop` is what it does when it is woken.
use gazon.Base.{
  ℕ, zero, suc, ◌+◌, ◌%◌, ◌^◌, Bool, true, false, not, List, [], ◌∷◌, Option, none, some, Text,
  get_elem?, set, char_at, replicate, nat_eq, Eq, if◌then◌else◌,
}
use gazon.Base.Maps.{Map, find, insert}
use gazon.Pool.Queue.{Queue, new_queue, empty, push_back, pop_front}

abbrev pub key_size : ℕ
key_size = 24

-- `content` of a key: the bytes of the name, and zeros behind a shorter one
unfoldable pub file_key : ℕ → Text → Text
file_key zero name = []
file_key (suc n) [] = 0 ∷ file_key n []
file_key (suc n) (c ∷ name) = c ∷ file_key n name

-- `operator==`, from the byte at `i` on
unfoldable pub same_key : ℕ → ℕ → Text → Text → Bool
same_key zero i a b = true
same_key (suc n) i a b =
    let rest = same_key n (i + 1) a b in
    if not (nat_eq (char_at b i) (char_at a i)) then false else rest

-- The loop over the jobs and the tags.
pub record ThreadPoolQueue (Tag Element : Type 0) : Type 0 where
  pub map : Map Tag ℕ
  pub last_mapped : ℕ
  pub stopped : Bool
  pub subqueues : List (Queue (Element × Tag))

-- What `blockUntilPop` does: it waits, it returns false, or it returns true with an item.
pub data Popped (Tag Element : Type 0) : Type 0 where
  waits : Popped Tag Element
  no_item : Popped Tag Element
  pops : Element → Tag → ThreadPoolQueue Tag Element → Popped Tag Element

module _ {Tag Element : Type 0} ⦃tags : Eq Tag⦄ where
  -- the constructor, for `n` workers; `item` and `tag` are what the slots hold at first
  unfoldable pub new_pool : ℕ → Element → Tag → ThreadPoolQueue Tag Element
  unfolding new_queue
  new_pool n item tag = record {
    map = [];
    last_mapped = 0;
    stopped = false;
    subqueues = replicate n (new_queue (item, tag));
  }

  -- the block under `mapMutex`
  unfoldable pub assign : ℕ → Tag → ThreadPoolQueue Tag Element → ThreadPoolQueue Tag Element
  unfolding find insert
  assign n tag p = elim (find tag p.map) [
    | some i ↦ p
    | none ↦
        let last = (p.last_mapped + 1) % 2 ^ 32 % n in
        record p { last_mapped = last; map = insert tag last p.map }
  ]

  -- `map[tag]`, which is there when `push` reads it
  unfoldable pub index_of : Tag → ThreadPoolQueue Tag Element → ℕ
  unfolding find
  index_of tag p = elim (find tag p.map) [ none ↦ 0 | some i ↦ i ]

  -- the block under the mutex of the subqueue; `none`: an index is out of bounds
  unfoldable pub push_at :
      ℕ → Tag → Element → ThreadPoolQueue Tag Element → Option (ThreadPoolQueue Tag Element)
  unfolding push_back
  push_at i tag item p = elim (get_elem? p.subqueues i) [
    | none ↦ none
    | some q ↦ elim (push_back q (item, tag)) [
      | none ↦ none
      | some q' ↦ some (record p { subqueues = set p.subqueues i q' })
    ]
  ]

  unfoldable pub push :
      ℕ → Tag → Element → ThreadPoolQueue Tag Element → Option (ThreadPoolQueue Tag Element)
  unfolding assign index_of push_at
  push n tag item p = push_at (index_of tag (assign n tag p)) tag item (assign n tag p)

  -- the part behind the wait, on the worker's subqueue
  unfoldable pub pop_from :
      ℕ → Queue (Element × Tag) → ThreadPoolQueue Tag Element → Option (Popped Tag Element)
  unfolding empty pop_front
  pop_from index q p = elim (empty q) [
    | true ↦ some (if p.stopped then no_item else waits)
    | false ↦ elim (pop_front q) [
      | none ↦ none
      | some ((item, tag), q') ↦
          some (pops item tag (record p { subqueues = set p.subqueues index q' }))
    ]
  ]

  unfoldable pub block_until_pop : ℕ → ThreadPoolQueue Tag Element → Option (Popped Tag Element)
  unfolding pop_from
  block_until_pop index p = elim (get_elem? p.subqueues index) [
    | none ↦ none
    | some q ↦ pop_from index q p
  ]

  unfoldable pub stop : ThreadPoolQueue Tag Element → ThreadPoolQueue Tag Element
  stop p = record p { stopped = true }

  -- The loop of `ThreadPool::worker`, with the jobs that it runs, in order. `none`: it waits, the
  -- fuel runs out, or an index is out of bounds.
  unfoldable pub worker :
      ℕ → ℕ → ThreadPoolQueue Tag Element → Option (List Element × ThreadPoolQueue Tag Element)
  unfolding block_until_pop
  worker zero index p = none
  worker (suc fuel) index p = elim (block_until_pop index p) [
    | none ↦ none
    | some waits ↦ none
    | some no_item ↦ some ([], p)
    | some (pops item tag p') ↦ elim (worker fuel index p') [
      | none ↦ none
      | some (jobs, p'') ↦ some (item ∷ jobs, p'')
    ]
  ]
