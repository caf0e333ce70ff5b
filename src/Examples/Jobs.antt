-- ===== src/Examples/Jobs.antt =====
-- A queue with three jobs, of which one is popped.
use gazon.Base.{ℕ, ◌≡◌, refl, [], ◌∷◌, ◌++◌, some, arith, replicate}
use gazon.Pool.Queue.{Queue, push_back, pop_front}
use gazon.Pool.Spill.{IsQueue, contents}
use gazon.Pool.Fifo.{push_back_appends, pop_front_first}
use gazon.Base.Maps.{find}
use gazon.Base.{◌==◌, nat_Eq, true, false}
use gazon.Pool.Tagged.{ThreadPoolQueue, pops, worker, push, block_until_pop, index_of}
use gazon.Pool.Drain.{worker_runs_all}
use gazon.Pool.Order.{pending, pops_in_order, pushes_in_order}

-- two items wait, and the slots behind them are free
abbrev two_wait : Queue ℕ
two_wait = record {
  m_pop_index = 0;
  m_push_index = 2;
  m_pop = replicate 256 0;
  m_push = 7 ∷ 8 ∷ replicate 254 0;
  m_times_spilled = 0;
  m_pop_call = 0;
  m_push_call = 2;
  m_max_size = 0;
}

two_wait-IsQueue : IsQueue two_wait
two_wait-IsQueue = record {
  pop_length = refl;
  push_length = refl;
  pop_room = omega arith;
  push_room = omega arith;
}

push_back_appends_example :
    (q : Queue ℕ) × (push_back two_wait 9 ≡ some q)
    × IsQueue q
    × (contents q ≡ (7 ∷ 8 ∷ []) ++ 9 ∷ [])
push_back_appends_example = push_back_appends two_wait 9 two_wait-IsQueue (omega arith)

pop_front_first_example :
    (q : Queue ℕ) × (pop_front two_wait ≡ some (7, q)) × IsQueue q × (contents q ≡ 8 ∷ [])
pop_front_first_example = pop_front_first two_wait 7 (8 ∷ []) two_wait-IsQueue refl

-- two jobs with the tag 1, whose worker has the index 1
abbrev jobs_wait : Queue (ℕ × ℕ)
jobs_wait = record {
  m_pop_index = 0;
  m_push_index = 2;
  m_pop = replicate 256 (0, 0);
  m_push = (7, 1) ∷ (8, 1) ∷ replicate 254 (0, 0);
  m_times_spilled = 0;
  m_pop_call = 0;
  m_push_call = 2;
  m_max_size = 0;
}

jobs_wait-IsQueue : IsQueue jobs_wait
jobs_wait-IsQueue = record {
  pop_length = refl;
  push_length = refl;
  pop_room = omega arith;
  push_room = omega arith;
}

abbrev pool : ThreadPoolQueue ℕ ℕ
pool = record {
  map = (1, 1) ∷ [];
  last_mapped = 1;
  stopped = true;
  subqueues = jobs_wait ∷ jobs_wait ∷ [];
}

worker_runs_all_example : (p : ThreadPoolQueue ℕ ℕ) × (worker 3 1 pool ≡ some (7 ∷ 8 ∷ [], p))
worker_runs_all_example =
    worker_runs_all 3 1 pool jobs_wait ((7, 1) ∷ (8, 1) ∷ []) refl refl jobs_wait-IsQueue refl
      (omega arith)

known_tag : find 1 pool.map ≡ some 1
unfolding find
known_tag = refl

index_of_tag : index_of 1 pool ≡ 1
unfolding index_of
index_of_tag = refl

pops_in_order_example :
    (p : ThreadPoolQueue ℕ ℕ) × (block_until_pop 1 pool ≡ some (pops 7 1 p))
    × (pending 1 pool ≡ 7 ∷ pending 1 p)
    × ((t : ℕ) → (1 == t) ≡ false → pending t p ≡ pending t pool)
pops_in_order_example =
    pops_in_order 1 pool jobs_wait 7 1 ((8, 1) ∷ []) refl jobs_wait-IsQueue refl index_of_tag

pushes_in_order_example :
    (p : ThreadPoolQueue ℕ ℕ) × (push 2 1 9 pool ≡ some p)
    × (pending 1 p ≡ pending 1 pool ++ 9 ∷ [])
    × ((t : ℕ) → (1 == t) ≡ false → pending t p ≡ pending t pool)
pushes_in_order_example =
    pushes_in_order 2 1 1 9 pool jobs_wait known_tag refl jobs_wait-IsQueue (omega arith)
