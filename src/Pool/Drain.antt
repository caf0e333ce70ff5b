-- ===== src/Pool/Drain.antt =====
-- A worker of include/common/threadpool.h once its pool is stopped.
use gazon.Base.{
  ℕ, zero, suc, ◌<◌, ◌≡◌, ◌≢◌, refl, ap, sym, ◌∙◌, true, false, ◌&&◌, List, [], ◌∷◌, ◌++◌, map,
  some, get_elem?, set, length, take, get_elem?-set_self, nat_eq, Eq, if◌then◌else◌, arith,
  append_assoc,
}
use mathlib.Core.List.{reverse, reverse-append, cons≢nil}
use gazon.Pool.Queue.{Queue, empty}
use gazon.Pool.Spill.{IsQueue, contents, take-suc}
use gazon.Pool.Fifo.{pop_front_first}
use gazon.Pool.Tagged.{ThreadPoolQueue, waits, no_item, pops, pop_from, block_until_pop, worker}

module _ {A : Type 0} where
  snoc≢nil : (xs : List A) (x : A) → xs ++ x ∷ [] ≢ []
  snoc≢nil [] x e = cons≢nil e
  snoc≢nil (y ∷ xs) x e = cons≢nil e

  pub empty-nil : (q : Queue A) → IsQueue q → contents q ≡ [] → empty q ≡ true
  unfolding empty
  empty-nil q w nothing = go q.m_push_index q.m_pop_index refl refl
    where
      go :
          (m n : ℕ)
          → q.m_push_index ≡ m
          → q.m_pop_index ≡ n
          → (nat_eq q.m_push_index 0 && nat_eq q.m_pop_index 0) ≡ true
      go zero zero em en = rw (em, en) refl
      go (suc m) n em en =
          let (x, _, split) = take-suc q.m_push m (omega (arith, w.push_room, w.push_length)) in
          absurd (
            snoc≢nil (reverse (take q.m_pop_index q.m_pop) ++ take m q.m_push) x (
              append_assoc (reverse (take q.m_pop_index q.m_pop)) (take m q.m_push) (x ∷ [])
              ∙ (ap (λ l. reverse (take q.m_pop_index q.m_pop) ++ l)
                    (sym split ∙ ap (λ k. take k q.m_push) (sym em))
                  ∙ nothing)))
      go zero (suc n) em en =
          let (x, _, split) = take-suc q.m_pop n (omega (arith, w.pop_room, w.pop_length)) in
          absurd (
            cons≢nil (
              sym (
                ap (λ l. l ++ take q.m_push_index q.m_push)
                  (ap (λ k. reverse (take k q.m_pop)) en
                    ∙ (ap reverse split ∙ reverse-append (take n q.m_pop) (x ∷ []))))
              ∙ nothing))

  pub empty-cons : (q : Queue A) (x : A) (rest : List A) → contents q ≡ x ∷ rest → empty q ≡ false
  unfolding empty
  empty-cons q x rest some_left = go q.m_push_index q.m_pop_index refl refl
    where
      go :
          (m n : ℕ)
          → q.m_push_index ≡ m
          → q.m_pop_index ≡ n
          → (nat_eq q.m_push_index 0 && nat_eq q.m_pop_index 0) ≡ false
      go zero zero em en = absurd (
          cons≢nil (
            sym some_left
            ∙ (ap (λ k. reverse (take k q.m_pop) ++ take q.m_push_index q.m_push) en
                ∙ ap (λ k. take k q.m_push) em)))
      go (suc m) n em en = ground arith
      go zero (suc n) em en = ground arith

  pub get_elem?-lt : (xs : List A) (i : ℕ) (x : A) → get_elem? xs i ≡ some x → i < length xs
  get_elem?-lt [] i x h = absurd (cc)
  get_elem?-lt (y ∷ xs) zero x h = omega arith
  get_elem?-lt (y ∷ xs) (suc i) x h = omega (arith, get_elem?-lt xs i x h)

module _ {Tag Element : Type 0} ⦃tags : Eq Tag⦄ where
  -- where the subqueue has an item, the worker pops it
  pub pops_first :
      (index : ℕ) (p : ThreadPoolQueue Tag Element) (q : Queue (Element × Tag)) (item : Element)
      (tag : Tag) (rest : List (Element × Tag))
      → get_elem? p.subqueues index ≡ some q
      → IsQueue q
      → contents q ≡ (item, tag) ∷ rest
      → (q' : Queue (Element × Tag)) × (block_until_pop index p
          ≡ some (pops item tag (record p { subqueues = set p.subqueues index q' })))
        × IsQueue q'
        × (contents q' ≡ rest)
  unfolding block_until_pop
  pops_first index p q item tag rest there w items =
      let (q', run, w', left) = pop_front_first q (item, tag) rest w items in
      (
        q',
        rw (there, block_until_pop)
            (rw (empty-cons q (item, tag) rest items, pop_from) (rw (run, pop_from) refl)),
        w',
        left,
      )

  returns_when_empty :
      (index : ℕ) (p : ThreadPoolQueue Tag Element) (q : Queue (Element × Tag))
      → p.stopped ≡ true
      → get_elem? p.subqueues index ≡ some q
      → IsQueue q
      → contents q ≡ []
      → block_until_pop index p ≡ some no_item
  unfolding block_until_pop
  returns_when_empty index p q stopped there w held =
      rw (there, block_until_pop)
        (rw (empty-nil q w held, pop_from) (ap (λ b. some (if b then no_item else waits)) stopped))

  -- Once the pool is stopped, the worker runs the jobs of its subqueue in the order in which they
  -- were pushed, all of them, and returns; one round for each job and one more are enough.
  pub worker_runs_all :
      (fuel index : ℕ) (p : ThreadPoolQueue Tag Element) (q : Queue (Element × Tag))
      (items : List (Element × Tag))
      → p.stopped ≡ true
      → get_elem? p.subqueues index ≡ some q
      → IsQueue q
      → contents q ≡ items
      → length items < fuel
      → (p' : ThreadPoolQueue Tag Element) × (worker fuel index p ≡ some (map (λ x. x.0) items, p'))
  unfolding worker
  worker_runs_all zero index p q items stopped there w held enough = absurd (omega arith)
  worker_runs_all (suc fuel) index p q [] stopped there w held enough =
      (p, rw (returns_when_empty index p q stopped there w held, worker) refl)
  worker_runs_all (suc fuel) index p q ((item, tag) ∷ items) stopped there w held enough =
      let (q', run, w', left) = pops_first index p q item tag items there w held in
      let (p', on) =
        worker_runs_all fuel index (record p { subqueues = set p.subqueues index q' }) q' items
          stopped (get_elem?-set_self p.subqueues index q' (get_elem?-lt p.subqueues index q there))
          w' left (omega arith) in
      (p', rw (run, worker) (rw (on) refl))
