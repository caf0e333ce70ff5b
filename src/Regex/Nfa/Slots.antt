-- ===== src/Regex/Nfa/Slots.antt =====
-- The pointers of include/common/regexnfa.h to fields of states: what `link` writes, and what it
-- leaves as it is.
use gazon.Base.{ℕ, ◌≤◌, ◌<◌, ◌≡◌, ◌≢◌, refl, ap, ◌∙◌, List, [], ◌∷◌, Memᴰ, here, there, arith}
use gazon.Regex.Nfa.{
  Memory, State, Slot, left_of, right_of, write_state, assign_slot, link, split_node,
}
use gazon.Regex.Nfa.Graph.{Splits}

abbrev pub place : Slot → ℕ
place (left_of i) = i
place (right_of i) = i

-- `*x`
abbrev pub value : Memory → Slot → ℕ
value m (left_of i) = (m i).left
value m (right_of i) = (m i).right

c-assign_slot : (x : Slot) (v : ℕ) (m : Memory) (j : ℕ) → (assign_slot x v m j).c ≡ (m j).c
c-assign_slot (left_of i) v m j = ground arith
c-assign_slot (right_of i) v m j = ground arith

value-assign_slot_self : (x : Slot) (v : ℕ) (m : Memory) → value (assign_slot x v m) x ≡ v
value-assign_slot_self (left_of i) v m = ground arith
value-assign_slot_self (right_of i) v m = ground arith

-- A slot is written or left as it is.
value-assign_slot_ne :
    (x y : Slot) (v : ℕ) (m : Memory) → y ≢ x → value (assign_slot x v m) y ≡ value m y
value-assign_slot_ne (left_of i) (left_of j) v m h = ground arith
value-assign_slot_ne (left_of i) (right_of j) v m h = ground arith
value-assign_slot_ne (right_of i) (left_of j) v m h = ground arith
value-assign_slot_ne (right_of i) (right_of j) v m h = ground arith

value-assign_slot_same :
    (x y : Slot) (v : ℕ) (m : Memory) → value m y ≡ v → value (assign_slot x v m) y ≡ v
value-assign_slot_same (left_of i) (left_of j) v m h = ground arith
value-assign_slot_same (left_of i) (right_of j) v m h = ground arith
value-assign_slot_same (right_of i) (left_of j) v m h = ground arith
value-assign_slot_same (right_of i) (right_of j) v m h = ground arith

pub c-link : (xs : List Slot) (v : ℕ) (m : Memory) (j : ℕ) → (link xs v m j).c ≡ (m j).c
c-link [] v m j = refl
c-link (x ∷ xs) v m j = c-link xs v (assign_slot x v m) j ∙ c-assign_slot x v m j

pub value-link_out :
    (xs : List Slot) (v : ℕ) (m : Memory) (y : Slot)
    → ¬ Memᴰ y xs
    → value (link xs v m) y ≡ value m y
value-link_out [] v m y h = refl
value-link_out (x ∷ xs) v m y h =
    value-link_out xs v (assign_slot x v m) y (λ e. h (there e))
    ∙ value-assign_slot_ne x y v m (λ e. h (here e))

value-link_same :
    (xs : List Slot) (v : ℕ) (m : Memory) (y : Slot) → value m y ≡ v → value (link xs v m) y ≡ v
value-link_same [] v m y h = h
value-link_same (x ∷ xs) v m y h =
    value-link_same xs v (assign_slot x v m) y (value-assign_slot_same x y v m h)

pub value-link_in :
    (xs : List Slot) (v : ℕ) (m : Memory) (y : Slot) → Memᴰ y xs → value (link xs v m) y ≡ v
value-link_in [] v m y h = elim h [ ]
value-link_in (x ∷ xs) v m y (here e) =
    value-link_same xs v (assign_slot x v m) y
      (ap (value (assign_slot x v m)) e ∙ value-assign_slot_self x v m)
value-link_in (x ∷ xs) v m y (there h) = value-link_in xs v (assign_slot x v m) y h

-- The slots stand in the states from `lo` up to `hi`.
abbrev pub Within : ℕ → ℕ → List Slot → Type 0
Within lo hi xs = (y : Slot) → Memᴰ y xs → (lo ≤ place y) × (place y < hi)

abbrev pub Filled : Memory → List Slot → ℕ → Type 0
Filled m xs t = (y : Slot) → Memᴰ y xs → value m y ≡ t

-- In the states from `lo` up to `hi`, the memories agree on all but these slots.
abbrev pub Agree : ℕ → ℕ → List Slot → Memory → Memory → Type 0
Agree lo hi xs m m' =
    (y : Slot)
    → lo ≤ place y
    → place y < hi
    → ((m' (place y)).c ≡ (m (place y)).c) × (¬ Memᴰ y xs → value m' y ≡ value m y)

assign_slot-below :
    (x : Slot) (v : ℕ) (m : Memory) (j : ℕ) → j < place x → assign_slot x v m j ≡ m j
assign_slot-below (left_of i) v m j h = ground arith
assign_slot-below (right_of i) v m j h = ground arith

pub link-below :
    (lo hi : ℕ) (xs : List Slot) (v : ℕ) (m : Memory) (j : ℕ)
    → Within lo hi xs
    → j < lo
    → link xs v m j ≡ m j
link-below lo hi [] v m j w h = refl
link-below lo hi (x ∷ xs) v m j w h =
    let inside = w x (here refl) in
    link-below lo hi xs v (assign_slot x v m) j (λ y k. w y (there k)) h
    ∙ assign_slot-below x v m j (omega arith)

pub value-eq : (m m' : Memory) (y : Slot) → m (place y) ≡ m' (place y) → value m y ≡ value m' y
value-eq m m' (left_of i) e = ap (λ (s : State). s.left) e
value-eq m m' (right_of i) e = ap (λ (s : State). s.right) e

pub write_state_ne : (i j : ℕ) (s : State) (m : Memory) → j < i → write_state i s m j ≡ m j
write_state_ne i j s m h = ground arith

pub write_state_self : (i : ℕ) (s : State) (m : Memory) → write_state i s m i ≡ s
write_state_self i s m = ground arith

-- A memory that agrees with `m` agrees with `m1` on a part of the states where `m` agrees with `m1`.
pub Agree-part :
    (lo hi l h : ℕ) (xs ys : List Slot) (m m1 m' : Memory)
    → Agree lo hi xs m m'
    → lo ≤ l
    → h ≤ hi
    → ((y : Slot) → place y < h → ¬ Memᴰ y ys → l ≤ place y → ¬ Memᴰ y xs)
    → ((y : Slot)
        → l ≤ place y
        → place y < h
        → ((m (place y)).c ≡ (m1 (place y)).c) × (¬ Memᴰ y ys → value m y ≡ value m1 y))
    → Agree l h ys m1 m'
Agree-part lo hi l h xs ys m m1 m' ag hl hh sub same y a b =
    let (k, v) = ag y (omega arith) (omega arith) in
    let (k', v') = same y a b in (k ∙ k', λ ny. v (sub y b ny a) ∙ v' ny)

-- a split as it was allocated, but for its slots that were filled since
pub Splits-made :
    (lo hi p l r : ℕ) (xs : List Slot) (m m' : Memory)
    → Agree lo hi xs m m'
    → lo ≤ p
    → p < hi
    → 0 < p
    → ¬ Memᴰ (left_of p) xs
    → (m p).c ≡ split_node
    → (m p).left ≡ l
    → (m' p).right ≡ r
    → Splits m' p l r
Splits-made lo hi p l r xs m m' ag a b pos ni k e e' =
    let (k', v) = ag (left_of p) a b in (pos, k' ∙ k, v ni ∙ e, e')
