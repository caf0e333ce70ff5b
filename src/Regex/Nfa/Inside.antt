-- ===== src/Regex/Nfa/Inside.antt =====
-- Pointers of include/common/regexnfa.h that stay inside the states that are allocated.
use gazon.Base.{
  ℕ, ◌+◌, ◌≤◌, ◌<◌, ◌≡◌, ◌⊎◌, inl, inr, refl, List, [], ◌∷◌, All, Option, some, none, ltb, ltb→lt,
  Bool-cases, arith,
}
use gazon.Errors.{ok, throw}
use gazon.Regex.Nfa.{
  Memory, State, Nfa, Fragment, Outcome, Slot, left_of, right_of, write_state, assign_slot, link,
  max_size, allocate,
}
use gazon.Regex.Nfa.Slots.{Within}

-- Both pointers of the state lead to a state below `top`, or are null, and the state was not seen in
-- a step to come.
abbrev pub StateIn : ℕ → ℕ → State → Type 0
StateIn top uid s = (s.left < top) × (s.right < top) × (s.last_step_seen ≤ uid)

abbrev pub StatesIn : ℕ → ℕ → Memory → Type 0
StatesIn top uid m = (i : ℕ) → 0 < i → i < top → StateIn top uid (m i)

abbrev pub InBounds : Nfa → Type 0
InBounds n = (0 < n.top) × (n.top ≤ max_size) × StatesIn n.top n.step_uid n.states

abbrev pub FragmentIn : ℕ → Fragment → Type 0
FragmentIn top f = (0 < f.state) × (f.state < top) × Within 1 top f.needs_linking

FragmentIn-mono : (top : ℕ) (f : Fragment) → FragmentIn top f → FragmentIn (top + 1) f
FragmentIn-mono top f (pos, lt, w) = (pos, omega arith, λ y h. let k = w y h in omega arith)

pub All-FragmentIn-mono :
    (top : ℕ) (fs : List Fragment) → All (FragmentIn top) fs → All (FragmentIn (top + 1)) fs
All-FragmentIn-mono top [] h = tt
All-FragmentIn-mono top (f ∷ fs) h = (FragmentIn-mono top f h.0, All-FragmentIn-mono top fs h.1)

assign_slot-StateIn :
    (x : Slot) (v top uid : ℕ) (m : Memory) (j : ℕ)
    → v < top
    → StateIn top uid (m j)
    → StateIn top uid (assign_slot x v m j)
assign_slot-StateIn (left_of i) v top uid m j h s = ground arith
assign_slot-StateIn (right_of i) v top uid m j h s = ground arith

pub link-StatesIn :
    (xs : List Slot) (v top uid : ℕ) (m : Memory)
    → v < top
    → StatesIn top uid m
    → StatesIn top uid (link xs v m)
link-StatesIn [] v top uid m h s = s
link-StatesIn (x ∷ xs) v top uid m h s =
    link-StatesIn xs v top uid (assign_slot x v m) h
      (λ i a b. assign_slot-StateIn x v top uid m i h (s i a b))

write_state-StateIn :
    (top uid : ℕ) (s : State) (m : Memory) (i : ℕ)
    → s.left < top
    → s.right < top
    → s.last_step_seen ≤ uid
    → (0 < i)
    → i < top + 1
    → StatesIn top uid m
    → StateIn (top + 1) uid (write_state top s m i)
write_state-StateIn top uid s m i l r k a b h = elim (dec i) [
  | inl e ↦ rw (shut i e) (omega (arith, h i a e))
  | inr e ↦ ground arith
]
  where
    dec : (i : ℕ) → (i < top) ⊎ (top ≤ i)
    dec i = ground arith

    shut : (i : ℕ) → i < top → write_state top s m i ≡ m i
    shut i e = ground arith

-- The outcome keeps the bounds and does not count a step.
abbrev pub Bounded : ℕ → List Fragment → Nfa → Type 0
Bounded uid fs n = InBounds n × All (FragmentIn n.top) fs × (n.step_uid ≡ uid)

abbrev pub Keeps : ℕ → Outcome → Type 0
Keeps uid none = Unit
Keeps uid (some (throw e)) = Unit
Keeps uid (some (ok (fs, n))) = Bounded uid fs n

abbrev pub KeepsNfa : ℕ → Nfa → Option Nfa → Type 0
KeepsNfa uid n none = Unit
KeepsNfa uid n (some n') = InBounds n' × (n'.top ≡ n.top + 1) × (n'.step_uid ≡ uid)

pub allocate-KeepsNfa :
    (c l r : ℕ) (n : Nfa)
    → InBounds n
    → l < n.top
    → r < n.top
    → KeepsNfa n.step_uid n (allocate c l r n)
unfolding allocate
allocate-KeepsNfa c l r n (pos, size, s) hl hr = elim (Bool-cases (ltb n.top max_size)) [
  | inl e ↦ rw e (
    (
      omega arith,
      omega (arith, ltb→lt n.top max_size e),
      λ i a b.
          write_state-StateIn n.top n.step_uid
            (record { c = c; left = l; right = r; last_step_seen = 0 }) n.states i hl hr
            (omega arith) a b s,
    ),
    refl,
    refl,
  )
  | inr e ↦ rw e tt
]
