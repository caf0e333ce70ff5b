-- ===== src/Regex/Nfa/Bounds.antt =====
-- The pointers that `RegexNfa::from` of include/common/regexnfa.h sets, whatever the postfix order.
use gazon.Base.{
  ℕ, ◌+◌, ◌<◌, ◌≡◌, inl, inr, refl, ap, subst, sym, ◌∙◌, Bool, true, false, List, [], ◌∷◌, ◌++◌,
  here, there, Mem-append, All, Option, some, none, Text, nat_eq, if◌then◌else◌, arith,
}
use gazon.Errors.{Result, ok, throw}
use gazon.Regex.Postfix.{concat_char, pipe_char, zero_or_one, one_or_more, zero_or_more, any_char}
use gazon.Regex.Nfa.{
  Nfa, Fragment, Outcome, Slot, left_of, right_of, split_node, any_node, match_node, allocate,
  pushed, loop_back, add_byte, add_leaf, add_concat, add_alternative, add_optional, add_star,
  add_plus, build, then_build, from, close_nfa, close_on, with_final,
}
use gazon.Regex.Nfa.Slots.{place, Within}
use gazon.Regex.Nfa.Inside.{
  InBounds, FragmentIn, All-FragmentIn-mono, link-StatesIn, Keeps, KeepsNfa, allocate-KeepsNfa,
}

-- a fragment on the state that was allocated, once open slots are linked to it
pushed-Keeps :
    (n : Nfa) (o : Option Nfa) (f : Fragment) (fs : List Fragment)
    → KeepsNfa n.step_uid n o
    → FragmentIn (n.top + 1) f
    → All (FragmentIn n.top) fs
    → Keeps n.step_uid (pushed o f fs)
pushed-Keeps n none f fs k hf h = tt
pushed-Keeps n (some n') f fs (b, e, u) hf h = (
  b,
  subst (λ (t : ℕ). All (FragmentIn t) (f ∷ fs)) (sym e) (hf, All-FragmentIn-mono n.top fs h),
  u,
)

loop_back-KeepsNfa :
    (n : Nfa) (o : Option Nfa) (xs : List Slot)
    → KeepsNfa n.step_uid n o
    → KeepsNfa n.step_uid n (loop_back xs n.top o)
loop_back-KeepsNfa n none xs k = tt
loop_back-KeepsNfa n (some n') xs ((pos, size, s), e, u) =
    ((pos, size, link-StatesIn xs n.top n'.top n'.step_uid n'.states (omega arith) s), e, u)

new_slot : (n : Nfa) (x : Slot) → InBounds n → place x ≡ n.top → Within 1 (n.top + 1) (x ∷ [])
new_slot n x (pos, _, _) e y (here e') = let k : place y ≡ n.top = ap place e' ∙ e in omega arith
new_slot n x b e y (there h) = elim h [ ]

Within-append :
    (lo hi : ℕ) (xs ys : List Slot) → Within lo hi xs → Within lo hi ys → Within lo hi (xs ++ ys)
Within-append lo hi xs ys h k y m = elim (Mem-append y xs ys m) [ inl l ↦ h y l | inr r ↦ k y r ]

Within-mono : (hi : ℕ) (xs : List Slot) → Within 1 hi xs → Within 1 (hi + 1) xs
Within-mono hi xs h y m = let k = h y m in omega arith

add_leaf-Keeps :
    (c : ℕ) (fs : List Fragment) (n : Nfa)
    → InBounds n
    → All (FragmentIn n.top) fs
    → Keeps n.step_uid (add_leaf c fs n)
unfolding add_leaf
add_leaf-Keeps c fs n b h =
    pushed-Keeps n (allocate c 0 0 n) _ fs (allocate-KeepsNfa c 0 0 n b b.0 b.0)
      (b.0, omega arith, new_slot n (left_of n.top) b refl) h

add_concat-Keeps :
    (fs : List Fragment) (n : Nfa)
    → InBounds n
    → All (FragmentIn n.top) fs
    → Keeps n.step_uid (add_concat fs n)
unfolding add_concat
add_concat-Keeps [] n b h = tt
add_concat-Keeps (e2 ∷ []) n b h = tt
add_concat-Keeps (e2 ∷ e1 ∷ fs) n (pos, size, s) ((p2, l2, w2), ((p1, l1, w1), h)) = (
  (pos, size, link-StatesIn e1.needs_linking e2.state n.top n.step_uid n.states l2 s),
  ((p1, l1, w2), h),
  refl,
)

add_alternative-Keeps :
    (fs : List Fragment) (n : Nfa)
    → InBounds n
    → All (FragmentIn n.top) fs
    → Keeps n.step_uid (add_alternative fs n)
unfolding add_alternative
add_alternative-Keeps [] n b h = tt
add_alternative-Keeps (e2 ∷ []) n b h = tt
add_alternative-Keeps (e2 ∷ e1 ∷ fs) n b ((p2, l2, w2), ((p1, l1, w1), h)) =
    pushed-Keeps n (allocate split_node e1.state e2.state n) _ fs
      (allocate-KeepsNfa split_node e1.state e2.state n b l1 l2)
      (
        b.0,
        omega arith,
        Within-mono n.top (e1.needs_linking ++ e2.needs_linking)
            (Within-append 1 n.top e1.needs_linking e2.needs_linking w1 w2),
      )
      h

add_optional-Keeps :
    (fs : List Fragment) (n : Nfa)
    → InBounds n
    → All (FragmentIn n.top) fs
    → Keeps n.step_uid (add_optional fs n)
unfolding add_optional
add_optional-Keeps [] n b h = tt
add_optional-Keeps (e ∷ fs) n b ((p, l, w), h) =
    pushed-Keeps n (allocate split_node e.state 0 n) _ fs
      (allocate-KeepsNfa split_node e.state 0 n b l b.0)
      (
        b.0,
        omega arith,
        Within-append 1 (n.top + 1) e.needs_linking (right_of n.top ∷ [])
            (Within-mono n.top e.needs_linking w) (new_slot n (right_of n.top) b refl),
      )
      h

add_star-Keeps :
    (fs : List Fragment) (n : Nfa)
    → InBounds n
    → All (FragmentIn n.top) fs
    → Keeps n.step_uid (add_star fs n)
unfolding add_star
add_star-Keeps [] n b h = tt
add_star-Keeps (e ∷ fs) n b ((p, l, w), h) =
    pushed-Keeps n _ _ fs
      (loop_back-KeepsNfa n (allocate split_node e.state 0 n) e.needs_linking
        (allocate-KeepsNfa split_node e.state 0 n b l b.0))
      (b.0, omega arith, new_slot n (right_of n.top) b refl) h

add_plus-Keeps :
    (fs : List Fragment) (n : Nfa)
    → InBounds n
    → All (FragmentIn n.top) fs
    → Keeps n.step_uid (add_plus fs n)
unfolding add_plus
add_plus-Keeps [] n b h = tt
add_plus-Keeps (e ∷ fs) n b ((p, l, w), h) =
    pushed-Keeps n _ _ fs
      (loop_back-KeepsNfa n (allocate split_node e.state 0 n) e.needs_linking
        (allocate-KeepsNfa split_node e.state 0 n b l b.0))
      (p, omega arith, new_slot n (right_of n.top) b refl) h

either_Keeps :
    (uid : ℕ) (b : Bool) (x y : Outcome)
    → Keeps uid x
    → Keeps uid y
    → Keeps uid (if b then x else y)
either_Keeps uid true x y hx hy = hx
either_Keeps uid false x y hx hy = hy

add_byte-Keeps :
    (c : ℕ) (fs : List Fragment) (n : Nfa)
    → InBounds n
    → All (FragmentIn n.top) fs
    → Keeps n.step_uid (add_byte c fs n)
unfolding add_byte
add_byte-Keeps c fs n b h =
    either_Keeps _ (nat_eq c any_char) _ _ (add_leaf-Keeps any_node fs n b h) (
      either_Keeps _ (nat_eq c concat_char) _ _ (add_concat-Keeps fs n b h) (
        either_Keeps _ (nat_eq c pipe_char) _ _ (add_alternative-Keeps fs n b h) (
          either_Keeps _ (nat_eq c zero_or_one) _ _ (add_optional-Keeps fs n b h) (
            either_Keeps _ (nat_eq c zero_or_more) _ _ (add_star-Keeps fs n b h) (
              either_Keeps _ (nat_eq c one_or_more) _ _ (add_plus-Keeps fs n b h)
                (add_leaf-Keeps c fs n b h))))))

build-Keeps :
    (bytes : Text) (fs : List Fragment) (n : Nfa)
    → InBounds n
    → All (FragmentIn n.top) fs
    → Keeps n.step_uid (build bytes fs n)
unfolding build
build-Keeps [] fs n b h = (b, h, refl)
build-Keeps (c ∷ bytes) fs n b h =
    go (add_byte c fs n) (add_byte-Keeps c fs n b h) (λ fs' n'. build-Keeps bytes fs' n')
  where
    go :
        (o : Outcome)
        → Keeps n.step_uid o
        → ((fs' : List Fragment) (n' : Nfa)
            → InBounds n'
            → All (FragmentIn n'.top) fs'
            → Keeps n'.step_uid (build bytes fs' n'))
        → Keeps n.step_uid (then_build o (build bytes))
    go none k rest = tt
    go (some (throw e)) k rest = tt
    go (some (ok (fs', n'))) (b', h', u) rest =
        subst (λ (uid : ℕ). Keeps uid (build bytes fs' n')) u (rest fs' n' b' h')

-- What `from` returns is in bounds, with its start and its final state.
abbrev pub Connected : ℕ → Option (Result Nfa) → Type 0
Connected uid none = Unit
Connected uid (some (throw e)) = Unit
Connected uid (some (ok n)) =
    InBounds n
    × (0 < n.start_state)
    × (n.start_state < n.top)
    × (0 < n.final_state)
    × (n.final_state < n.top)
    × (n.step_uid ≡ uid)

close_nfa-Connected :
    (fs : List Fragment) (n n' : Nfa)
    → 0 < n.top
    → All (FragmentIn n.top) fs
    → InBounds n'
    → n'.top ≡ n.top + 1
    → Connected n'.step_uid (close_nfa n.top fs n')
unfolding close_nfa
close_nfa-Connected [] n n' pos h b e = tt
close_nfa-Connected (f ∷ f' ∷ fs) n n' pos h b e = tt
close_nfa-Connected (f ∷ []) n n' pos ((p, l, w), _) (pos', size, s) e = (
  (pos', size, link-StatesIn f.needs_linking n.top n'.top n'.step_uid n'.states (omega arith) s),
  p,
  omega arith,
  pos,
  omega arith,
  refl,
)

close_on-Connected : (uid : ℕ) (o : Outcome) → Keeps uid o → Connected uid (close_on o)
close_on-Connected uid none k = tt
close_on-Connected uid (some (throw e)) k = tt
close_on-Connected uid (some (ok (fs, n))) (b, h, u) =
    go (allocate match_node 0 0 n) (allocate-KeepsNfa match_node 0 0 n b b.0 b.0)
  where
    go : (o : Option Nfa) → KeepsNfa n.step_uid n o → Connected uid (with_final fs n.top o)
    go none k = tt
    go (some n') (b', e, u') =
        subst (λ (v : ℕ). Connected v (close_nfa n.top fs n')) (u' ∙ u)
          (close_nfa-Connected fs n n' b.0 h b' e)

-- Whatever bytes `from` reads, it allocates at most the 65535 states of `m_states`, and if it
-- returns, the start state, the final state and both pointers of each state lead to an allocated
-- state, the pointers or to none.
pub from-InBounds : (bytes : Text) (n : Nfa) → InBounds n → Connected n.step_uid (from bytes n)
unfolding from
from-InBounds bytes n b =
    close_on-Connected n.step_uid (build bytes [] n) (build-Keeps bytes [] n b tt)
