-- ===== src/Regex/Nfa/Follow.antt =====
-- A step of include/common/regexnfa.h, and what the states of the list accept.
use gazon.Base.{
  ℕ, zero, suc, ◌+◌, ◌≤◌, ◌<◌, ◌≡◌, ◌⊎◌, inl, inr, Bool, true, List, [], Memᴰ, Text, arith,
}
use gazon.Regex.Nfa.{Memory, Nfa, split_node, match_node}
use gazon.Regex.Nfa.Graph.{Accepts}
use gazon.Regex.Nfa.Inside.{StatesIn}
use gazon.Regex.Nfa.Marks.{SameShape, Marked, Reached, Added}

abbrev pub InList : List ℕ → ℕ → Type 0
InList ps q = (q ≡ 0) ⊎ Memᴰ q ps

module _ (g : Memory) (top : ℕ) where
  -- The automaton has the shape of `g`, with `top` states, and no mark of a step to come.
  pub record Like (n : Nfa) : Type 0 where
    pub tops : n.top ≡ top
    pub shape : SameShape g n.states
    pub unmarked : (i : ℕ) → 0 < i → i < top → (n.states i).last_step_seen ≤ n.step_uid
    pub pointers : StatesIn top n.step_uid g

  -- The list has the successors of its splits, and `b` tells whether it has a match state.
  pub record Closed (ps : List ℕ) (b : Bool) : Type 0 where
    pub inside : (i : ℕ) → Memᴰ i ps → (0 < i) × (i < top)
    pub splits :
        (i : ℕ) → Memᴰ i ps → (g i).c ≡ split_node → InList ps (g i).left × InList ps (g i).right
    pub matches : (i : ℕ) → Memᴰ i ps → (g i).c ≡ match_node → b ≡ true
    pub sees : b ≡ true → (i : ℕ) × Memᴰ i ps × ((g i).c ≡ match_node)

  abbrev pub SomeAccepts : List ℕ → Text → Type 0
  SomeAccepts ps s = (i : ℕ) × Memᴰ i ps × Accepts g i s

  module _ (uid : ℕ) (Q : Text → Type 0) (m m' : Memory) (out : List ℕ) (b : Bool)
      (new : (i : ℕ) → ¬ Marked g top uid m i) (A : Added g top uid Q m [] m' out b) where
    listed : (i : ℕ) → Marked g top uid m' i → Memᴰ i out
    listed i k = elim (A.closed i k) [ inl k' ↦ absurd (new i k') | inr (o, _, _) ↦ o ]

    marked : (i : ℕ) → Memᴰ i out → Marked g top uid m' i
    marked i h = elim (A.origin i h) [ inl k ↦ elim k [ ] | inr (k, _) ↦ k ]

    pub listed_if_reached : (q : ℕ) → Reached g top uid m' q → InList out q
    listed_if_reached q (inl e) = inl e
    listed_if_reached q (inr k) = inr (listed q k)

    pub Added-Closed : Closed out b
    Added-Closed = record {
      inside = λ i h. let (pos, lt, _) = marked i h in (pos, lt);
      splits = λ i h e. elim (A.closed i (marked i h)) [
        | inl k ↦ absurd (new i k)
        | inr (_, sp, _) ↦
            let (l, r) = sp e in (listed_if_reached (g i).left l, listed_if_reached (g i).right r)
      ];
      matches = λ i h e. elim (A.closed i (marked i h)) [
        | inl k ↦ absurd (new i k)
        | inr (_, _, ma) ↦ ma e
      ];
      sees = λ e. let (i, k, c) = A.sees e in (i, listed i k, c);
    }

    pub accepts_origin : (s : Text) → SomeAccepts out s → Q s
    accepts_origin s (i, h, a) = elim (A.origin i h) [ inl k ↦ elim k [ ] | inr (_, q) ↦ q s a ]

    pub Accepts-reached :
        (q : ℕ) (s : Text) → Reached g top uid m' q → Accepts g q s → SomeAccepts out s
    Accepts-reached q s r a = go (listed_if_reached q r) a
      where
        go : InList out q → Accepts g q s → SomeAccepts out s
        go (inr h) a = (q, h, a)
        go (inl e) (zero, a) = absurd a
        go (inl e) (suc n, (pos, _)) = absurd (omega arith)

  -- the next step's uid marks no state
  pub no_marks : (n : Nfa) → Like n → (i : ℕ) → ¬ Marked g top (n.step_uid + 1) n.states i
  no_marks n L i (pos, lt, e) = let k = L.unmarked i pos lt in absurd (omega arith)

  -- the automaton behind a step
  abbrev pub after : Nfa → Memory → Nfa
  after n m' = record n { step_uid = n.step_uid + 1; states = m' }

  pub after-Like :
      (n : Nfa) (Q : Text → Type 0) (m' : Memory) (out : List ℕ) (b : Bool)
      → Like n
      → Added g top (n.step_uid + 1) Q n.states [] m' out b
      → Like (after n m')
  after-Like n Q m' out b L A = record {
    tops = L.tops;
    shape = A.shape;
    unmarked = λ i pos lt.
        let k = L.unmarked i pos lt in
        elim (A.marks i) [ inl e ↦ omega arith | inr e ↦ omega arith ];
    pointers = λ i pos lt. let k = L.pointers i pos lt in omega arith;
  }
