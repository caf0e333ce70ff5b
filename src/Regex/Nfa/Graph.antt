-- ===== src/Regex/Nfa/Graph.antt =====
-- What the automata of include/common/regexnfa.h are to accept: regular expressions with their
-- languages, their postfix order, and the paths through a graph of states.
use gazon.Base.{ℕ, zero, suc, ◌+◌, ◌<◌, ◌≡◌, ◌≢◌, ◌⊎◌, [], ◌∷◌, ◌++◌, Text}
use gazon.Regex.Postfix.{concat_char, pipe_char, zero_or_one, one_or_more, zero_or_more, any_char}
use gazon.Regex.Nfa.{Memory, any_node, split_node, match_node}

pub data Regex : Type 0 where
  chr : ℕ → Regex
  any : Regex
  cat alt : Regex → Regex → Regex
  opt star plus : Regex → Regex

-- zero or more texts of `P` in a row
pub data Repeated (P : Text → Type 0) : Text → Type 0 where
  done : Repeated P []
  more : {s : Text} (u v : Text) → s ≡ u ++ v → P u → Repeated P v → Repeated P s

-- The language of an expression.
abbrev pub Denotes : Regex → Text → Type 0
Denotes (chr c) s = s ≡ c ∷ []
Denotes any s = (x : ℕ) × (s ≡ x ∷ [])
Denotes (cat a b) s = (u : Text) × (v : Text) × (s ≡ u ++ v) × Denotes a u × Denotes b v
Denotes (alt a b) s = Denotes a s ⊎ Denotes b s
Denotes (opt a) s = (s ≡ []) ⊎ Denotes a s
Denotes (star a) s = Repeated (Denotes a) s
Denotes (plus a) s = (u : Text) × (v : Text) × (s ≡ u ++ v) × Denotes a u × Repeated (Denotes a) v

abbrev pub post : Regex → Text
post (chr c) = c ∷ []
post any = any_char ∷ []
post (cat a b) = post a ++ (post b ++ (concat_char ∷ []))
post (alt a b) = post a ++ (post b ++ (pipe_char ∷ []))
post (opt a) = post a ++ (zero_or_one ∷ [])
post (star a) = post a ++ (zero_or_more ∷ [])
post (plus a) = post a ++ (one_or_more ∷ [])

-- No literal of the expression is one of the bytes that stand for operators.
abbrev pub IsPlain : Regex → Type 0
IsPlain (chr c) = (c ≡ 0) ⊎ (6 < c)
IsPlain any = Unit
IsPlain (cat a b) = IsPlain a × IsPlain b
IsPlain (alt a b) = IsPlain a × IsPlain b
IsPlain (opt a) = IsPlain a
IsPlain (star a) = IsPlain a
IsPlain (plus a) = IsPlain a

-- the states that the expression needs
abbrev pub size : Regex → ℕ
size (chr c) = 1
size any = 1
size (cat a b) = size a + size b
size (alt a b) = size a + size b + 1
size (opt a) = size a + 1
size (star a) = size a + 1
size (plus a) = size a + 1

module _ (m : Memory) where
  -- a state that reads a byte
  abbrev pub Reads : ℕ → ℕ → Type 0
  Reads p x = ((m p).c ≢ split_node) × (((m p).c ≡ any_node) ⊎ ((m p).c ≡ x))

  -- From state `p` a path of at most `n` states reads the text and ends in a match.
  abbrev pub AcceptsIn : ℕ → ℕ → Text → Type 0
  AcceptsIn zero p s = ⊥
  AcceptsIn (suc n) p s =
      (0 < p)
      × ((((m p).c ≡ match_node) × (s ≡ []))
          ⊎ (((m p).c ≡ split_node) × (AcceptsIn n (m p).left s ⊎ AcceptsIn n (m p).right s))
          ⊎ ((x : ℕ) × (r : Text) × (s ≡ x ∷ r) × Reads p x × AcceptsIn n (m p).left r))

  abbrev pub Accepts : ℕ → Text → Type 0
  Accepts p s = (n : ℕ) × AcceptsIn n p s

  abbrev pub Splits : ℕ → ℕ → ℕ → Type 0
  Splits p l r = (0 < p) × ((m p).c ≡ split_node) × ((m p).left ≡ l) × ((m p).right ≡ r)

  -- The states from `p` on are the automaton of the expression, which leads to state `t`.
  abbrev pub Automaton : ℕ → Regex → ℕ → Type 0
  Automaton p (chr c) t = (0 < p) × ((m p).c ≡ c) × ((m p).left ≡ t)
  Automaton p any t = (0 < p) × ((m p).c ≡ any_node) × ((m p).left ≡ t)
  Automaton p (cat a b) t = (q : ℕ) × Automaton p a q × Automaton q b t
  Automaton p (alt a b) t = (q : ℕ) × (q' : ℕ) × Splits p q q' × Automaton q a t × Automaton q' b t
  Automaton p (opt a) t = (q : ℕ) × Splits p q t × Automaton q a t
  Automaton p (star a) t = (q : ℕ) × Splits p q t × Automaton q a p
  Automaton p (plus a) t = (q : ℕ) × Splits q p t × Automaton p a q
