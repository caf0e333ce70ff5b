-- ===== src/Regex/Convert/Pieces.antt =====
-- The pieces of a pattern in the loop of `convert` of include/common/regexpostfix.h.
use gazon.Base.{
  ℕ, ◌+◌, ◌-◌, ◌≤◌, ◌≡◌, ◌⊎◌, inl, inr, refl, sym, ap, subst, ◌∙◌, true, false, [], ◌∷◌, ◌++◌,
  append_assoc, Text, ltb, nat_eq, if◌then◌else◌, arith,
}
use gazon.Errors.{ok}
use gazon.Regex.Postfix.{
  RegexPostfix, emit, with_concat, to_char, pop_one_concat, pop_all_concat, pop_all_pipe,
  concat_loop, pipe_loop, deal_with_unary, concat_char,
}
use gazon.Regex.Convert.{add_char}
use gazon.Regex.Convert.Syntax.{
  Pattern, Sequence, Piece, literal, dot, render, render_sequence, render_piece, expression,
  expression_sequence, expression_piece, IsLiteral,
}
use gazon.Regex.Convert.Reads.{Runs, Runs-append, Runs-dot, Runs-literal}
use gazon.Regex.Nfa.Graph.{post}

-- what `popOneConcat` leaves alone
pub pop_one_concat-keeps :
    (r : RegexPostfix)
    → ((pop_one_concat r).stack ≡ r.stack)
      × ((pop_one_concat r).current_scope.n_pipe ≡ r.current_scope.n_pipe)
unfolding pop_one_concat
pop_one_concat-keeps r =
    elim (ltb 1 r.current_scope.n_concat)
      as (λ b.
        ((if b then emit concat_char (with_concat (r.current_scope.n_concat - 1) r) else r).stack
          ≡ r.stack)
        × ((if b
              then emit concat_char (with_concat (r.current_scope.n_concat - 1) r)
              else r).current_scope.n_pipe
            ≡ r.current_scope.n_pipe)) [ true ↦ (refl, refl) | false ↦ (refl, refl) ]

pub pop_one_concat-few : (r : RegexPostfix) → r.current_scope.n_concat ≤ 1 → pop_one_concat r ≡ r
unfolding pop_one_concat
pop_one_concat-few r h =
    let t : ltb 1 r.current_scope.n_concat ≡ false = ground arith in rw (t, pop_one_concat) refl

pop_one_concat-two :
    (r : RegexPostfix)
    → r.current_scope.n_concat ≡ 2
    → pop_one_concat r ≡ emit concat_char (with_concat (r.current_scope.n_concat - 1) r)
unfolding pop_one_concat
pop_one_concat-two r h =
    let t : ltb 1 r.current_scope.n_concat ≡ true = ground arith in rw (t, pop_one_concat) refl

-- Behind one or two pieces it writes the pending concatenation, so that one piece is left.
pub pop_one_concat-some :
    (r : RegexPostfix)
    → 1 ≤ r.current_scope.n_concat
    → r.current_scope.n_concat ≤ 2
    → ((pop_one_concat r).postfix ≡ concat_loop r.current_scope.n_concat r.postfix)
      × ((pop_one_concat r).current_scope.n_concat ≡ 1)
unfolding concat_loop
pop_one_concat-some r h k = elim (one_or_two r.current_scope.n_concat h k) [
  | inl e ↦
      let same = pop_one_concat-few r (omega arith) in
      (
        ap (λ (x : RegexPostfix). x.postfix) same ∙ sym (ap (λ (n : ℕ). concat_loop n r.postfix) e),
        ap (λ (x : RegexPostfix). x.current_scope.n_concat) same ∙ e,
      )
  | inr e ↦
      let same = pop_one_concat-two r e in
      (
        ap (λ (x : RegexPostfix). x.postfix) same ∙ sym (ap (λ (n : ℕ). concat_loop n r.postfix) e),
        ap (λ (x : RegexPostfix). x.current_scope.n_concat) same ∙ omega arith,
      )
]
  where
    one_or_two : (n : ℕ) → 1 ≤ n → n ≤ 2 → (n ≡ 1) ⊎ (n ≡ 2)
    one_or_two n h k = ground arith

-- The pattern was read, and the pieces and bars of this scope are pending as in `r'`.
abbrev pub PieceReads : Piece → RegexPostfix → Type 0
PieceReads x r =
    (r' : RegexPostfix) × Runs (render_piece x) r r'
    × (r'.postfix ≡ (pop_one_concat r).postfix ++ post (expression_piece x))
    × (r'.current_scope.n_concat ≡ (pop_one_concat r).current_scope.n_concat + 1)
    × (r'.current_scope.n_pipe ≡ r.current_scope.n_pipe)
    × (r'.stack ≡ r.stack)

abbrev pub SequenceReads : Sequence → RegexPostfix → Type 0
SequenceReads s r =
    (r' : RegexPostfix) × Runs (render_sequence s) r r'
    × (concat_loop r'.current_scope.n_concat r'.postfix ≡ r.postfix ++ post (expression_sequence s))
    × (1 ≤ r'.current_scope.n_concat)
    × (r'.current_scope.n_concat ≤ 2)
    × (r'.current_scope.n_pipe ≡ r.current_scope.n_pipe)
    × (r'.stack ≡ r.stack)

abbrev pub PatternReads : Pattern → RegexPostfix → Type 0
PatternReads p r =
    (r' : RegexPostfix) × Runs (render p) r r'
    × ((pop_all_pipe (pop_all_concat r')).postfix
        ≡ pipe_loop r.current_scope.n_pipe (r.postfix ++ post (expression p)))
    × (r'.stack ≡ r.stack)

to_char-literal : (c : ℕ) → IsLiteral c → to_char c ≡ c
unfolding to_char
to_char-literal c h = ground arith

pub literal-PieceReads : (c : ℕ) (r : RegexPostfix) → IsLiteral c → PieceReads (literal c) r
unfolding add_char
literal-PieceReads c r h =
    let (st, np) = pop_one_concat-keeps r in
    (
      add_char c r,
      Runs-literal c r h,
      ap (λ (x : ℕ). (pop_one_concat r).postfix ++ (x ∷ [])) (to_char-literal c h),
      refl,
      np,
      st,
    )

pub dot-PieceReads : (r : RegexPostfix) → PieceReads dot r
unfolding add_char to_char
dot-PieceReads r =
    let (st, np) = pop_one_concat-keeps r in (add_char b'.' r, Runs-dot r, refl, refl, np, st)

pub unary-PieceReads :
    (c op : ℕ) (x y : Piece) (r : RegexPostfix)
    → ((r1 r2 : RegexPostfix) → deal_with_unary c r1 ≡ ok r2 → Runs (c ∷ []) r1 r2)
    → to_char c ≡ op
    → render_piece y ≡ render_piece x ++ (c ∷ [])
    → post (expression_piece y) ≡ post (expression_piece x) ++ (op ∷ [])
    → PieceReads x r
    → PieceReads y r
unfolding deal_with_unary
unary-PieceReads c op x y r runs k er ep (r1, h, p, n, np, st) = (
  emit op r1,
  subst (λ (t : Text). Runs t r (emit op r1)) (sym er)
      (Runs-append (render_piece x) (c ∷ []) r r1 (emit op r1) h (
        runs r1 (emit op r1) (
          let t : nat_eq r1.current_scope.n_concat 0 ≡ false = ground arith in
          rw (t, deal_with_unary) (rw k refl)))),
  ap (λ (t : Text). t ++ (op ∷ [])) p
      ∙ append_assoc (pop_one_concat r).postfix (post (expression_piece x)) (op ∷ [])
      ∙ ap (λ (t : Text). (pop_one_concat r).postfix ++ t) (sym ep),
  n,
  np,
  st,
)
