-- ===== src/Regex/Convert/Correct.antt =====
-- `RegexPostfix::convert` of include/common/regexpostfix.h on a pattern as it is documented.
use gazon.Base.{
  ℕ, suc, ◌+◌, ◌≤◌, ◌≡◌, refl, sym, ap, subst, ◌∙◌, false, [], ◌∷◌, ◌++◌, append_assoc, append-nil,
  some, Text, length, ltb, nat_eq, arith,
}
use gazon.Errors.{ok}
use gazon.Regex.Postfix.{
  RegexPostfix, new_scope, to_char, pop_one_concat, pop_all_concat, pop_all_pipe, concat_loop,
  pipe_loop, concat_char, pipe_char,
}
use gazon.Regex.Convert.{
  start_group, open_group, close_group, add_pipe, convert_loop, convert, finish,
}
use gazon.Regex.Convert.Syntax.{
  Pattern, only, either, Sequence, first, behind, Piece, literal, dot, group, starred, optional,
  plussed, render, render_sequence, render_piece, expression, expression_sequence, expression_piece,
  IsWritable, SequenceIsWritable, PieceIsWritable,
}
use gazon.Regex.Convert.Reads.{
  Runs-append, Runs-open, Runs-close, Runs-pipe, Runs-star, Runs-optional, Runs-plus,
}
use gazon.Regex.Nfa.Graph.{post}
use gazon.Regex.Convert.Pieces.{
  pop_one_concat-keeps, pop_one_concat-few, pop_one_concat-some, PieceReads, SequenceReads,
  PatternReads, literal-PieceReads, dot-PieceReads, unary-PieceReads,
}

first-SequenceReads :
    (x : Piece) (r : RegexPostfix)
    → r.current_scope.n_concat ≡ 0
    → PieceReads x r
    → SequenceReads (first x) r
unfolding concat_loop
first-SequenceReads x r z (r1, h, p, n, np, st) =
    let same = pop_one_concat-few r (omega arith) in
    let one : r1.current_scope.n_concat ≡ 1 =
      n ∙ ap (λ (y : RegexPostfix). y.current_scope.n_concat + 1) same ∙ omega arith in
    (
      r1,
      h,
      ap (λ (k : ℕ). concat_loop k r1.postfix) one
          ∙ p
          ∙ ap (λ (y : RegexPostfix). y.postfix ++ post (expression_piece x)) same,
      omega arith,
      omega arith,
      np,
      st,
    )

behind-SequenceReads :
    (s : Sequence) (x : Piece) (r : RegexPostfix)
    → (h : SequenceReads s r) → PieceReads x h.0
    → SequenceReads (behind s x) r
unfolding concat_loop
behind-SequenceReads s x r (r1, h, p, low, high, np, st) (r2, h2, p2, n2, np2, st2) =
    let (popped, left) = pop_one_concat-some r1 low high in
    let two : r2.current_scope.n_concat ≡ 2 = omega arith in
    (
      r2,
      Runs-append (render_sequence s) (render_piece x) r r1 r2 h h2,
      ap (λ (k : ℕ). concat_loop k r2.postfix) two
          ∙ ap (λ (t : Text). t ++ (concat_char ∷ []))
              (p2 ∙ ap (λ (t : Text). t ++ post (expression_piece x)) (popped ∙ p))
          ∙ append_assoc (r.postfix ++ post (expression_sequence s)) (post (expression_piece x))
              (concat_char ∷ [])
          ∙ append_assoc r.postfix (post (expression_sequence s))
              (post (expression_piece x) ++ (concat_char ∷ [])),
      omega arith,
      omega arith,
      np2 ∙ np,
      st2 ∙ st,
    )

only-PatternReads : (s : Sequence) (r : RegexPostfix) → SequenceReads s r → PatternReads (only s) r
unfolding pop_all_concat pop_all_pipe
only-PatternReads s r (r1, h, p, low, high, np, st) =
    (r1, h, ap (λ (q : ℕ × Text). pipe_loop q.0 q.1) (λ i. (np i, p i)), st)

-- the scope behind a bar
abbrev barred : RegexPostfix → RegexPostfix
barred r = record (pop_all_concat r) {
  current_scope = record (pop_all_concat r).current_scope { n_pipe = r.current_scope.n_pipe + 1 };
}

add_pipe-barred : (r : RegexPostfix) → 1 ≤ r.current_scope.n_concat → add_pipe r ≡ ok (barred r)
unfolding add_pipe
add_pipe-barred r h =
    let t : nat_eq r.current_scope.n_concat 0 ≡ false = ground arith in rw (t, add_pipe) refl

pipe_loop-more : (n : ℕ) (t : Text) → pipe_loop (n + 1) t ≡ pipe_loop n (t ++ (pipe_char ∷ []))
unfolding pipe_loop
pipe_loop-more n t =
    subst (λ (k : ℕ). pipe_loop k t ≡ pipe_loop n (t ++ (pipe_char ∷ []))) (same n) refl
  where
    same : (n : ℕ) → suc n ≡ n + 1
    same n = omega arith

either-PatternReads :
    (s : Sequence) (p : Pattern) (r : RegexPostfix)
    → (h : SequenceReads s r) → PatternReads p (barred h.0)
    → PatternReads (either s p) r
unfolding pop_all_concat
either-PatternReads s p r (r1, h, e, low, high, np, st) (r2, h2, e2, st2) = (
  r2,
  Runs-append (render_sequence s) (b'|' ∷ render p) r r1 r2 h (
      Runs-append (b'|' ∷ []) (render p) r1 (barred r1) r2
        (Runs-pipe r1 (barred r1) (add_pipe-barred r1 low)) h2),
  e2
      ∙ pipe_loop-more r1.current_scope.n_pipe ((barred r1).postfix ++ post (expression p))
      ∙ ap (λ (q : ℕ × Text). pipe_loop q.0 ((q.1 ++ post (expression p)) ++ (pipe_char ∷ [])))
          (λ i. (np i, e i))
      ∙ ap (pipe_loop r.current_scope.n_pipe) (
          append_assoc (r.postfix ++ post (expression_sequence s)) (post (expression p))
            (pipe_char ∷ [])
          ∙ append_assoc r.postfix (post (expression_sequence s))
              (post (expression p) ++ (pipe_char ∷ []))),
  st2 ∙ st,
)

-- A group leaves the scope around it with a piece more.
group-PieceReads :
    (p : Pattern) (r : RegexPostfix) → PatternReads p (open_group r) → PieceReads (group p) r
unfolding open_group close_group pipe_loop
group-PieceReads p r (r1, h, e, st) =
    let (stack, pipes) = pop_one_concat-keeps r in
    let scope =
      (start_group (length (pop_one_concat r).postfix) (pop_one_concat r)).current_scope in
    (
      close_group scope (pop_one_concat r).stack r1,
      Runs-append (b'(' ∷ []) (render p ++ (b')' ∷ [])) r (open_group r) _ (Runs-open r) (
          Runs-append (render p) (b')' ∷ []) (open_group r) r1 _ h
            (Runs-close r1 scope (pop_one_concat r).stack st)),
      e,
      refl,
      pipes,
      stack,
    )

star-PieceReads : (x : Piece) (r : RegexPostfix) → PieceReads x r → PieceReads (starred x) r
unfolding to_char
star-PieceReads x r = unary-PieceReads b'*' 5 x (starred x) r Runs-star refl refl refl

optional-PieceReads : (x : Piece) (r : RegexPostfix) → PieceReads x r → PieceReads (optional x) r
unfolding to_char
optional-PieceReads x r = unary-PieceReads b'?' 3 x (optional x) r Runs-optional refl refl refl

plus-PieceReads : (x : Piece) (r : RegexPostfix) → PieceReads x r → PieceReads (plussed x) r
unfolding to_char
plus-PieceReads x r = unary-PieceReads b'+' 4 x (plussed x) r Runs-plus refl refl refl

open_group-zero : (r : RegexPostfix) → (open_group r).current_scope.n_concat ≡ 0
unfolding open_group
open_group-zero r = refl

barred-zero : (r : RegexPostfix) → (barred r).current_scope.n_concat ≡ 0
unfolding pop_all_concat
barred-zero r = refl

mutual
  pattern-Reads :
      (p : Pattern) (r : RegexPostfix)
      → IsWritable p
      → r.current_scope.n_concat ≡ 0
      → PatternReads p r
  pattern-Reads (only s) r w z = only-PatternReads s r (sequence-Reads s r w z)
  pattern-Reads (either s p) r (ws, wp) z =
      let reads = sequence-Reads s r ws z in
      either-PatternReads s p r reads (pattern-Reads p (barred reads.0) wp (barred-zero reads.0))

  sequence-Reads :
      (s : Sequence) (r : RegexPostfix)
      → SequenceIsWritable s
      → r.current_scope.n_concat ≡ 0
      → SequenceReads s r
  sequence-Reads (first x) r w z = first-SequenceReads x r z (piece-Reads x r w)
  sequence-Reads (behind s x) r (ws, wx) z =
      let reads = sequence-Reads s r ws z in
      behind-SequenceReads s x r reads (piece-Reads x reads.0 wx)

  piece-Reads : (x : Piece) (r : RegexPostfix) → PieceIsWritable x → PieceReads x r
  piece-Reads (literal c) r w = literal-PieceReads c r w
  piece-Reads dot r w = dot-PieceReads r
  piece-Reads (group p) r w =
      group-PieceReads p r (pattern-Reads p (open_group r) w (open_group-zero r))
  piece-Reads (starred x) r w = star-PieceReads x r (piece-Reads x r w)
  piece-Reads (optional x) r w = optional-PieceReads x r (piece-Reads x r w)
  piece-Reads (plussed x) r w = plus-PieceReads x r (piece-Reads x r w)

loop_end : (s : Text) (r : RegexPostfix) → convert_loop 1 s (length s) r ≡ some (ok r)
unfolding convert_loop
loop_end s r = let t : ltb (length s) (length s) ≡ false = ground arith in rw (t, convert_loop) refl

-- On a pattern of literals, dots, groups, bars and the three unary operators, `convert` returns, and
-- its result is the postfix order of the expression that the pattern stands for: unary operators
-- bind first, then concatenation, then bars.
pub convert-render :
    (p : Pattern) → IsWritable p → convert (render p) ≡ some (ok (post (expression p)))
unfolding convert convert_loop pipe_loop
convert-render p w = go (pattern-Reads p start w refl)
  where
    start : RegexPostfix
    start = record { postfix = []; stack = []; current_scope = new_scope }

    go :
        PatternReads p start
        → finish (convert_loop (suc (length (render p))) (render p) 0 start)
          ≡ some (ok (post (expression p)))
    go (r, h, e, st) =
        ap finish (
          h (render p) [] [] (suc (length (render p))) 1 0 (length (render p))
            (sym (append-nil (render p))) refl (omega arith) (omega arith)
          ∙ loop_end (render p) r)
        ∙ ap (λ (t : Text). some (ok t)) e
