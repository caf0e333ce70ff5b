-- ===== src/Regex/Convert/Syntax.antt =====
-- The patterns that include/common/regexpostfix.h documents, without repetitions in braces and
-- escaped characters: how they are written, and the expressions that they stand for.
use gazon.Base.{ℕ, ◌<◌, ◌≡◌, ◌≢◌, ◌⊎◌, [], ◌∷◌, ◌++◌, Text}
use gazon.Regex.Nfa.Graph.{Regex, chr, any, cat, alt, opt, star, plus, IsPlain}

mutual
  -- what stands between the bars
  pub data Pattern : Type 0 where
    only : Sequence → Pattern
    either : Sequence → Pattern → Pattern

  pub data Sequence : Type 0 where
    first : Piece → Sequence
    behind : Sequence → Piece → Sequence

  pub data Piece : Type 0 where
    literal : ℕ → Piece
    dot : Piece
    group : Pattern → Piece
    starred optional plussed : Piece → Piece

abbrev mutual
  pub render : Pattern → Text
  render (only s) = render_sequence s
  render (either s p) = render_sequence s ++ (b'|' ∷ render p)

  pub render_sequence : Sequence → Text
  render_sequence (first x) = render_piece x
  render_sequence (behind s x) = render_sequence s ++ render_piece x

  pub render_piece : Piece → Text
  render_piece (literal c) = c ∷ []
  render_piece dot = b'.' ∷ []
  render_piece (group p) = b'(' ∷ (render p ++ (b')' ∷ []))
  render_piece (starred x) = render_piece x ++ (b'*' ∷ [])
  render_piece (optional x) = render_piece x ++ (b'?' ∷ [])
  render_piece (plussed x) = render_piece x ++ (b'+' ∷ [])

abbrev mutual
  pub expression : Pattern → Regex
  expression (only s) = expression_sequence s
  expression (either s p) = alt (expression_sequence s) (expression p)

  pub expression_sequence : Sequence → Regex
  expression_sequence (first x) = expression_piece x
  expression_sequence (behind s x) = cat (expression_sequence s) (expression_piece x)

  pub expression_piece : Piece → Regex
  expression_piece (literal c) = chr c
  expression_piece dot = any
  expression_piece (group p) = expression p
  expression_piece (starred x) = star (expression_piece x)
  expression_piece (optional x) = opt (expression_piece x)
  expression_piece (plussed x) = plus (expression_piece x)

-- The byte has no meaning in a pattern, and is not one that stands for an operator.
abbrev pub IsLiteral : ℕ → Type 0
IsLiteral c =
    ((c ≡ 0) ⊎ (6 < c))
    × (c ≢ b'(')
    × (c ≢ b')')
    × (c ≢ b'|')
    × (c ≢ 92)
    × (c ≢ b'{')
    × (c ≢ b'?')
    × (c ≢ b'*')
    × (c ≢ b'+')
    × (c ≢ b'$')
    × (c ≢ b'.')

abbrev mutual
  -- the literals are such bytes
  pub IsWritable : Pattern → Type 0
  IsWritable (only s) = SequenceIsWritable s
  IsWritable (either s p) = SequenceIsWritable s × IsWritable p

  pub SequenceIsWritable : Sequence → Type 0
  SequenceIsWritable (first x) = PieceIsWritable x
  SequenceIsWritable (behind s x) = SequenceIsWritable s × PieceIsWritable x

  pub PieceIsWritable : Piece → Type 0
  PieceIsWritable (literal c) = IsLiteral c
  PieceIsWritable dot = Unit
  PieceIsWritable (group p) = IsWritable p
  PieceIsWritable (starred x) = PieceIsWritable x
  PieceIsWritable (optional x) = PieceIsWritable x
  PieceIsWritable (plussed x) = PieceIsWritable x

mutual
  pub expression-IsPlain : (p : Pattern) → IsWritable p → IsPlain (expression p)
  expression-IsPlain (only s) h = sequence-IsPlain s h
  expression-IsPlain (either s p) (h, k) = (sequence-IsPlain s h, expression-IsPlain p k)

  sequence-IsPlain : (s : Sequence) → SequenceIsWritable s → IsPlain (expression_sequence s)
  sequence-IsPlain (first x) h = piece-IsPlain x h
  sequence-IsPlain (behind s x) (h, k) = (sequence-IsPlain s h, piece-IsPlain x k)

  piece-IsPlain : (x : Piece) → PieceIsWritable x → IsPlain (expression_piece x)
  piece-IsPlain (literal c) h = h.0
  piece-IsPlain dot h = tt
  piece-IsPlain (group p) h = expression-IsPlain p h
  piece-IsPlain (starred x) h = piece-IsPlain x h
  piece-IsPlain (optional x) h = piece-IsPlain x h
  piece-IsPlain (plussed x) h = piece-IsPlain x h
