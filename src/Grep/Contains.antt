-- ===== src/Grep/Contains.antt =====
-- The pattern that src/common/commands/grep.cpp makes of its argument, ".*" in front and behind,
-- and the texts that contain one of the argument's.
use gazon.Base.{◌≡◌, ◌↔◌, refl, sym, ap, ◌∙◌, [], ◌∷◌, ◌++◌, append_assoc, Text, codes}
use gazon.Regex.Nfa.Graph.{Denotes, any, cat, Repeated, done, more}
use gazon.Regex.Convert.Syntax.{
  Sequence, Piece, first, behind, dot, starred, render_sequence, render_piece, expression_sequence,
  expression_piece, SequenceIsWritable,
}

-- `x` in front of the sequence
abbrev pub in_front : Piece → Sequence → Sequence
in_front x (first y) = behind (first x) y
in_front x (behind s y) = behind (in_front x s) y

abbrev pub anything : Piece
anything = starred dot

abbrev pub around : Sequence → Sequence
around s = behind (in_front anything s) anything

-- Some part of the text is one of the sequence's.
abbrev pub Contains : Sequence → Text → Type 0
Contains s line =
    (u : Text) × (v : Text) × (w : Text) × (line ≡ u ++ (v ++ w))
    × Denotes (expression_sequence s) v

render-in_front :
    (x : Piece) (s : Sequence)
    → render_sequence (in_front x s) ≡ render_piece x ++ render_sequence s
render-in_front x (first y) = refl
render-in_front x (behind s y) =
    ap (λ (t : Text). t ++ render_piece y) (render-in_front x s)
    ∙ append_assoc (render_piece x) (render_sequence s) (render_piece y)

pub render-around :
    (s : Sequence) → render_sequence (around s) ≡ codes ".*" ++ (render_sequence s ++ codes ".*")
render-around s =
    ap (λ (t : Text). t ++ codes ".*") (render-in_front anything s)
    ∙ append_assoc (codes ".*") (render_sequence s) (codes ".*")

in_front-IsWritable :
    (s : Sequence) → SequenceIsWritable s → SequenceIsWritable (in_front anything s)
in_front-IsWritable (first y) h = (tt, h)
in_front-IsWritable (behind s y) (h, k) = (in_front-IsWritable s h, k)

pub around-IsWritable : (s : Sequence) → SequenceIsWritable s → SequenceIsWritable (around s)
around-IsWritable s h = (in_front-IsWritable s h, tt)

repeated_any : (t : Text) → Repeated (Denotes any) t
repeated_any [] = done
repeated_any (c ∷ t) = more (c ∷ []) t refl (c, refl) (repeated_any t)

abbrev CatOf : Piece → Sequence → Text → Type 0
CatOf x s = Denotes (cat (expression_piece x) (expression_sequence s))

to_cat :
    (x : Piece) (s : Sequence) (t : Text)
    → Denotes (expression_sequence (in_front x s)) t
    → CatOf x s t
to_cat x (first y) t h = h
to_cat x (behind s y) t (u, v, e, hu, hv) =
    let (a, b, e', ha, hb) = to_cat x s u hu in
    (a, b ++ v, e ∙ ap (λ (z : Text). z ++ v) e' ∙ append_assoc a b v, ha, (b, v, refl, hb, hv))

from_cat :
    (x : Piece) (s : Sequence) (t : Text)
    → CatOf x s t
    → Denotes (expression_sequence (in_front x s)) t
from_cat x (first y) t h = h
from_cat x (behind s y) t (a, r, e, ha, (b, v, e', hb, hv)) = (
  a ++ b,
  v,
  e ∙ ap (λ (z : Text). a ++ z) e' ∙ sym (append_assoc a b v),
  from_cat x s (a ++ b) (a, b, refl, ha, hb),
  hv,
)

pub around-Contains :
    (s : Sequence) (line : Text) → Denotes (expression_sequence (around s)) line ↔ Contains s line
around-Contains s line = (contains, denotes)
  where
    contains : Denotes (expression_sequence (around s)) line → Contains s line
    contains (uv, w, e, h, k) =
        let (u, v, e', hu, hv) = to_cat anything s uv h in
        (u, v, w, e ∙ ap (λ (z : Text). z ++ w) e' ∙ append_assoc u v w, hv)

    denotes : Contains s line → Denotes (expression_sequence (around s)) line
    denotes (u, v, w, e, hv) = (
      u ++ v,
      w,
      e ∙ sym (append_assoc u v w),
      from_cat anything s (u ++ v) (u, v, refl, repeated_any u, hv),
      repeated_any w,
    )
