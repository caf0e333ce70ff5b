-- ===== src/Scan/Split.antt =====
-- `splitString` of src/common/common.cpp: the parts, and the way back.
use gazon.Base.{
  ℕ, ◌≡◌, refl, ap, sym, ◌∙◌, false, ◌≢◌, List, [], ◌∷◌, ◌++◌, append_assoc, append-nil, Text,
  nat_eq, Bool-cases, inl, inr, nat_eq_iff, All, All-append,
}
use gazon.Scan.{push_part, split_loop, split_string}

-- No byte of the text is the separator.
abbrev pub Lacks : ℕ → Text → Type 0
Lacks sep = All (λ c. nat_eq c sep ≡ false)

-- A part: not empty, and with no separator in it.
abbrev pub IsPart : ℕ → Text → Type 0
IsPart sep c = (c ≢ []) × Lacks sep c

push_part-All :
    (sep : ℕ) (out : List Text) (c : Text)
    → All (IsPart sep) out
    → Lacks sep c
    → All (IsPart sep) (push_part out c)
unfolding push_part
push_part-All sep out [] h l = h
push_part-All sep out (x ∷ c) h l =
    All-append (IsPart sep) out ((x ∷ c) ∷ []) h (((λ e. cc), l), tt)

split_loop-All :
    (sep : ℕ) (s : Text) (out : List Text) (c : Text)
    → All (IsPart sep) out
    → Lacks sep c
    → All (IsPart sep) (split_loop sep s out c)
unfolding split_loop
split_loop-All sep [] out c h l = push_part-All sep out c h l
split_loop-All sep (x ∷ s) out c h l = elim (Bool-cases (nat_eq x sep)) [
  | inl e ↦ rw e (split_loop-All sep s (push_part out c) [] (push_part-All sep out c h l) tt)
  | inr e ↦ rw e (
      split_loop-All sep s out (c ++ x ∷ []) h
        (All-append (λ b. nat_eq b sep ≡ false) c (x ∷ []) l (e, tt)))
]

-- No part of a split text is empty, and none has the separator in it.
pub split_string_parts : (s : Text) (sep : ℕ) → All (IsPart sep) (split_string s sep)
unfolding split_string
split_string_parts s sep = split_loop-All sep s [] [] tt tt

-- The parts with one separator in front of each.
unfoldable pub join_with : ℕ → List Text → Text
join_with sep [] = []
join_with sep (p ∷ ps) = sep ∷ (p ++ join_with sep ps)

-- the loop collects a stretch that has no separator
pub split_loop-append :
    (sep : ℕ) (p s : Text) (out : List Text) (c : Text)
    → Lacks sep p
    → split_loop sep (p ++ s) out c ≡ split_loop sep s out (c ++ p)
unfolding split_loop
split_loop-append sep [] s out c l = rw append-nil
split_loop-append sep (x ∷ p) s out c l =
    rw l.0 (split_loop-append sep p s out (c ++ x ∷ []) l.1 ∙ rw append_assoc)

push_part_eq : (out : List Text) (c : Text) → c ≢ [] → push_part out c ≡ out ++ c ∷ []
unfolding push_part
push_part_eq out [] h = absurd (h refl)
push_part_eq out (x ∷ c) h = refl

split_loop-join :
    (sep : ℕ) (ps : List Text) (out : List Text) (c : Text)
    → All (IsPart sep) ps
    → split_loop sep (join_with sep ps) out c ≡ push_part out c ++ ps
unfolding split_loop join_with
split_loop-join sep [] out c h = sym (append-nil _)
split_loop-join sep (p ∷ ps) out c h = rw ((nat_eq_iff sep sep).1 refl) (
    split_loop-append sep p (join_with sep ps) (push_part out c) [] h.0.1
    ∙ split_loop-join sep ps (push_part out c) p h.1
    ∙ ap (λ t. t ++ ps) (push_part_eq (push_part out c) p h.0.0)
    ∙ append_assoc (push_part out c) (p ∷ []) ps)

-- Parts that are not empty and lack the separator, joined by it, split into themselves.
pub split_string-join :
    (ps : List Text) (sep : ℕ) → All (IsPart sep) ps → split_string (join_with sep ps) sep ≡ ps
unfolding split_string push_part
split_string-join ps sep h = split_loop-join sep ps [] [] h

-- A separator in front adds no part.
pub split_string-leading : (s : Text) (sep : ℕ) → split_string (sep ∷ s) sep ≡ split_string s sep
unfolding split_string split_loop push_part
split_string-leading s sep = rw ((nat_eq_iff sep sep).1 refl)

push_part-append :
    (out outs : List Text) (c : Text) → push_part (out ++ outs) c ≡ out ++ push_part outs c
unfolding push_part
push_part-append out outs [] = refl
push_part-append out outs (x ∷ c) = append_assoc out outs ((x ∷ c) ∷ [])

-- what is already out stays in front
split_loop_out :
    (sep : ℕ) (s : Text) (out outs : List Text) (c : Text)
    → split_loop sep s (out ++ outs) c ≡ out ++ split_loop sep s outs c
unfolding split_loop
split_loop_out sep [] out outs c = push_part-append out outs c
split_loop_out sep (x ∷ s) out outs c = elim (Bool-cases (nat_eq x sep)) [
  | inl e ↦ rw (e, push_part-append out outs c) (split_loop_out sep s out (push_part outs c) [])
  | inr e ↦ rw e (split_loop_out sep s out outs (c ++ x ∷ []))
]

-- A part, a separator and a text split into the part and the split of the text.
pub split_string-part :
    (p s : Text) (sep : ℕ) → IsPart sep p → split_string (p ++ sep ∷ s) sep ≡ p ∷ split_string s sep
unfolding split_string
split_string-part p s sep h = split_loop-append sep p (sep ∷ s) [] [] h.1 ∙ after
  where
    after : split_loop sep (sep ∷ s) [] p ≡ p ∷ split_loop sep s [] []
    after =
        unfold split_loop in
        rw ((nat_eq_iff sep sep).1 refl, push_part_eq [] p h.0)
          (split_loop_out sep s (p ∷ []) [] [])
