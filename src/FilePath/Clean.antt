-- ===== src/FilePath/Clean.antt =====
-- Paths whose parts are plain names: what the constructor yields, and what `operator+=` makes of two.
use gazon.Base.{
  ◌≡◌, refl, sym, ◌∙◌, Bool, true, false, ◌||◌, List, [], ◌∷◌, ◌++◌, Option, none, some, Text,
  codes, text_eq, ◌==◌, text_Eq, Bool-cases, inl, inr, All, All-append, append-nil, append_assoc,
  arith,
}
use gazon.Scan.{split_string}
use gazon.Scan.Split.{IsPart, split_string_parts}
use gazon.FilePath.{
  FilePath, Printf, slash, dot, tilde, pop_back, may_pop, push_parsed, parse_parts, parse_path,
  add_path_part, add_parts, append_path, get_home, reconstruct_string_view,
}
use gazon.FilePath.Normal.{NotUp}
use gazon.FilePath.Strings.{split-reconstruct}

-- A part that is no ".", is not empty, and has no slash in it.
abbrev pub IsClean : Text → Type 0
IsClean p = ((p == dot) ≡ false) × IsPart slash p

-- A clean part that is not "..": the name of an entry of a directory.
abbrev pub IsName : Text → Type 0
IsName p = NotUp p × IsClean p

pub All-both :
    (P Q : Text → Type 0) (ps : List Text) → All P ps → All Q ps → All (λ p. P p × Q p) ps
All-both P Q [] h k = tt
All-both P Q (p ∷ ps) h k = ((h.0, k.0), All-both P Q ps h.1 k.1)

pub All-map :
    (P Q : Text → Type 0) (ps : List Text) → ((p : Text) → P p → Q p) → All P ps → All Q ps
All-map P Q [] f h = tt
All-map P Q (p ∷ ps) f h = (f p h.0, All-map P Q ps f h.1)

module _ (P : Text → Type 0) where
  pub pop_back-All : (ps : List Text) → All P ps → All P (pop_back ps)
  unfolding pop_back
  pop_back-All [] h = tt
  pop_back-All (p ∷ []) h = tt
  pop_back-All (p ∷ q ∷ ps) h = (h.0, pop_back-All (q ∷ ps) h.1)

  pub add_path_part-All :
      (ps : List Text) (c : Text) → P c → All P ps → All P (add_path_part ps c).0
  add_path_part-All ps c pc h = elim (Bool-cases (may_pop ps c)) [
    | inl m ↦ unfold add_path_part in rw m (pop_back-All ps h)
    | inr m ↦ elim (Bool-cases (c == dot)) [
      | inl d ↦ unfold add_path_part in rw (m, d) h
      | inr d ↦ unfold add_path_part in rw (m, d) (All-append P ps (c ∷ []) h (pc, tt))
    ]
  ]

  pub add_parts-All :
      (ps : List Text) (changed : Bool) (cs : List Text)
      → All P cs
      → All P ps
      → All P (add_parts ps changed cs).0
  unfolding add_parts
  add_parts-All ps changed [] hc h = h
  add_parts-All ps changed (c ∷ cs) hc h =
      add_parts-All (add_path_part ps c).0 (changed || (add_path_part ps c).1) cs hc.1
        (add_path_part-All ps c hc.0 h)

-- The context's user gives a clean name to the home directory.
abbrev pub CleanHome : ⦃f : Printf⦄ → Option Text → Type 0
CleanHome none = Unit
CleanHome (some user) = IsClean (get_home user)

home-IsClean : IsClean (codes "home")
unfolding text_eq
home-IsClean = (refl, ((λ e. cc), (refl, (refl, (refl, (refl, tt))))))

push_parsed-IsClean :
    ⦃f : Printf⦄ (user : Option Text) (ps : List Text) (c : Text)
    → CleanHome user
    → IsPart slash c
    → All IsClean ps
    → All IsClean (push_parsed user ps c)
push_parsed-IsClean user ps c home part h = elim (Bool-cases (c == dot || c == [])) [
  | inl e ↦ unfold push_parsed in rw e h
  | inr e ↦ elim (Bool-cases (may_pop ps c)) [
    | inl m ↦ unfold push_parsed in rw (e, m) (pop_back-All IsClean ps h)
    | inr m ↦ elim (Bool-cases (c == tilde)) [
      | inl t ↦ go user home e m t
      | inr t ↦ unfold push_parsed in rw (e, m, t) (All-append IsClean ps (c ∷ []) h (clean e, tt))
    ]
  ]
]
  where
    clean : (c == dot || c == []) ≡ false → IsClean c
    clean e = (ground arith, part)

    go :
        (user : Option Text)
        → CleanHome user
        → (c == dot || c == []) ≡ false
        → may_pop ps c ≡ false
        → (c == tilde) ≡ true
        → All IsClean (push_parsed user ps c)
    go none home e m t =
        unfold push_parsed in rw (e, m, t) (All-append IsClean ps (c ∷ []) h (clean e, tt))
    go (some name) home e m t =
        unfold push_parsed in
        rw (e, m, t)
          (All-append IsClean ps (codes "home" ∷ get_home name ∷ []) h (home-IsClean, (home, tt)))

parse_parts-IsClean :
    ⦃f : Printf⦄ (user : Option Text) (ps cs : List Text)
    → CleanHome user
    → All (IsPart slash) cs
    → All IsClean ps
    → All IsClean (parse_parts user ps cs)
unfolding parse_parts
parse_parts-IsClean user ps [] home hc h = h
parse_parts-IsClean user ps (c ∷ cs) home hc h =
    parse_parts-IsClean user (push_parsed user ps c) cs home hc.1
      (push_parsed-IsClean user ps c home hc.0 h)

-- Every part of a constructed path is clean, where the home directory's name is.
pub parse_path-IsClean :
    ⦃f : Printf⦄ (path_str : Text) (user : Option Text)
    → CleanHome user
    → All IsClean (parse_path path_str user).parts
unfolding parse_path
parse_path-IsClean path_str user home =
    parse_parts-IsClean user [] (split_string path_str slash) home
      (split_string_parts path_str slash) tt

add_path_part_name :
    (ps : List Text) (c : Text) → IsName c → add_path_part ps c ≡ (ps ++ c ∷ [], true)
unfolding add_path_part
add_path_part_name ps c (up, (d, part)) = rw (not_popped ps c up, d) refl
  where
    not_popped : (ps : List Text) (c : Text) → NotUp c → may_pop ps c ≡ false
    not_popped ps c up = unfold may_pop in rw up

add_parts_names :
    (ps : List Text) (changed : Bool) (cs : List Text)
    → All IsName cs
    → (add_parts ps changed cs).0 ≡ ps ++ cs
unfolding add_parts
add_parts_names ps changed [] h = sym (append-nil ps)
add_parts_names ps changed (c ∷ cs) h =
    rw (add_path_part_name ps c h.0, add_parts)
      (add_parts_names (ps ++ c ∷ []) (changed || true) cs h.1 ∙ append_assoc ps (c ∷ []) cs)

add_parts_stays : (ps cs : List Text) → (add_parts ps true cs).1 ≡ true
unfolding add_parts
add_parts_stays ps [] = refl
add_parts_stays ps (c ∷ cs) = add_parts_stays (add_path_part ps c).0 cs

add_parts_changed :
    (ps : List Text) (c : Text) (cs : List Text) → IsName c → (add_parts ps false (c ∷ cs)).1 ≡ true
unfolding add_parts
add_parts_changed ps c cs h =
    rw (add_path_part_name ps c h, add_parts) (add_parts_stays (ps ++ c ∷ []) cs)

-- A relative path of names goes behind the parts of the path on the left, and the string of the
-- result reads as its parts.
pub append_path_names :
    ⦃f : Printf⦄ (base : Text) (p : FilePath)
    → p.is_absolute ≡ false
    → All IsName p.parts
    → let q = append_path (parse_path base none) p in
      (q.parts ≡ (parse_path base none).parts ++ p.parts)
      × (split_string q.string slash ≡ (parse_path base none).parts ++ p.parts)
append_path_names base p rel h = go p.parts refl h
  where
    b : FilePath
    b = parse_path base none

    parts_of : (ps : List Text) → All IsName ps → All (IsPart slash) (b.parts ++ ps)
    parts_of ps h =
        All-append (IsPart slash) b.parts ps
          (All-map IsClean (IsPart slash) b.parts (λ p c. c.1) (parse_path-IsClean base none tt))
          (All-map IsName (IsPart slash) ps (λ p c. c.1.1) h)

    base_string : split_string b.string slash ≡ b.parts ++ []
    base_string =
        unfold parse_path in
        split-reconstruct (record b { string = [] }) (rw append-nil at (parts_of [] tt))
        ∙ sym (append-nil b.parts)

    go :
        (ps : List Text)
        → p.parts ≡ ps
        → All IsName ps
        → ((append_path b p).parts ≡ b.parts ++ ps)
          × (split_string (append_path b p).string slash ≡ b.parts ++ ps)
    go [] e h = (
      unfold append_path add_parts in rw (rel, e) (sym (append-nil b.parts)),
      unfold append_path add_parts in rw (rel, e) base_string,
    )
    go (c ∷ cs) e h =
        let parts = add_parts_names b.parts false (c ∷ cs) h in
        let changed = add_parts_changed b.parts c cs h.0 in
        (
          unfold append_path reconstruct_string_view in rw (rel, e, changed, parts) refl,
          unfold append_path in
              rw (rel, e, changed, parts)
                (split-reconstruct (record b { parts = b.parts ++ c ∷ cs }) (parts_of (c ∷ cs) h)),
        )
