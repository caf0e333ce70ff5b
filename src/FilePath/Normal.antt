-- ===== src/FilePath/Normal.antt =====
-- Parts of a path as the constructor and `operator+=` leave them: ".." stands in front only.
use gazon.Base.{
  ◌≡◌, refl, subst, Bool, true, false, ◌||◌, codes, append_assoc, text_eq, inl, inr, List, [], ◌∷◌,
  ◌++◌, Option, none, some, Text, ◌==◌, text_Eq, Bool-cases, All, All-append, arith,
}
use gazon.FilePath.{
  Printf, back, pop_back, may_pop, push_parsed, parse_parts, add_path_part, add_parts, get_home,
  dot_dot, tilde, dot,
}

abbrev pub NotUp : Text → Type 0
NotUp p = (p == dot_dot) ≡ false

-- Every ".." stands before every other part.
pub data IsNormal : List Text → Type 0 where
  names : (ps : List Text) → All NotUp ps → IsNormal ps
  up : (p : Text) (ps : List Text) → (p == dot_dot) ≡ true → IsNormal ps → IsNormal (p ∷ ps)

pop_back-NotUp : (ps : List Text) → All NotUp ps → All NotUp (pop_back ps)
unfolding pop_back
pop_back-NotUp [] h = tt
pop_back-NotUp (p ∷ []) h = tt
pop_back-NotUp (p ∷ q ∷ ps) h = (h.0, pop_back-NotUp (q ∷ ps) h.1)

pop_back-IsNormal : (ps : List Text) → IsNormal ps → IsNormal (pop_back ps)
unfolding pop_back
pop_back-IsNormal ps (names ps' h) = names _ (pop_back-NotUp ps h)
pop_back-IsNormal (p ∷ []) (up p' ps e h) = names [] tt
pop_back-IsNormal (p ∷ q ∷ qs) (up p' ps e h) = up p _ e (pop_back-IsNormal (q ∷ qs) h)

push_name-IsNormal : (ps : List Text) (c : Text) → NotUp c → IsNormal ps → IsNormal (ps ++ c ∷ [])
push_name-IsNormal ps c n (names ps' h) = names _ (All-append NotUp ps (c ∷ []) h (n, tt))
push_name-IsNormal (p ∷ ps) c n (up p' ps' e h) = up p _ e (push_name-IsNormal ps c n h)

back-NotUp : (p : Text) (ps : List Text) → All NotUp (p ∷ ps) → NotUp (back (p ∷ ps))
unfolding back
back-NotUp p [] h = h.0
back-NotUp p (q ∷ ps) h = back-NotUp q ps h.1

-- ".." is pushed only on an empty list or behind another ".."
push_up-IsNormal :
    (ps : List Text) (c : Text)
    → (c == dot_dot) ≡ true
    → may_pop ps c ≡ false
    → IsNormal ps
    → IsNormal (ps ++ c ∷ [])
unfolding may_pop back
push_up-IsNormal [] c e m h = up c [] e (names [] tt)
push_up-IsNormal (p ∷ ps) c e m (names ps' h) = absurd (ground (arith, back-NotUp p ps h))
push_up-IsNormal (p ∷ []) c e m (up p' ps' e' h) = up p _ e' (up c [] e (names [] tt))
push_up-IsNormal (p ∷ q ∷ ps) c e m (up p' ps' e' h) =
    up p _ e' (push_up-IsNormal (q ∷ ps) c e (ground arith) h)

push-IsNormal :
    (ps : List Text) (c : Text) → may_pop ps c ≡ false → IsNormal ps → IsNormal (ps ++ c ∷ [])
push-IsNormal ps c m h = elim (Bool-cases (c == dot_dot)) [
  | inl e ↦ push_up-IsNormal ps c e m h
  | inr e ↦ push_name-IsNormal ps c e h
]

-- One more part, as `operator+=` adds it, keeps the form.
pub add_path_part-IsNormal :
    (ps : List Text) (c : Text) → IsNormal ps → IsNormal (add_path_part ps c).0
add_path_part-IsNormal ps c h = elim (Bool-cases (may_pop ps c)) [
  | inl m ↦ unfold add_path_part in rw m (pop_back-IsNormal ps h)
  | inr m ↦
      unfold add_path_part in
      rw m (elim (Bool-cases (c == dot)) [ inl e ↦ rw e h | inr e ↦ rw e (push-IsNormal ps c m h) ])
]

pub add_parts-IsNormal :
    (ps : List Text) (changed : Bool) (cs : List Text)
    → IsNormal ps
    → IsNormal (add_parts ps changed cs).0
unfolding add_parts
add_parts-IsNormal ps changed [] h = h
add_parts-IsNormal ps changed (c ∷ cs) h =
    add_parts-IsNormal (add_path_part ps c).0 (changed || (add_path_part ps c).1) cs
      (add_path_part-IsNormal ps c h)

-- The home directory's name is a name, where the constructor is given a context.
abbrev pub HasHome : ⦃f : Printf⦄ → Option Text → Type 0
HasHome none = Unit
HasHome (some user) = NotUp (get_home user)

push_parsed-IsNormal :
    ⦃f : Printf⦄ (user : Option Text) (ps : List Text) (c : Text)
    → HasHome user
    → IsNormal ps
    → IsNormal (push_parsed user ps c)
push_parsed-IsNormal user ps c home h = elim (Bool-cases (c == dot || c == [])) [
  | inl e ↦ unfold push_parsed in rw e h
  | inr e ↦ elim (Bool-cases (may_pop ps c)) [
    | inl m ↦ unfold push_parsed in rw (e, m) (pop_back-IsNormal ps h)
    | inr m ↦ elim (Bool-cases (c == tilde)) [
      | inl t ↦ tilde_case user home e m t
      | inr t ↦ unfold push_parsed in rw (e, m, t) (push-IsNormal ps c m h)
    ]
  ]
]
  where
    tilde_case :
        (user : Option Text)
        → HasHome user
        → (c == dot || c == []) ≡ false
        → may_pop ps c ≡ false
        → (c == tilde) ≡ true
        → IsNormal (push_parsed user ps c)
    tilde_case none home e m t = unfold push_parsed in rw (e, m, t) (push-IsNormal ps c m h)
    tilde_case (some name) home e m t =
        unfold push_parsed in
        rw (e, m, t)
          (subst IsNormal (append_assoc ps (codes "home" ∷ []) (get_home name ∷ [])) (
            push_name-IsNormal (ps ++ codes "home" ∷ []) (get_home name) home
              (push_name-IsNormal ps (codes "home") (unfold text_eq in refl) h)))

pub parse_parts-IsNormal :
    ⦃f : Printf⦄ (user : Option Text) (ps cs : List Text)
    → HasHome user
    → IsNormal ps
    → IsNormal (parse_parts user ps cs)
unfolding parse_parts
parse_parts-IsNormal user ps [] home h = h
parse_parts-IsNormal user ps (c ∷ cs) home h =
    parse_parts-IsNormal user (push_parsed user ps c) cs home
      (push_parsed-IsNormal user ps c home h)
