-- ===== src/Command/Args.antt =====
-- What an accepted argument of include/common/command.h may be.
use gazon.Base.{
  ℕ, ◌≤◌, ◌≡◌, refl, Bool, true, false, List, [], ◌∷◌, ◌++◌, none, some, Text, text_Eq, Bool-cases,
  inl, inr, if◌then◌else◌, All, arith, length, nat_eq, take,
}
use gazon.Errors.{ok}
use gazon.Scan.{split_string, contains_byte, single_quote}
use gazon.Scan.Shell.{shell_word, in_sq}
use gazon.FilePath.{
  FilePath, Printf, slash, parse_path, append_path, add_parts, set_relative,
  attempt_parent_traversal, string_length, get_home, reconstruct_string_view,
}
use gazon.FilePath.Normal.{NotUp, IsNormal, names, parse_parts-IsNormal, add_parts-IsNormal}
use gazon.FilePath.Traversal.{Below, walk, traverses-IsNormal, attempt_parent_traversal_sound}
use gazon.FilePath.Clean.{
  IsClean, IsName, All-both, All-map, add_parts-All, parse_path-IsClean, append_path_names,
}
use gazon.Context.{Context}
use gazon.Command.{
  CommandArg, path_arg, str_arg, arg_hostname, convert_path, convert_arg, is_hostname, LabelPart,
  at_start, after_alnum, after_dash, is_alnum,
}

-- The working directory is made of names, and so is the home directory of the context's user.
pub record IsSafe ⦃f : Printf⦄ (c : Context) : Type 0 where
  pub inside : All IsName c.relative_path.parts
  pub home : IsName (get_home c.user)

append_parts :
    (p q : FilePath)
    → (append_path p q).parts
      ≡ (if q.is_absolute then q.parts else (add_parts p.parts false q.parts).0)
unfolding append_path reconstruct_string_view
append_parts p q = ground arith

module _ ⦃f : Printf⦄ (c : Context) (arg : Text) where
  abbrev target : FilePath
  target = set_relative (append_path c.relative_path (parse_path arg (some c.user)))

  target-IsNormal : IsSafe c → IsNormal target.parts
  unfolding set_relative
  target-IsNormal s =
      rw append_parts (elim (Bool-cases (parse_path arg (some c.user)).is_absolute) [
        | inl a ↦ rw a parsed
        | inr r ↦ rw r (add_parts-IsNormal c.relative_path.parts false _ (names _ inside))
      ])
    where
      parsed : IsNormal (parse_path arg (some c.user)).parts
      parsed =
          unfold parse_path reconstruct_string_view in
          parse_parts-IsNormal (some c.user) [] (split_string arg slash) s.home.0 (names [] tt)

      inside : All NotUp c.relative_path.parts
      inside = All-map IsName NotUp c.relative_path.parts (λ p n. n.0) s.inside

  target-IsClean : IsSafe c → All IsClean target.parts
  unfolding set_relative
  target-IsClean s = rw append_parts (elim (Bool-cases (parse_path arg (some c.user)).is_absolute) [
    | inl a ↦ rw a parsed
    | inr r ↦ rw r (add_parts-All IsClean c.relative_path.parts false _ parsed inside)
  ])
    where
      parsed : All IsClean (parse_path arg (some c.user)).parts
      parsed = parse_path-IsClean arg (some c.user) s.home.1

      inside : All IsClean c.relative_path.parts
      inside = All-map IsName IsClean c.relative_path.parts (λ p n. n.1) s.inside

  accepted :
      (p : FilePath)
      → convert_path c arg ≡ ok (path_arg p)
      → (p ≡ target)
        × (attempt_parent_traversal target ≡ false)
        × (string_length target ≤ 128)
        × (contains_byte arg 0 ≡ false)
  unfolding convert_path
  accepted p h = ground arith

  -- A path argument that is accepted has at most 128 bytes, and its parts are names: none is "..",
  -- "." or empty, and none has a slash in it. (The working directory is made of names, and so is
  -- the home directory that `~` stands for.)
  pub convert_path_names :
      (p : FilePath)
      → IsSafe c
      → convert_path c arg ≡ ok (path_arg p)
      → All IsName p.parts × (length p.string ≤ 128) × (p.is_absolute ≡ false)
  convert_path_names p s h =
      let (e, t, short, _) = accepted p h in
      let clean = target-IsClean s in
      let ups =
        (traverses-IsNormal target.parts (target-IsNormal s)).0
          (unfold attempt_parent_traversal in t) in
      (
        rw e (All-both NotUp IsClean target.parts ups clean),
        rw e (unfold string_length in short),
        rw e (unfold set_relative in refl),
      )

  -- If the parts of the working directory and the home directory's name of the user are plain names
  -- (not empty, not "." or "..", without a slash), then of a path that is accepted: the operating
  -- system reads the string of the base directory with the path behind it as the parts of both, and
  -- each step of the second leads to the base directory or below it.
  pub convert_path_contained :
      (base : Text) (p : FilePath)
      → IsSafe c
      → convert_path c arg ≡ ok (path_arg p)
      → (split_string (append_path (parse_path base none) p).string slash
          ≡ (parse_path base none).parts ++ p.parts)
        × ((top : List Text) (n : ℕ) → Below top (walk top (take n p.parts)))
  convert_path_contained base p s h =
      let (ns, _, rel) = convert_path_names p s h in
      let (e, t, _, _) = accepted p h in
      (
        (append_path_names base p rel ns).1,
        λ top n. attempt_parent_traversal_sound p top n (rw e t),
      )

not_quote :
    (st : LabelPart) (c : ℕ) (s : Text)
    → is_hostname st (c ∷ s) ≡ true
    → nat_eq c single_quote ≡ false
unfolding is_hostname
not_quote at_start c s h = ground arith
not_quote after_alnum c s h = ground arith
not_quote after_dash c s h = ground arith

guarded : (b x : Bool) → (if b then x else false) ≡ true → x ≡ true
guarded true x h = h
guarded false x h = cc

rest_is_hostname :
    (st : LabelPart) (c : ℕ) (s : Text)
    → is_hostname st (c ∷ s) ≡ true
    → (st' : LabelPart) × (is_hostname st' s ≡ true)
unfolding is_hostname
rest_is_hostname at_start c s h = (after_alnum, guarded (is_alnum c) (is_hostname after_alnum s) h)
rest_is_hostname after_alnum c s h = elim (Bool-cases (is_alnum c)) [
  | inl e ↦ (after_alnum, rw e at h)
  | inr e ↦ elim (Bool-cases (nat_eq c b'-')) [
    | inl d ↦ (after_dash, rw (e, d) at h)
    | inr d ↦ (at_start, guarded (nat_eq c b'.') (is_hostname at_start s) (rw (e, d) at h))
  ]
]
rest_is_hostname after_dash c s h = elim (Bool-cases (is_alnum c)) [
  | inl e ↦ (after_alnum, rw e at h)
  | inr e ↦ (after_dash, guarded (nat_eq c b'-') (is_hostname after_dash s) (rw e at h))
]

quoted_hostname :
    (st : LabelPart) (s : Text)
    → is_hostname st s ≡ true
    → shell_word in_sq (s ++ single_quote ∷ []) ≡ some s
quoted_hostname st [] h = unfold shell_word in refl
quoted_hostname st (c ∷ s) h =
    let (st', h') = rest_is_hostname st c s h in go (not_quote st c s h) (quoted_hostname st' s h')
  where
    go :
        nat_eq c single_quote ≡ false
        → shell_word in_sq (s ++ single_quote ∷ []) ≡ some s
        → shell_word in_sq (c ∷ (s ++ single_quote ∷ [])) ≡ some (c ∷ s)
    go q ih = unfold shell_word in rw (q, ih) refl

-- An argument that is accepted as a hostname, between the quotes of `ping '…' -c 1`, is read by the
-- shell as one word that is the argument.
pub convert_arg_hostname :
    ⦃f : Printf⦄ (c : Context) (arg : Text) (a : CommandArg)
    → convert_arg c arg_hostname arg ≡ ok a
    → (a ≡ str_arg arg) × (shell_word in_sq (arg ++ single_quote ∷ []) ≡ some arg)
convert_arg_hostname c arg a h = (
  unfold convert_arg in ground arith,
  quoted_hostname at_start arg (unfold convert_arg in ground arith),
)
