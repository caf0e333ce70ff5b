-- ===== src/Examples/Paths.antt =====
-- Paths that a client may ask for.
use gazon.Base.{
  ℕ, ◌≤◌, ◌≡◌, refl, true, false, List, [], ◌∷◌, ◌++◌, Text, none, codes, arith, text_Eq, text_eq,
  take, length, ◌==◌,
}
use gazon.Errors.{ok}
use gazon.Scan.{split_string, contains_byte}
use gazon.FilePath.{
  FilePath, set_relative, string_length, slash, parse_path, append_path, attempt_parent_traversal,
  get_home, tilde, dot_dot,
}
use gazon.FilePath.Normal.{IsNormal, up, names}
use gazon.FilePath.Traversal.{walk, Below, attempt_parent_traversal_sound}
use gazon.Context.{Context}
use gazon.Command.{path_arg, convert_path}
use gazon.Command.Args.{IsSafe, convert_path_contained}
use gazon.Command.Tilde.{tilde_escapes}
use gazon.Examples.Samples.{plain_printf, alice, session_of}

abbrev two_parts : FilePath
two_parts = record { parts = codes "d" ∷ codes "f" ∷ []; is_absolute = false; string = codes "d/f" }

alice-IsSafe : IsSafe alice.context
unfolding get_home text_eq
alice-IsSafe = record {
  inside = tt;
  home = (refl, (refl, ((λ e. cc), (refl, (refl, (refl, (refl, (refl, tt))))))));
}

alice_asks : convert_path alice.context (codes "d/../d/f") ≡ ok (path_arg two_parts)
unfolding convert_path text_eq contains_byte attempt_parent_traversal set_relative append_path
    parse_path string_length
alice_asks = refl

convert_path_contained_example :
    (split_string (append_path (parse_path (codes "/b") none) two_parts).string slash
      ≡ (parse_path (codes "/b") none).parts ++ two_parts.parts)
    × ((top : List Text) (n : ℕ) → Below top (walk top (take n two_parts.parts)))
convert_path_contained_example =
    convert_path_contained alice.context (codes "d/../d/f") (codes "/b") two_parts alice-IsSafe
      alice_asks

abbrev mallory : Context
mallory = (session_of true false (codes "/../..")).context

short : length (get_home mallory.user) ≤ 123
unfolding get_home
short = omega arith

no_dots : (get_home mallory.user == dot_dot) ≡ false
unfolding get_home text_eq
no_dots = refl

no_dot : (get_home mallory.user == codes ".") ≡ false
unfolding get_home text_eq
no_dot = refl

two_ups : split_string (get_home mallory.user) slash ≡ dot_dot ∷ dot_dot ∷ []
unfolding get_home split_string
two_ups = refl

tilde_escapes_example :
    (p : FilePath) × (convert_path mallory tilde ≡ ok (path_arg p))
    × ((d : Text) (top : List Text) → walk (d ∷ top) (take 3 (split_string p.string slash)) ≡ top)
tilde_escapes_example = tilde_escapes mallory [] refl short no_dots no_dot two_ups

abbrev inner_up : FilePath
inner_up = record {
  parts = codes "d" ∷ codes ".." ∷ codes "f" ∷ [];
  is_absolute = false;
  string = codes "d/../f";
}

inner_up_passes : attempt_parent_traversal inner_up ≡ false
unfolding attempt_parent_traversal text_eq
inner_up_passes = refl

attempt_parent_traversal_sound_example :
    Below (codes "b" ∷ []) (walk (codes "b" ∷ []) (take 2 inner_up.parts))
attempt_parent_traversal_sound_example =
    attempt_parent_traversal_sound inner_up (codes "b" ∷ []) 2 inner_up_passes

up_is_up : (dot_dot == dot_dot) ≡ true
unfolding text_eq
up_is_up = refl

one_up-IsNormal : IsNormal (dot_dot ∷ [])
one_up-IsNormal = up dot_dot [] up_is_up (names [] tt)
