-- ===== src/Command/Tilde.antt =====
-- The argument `~` where the session's user name is no plain name.
use gazon.Base.{
  ◌≤◌, ◌≡◌, refl, ◌∙◌, false, List, [], ◌∷◌, ◌++◌, some, Text, codes, text_eq, ◌==◌, text_Eq, arith,
  length, take, append-nil, ltb,
}
use gazon.Errors.{ok}
use gazon.Scan.{split_string, contains_byte}
use gazon.Scan.Split.{split_string-part}
use gazon.FilePath.{
  FilePath, Printf, slash, dot, dot_dot, tilde, parse_path, get_home, append_path, set_relative,
  attempt_parent_traversal, string_length,
}
use gazon.FilePath.Traversal.{walk}
use gazon.Context.{Context, empty_path}
use gazon.Command.{path_arg, convert_path, check_path}

abbrev home : Text
home = codes "home"

-- The path of the two parts "home" and `h`.
abbrev pub home_path : Text → FilePath
home_path h = record { parts = home ∷ h ∷ []; is_absolute = false; string = home ++ slash ∷ h }

module _ ⦃f : Printf⦄ (c : Context) where
  parse_tilde : parse_path tilde (some c.user) ≡ record {
    parts = home ∷ get_home c.user ∷ [];
    is_absolute = false;
    string = home ++ slash ∷ (get_home c.user ++ []);
  }
  unfolding parse_path text_eq
  parse_tilde = refl

  append_home :
      (h : Text)
      → (h == dot_dot) ≡ false
      → (h == dot) ≡ false
      → append_path empty_path (record {
        parts = home ∷ h ∷ [];
        is_absolute = false;
        string = home ++ slash ∷ (h ++ []);
      })
        ≡ home_path h
  unfolding append_path text_eq
  append_home h up d = rw (up, d, append-nil) refl

  -- A session in the base directory, whose user's home name is neither ".." nor "." and not too
  -- long, has `~` accepted as "home/" and that name, whatever bytes are in it.
  pub tilde_accepted :
      c.relative_path ≡ empty_path
      → (get_home c.user == dot_dot) ≡ false
      → (get_home c.user == dot) ≡ false
      → length (get_home c.user) ≤ 123
      → convert_path c tilde ≡ ok (path_arg (home_path (get_home c.user)))
  tilde_accepted e up d short =
      converted
      ∙ rw (e, parse_tilde, append_home (get_home c.user) up d) (checked (get_home c.user) up short)
    where
      converted :
          convert_path c tilde
          ≡ check_path (set_relative (append_path c.relative_path (parse_path tilde (some c.user))))
      converted = unfold convert_path contains_byte in refl

      checked :
          (h : Text)
          → (h == dot_dot) ≡ false
          → length h ≤ 123
          → check_path (set_relative (home_path h)) ≡ ok (path_arg (home_path h))
      checked h up short =
          let fits : ltb 128 (length (home ++ slash ∷ h)) ≡ false = ground arith in
          unfold check_path set_relative attempt_parent_traversal string_length text_eq in
          rw (up, fits) refl

split_home : (h : Text) → split_string (home_path h).string slash ≡ home ∷ split_string h slash
split_home h = split_string-part home h slash ((λ e. cc), (refl, (refl, (refl, (refl, tt)))))

-- If the working directory is the base directory, and the user's home name has at most 123 bytes and
-- reads as two or more parts of which the first two are "..", then `~` is accepted, and the first
-- three parts of its path lead the operating system out of the directory from which it starts, to
-- the one above.
pub tilde_escapes :
    ⦃f : Printf⦄ (c : Context) (rest : List Text)
    → c.relative_path ≡ empty_path
    → length (get_home c.user) ≤ 123
    → (get_home c.user == dot_dot) ≡ false
    → (get_home c.user == dot) ≡ false
    → split_string (get_home c.user) slash ≡ dot_dot ∷ dot_dot ∷ rest
    → (p : FilePath) × (convert_path c tilde ≡ ok (path_arg p))
      × ((d : Text) (top : List Text) → walk (d ∷ top) (take 3 (split_string p.string slash)) ≡ top)
tilde_escapes c rest e short up d s = (
  home_path (get_home c.user),
  tilde_accepted c e up d short,
  λ d top. rw (split_home (get_home c.user), s) (unfold walk text_eq in refl),
)
