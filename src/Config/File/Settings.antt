-- ===== src/Config/File/Settings.antt =====
-- The settings that a grass.conf leaves when it is read without an error.
use gazon.Base.{
  ℕ, ◌+◌, ◌≡◌, ◌≢◌, refl, subst, Bool, true, false, ◌||◌, List, [], ◌∷◌, ◌++◌, Option, none, some,
  Text, ◌⊎◌, inl, inr, codes, char_at, nat_eq, ◌==◌, text_Eq, eq_iff, if◌then◌else◌, arith,
  Bool-cases,
}
use gazon.Errors.{Result, ok, throw, ◌>>=◌}
use gazon.Config.{Config, set_user_pwd}
use gazon.Config.File.{
  ConfigHost, absolute_base, set_base, set_port, set_user, parse_keyword, parse_line, parse_lines,
  check_settings, from_file, no_settings, read_word, config_error,
}

-- the path starts with a slash
abbrev pub IsAbsolute : Text → Type 0
IsAbsolute t = char_at t 0 ≡ 47

-- the base directory is not set, or it is absolute
abbrev Good : Config → Type 0
Good c = (c.base_directory ≡ []) ⊎ IsAbsolute c.base_directory

-- a result that is not an exception has the property
abbrev Returns : {A : Type 0} → (A → Type 0) → Result A → Type 0
Returns P (ok a) = P a
Returns P (throw e) = Unit

either_Returns :
    {A : Type 0} (P : A → Type 0) (b : Bool) (x y : Result A)
    → Returns P x
    → Returns P y
    → Returns P (if b then x else y)
either_Returns P true x y p q = p
either_Returns P false x y p q = q

joined-IsAbsolute : (cwd dir : Text) → IsAbsolute cwd → IsAbsolute (cwd ++ 47 ∷ dir)
joined-IsAbsolute [] dir h = absurd (cc)
joined-IsAbsolute (c ∷ cwd) dir h = h

absolute_base-IsAbsolute :
    (h : ConfigHost) (dir : Text) → IsAbsolute h.cwd → IsAbsolute (absolute_base h dir)
unfolding absolute_base
absolute_base-IsAbsolute h dir root = elim (Bool-cases (nat_eq (char_at dir 0) 47)) [
  | inl e ↦ rw e (ground arith)
  | inr e ↦ rw e (joined-IsAbsolute h.cwd dir root)
]

module _ (h : ConfigHost) (path : Text) (root : IsAbsolute h.cwd) where
  set_base-Good :
      (nline : ℕ) (o : Option (Text × Text)) (c : Config) → Returns Good (set_base h path nline o c)
  unfolding set_base
  set_base-Good nline none c = tt
  set_base-Good nline (some (dir, rest)) c = go (h.mkdir_error (absolute_base h dir))
    where
      go :
          (m : Option Text)
          → Returns Good (elim m [
            | none ↦ ok (record c { base_directory = absolute_base h dir })
            | some message ↦ throw (config_error path nline message)
          ])
      go none = inr (absolute_base-IsAbsolute h dir root)
      go (some m) = tt

  set_port-Good :
      (nline : ℕ) (o : Option (Text × Text)) (c : Config)
      → Good c
      → Returns Good (set_port h path nline o c)
  unfolding set_port
  set_port-Good nline none c g = tt
  set_port-Good nline (some (word, rest)) c g = go (h.read_port word)
    where
      go :
          (m : Option ℕ)
          → Returns Good (elim m [
            | none ↦ throw (config_error path nline (codes "`port` keyword excepts one int"))
            | some n ↦ ok (record c { port = n })
          ])
      go none = tt
      go (some n) = g

  set_user-Good :
      (nline : ℕ) (o : Option (Text × Text)) (c : Config)
      → Good c
      → Returns Good (set_user path nline o c)
  unfolding set_user set_user_pwd
  set_user-Good nline none c g = tt
  set_user-Good nline (some (user, rest)) c g = go (read_word rest)
    where
      go :
          (m : Option (Text × Text))
          → Returns Good (elim m [
            | none ↦ throw (config_error path nline (codes "`user` keyword excepts two strings"))
            | some (pwd, end) ↦ ok (set_user_pwd c user pwd)
          ])
      go none = tt
      go (some (pwd, end)) = g

  parse_keyword-Good :
      (nline : ℕ) (keyword rest : Text) (c : Config)
      → Good c
      → Returns Good (parse_keyword h path nline keyword rest c)
  unfolding parse_keyword
  parse_keyword-Good nline keyword rest c g =
      either_Returns Good (keyword == codes "base") _ _ (set_base-Good nline (read_word rest) c) (
        either_Returns Good (keyword == codes "port") _ _ (set_port-Good nline (read_word rest) c g)
          (either_Returns Good (keyword == codes "user") _ _
            (set_user-Good nline (read_word rest) c g)
            (either_Returns Good (nat_eq (char_at keyword 0) b'#') _ _ g tt)))

  parse_line-Good :
      (nline : ℕ) (line : Text) (c : Config)
      → Good c
      → Returns Good (parse_line h path line nline c)
  unfolding parse_line
  parse_line-Good nline line c g = go (read_word line)
    where
      go :
          (m : Option (Text × Text))
          → Returns Good (elim m [
            | none ↦ ok c
            | some (keyword, rest) ↦ parse_keyword h path nline keyword rest c
          ])
      go none = g
      go (some (keyword, rest)) = parse_keyword-Good nline keyword rest c g

  parse_lines-Good :
      (lines : List Text) (nline : ℕ) (c : Config)
      → Good c
      → Returns Good (parse_lines h path lines nline c)
  unfolding parse_lines
  parse_lines-Good [] nline c g = g
  parse_lines-Good (line ∷ lines) nline c g =
      go (parse_line h path line (nline + 1) c) (parse_line-Good (nline + 1) line c g)
        (λ c' g'. parse_lines-Good lines (nline + 1) c' g')
    where
      go :
          (r : Result Config)
          → Returns Good r
          → ((c' : Config) → Good c' → Returns Good (parse_lines h path lines (nline + 1) c'))
          → Returns Good (r >>= λ c'. parse_lines h path lines (nline + 1) c')
      go (ok c') g' on = on c' g'
      go (throw e) g' on = tt

  -- what the commands rely on
  abbrev pub IsComplete : Config → Type 0
  IsComplete c =
      (c.port ≢ 0)
      × IsAbsolute c.base_directory
      × (c.temp_directory ≡ c.base_directory ++ codes "/.tmp")

  check_settings-IsComplete : (c : Config) → Good c → Returns IsComplete (check_settings h path c)
  unfolding check_settings
  check_settings-IsComplete c g = elim (Bool-cases (nat_eq c.port 0 || c.base_directory == [])) [
    | inl e ↦ rw e tt
    | inr e ↦ rw e (go e (h.mkdir_error (c.base_directory ++ codes "/.tmp")))
  ]
    where
      absolute :
          Good c → (nat_eq c.port 0 || c.base_directory == []) ≡ false → IsAbsolute c.base_directory
      absolute (inl none_set) e =
          let unset = (eq_iff c.base_directory []).1 none_set in absurd (ground arith)
      absolute (inr there) e = there

      go :
          (nat_eq c.port 0 || c.base_directory == []) ≡ false
          → (m : Option Text)
          → Returns IsComplete (elim m [
            | none ↦ ok (record c { temp_directory = c.base_directory ++ codes "/.tmp" })
            | some message ↦ throw (config_error path 0 (codes "Can't create temp directory"))
          ])
      go e none = ((λ z. absurd (ground arith)), absolute g e, refl)
      go e (some m) = tt

  from_file-IsComplete : (o : Option (List Text)) → Returns IsComplete (from_file h path o)
  unfolding from_file
  from_file-IsComplete none = tt
  from_file-IsComplete (some lines) =
      go (parse_lines h path lines 0 no_settings) (parse_lines-Good lines 0 no_settings (inl refl))
    where
      go : (r : Result Config) → Returns Good r → Returns IsComplete (r >>= check_settings h path)
      go (ok c) g = check_settings-IsComplete c g
      go (throw e) g = tt

  -- If `fromFile` returns, there is a port, the base directory is absolute, so that `scan` accepts
  -- it, and the temporary directory is `.tmp` in it. (The path of the process's own directory is
  -- absolute.)
  pub from_file_settings :
      (o : Option (List Text)) (c : Config)
      → from_file h path o ≡ ok c
      → (c.port ≢ 0)
        × IsAbsolute c.base_directory
        × (c.temp_directory ≡ c.base_directory ++ codes "/.tmp")
  from_file_settings o c read = subst (Returns IsComplete) read (from_file-IsComplete o)
