-- ===== src/Config/File.antt =====
-- The reading of grass.conf by src/common/config.cpp. A line that throws ends the reading, and the
-- server with it.
pub mod Settings
use gazon.Base.{
  ℕ, zero, suc, ◌+◌, ◌-◌, Bool, true, false, not, ◌&&◌, ◌||◌, List, [], ◌∷◌, ◌++◌, Option, none,
  some, Text, codes, length, char_at, substr, nat_eq, is_space, ◌==◌, text_Eq, if◌then◌else◌,
}
use gazon.Errors.{Result, ok, throw, Exception, config_exception, ◌>>=◌}
use gazon.Scan.{skip_empty_chars, skip_non_empty_chars}
use gazon.Config.{Config, set_user_pwd}
use gazon.Filesystem.{to_string}

-- What the system answers: `getcwd`, the text of the error of a `mkdir` that fails for another reason
-- than that the directory is there, and how a stream reads a word as a `uint16_t`.
pub record ConfigHost : Type 0 where
  pub cwd : Text
  pub mkdir_error : Text → Option Text
  pub read_port : Text → Option ℕ

-- `ConfigException`
unfoldable pub config_error : Text → ℕ → Text → Exception
unfolding to_string
config_error path zero message = config_exception message
config_error path (suc n) message =
    config_exception (path ++ (58 ∷ (to_string (suc n) ++ (codes ", " ++ message))))

-- `iss >> word`: the word, and what is left of the line
unfoldable pub read_word : Text → Option (Text × Text)
unfolding skip_empty_chars skip_non_empty_chars
read_word line =
    let start = skip_empty_chars 0 line in
    let stop = skip_non_empty_chars start line in
    if nat_eq (stop - start) 0
    then none
    else some (substr line start (stop - start), substr line stop (length line - stop))

unfoldable pub absolute_base : ConfigHost → Text → Text
absolute_base h dir = if nat_eq (char_at dir 0) 47 then dir else h.cwd ++ (47 ∷ dir)

-- the keyword `base`, with the word behind it
unfoldable pub set_base : ConfigHost → Text → ℕ → Option (Text × Text) → Config → Result Config
unfolding absolute_base config_error
set_base h path nline none c =
    throw (config_error path nline (codes "`base` keyword expects one string"))
set_base h path nline (some (dir, rest)) c = elim (h.mkdir_error (absolute_base h dir)) [
  | none ↦ ok (record c { base_directory = absolute_base h dir })
  | some message ↦ throw (config_error path nline message)
]

-- the keyword `port`
unfoldable pub set_port : ConfigHost → Text → ℕ → Option (Text × Text) → Config → Result Config
unfolding config_error
set_port h path nline none c =
    throw (config_error path nline (codes "`port` keyword excepts one int"))
set_port h path nline (some (word, rest)) c = elim (h.read_port word) [
  | none ↦ throw (config_error path nline (codes "`port` keyword excepts one int"))
  | some n ↦ ok (record c { port = n })
]

-- the keyword `user`: the first word, and the line behind it
unfoldable pub set_user : Text → ℕ → Option (Text × Text) → Config → Result Config
unfolding read_word set_user_pwd config_error
set_user path nline none c =
    throw (config_error path nline (codes "`user` keyword excepts two strings"))
set_user path nline (some (user, rest)) c = elim (read_word rest) [
  | none ↦ throw (config_error path nline (codes "`user` keyword excepts two strings"))
  | some (pwd, end) ↦ ok (set_user_pwd c user pwd)
]

-- a keyword, and the line behind it
unfoldable pub parse_keyword : ConfigHost → Text → ℕ → Text → Text → Config → Result Config
unfolding set_base set_port set_user
parse_keyword h path nline keyword rest c =
    if keyword == codes "base"
    then set_base h path nline (read_word rest) c
    else if keyword == codes "port"
    then set_port h path nline (read_word rest) c
    else if keyword == codes "user"
    then set_user path nline (read_word rest) c
    else if nat_eq (char_at keyword 0) b'#'
    then ok c
    else throw
        (config_error path nline (codes "Can't understand keyword `" ++ (keyword ++ codes "`")))

unfoldable pub parse_line : ConfigHost → Text → Text → ℕ → Config → Result Config
unfolding read_word parse_keyword
parse_line h path line nline c = elim (read_word line) [
  | none ↦ ok c
  | some (keyword, rest) ↦ parse_keyword h path nline keyword rest c
]

-- the loop of `fromFile`, with the number of the line before
unfoldable pub parse_lines : ConfigHost → Text → List Text → ℕ → Config → Result Config
unfolding parse_line
parse_lines h path [] nline c = ok c
parse_lines h path (line ∷ lines) nline c = do
  c' ← parse_line h path line (nline + 1) c
  parse_lines h path lines (nline + 1) c'

-- what `fromFile` does once the lines are read
unfoldable pub check_settings : ConfigHost → Text → Config → Result Config
unfolding config_error
check_settings h path c =
    if nat_eq c.port 0 || c.base_directory == []
    then throw (config_error path 0 (codes "incorrect grass.conf"))
    else elim (h.mkdir_error (c.base_directory ++ codes "/.tmp")) [
      | none ↦ ok (record c { temp_directory = c.base_directory ++ codes "/.tmp" })
      | some message ↦ throw (config_error path 0 (codes "Can't create temp directory"))
    ]

-- the settings before a file is read
abbrev pub no_settings : Config
no_settings = record { port = 0; base_directory = []; temp_directory = []; users_pwd = [] }

-- `fromFile`, on the lines of the file if it is there
unfoldable pub from_file : ConfigHost → Text → Option (List Text) → Result Config
unfolding parse_lines check_settings
from_file h path none = throw (config_error path 0 (codes "file " ++ (path ++ codes " not found")))
from_file h path (some lines) = do
  c ← parse_lines h path lines 0 no_settings
  check_settings h path c
