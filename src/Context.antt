-- ===== src/Context.antt =====
-- include/common/context.h: the state of one connection, and the map of the logged users that all
-- connections share.
pub mod Count
use gazon.Base.{
  ℕ, ◌+◌, ◌-◌, ◌%◌, ◌^◌, Bool, true, false, not, List, [], Option, none, some, Text, codes, text_Eq,
  if◌then◌else◌,
}
use gazon.Base.Maps.{Map, find, insert}
use gazon.Errors.{Result, ok, throw, command_exception}
use gazon.Config.{Config, is_user_pwd_valid}
use gazon.FilePath.{FilePath, parse_path, append_path, Printf}

pub record Context : Type 0 where
  pub is_logged : Bool
  pub is_logging_in : Bool
  pub user : Text
  pub relative_path : FilePath
  -- whether `fpool` is not null
  pub has_fpool : Bool

-- An `unsigned int`.
abbrev pub uint_mod : ℕ
uint_mod = 2 ^ 32

-- `logged[name]`: a missing entry counts as 0
unfoldable pub sessions_of : Text → Map Text ℕ → ℕ
unfolding find
sessions_of name logged = elim (find name logged) [ none ↦ 0 | some n ↦ n ]

-- `Path("")`
abbrev pub empty_path : FilePath
empty_path = record { parts = []; is_absolute = false; string = [] }

unfoldable pub new_context : Context
new_context = record {
  is_logged = false;
  is_logging_in = false;
  user = [];
  relative_path = empty_path;
  has_fpool = false;
}

-- `Config::base_directory + relativePath`
unfoldable pub get_absolute_path : ⦃f : Printf⦄ → Config → Context → FilePath
unfolding parse_path append_path
get_absolute_path g c = append_path (parse_path g.base_directory none) c.relative_path

-- `login`: the context and `logged` after it, or the exception, which is thrown before any change
unfoldable pub login : Config → Context → Map Text ℕ → Text → Text → Result (Context × Map Text ℕ)
unfolding sessions_of insert is_user_pwd_valid
login g c logged username password =
    if not (is_user_pwd_valid g username password)
    then throw (command_exception (codes "authentication failed."))
    else ok (
      record c {
        user = username;
        is_logged = true;
        is_logging_in = false;
        relative_path = empty_path;
      },
      insert username ((sessions_of username logged + 1) % uint_mod) logged,
    )

unfoldable pub logout : Context → Map Text ℕ → Context × Map Text ℕ
unfolding sessions_of insert
logout c logged = if not c.is_logged then (c, logged) else (
  record c { user = []; is_logged = false; is_logging_in = false; relative_path = empty_path },
  insert c.user ((sessions_of c.user logged + uint_mod - 1) % uint_mod) logged,
)
