-- ===== src/Config.antt =====
-- src/common/config.cpp: the accounts, and the settings that the commands read.
pub mod File
use gazon.Base.{ℕ, Bool, true, false, ◌&&◌, [], none, some, Text, ◌==◌, text_Eq}
use gazon.Base.Maps.{Map, find, insert}

pub record Config : Type 0 where
  pub port : ℕ
  pub base_directory : Text
  pub temp_directory : Text
  pub users_pwd : Map Text Text

unfoldable pub user_exists : Config → Text → Bool
unfolding find
user_exists c user = elim (find user c.users_pwd) [ none ↦ false | some pwd ↦ true ]

-- `m_users_pwd[user]`, which is there when the test reads it
unfoldable pub is_user_pwd_valid : Config → Text → Text → Bool
unfolding user_exists
is_user_pwd_valid c user pwd =
    user_exists c user && (elim (find user c.users_pwd) [ none ↦ [] | some p ↦ p ]) == pwd

unfoldable pub set_user_pwd : Config → Text → Text → Config
unfolding insert
set_user_pwd c user pwd = record c { users_pwd = insert user pwd c.users_pwd }
