-- ===== src/Examples/Settings.antt =====
-- A grass.conf with a comment, a base directory, a port and an account.
use gazon.Base.{◌≡◌, ◌≢◌, refl, List, [], ◌∷◌, ◌++◌, none, some, Text, codes, text_Eq, text_eq}
use gazon.Errors.{ok}
use gazon.Config.{Config}
use gazon.Config.File.{ConfigHost, from_file}
use gazon.Config.File.Settings.{IsAbsolute, from_file_settings}

abbrev config_host : ConfigHost
config_host = record { cwd = codes "/srv"; mkdir_error = λ p. none; read_port = λ w. some 1337 }

abbrev sample_lines : List Text
sample_lines =
    codes "# a server"
    ∷ codes "base  files"
    ∷ []
    ∷ codes "port 1337"
    ∷ codes "user alice secret"
    ∷ []

abbrev sample_settings : Config
sample_settings = record {
  port = 1337;
  base_directory = codes "/srv/files";
  temp_directory = codes "/srv/files/.tmp";
  users_pwd = (codes "alice", codes "secret") ∷ [];
}

reads_sample : from_file config_host (codes "grass.conf") (some sample_lines) ≡ ok sample_settings
unfolding from_file text_eq
reads_sample = refl

from_file_settings_example :
    (sample_settings.port ≢ 0)
    × IsAbsolute (codes "/srv/files")
    × (codes "/srv/files/.tmp" ≡ codes "/srv/files" ++ codes "/.tmp")
from_file_settings_example =
    from_file_settings config_host (codes "grass.conf") refl (some sample_lines) sample_settings
      reads_sample
