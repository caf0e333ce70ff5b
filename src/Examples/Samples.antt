-- ===== src/Examples/Samples.antt =====
-- A server with two accounts and the directory /b, which holds the folder d with the file f.
use gazon.Base.{Bool, true, false, List, [], ◌∷◌, none, some, Text, codes, refl}
use gazon.Errors.{ok}
use gazon.FilePath.{FilePath, Printf}
use gazon.Config.{Config}
use gazon.Context.{empty_path}
use gazon.Filesystem.{Filesystem, Os}
use gazon.Filesystem.Tree.{Stat, Entry, entry, child, no_child}
use gazon.Session.Run.{World, Session, Host}
use gazon.Session.Commands.{FileCommands}

-- a `snprintf` for formats without conversions
instance abbrev pub plain_printf : Printf
plain_printf = record { formatted = λ f. f; formatted_plain = λ f h. refl }

abbrev pub sample_stat : Stat
sample_stat = record {
  st_size = 4;
  st_mode = 0;
  st_uid = 0;
  st_nlink = 1;
  st_blocks = 1;
  st_mtime = 0;
}

abbrev pub sample_os : Os
sample_os = record {
  mkdir_error = λ p. none;
  stat = λ p. ok sample_stat;
  rename_fails = λ p q. false;
  getpwuid = λ u. none;
  getgrgid = λ g. none;
  garbage = 0;
}

abbrev pub file_f : Entry
file_f =
    entry
      (record {
        size = 4;
        n_rec_children = 0;
        n_sub_folders = 0;
        is_folder = false;
        status = some sample_stat;
      })
      no_child

abbrev pub folder_d : Entry
folder_d =
    entry
      (record {
        size = 4;
        n_rec_children = 1;
        n_sub_folders = 0;
        is_folder = true;
        status = some sample_stat;
      })
      (child (codes "f") file_f no_child)

abbrev pub folder_b : Entry
folder_b =
    entry
      (record {
        size = 4;
        n_rec_children = 2;
        n_sub_folders = 1;
        is_folder = true;
        status = some sample_stat;
      })
      (child (codes "d") folder_d no_child)

abbrev pub sample_root : Entry
sample_root =
    entry
      (record { size = 4; n_rec_children = 3; n_sub_folders = 1; is_folder = true; status = none })
      (child (codes "b") folder_b no_child)

abbrev pub sample_files : Filesystem
sample_files = record { root = sample_root; users = []; groups = []; temp_counter = 0 }

abbrev pub sample_config : Config
sample_config = record {
  port = 6000;
  base_directory = codes "/b";
  temp_directory = codes "/b/.tmp";
  users_pwd = (codes "alice", codes "secret") ∷ (codes "bob", codes "hidden") ∷ [];
}

abbrev pub sample_world : World
sample_world = record {
  config = sample_config;
  logged = (codes "alice", 1) ∷ [];
  files = sample_files;
}

abbrev pub session_of : Bool → Bool → Text → Session
session_of is_logged is_logging_in user = record {
  world = sample_world;
  context = record {
    is_logged = is_logged;
    is_logging_in = is_logging_in;
    user = user;
    relative_path = empty_path;
    has_fpool = true;
  };
  output = [];
  dirty = false;
}

abbrev pub guest : Session
guest = session_of false false []

abbrev pub naming_alice : Session
naming_alice = session_of false true (codes "alice")

abbrev pub alice : Session
alice = session_of true false (codes "alice")

abbrev pub sample_host : Host
sample_host = record { os = sample_os; shell = λ c. c; write_error = none }

-- file commands that do nothing
abbrev pub idle_commands : FileCommands
idle_commands = record {
  run = λ c args s. (ok tt, s);
  keeps = λ c args s. record { context = refl; logged = refl; config = refl };
}

abbrev pub some_path : List Text → FilePath
some_path ps = record { parts = ps; is_absolute = true; string = codes "/b/e" }
