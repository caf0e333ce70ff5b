-- ===== src/Session/Commands.antt =====
-- The `execute` methods: src/common/commands. The commands that transfer or search files are an
-- interface here.
use gazon.Base.{
  ℕ, ◌≡◌, Bool, true, false, List, [], ◌∷◌, ◌++◌, none, Text, codes, ltb, nat_eq, if◌then◌else◌,
}
use gazon.Base.Maps.{Map}
use gazon.Errors.{Result, ok, throw, command_exception, filesystem_exception}
use gazon.FilePath.{FilePath, Printf, parse_path, append_path}
use gazon.Config.{user_exists}
use gazon.Context.{Context}
use gazon.Context
use gazon.Filesystem
use gazon.Filesystem.{Os, Filesystem, unsafe_get_entry_node}
use gazon.Filesystem.Tree.{Entry, info}
use gazon.Command.{
  Command, CommandArg, get_str, get_path, cd, date, exit, get, grep, login, logout, ls, mkdir, pass,
  ping, put, rm, w, whoami,
}
use gazon.Session.Run.{
  Session, Host, Exec, ◌>>=◌, ◌>>◌, pure, lift, gets, set_context, set_files, write, new_line,
}

-- What a command that only transfers, lists or searches files leaves as it was.
pub record KeepsSession (s t : Session) : Type 0 where
  pub context : t.context ≡ s.context
  pub logged : t.world.logged ≡ s.world.logged
  pub config : t.world.config ≡ s.world.config

-- The bodies of `get`, `grep`, `ls` and `put`, and their part of the contract with the session.
pub record FileCommands : Type 0 where
  pub run : Command → List CommandArg → Exec (Unit {0})
  pub keeps : (c : Command) (args : List CommandArg) (s : Session) → KeepsSession s (run c args s).1

-- the test of LoginCommand, with the name in `context.user` already
abbrev pub expect_password : Bool → Context → Exec (Unit {0})
expect_password true c = set_context (record c { is_logging_in = true })
expect_password false c =
    lift (throw (command_exception (codes "unknown user: " ++ (c.user ++ codes "."))))

-- LoginCommand: the name is set before it is looked up
unfoldable pub run_login : List CommandArg → Exec (Unit {0})
unfolding user_exists get_str
run_login args = do
  user ← lift (get_str args)
  c ← gets (λ s. s.context)
  set_context (record c { user = user })
  g ← gets (λ s. s.world.config)
  expect_password (user_exists g user) (record c { user = user })

-- the new context and `logged` of `login` and `logout`
abbrev pub set_login : Context × Map Text ℕ → Exec (Unit {0})
set_login r s = (ok tt, record s { context = r.0; world = record s.world { logged = r.1 } })

-- PassCommand
unfoldable pub run_pass : List CommandArg → Exec (Unit {0})
unfolding Context.login get_str
run_pass args = do
  password ← lift (get_str args)
  s ← gets (λ s. s)
  r ← lift (Context.login s.world.config s.context s.world.logged s.context.user password)
  set_login r

-- LogoutCommand
unfoldable pub run_logout : Exec (Unit {0})
unfolding Context.logout
run_logout = do s ← gets (λ s. s); set_login (Context.logout s.context s.world.logged)

-- WhoamiCommand
unfoldable pub run_whoami : Host → Exec (Unit {0})
unfolding write
run_whoami h = do s ← gets (λ s. s); write h s.context.user; write h new_line

-- the order of `std::string`, by bytes
unfoldable pub text_lt : Text → Text → Bool
text_lt [] [] = false
text_lt [] (c ∷ t) = true
text_lt (b ∷ s) [] = false
text_lt (b ∷ s) (c ∷ t) = if ltb b c then true else if nat_eq b c then text_lt s t else false

-- `std::map` goes through its keys in their order.
unfoldable pub insert_in_order : Text × ℕ → Map Text ℕ → Map Text ℕ
unfolding text_lt
insert_in_order (k, v) [] = (k, v) ∷ []
insert_in_order (k, v) ((j, n) ∷ m) =
    let rest = insert_in_order (k, v) m in
    if text_lt j k then (j, n) ∷ rest else (k, v) ∷ (j, n) ∷ m

unfoldable pub in_order : Map Text ℕ → Map Text ℕ
unfolding insert_in_order
in_order [] = []
in_order (e ∷ m) = insert_in_order e (in_order m)

-- the loop of WCommand: each name with a space behind it
unfoldable pub active_users : Map Text ℕ → Text
active_users [] = []
active_users ((name, n) ∷ m) = if ltb 0 n then name ++ (32 ∷ active_users m) else active_users m

-- `users.pop_back()`, if there are any
unfoldable pub drop_last : Text → Text
drop_last [] = []
drop_last (c ∷ []) = []
drop_last (c ∷ d ∷ s) = c ∷ drop_last (d ∷ s)

-- WCommand
unfoldable pub run_w : Host → Exec (Unit {0})
unfolding write in_order active_users drop_last
run_w h = do
  s ← gets (λ s. s)
  write h (drop_last (active_users (in_order s.world.logged)))
  write h new_line

-- `socket.close()`, which is deferred on the server
unfoldable pub run_exit : Exec (Unit {0})
run_exit s = (ok tt, record s { dirty = true })

-- PingCommand
unfoldable pub run_ping : Host → List CommandArg → Exec (Unit {0})
unfolding write get_str
run_ping h args = do
  address ← lift (get_str args)
  write h (h.shell (codes "ping '" ++ (address ++ codes "' -c 1")))

-- DateCommand
unfoldable pub run_date : Host → Exec (Unit {0})
unfolding write
run_date h = write h (h.shell (codes "date"))

-- `Config::base_directory + path`
abbrev pub in_base : ⦃f : Printf⦄ → Session → FilePath → FilePath
in_base s p = append_path (parse_path s.world.config.base_directory none) p

abbrev pub not_there : Host → FilePath → Exec (Unit {0})
not_there h p = do
  write h (codes "cd: ")
  write h p.string
  write h (codes ": No such file or directory\n")

abbrev pub not_a_directory : Host → FilePath → Exec (Unit {0})
not_a_directory h p = do write h (codes "cd: not a directory"); write h p.string; write h new_line

-- the message of CdCommand, if there is one
abbrev pub report_kind : Host → FilePath → Bool → Exec (Unit {0})
report_kind h p true = pure tt
report_kind h p false = not_a_directory h p

-- the `try` block of CdCommand
abbrev pub enter : Host → FilePath → Entry → Exec (Unit {0})
enter h p e = do
  report_kind h p (info e).is_folder
  c ← gets (λ s. s.context)
  set_context (record c { relative_path = p })

-- the lookup of CdCommand, with the handler for a missing entry
abbrev pub enter_found : Host → FilePath → Result Entry → Exec (Unit {0})
enter_found h p (ok e) = enter h p e
enter_found h p (throw (filesystem_exception m)) = not_there h p
enter_found h p (throw e) = lift (throw e)

-- CdCommand
unfoldable pub run_cd : ⦃f : Printf⦄ → Host → List CommandArg → Exec (Unit {0})
unfolding write get_path unsafe_get_entry_node
run_cd h args = do
  p ← lift (get_path args)
  s ← gets (λ s. s)
  enter_found h p (unsafe_get_entry_node s.world.files (in_base s p))

-- MkdirCommand
unfoldable pub run_mkdir : ⦃f : Printf⦄ → Host → List CommandArg → Exec (Unit {0})
unfolding get_path
run_mkdir h args = do
  p ← lift (get_path args)
  s ← gets (λ s. s)
  fs ← lift (Filesystem.mkdir h.os s.world.files (in_base s p))
  set_files fs

-- RmCommand
unfoldable pub run_rm : ⦃f : Printf⦄ → List CommandArg → Exec (Unit {0})
unfolding get_path
run_rm args = do
  p ← lift (get_path args)
  s ← gets (λ s. s)
  fs ← lift (Filesystem.rm s.world.files (in_base s p))
  set_files fs

-- `command->execute(socket, context, args)`
unfoldable pub execute :
    ⦃f : Printf⦄ → Host → FileCommands → Command → List CommandArg → Exec (Unit {0})
unfolding run_login run_pass run_logout run_whoami run_w run_exit run_ping run_date run_cd run_mkdir
    run_rm
execute h fc cd args = run_cd h args
execute h fc date args = run_date h
execute h fc exit args = run_exit
execute h fc login args = run_login args
execute h fc logout args = run_logout
execute h fc mkdir args = run_mkdir h args
execute h fc pass args = run_pass args
execute h fc ping args = run_ping h args
execute h fc rm args = run_rm args
execute h fc w args = run_w h
execute h fc whoami args = run_whoami h
execute h fc get args = fc.run get args
execute h fc grep args = fc.run grep args
execute h fc ls args = fc.run ls args
execute h fc put args = fc.run put args
