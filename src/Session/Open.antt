-- ===== src/Session/Open.antt =====
-- The commands that a client runs without being logged in: how a predicate on the session passes
-- through each, and through a packet of such a client.
use gazon.Base.{
  ◌+◌, ◌%◌, if◌then◌else◌, ◌≡◌, refl, ap, Bool, true, false, not, List, Text, codes, ◌++◌, ◌⊎◌, inl,
  inr, text_Eq,
}
use gazon.Base.Maps.{insert}
use gazon.Errors.{Result, ok, throw, command_exception}
use gazon.Config.{is_user_pwd_valid, user_exists}
use gazon.Context.{Context, empty_path, uint_mod, sessions_of}
use gazon.Context
use gazon.Command.{
  Command, CommandArg, middleware_logged, middleware, middleware_of, get_str, cd, date, exit, get,
  grep, login, logout, ls, mkdir, pass, ping, put, rm, w, whoami,
}
use gazon.Session.Run.{Session, Host, continue, ◌>>=◌, ◌>>◌, write, lift, gets, set_context}
use gazon.Session.Commands.{run_login, run_pass, run_ping, expect_password, set_login}
use gazon.Session.Jobs.{status_of, write_keeps, IgnoresOutput}

-- The commands that are open to a client that is not logged in.
pub data IsOpen : Command → Type 0 where
  exit_open : IsOpen exit
  login_open : IsOpen login
  pass_open : IsOpen pass
  ping_open : IsOpen ping

pub IsOpen-or_logged : (cmd : Command) → IsOpen cmd ⊎ (middleware_of cmd ≡ middleware_logged)
IsOpen-or_logged exit = inl exit_open
IsOpen-or_logged login = inl login_open
IsOpen-or_logged pass = inl pass_open
IsOpen-or_logged ping = inl ping_open
IsOpen-or_logged cd = inr refl
IsOpen-or_logged date = inr refl
IsOpen-or_logged get = inr refl
IsOpen-or_logged grep = inr refl
IsOpen-or_logged logout = inr refl
IsOpen-or_logged ls = inr refl
IsOpen-or_logged mkdir = inr refl
IsOpen-or_logged put = inr refl
IsOpen-or_logged rm = inr refl
IsOpen-or_logged w = inr refl
IsOpen-or_logged whoami = inr refl

-- the status of such a command is whether the client is logged in
pub logged_status :
    (cmd : Command) (s : Session)
    → middleware_of cmd ≡ middleware_logged
    → status_of cmd s ≡ s.context.is_logged
unfolding middleware
logged_status cmd s eq = ap (λ m. (middleware m s.context).1) eq

-- the session once `login` has set the name, and once the name is known
abbrev pub named : Text → Session → Session
named user s = record s { context = record s.context { user = user } }

abbrev pub expecting : Text → Session → Session
expecting user s = record s { context = record s.context { user = user; is_logging_in = true } }

-- the session after `Context::login`
abbrev pub logged_in : Session → Session
logged_in s = record s {
  context = record s.context {
    is_logged = true;
    is_logging_in = false;
    relative_path = empty_path;
  };
  world = record s.world {
    logged =
        insert s.context.user ((sessions_of s.context.user s.world.logged + 1) % uint_mod)
          s.world.logged;
  };
}

module _ (P : Session → Type 0) where
  pub run_login_keeps :
      (args : List CommandArg) (s : Session)
      → P s
      → ((user : Text) → P (named user s))
      → ((user : Text) → user_exists s.world.config user ≡ true → P (expecting user s))
      → P (run_login args s).1
  unfolding run_login
  run_login_keeps args s p unknown known = go (get_str args)
    where
      set_name :
          (user : Text) (b : Bool)
          → user_exists s.world.config user ≡ b
          → P (expect_password b (record s.context { user = user }) (named user s)).1
      set_name user true eq = known user eq
      set_name user false eq = unknown user

      go :
          (r : Result Text)
          → P
              (continue r
                (λ user. do
                  c ← gets (λ t. t.context)
                  set_context (record c { user = user })
                  g ← gets (λ t. t.world.config)
                  expect_password (user_exists g user) (record c { user = user }))
                s).1
      go (throw e) = p
      go (ok user) = set_name user (user_exists s.world.config user) refl

  pub run_pass_keeps :
      (args : List CommandArg) (s : Session)
      → P s
      → ((password : Text)
          → get_str args ≡ ok password
          → is_user_pwd_valid s.world.config s.context.user password ≡ true
          → P (logged_in s))
      → P (run_pass args s).1
  unfolding run_pass Context.login
  run_pass_keeps args s p valid = go (get_str args) refl
    where
      checked :
          (password : Text) (b : Bool)
          → get_str args ≡ ok password
          → is_user_pwd_valid s.world.config s.context.user password ≡ b
          → P
              (continue
                (if not b
                  then throw (command_exception (codes "authentication failed."))
                  else ok ((logged_in s).context, (logged_in s).world.logged))
                set_login
                s).1
      checked password true is eq = valid password is eq
      checked password false is eq = p

      go :
          (r : Result Text)
          → get_str args ≡ r
          → P
              (continue r
                (λ password. do
                  t ← gets (λ t. t)
                  r ← lift (
                      Context.login t.world.config t.context t.world.logged t.context.user password)
                  set_login r)
                s).1
      go (throw e) is = p
      go (ok password) is =
          checked password (is_user_pwd_valid s.world.config s.context.user password) is refl

  pub run_ping_keeps :
      IgnoresOutput P
      → (h : Host) (args : List CommandArg) (s : Session) → P s
      → P (run_ping h args s).1
  unfolding run_ping
  run_ping_keeps quiet h args s p = go (get_str args)
    where
      go :
          (r : Result Text)
          → P (continue r (λ a. write h (h.shell (codes "ping '" ++ (a ++ codes "' -c 1")))) s).1
      go (throw e) = p
      go (ok a) = write_keeps P quiet h (h.shell (codes "ping '" ++ (a ++ codes "' -c 1"))) s p
