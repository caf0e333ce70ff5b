-- ===== src/Examples/Sessions.antt =====
-- Packets of a guest and of a client that is logged in.
use gazon.Base.{ℕ, ◌<◌, ◌≡◌, refl, true, false, [], ◌∷◌, Text, codes, All, arith, text_Eq, text_eq}
use gazon.Base.Maps.{Map}
use gazon.Errors.{ok}
use gazon.FilePath.Clean.{IsName}
use gazon.FilePath.{get_home}
use gazon.Config.{is_user_pwd_valid}
use gazon.Context.{Context, sessions_of, uint_mod}
use gazon.Context
use gazon.Context.Count.{logout-login}
use gazon.Command.{command_from_input, convert_and_typecheck_arguments, login, logout, pass}
use gazon.Command.Args.{IsSafe}
use gazon.Session.Handler.{handle_packet}
use gazon.Session.Access.{outsider_changes_nothing, login_needs_password}
use gazon.Session.Identity.{login_takes_the_name, logout_wraps}
use gazon.Session.Directory.{working_directory_stays_inside}
use gazon.Session.Run.{Session}
use gazon.Examples.Samples.{
  plain_printf, sample_host, idle_commands, guest, naming_alice, alice, session_of, sample_config,
  sample_world,
}

outsider_changes_nothing_example :
    ((handle_packet sample_host idle_commands (codes "rm d") guest).1.world ≡ sample_world)
    × ((handle_packet sample_host idle_commands (codes "rm d") guest).1.context.is_logged ≡ false)
outsider_changes_nothing_example =
    outsider_changes_nothing sample_host idle_commands (codes "rm d") guest refl refl

secret_logs_in :
    (handle_packet sample_host idle_commands (codes "pass secret") naming_alice).1.context.is_logged
    ≡ true
unfolding handle_packet command_from_input convert_and_typecheck_arguments
secret_logs_in = refl

login_needs_password_example :
    (true ≡ true)
    × (password : Text) × (command_from_input (codes "pass secret") ≡ ok (pass, password ∷ []))
    × (is_user_pwd_valid sample_config (codes "alice") password ≡ true)
login_needs_password_example =
    login_needs_password sample_host idle_commands (codes "pass secret") naming_alice refl
      secret_logs_in

alice-IsSafe : IsSafe alice.context
unfolding get_home text_eq
alice-IsSafe = record {
  inside = tt;
  home = (refl, (refl, ((λ e. cc), (refl, (refl, (refl, (refl, (refl, tt))))))));
}

working_directory_stays_inside_example :
    All IsName
      (handle_packet sample_host idle_commands (codes "cd d") alice).1.context.relative_path.parts
working_directory_stays_inside_example =
    working_directory_stays_inside sample_host idle_commands (codes "cd d") alice alice-IsSafe

read_login_bob : command_from_input (codes "login bob") ≡ ok (login, codes "bob" ∷ [])
unfolding command_from_input
read_login_bob = refl

login_takes_the_name_example :
    ((handle_packet sample_host idle_commands (codes "login bob") alice).1.context.user
      ≡ codes "bob")
    × ((handle_packet sample_host idle_commands (codes "login bob") alice).1.context.is_logged
        ≡ true)
    × ((handle_packet sample_host idle_commands (codes "login bob") alice).1.world ≡ sample_world)
login_takes_the_name_example =
    login_takes_the_name sample_host idle_commands (codes "login bob") (codes "bob") alice
      read_login_bob

read_pass : command_from_input (codes "pass x") ≡ ok (pass, codes "x" ∷ [])
unfolding command_from_input
read_pass = refl

read_logout : command_from_input (codes "logout") ≡ ok (logout, [])
unfolding command_from_input
read_logout = refl

no_bob : sessions_of (codes "bob") sample_world.logged ≡ 0
unfolding sessions_of text_eq
no_bob = refl

-- the session of alice, once it has said `login bob`
abbrev bob : Session
bob = session_of true true (codes "bob")

logout_wraps_example :
    sessions_of
      (codes "bob")
      (handle_packet sample_host idle_commands (codes "logout") bob).1.world.logged
    ≡ 4294967295
logout_wraps_example =
    logout_wraps sample_host idle_commands (codes "logout") bob read_logout refl no_bob

abbrev alice_in : Context × Map Text ℕ
alice_in = (alice.context, (codes "alice", 2) ∷ [])

alice_logs_in :
    Context.login sample_config naming_alice.context sample_world.logged
      (codes "alice")
      (codes "secret")
    ≡ ok alice_in
unfolding Context.login text_eq
alice_logs_in = refl

one_session : sessions_of (codes "alice") sample_world.logged < uint_mod
unfolding sessions_of text_eq
one_session = omega arith

logout-login_example :
    sessions_of (codes "alice") (Context.logout alice_in.0 alice_in.1).1
    ≡ sessions_of (codes "alice") sample_world.logged
logout-login_example =
    logout-login sample_config naming_alice.context sample_world.logged (codes "alice")
      (codes "secret") alice_in alice_logs_in one_session (codes "alice")
