-- ===== src/Examples/Servers.antt =====
-- A server with the connection 3 of alice and the connection 4 of a guest.
use gazon.Base.{
  ◌≡◌, refl, sym, subst, ◌∙◌, List, [], ◌∷◌, Text, codes, false, nat_Eq, text_Eq, text_eq,
}
use gazon.Errors.{Result, ok}
use gazon.Config.{is_user_pwd_valid}
use gazon.Command.{Command, command_from_input, convert_and_typecheck_arguments, login, pass}
use gazon.Context.{new_context, sessions_of}
use gazon.Server.{Server, context_of, packet_job, on_closing}
use gazon.Server.Connections.{count_without, closing_logs_out}
use gazon.Server.Runs.{Event, arrives, closes, after, NeverGivesPassword, stays_logged_out}
use gazon.Examples.Samples.{plain_printf, sample_host, idle_commands, alice, guest, sample_world}

abbrev two_connections : Server
two_connections = record {
  world = sample_world;
  contexts = (3, alice.context) ∷ (4, guest.context) ∷ [];
}

closing_logs_out_example :
    (context_of 3 (on_closing 3 two_connections) ≡ new_context)
    × (context_of 4 (on_closing 3 two_connections) ≡ context_of 4 two_connections)
    × ((name : Text)
        → sessions_of name (on_closing 3 two_connections).world.logged
          ≡ count_without
              (context_of 3 two_connections)
              name
              (sessions_of name sample_world.logged))
closing_logs_out_example = closing_logs_out 3 4 two_connections (λ e. cc)

-- the guest names an account, guesses its password, and alice leaves
abbrev attempts : List Event
attempts = arrives 4 (codes "login bob") ∷ arrives 4 (codes "pass guess") ∷ closes 3 ∷ []

fourth_is_guest : (context_of 4 two_connections).is_logged ≡ false
unfolding context_of
fourth_is_guest = refl

abbrev bob_named : Server
bob_named = (packet_job sample_host idle_commands 4 (codes "login bob") two_connections).1

names_an_account : command_from_input (codes "login bob") ≡ ok (login, codes "bob" ∷ [])
unfolding command_from_input
names_an_account = refl

guesses : command_from_input (codes "pass guess") ≡ ok (pass, codes "guess" ∷ [])
unfolding command_from_input
guesses = refl

guess_is_wrong :
    is_user_pwd_valid bob_named.world.config (context_of 4 bob_named).user (codes "guess") ≡ false
unfolding packet_job context_of is_user_pwd_valid text_eq command_from_input
    convert_and_typecheck_arguments
guess_is_wrong = refl

abbrev Asked : Type 0
Asked = Result (Command × List Text)

guessed :
    (password : Text)
    → ◌≡◌ {A = Asked} (ok (pass, codes "guess" ∷ [])) (ok (pass, password ∷ []))
    → codes "guess" ≡ password
guessed password e = cc

no_pass :
    (password : Text)
    → ◌≡◌ {A = Asked} (ok (login, codes "bob" ∷ [])) (ok (pass, password ∷ []))
    → ⊥
no_pass password e = cc

attempts_are_wrong : NeverGivesPassword sample_host idle_commands 4 attempts two_connections
attempts_are_wrong = (
  λ own password given. absurd (no_pass password (sym names_an_account ∙ given)),
  (
    λ own password given naming.
        subst
          (λ (t : Text).
            is_user_pwd_valid bob_named.world.config (context_of 4 bob_named).user t ≡ false)
          (guessed password (sym guesses ∙ given)) guess_is_wrong,
    (tt, tt),
  ),
)

stays_logged_out_example :
    (context_of 4 (after sample_host idle_commands 4 attempts two_connections)).is_logged ≡ false
stays_logged_out_example =
    stays_logged_out sample_host idle_commands 4 attempts two_connections fourth_is_guest
      attempts_are_wrong
