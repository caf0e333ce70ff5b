-- ===== src/Session/Identity.antt =====
-- Whose session it is: the name in the context, whether the client is logged in, and the counts of
-- `Context::logged`, where commands come in another order than `login`, `pass`, `logout`.
use gazon.Base.{◌≡◌, refl, ap, Bool, true, false, List, [], ◌∷◌, Text, eq_self, text_Eq}
use gazon.FilePath.{Printf}
use gazon.Errors.{ok}
use gazon.Config.{user_exists}
use gazon.Context.{Context, sessions_of, uint_mod}
use gazon.Context.Count.{logout_count}
use gazon.Context
use gazon.Command.{
  middleware, command_from_input, convert_and_typecheck_arguments, convert_all, convert_arg,
  get_str, login, logout, pass,
}
use gazon.Session.Run.{Session, Host}
use gazon.Session.Commands.{FileCommands, execute, run_login, run_logout, expect_password}
use gazon.Session.Handler.{handle_packet, dispatch, run_middleware, guard_status}
use gazon.Session.Jobs.{entered, admitted, dispatch_keeps, found_keeps}
use gazon.Session.Access.{refuses_pass}

module _ ⦃f : Printf⦄ (h : Host) (fc : FileCommands) where
  -- The packet `login user` gives the session the name `user`, whether or not there is such an
  -- account, and leaves it logged in if it was, with the counts of sessions as they were.
  pub login_takes_the_name :
      (packet user : Text) (s : Session)
      → command_from_input packet ≡ ok (login, user ∷ [])
      → ((handle_packet h fc packet s).1.context.user ≡ user)
        × ((handle_packet h fc packet s).1.context.is_logged ≡ s.context.is_logged)
        × ((handle_packet h fc packet s).1.world ≡ s.world)
  login_takes_the_name packet user s found =
      found_keeps After (λ t o p. p) h fc packet s (login, user ∷ []) found
        (unfold dispatch run_middleware guard_status convert_and_typecheck_arguments convert_all
            convert_arg get_str middleware execute run_login in
          named (user_exists s.world.config user))
    where
      After : Session → Type 0
      After t =
          (t.context.user ≡ user)
          × (t.context.is_logged ≡ s.context.is_logged)
          × (t.world ≡ s.world)

      c : Context
      c = record (entered s).context { is_logging_in = false; user = user }

      named : (b : Bool) → After (expect_password b c (record (entered s) { context = c })).1
      named true = (refl, refl, refl)
      named false = (refl, refl, refl)

  -- The packet `pass` of a client that has not just named an account ends its session: it is logged
  -- out under no name, but the counts of sessions are as they were, so the account of a client that
  -- was logged in keeps one session too many.
  pub pass_out_of_turn :
      (packet : Text) (strings : List Text) (s : Session)
      → command_from_input packet ≡ ok (pass, strings)
      → s.context.is_logging_in ≡ false
      → ((handle_packet h fc packet s).1.context.user ≡ [])
        × ((handle_packet h fc packet s).1.context.is_logged ≡ false)
        × ((handle_packet h fc packet s).1.world ≡ s.world)
  pass_out_of_turn packet strings s found idle =
      found_keeps After (λ t o p. p) h fc packet s (pass, strings) found
        (dispatch_keeps After (λ t o p. p) h fc (entered s) pass strings dropped
          (λ args converted ran.
            let refused = ap (λ r. r.1) (refuses_pass (entered s).context idle) in absurd (cc)))
    where
      After : Session → Type 0
      After t = (t.context.user ≡ []) × (t.context.is_logged ≡ false) × (t.world ≡ s.world)

      dropped : After (admitted pass (entered s))
      dropped =
          let out = refuses_pass (entered s).context idle in
          (ap (λ r. r.0.user) out, ap (λ r. r.0.is_logged) out, refl)

  -- `logout` of a session whose name has no session in the counts, which `login` alone gives it,
  -- leaves that name with 4294967295 sessions.
  pub logout_wraps :
      (packet : Text) (s : Session)
      → command_from_input packet ≡ ok (logout, [])
      → s.context.is_logged ≡ true
      → sessions_of s.context.user s.world.logged ≡ 0
      → sessions_of s.context.user (handle_packet h fc packet s).1.world.logged ≡ 4294967295
  logout_wraps packet s found inside none_left =
      found_keeps After (λ t o p. p) h fc packet s (logout, []) found
        (unfold dispatch run_middleware guard_status convert_and_typecheck_arguments convert_all
            middleware execute run_logout in
          rw inside counted)
    where
      After : Session → Type 0
      After t = sessions_of s.context.user t.world.logged ≡ 4294967295

      c : Context
      c = record (entered s).context { is_logging_in = false; is_logged = true }

      counted : sessions_of s.context.user (Context.logout c s.world.logged).1 ≡ 4294967295
      counted =
          rw (logout_count c s.world.logged s.context.user refl, eq_self s.context.user, none_left)
            refl
