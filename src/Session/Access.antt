-- ===== src/Session/Access.antt =====
-- What a client can do through packets before it has given a valid password.
use gazon.Base.{
  suc, arith, nat_eq, length, ◌≡◌, refl, subst, ap, ◌∙◌, Bool, true, false, List, [], ◌∷◌, Text,
  inl, inr,
}
use gazon.Errors.{ok}
use gazon.FilePath.{Printf}
use gazon.Config.{is_user_pwd_valid}
use gazon.Context.{Context}
use gazon.Command.{
  get_str, arg_str, str_arg, convert_all, convert_arg, specification, command_from_input,
  convert_and_typecheck_arguments, Command, CommandArg, middleware, check_logging, middleware_of,
  MiddlewareTypes, middleware_none, middleware_logging, middleware_logged, middleware_logged_out,
  login, pass, ping,
}
use gazon.Session.Run.{World, Session, Host}
use gazon.Session.Commands.{FileCommands, execute, run_exit}
use gazon.Session.Handler.{handle_packet}
use gazon.Session.Jobs.{entered, admitted, status_of, handle_packet_keeps}
use gazon.Session.Open.{
  IsOpen, exit_open, login_open, pass_open, ping_open, IsOpen-or_logged, logged_status,
  run_login_keeps, run_pass_keeps, run_ping_keeps,
}

-- nothing that connections share has changed, and the client is not logged in
abbrev Outside : World → Session → Type 0
Outside world t = (t.world ≡ world) × (t.context.is_logged ≡ false)

-- the middleware logs nobody in
middleware_logs_nobody_in :
    (m : MiddlewareTypes) (c : Context) → c.is_logged ≡ false → (middleware m c).0.is_logged ≡ false
unfolding middleware
middleware_logs_nobody_in middleware_none c out = out
middleware_logs_nobody_in middleware_logged c out = out
middleware_logs_nobody_in middleware_logged_out c out = out
middleware_logs_nobody_in middleware_logging c out = go c.is_logging_in
  where
    go : (b : Bool) → (check_logging b c).0.is_logged ≡ false
    go true = out
    go false = refl

-- without a name that waits for its password, the middleware of `pass` refuses
pub refuses_pass :
    (c : Context)
    → c.is_logging_in ≡ false
    → middleware middleware_logging c ≡ (record c { is_logged = false; user = [] }, false)
unfolding middleware
refuses_pass c idle = ap (λ b. check_logging b c) idle

-- where it accepts `pass`, the context is as it was
accepts_pass :
    (c : Context)
    → (middleware middleware_logging c).1 ≡ true
    → (c.is_logging_in ≡ true) × ((middleware middleware_logging c).0 ≡ c)
unfolding middleware
accepts_pass c eq = go c.is_logging_in refl eq
  where
    go :
        (b : Bool)
        → c.is_logging_in ≡ b
        → (check_logging b c).1 ≡ true
        → (c.is_logging_in ≡ true) × ((check_logging b c).0 ≡ c)
    go true flag eq = (flag, refl)
    go false flag eq = absurd (cc)

pub ok_args : {A : Type 0} {a b : A} → ok a ≡ ok b → a ≡ b
ok_args eq = cc

module _ ⦃f : Printf⦄ (h : Host) (fc : FileCommands) where
  open_execute :
      {cmd : Command} (args : List CommandArg) (s t : Session)
      → s.context.is_logging_in ≡ false
      → status_of cmd s ≡ true
      → IsOpen cmd
      → Outside s.world t
      → Outside s.world (execute h fc cmd args t).1
  unfolding execute run_exit
  open_execute args s t idle ran exit_open p = p
  open_execute args s t idle ran ping_open p =
      run_ping_keeps (Outside s.world) (λ s o q. q) h args t p
  open_execute args s t idle ran login_open p =
      run_login_keeps (Outside s.world) args t p (λ user. p) (λ user known. p)
  open_execute args s t idle ran pass_open p =
      let refused = ap (λ r. r.1) (refuses_pass s.context idle) in absurd (cc)

  -- A packet of a client that is not logged in and has not just named an account changes nothing
  -- that connections share, whatever it holds, and does not log the client in.
  pub outsider_changes_nothing :
      (packet : Text) (s : Session)
      → s.context.is_logged ≡ false
      → s.context.is_logging_in ≡ false
      → ((handle_packet h fc packet s).1.world ≡ s.world)
        × ((handle_packet h fc packet s).1.context.is_logged ≡ false)
  outsider_changes_nothing packet s out idle =
      handle_packet_keeps (Outside s.world) (λ t o p. p) h fc packet s (refl, out) refused run
    where
      refused : (cmd : Command) → Outside s.world (admitted cmd (entered s))
      refused cmd = (refl, middleware_logs_nobody_in (middleware_of cmd) (entered s).context out)

      run :
          (cmd : Command) (strings : List Text) (args : List CommandArg)
          → command_from_input packet ≡ ok (cmd, strings)
          → convert_and_typecheck_arguments
              (admitted cmd (entered s)).context
              (specification cmd)
              strings
            ≡ ok args
          → status_of cmd (entered s) ≡ true
          → Outside s.world (execute h fc cmd args (admitted cmd (entered s))).1
      run cmd strings args found converted ran = elim (IsOpen-or_logged cmd) [
        | inl op ↦
            open_execute args (entered s) (admitted cmd (entered s)) idle ran op (refused cmd)
        | inr eq ↦ let status = logged_status cmd (entered s) eq in absurd (cc)
      ]

  -- what it takes to be logged in by a command with the given arguments
  abbrev Knows : Command → List Text → Session → Type 0
  Knows cmd strings s =
      (cmd ≡ pass)
      × (s.context.is_logging_in ≡ true)
      × (password : Text) × (strings ≡ password ∷ [])
      × (is_user_pwd_valid s.world.config s.context.user password ≡ true)

  -- the argument of `pass` is handed on as it is
  pass_argument :
      (c : Context) (strings : List Text) (args : List CommandArg) (password : Text)
      → convert_and_typecheck_arguments c (arg_str ∷ []) strings ≡ ok args
      → get_str args ≡ ok password
      → strings ≡ password ∷ []
  unfolding convert_and_typecheck_arguments convert_all convert_arg get_str
  pass_argument c [] args password converted is = absurd (cc)
  pass_argument c (a ∷ b ∷ strings) args password converted is =
      let longer : nat_eq 1 (suc (suc (length strings))) ≡ false = ground arith in absurd (cc)
  pass_argument c (a ∷ []) args password converted is =
      let one : ok (str_arg a ∷ []) ≡ ok args = converted in
      let said = ap get_str (ok_args one) in cc

  password_execute :
      {cmd : Command} (strings : List Text) (args : List CommandArg) (s : Session)
      → convert_and_typecheck_arguments (admitted cmd s).context (specification cmd) strings
        ≡ ok args
      → status_of cmd s ≡ true
      → IsOpen cmd
      → ((admitted cmd s).context.is_logged ≡ false)
      → (execute h fc cmd args (admitted cmd s)).1.context.is_logged ≡ true
      → Knows cmd strings s
  unfolding execute run_exit
  password_execute strings args s converted ran exit_open out = λ e. absurd (cc)
  password_execute strings args s converted ran ping_open out =
      run_ping_keeps (λ t. t.context.is_logged ≡ true → Knows ping strings s) (λ s o q. q) h args
        (admitted ping s) (λ e. absurd (cc))
  password_execute strings args s converted ran login_open out =
      run_login_keeps (λ t. t.context.is_logged ≡ true → Knows login strings s) args
        (admitted login s) (λ e. absurd (cc)) (λ user e. absurd (cc)) (λ user known e. absurd (cc))
  password_execute strings args s converted ran pass_open out =
      let (idle, same) = accepts_pass s.context ran in
      run_pass_keeps (λ t. t.context.is_logged ≡ true → Knows pass strings s) args (admitted pass s)
        (λ e. absurd (cc))
        (λ password is valid e. (
          refl,
          idle,
          password,
          pass_argument (admitted pass s).context strings args password converted is,
          subst (λ c. is_user_pwd_valid s.world.config c.user password ≡ true) same valid,
        ))

  -- A packet logs a client in only if it is `pass` with one argument, the client has named an
  -- account before, and the argument is that account's password.
  pub login_needs_password :
      (packet : Text) (s : Session)
      → s.context.is_logged ≡ false
      → (handle_packet h fc packet s).1.context.is_logged ≡ true
      → (s.context.is_logging_in ≡ true)
        × (password : Text) × (command_from_input packet ≡ ok (pass, password ∷ []))
        × (is_user_pwd_valid s.world.config s.context.user password ≡ true)
  login_needs_password packet s out =
      handle_packet_keeps (λ t. t.context.is_logged ≡ true → Goal) (λ t o p. p) h fc packet s
        (λ e. absurd (cc)) (λ cmd e. let out = refused cmd in absurd (cc)) run
    where
      Goal : Type 0
      Goal =
          (s.context.is_logging_in ≡ true)
          × (password : Text) × (command_from_input packet ≡ ok (pass, password ∷ []))
          × (is_user_pwd_valid s.world.config s.context.user password ≡ true)

      refused : (cmd : Command) → (admitted cmd (entered s)).context.is_logged ≡ false
      refused cmd = middleware_logs_nobody_in (middleware_of cmd) (entered s).context out

      run :
          (cmd : Command) (strings : List Text) (args : List CommandArg)
          → command_from_input packet ≡ ok (cmd, strings)
          → convert_and_typecheck_arguments
              (admitted cmd (entered s)).context
              (specification cmd)
              strings
            ≡ ok args
          → status_of cmd (entered s) ≡ true
          → (execute h fc cmd args (admitted cmd (entered s))).1.context.is_logged ≡ true
          → Goal
      run cmd strings args found converted ran e = elim (IsOpen-or_logged cmd) [
        | inl op ↦
            let (is, idle, password, one, valid) =
              password_execute strings args (entered s) converted ran op (refused cmd) e in
            (
              idle,
              password,
              (found ∙ (ap (λ c. ok (c, strings)) is ∙ ap (λ l. ok (pass, l)) one)),
              valid,
            )
        | inr eq ↦ let status = logged_status cmd (entered s) eq in absurd (cc)
      ]
