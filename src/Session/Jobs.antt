-- ===== src/Session/Jobs.antt =====
-- How a predicate on the session passes through the job for one packet.
use gazon.Base.{
  ◌≡◌, refl, subst, sym, ap, Bool, true, false, List, Option, none, some, Text, codes, ◌++◌,
}
use gazon.Errors.{
  Result, ok, throw, command_exception, filesystem_exception, networking_exception,
  config_exception, regex_exception, bad_cast, out_of_range, exits,
}
use gazon.FilePath.{Printf, c_str}
use gazon.Command.{
  Command, CommandArg, command_from_input, middleware, middleware_of, specification,
  convert_and_typecheck_arguments,
}
use gazon.Session.Run.{Session, Host, continue, transmit, new_line, write, ◌>>◌, write_exception}
use gazon.Session.Commands.{FileCommands, execute}
use gazon.Session.Handler.{recover, dispatch, attempt, handle_packet, guard_status, run_middleware}

-- the session of a packet, once its context is found
abbrev pub entered : Session → Session
entered s = record s { context = record s.context { has_fpool = true } }

-- the session after the middleware of a command
abbrev pub admitted : Command → Session → Session
admitted cmd s = record s { context = (middleware (middleware_of cmd) s.context).0 }

abbrev pub status_of : Command → Session → Bool
status_of cmd s = (middleware (middleware_of cmd) s.context).1

-- A predicate that does not look at what the client has been sent.
abbrev pub IgnoresOutput : (Session → Type 0) → Type 0
IgnoresOutput P = (s : Session) (o : Text) → P s → P (record s { output = o })

module _ (P : Session → Type 0) (quiet : IgnoresOutput P) where
  pub write_keeps : (h : Host) (text : Text) (s : Session) → P s → P (write h text s).1
  unfolding write
  write_keeps h text s p = go h.write_error
    where
      go : (v : Option Text) → P (transmit v text s).1
      go none = quiet s (s.output ++ c_str text) p
      go (some m) = p

  -- two writes that follow each other
  pub then_keeps :
      (m n : Session → Result (Unit {0}) × Session)
      → ((s : Session) → P s → P (m s).1)
      → ((s : Session) → P s → P (n s).1)
      → (s : Session) → P s
      → P (continue (m s).0 (λ _. n) (m s).1).1
  then_keeps m n km kn s p = go (m s).0
    where
      go : (r : Result (Unit {0})) → P (continue r (λ _. n) (m s).1).1
      go (ok a) = kn (m s).1 (km s p)
      go (throw e) = km s p

  exception_keeps : (h : Host) (what : Text) (s : Session) → P s → P (write_exception h what s).1
  unfolding write_exception
  exception_keeps h what =
      then_keeps (write h (codes "Error: ")) (write h what >> write h new_line)
        (write_keeps h (codes "Error: "))
        (then_keeps (write h what) (write h new_line) (write_keeps h what) (write_keeps h new_line))

  pub recover_keeps : (h : Host) (r : Result (Unit {0})) (s : Session) → P s → P (recover h r s).1
  unfolding recover
  recover_keeps h (ok u) s p = p
  recover_keeps h (throw (networking_exception m)) s p = p
  recover_keeps h (throw (command_exception m)) s p = exception_keeps h m s p
  recover_keeps h (throw (filesystem_exception m)) s p = exception_keeps h m s p
  recover_keeps h (throw (config_exception m)) s p = p
  recover_keeps h (throw (regex_exception m)) s p = p
  recover_keeps h (throw bad_cast) s p = p
  recover_keeps h (throw out_of_range) s p = p
  recover_keeps h (throw exits) s p = p

  module _ ⦃f : Printf⦄ (h : Host) (fc : FileCommands) (s : Session) where
    guard_keeps :
        (cmd : Command) (args : List CommandArg) (status : Bool)
        → status_of cmd s ≡ status
        → P (admitted cmd s)
        → (status_of cmd s ≡ true → P (execute h fc cmd args (admitted cmd s)).1)
        → P (guard_status h fc status cmd args (admitted cmd s)).1
    unfolding guard_status
    guard_keeps cmd args false eq p run = p
    guard_keeps cmd args true eq p run = run eq

    pub dispatch_keeps :
        (cmd : Command) (strings : List Text)
        → P (admitted cmd s)
        → ((args : List CommandArg)
            → convert_and_typecheck_arguments (admitted cmd s).context (specification cmd) strings
              ≡ ok args
            → status_of cmd s ≡ true
            → P (execute h fc cmd args (admitted cmd s)).1)
        → P (dispatch h fc (cmd, strings) s).1
    unfolding dispatch run_middleware
    dispatch_keeps cmd strings p run =
        go (convert_and_typecheck_arguments (admitted cmd s).context (specification cmd) strings)
          refl
      where
        go :
            (r : Result (List CommandArg))
            → convert_and_typecheck_arguments (admitted cmd s).context (specification cmd) strings
              ≡ r
            → P
                (continue r
                  (λ args. guard_status h fc (status_of cmd s) cmd args)
                  (admitted cmd s)).1
        go (throw e) eq = p
        go (ok args) eq = guard_keeps cmd args (status_of cmd s) refl p (run args eq)

  -- A predicate that holds where the command is refused, and where it is executed, holds after
  -- the packet.
  pub handle_packet_keeps :
      ⦃f : Printf⦄ (h : Host) (fc : FileCommands) (packet : Text) (s : Session)
      → P (entered s)
      → ((cmd : Command) → P (admitted cmd (entered s)))
      → ((cmd : Command) (strings : List Text) (args : List CommandArg)
          → command_from_input packet ≡ ok (cmd, strings)
          → convert_and_typecheck_arguments
              (admitted cmd (entered s)).context
              (specification cmd)
              strings
            ≡ ok args
          → status_of cmd (entered s) ≡ true
          → P (execute h fc cmd args (admitted cmd (entered s))).1)
      → P (handle_packet h fc packet s).1
  unfolding handle_packet attempt
  handle_packet_keeps h fc packet s p refused run =
      recover_keeps h (attempt h fc packet s).0 (attempt h fc packet s).1
        (go (command_from_input packet) refl)
    where
      go :
          (r : Result (Command × List Text))
          → command_from_input packet ≡ r
          → P (continue r (dispatch h fc) (entered s)).1
      go (throw e) eq = p
      go (ok (cmd, strings)) eq =
          dispatch_keeps h fc (entered s) cmd strings (refused cmd)
            (λ args. run cmd strings args eq)

-- the `try` block of a packet that is a command's
pub attempt_found :
    ⦃f : Printf⦄ (h : Host) (fc : FileCommands) (packet : Text) (s : Session)
    (found : Command × List Text)
    → command_from_input packet ≡ ok found
    → attempt h fc packet s ≡ dispatch h fc found (entered s)
unfolding attempt
attempt_found h fc packet s found eq = ap (λ r. continue r (dispatch h fc) (entered s)) eq

-- A predicate that holds where the command of a packet ends, holds after the packet.
pub found_keeps :
    (P : Session → Type 0)
    → IgnoresOutput P
    → ⦃f : Printf⦄ (h : Host) (fc : FileCommands) (packet : Text) (s : Session)
      (found : Command × List Text)
    → command_from_input packet ≡ ok found
    → P (dispatch h fc found (entered s)).1
    → P (handle_packet h fc packet s).1
unfolding handle_packet
found_keeps P quiet h fc packet s found eq p =
    recover_keeps P quiet h (attempt h fc packet s).0 (attempt h fc packet s).1
      (subst (λ x. P x.1) (sym (attempt_found h fc packet s found eq)) p)
