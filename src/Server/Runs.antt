-- ===== src/Server/Runs.antt =====
-- Runs of src/server/server.cpp: the jobs of packets of any connections, and closings, in any order.
use gazon.Base.{
  ℕ, ◌≡◌, inl, inr, refl, sym, ap, subst, ◌∙◌, true, false, Bool-cases, nat_eq, nat_eq_iff, suc,
  List, [], ◌∷◌, Text, arith,
}
use gazon.Errors.{ok}
use gazon.FilePath.{Printf}
use gazon.Config.{is_user_pwd_valid}
use gazon.Context.{Context, new_context}
use gazon.Command.{command_from_input, pass}
use gazon.Session.Run.{Host}
use gazon.Session.Commands.{FileCommands}
use gazon.Session.Handler.{handle_packet}
use gazon.Session.Access.{login_needs_password}
use gazon.Server.{Server, context_of, session_for, packet_job, on_closing}
use gazon.Server.Connections.{packets_are_isolated, closing_logs_out}

-- What the event loop hands to the handlers: a packet of a connection, or its closing.
pub data Event : Type 0 where
  arrives : ℕ → Text → Event
  closes : ℕ → Event

module _ ⦃f : Printf⦄ (h : Host) (fc : FileCommands) (fd : ℕ) where
  abbrev pub handled_event : Event → Server → Server
  handled_event (arrives k packet) server = (packet_job h fc k packet server).1
  handled_event (closes k) server = on_closing k server

  abbrev pub after : List Event → Server → Server
  after [] server = server
  after (e ∷ es) server = after es (handled_event e server)

  -- The event is not a packet of the connection `fd` with the password of the account that the
  -- connection has named.
  abbrev pub GivesNoPassword : Event → Server → Type 0
  GivesNoPassword (closes k) server = Unit
  GivesNoPassword (arrives k packet) server =
      k ≡ fd
      → (password : Text) → command_from_input packet ≡ ok (pass, password ∷ [])
      → (context_of fd server).is_logging_in ≡ true
      → is_user_pwd_valid server.world.config (context_of fd server).user password ≡ false

  -- no event of the run is, when it is handled
  abbrev pub NeverGivesPassword : List Event → Server → Type 0
  NeverGivesPassword [] server = Unit
  NeverGivesPassword (e ∷ es) server =
      GivesNoPassword e server × NeverGivesPassword es (handled_event e server)

  own_packet :
      (packet : Text) (server : Server)
      → GivesNoPassword (arrives fd packet) server
      → (context_of fd server).is_logged ≡ false
      → (context_of fd (packet_job h fc fd packet server).1).is_logged ≡ false
  own_packet packet server harmless out =
      let left = (handle_packet h fc packet (session_for fd server)).1 in
      ap (λ (c : Context). c.is_logged)
        (packets_are_isolated h fc fd (suc fd) packet server (omega arith)).0
      ∙ elim (Bool-cases left.context.is_logged) [
        | inr outside ↦ outside
        | inl inside ↦
            let (naming, password, given, valid) =
              login_needs_password h fc packet (session_for fd server) out inside in
            let wrong = harmless refl password given naming in absurd (cc)
      ]

  event_keeps :
      (e : Event) (server : Server)
      → GivesNoPassword e server
      → (context_of fd server).is_logged ≡ false
      → (context_of fd (handled_event e server)).is_logged ≡ false
  event_keeps (arrives k packet) server harmless out = elim (Bool-cases (nat_eq k fd)) [
    | inl same ↦
        subst (λ (j : ℕ). (context_of fd (packet_job h fc j packet server).1).is_logged ≡ false)
          (sym ((nat_eq_iff k fd).0 same))
          (own_packet packet server (λ _. harmless ((nat_eq_iff k fd).0 same)) out)
    | inr other ↦
        ap (λ (c : Context). c.is_logged)
          (packets_are_isolated h fc k fd packet server
            (λ same. let t = (nat_eq_iff k fd).1 same in cc)).1
        ∙ out
  ]
  event_keeps (closes k) server harmless out = elim (Bool-cases (nat_eq k fd)) [
    | inl same ↦
        subst (λ (j : ℕ). (context_of fd (on_closing j server)).is_logged ≡ false)
          (sym ((nat_eq_iff k fd).0 same))
          (ap (λ (c : Context). c.is_logged) (closing_logs_out fd (suc fd) server (omega arith)).0
            ∙ unfold new_context in refl)
    | inr other ↦
        ap (λ (c : Context). c.is_logged)
          (closing_logs_out k fd server (λ same. let t = (nat_eq_iff k fd).1 same in cc)).1
        ∙ out
  ]

  -- In any run of packets of any connections and of closings, a connection that is not logged in
  -- stays so, whatever the others do, as long as none of its packets is, when it is handled, `pass`
  -- with the password of the account that the connection has named.
  pub stays_logged_out :
      (events : List Event) (server : Server)
      → (context_of fd server).is_logged ≡ false
      → NeverGivesPassword events server
      → (context_of fd (after events server)).is_logged ≡ false
  stays_logged_out [] server out harmless = out
  stays_logged_out (e ∷ es) server out (now, later) =
      stays_logged_out es (handled_event e server) (event_keeps e server now out) later
