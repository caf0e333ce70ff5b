-- ===== src/Server/Connections.antt =====
-- What the packets and the closing of one connection do to the others.
use gazon.Base.{
  ℕ, ◌+◌, ◌-◌, ◌%◌, ◌≡◌, ◌≢◌, refl, ap, sym, ◌∙◌, Bool-cases, inl, inr, ◌&&◌, Option, none, some,
  Text, nat_Eq, text_Eq, ◌==◌, eq_iff, eq_self, eq_ne, if◌then◌else◌,
}
use gazon.Base.Maps.{Map, find, insert, erase, find-insert, find-erase}
use gazon.FilePath.{Printf}
use gazon.Context.{Context, sessions_of, uint_mod, new_context}
use gazon.Context
use gazon.Context.Count.{logout_count}
use gazon.Session.Run.{World, Host}
use gazon.Session.Commands.{FileCommands}
use gazon.Session.Handler.{handle_packet}
use gazon.Server.{Server, context_of, session_for, packet_job, on_closing, close_known}

abbrev or_new : Option Context → Context
or_new none = new_context
or_new (some c) = c

found_context : (fd : ℕ) (server : Server) → context_of fd server ≡ or_new (find fd server.contexts)
unfolding context_of
found_context fd server = go (find fd server.contexts)
  where
    go : (o : Option Context) → (elim o [ none ↦ new_context | some c ↦ c ]) ≡ or_new o
    go none = refl
    go (some c) = refl

inserted :
    (fd j : ℕ) (c : Context) (w : World) (m : Map ℕ Context)
    → context_of j (record { world = w; contexts = insert fd c m })
      ≡ or_new (if fd == j then some c else find j m)
inserted fd j c w m =
    found_context j (record { world = w; contexts = insert fd c m })
    ∙ ap or_new (find-insert fd j c m)

erased :
    (fd j : ℕ) (w : World) (m : Map ℕ Context)
    → context_of j (record { world = w; contexts = erase fd m })
      ≡ or_new (if fd == j then none else find j m)
erased fd j w m =
    found_context j (record { world = w; contexts = erase fd m }) ∙ ap or_new (find-erase fd j m)

-- The job of a packet leaves its connection with the context that the commands left, and every
-- other connection with the context that it had.
pub packets_are_isolated :
    ⦃f : Printf⦄ (h : Host) (fc : FileCommands) (fd other : ℕ) (packet : Text) (server : Server)
    → fd ≢ other
    → (context_of fd (packet_job h fc fd packet server).1
        ≡ (handle_packet h fc packet (session_for fd server)).1.context)
      × (context_of other (packet_job h fc fd packet server).1 ≡ context_of other server)
unfolding packet_job
packets_are_isolated h fc fd other packet server ne =
    let t = (handle_packet h fc packet (session_for fd server)).1 in
    (
      inserted fd fd t.context t.world server.contexts
          ∙ ap (λ b. or_new (if b then some t.context else find fd server.contexts)) (eq_self fd),
      inserted fd other t.context t.world server.contexts
          ∙ (ap (λ b. or_new (if b then some t.context else find other server.contexts))
                (eq_ne fd other ne)
              ∙ sym (found_context other server)),
    )

-- the count of a name once that context is logged out
abbrev pub count_without : Context → Text → ℕ → ℕ
count_without c name n =
    if c.is_logged && (c.user == name) then (n + uint_mod - 1) % uint_mod else n

logout-count_without :
    (c : Context) (logged : Map Text ℕ) (name : Text)
    → sessions_of name (Context.logout c logged).1 ≡ count_without c name (sessions_of name logged)
logout-count_without c logged name = elim (Bool-cases c.is_logged) [
  | inl inside ↦ logout_count c logged name inside ∙ elim (Bool-cases (c.user == name)) [
    | inl same ↦
        rw (inside, same)
          (ap (λ user. (sessions_of user logged + uint_mod - 1) % uint_mod)
            ((eq_iff c.user name).0 same))
    | inr other ↦ rw (inside, other) refl
  ]
  | inr outside ↦ unfold Context.logout in rw outside refl
]

closed_known :
    (fd other : ℕ) (server : Server) (o : Option Context)
    → find fd server.contexts ≡ o
    → fd ≢ other
    → (context_of fd (close_known fd o server) ≡ new_context)
      × (context_of other (close_known fd o server) ≡ context_of other server)
      × ((name : Text)
          → sessions_of name (close_known fd o server).world.logged
            ≡ count_without (or_new o) name (sessions_of name server.world.logged))
closed_known fd other server none found ne =
    (found_context fd server ∙ ap or_new found, refl, λ name. unfold new_context in refl)
closed_known fd other server (some c) found ne =
    let world : World = record server.world { logged = (Context.logout c server.world.logged).1 } in
    (
      erased fd fd world server.contexts
          ∙ ap (λ b. or_new (if b then none else find fd server.contexts)) (eq_self fd),
      erased fd other world server.contexts
          ∙ (ap (λ b. or_new (if b then none else find other server.contexts)) (eq_ne fd other ne)
              ∙ sym (found_context other server)),
      logout-count_without c server.world.logged,
    )

-- After the closing of a connection, logged in or not, it has a new context, and no other connection
-- has another one than before. If it was logged in, the count of its user is one less modulo 2^32,
-- so that 0 becomes 4294967295, and every other count is as before. If it was not, or had no context
-- yet, no count has changed.
pub closing_logs_out :
    (fd other : ℕ) (server : Server)
    → fd ≢ other
    → (context_of fd (on_closing fd server) ≡ new_context)
      × (context_of other (on_closing fd server) ≡ context_of other server)
      × ((name : Text)
          → sessions_of name (on_closing fd server).world.logged
            ≡ count_without (context_of fd server) name (sessions_of name server.world.logged))
unfolding on_closing
closing_logs_out fd other server ne =
    let (own, others, counts) = closed_known fd other server (find fd server.contexts) refl ne in
    (
      own,
      others,
      λ name.
          counts name
          ∙ ap (λ c. count_without c name (sessions_of name server.world.logged))
              (sym (found_context fd server)),
    )
