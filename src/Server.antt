-- ===== src/Server.antt =====
-- The two handlers of src/server/server.cpp and the map of contexts that they share.
pub mod Connections
pub mod Runs
use gazon.Base.{ℕ, Bool, true, false, List, [], Option, none, some, Text, nat_Eq, if◌then◌else◌}
use gazon.Base.Maps.{Map, find, insert, erase}
use gazon.Errors.{Result}
use gazon.FilePath.{Printf}
use gazon.Context.{Context, new_context}
use gazon.Context
use gazon.Session.Run.{World, Session, Host}
use gazon.Session.Commands.{FileCommands}
use gazon.Session.Handler.{handle_packet}

-- `contexts` has one context for each open socket, by its descriptor.
pub record Server : Type 0 where
  pub world : World
  pub contexts : Map ℕ Context

-- `contexts[fd]`, which makes a new context where there is none
unfoldable pub context_of : ℕ → Server → Context
unfolding find new_context
context_of fd server = elim (find fd server.contexts) [ none ↦ new_context | some c ↦ c ]

-- what the job of a packet starts from
abbrev pub session_for : ℕ → Server → Session
session_for fd server = record {
  world = server.world;
  context = context_of fd server;
  output = [];
  dirty = false;
}

-- the job of a packet: its session, and the server after it
unfoldable pub packet_job :
    ⦃f : Printf⦄ → Host → FileCommands → ℕ → Text → Server → Session × Server
unfolding handle_packet insert
packet_job h fc fd packet server =
    let t = (handle_packet h fc packet (session_for fd server)).1 in
    (t, record { world = t.world; contexts = insert fd t.context server.contexts })

-- The handler for a packet. `none`: a stop was requested, and the handler throws.
unfoldable pub on_packet :
    ⦃f : Printf⦄ → Host → FileCommands → Bool → ℕ → Text → Server → Option (Session × Server)
unfolding packet_job
on_packet h fc true fd packet server = none
on_packet h fc false fd packet server = some (packet_job h fc fd packet server)

-- the `if` of the handler
abbrev pub close_known : ℕ → Option Context → Server → Server
close_known fd none server = server
close_known fd (some c) server = record {
  world = record server.world { logged = (Context.logout c server.world.logged).1 };
  contexts = erase fd server.contexts;
}

-- the handler for the closing of a connection
unfoldable pub on_closing : ℕ → Server → Server
unfolding find
on_closing fd server = close_known fd (find fd server.contexts) server
