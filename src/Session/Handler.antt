-- ===== src/Session/Handler.antt =====
-- The job that src/server/server.cpp schedules for each packet of a connection.
use gazon.Base.{Bool, true, false, List, Text, codes}
use gazon.Errors.{Result, ok, throw, command_exception, filesystem_exception, networking_exception}
use gazon.FilePath.{Printf}
use gazon.Command.{
  Command, CommandArg, command_from_input, middleware, middleware_of, specification,
  convert_and_typecheck_arguments,
}
use gazon.Session.Run.{Host, Exec, ◌>>=◌, ◌>>◌, pure, lift, gets, set_context, write_exception}
use gazon.Session.Commands.{FileCommands, execute}

-- `command->middleware(context, &status)`
unfoldable pub run_middleware : Command → Exec Bool
unfolding middleware
run_middleware cmd = do
  c ← gets (λ s. s.context)
  set_context (middleware (middleware_of cmd) c).0
  pure (middleware (middleware_of cmd) c).1

-- `if (!status) throw …; else command->execute(…)`
unfoldable pub guard_status :
    ⦃f : Printf⦄ → Host → FileCommands → Bool → Command → List CommandArg → Exec (Unit {0})
unfolding execute
guard_status h fc false cmd args = lift (throw (command_exception (codes "access denied.")))
guard_status h fc true cmd args = execute h fc cmd args

-- the rest of the `try` block, once the command is known
unfoldable pub dispatch : ⦃f : Printf⦄ → Host → FileCommands → Command × List Text → Exec (Unit {0})
unfolding run_middleware guard_status
dispatch h fc (cmd, strings) = do
  status ← run_middleware cmd
  c ← gets (λ s. s.context)
  args ← lift (convert_and_typecheck_arguments c (specification cmd) strings)
  guard_status h fc status cmd args

-- the `catch` clauses; any other exception leaves the job
unfoldable pub recover : Host → Result (Unit {0}) → Exec (Unit {0})
recover h (ok u) = pure tt
recover h (throw (networking_exception m)) = pure tt
recover h (throw (command_exception m)) = write_exception h m
recover h (throw (filesystem_exception m)) = write_exception h m
recover h (throw e) = lift (throw e)

-- the lookup of the context, and the `try` block
unfoldable pub attempt : ⦃f : Printf⦄ → Host → FileCommands → Text → Exec (Unit {0})
unfolding dispatch
attempt h fc packet = do
  c ← gets (λ s. s.context)
  set_context (record c { has_fpool = true })
  found ← lift (command_from_input packet)
  dispatch h fc found

-- The job for one packet, on the context of its connection.
unfoldable pub handle_packet : ⦃f : Printf⦄ → Host → FileCommands → Text → Exec (Unit {0})
unfolding attempt recover
handle_packet h fc packet s = recover h (attempt h fc packet s).0 (attempt h fc packet s).1
