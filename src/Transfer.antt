-- ===== src/Transfer.antt =====
-- What the execute methods of src/common/commands/put.cpp and get.cpp do in the job of the packet, the
-- job of put.cpp, and the contents of the files that it writes.
-- A job's `catch` may throw again, when the client's connection cannot be written: the result says
-- so. `none`: an `int` overflows.
pub mod Receive
pub mod Upload
pub mod Download
pub mod Schedule
pub mod Get
use gazon.Base.{
  ℕ, zero, suc, ◌+◌, ◌-◌, ◌%◌, Bool, true, false, not, List, [], ◌∷◌, ◌++◌, Option, none, some,
  Text, codes, length, take, drop, leb, ltb, text_Eq, if◌then◌else◌,
}
use gazon.Base.Maps.{Map, find, insert, erase}
use gazon.Errors.{
  Result, ok, throw, Exception, command_exception, filesystem_exception, networking_exception,
  config_exception, regex_exception, bad_cast, out_of_range, exits,
}
use gazon.Numbers.{ℤ, pos, negsuc, int_max}
use gazon.Context.{uint_mod}
use gazon.FilePath.{FilePath, Printf, append_path}
use gazon.Command.{CommandArg, int_arg, get_path}
use gazon.Context.{get_absolute_path}
use gazon.Filesystem.{
  Filesystem, Os, TemporaryFile, create_file, commit, commit_file, unsafe_read, to_string,
}
use gazon.Session.Run.{
  Session, Host, Exec, ◌>>=◌, ◌>>◌, pure, lift, gets, set_files, write, new_line, send_error,
}
use gazon.Pool.Tagged.{file_key, key_size}

-- The contents of the files, by the strings of their paths.
abbrev pub Disk : Type 0
Disk = Map Text Text

-- What the calls of a transfer answer: the text of the exception where `enforce` throws, the port,
-- and what `read` gets from the client's second connection, up to its end or an error.
pub record Peer : Type 0 where
  pub setup_error : Option Text
  pub accept_error : Option Text
  -- what the `write` of so many bytes in that round returns, or the text of the exception
  pub sends : ℕ → ℕ → Result ℕ
  pub port : ℕ
  pub is_open : Bool
  pub chunks : List Text

-- `enforce`
abbrev pub enforce : Option Text → Exec (Unit {0})
enforce none = pure tt
enforce (some message) = lift (throw (command_exception message))

-- the test for a pool
abbrev pub check_pool : Bool → Text → Exec (Unit {0})
check_pool true message = pure tt
check_pool false message = lift (throw (command_exception message))

-- `args[1].get<int>()`
unfoldable pub get_int : List CommandArg → Result ℤ
get_int [] = throw out_of_range
get_int (a ∷ []) = throw out_of_range
get_int (a ∷ int_arg n ∷ rest) = ok n
get_int (a ∷ b ∷ rest) = throw bad_cast

-- what `execute` does in the job of the packet: the key under which the transfer is scheduled
abbrev pub schedule_on : Text → Peer → List CommandArg → Bool → Exec Text
schedule_on message p args has_fpool = do
  check_pool has_fpool message
  enforce p.setup_error
  path ← lift (get_path args)
  pure (file_key key_size path.string)

unfoldable pub schedule_put : Peer → List CommandArg → Exec Text
unfolding get_path file_key
schedule_put p args = do
  c ← gets (λ s. s.context)
  schedule_on (codes "cannot schedule a file upload.") p args c.has_fpool

unfoldable pub schedule_get : Peer → List CommandArg → Exec Text
unfolding get_path file_key
schedule_get p args = do
  c ← gets (λ s. s.context)
  schedule_on (codes "cannot schedule a file download.") p args c.has_fpool

-- `e.what()`; `what` of the two exceptions of the standard library is the implementation's
abbrev pub what : Exception → Text
what (command_exception m) = m
what (filesystem_exception m) = m
what (networking_exception m) = m
what (config_exception m) = m
what (regex_exception m) = m
what bad_cast = codes "std::bad_cast"
what out_of_range = codes "std::out_of_range"
what exits = []

-- The handler of a job. A process that exits does not get there.
unfoldable pub report : Host → Peer → Exception → Exec (Unit {0})
unfolding write
report h p exits = lift (throw exits)
report h p e = if p.is_open then send_error h (what e) else pure tt

-- The loop of `put`, with what is written and `totalRead`. The test on the size comes after the read,
-- so a last chunk may be read and dropped.
unfoldable pub receive : List Text → ℤ → ℕ → Text → Option (Text × ℕ)
receive [] size total out = some (out, total)
receive (chunk ∷ chunks) (negsuc k) total out = some (out, total)
receive (chunk ∷ chunks) (pos n) total out =
    let rest = receive chunks (pos n) (total + length chunk) (out ++ take (n - total) chunk) in
    if ltb total n
    then (if ltb int_max (total + length chunk) then none else rest)
    else some (out, total)

-- `totalRead >= size`
abbrev pub is_complete : ℕ → ℤ → Bool
is_complete total (pos n) = leb n total
is_complete total (negsuc k) = true

-- the file to write, in the job of `put`
unfoldable pub create_upload : ⦃f : Printf⦄ → List CommandArg → Exec TemporaryFile
unfolding get_path get_absolute_path create_file
create_upload args = do
  path ← lift (get_path args)
  s ← gets (λ s. s)
  made ← lift (
      create_file s.world.config s.world.files
        (append_path (get_absolute_path s.world.config s.context) path))
  set_files made.1
  pure made.0

-- the size, once the client was told the port and has connected
unfoldable pub announce_put : Host → Peer → List CommandArg → Exec ℤ
unfolding get_int get_path write
announce_put h p args = do
  size ← lift (get_int args)
  write h (codes "put port: ")
  write h (to_string p.port)
  write h (codes " path: ")
  path ← lift (get_path args)
  write h path.string
  write h new_line
  enforce p.accept_error
  pure size

-- a job's result, and the disk
abbrev pub Job : Type 0
Job = (Result (Unit {0}) × Session) × Disk

-- `rename`
abbrev pub renamed : TemporaryFile → Text → Disk → Disk
renamed file out disk = insert file.real_path.string out (erase file.temp_path.string disk)

-- the end of a complete transfer: the disk, if `commit` throws too
abbrev pub committed : Host → Peer → TemporaryFile → Text → Result Filesystem → Disk → Session → Job
committed h p file out (ok fs) disk s = (set_files fs s, renamed file out disk)
committed h p file out (throw e) disk s = (
  report h p e s,
  elim (commit_file h.os file) [ ok u ↦ renamed file out disk | throw e' ↦ disk ],
)

-- the message of a transfer that is not complete
abbrev pub send_incomplete : Host → ℕ → Exec (Unit {0})
send_incomplete h total = do
  write h (codes "Error: did not receive the whole file (")
  write h (to_string total)
  write h (codes " bytes read).")
  write h new_line

-- An exception inside the `try` block goes to the handler.
abbrev pub handled : Host → Peer → Result (Unit {0}) × Session → Result (Unit {0}) × Session
handled h p (ok u, s) = (ok u, s)
handled h p (throw e, s) = report h p e s

-- behind the loop of `put`
unfoldable pub store_upload : Host → Peer → TemporaryFile → ℤ → Text → ℕ → Disk → Session → Job
unfolding commit commit_file report write
store_upload h p file size out total disk s =
    if is_complete total size
    then committed h p file out (commit h.os s.world.files file) disk s
    else (handled h p (send_incomplete h total s), disk)

-- the loop of `put`, and what follows it
abbrev pub put_received :
    Host → Peer → TemporaryFile → ℤ → Option (Text × ℕ) → Disk → Session → Option Job
put_received h p file size none disk s = none
put_received h p file size (some (out, total)) disk s =
    some (store_upload h p file size out total (insert file.temp_path.string out disk) s)

abbrev pub put_announced : Host → Peer → TemporaryFile → Disk → Result ℤ × Session → Option Job
put_announced h p file disk (throw e, s) = some (report h p e s, disk)
put_announced h p file disk (ok size, s) =
    put_received h p file size (receive p.chunks size 0 []) disk s

abbrev pub put_created :
    Host → Peer → List CommandArg → Disk → Result TemporaryFile × Session → Option Job
put_created h p args disk (throw e, s) = some (report h p e s, disk)
put_created h p args disk (ok file, s) =
    put_announced h p file (insert file.temp_path.string [] disk) (announce_put h p args s)

-- The job of `put`.
unfoldable pub put_job : ⦃f : Printf⦄ → Host → Peer → List CommandArg → Disk → Session → Option Job
unfolding create_upload announce_put receive store_upload report
put_job h p args disk s = put_created h p args disk (create_upload args s)
