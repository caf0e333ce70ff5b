-- ===== src/Transfer/Get.antt =====
-- The job of src/common/commands/get.cpp, and the size of a `File` of include/common/file.h.
use gazon.Base.{
  ℕ, zero, suc, ◌+◌, ◌-◌, ◌%◌, List, [], ◌∷◌, ◌++◌, Option, none, some, Text, codes, length, take,
  drop, leb, text_Eq, if◌then◌else◌,
}
use gazon.Base.Maps.{find}
use gazon.Errors.{Result, ok, throw}
use gazon.Numbers.{ℤ, pos, negsuc, int_max}
use gazon.Context.{uint_mod}
use gazon.FilePath.{FilePath, Printf, append_path}
use gazon.Command.{CommandArg, get_path}
use gazon.Context.{get_absolute_path}
use gazon.Filesystem.{unsafe_read, to_string}
use gazon.Session.Run.{Session, Host, Exec, ◌>>=◌, ◌>>◌, lift, gets, write, new_line}
use gazon.Transfer.{Disk, Peer, enforce, report, handled}

-- The size of a `File` as an `int`: -1 where it cannot be opened, and a `long` wraps.
abbrev pub file_size : Option Text → ℤ
file_size none = negsuc 0
file_size (some contents) =
    let k = length contents % uint_mod in if leb k int_max then pos k else negsuc (uint_mod - 1 - k)

abbrev pub int_text : ℤ → Text
int_text (pos n) = to_string n
int_text (negsuc k) = codes "-" ++ to_string (k + 1)

-- what `Filesystem::read` opens: the contents, which are empty where the file cannot be opened
abbrev pub contents_or_empty : Option Text → Text
contents_or_empty none = []
contents_or_empty (some contents) = contents

-- what the client on the second connection has got, and what a round threw
abbrev pub Sent : Type 0
Sent = Result (Unit {0}) × Text

-- A `write` may take fewer bytes than it is given; the rest of the chunk is dropped.
abbrev pub sent_chunk : Result ℕ → Text → (Text → Option Sent) → Text → Option Sent
sent_chunk (throw e) chunk next got = some (throw e, got)
sent_chunk (ok k) chunk next got = next (got ++ take k chunk)

-- The loop of `get` in its round `i`; `none`: the fuel ran out.
unfoldable pub send : ℕ → Peer → ℕ → Text → Text → Option Sent
send zero p i contents got = none
send (suc fuel) p i [] got = some (ok tt, got)
send (suc fuel) p i (c ∷ contents) got =
    let chunk = take 4096 (c ∷ contents) in
    sent_chunk (p.sends i (length chunk)) chunk (send fuel p (i + 1) (drop 4096 (c ∷ contents))) got

-- the file to read, in the job of `get`
unfoldable pub open_download : ⦃f : Printf⦄ → List CommandArg → Exec FilePath
unfolding get_path get_absolute_path unsafe_read
open_download args = do
  path ← lift (get_path args)
  s ← gets (λ s. s)
  lift (unsafe_read s.world.files (append_path (get_absolute_path s.world.config s.context) path))

unfoldable pub announce_get : Host → Peer → List CommandArg → ℤ → Exec (Unit {0})
unfolding get_path write
announce_get h p args size = do
  write h (codes "get port: ")
  write h (to_string p.port)
  write h (codes " size: ")
  write h (int_text size)
  write h (codes " path: ")
  path ← lift (get_path args)
  write h path.string
  write h new_line
  enforce p.accept_error

-- a job of `get`: its result, and what the client has got
abbrev pub Download : Type 0
Download = (Result (Unit {0}) × Session) × Text

abbrev pub get_sent : Host → Peer → Session → Option Sent → Option Download
get_sent h p s none = none
get_sent h p s (some (r, got)) = some (handled h p (r, s), got)

abbrev pub get_announced : Host → Peer → Text → Result (Unit {0}) × Session → Option Download
get_announced h p contents (throw e, s) = some (report h p e s, [])
get_announced h p contents (ok u, s) = get_sent h p s (send (length contents + 1) p 0 contents [])

abbrev pub get_opened :
    Host → Peer → List CommandArg → Disk → Result FilePath × Session → Option Download
get_opened h p args disk (throw e, s) = some (report h p e s, [])
get_opened h p args disk (ok path, s) =
    let stored = find path.string disk in
    get_announced h p (contents_or_empty stored) (announce_get h p args (file_size stored) s)

-- The job of `get`.
unfoldable pub get_job :
    ⦃f : Printf⦄ → Host → Peer → List CommandArg → Disk → Session → Option Download
unfolding open_download announce_get send report
get_job h p args disk s = get_opened h p args disk (open_download args s)
