-- ===== src/Session/Run.antt =====
-- Code that acts on a connection and may throw, and what it writes to the client.
use gazon.Base.{ℕ, Bool, [], ◌∷◌, ◌++◌, Option, none, some, Text, codes}
use gazon.Base.Maps.{Map}
use gazon.Errors.{Result, ok, throw, networking_exception}
use gazon.Config.{Config}
use gazon.Context.{Context}
use gazon.Filesystem.{Filesystem, Os}
use gazon.FilePath.{c_str}

-- What the connections share: the settings, `Context::logged` and the virtual file system.
pub record World : Type 0 where
  pub config : Config
  pub logged : Map Text ℕ
  pub files : Filesystem

-- `output` is what the client has been sent; `dirty` is that of the socket.
pub record Session : Type 0 where
  pub world : World
  pub context : Context
  pub output : Text
  pub dirty : Bool

-- What the surroundings of one packet answer: the system, the shell, and the client's connection,
-- whose `write` fails with the given message or not at all.
pub record Host : Type 0 where
  pub os : Os
  pub shell : Text → Text
  pub write_error : Option Text

abbrev pub Exec : Type 0 → Type 0
Exec A = Session → Result A × Session

abbrev pub continue : {A B : Type 0} → Result A → (A → Exec B) → Exec B
continue (ok a) f s = f a s
continue (throw e) f s = (throw e, s)

infixl 5 ◌>>=◌ ◌>>◌
abbrev pub ◌>>=◌ : {A B : Type 0} → Exec A → (A → Exec B) → Exec B
◌>>=◌ m f s = continue (m s).0 f (m s).1

abbrev pub ◌>>◌ : {A B : Type 0} → Exec A → Exec B → Exec B
m >> n = m >>= λ _. n

abbrev pub pure : {A : Type 0} → A → Exec A
pure a s = (ok a, s)

abbrev pub lift : {A : Type 0} → Result A → Exec A
lift r s = (r, s)

abbrev pub gets : {A : Type 0} → (Session → A) → Exec A
gets f s = (ok (f s), s)

abbrev pub set_context : Context → Exec (Unit {0})
set_context c s = (ok tt, record s { context = c })

abbrev pub set_files : Filesystem → Exec (Unit {0})
set_files fs s = (ok tt, record s { world = record s.world { files = fs } })

abbrev pub transmit : Option Text → Text → Exec (Unit {0})
transmit none text s = (ok tt, record s { output = s.output ++ c_str text })
transmit (some message) text s = (throw (networking_exception message), s)

-- `socket << text`: the bytes up to the first NUL
unfoldable pub write : Host → Text → Exec (Unit {0})
write h = transmit h.write_error

abbrev pub new_line : Text
new_line = 10 ∷ []

abbrev pub send_error : Host → Text → Exec (Unit {0})
send_error h what = do write h (codes "Error: "); write h what; write h new_line

-- `socket << e`: an exception of the three writes is caught and logged
unfoldable pub write_exception : Host → Text → Exec (Unit {0})
unfolding write
write_exception h what s = (ok tt, (send_error h what s).1)
