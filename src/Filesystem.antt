-- ===== src/Filesystem.antt =====
-- src/common/filesystem.cpp and include/common/filesystem.h: the virtual file system. The calls of
-- the operating system are answered by an `Os`; each operation takes the answers of its own calls.
-- The mutex makes each locked block one step.
pub mod Tree
pub mod Paths
pub mod Counts
pub mod Operations
pub mod Commits
use gazon.Base.{
  ℕ, zero, suc, ◌+◌, ◌/◌, ◌%◌, Bool, true, false, not, List, [], ◌∷◌, ◌++◌, Option, none, some,
  Text, codes, length, nat_eq, ltb, char_at, ◌==◌, text_Eq, nat_Eq, if◌then◌else◌,
}
use gazon.Base.Maps.{Map, find, insert}
use gazon.Errors.{Result, ok, throw, Exception, filesystem_exception, exits, ◌>>=◌, ◌>>◌}
use gazon.FilePath.{FilePath, Printf, parse_path}
use gazon.Config.{Config}
use Tree.{Entry, entry, Info, Stat, info, children, insert_at, lookup, missing, remove_at}

-- What the operating system answers. A failed call leaves the text of `strerror(errno)`.
pub record Os : Type 0 where
  pub mkdir_error : Text → Option Text
  pub stat : Text → Result Stat
  pub rename_fails : Text → Text → Bool
  pub getpwuid : ℕ → Option Text
  pub getgrgid : ℕ → Option Text
  -- what the memory of a new entry's uninitialised `nSubFolders` holds
  pub garbage : ℕ

pub record Filesystem : Type 0 where
  pub root : Entry
  pub users : Map ℕ Text
  pub groups : Map ℕ Text
  pub temp_counter : ℕ

abbrev no_such_file : Text
no_such_file = codes ": No such file or directory"

unfoldable pub unsafe_get_entry_node : Filesystem → FilePath → Result Entry
unfolding lookup
unsafe_get_entry_node fs path =
    if not path.is_absolute then throw exits else elim (lookup fs.root path.parts) [
      | none ↦ throw (filesystem_exception (path.string ++ no_such_file))
      | some e ↦ ok e
    ]

unfoldable pub get_number_missing_child : Filesystem → FilePath → ℕ
unfolding missing
get_number_missing_child fs path = missing fs.root path.parts

-- On a path with no part the loop's `it + 1` passes the end: the behaviour is undefined, and the
-- model leaves the tree as it is.
insert_parts : Os → Stat → Bool → Entry → List Text → Entry
unfolding insert_at
insert_parts os st folder e [] = e
insert_parts os st folder e (p ∷ ps) = insert_at os.garbage st folder e p ps

unfoldable pub insert_node : Os → Filesystem → FilePath → Stat → Bool → Filesystem
unfolding insert_parts
insert_node os fs path st folder = record fs { root = insert_parts os st folder fs.root path.parts }

unfoldable pub remove_node : Filesystem → FilePath → Result Filesystem
unfolding unsafe_get_entry_node remove_at
remove_node fs path = do
  node ← unsafe_get_entry_node fs path
  ok (record fs { root = remove_at (info node) fs.root path.parts })

-- `rm`. The physical removal by `nftw` has no result that is read.
unfoldable pub rm : Filesystem → FilePath → Result Filesystem
unfolding remove_node
rm fs path = remove_node fs path

unfoldable pub mkdir : Os → Filesystem → FilePath → Result Filesystem
unfolding get_number_missing_child insert_node
mkdir os fs path =
    if not path.is_absolute
    then throw exits
    else if nat_eq (get_number_missing_child fs path) 0
    then throw (filesystem_exception (codes "Directory already exists"))
    else if ltb 1 (get_number_missing_child fs path)
    then throw (
        filesystem_exception
          (codes "Can't create " ++ (path.string ++ codes ": skipping part of the arborescence")))
    else elim (os.mkdir_error path.string) [
      | some message ↦ throw (filesystem_exception message)
      | none ↦ do st ← os.stat path.string; ok (insert_node os fs path st true)
    ]

-- `std::to_string` of a number; the fuel is more than the digits
decimal : ℕ → ℕ → Text → Text
decimal zero n s = s
decimal (suc fuel) n s =
    let more = decimal fuel (n / 10) ((b'0' + n % 10) ∷ s) in
    if ltb n 10 then (b'0' + n) ∷ s else more

unfoldable pub to_string : ℕ → Text
unfolding decimal
to_string n = decimal (suc n) n []

pub record TemporaryFile : Type 0 where
  pub temp_path : FilePath
  pub real_path : FilePath

-- `newTempName`: the counter moves, and the name follows it
unfoldable pub new_temp_name : Config → Filesystem → Text × Filesystem
unfolding to_string
new_temp_name g fs = (
  g.temp_directory ++ to_string (fs.temp_counter + 1),
  record fs { temp_counter = fs.temp_counter + 1 },
)

unfoldable pub create_file :
    ⦃f : Printf⦄ → Config → Filesystem → FilePath → Result (TemporaryFile × Filesystem)
unfolding get_number_missing_child new_temp_name parse_path
create_file g fs path =
    if ltb 1 (get_number_missing_child fs path)
    then throw (
        filesystem_exception
          (codes "Can't create " ++ (path.string ++ codes ": skipping part of the arborescence")))
    else let (name, fs') = new_temp_name g fs in
      ok (record { temp_path = parse_path name none; real_path = path }, fs')

-- `TemporaryFile::commit`
unfoldable pub commit_file : Os → TemporaryFile → Result (Unit {0})
commit_file os file =
    if os.rename_fails file.temp_path.string file.real_path.string
    then throw (filesystem_exception (codes "Could not commit temporary file."))
    else ok tt

-- `try { … } catch (const std::exception &) {}`; a process that exits does not come back
abbrev pub swallow : Result Filesystem → Filesystem → Result Filesystem
swallow (ok fs') fs = ok fs'
swallow (throw exits) fs = throw exits
swallow (throw e) fs = ok fs

-- `Filesystem::commit`
unfoldable pub commit : Os → Filesystem → TemporaryFile → Result Filesystem
unfolding commit_file remove_node insert_node
commit os fs file = do
  commit_file os file
  st ← os.stat file.real_path.string
  fs' ← swallow (remove_node fs file.real_path) fs
  ok (insert_node os fs' file.real_path st false)

unfoldable pub is_hidden_file : Text → Bool
is_hidden_file [] = false
is_hidden_file (c ∷ name) = nat_eq c b'.'

-- `unsafeRead` only checks that the path is there before it opens the file.
unfoldable pub unsafe_read : Filesystem → FilePath → Result FilePath
unfolding unsafe_get_entry_node
unsafe_read fs path = do e ← unsafe_get_entry_node fs path; ok path

-- the kinds that `ftw` reports
pub data FtwType : Type 0 where
  ftw_f ftw_d ftw_dnr ftw_ns : FtwType

abbrev is_ftw_d : FtwType → Bool
is_ftw_d ftw_d = true
is_ftw_d _ = false

unfoldable pub callback_ftw :
    ⦃f : Printf⦄ → Os → Config → Filesystem → Text → Stat → FtwType → Filesystem
callback_ftw os g fs name st ftw_ns = fs
callback_ftw os g fs name st type =
    let path = parse_path name none in
    if path.string == g.temp_directory then fs else insert_node os fs path st (is_ftw_d type)

unfoldable pub callbacks :
    ⦃f : Printf⦄ → Os → Config → Filesystem → List (Text × Stat × FtwType) → Filesystem
callbacks os g fs [] = fs
callbacks os g fs ((name, st, type) ∷ rest) =
    callbacks os g (callback_ftw os g fs name st type) rest

-- `scan`: `ftw` calls back for each item that it meets, in its order
unfoldable pub scan :
    ⦃f : Printf⦄
    → Os
    → Config
    → Filesystem
    → FilePath
    → List (Text × Stat × FtwType)
    → Result Filesystem
scan os g fs path items =
    if not path.is_absolute
    then throw (filesystem_exception (codes "Can only initialize from absolute paths"))
    else ok (callbacks os g fs items)

abbrev or_empty : Option Text → Text
or_empty none = []
or_empty (some name) = name

-- `unsafeGetUser`: the name, and the cache behind the call
unfoldable pub unsafe_get_user : Os → Filesystem → ℕ → Text × Filesystem
unsafe_get_user os fs uid = elim (find uid fs.users) [
  | some name ↦ (name, fs)
  | none ↦ (
    or_empty (os.getpwuid uid),
    record fs { users = insert uid (or_empty (os.getpwuid uid)) fs.users },
  )
]

-- `unsafeGetGroup`
unfoldable pub unsafe_get_group : Os → Filesystem → ℕ → Text × Filesystem
unsafe_get_group os fs uid = elim (find uid fs.groups) [
  | some name ↦ (name, fs)
  | none ↦ (
    or_empty (os.getgrgid uid),
    record fs { groups = insert uid (or_empty (os.getgrgid uid)) fs.groups },
  )
]
