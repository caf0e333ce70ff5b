-- ===== src/Grep.antt =====
-- The command of src/common/commands/grep.cpp: the search through the files below the working
-- directory, or a pipeline of the shell.
pub mod Lines
pub mod Steps
pub mod Listed
pub mod Places
pub mod Walk
pub mod Contains
pub mod Command
pub mod Keeps
use gazon.Base.{
  ℕ, zero, suc, ◌+◌, ◌*◌, ◌%◌, ◌^◌, Bool, true, false, ◌&&◌, List, [], ◌∷◌, ◌++◌, Option, none,
  some, Text, codes, length, leb, ltb, nat_eq, text_Eq, if◌then◌else◌, max,
}
use gazon.Base.Maps.{find}
use gazon.Errors.{Result, ok, throw, Exception}
use gazon.Scan.{quote}
use gazon.FilePath.{FilePath, Printf, parse_path, append_part}
use gazon.Command.{CommandArg, get_str}
use gazon.Context.{get_absolute_path}
use gazon.Filesystem.{Filesystem, unsafe_get_entry_node, unsafe_read, is_hidden_file}
use gazon.Filesystem.Tree.{Entry, entry, Children, no_child, child, info, children, find_child}
use gazon.Session.Run.{Session, Host, Exec, ◌>>=◌, ◌>>◌, pure, write, new_line}
use gazon.Regex.Nfa.{Memory}
use gazon.Regex.Dfa.{Dfa}
use gazon.Regex.Pattern.{new_regex, regex_match}
use gazon.Transfer.{Disk}
use gazon.Transfer.Get.{contents_or_empty}

-- `GrepCommand_LIMIT_N_FILE`
abbrev pub limit_n_file : ℕ
limit_n_file = 100

-- What the search changes. `line_positions` has the elements that were written, as 16 bits.
pub record Search : Type 0 where
  pub regex : Dfa
  pub matched_files : List Text
  pub line_positions : List ℕ

-- `stuck`: the fuel ran out, or the automaton accesses a deleted state. `overruns`: a write behind the
-- end of `line_positions`.
pub data Outcome : Type 0 where
  stuck : Outcome
  overruns : Search → Outcome
  throws : Exception → Outcome
  finds : Search → Outcome

abbrev pub prepend : ℕ → List Text → List Text
prepend c [] = (c ∷ []) ∷ []
prepend c (line ∷ lines) = if nat_eq c 10 then [] ∷ line ∷ lines else (c ∷ line) ∷ lines

-- What the calls of `getLine` leave in `line`, up to the one that fails, which leaves it empty.
unfoldable pub read_lines : Text → List Text
read_lines [] = [] ∷ []
read_lines (c ∷ []) = if nat_eq c 10 then [] ∷ [] ∷ [] else (c ∷ []) ∷ [] ∷ []
read_lines (c ∷ d ∷ s) = prepend c (read_lines (d ∷ s))

abbrev pub line_matched :
    Option (Bool × Dfa) → ℕ → (Dfa → Option (Option ℕ × Dfa)) → Option (Option ℕ × Dfa)
line_matched none k next = none
line_matched (some (true, d)) k next = some (some k, d)
line_matched (some (false, d)) k next = next d

-- The loop over the lines of a file, from line `k` on: the first that matches.
unfoldable pub search_lines : List Text → ℕ → Dfa → Option (Option ℕ × Dfa)
unfolding regex_match
search_lines [] k d = some (none, d)
search_lines (line ∷ lines) k d = line_matched (regex_match line d) k (search_lines lines (k + 1))

-- what follows a match in line `k`
abbrev pub add_match : Text → ℕ → Search → Outcome
add_match shown k s =
    if ltb (length s.matched_files) limit_n_file
    then finds (record s {
      matched_files = s.matched_files ++ shown ∷ [];
      line_positions = s.line_positions ++ (k % 2 ^ 16) ∷ [];
    })
    else overruns s

abbrev pub file_searched : Text → Option (Option ℕ × Dfa) → Search → Outcome
file_searched shown none s = stuck
file_searched shown (some (none, d)) s = finds (record s { regex = d })
file_searched shown (some (some k, d)) s = add_match shown k (record s { regex = d })

abbrev pub then_visit : Outcome → (Search → Outcome) → Outcome
then_visit stuck next = stuck
then_visit (overruns s) next = overruns s
then_visit (throws e) next = throws e
then_visit (finds s) next = next s

abbrev pub each : (Text → Search → Outcome) → List Text → Search → Outcome
each visit_one [] s = finds s
each visit_one (name ∷ names) s = then_visit (visit_one name s) (each visit_one names)

-- the keys of `children`
abbrev pub names : Children → List Text
names no_child = []
names (child name e cs) = name ∷ names cs

abbrev mutual
  -- the longest way down
  pub height : Entry → ℕ
  height (entry i cs) = children_height cs

  pub children_height : Children → ℕ
  children_height no_child = 0
  children_height (child name e cs) = max (suc (height e)) (children_height cs)

module _ (fs : Filesystem) (disk : Disk) (sort : List Text → List Text) where
  abbrev pub search_opened : Text → Result FilePath → Search → Outcome
  search_opened shown (throw e) s = throws e
  search_opened shown (ok p) s =
      file_searched shown
        (search_lines (read_lines (contents_or_empty (find p.string disk))) 0 s.regex) s

  -- the branches for a file that is not hidden
  abbrev pub visit_node :
      (FilePath → FilePath → Entry → Search → Outcome)
      → FilePath
      → FilePath
      → Bool
      → Entry
      → Search
      → Outcome
  visit_node go path relative_path true node s = go path relative_path node s
  visit_node go path relative_path false node s =
      search_opened relative_path.string (unsafe_read fs path) s

  -- the body of the loop over the names; the names are keys of `children`
  abbrev pub visit :
      (FilePath → FilePath → Entry → Search → Outcome)
      → FilePath
      → FilePath
      → Text
      → Bool
      → Option Entry
      → Search
      → Outcome
  visit go path relative_path name hidden none s = stuck
  visit go path relative_path name true (some node) s = finds s
  visit go path relative_path name false (some node) s =
      visit_node go (append_part path name) (append_part relative_path name) (info node).is_folder
        node s

  -- `my_grep_aux_unsafe`, on fuel
  unfoldable pub my_grep_aux : ℕ → FilePath → FilePath → Entry → Search → Outcome
  unfolding search_lines read_lines is_hidden_file unsafe_read append_part find_child
  my_grep_aux zero path relative_path node s = stuck
  my_grep_aux (suc fuel) path relative_path node s =
      each
        (λ name.
          visit (my_grep_aux fuel) path relative_path name (is_hidden_file name)
            (find_child name (children node)))
        (sort (names (children node))) s

  -- `my_grep_safe`, on the entry of the working directory
  unfoldable pub my_grep_safe : ⦃f : Printf⦄ → FilePath → Result Entry → Dfa → Outcome
  unfolding my_grep_aux parse_path
  my_grep_safe path (throw e) regex = throws e
  my_grep_safe path (ok node) regex =
      my_grep_aux (suc (height node)) path (parse_path [] none) node
        (record { regex = regex; matched_files = []; line_positions = [] })

-- the loop that sends the matched files
unfoldable pub send_files : Host → List Text → Exec (Unit {0})
unfolding write
send_files h [] = pure tt
send_files h (file ∷ files) = do write h file; write h new_line; send_files h files

-- `heuristic`, on the entry of the working directory
unfoldable pub heuristic : Result Entry → Text → Result Bool
heuristic (throw e) regex = throw e
heuristic (ok node) regex = ok (
    leb (length regex) 8
    && leb (info node).n_rec_children limit_n_file
    && leb (info node).size (limit_n_file * 65535))

-- What `execute` comes to. `undefined`: the search is stuck, or the automaton cannot be made;
-- `overran`: the search passes the end of `line_positions`.
pub data Ran : Type 0 where
  undefined : Ran
  overran : Search → Ran
  ran : Result (Unit {0}) × Session → Ran

abbrev pub files_sent : Host → Outcome → Session → Ran
files_sent h stuck s = undefined
files_sent h (overruns r) s = overran r
files_sent h (throws e) s = ran (throw e, s)
files_sent h (finds r) s = ran (send_files h r.matched_files s)

-- `my_grep`, with the automaton made of the pattern; `none`: it cannot be made
abbrev pub my_grep :
    ⦃f : Printf⦄ → Host → Disk → (List Text → List Text) → Option (Result Dfa) → Session → Ran
my_grep h disk sort none s = undefined
my_grep h disk sort (some (throw e)) s = ran (throw e, s)
my_grep h disk sort (some (ok regex)) s =
    let path = get_absolute_path s.world.config s.context in
    files_sent h
      (my_grep_safe s.world.files disk sort path (unsafe_get_entry_node s.world.files path) regex) s

-- the pipeline
abbrev pub grep_command : Text → Text → Text → Text
grep_command path temp_directory pattern =
    codes "cd "
    ++ (quote path
        ++ (codes "; grep -Rl --exclude-dir="
            ++ (temp_directory ++ (codes " -E " ++ (quote pattern ++ codes " * | sort")))))

abbrev pub choose :
    ⦃f : Printf⦄
    → Host
    → Disk
    → (List Text → List Text)
    → Memory
    → Text
    → Result Bool
    → Session
    → Ran
choose h disk sort m pattern (throw e) s = ran (throw e, s)
choose h disk sort m pattern (ok true) s =
    my_grep h disk sort (new_regex (codes ".*" ++ (pattern ++ codes ".*")) m) s
choose h disk sort m pattern (ok false) s =
    let path = get_absolute_path s.world.config s.context in
    ran (
      (write h (h.shell (grep_command path.string s.world.config.temp_directory pattern))
          >> write h new_line)
        s)

abbrev pub grep_pattern :
    ⦃f : Printf⦄ → Host → Disk → (List Text → List Text) → Memory → Result Text → Session → Ran
grep_pattern h disk sort m (throw e) s = ran (throw e, s)
grep_pattern h disk sort m (ok pattern) s =
    let path = get_absolute_path s.world.config s.context in
    choose h disk sort m pattern (heuristic (unsafe_get_entry_node s.world.files path) pattern) s

-- `GrepCommand::execute`
unfoldable pub run_grep :
    ⦃f : Printf⦄ → Host → Disk → (List Text → List Text) → Memory → List CommandArg → Session → Ran
unfolding get_str heuristic new_regex my_grep_safe send_files get_absolute_path quote write
    unsafe_get_entry_node
run_grep h disk sort m args s = grep_pattern h disk sort m (get_str args) s
