-- ===== src/Grep/Command.antt =====
-- `GrepCommand::execute` of src/common/commands/grep.cpp where the server searches by itself.
use gazon.Base.{
  suc, ◌+◌, ◌≤◌, ◌<◌, ◌≡◌, ◌≢◌, ◌⊎◌, inl, inr, refl, sym, ap, subst, ◌∙◌, Bool, true, List, [], ◌∷◌,
  Memᴰ, Option, none, Text, length, arith,
}
use gazon.Errors.{Result, ok}
use gazon.FilePath.{FilePath, Printf, parse_path}
use gazon.Command.{CommandArg, str_arg, get_str}
use gazon.Context.{get_absolute_path}
use gazon.Filesystem.{unsafe_get_entry_node}
use gazon.Filesystem.Tree.{Entry}
use gazon.Session.Run.{Session, Host}
use gazon.Regex.Nfa.{Memory, max_size}
use gazon.Regex.Nfa.Graph.{Regex, size}
use gazon.Regex.Convert.Syntax.{
  Sequence, only, render_sequence, expression_sequence, SequenceIsWritable, expression-IsPlain,
}
use gazon.Regex.Dfa.{Dfa}
use gazon.Regex.Pattern.{Serves, new_regex, new_regex-render}
use gazon.Transfer.{Disk}
use gazon.Grep.{
  Search, Outcome, stuck, overruns, throws, finds, limit_n_file, height, my_grep_safe, my_grep,
  choose, heuristic, files_sent, send_files, undefined, overran, ran, Ran, run_grep,
}
use gazon.Grep.Lines.{HasLine, MayMatch, MustMatch}
use gazon.Grep.Steps.{Grows, Lists, Lists-wider}
use mathlib.Core.List.Memᴰ
use gazon.Grep.Walk.{IsReadable, Sorts, my_grep_aux-Lists}
use gazon.Grep.Listed.{Listed, Listed-wider}
use gazon.Grep.Places.{At, entry-At}
use gazon.Grep.Contains.{Contains, around, render-around, around-IsWritable, around-Contains}

-- A file that may be found has an empty line or one that contains a text of the sequence; one that
-- must be found has a line of the second kind.
abbrev pub MayFind : Sequence → List Text → Type 0
MayFind p = HasLine (λ line. (line ≡ []) ⊎ Contains p line)

abbrev pub MustFind : Sequence → List Text → Type 0
MustFind p = HasLine (λ line. (line ≢ []) × Contains p line)

-- What `execute` may come to: `line_positions` is full and another file matches, or what the search
-- found is sent.
abbrev pub Sends : Host → Session → (Text → Type 0) → (Text → Type 0) → Ran → Type 0
Sends h s May Must undefined = ⊥
Sends h s May Must (overran r) =
    (limit_n_file ≤ length r.matched_files) × ((q : Text) → Memᴰ q r.matched_files → May q)
Sends h s May Must (ran x) =
    (files : List Text) × (x ≡ send_files h files s)
    × ((q : Text) → Memᴰ q files → May q)
    × ((q : Text) → Must q → Memᴰ q files)

only_new :
    (May : Text → Type 0) (s r : Search)
    → s.matched_files ≡ []
    → Grows May s r
    → (q : Text) → Memᴰ q r.matched_files
    → May q
only_new May s r none_yet grows q m = elim (grows q m) [
  | inl k ↦ absurd (Memᴰ.not-nil (subst (λ (l : List Text). Memᴰ q l) none_yet k))
  | inr k ↦ k
]

Lists-Sends :
    (e : Regex) (May Must : Text → Type 0) (start : Search) (o : Outcome) (h : Host) (s : Session)
    → start.matched_files ≡ []
    → Lists e May Must start o
    → Sends h s May Must (files_sent h o s)
Lists-Sends e May Must start stuck h s none_yet l = l
Lists-Sends e May Must start (overruns r) h s none_yet (le, grows) =
    (le, only_new May start r none_yet grows)
Lists-Sends e May Must start (throws x) h s none_yet l = absurd l
Lists-Sends e May Must start (finds r) h s none_yet (S, grows, covers) =
    (r.matched_files, refl, only_new May start r none_yet grows, λ q m. covers q (inr m))

may_find :
    (p : Sequence) (lines : List Text)
    → HasLine (MayMatch (expression_sequence (around p))) lines
    → MayFind p lines
may_find p lines (line, m, inl empty) = (line, m, inl empty)
may_find p lines (line, m, inr D) = (line, m, inr ((around-Contains p line).0 D))

must_find :
    (p : Sequence) (lines : List Text)
    → MustFind p lines
    → HasLine (MustMatch (expression_sequence (around p))) lines
must_find p lines (line, m, (ne, C)) = (line, m, (ne, (around-Contains p line).1 C))

module _ ⦃f : Printf⦄ (s : Session) where
  abbrev pub searched_path : FilePath
  searched_path = get_absolute_path s.world.config s.context

  -- The server's search finds what it should, once it has the automaton.
  pub my_grep_safe-Sends :
      (h : Host) (p : Sequence) (disk : Disk) (sort : List Text → List Text) (node : Entry)
      (d : Dfa)
      → SequenceIsWritable p
      → IsReadable disk
      → Sorts sort
      → At s.world.files searched_path node
      → Serves (expression_sequence (around p)) d
      → Sends h s
          (Listed disk (MayFind p) searched_path (parse_path [] none) node)
          (Listed disk (MustFind p) searched_path (parse_path [] none) node)
          (files_sent h (my_grep_safe s.world.files disk sort searched_path (ok node) d) s)
  unfolding my_grep_safe
  my_grep_safe-Sends h p disk sort node d w readable sorts at S =
      let e = expression_sequence (around p) in
      let start : Search = record { regex = d; matched_files = []; line_positions = [] } in
      Lists-Sends e _ _ start _ h s refl (
        Lists-wider e _ _ _ _ start _
          (Listed-wider disk _ _ (may_find p) searched_path (parse_path [] none) node)
          (Listed-wider disk _ _ (must_find p) searched_path (parse_path [] none) node)
          (my_grep_aux-Lists e s.world.files disk sort
            (expression-IsPlain (only (around p)) (around-IsWritable p w)) readable sorts
            (suc (height node)) searched_path (parse_path [] none) node start (omega arith) at S))

-- For a pattern of literals, dots, groups and unary operators, with bars inside groups only and no
-- escaped character, brace, dollar sign or byte from 1 to 6, whose automaton fits `m_states`, where
-- the working directory is there, the heuristic lets the server search, no file has byte 2, and
-- sorting keeps the names: the automaton is made, whatever `m_states` held, and the search ends and
-- throws nothing. Either it finds another file when `line_positions` is full, all files so far
-- being files that it may find; or what is left is to send paths, each of a file that it may find,
-- and with all that it must find. Both are files below the working directory, neither hidden nor in
-- a hidden folder: the former with a line that is empty or contains a text of the pattern, the
-- latter with one that is not empty and contains one.
pub run_grep_lists :
    ⦃f : Printf⦄ (h : Host) (disk : Disk) (sort : List Text → List Text) (m : Memory) (p : Sequence)
    (rest : List CommandArg) (s : Session) (node : Entry)
    → SequenceIsWritable p
    → 1 + size (expression_sequence (around p)) < max_size
    → IsReadable disk
    → Sorts sort
    → unsafe_get_entry_node s.world.files (searched_path s) ≡ ok node
    → heuristic (ok node) (render_sequence p) ≡ ok true
    → Sends h s
        (Listed disk (MayFind p) (searched_path s) (parse_path [] none) node)
        (Listed disk (MustFind p) (searched_path s) (parse_path [] none) node)
        (run_grep h disk sort m (str_arg (render_sequence p) ∷ rest) s)
unfolding run_grep get_str
run_grep_lists h disk sort m p rest s node w fits readable sorts there small =
    let (d, made, S) = new_regex-render (only (around p)) m (around-IsWritable p w) fits in
    subst (Sends h s _ _)
      (sym (
        ap
          (λ (r : Result Entry).
            choose h disk sort m (render_sequence p) (heuristic r (render_sequence p)) s)
          there
        ∙ ap (λ (r : Result Bool). choose h disk sort m (render_sequence p) r s) small
        ∙ ap (λ (t : Text). my_grep h disk sort (new_regex t m) s) (sym (render-around p))
        ∙ ap (λ (r : Option (Result Dfa)). my_grep h disk sort r s) made
        ∙ ap
            (λ (r : Result Entry).
              files_sent h (my_grep_safe s.world.files disk sort (searched_path s) r d) s)
            there))
      (my_grep_safe-Sends s h p disk sort node d w readable sorts
        (entry-At s.world.files (searched_path s) node there) S)
