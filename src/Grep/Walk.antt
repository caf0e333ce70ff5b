-- ===== src/Grep/Walk.antt =====
-- The recursion of `my_grep_aux_unsafe` in src/common/commands/grep.cpp: which files it lists.
use gazon.Base.{
  ℕ, zero, suc, ◌<◌, ◌≡◌, ◌↔◌, inl, inr, refl, sym, subst, ◌∙◌, Bool, true, false, List, All, Memᴰ,
  Option, some, Text, text_Eq, arith,
}
use gazon.FilePath.{FilePath, append_part}
use gazon.Filesystem.{Filesystem, unsafe_read, is_hidden_file}
use gazon.Filesystem.Tree.{Entry, entry, info, find_child}
use gazon.Regex.Nfa.Graph.{Regex, IsPlain}
use gazon.Regex.Nfa.Match.{NotSplit}
use gazon.Regex.Pattern.{Serves}
use gazon.Transfer.{Disk}
use gazon.Grep.{
  Search, Outcome, search_lines, names, height, search_opened, visit_node, visit, my_grep_aux,
}
use gazon.Grep.Lines.{HasLine, MayMatch, MustMatch, search_lines-Searched}
use gazon.Grep.Steps.{Lists, Lists-wider, each-Lists, file_searched-Lists}
use gazon.Grep.Listed.{lines_of, Listed, Under, Below, Below-Listed, Listed-Below, child_of, key_of}
use gazon.Grep.Places.{At, read-At, child-At}

-- No file has byte 2.
abbrev pub IsReadable : Disk → Type 0
IsReadable disk = (path : FilePath) → All (All NotSplit) (lines_of disk path)

-- What is sorted has the same names.
abbrev pub Sorts : (List Text → List Text) → Type 0
Sorts sort = (ns : List Text) (name : Text) → Memᴰ name (sort ns) ↔ Memᴰ name ns

module _ (e : Regex) (fs : Filesystem) (disk : Disk) (sort : List Text → List Text) where
  abbrev May : List Text → Type 0
  May = HasLine (MayMatch e)

  abbrev Must : List Text → Type 0
  Must = HasLine (MustMatch e)

  opened-Lists :
      IsPlain e
      → IsReadable disk
      → (path : FilePath) (node : Entry) (shown : Text) (s : Search) → At fs path node
      → Serves e s.regex
      → Lists e
          (λ q. (q ≡ shown) × May (lines_of disk path))
          (λ q. (q ≡ shown) × Must (lines_of disk path))
          s
          (search_opened fs disk sort shown (unsafe_read fs path) s)
  opened-Lists pl readable path node shown s at S = rw (read-At fs path node at) (
      file_searched-Lists e shown (lines_of disk path) (search_lines (lines_of disk path) 0 s.regex)
        s (search_lines-Searched e (lines_of disk path) 0 s.regex pl S (readable path)))

  node-Lists :
      (go : FilePath → FilePath → Entry → Search → Outcome)
      → IsPlain e
      → IsReadable disk
      → (path relative_path : FilePath) (folder : Bool) (node : Entry) (s : Search)
      → At fs path node
      → Serves e s.regex
      → Lists e
          (Listed disk May path relative_path node)
          (Listed disk Must path relative_path node)
          s
          (go path relative_path node s)
      → Lists e
          (Under disk May path relative_path false folder node)
          (Under disk Must path relative_path false folder node)
          s
          (visit_node fs disk sort go path relative_path folder node s)
  node-Lists go pl readable path relative_path true node s at S h =
      Lists-wider e _ _ _ _ s (go path relative_path node s) (λ q l. (refl, inr (refl, l)))
        (λ q (v, m). elim m [ inl (kind, same, p) ↦ absurd (cc) | inr (kind, l) ↦ l ]) h
  node-Lists go pl readable path relative_path false node s at S h =
      Lists-wider e _ _ _ _ s _ (λ q (same, p). (refl, inl (refl, same, p)))
        (λ q (v, m). elim m [ inl (kind, same, p) ↦ (same, p) | inr (kind, l) ↦ absurd (cc) ])
        (opened-Lists pl readable path node relative_path.string s at S)

  visit-Lists :
      (go : FilePath → FilePath → Entry → Search → Outcome)
      → IsPlain e
      → IsReadable disk
      → (path relative_path : FilePath) (name : Text) (hidden : Bool) (node : Entry) (s : Search)
      → (hidden ≡ false → At fs (append_part path name) node)
      → Serves e s.regex
      → (hidden ≡ false
          → Lists e
              (Listed disk May (append_part path name) (append_part relative_path name) node)
              (Listed disk Must (append_part path name) (append_part relative_path name) node)
              s
              (go (append_part path name) (append_part relative_path name) node s))
      → Lists e
          (Under disk May
            (append_part path name)
            (append_part relative_path name)
            hidden
            (info node).is_folder
            node)
          (Under disk Must
            (append_part path name)
            (append_part relative_path name)
            hidden
            (info node).is_folder
            node)
          s
          (visit fs disk sort go path relative_path name hidden (some node) s)
  visit-Lists go pl readable path relative_path name true node s at S h =
      (S, λ q m. inl m, λ q m. elim m [ inl k ↦ k | inr (v, k) ↦ absurd (cc) ])
  visit-Lists go pl readable path relative_path name false node s at S h =
      node-Lists go pl readable (append_part path name) (append_part relative_path name)
        (info node).is_folder node s (at refl) S (h refl)

  -- A search through the folder of a path, with enough fuel and an automaton that serves an
  -- expression, lists no file but those that have a line that may match, and if it comes to its end
  -- it lists all that have a line that must match. It throws nothing, and ends early only at a match
  -- with `line_positions` full.
  pub my_grep_aux-Lists :
      IsPlain e
      → IsReadable disk
      → Sorts sort
      → (fuel : ℕ) (path relative_path : FilePath) (node : Entry) (s : Search) → height node < fuel
      → At fs path node
      → Serves e s.regex
      → Lists e
          (Listed disk May path relative_path node)
          (Listed disk Must path relative_path node)
          s
          (my_grep_aux fs disk sort fuel path relative_path node s)
  unfolding my_grep_aux
  my_grep_aux-Lists pl readable sorts zero path relative_path node s lt at S = absurd (omega arith)
  my_grep_aux-Lists pl readable sorts (suc fuel) path relative_path (entry i cs) s lt at S =
      Lists-wider e (Listed disk May path relative_path (entry i cs)) _ _ _ s _ (λ q l. l)
        (λ q l.
          let (name, (f, found, under)) =
            Listed-Below disk Must path relative_path (entry i cs) q l in
          (name, (sorts (names cs) name).1 (key_of name f cs found), (f, found, under)))
        (each-Lists e (Listed disk May path relative_path (entry i cs))
          (Below disk Must path relative_path (entry i cs)) _ (sort (names cs))
          (λ name m s' S'.
            let (f, found, less) = child_of name cs ((sorts (names cs) name).0 m) in
            child_searched name f found s' (
              visit-Lists (my_grep_aux fs disk sort fuel) pl readable path relative_path name
                (is_hidden_file name) f s' (child-At fs path (entry i cs) name f at found) S'
                (λ visible.
                  my_grep_aux-Lists pl readable sorts fuel (append_part path name)
                    (append_part relative_path name) f s' (omega (arith, lt, less))
                    (child-At fs path (entry i cs) name f at found visible) S')))
          s S)
    where
      child_searched :
          (name : Text) (f : Entry) (found : find_child name cs ≡ some f) (s' : Search)
          → Lists e
              (Under disk May
                (append_part path name)
                (append_part relative_path name)
                (is_hidden_file name)
                (info f).is_folder
                f)
              (Under disk Must
                (append_part path name)
                (append_part relative_path name)
                (is_hidden_file name)
                (info f).is_folder
                f)
              s'
              (visit fs disk sort
                (my_grep_aux fs disk sort fuel)
                path
                relative_path
                name
                (is_hidden_file name)
                (some f)
                s')
          → Lists e
              (Listed disk May path relative_path (entry i cs))
              (Below disk Must path relative_path (entry i cs) name)
              s'
              (visit fs disk sort
                (my_grep_aux fs disk sort fuel)
                path
                relative_path
                name
                (is_hidden_file name)
                (find_child name cs)
                s')
      child_searched name f found s' h =
          subst
            (λ (o : Option Entry).
              Lists e (Listed disk May path relative_path (entry i cs))
                (Below disk Must path relative_path (entry i cs) name) s'
                (visit fs disk sort (my_grep_aux fs disk sort fuel) path relative_path name
                  (is_hidden_file name) o s'))
            (sym found)
            (Lists-wider e _ _ _ _ s' _
              (λ q u. Below-Listed disk May path relative_path (entry i cs) name q (f, found, u))
              (λ q (f', found', u).
                subst
                  (λ (z : Entry).
                    Under disk Must (append_part path name) (append_part relative_path name)
                      (is_hidden_file name) (info z).is_folder z q)
                  (same_entry f' f (sym found' ∙ found)) u)
              h)
        where
          same_entry : (a b : Entry) → some a ≡ some b → a ≡ b
          same_entry a b e = cc
