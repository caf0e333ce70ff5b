-- ===== src/Examples/Searches.antt =====
-- A search for a pattern on concrete data.
use gazon.Base.{
  ◌≡◌, refl, true, Bool-cases, inl, inr, [], ◌∷◌, none, codes, text_eq, text_Eq, ◌==◌, arith,
}
use gazon.Base.Maps.{find}
use gazon.Errors.{ok}
use gazon.FilePath.{parse_path}
use gazon.Command.{str_arg}
use gazon.Context.{get_absolute_path}
use gazon.Filesystem.{unsafe_get_entry_node}
use gazon.Regex.Nfa.{Memory}
use gazon.Regex.Convert.Syntax.{
  Sequence, first, behind, literal, dot, render_sequence, SequenceIsWritable,
}
use gazon.Transfer.{Disk}
use gazon.Grep.{heuristic, run_grep, read_lines}
use gazon.Grep.Walk.{IsReadable}
use gazon.Grep.Listed.{Listed}
use gazon.Grep.Command.{MayFind, MustFind, Sends, searched_path, run_grep_lists}
use gazon.Examples.Samples.{alice, sample_host, plain_printf, folder_b}

abbrev pattern : Sequence
pattern = behind (first (literal b'a')) dot

abbrev memory : Memory
memory = λ i. record { c = 0; left = 0; right = 0; last_step_seen = 0 }

abbrev stored : Disk
stored = (codes "/b/d/f", codes "x\ndata") ∷ []

stored-IsReadable : IsReadable stored
unfolding find read_lines
stored-IsReadable path = elim (Bool-cases (codes "/b/d/f" == path.string)) [
  | inl t ↦ rw t (omega arith)
  | inr f ↦ rw f (omega arith)
]

pattern-IsWritable : SequenceIsWritable pattern
pattern-IsWritable = omega arith

is_there : unsafe_get_entry_node alice.world.files (searched_path alice) ≡ ok folder_b
unfolding unsafe_get_entry_node get_absolute_path text_eq
is_there = refl

is_small : heuristic (ok folder_b) (render_sequence pattern) ≡ ok true
unfolding heuristic
is_small = refl

run_grep_lists_example :
    Sends sample_host alice
      (Listed stored (MayFind pattern) (searched_path alice) (parse_path [] none) folder_b)
      (Listed stored (MustFind pattern) (searched_path alice) (parse_path [] none) folder_b)
      (run_grep sample_host stored
        (λ names. names)
        memory
        (str_arg (render_sequence pattern) ∷ [])
        alice)
run_grep_lists_example =
    run_grep_lists sample_host stored (λ names. names) memory pattern [] alice folder_b
      pattern-IsWritable (omega arith) stored-IsReadable (λ ns name. ((λ m. m), (λ m. m))) is_there
      is_small

lines_with_an_end : read_lines (codes "x\ndata") ≡ codes "x" ∷ codes "data" ∷ [] ∷ []
unfolding read_lines
lines_with_an_end = refl

lines_with_a_break : read_lines (codes "x\n") ≡ codes "x" ∷ [] ∷ []
unfolding read_lines
lines_with_a_break = refl
