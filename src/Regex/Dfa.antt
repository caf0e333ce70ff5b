-- ===== src/Regex/Dfa.antt =====
-- include/common/regexdfa.h: the automaton that is built from that of regexnfa.h on demand, with its
-- cache of states.
-- A `DfaState*` is a number, and the heap has none at the address of a deleted state; `new` takes an
-- address that was never used. `none`: a deleted state is accessed.
pub mod Flush
pub mod Sane
pub mod Grow
pub mod Relink
pub mod Rounds
pub mod Correct
use gazon.Base.{
  ℕ, zero, suc, ◌+◌, Bool, true, false, List, [], ◌∷◌, Option, none, some, Text, length, nat_eq,
  leb, text_Eq, if◌then◌else◌,
}
use gazon.Base.Maps.{Map, find, insert}
use gazon.Regex.Nfa.{Nfa}
use gazon.Regex.Nfa.Run.{step, get_start_states, Stepped}

pub record DfaState : Type 0 where
  pub states : List ℕ
  pub next : ℕ → Option ℕ
  pub is_match : Bool

abbrev pub Heap : Type 0
Heap = ℕ → Option DfaState

abbrev pub Cache : Type 0
Cache = Map (List ℕ) ℕ

pub record Dfa : Type 0 where
  pub nfa : Nfa
  pub heap : Heap
  pub fresh : ℕ
  pub dfa_cache : Cache
  pub dfa_start_state : Option ℕ

abbrev pub put : ℕ → DfaState → Heap → Heap
put id st h = λ (j : ℕ). if nat_eq j id then some st else h j

abbrev pub delete : ℕ → Heap → Heap
delete id h = λ (j : ℕ). if nat_eq j id then none else h j

abbrev pub no_next : ℕ → Option ℕ
no_next c = none

-- `it.second == do_not_delete`
abbrev pub is_kept : Option ℕ → ℕ → Bool
is_kept none id = false
is_kept (some keep) id = nat_eq id keep

-- the loop of `flushCache`
abbrev pub delete_but : Option ℕ → Cache → Heap → Heap
delete_but keep [] h = h
delete_but keep ((k, id) ∷ m) h = delete_but keep m (if is_kept keep id then h else delete id h)

abbrev pub backup_of : Option ℕ → Cache → List ℕ → List ℕ
backup_of keep [] backup = backup
backup_of keep ((k, id) ∷ m) backup = backup_of keep m (if is_kept keep id then k else backup)

-- the state that is kept, in the cache with no successors
abbrev pub restore : Option ℕ → List ℕ → Dfa → Option Dfa
restore none backup d = some d
restore (some keep) [] d = some d
restore (some keep) (x ∷ backup) d = elim (d.heap keep) [
  | none ↦ none
  | some st ↦ some (record d {
    heap = put keep (record st { next = no_next }) d.heap;
    dfa_cache = (x ∷ backup, keep) ∷ [];
  })
]

unfoldable pub flush_cache : Option ℕ → Dfa → Option Dfa
flush_cache keep d =
    restore keep (backup_of keep d.dfa_cache []) (record d {
      heap = delete_but keep d.dfa_cache d.heap;
      dfa_cache = [];
      dfa_start_state = none;
    })

-- a new state in the cache
abbrev pub add_dfa_state : List ℕ → Option Dfa → Option (ℕ × Dfa)
add_dfa_state states none = none
add_dfa_state states (some d) = some (
  d.fresh,
  record d {
    heap = put d.fresh (record { states = states; next = no_next; is_match = false }) d.heap;
    fresh = d.fresh + 1;
    dfa_cache = insert states d.fresh d.dfa_cache;
  },
)

unfoldable pub get_dfa_state : List ℕ → Option ℕ → Dfa → Option (ℕ × Dfa)
unfolding flush_cache
get_dfa_state states keep d = elim (find states d.dfa_cache) [
  | some id ↦ some (id, d)
  | none ↦
      add_dfa_state states (if leb 256 (length d.dfa_cache) then flush_cache keep d else some d)
]

abbrev pub started : Option (ℕ × Dfa) → Option (ℕ × Dfa)
started none = none
started (some (id, d)) = some (id, record d { dfa_start_state = some id })

abbrev pub start_on : Stepped → Dfa → Option (ℕ × Dfa)
start_on none d = none
start_on (some (n, ps, b)) d = started (get_dfa_state ps none (record d { nfa = n }))

unfoldable pub get_dfa_start : Dfa → Option (ℕ × Dfa)
unfolding get_dfa_state
get_dfa_start d = elim d.dfa_start_state [
  | some id ↦ some (id, d)
  | none ↦ start_on (get_start_states d.nfa) d
]

-- `current_state->next[c] = ...` and `current_state->next[c]->isMatch = isMatchState`
abbrev pub set_match : ℕ → Bool → Dfa → Option (ℕ × Dfa)
set_match id b d = elim (d.heap id) [
  | none ↦ none
  | some st ↦ some (id, record d { heap = put id (record st { is_match = b }) d.heap })
]

abbrev pub set_next : ℕ → ℕ → ℕ → Bool → Dfa → Option (ℕ × Dfa)
set_next cur c id b d = elim (d.heap cur) [
  | none ↦ none
  | some st ↦ set_match id b (record d {
    heap =
        put cur (record st { next = λ (j : ℕ). if nat_eq j c then some id else st.next j }) d.heap;
  })
]

abbrev pub link_on : ℕ → ℕ → Bool → Option (ℕ × Dfa) → Option (ℕ × Dfa)
link_on cur c b none = none
link_on cur c b (some (id, d)) = set_next cur c id b d

-- the successor by a byte that was not read here before
abbrev pub build_next : ℕ → ℕ → Stepped → Dfa → Option (ℕ × Dfa)
build_next cur c none d = none
build_next cur c (some (n, ps, b)) d =
    link_on cur c b (get_dfa_state ps (some cur) (record d { nfa = n }))

-- a round of the loop of `match`
unfoldable pub read_byte : ℕ → ℕ → Dfa → Option (ℕ × Dfa)
unfolding get_dfa_state
read_byte c cur d = elim (d.heap cur) [
  | none ↦ none
  | some st ↦ elim (st.next c) [
    | some id ↦ some (id, d)
    | none ↦ build_next cur c (step st.states c d.nfa) d
  ]
]

unfoldable pub read_text : Text → ℕ → Dfa → Option (ℕ × Dfa)
unfolding read_byte
read_text [] cur d = some (cur, d)
read_text (c ∷ s) cur d = elim (read_byte c cur d) [
  | none ↦ none
  | some (id, d') ↦ read_text s id d'
]

-- `return current_state->isMatch`
abbrev pub answer : Option (ℕ × Dfa) → Option (Bool × Dfa)
answer none = none
answer (some (cur, d)) = elim (d.heap cur) [ none ↦ none | some st ↦ some (st.is_match, d) ]

abbrev pub match_from : Text → Option (ℕ × Dfa) → Option (Bool × Dfa)
match_from s none = none
match_from s (some (cur, d)) = answer (read_text s cur d)

unfoldable pub dfa_match : Text → Dfa → Option (Bool × Dfa)
unfolding get_dfa_start read_text
dfa_match s d = match_from s (get_dfa_start d)
