-- ===== src/FilePath.antt =====
-- src/common/path.cpp and include/common/path.h: paths as lists of parts, with the cached string.
-- The parts stand in the order of `m_parts`, so `back` and `pop_back` work at the end of the list.
pub mod Normal
pub mod Traversal
pub mod Strings
pub mod Clean
use gazon.Base.{
  ℕ, zero, suc, ◌+◌, ◌-◌, ◌≡◌, Bool, true, false, not, ◌&&◌, ◌||◌, List, [], ◌∷◌, ◌++◌, Option,
  none, some, Text, codes, length, take, char_at, nat_eq, ltb, ◌==◌, text_Eq, if◌then◌else◌,
}
use gazon.Scan.{contains_byte, split_string}

abbrev pub slash : ℕ
slash = 47

abbrev pub dot : Text
dot = codes "."

abbrev pub dot_dot : Text
dot_dot = codes ".."

abbrev pub tilde : Text
tilde = codes "~"

pub record FilePath : Type 0 where
  pub parts : List Text
  pub is_absolute : Bool
  pub string : Text

-- `m_parts.size()`
unfoldable pub size : FilePath → ℕ
size p = length p.parts

-- `length()` is of the cached string
unfoldable pub string_length : FilePath → ℕ
string_length p = length p.string

-- What `snprintf` prints for a format and the one argument 42. The output for a format with no
-- conversion is the format; any other is the C library's.
pub record Printf : Type 0 where
  pub formatted : Text → Text
  pub formatted_plain : (f : Text) → contains_byte f b'%' ≡ false → formatted f ≡ f

-- A C string ends at the first NUL.
unfoldable pub c_str : Text → Text
c_str [] = []
c_str (c ∷ s) = if nat_eq c 0 then [] else c ∷ c_str s

-- `char name[32]; snprintf(name, 32, user, 42)`
unfoldable pub get_home : ⦃f : Printf⦄ → Text → Text
unfolding c_str
get_home ⦃f⦄ user = take 31 (c_str (f.formatted (c_str user)))

-- `m_parts.back()`, empty where there is none
unfoldable pub back : List Text → Text
back [] = []
back (p ∷ []) = p
back (p ∷ q ∷ ps) = back (q ∷ ps)

unfoldable pub pop_back : List Text → List Text
pop_back [] = []
pop_back (p ∷ []) = []
pop_back (p ∷ q ∷ ps) = p ∷ pop_back (q ∷ ps)

-- the test that lets ".." remove the last part
unfoldable pub may_pop : List Text → Text → Bool
unfolding back
may_pop parts part = part == dot_dot && ltb 0 (length parts) && not (back parts == dot_dot)

-- `reconstructStringView`, from the index `i` on
unfoldable pub string_view : ℕ → Bool → List Text → Text
string_view i absolute [] = []
string_view i absolute (p ∷ ps) =
    (if ltb 0 i || absolute then slash ∷ [] else []) ++ (p ++ string_view (i + 1) absolute ps)

unfoldable pub reconstruct_string_view : FilePath → FilePath
unfolding string_view
reconstruct_string_view p = record p { string = string_view 0 p.is_absolute p.parts }

-- One round of the constructor's loop; `user` is that of the context, if one is given.
unfoldable pub push_parsed : ⦃f : Printf⦄ → Option Text → List Text → Text → List Text
unfolding may_pop pop_back
push_parsed user parts part =
    if part == dot || part == []
    then parts
    else if may_pop parts part
    then pop_back parts
    else if part == tilde
    then elim user [
      | none ↦ parts ++ part ∷ []
      | some name ↦ parts ++ codes "home" ∷ get_home name ∷ []
    ]
    else parts ++ part ∷ []

unfoldable pub parse_parts : ⦃f : Printf⦄ → Option Text → List Text → List Text → List Text
unfolding push_parsed
parse_parts user parts [] = parts
parse_parts user parts (c ∷ cs) = parse_parts user (push_parsed user parts c) cs

-- `Path(path_str, context)`
unfoldable pub parse_path : ⦃f : Printf⦄ → Text → Option Text → FilePath
unfolding parse_parts reconstruct_string_view split_string
parse_path path_str user = reconstruct_string_view (record {
  parts = parse_parts user [] (split_string path_str slash);
  is_absolute = nat_eq (char_at path_str 0) slash;
  string = [];
})

-- The loop of `attemptParentTraversal`; it returns before `depth` is negative.
unfoldable pub traverses : ℕ → List Text → Bool
traverses depth [] = false
traverses zero (p ∷ ps) = let rest = traverses 1 ps in if p == dot_dot then true else rest
traverses (suc depth) (p ∷ ps) =
    let up = traverses depth ps in
    let down = traverses (suc (suc depth)) ps in if p == dot_dot then up else down

unfoldable pub attempt_parent_traversal : FilePath → Bool
unfolding traverses
attempt_parent_traversal p = traverses 0 p.parts

-- `addPathPart`: the new parts, and whether they changed
unfoldable pub add_path_part : List Text → Text → List Text × Bool
unfolding may_pop pop_back
add_path_part parts next_part =
    if may_pop parts next_part
    then (pop_back parts, true)
    else if next_part == dot
    then (parts, false)
    else (parts ++ next_part ∷ [], true)

-- `operator+=(const std::string &)`
unfoldable pub append_part : FilePath → Text → FilePath
unfolding add_path_part reconstruct_string_view
append_part p next_part =
    let (parts, changed) = add_path_part p.parts next_part in
    let q = record p { parts = parts } in if changed then reconstruct_string_view q else q

-- the loop of `operator+=(const Path &)` with `needReconstruction`
unfoldable pub add_parts : List Text → Bool → List Text → List Text × Bool
unfolding add_path_part
add_parts parts changed [] = (parts, changed)
add_parts parts changed (c ∷ cs) =
    let (parts', changed') = add_path_part parts c in add_parts parts' (changed || changed') cs

-- `operator+=(const Path &)`: an absolute path on the right replaces the parts and the string
unfoldable pub append_path : FilePath → FilePath → FilePath
unfolding add_parts reconstruct_string_view
append_path p other =
    if other.is_absolute
    then record p { parts = other.parts; string = other.string }
    else let (parts, changed) = add_parts p.parts false other.parts in
      let q = record p { parts = parts } in if changed then reconstruct_string_view q else q

unfoldable pub set_relative : FilePath → FilePath
set_relative p = record p { is_absolute = false }
