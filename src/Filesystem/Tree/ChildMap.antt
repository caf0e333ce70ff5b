-- ===== src/Filesystem/Tree/ChildMap.antt =====
-- The laws of a map for the map of an entry's children.
use gazon.Base.{◌≡◌, refl, none, some, Text, ◌==◌, text_Eq, eq_iff, if◌then◌else◌, arith}
use gazon.Filesystem.Tree.{Entry, Children, no_child, child, find_child, put_child, erase_child}

pub find_child-put_child :
    (k j : Text) (e : Entry) (cs : Children)
    → find_child j (put_child k e cs) ≡ (if k == j then some e else find_child j cs)
unfolding find_child put_child
find_child-put_child k j e no_child = refl
find_child-put_child k j e (child n d cs) =
    ground (arith, eq_iff k j, eq_iff n k, eq_iff n j, find_child-put_child k j e cs)

pub find_child-erase_child :
    (k j : Text) (cs : Children)
    → find_child j (erase_child k cs) ≡ (if k == j then none else find_child j cs)
unfolding find_child erase_child
find_child-erase_child k j no_child = ground arith
find_child-erase_child k j (child n d cs) =
    ground (arith, eq_iff k j, eq_iff n k, eq_iff n j, find_child-erase_child k j cs)
