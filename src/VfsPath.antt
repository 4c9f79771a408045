-- ===== src/VfsPath.antt =====
-- src/luaext_vfs_path.c: canonicalising a virtual path. A path is the list of its bytes.
pub mod Split
pub mod Names
pub mod Canonical
pub mod Roundtrip
pub mod Meaning
mod Tests
use lua_ext.Base.{
  ℕ, zero, suc, ◌+◌, ◌<◌, Bool, true, false, not, ◌&&◌, ◌||◌, Option, none, some, List, [], ◌∷◌,
  ◌++◌, reverse, ltb, leb, ◌==◌, if◌then◌else◌, length,
}

-- `luaext_vfs_path_status`, without `LUAEXT_VFS_PATH_OK`.
pub data Refusal : Type 0 where
  empty nul escape too_long too_deep component : Refusal

-- The answer of `luaext_vfs_path_canonical`: a refusal, or what it has written to `out` in front
-- of the NUL, with `*out_len` its length. `out_of_fuel` stands for a walk that does not end.
pub data Answer : Type 0 where
  refused : Refusal → Answer
  ok : List ℕ → Answer
  out_of_fuel : Answer

-- `LUAEXT_VFS_PATH_MAX_COMPONENTS`
abbrev pub max_components : ℕ
max_components = 256

-- `luaext_vfs_path_part`: the bytes that `at` and `len` name.
abbrev pub Part : Type 0
Part = List ℕ

abbrev pub slash : ℕ
slash = b'/'

abbrev pub dot : ℕ
dot = b'.'

-- `memchr(input, '\0', input_len) != NULL`
unfoldable pub has_nul : List ℕ → Bool
has_nul [] = false
has_nul (c ∷ cs) = c == 0 || has_nul cs

-- `while (cursor < input_len && input[cursor] == '/') cursor++;`
unfoldable pub skip_slashes : List ℕ → List ℕ
skip_slashes [] = []
skip_slashes (c ∷ cs) = let rest = skip_slashes cs in if c == slash then rest else c ∷ cs

-- `while (cursor < input_len && input[cursor] != '/') cursor++;`: the bytes passed over, and the
-- rest.
unfoldable pub take_part : List ℕ → Part × List ℕ
take_part [] = ([], [])
take_part (c ∷ cs) =
    let (part, rest) = take_part cs in if c == slash then ([], c ∷ cs) else (c ∷ part, rest)

-- `length == 1 && input[start] == '.'`, and the same for two dots.
unfoldable pub is_dot : Part → Bool
is_dot (a ∷ []) = a == dot
is_dot _ = false

unfoldable pub is_dot_dot : Part → Bool
is_dot_dot (a ∷ b ∷ []) = a == dot && b == dot
is_dot_dot _ = false

-- `dots == length`
unfoldable pub only_dots : Part → Bool
only_dots [] = true
only_dots (c ∷ cs) = c == dot && only_dots cs

-- What one component does to `parts`: the components that survive, the last one first.
pub data Visit : Type 0 where
  go_on : List Part → Visit
  stop : Refusal → Visit

abbrev pop_part : List Part → Visit
pop_part [] = stop escape
pop_part (p ∷ ps) = go_on ps

-- The body of the loop, from the tests of the component on.
unfoldable pub visit : Part → List Part → Visit
unfolding is_dot is_dot_dot only_dots
visit part parts =
    if is_dot part
    then go_on parts
    else if is_dot_dot part
    then pop_part parts
    else if only_dots part
    then stop component
    else if leb max_components (length parts)
    then stop too_deep
    else go_on (part ∷ parts)

pub data Walk : Type 0 where
  done : List Part → Walk
  failed : Refusal → Walk
  no_fuel : Walk

abbrev Rest : Type 0
Rest = List ℕ → List Part → Walk

-- The way on from a visited component: the next round, or the refusal.
abbrev resume : Rest → List ℕ → Visit → Walk
resume next rest (stop r) = failed r
resume next rest (go_on parts) = next rest parts

-- One round, once the separators are skipped: it stops at the end of the input, or else takes a
-- component and visits it.
abbrev round : Rest → List ℕ → List Part → Walk
round next [] parts = done parts
round next (c ∷ cs) parts =
    let (part, rest) = take_part (c ∷ cs) in resume next rest (visit part parts)

-- The loop over the components, with fuel for its rounds.
unfoldable pub walk : ℕ → List ℕ → List Part → Walk
walk zero rest parts = no_fuel
walk (suc fuel) rest parts = round (walk fuel) (skip_slashes rest) parts

-- The loop that fills `out`: a separator and the bytes of each component, in order.
unfoldable pub write_parts : List Part → List ℕ
write_parts [] = []
write_parts (p ∷ ps) = slash ∷ (p ++ write_parts ps)

-- `max != 0 && n > max`
abbrev pub exceeds : ℕ → ℕ → Bool
exceeds n max = not (max == 0) && ltb max n

-- What follows the loop; `parts` holds the last component first.
unfoldable pub assemble : ℕ → ℕ → List Part → Answer
unfolding write_parts
assemble max_length max_depth parts =
    let out = write_parts (reverse parts) in
    if exceeds (length parts) max_depth
    then refused too_deep
    else if length parts == 0
    then refused empty
    else if exceeds (length out) max_length
    then refused too_long
    else ok out

abbrev finish : ℕ → ℕ → Walk → Answer
finish max_length max_depth (done parts) = assemble max_length max_depth parts
finish max_length max_depth (failed r) = refused r
finish max_length max_depth no_fuel = out_of_fuel

-- `luaext_vfs_path_canonical`, where `out` is not NULL and has `out_size` bytes. A length of input
-- and two more do not wrap: the input is an object in memory.
unfoldable pub canonical : List ℕ → ℕ → ℕ → ℕ → Answer
unfolding has_nul walk assemble
canonical input out_size max_length max_depth =
    let walked = walk (suc (length input)) input [] in
    if ltb out_size 2
    then refused too_long
    else if exceeds (length input) max_length
    then refused too_long
    else if ltb out_size (length input + 2)
    then refused too_long
    else if has_nul input
    then refused nul
    else finish max_length max_depth walked
