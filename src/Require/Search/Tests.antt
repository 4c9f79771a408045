-- ===== src/Require/Search/Tests.antt =====
-- Runs of the search of src/luaext_require.c.
use lua_ext.Base.{
  ◌≡◌, ◌≢◌, ◌≤◌, ◌<◌, ◌↔◌, refl, sym, ap, ◌∙◌, Bool, true, false, not, ◌&&◌, Option, none, some,
  List, [], ◌∷◌, ◌==◌, length, if◌then◌else◌, inl, inr, arith,
}
use lua_ext.Alloc.{Memory}
use lua_ext.Alloc.Example.{example_host}
use lua_ext.Seal.{authenticated, is_sealed, seal_wrap}
use lua_ext.Seal.Example.{toys, toys-HashLaws, chunk}
use lua_ext.Vfs.{Bytes, throws, Host, Sandbox, call, charge_operation}
use lua_ext.Vfs.Example.{File, one_file, example_env, fresh}
use lua_ext.VfsPath.{
  write_parts, canonical, ok, Part, visit, walk, skip_slashes, take_part, has_nul, assemble,
}
use lua_ext.VfsPath.Split.{split, resolve}
use lua_ext.VfsPath.Canonical.{IsCanonical}
use lua_ext.Require.{name_ok, name_bytes_ok}
use lua_ext.Require.Search.{
  Setup, Resolved, provides, resolver, loaded, load_failed, unsealed, found, load_error, uncompiled,
  expand, substitute, marks, require_load, search, search_vfs, try_all,
}
use lua_ext.Require.Search.Vouched.{require_load_iff}
use lua_ext.Require.Search.Confined.{is_sound, directory}
use lua_ext.Require.Search.Asked.{AgreesAt, IsSearched, with_host, search_confined}

-- "/lib/?.lua", an entry that is no string, and "/lib/?/init.lua"
abbrev in_lib : Bytes
in_lib = b'/' ∷ b'l' ∷ b'i' ∷ b'b' ∷ b'/' ∷ b'?' ∷ b'.' ∷ b'l' ∷ b'u' ∷ b'a' ∷ []

abbrev in_folder : Bytes
in_folder = b'/' ∷ b'l' ∷ b'i' ∷ b'b' ∷ b'/' ∷ b'?' ∷ b'/' ∷ b'i' ∷ b'n' ∷ b'i' ∷ b't' ∷ []

abbrev example_paths : List (Option Bytes)
example_paths = some in_lib ∷ none ∷ some in_folder ∷ []

-- It takes bytecode, which begins with 27, only if told to, and no empty source.
abbrev toy_compile : Bool → Bytes → Bytes → Option Bytes
toy_compile binary [] name = none
toy_compile binary (c ∷ cs) name = if c == 27 && not binary then none else some (c ∷ cs)

abbrev offering : Bytes → Bytes → File → Resolved × File
offering name by f = (provides (some (name, by)) false, f)

abbrev setup : Setup File Bytes
setup = record {
  module_paths = some example_paths;
  module_resolver = resolver offering;
  can_load_bytecode = true;
  allow_raw_bytecode = false;
  max_source_bytes = 100;
  hashes = toys;
  seal_mode = authenticated;
  bytecode_key = 9 ∷ [];
  compile = toy_compile;
}

abbrev a_name : Bytes
a_name = b'm' ∷ []

abbrev holding : File → Sandbox (Memory example_host) File
holding f = record fresh { backend = f }

found_in_lib :
    ((search setup example_env a_name [] (holding (some (b'x' ∷ [])))).0 ≡ found (b'x' ∷ []))
    × ((search setup example_env a_name [] (holding (some (b'x' ∷ [])))).1.ops_this_call ≡ 2)
unfolding search search_vfs try_all expand substitute marks canonical call charge_operation
    require_load walk skip_slashes take_part visit assemble write_parts has_nul
found_in_lib = (refl, refl)

-- No file: two questions, and then the resolver's source, which is the name.
from_resolver :
    ((search setup example_env a_name [] fresh).0 ≡ found a_name)
    × ((search setup example_env a_name [] fresh).1.ops_this_call ≡ 2)
unfolding search search_vfs try_all expand substitute marks canonical call charge_operation
    require_load walk skip_slashes take_part visit assemble write_parts has_nul
from_resolver = (refl, refl)

-- Bytecode in a file is no text.
bytecode_in_file :
    (search setup example_env a_name [] (holding (some chunk))).0 ≡ load_error uncompiled
unfolding search search_vfs try_all expand substitute marks canonical call charge_operation
    require_load walk skip_slashes take_part visit assemble write_parts has_nul
bytecode_in_file = refl

raw_refused : require_load setup chunk [] true ≡ load_failed unsealed
unfolding require_load is_sealed
raw_refused = refl

-- Marks in a piece with dots make a `..` of the name ".": the path then leaves the directory.
dotted : Bytes
dotted = b'/' ∷ b'a' ∷ b'/' ∷ b'.' ∷ b'?' ∷ b'/' ∷ b'b' ∷ []

climbing :
    (name_ok (b'.' ∷ []) ≡ true)
    × (is_sound dotted ≡ false)
    × (directory dotted ≡ some (b'/' ∷ b'a' ∷ []))
    × (canonical (substitute (b'.' ∷ []) dotted) 16 64 8 ≡ ok (b'/' ∷ b'b' ∷ []))
unfolding dotted substitute canonical name_ok name_bytes_ok split resolve visit walk skip_slashes
    take_part write_parts assemble has_nul
climbing = (refl, refl, refl, refl)

sound_in_lib : (is_sound in_lib ≡ true) × (directory in_lib ≡ some (b'/' ∷ b'l' ∷ b'i' ∷ b'b' ∷ []))
unfolding split resolve visit write_parts
sound_in_lib = (refl, refl)

require_load_iff_example :
    (require_load setup (seal_wrap toys chunk authenticated (9 ∷ [])) [] true ≡ loaded chunk) ↔ (
      (setup.can_load_bytecode ≡ true)
      × ((payload : Bytes) × (seal_wrap toys chunk authenticated (9 ∷ [])
            ≡ seal_wrap toys payload authenticated (9 ∷ []))
          × (setup.max_source_bytes ≢ 0 → length payload ≤ 100)
          × (toy_compile true payload [] ≡ some chunk)))
require_load_iff_example =
    require_load_iff setup toys-HashLaws (seal_wrap toys chunk authenticated (9 ∷ [])) [] chunk refl

-- A backend that throws where the path is empty.
abbrev moody : Host File
moody = record one_file {
  exists = λ path f. if length path == 0 then (throws, f) else one_file.exists path f;
}

write_parts-some :
    (parts : List Part) → 0 < length parts → (length (write_parts parts) == 0) ≡ false
unfolding write_parts
write_parts-some [] h = absurd (omega (arith, h))
write_parts-some (p ∷ ps) h = ground arith

canonical_agrees : (path : Bytes) → IsCanonical 64 8 path → AgreesAt one_file moody path
canonical_agrees path is =
    let some_byte : (length path == 0) ≡ false =
      ap (λ (t : Bytes). length t == 0) is.written ∙ write_parts-some is.parts is.some_part in
    (ap (λ b f. if b then (throws, f) else one_file.exists path f) (sym some_byte), refl)

searched_agrees : (path : Bytes) → IsSearched 64 8 example_paths path → AgreesAt one_file moody path
searched_agrees path (inl (is, under)) = canonical_agrees path is
searched_agrees path (inr (inl (is, under))) = canonical_agrees path is
searched_agrees path (inr (inr never)) = absurd never

search_confined_example :
    search setup example_env a_name [] fresh
    ≡ search setup (with_host example_env moody) a_name [] fresh
unfolding name_ok name_bytes_ok split
search_confined_example =
    search_confined setup example_env moody example_paths a_name [] fresh refl refl refl
      searched_agrees
