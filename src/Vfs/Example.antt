-- ===== src/Vfs/Example.antt =====
-- A backend to evaluate src/luaext_vfs.c against: it holds one file, whatever its name.
use lua_ext.Base.{Bool, true, false, Option, none, some, List, [], ◌∷◌, length, take, drop, pos}
use lua_ext.Alloc.{Memory}
use lua_ext.Alloc.AsBudget.{alloc_budget}
use lua_ext.Alloc.Example.{example_host, small}
use lua_ext.Vfs.{Bytes, Reply, answers, declines, Host, Env, Sandbox}
use lua_ext.Vfs.Io.{splice}

abbrev pub File : Type 0
File = Option Bytes

abbrev pub if_there : {A : Type 0} → (Bytes → A) → File → Reply A × File
if_there f none = (declines true, none)
if_there f (some b) = (answers (f b), some b)

abbrev pub exists_file : File → Bool
exists_file none = false
exists_file (some b) = true

abbrev pub file_bytes : File → Bytes
file_bytes none = []
file_bytes (some b) = b

abbrev pub one_file : Host File
one_file = record {
  exists = λ path f. (answers (exists_file f), f);
  read = λ path f. if_there (λ b. some b) f;
  write = λ path b f. (answers tt, some b);
  truncate = λ path n f. (answers tt, some (take n (file_bytes f)));
  stat = λ path f.
      if_there (λ b. some (record { size = some (pos (length b)); is_directory = false })) f;
  list = λ path f. (answers (some (if_named f)), f);
  read_range = λ path o n f. if_there (λ b. some (take n (drop o b))) f;
  write_range = λ path o b f. (answers tt, some (splice (file_bytes f) o b));
}
  where
    if_named : File → List (Option Bytes)
    if_named none = []
    if_named (some b) = some (b'f' ∷ []) ∷ []

abbrev pub example_env : Env (Memory example_host) File
example_env = record {
  quota = record {
    max_open_handles = 2;
    max_file_bytes = 100;
    max_total_bytes = 50;
    max_files = 3;
    max_operations = 10;
    max_path_length = 64;
    max_path_depth = 8;
  };
  max_string_length = 0;
  available = true;
  may_write = true;
  ranged = false;
  budget = alloc_budget example_host;
  host = one_file;
}

abbrev pub fresh : Sandbox (Memory example_host) File
fresh = record {
  sweeping = false;
  ops_this_call = 0;
  operations = 0;
  bytes = 0;
  open_handles = 0;
  buffered_bytes = 0;
  file_count = 0;
  file_count_known = false;
  handles = [];
  memory = small;
  backend = none;
}
