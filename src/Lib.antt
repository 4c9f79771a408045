-- ===== src/Lib.antt =====
-- LuaExt is a PHP extension that runs Lua scripts in a sandbox with limits of memory, time and
-- output. This library models parts of it that decide whether those limits hold.
--
-- src/luaext_alloc.c counts every byte on a script's behalf: the Lua heap through the allocator
-- that it hands to Lua (`luaext_lua_alloc`), and what the other subsystems hold for the script
-- through `luaext_alloc_charge` and `luaext_alloc_discharge`. src/luaext_output.c keeps what a
-- script prints, charges its buffer to that accounting, and streams to the host's callback.
-- src/luaext_vfs_path.c makes one canonical form of every path that a script names, before a file
-- system backend of the host sees it. src/luaext_seal.c seals bytecode with a checksum or under a
-- key and opens only what it has sealed. src/luaext_watchdog.c bills the script's time, and
-- raises an interrupt that the interpreter polls when a budget is spent; one thread serves all
-- sandboxes, from a heap of the times at which each wants to be looked at. src/luaext_vfs.c and
-- src/luaext_iolib.c give a script files of a backend of the host, under limits of files, of
-- operations and of bytes, and charge the buffers to the memory accounting.
-- src/luaext_convert.c copies values between Lua and PHP, bills what a script makes PHP hold, and
-- keeps the slots of Lua's registry by which the host holds on to a Lua value. src/luaext_require.c
-- loads modules, under limits of how many and how deep. src/luaext_defer.c queues the PHP references
-- that Lua's collector may not release itself.
--
-- The files:
--   Base: names and lemmas that all share; Base.Sizes are the machine words, and Base.Budget is what
--     a subsystem sees of the memory accounting, with its laws.
--   Alloc: src/luaext_alloc.c. `Alloc` is `luaext_alloc` of src/luaext_types.h, and each function is
--     the definition that its comment names. Alloc.External is the world outside: the C and Zend
--     allocators, PHP's memory limit and `lua_gc`. Alloc.Tuning are the collector's tiers.
--     Alloc.Session is Lua, the host side and the host's settings over time, as a list of requests.
--     Alloc.Counters, Blocks, Charges, Ledger, Ceiling, Collector and Headroom are the proofs, and
--     Alloc.AsBudget gives the accounting as a Base.Budget.
--   VfsPath: src/luaext_vfs_path.c, on lists of bytes. VfsPath.Split is a reference that splits a
--     path at its separators; Names, Canonical, Roundtrip and Meaning are the proofs.
--   Output: src/luaext_output.c. Output.Buffer is the sink of src/luaext_types.h with the buffer and
--     the choice of a chunk; Output itself reserves, calls out and flushes; Output.Write writes and
--     reads back. Output.Quiet is what is assumed of a callback that leaves the sandbox alone.
--     Output.Log is what was written since the bytes were last taken; Chunks, Delivery, Flush,
--     Reserve, Truncation, Buffered, Budgeted, ReadBack and Runs are the proofs.
--   Seal: src/luaext_seal.c and src/luaext_seal.h, sealed bytecode, on lists of bytes. The calls of
--     ext/hash on a context are the parameter `HashOps`, with the laws of Seal.Equal. Seal.Equal,
--     Opened and Keys are the proofs.
--   Watchdog: src/luaext_watchdog.c, the budgets of CPU and wall time of one sandbox, its slot. Each
--     function is one step under the slot's lock, and what the clocks answer in it is an argument;
--     the setters of the limits have two locked sections, which are apart in Watchdog.System.
--     Watchdog.Control are the owner's operations and what the thread does with an entry that has
--     surfaced; Watchdog.Steps puts them in sequence. InTime, Spent and Paused are the proofs.
--     Watchdog.Heap is the thread's heap of expiries, on a list, with the proofs Order, Rise and Sink.
--     Watchdog.System is the thread and all the slots, each function that a lock makes one step being
--     one event; between the events of the thread any owner may act. Handed, Tracked and Awake are the
--     proofs. Watchdog.Pool is the pool that slots come from, with its proof Exclusive.
--   Vfs: src/luaext_vfs.c and src/luaext_iolib.c. `Vfs` holds the file system state of a sandbox, the
--     call of a backend under its guards and the charge for a buffer, in a monad of state and errors.
--     Vfs.Files opens, closes and counts files, Vfs.Io reads, writes and seeks. The host's backend is
--     the parameter `Host`. Handles and Splice are proofs on one file; Ledger, Ledger.Steps, Counting,
--     Opening, Using, Shutting, Sweeping and Runs are those on the counters over a whole run.
--   Convert: src/luaext_convert.c. `Convert` holds the values of both sides, the errors and what is
--     outside, the parameter `Env`: Lua's heap, its stack, pending interrupts, PHP's rule for numeric
--     string keys, and proxies. Convert.ToPhp, ToLua and Refs are the code: values to PHP, values to
--     Lua, and the registry's slots. Convert.Mirror is the relation that a copy is described by.
--     Fresh, Walk, Sound, Finite, Plain, Answers, Complete and Billing are proofs on ToPhp; Pushes,
--     Back, Rows and Roundtrip on both directions; Refs.Refined and Refs.Runs on the slots.
--   Defer: src/luaext_defer.c, where a destructor is a script of what it defers and drains.
--     Defer.Measures are what a queue still holds; Drained and Ended are the proofs.
--   Require: src/luaext_require.c. A loader is a tree of its calls of require and of its writes into
--     package.loaded and package.preload, each with what it goes on with, so that it may catch errors.
--     Each push of luaext_require_call outside a protected call may find no memory. Rules is the
--     induction over loaders that Balance and Bounds share; they and Depth are the proofs.
--     Require.Search is the search for a module, by the calls of Vfs, the canonical form of VfsPath
--     and the sealing of Seal; Lua's compiler and the host's resolver are in the parameter `Setup`.
--     Vouched, Confined and Asked are its proofs.
--   Tests and Example below each part hold concrete runs.
--
-- Numbers are natural numbers with the wrap of a 64-bit `size_t` written out where the code adds
-- or subtracts. The loop over a path has as fuel one round more than the path has bytes, and
-- every round takes a byte at least. The loop that doubles a capacity has 64 rounds; a capacity
-- starts at 256, so that 56 are enough. The loop of a flush has fuel because a callback that
-- prints keeps it going; with a quiet callback every round takes a byte at least. A loop of the
-- heap has the heap's length as fuel, and every round goes one level up or down. The count of a
-- backend's files walks depths 0 to 128 of directories, the code's own bound. The loop that reads
-- a line in chunks from a backend has its number of rounds as an argument, since a backend may
-- never end a line; running out is an error of its own. A conversion recurses on the levels that
-- the depth limit leaves, and needs no fuel. A call of require has as fuel the C calls that Lua's
-- stack still has room for, and running out is Lua's own error. A drain of deferred releases has
-- as fuel how deep drains may stand in each other, which is less than the items that can come.
--
-- Not modelled: the glue to PHP's and Lua's C interfaces (calls, proxies, function objects, the
-- text of messages, errors, configuration objects), execution, interrupts, the rest of the io and
-- os libraries, Lua itself, and what is threads and clocks of the operating system (starting and
-- joining the watchdog's thread, and the timers). Of the file system, a backend that enters the
-- sandbox again, the clock that stands still during its calls, and the memory that Lua takes for a
-- handle are left out; of module loading, Lua's compiler, and a resolver that enters the sandbox
-- again. Contents of allocated blocks are not modelled: the allocators' answers are pointers.
pub mod Base
pub mod Convert
pub mod Defer
pub mod Alloc
pub mod VfsPath
pub mod Output
pub mod Seal
pub mod Require
pub mod Watchdog
pub mod Vfs
