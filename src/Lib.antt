-- ===== src/Lib.antt =====
-- stitch-editor: the deterministic core of a video editor.
--
-- A project holds assets, tracks and clips (crates/contracts). A typed command is applied to it by
-- `reduce`, which gives a new project or an error. The editor's history (crates/editor-core) keeps
-- one revision for each applied command, with a hash chained over the commands, and a cursor that
-- undo and redo move. The project store (crates/project-store) keeps the log of commands in a SQLite
-- database behind one worker, and replays it when it is opened. A C interface (native/c-abi) hands cores, snapshots, diffs and frame leases
-- to native code as numbered handles. Times are exact rationals that a tick adapter rounds.
--
-- Files:
--   Prelude, Prelude/*: the names all files share, Rust's Result, integers, lists measured in
--     native numbers.
--   Time/Gcd, Time/Rational, Time/Range, Time/Adapter: `gcd`, `Rational`, `TimeRange`,
--     `adapt_absolute` and `adapt_absolute_sequence` of crates/contracts/src/lib.rs, each with its
--     proofs in the folder of its name.
--   Wire/Bytes, Wire/Encode, Wire/Reader: byte strings, the `write_*` functions and `Reader` of the
--     same file.
--   Ids, Model/Command: the ids, `ModelError`, `Command` with `canonical_bytes` and
--     `from_canonical_bytes`.
--   Model/Project, Model/Project/*: `Project`, its accessors, `reduce`, one function for each of
--     its branches, `canonical_bytes`, `semantic_digest` (Encode), `from_canonical_bytes`
--     and `validate` (Decode, Validate); Steps and Refusals have `reduce` and its
--     errors as relations, View what can be looked up in a project.
--   History, History/*: `EditorHistory` of crates/editor-core/src/lib.rs and `revision_hash`;
--     Timeline is the abstract machine, Refinement relates the two.
--   Store, Store/*: crates/project-store/src/lib.rs. Database has its tables and what its SQL
--     statements ask of them and make of them, Host the calls on rusqlite and the file system,
--     Commit `receipt` and `commit`, Maintenance `persist_snapshot`, `checkpoint` and `compact`,
--     Replay the loop of `restore`, Restore the rest of it, Open `open_state`, Archive `archive`,
--     Worker `ProjectStore` and `worker_main`. Log is what the tables hold after commits: one
--     revision and one receipt for each, and snapshots that agree with them.
--   Abi, Abi/*: native/c-abi/rust/src/lib.rs. Types has its structs and enums, Process the statics
--     and the helpers (`header`, `core`, `ffi`), Convert `command`, Handles `retain` and `release`,
--     Core and Batch the calls on cores, Lease those on frame leases. An exported function is a
--     function of the process state that gives the new state, what it stored behind its output
--     pointer, the detail and the result. Calls has them as one type of calls.
--   Crates/Im: the `im` crate's OrdMap and Vector and sha2's digest, which are not in the
--     repository, as interfaces with the laws their documentation states; Crates/SortedMaps is an
--     instance, used by the tests.
--
-- Integers are exact where the source checks for overflow; the widths are written out: `try_i64`
-- and `try_i128` are the source's conversions, and i128 sums and products are exact integers.
-- `gcd` recurses on accessibility of `<`, readers and loops on their lists; nothing runs on fuel.
-- Vector lengths and cursors are unbounded, as no vector holds 2^64 elements.
--
-- In the C interface a null pointer is `none` or `false`, calls run one at a time so that locks are
-- free and not poisoned, and panics do not occur; the thread that calls is a parameter. The layout
-- assertions of the structs are kept as the sizes that headers are compared with.
--
-- The store's SQLite is a parameter: a statement on the tables is a function of them that the
-- host runs or refuses, a transaction keeps what it found until it commits, and a drop restores it.
-- `IsSound` is the world in which no call fails; nothing is asked of it where it is not named. The
-- worker takes one piece of work after the other, so a run is a list. Sequences are numbers
-- below 2^63 where a revision is added. The channel's capacity, threads and the time of answers are
-- left out, and a snapshot is readable where its bytes decode to a project of its digest.
-- Of the calls that only opening makes, a connection is taken to be outside of a transaction, and a
-- pragma or a `SELECT` that is read to leave the tables alone.
--
-- Not modelled: formatting of errors, the tests, and the desktop application.
pub mod Prelude
pub mod Time
pub mod Wire
pub mod Ids
pub mod Crates
pub mod Model
pub mod History
pub mod Abi
pub mod Store
