-- ===== src/Lib.antt =====
-- A verification library for nikki, a macOS daemon that samples what is on screen, reads the
-- histories of a browser and of a coding agent, buffers the records in SQLite and ships them to a
-- service. The daemon's parts, and the files that model them:
--
-- * Providers (src/providers) turn what they see into drafts of records and send them to the runtime.
--   Windows.antt is the window provider's handling of events (`signal` and `schedule` in
--   src/providers/windows.rs) and the input counters of src/macos/activity.rs, Windows/Samples.antt what
--   a sample holds and the records made of it (`assemble`, `visible_entries`, `tick_record`),
--   Windows/Loop.antt the loop of the provider, and Visibility.antt the visible windows
--   (src/window/visibility.rs, and the rectangles of src/macos/window_list.rs). Frontmost.antt is the
--   choice of the application in front (src/macos/window_list.rs), and Agterm.antt what is told of a
--   terminal (src/extract/agterm.rs).
--   Transcript.antt is the provider of a coding agent's history (src/providers/claude_code.rs):
--   Transcript/Drafts.antt has the records of a line, with Transcript/Messages.antt and
--   Transcript/Touching.antt, Transcript/Reading.antt the reading of a file from its cursor within a
--   budget (`read_increment`), and Transcript/Shipping.antt and Transcript/Shipping/Ticks.antt the
--   provider's own state and methods (`tick`, `pull_if_due`, `ship_file`, `cursor_for`). Providers.antt
--   has what providers send and how they are restarted (src/providers/mod.rs), RepoRoots.antt the search
--   for a repository above a path (src/providers/repo_roots.rs).
--   History.antt is one poll of the browser's history (`collect` and what it calls in
--   src/providers/browser_history.rs): pages, digests, the cursor, the generation and the revisit
--   window.
-- * Records (src/runtime/mod.rs, src/runtime/dedup.rs): Record.antt has the drafts and envelopes,
--   Record/Dedup.antt the text that is hashed for a record and `RecordDraft::into_envelope`.
-- * Redaction (src/runtime/redact.rs): Redact.antt, over the JSON values of Json.antt.
-- * The buffer (src/runtime/buffer.rs): Buffer/Sql.antt has the four tables and transactions,
--   Buffer/Evict.antt the planning and carrying out of evictions, Buffer/Operations.antt the
--   operations (`enqueue`, `take_batch`, `delete_batch`, `dead_letter`, `read_cursor`, `checkpoint`)
--   and Buffer/Serve.antt the owner thread's loop over its commands. `enqueue` redacts, numbers and
--   seals the drafts, writes them with the provider's cursor, evicts, and records an eviction.
-- * The shipper (src/runtime/ship.rs): Ship.antt has the verdict on an answer (`decide`), one shipment
--   (`ship_once`), the pace of the loop (`run`) and the draining loop (`drain`). It takes batches from
--   the buffer and deletes or buries them there; `Exchange.meanwhile` is what the buffer's thread does
--   for others between the batch being taken and the verdict being carried out.
-- * The watch on the daemon's own file (src/executable.rs): Executable.antt, over the moments at which
--   its loop wakes.
-- * The pipeline (`absorb` and `store` in src/runtime/mod.rs): Pipeline.antt, which takes the emissions of
--   the providers to the buffer and acknowledges them.
-- * The configuration (src/config.rs): Config.antt, from the parsed file to the checked values.
--
-- The source's functions keep their names; a helper that stands for an inner loop or a `match` is
-- declared beside the function that uses it. Stateful code passes its state: a transaction is a
-- function from a connection to a result and a connection, and every statement of it may fail. What
-- the daemon calls and does not implement is a parameter: World.antt has the hash, the clock's format,
-- the JSON serialiser, the URL parser, case folding and the answers of the database engine,
-- `Transcript.Externals` the JSON parser, the time parser, the hash and the text functions that the
-- reading of transcripts calls, `Transcript.Shipping.Outside` the disk, the clock, the runtime and the
-- serialisation of cursors, each call with its number,
-- `Windows.Samples.Sources` what a sample reads of the system, `Visibility.Floats` the numbers with a
-- point, `RepoRoots.Disk` paths and the disk, `Executable.Moment` the disk at one moment,
-- `Agterm.TextFunctions` the text functions of the terminal's names, and `Config.Platform` the paths,
-- the URL parser and the time parser of the configuration. A healthy world
-- is one where no statement fails and every envelope is serialised.
--
-- Numbers: sizes, row ids, counters and milliseconds of a pause are natural numbers; times are
-- integers; `usize::saturating_add` and `u32::wrapping_sub` are written out at 64 and at 32 bits.
-- Bytes of a text are natural numbers. The counter of the envelopes is unbounded: it would leave 64 bits
-- only with the envelope of number 2 ^ 64.
--
-- Fuel: `collect_pages` takes fuel for its pages, and one more than the number of rows to read is
-- enough; `drain` takes the list of the exchanges to come, and one more than the pending rows and the
-- batch size is enough; `scan_loop`, the loop of `read_increment`, takes fuel for one round more than
-- the file has bytes, and `ship_loop` is given that too: every round reads at least one byte. Every
-- other loop is recursion on a list.
--
-- Not modelled: the extraction of details but for the terminal's tree, and the threads, channels and
-- timers that join the parts; an error in the midst of reading a file that could be opened; the command
-- that pulls an import, but for the end of its errors; the calls into macOS; the HTTP client; the
-- launch agent; the command line. The wording of log lines and of configuration errors is left out.
pub mod Prelude
pub mod Json
pub mod Record
pub mod World
pub mod Redact
pub mod Buffer
pub mod Ship
pub mod History
pub mod Config
pub mod Visibility
pub mod Windows
pub mod Frontmost
pub mod Agterm
pub mod Providers
pub mod RepoRoots
pub mod Transcript
pub mod Executable
pub mod Pipeline
