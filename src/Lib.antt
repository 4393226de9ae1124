-- ===== src/Lib.antt =====
-- The Codex desktop connector: a local HTTP server that lets an authorised caller read and steer the
-- tasks of a running Codex desktop application. It keeps one IPC session with the desktop, reads two
-- SQLite indexes that the desktop writes, and prepares project directories. It never starts a Codex
-- process of its own and never writes the desktop's data.
--
-- Parts, files and code:
--   Json, Http: the values of serde_json as data, and `HttpError` of src/main.rs.
--   Ipc: src/desktop_ipc.rs and src/desktop_events.rs. Ipc/Frame has `read_frame` and
--     `write_frame`; Ipc/Session the session's state, `send` and `close`; Ipc/Receive `receive`;
--     Ipc/Call `rpc` and `owner`; Ipc/Client `connect`; Ipc/Reading `read_metadata` and `read`;
--     Ipc/Follower `follower_checked`; Ipc/Window `recent_events`; Ipc/Lifecycle the client around its
--     session, with `status`; Ipc/Publisher the channel of events and the thread that posts them. The
--     children of each hold its theorems.
--   History: src/desktop_history.rs. History/Cursor has `Cursor`; History/Tables the tables and the
--     SQL over them; History/Paging the loop over the selected rows; History/Query `list_turns`,
--     `list_items`, `read_item` and `query`; History/Source `invoke` and `open_history`.
--   Invoke: src/desktop_invoke.rs. Invoke/Input has `input`; Invoke/Schema `validate_request`;
--     Invoke/Desktop an interface of what the requests call; Invoke/Dispatch `invoke_http`, and below it
--     the answer to a pending request with the client of Ipc in the place of the interface.
--   Text: the text functions of the standard library that the code calls, on code points.
--   Server: src/main.rs. Server/Authorization has `management_authorized`; Server/Reading
--     `read_http_request` over the list of what the stream's reads give; Server/Writing `write_json`;
--     Server/Handling `handle_connection` over an interface of what it calls; Server/Start
--     `start_server` over one of sockets.
--   Catalog: src/desktop_catalog.rs over the rows of the `threads` table: `query` and `history_source`,
--     in Catalog/Projects `project_query`, and in Catalog/Index what opens the database for them.
--   Projects: src/project_preparation.rs (Projects/Preparation), src/project_checkout.rs with
--     src/baijimu_cli.rs and src/json_compat.rs (Projects/Checkout for a directory that is there,
--     Projects/CheckingOut for one that is not, and `prepare`), over an interface of the machine
--     (Projects/Device): file system, environment, programs, JSON and URLs. A path that is not text
--     has its display where the code's `json!` would panic on it.
--   Act: steps on a state that may fail.
--   Cli: src/cli.rs (`parse_args`, `required_u64_arg`) with the case conversions of
--     src/process_runtime.rs; Cli/Options has `server_options` and the arguments of `daemonize`;
--     Cli/Run `run` over an interface of what it calls and prints.
--   Process: src/process_runtime.rs. Process/Host has what it asks of the machine and the paths;
--     Process/Token `load_or_create_management_token`; Process/Connect `connector_health` and
--     `wait_for_connector_health` over an interface of sockets and the clock; Process/Daemon
--     `daemonize` and `terminate_process` over one of programs. Process itself has the reading of a
--     health response, and the wait over a list of rounds.
--   Prelude: shared names and lemmas. Examples: runs at concrete inputs.
--
-- State and concurrency. Each lock-protected map of a session is a keyed list of the record
-- `Session`; a request's one-place channel is its entry in `mailbox`. While a call waits, the reader
-- and writer tasks and the other calls go on: a call takes the schedule of what they do, in order, up
-- to its reply or its timeout, and the theorems hold for every schedule. `receive` reads the owner of a
-- thread under one lock and stores its snapshot under another: it takes the owner table as it was read
-- and the session after what came in between, and a schedule has both kinds of frames (`frame`, where
-- nothing came in between, and `checked_before`). A wait on the condition
-- variable takes the wake-ups with the time at each; it returns nothing only where the wake-ups stop
-- before the deadline, and `read_metadata_total` shows that they need not go further.
--
-- Numbers. Counters are 64 bits wide and wrap; the theorem that needs it says that the counter has
-- not wrapped. SQLite's integers are signed. Loops are structural; following the chunks of an item
-- takes as many reads as `contents_whole` asks for. The wait for a healthy connector has 51 rounds of
-- fuel for its five seconds of 100 milliseconds a round.
--
-- Parameters. JSON parsing and printing, the printed size of a value, the comparison of doubles, the
-- clock, SQLite's json_extract, the desktop process and the file system are arguments.
--
-- Not modelled: the tokio runtime and its tasks' scheduling, threads that serve two connections at
-- once, the sessions and signals of the operating system under `spawn`, the texts of help and
-- version, and the Windows build.
mod Prelude
pub mod Json
pub mod Http
pub mod Ipc
pub mod History
pub mod Invoke
pub mod Text
pub mod Server
pub mod Examples
pub mod Act
pub mod Projects
pub mod Catalog
pub mod Cli
pub mod Process
