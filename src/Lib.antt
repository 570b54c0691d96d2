-- ===== src/Lib.antt =====
-- Samgita: the Python programs that keep its Codex integration honest.
--
-- The platform drives the native Codex app-server. The Python code around it is modelled here, each
-- program in a folder of this library.
--
-- * Stdio, of apps/samgita_codex_driver/priv/stdio_owner.py: the helper that owns the native process on
--   behalf of the driver. Stdio/Reaping has reap_descendants (reap_until is its loop), Stdio/Group has
--   child_exited and terminate_child_group (await_exit is its wait loop), Stdio/Owner has the threads of
--   main: copy_input is input_reads and input_writes, copy_output is output_reads, the main thread is
--   main_step and main_ends, acknowledge_cleanup is acknowledge. One thread's turn is an Event; `run` takes
--   any sequence of them, so a theorem on `run` holds for every interleaving.
-- * CrashTail, of scripts/codex/ordinary_crash_tail_controller.py: the controller that kills the native
--   process of a run and may kill nothing else. CrashTail/Proc has facts, argv, homes and the reading of
--   /proc; CrashTail/Spec has the World, the reading of the spec and the checks before a process is
--   opened, CrashTail/Checks the checks of run in the order of the source, CrashTail/Run the rest of run. The
--   World answers every read of a process on its own, so processes may die or be replaced between any two
--   reads, and a descriptor of pidfd_open stands for the process that it was opened for, whatever has its
--   pid later.
-- * Inventory, of scripts/codex/inventory.py: the manifest of what the integration must implement.
--   Inventory/Variants has matching_variant, Inventory/Contracts and Inventory/Walk have schema_contracts
--   and its walk, Inventory/Progress has merge_progress, Inventory/Gate has the checks of main. They work
--   on the values of json.loads, in Json and Json/Equality; Inventory/Access has Python's accesses to them,
--   with the exceptions.
-- * Ordinary, of scripts/codex/check_ordinary.py: the runner of the reviewed selection of tests.
--   Ordinary/Files and Ordinary/Selection have the planned commands, Ordinary/Child has run_step,
--   Ordinary/Counts has check_test_count, Ordinary/Execution has execute.
-- * Release, of scripts/release.py: Release/Version has version_parts and release_channel,
--   Release/Declarations what the regular expression VERSION finds and VERSION.sub writes,
--   Release/Replace str.count and str.replace, Release/Changes has version_changes, and Release/Staging
--   prepare.
-- * Rust, of scripts/codex/generate_gates.py: Rust/Bodies has body_end, Rust/Fields has field_type and camel,
--   which extract uses on the pinned Rust sources.
-- * Input, of scripts/codex/generate_input_semantics.py: Input/Reach has request_methods, with what its search
--   finds.
-- * Frames, of scripts/codex/isolated_remote_control_fixture.py: its WebSocket peer. Frames has frame,
--   read_exact and read_frame (in the parts headed, read_size, sized and read_body), Frames/Serving the
--   loop of websocket, Frames/Handshake its handshake. Frames/Progress has the end of the loop.
--   Frames/Headers and Frames/Masked have what a client writes, by RFC 6455. A peer is a list of Signals:
--   bytes come in pieces of any length, with timeouts between them.
-- * Legacy, of scripts/check_legacy_runtime.py: Legacy/Scan has violations and its regular expressions.
--
-- * Mcp, of scripts/codex/isolated_mcp_control_fixture.py: the peer that gives the native binary its OAuth,
--   MCP and hosted Apps servers, under a control protocol on stdin. Mcp/Fixture has the state of Fixture,
--   with record as note; Mcp/Http has reply. Of the handler, Mcp/Metadata has do_GET and do_DELETE,
--   Mcp/Oauth register and token, Mcp/Messages mcp, Mcp/Handler do_POST and handle_error, Mcp/Holds the two
--   held initialize handlers, and Mcp/Streams stream. Mcp/Config has configure, Mcp/Callback
--   complete_callback, Mcp/Native start_native, stop_native and close, Mcp/Operations and Mcp/Emit the
--   operations of control, Mcp/Control control, and Mcp/Turns the loop of main with the threads: a Turn is
--   one request up to its hold or its stream, one round of a stream, the rest of a hold, one control line,
--   or the end of a wait of the main thread, and `run` takes any list of them. Mcp/Changes has the
--   assignments that the code makes as a step relation, Mcp/Replay the machine that reads its journal.
--   Mcp/FormPeer has form_peer.
--
-- Actions has the methods of such a fixture: a state, and exceptions beside it; Actions/Maintains and
-- Actions/Safe have the rules by which an action keeps a property.
--
-- Prelude has the shared helpers. Text is a list of code points or bytes. Numbers are the native naturals;
-- Python's are unbounded, and none of the modelled code is fixed to a width.
--
-- The environment is an argument. A call of the system is a list of answers, one for each round of the loop
-- that makes it, and a loop whose list ends has not returned yet; the termination theorems say how long a
-- list is enough. Times are in hundredths of a second: the deadlines of reap_descendants and of the wait
-- loop are 100, a sleep there is 1 and one of run_step 5. The bounds max_pending (16777216) and the chunk of
-- 65536 are the source's. Loops on a text have its length as fuel, since a round takes a character; the
-- search of request_methods has the sizes of the parameters and of the definitions. The loop of websocket has
-- its rounds as fuel; one more than there are bytes to come is enough, since a round takes two. SHA-256 and the digest of a value are
-- parameters; of a digest nothing is assumed.
--
-- What is not modelled: argument parsing and printing; downloads and archives (fetch_pin and
-- fetch_standalone_pin); what a step's child does, which `execute` takes as a function of the step;
-- source_snapshot, which it takes as a function of the number of steps done; the drain of stderr, which has
-- no state; the other HTTP fixtures of scripts/codex, which feed fixed responses to the native binary; of the
-- MCP fixture the files of a run but config.toml and the journal, the headers that every reply has, and the
-- isolation of its namespace; of the remote control fixture its HTTP requests and its control lines; and the
-- Elixir applications.
-- In Mcp, Python's urlparse, parse_qs, str.split, json.loads, int and bytes.decode, and the PKCE challenge
-- (SHA-256 and base64), are fields of a record Python, of which nothing is assumed; the Python of
-- Frames/Handshake has base64, SHA-1 and str.lower; a System is what the processes and sockets do during
-- an operation. A deadline is an answer: a wait that it ends may end at any turn.
-- Simplifications: a request is one turn, but a test that it makes without the lock, that there is no
-- registration or that nothing is held, may be early, which is to say from before another thread's change
-- (Request.early), so that two threads may both pass it; numbers in JSON are integers; the digits of a
-- /proc file and of the spec are ASCII; when a spec has several faults, which of them is reported first is
-- not followed; a package.json holds an object, and the lists of a schema are lists; in Frames every send
-- succeeds.
pub mod Prelude
pub mod Actions
pub mod Mcp
pub mod Frames
pub mod Json
pub mod Input
pub mod Inventory
pub mod CrashTail
pub mod Legacy
pub mod Ordinary
pub mod Release
pub mod Rust
pub mod Stdio
