-- ===== src/Lib.antt =====
-- A workspace for agents: a fleet of live browsers that agents and a human share, a web interface that
-- shows the agents' chats and named layouts to its clients, and a policy on which processes the
-- kernel sheds first when memory runs out. This library models the Python code that decides.
--
-- Parts and files. Paths are from the repository's root.
--   Browser.Control, Browser.Ownership, Browser.Operations: the ownership of one browser
--     (`LiveBrowser` of libs/browser/src/browser/session.py). Control has the state, `write_control`,
--     `settle_queue` and the queues; Ownership has `transition`, `release`, `take_control`,
--     `return_to_agents`, `handoff` and `acquire`; Operations has the run of an agent, the lease
--     check, the two sweeps, crash, close and `run_action`. Each is one function for one section that
--     holds `_control_lock`. What is sent is the list `effects`, newest first. Browser.Trace runs
--     lists of such sections: an interleaving of coroutines is a list of events.
--   Browser.Fleet: the registry of all browsers (`BrowserSessionManager` of the same file) and
--     libs/browser/src/browser/names.py: `create`, the generated names, the two ends of a launch,
--     `close`, a crash, and the locked part of `_launch_one_restore`.
--   Oom.Bands: libs/oom_priority/src/oom_priority/bands.py. Oom.Ledger: ledger.py beside it, and
--     scripts/claude_shed_notice_hook.py (`notice_hook`). Oom.Chats: `ChatOomPrioritizer` of
--     apps/system_interface/imbue/system_interface/oom_prioritizer.py, which calls the bands.
--     Oom.Retag: `sweep_once` of libs/browser/src/browser/oom_retag.py and the backstop of
--     scripts/oom_tag_backstop.py.
--   Interface: modules of apps/system_interface/imbue/system_interface. Broadcaster: ws_broadcaster.py
--     (`WebSocketBroadcaster`). EventQueues: event_queues.py (`AgentEventQueues`). Layouts and
--     Layouts.Slugs: workspace_layouts.py. Mutex and Terminals: layout_ops.py (`LayoutMutex`, the
--     terminal names). Activity: activity_state.py. ClientActivity: client_activity.py.
--   Transcript: session_parser.py and session_watcher.py beside those. Lines cuts the bytes of a
--     session file; Event, Texts, Parser, UserMessages and Records are `parse_session_lines`; Index,
--     Watcher and Refresh are the index of `AgentSessionWatcher` and `_ensure_cache_current`;
--     Paging has the pages of the index, and Requests the bodies, the polls and the selection of
--     files. The watcher takes the parser as an argument, of which Refresh.Appending.MarksSeen says what
--     it needs; Serving puts the two together.
--   Tasks.Commands: libs/tk_command_parsing/src/tk_command_parsing/parser.py (`parse_command`,
--     `extract_create_titles`), with `classify` of scripts/claude_tk_standalone_check.py.
--   Base: dicts as association lists in insertion order, text as code points, Boolean tests, and
--     the search for a free name. The child modules of each part hold its theorems, and each
--     Examples module the instances at concrete data.
--
-- Conventions. A method that holds its object's lock is one function from the state to the state and
-- the result; an exception is a constructor of a result type. Clocks, random identities, pids and
-- the process list are arguments. Where a method has several sections with suspensions between them,
-- each section is a step of its own, or what others do between them is an argument (`run_action`,
-- `close` and `poll_file`). The puts of `AgentEventQueues.broadcast` follow its section: Overlap has
-- both as steps, of which the puts to one queue come in the order of the sections. Times are natural numbers; `next_reading` is
-- what a second reading of the clock in one section gives. A queue object is a number in place of
-- its identity. The only fuel is that of the searches for a free name, of a terminal or of a
-- browser: one round more than there are names, since each round that goes on has met another name;
-- and the cutting of lines, which has a round for each byte, since a line has a byte at least.
--
-- Parameters. Layouts take `strip_lower`, Python's `str.strip().lower()`; Terminals and the
-- fleet take `decimal`, the text of a number, of which they use that different numbers differ; the
-- fleet takes `draws`, the names that the random generator returns. The transcript takes the decoding
-- of UTF-8, JSON's reader and writer, `str`, the order `<` of values, `is_auth_error_text` of claude_auth_patterns.py, the tk verbs that
-- `parse_command` finds, and the files as each step finds them; the only
-- property of the parser that the watcher needs is proved of the parser. Tasks.Commands takes the lexer
-- `shlex` and the class `\w` of regular expressions.
--
-- Not modelled: Chromium, CDP and the screencast; HTTP routes and WebSocket handlers; reading and
-- writing of /proc and of files, whose content is kept parsed; the manifest of
-- the fleet and its profiles; the links of subagents to the calls that started them; the drivers of backup, sync and tunnels; the frontend; the vendored
-- copies of other projects.
pub mod Base
pub mod Browser
pub mod Oom
pub mod Transcript
pub mod Tasks
pub mod Interface
