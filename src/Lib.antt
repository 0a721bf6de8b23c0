-- ===== src/Lib.antt =====
-- nixadmin: a daemon that looks after a NixOS machine, its root helper, and what it remembers.
--
-- The daemon (`src/nixadmin/server.py`) takes queries from clients. A query is answered by the local
-- model or by a remote one (`src/nixadmin/routing.py`), after a redaction when it is escalated
-- (`src/nixadmin/redact.py`); or it restarts a unit (`src/nixadmin/remediation.py`), or installs or
-- removes an app (`src/nixadmin/actions.py`). Changes to the system go through the gate
-- (`src/nixadmin/safety.py`), which talks to a helper that runs as root
-- (`nix/nixadmin-helper.py`). On its own the daemon restarts failed units
-- (`src/nixadmin/autofix.py`, `src/nixadmin/autofix_engine.py`). Clients speak the messages of `src/nixadmin/protocol.py`; one of
-- them is a local web page with a server of its own (`src/nixadmin/web`). The daemon is configured by
-- its environment (`src/nixadmin/config.py`). What happened is kept in an event store
-- (`src/nixadmin/store.py`), shown page by page (`src/nixadmin/timeline.py`), and summed up in a
-- ledger (`src/nixadmin/ledger.py`).
--
-- The files:
--   Prelude      lists, dicts and equality as Python has them, results, calls with a state that may
--                raise (Exec), integers, and the texts of numbers
--   Json         JSON values, and JSON texts up to what json.loads makes of them
--   Store        both backends of the event store. Store/Sorted: the order of rows; Store/Invariant:
--                identifiers; Store/Query: what queries give; Store/Answer: what a query promises;
--                Store/Cursor: what stands below a row
--   Timeline     TimelineService. Timeline/Journal: the transitions; Timeline/Pages: the pages
--   Ledger       summarize. Ledger/Fold: its loop against counts; Ledger/Streak: the streak
--   Remediation  failed_units and restart_resolved, over a record Systemd of what systemctl and
--                journalctl do. Remediation/Verified: when a restart counts as a success;
--                Remediation/Matching: match_unit and run; Remediation/Candidates: what run offers;
--                Remediation/Systemctl: the record filled by running commands
--   Autofix      decide and AutofixEngine. Autofix/Window and Autofix/Guard: the loop guard;
--                Autofix/Episodes: the set of units that were handled
--   Protocol     the messages, encode, decode and require_compatible. Protocol/RoundTrip: reading what
--                was written; Protocol/Decode: reading any line; Protocol/Transport: the hello
--   Config       from_env, over a record Process of the environment and Python's URLs.
--                Config/Validity: what it accepts; Config/Summary: effective_summary
--   Daemon       the handlers of requests about units, on systemd as Remediation has it.
--                Daemon/Quiet: their steps; Daemon/Ends: how they end; Daemon/Live: which units they
--                restart; Daemon/Wire: their messages as JSON; Daemon/Serve: which handler takes a line
--   Web          the local view. Web/Security: its gate, with Origin below it; Web/Requests: its checks,
--                with Bounds; Web/Session: a query with its threads, with Tracks and Answers for the
--                answers that it sends and Prompts for its prompts; Web/Server: its guard and
--                the open queries, over a record Platform of the libraries and the daemon's client;
--                Web/Handlers: GET and POST, with Gate, Reach and Bounded
--   Safety       SafetyGate and SessionState, over a record Outside of the helper's answers, the
--                person's and the clock. Safety/Gated: what precedes a switch
--   Sessions     SessionRegistry. Sessions/Isolation: whose tests a session's state shows
--   Registry     load_modules. Registry/Names: names and `seen`; Registry/Loading: which are loaded
--   Sdk          fetchers, monitors and modules. Sdk/Tools: the tools that are offered
--   Agent        the remote chain: the loop of remote.run with run_tool and _call_tool, over a record
--                Platform of the model, the parser of JSON, the scrub and the commands. Agent/Guarded:
--                what the model can make the machine do; Agent/Answers and Agent/Paired: the
--                conversations; Agent/Ended: how the loop goes on
--   Dclient      web/dclient.py, over what a socket gives. Dclient/Answered: reading the daemon's
--                messages; Dclient/Told: a restart from the view to the daemon and back
--   Helper       the requests to the root helper and its answers, over a record Machine of what the
--                commands do. Helper/UnitName: the pattern of unit names; Helper/Requests: what is
--                started; Helper/Answers: what the gate reads of an answer
--   Actions      run_app_action, over a record Host of the validation, the person, the switch and the
--                rollback. Actions/Editor: edit_packages; Actions/Careful: what precedes a write;
--                Actions/Rollback: what is left in the file
--   Routing      resolve_desired_chain and resolve. Routing/Laws: what is decided when
--   LocalModel   llm/local.py and _suggest_package, over a record Ollama of the bodies that it replies
--                with. LocalModel/Choices: what a reply can lead to; LocalModel/Stream: summarize
--   Tasks        the tasks of a connection, as events of the loop. Tasks/Orderly: what its table
--                of queries holds; Tasks/Current: which query a cancel reaches
--   Prefetch     prefetch.py, over what each command gives. Prefetch/Grounding: its length, and when it
--                is blank
--   Tray         the tray's DaemonClient, as events of the loop. Tray/Settled and Tray/Sound: its
--                futures; Tray/Replies: where replies come from
--   Effects      what a query does, a record Env of the models, the person and the write tiers, and
--                the redaction
--   Dispatch     from _dispatch to _run_remote. Dispatch/Names: _summarize_removed; Dispatch/Lawful and
--                Dispatch/Consent: what leaves the device; Dispatch/Ended and Dispatch/Terminal: how
--                a query ends
--   Connections  the confirmations of a ClientConn, as events of its connection.
--                Connections/Confirmation: where a yes comes from
--   Observability  OperationalState. Observability/Suppression: repeated warnings, and memory
--   Tests        the theorems at concrete data
--
-- How the model reads the code. Times are natural numbers of microseconds, and the clock reads the
-- same throughout one call. SQLite is a list of rows with the AUTOINCREMENT sequence; a flag says
-- whether its statements raise, in which case the store logs and gives its empty answer. The columns
-- are Python's values, and a metadata column is the print of a JSON object, the null value, or a text
-- that does not parse. The packages file is the text that read_text gives. Python's sets are lists of
-- which only membership is used, walked in the order of insertion. A query's
-- effects are a list, the newest first, which every answer of the environment may depend on; each answer of a model is its chunks and the exception after them, if one is raised.
-- The gate's journal of prompts and requests is kept for the theorems only. A client that leaves
-- before an answer's end is a reader of a prefix of the messages. Messages to the log are left out,
-- and the text of a refusal shows the unit without Python's escapes.
--
-- A message of the protocol is its class with JSON values, since decode checks no types; a handler's
-- messages are typed. A session of the local view is a state on which an event is one step of one of
-- its threads, and a list of events an interleaving. int() reads the digits of ASCII.
--
-- No fuel is used but in the print of a number, where the number itself is enough. Not modelled: the
-- regular expressions other than the helper's and the editor's, the validation in a worktree, sockets,
-- HTTP, locks and deadlines, the background loops, the contents of modules and their context, the models
-- themselves, and the other clients.
pub mod Prelude
pub mod Json
pub mod Store
pub mod Ledger
pub mod Timeline
pub mod Remediation
pub mod Autofix
pub mod Safety
pub mod Helper
pub mod Routing
pub mod Effects
pub mod Dispatch
pub mod Actions
pub mod Observability
pub mod Connections
pub mod Tasks
pub mod Sessions
pub mod Registry
pub mod Sdk
pub mod Agent
pub mod LocalModel
pub mod Protocol
pub mod Config
pub mod Daemon
pub mod Dclient
pub mod Prefetch
pub mod Tray
pub mod Web
mod Tests
