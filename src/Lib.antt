-- ===== src/Lib.antt =====
-- Spawnea runs coding agents in tmux sessions on local and remote hosts and shows them in a
-- desktop workspace. This library models parts of its TypeScript code and proves what they keep
-- true.
--
-- The program. The main process of the desktop (apps/desktop/src/main) holds the sessions. A
-- terminal is a channel of the PTY broker, which takes the output of a host's stream to a window,
-- with a bound on what is in flight, and the input back. The connection of a host that is lost is
-- taken up again by the reconnection supervisor (packages/hosts). The session supervisor polls the
-- state of each session, and the notification broker tells the user of the states that ask for
-- attention. The state itself comes from the state detector (packages/state): the adapter of the
-- agent takes the lines of the terminal that are current, and the first rule that matches them
-- decides. The context of each session is a file of the session context store.
-- Agents and the command line reach the main process through the control gateway, a socket with a
-- request a line. Paths that come from an agent or a window are held inside the workspace by the
-- functions of packages/domain/src/path-security.ts.
--
-- The files.
--   Prelude, Prelude/Tests, Prelude/Lists: the names of the library that all files use, Boolean
--     tests, lists over the native numbers. Prelude/Maps: the `Map` and `Set` of JavaScript, lists
--     in insertion order. Prelude/Units: strings as UTF-16 code units, where the program walks them.
--   Pty: apps/desktop/src/main/pty-broker.ts. The state is the map of channels, each a record of
--     the fields of ManagedPty; an operation returns the new state and the effects on the stream
--     and the window, in order. Pty/Events has the events as steps; Pty/Input the filter of the
--     answers that a terminal gives by itself; Pty/Flow the bounds of what is in flight and the
--     pauses, Pty/Sent and Pty/Delivery what a window receives, Pty/Redraw the redraw after an
--     attach, Pty/Lifecycle the attach, the detach and the end of a stream.
--   Reconnect: packages/hosts/src/reconnection-supervisor.ts, with the error of
--     packages/domain/src/secret-reference.ts. An attempt that awaits the host is a suspended
--     value of the state, so other events come between its parts. Reconnect/Backoff has the delays,
--     Reconnect/Attempts the bounds of the attempts, Reconnect/Exclusion the one attempt or timer
--     of a host, Reconnect/Exhaustion the end of the retries, Reconnect/Stuck two runs against it.
--   Paths: packages/domain/src/path-security.ts, whole. A thrown error is `none`.
--     Paths/Segments has the loop over the segments, Paths/Canonical canonicalizePath,
--     Paths/Containment and Paths/Resolution resolveContainedPath in both directions and
--     assertSafeFilename, Paths/Relative relativeContainedPath.
--   Status: the states of a session of packages/domain/src/index.ts.
--   Notifications: apps/desktop/src/main/notification-broker.ts. The look-up of the session
--     suspends the call, so it is two operations. Notifications/Repeats has what is not repeated,
--     Notifications/Overlap what lets an alert through again.
--   Supervisor: apps/desktop/src/main/session-supervisor.ts. A check of a session waits at its
--     stages, and an answer makes it go on, so any events come between. Supervisor/Checks has the
--     one check of a session, Supervisor/Stops and Supervisor/Scanning what stopPolling does to a
--     check that waits for its host and to one that looks through artifacts, Supervisor/Rounds the
--     order of successive rounds.
--   ProjectPrep: packages/hosts/src/project-prep.ts, on a host that is an argument.
--     ProjectPrep/Words has the reading of an escaped argument by a POSIX shell,
--     ProjectPrep/Outcome what is reported of the commands.
--   Patterns: the regular expressions of the language, as far as the adapters use them.
--     Patterns/Rounds has that a repetition makes all its rounds, Patterns/Starts what is not found
--     by a pattern that is bound to the start.
--   Harness: packages/state/src/harness-ids.ts.
--   Rules: packages/state/src/rules/rule-config.ts, the matching and the merge of compiled rules;
--     Rules/Order has which rule wins, Rules/Lines the line that is reported.
--   Detection: packages/state/src/adapters/rule-based-adapter.ts, types.ts and registry.ts, and
--     packages/state/src/state-detector.ts: from the signals of a session to its status.
--     Detection/Signals has the signals and what the connection says, Detection/Process the names of
--     commands, Detection/Fingerprint the digest of a window, Detection/Connection the states of the
--     connection, Detection/Trimming the errors that are past, Detection/LastIndex the search for
--     the last line that passes a test.
--   Adapters: the adapters of packages/state/src/adapters that give the rules their lines:
--     Adapters/Claude, Adapters/Codex (with codexSignalLines of packages/state/src/terminal-lines.ts
--     in Adapters/Codex/Signal), Adapters/Hermes, and those of the shell and of Antigravity in
--     Adapters/Shell; Adapters/Claude/Composer is stripClaudeComposerTail of terminal-lines.ts.
--     Adapters/Claude/Turn, Adapters/Codex/Draft and Adapters/Hermes/Settled have
--     what they keep.
--   ContextStore: apps/desktop/src/main/session-context-store.ts, over a directory that is a list of
--     texts by their names. ContextStore/Effects has what a call does to the files,
--     ContextStore/Updates the revisions, ContextStore/Bounds the limit of 8 MiB,
--     ContextStore/Restore the deletion that is taken back.
--   Gateway: serveOperations of apps/desktop/src/main/control-gateway.ts, the requests of an
--     authenticated socket; Gateway/Framing has how they are cut from the stream, Gateway/Draining
--     the end of a socket that was rejected. Gateway/Auth: authenticate of the same file, with what
--     is let through in Gateway/Auth/Token and the first line in Gateway/Auth/Line.
--   Redaction: apps/desktop/src/main/catalog-redaction.ts, with the recognition of references to
--     secrets of packages/domain/src/secret-reference.ts; Redaction/Secrets has what is left.
--   The files named Tests run the definitions and apply the theorems at concrete inputs.
--
-- How the code is read. A class is a record of its fields; a method is a function that returns the
-- new record and what it does outside. A call that is awaited ends a step. Time, the identifiers of
-- windows, the answers of hosts, databases and the desktop, and `toLowerCase`, the search of a compiled rule,
-- the removal of escape sequences and the parsing and printing of files are arguments.
-- Numbers are natural numbers; a subtraction stops at 0 where the code writes `Math.max(0, …)`.
-- Two definitions run on fuel: the printer of decimal numbers, which has as much as the number, and
-- the repetition in Patterns, which has as many rounds as the text has units, and needs no more by
-- Patterns/Rounds.
--
-- What is not modelled: the session manager, the agent control service, the catalog manager, the
-- artifact manager, the adapter of Grok, the scanner of histories, and the parsers of the files and
-- the output of OpenSSH, git and tmux; logging, the dispatch of events to more than one listener,
-- the user interface, the database, the processes and files of the hosts, and the texts that
-- libraries parse. Checks that an argument has the type that its declaration gives it are left out.
pub mod Prelude
pub mod Status
pub mod Pty
pub mod Reconnect
pub mod Paths
pub mod Notifications
pub mod Supervisor
pub mod ProjectPrep
pub mod Harness
pub mod Rules
pub mod Detection
pub mod Patterns
pub mod Adapters
pub mod ContextStore
pub mod Gateway
pub mod Redaction
