-- ===== src/Lib.antt =====
-- A model of the agent extensions of this repository (agent/extensions), and theorems about it.
--
-- The parts, and the files that model them:
--   * Notify: agent/extensions/herdr-subagent/notifications.ts, the manager that watches spawned
--     subagents, groups the completions of a batch and reports them. Notify/Types holds its
--     records, Notify/Xml and Notify/Envelope the text of a message (with truncateForModel of
--     herdr-subagent/output.ts), Notify/State the manager's maps and the arm batches
--     (ensureArmBatch, finalizeArmBatch), Notify/Groups the groups and their timers
--     (onGroupTimeout, maybeDeliverCompletedGroup), Notify/Report what becomes of a report
--     (processExternalResult, processCompletion), Notify/Watchers the watchers (installWatcher,
--     arm, release), Notify/Manager the public calls, the timers and the events as one step
--     function, Notify/Inspection the read receipts (normalizeReportText, beginInspection), and
--     Notify/Poll the loop of waitForNotificationState. Notify/Members is about the members of a
--     group and their reports, Notify/Delivery and Notify/Waiting about when they are sent.
--   * Registry: herdr-subagent/store.ts (findEntry, findEntryForPane, matchEntriesToAgents),
--     pane.ts (the candidates of a target), subagent-name.ts, schemas.ts and overview.ts
--     (buildOverview; Overview/Render is renderOverview). Registry/Directory is the directory of the entry files, Registry/Reserve
--     the steps of reserveEntry, Reserve/Race two of its runs in turns, and Registry/Store the other
--     operations on the files (finalizeEntry, listEntries, the sweep, the migration).
--   * Coordinator: herdr-subagent/completion.ts, which runs an action and arms, cancels or releases
--     its watcher. Coordinator/Arms holds the arm files of subagent-rpc.ts, Coordinator/Types the
--     data, Coordinator/Input runInput, and Coordinator/Execute reconcile and execute.
--   * Models: herdr-subagent/model-resolver.ts, which finds the model that a reference names.
--   * Lsp: lsp/permissions.ts, the file of the permissions and the store over it.
--   * Relay: web-herdr-relay/normalization.ts. Relay/Text bounds and redacts texts, Relay/Extract and
--     Relay/Message read one message, Relay/Collapse its markers, Relay/Collect the entries of a
--     branch, and Relay/Branch makes the snapshot.
--   * SmartContext: smart-context/history.ts (historyItems, queryHistory) and checkpoint.ts
--     (readCheckpoint, requireCheckpoint, recoverySeed).
--   * Statusline: statusline/core/layout.ts with the segments of segment.ts, and the store of
--     state.ts. Statusline/Features holds the states of the features (repository, mcp, fable and lsp,
--     each in its state.ts).
--   * Sanitizer: tool-result-sanitizer.ts.
--   * Prelude: names that all modules share, lists and texts over native numbers, and JavaScript's
--     Map and Set as lists in insertion order (Prelude/Keys compares the two); Prelude/Sort is about
--     Array.sort, Prelude/Json JSON values, and Prelude/Regex a matcher
--     that backtracks, for the regular expressions of the sources.
--
-- How they interact: the tools of herdr-subagent spawn a subagent, put its entry in the registry
-- and, through the coordinator, arm the manager of Notify; the overview is built of the registry
-- and the live agents.
-- The session's branch is what SmartContext reads, and what it adds is a custom entry of it.
--
-- How the code is written here:
--   * a string is the list of its UTF-16 code units, as JavaScript measures and cuts it;
--   * numbers are natural numbers. Where the source subtracts, it does so under a bound or takes the
--     maximum with 0, except for the clock, which is not set back;
--   * the manager's mutable maps are the fields of one record that each call takes and returns. The
--     messages sent to the session are the list `sent`. A timer, a controller and a promise are
--     numbers that are handed out in order; the callback of a timer is data, kept until it fires;
--   * the group identifier `arm-batch-N` is N;
--   * the events of Notify/Manager come in any order, so a theorem about a run covers the
--     interleavings of the tools, the timers and the watchers;
--   * the truncation and the number formats of the libraries are the record `Env`, a parameter, and
--     `Date.parse` is a parameter of the overview;
--   * the widths and the truncation of the terminal library and the theme are the record `Terminal`,
--     a parameter of the layout; what its theorems rely on stands among their hypotheses;
--   * a file is the value that its text decodes to, and a fault of the file system is an argument of
--     the operation that it strikes. Two runs that share files take their steps in the order of a
--     list of turns;
--   * what an action does to a pane is an argument of the coordinator: how far the action gets, what
--     fails of it, and what the manager meets in the meantime;
--   * a JSON text stands for its value; an object's fields come in the order of `Object.entries`, and
--     no key is `__proto__`. A number other than a natural one is `other_number`;
--   * `localeCompare` is a parameter of the listing of the registry. What the relay takes from the
--     runtime (dates, JSON texts, hashes, the decimal notation) is the record `Runtime`, and the
--     JSON lengths are the record `Sizes`;
--   * the score of a model is an exact fraction, where the source has a floating-point number;
--   * the matcher of regular expressions takes its own text as fuel, one unit more than its length;
--   * a function that polls or follows pages takes the list of what it reads, or fuel: one unit
--     more than the text that is left to read, or one for each segment of the status line.
--
-- Not modelled: sockets, the text form of files, the terminal client, the text of the tools'
-- descriptions, the five replacements of assistantErrorMessage that take credentials out of a
-- message (a field of `Runtime`), and the extensions that only call the host's interface.
pub mod Prelude
pub mod Notify
pub mod Registry
pub mod SmartContext
pub mod Statusline
pub mod Sanitizer
pub mod Models
pub mod Lsp
pub mod Coordinator
pub mod Relay
