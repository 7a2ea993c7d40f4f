-- ===== src/Lib.antt =====
-- A model of tmux-a2a-postman, which delivers messages between agents in tmux panes: a sender leaves a
-- file in the `post` directory of its session, the daemon moves it to the inbox of the recipient or to
-- the dead letters, and both write events to a journal, from which the states shown to users are read.
--
-- Files and the code that they model:
-- - Address, Address/Codec: internal/nodeaddr/nodeaddr.go, with ValidateNodeName of
--   internal/binding/binding.go and ValidateSessionName of internal/config/config.go. Address/RoundTrip
--   is about both.
-- - Router: internal/router/router.go, ResolveNodeName of internal/discovery/discovery.go and
--   resolveRuntimeNode of internal/message/message.go. Router/Laws is about them.
-- - Filename: GenerateFilename and ParseMessageFilename of internal/message/message.go; Filename/Cutting and
--   Filename/RoundTrip are about them.
-- - Delivery/Policy: internal/message/delivery_policy.go. Delivery/World, Delivery/Inputs and
--   Delivery/Pipeline: DeliverMessage of internal/message/message.go, which asks the policy at every
--   stage. What it reads is the record World, and what it does is a list of effects in their order.
--   Delivery/Decisions, Stages, Gathering, Staging and Safety are about them.
-- - Journal, Journal/Writer, Journal/Replay: internal/journal/journal.go. The disk is a record of the
--   lease, the session and the records; Journal/Protocol is the step relation of several processes on
--   one disk, and Journal/Ordering, Consistency, Race and Fencing are about it.
-- - Projection, Projection/Paths, Projection/Mailbox, Projection/CommandApproval: the files session_events.go,
--   mailbox_state.go and command_approval.go of internal/projection, and the path checks of
--   mailbox_projection.go. Projection/Folds has the invariants of their loops, Mailbox/Counts and
--   CommandApproval/Requested and Decided what they come to.
-- - Projection/ThreadApproval, Projection/AutoPing: thread_approval.go and auto_ping_state.go there, and
--   internal/autoping/reservation.go. Their child modules are about them.
-- - Envelope, Envelope/Reading, Envelope/Policy: ParseMetadata and ResolveReplyPolicyFromMetadata of
--   internal/envelope/metadata.go. Envelope/Lines and Envelope/RoundTrip are about reading what is written.
-- - Projection/InputRequests: internal/projection/message_reply_slot_state.go, with what is opened and
--   answered in its Answering, the satisfaction of requests in Satisfied and the loop in Loop. Held,
--   Ledgers, Covered, Counts and Consistent are about the counts, Answers about who closes a request.
-- - Projection/VerdictDebt, Projection/PendingPost, Projection/BlockedReports, Projection/TaskRuns:
--   verdict_debt_state.go, pending_post_state.go, blocked_report_state.go and task_run_state.go there.
-- - Gate, Gate/Policy: internal/cli/execute_bash.go, with ResolveCommandApproverNode of
--   internal/config/config.go. Gate/Safety is about them, and joins them with the journal. Gate/Request:
--   the text that internal/cli/command_approval_delivery.go sends; Gate/Delivered is about it.
-- - Budget: internal/daemon/non_daemon_delivery_budget.go; Budget/Bounds has its reachable states.
-- - Submit: internal/projection/daemon_submit.go and internal/cli/daemon_submit.go; Submit/Waiting is about the
--   waiting for a response. Submit/Dispatch: the dispatch of requests in internal/daemon/runtime.go;
--   Submit/Dispatch/Steps has the steps of the daemon and its workers, Pops is about the pops of one inbox,
--   Serving, Coverage and Rounds about what is pending.
-- - Store: internal/store/mailbox_store.go, on a map of files. Store/Archiving and Store/DeadLetters are
--   about it.
-- - Status: internal/status/contract.go; Status/Derivation: internal/cli/session_status_severity.go.
--   Status/Derivation/Worst and Status/Derivation/Nodes are about both.
-- - Workspace, Workspace/Alias: internal/workspacetree/workspacetree.go. Workspace/Built and Resolving are about the
--   tree, Parsed, Selecting, Targets, Labels, Siblings and Offered about its aliases.
-- - Base: Go's strings as lists of bytes, maps as association lists, paths, spaces and counters.
-- The modules named Tests and MoreTests run the definitions on concrete inputs.
--
-- The journal connects the parts: the delivery records its events there, and the projections fold what
-- a replay returns. The gate reads the projection of command approvals before it runs a command.
--
-- Conventions: a Go string is a list of bytes, written `codes "..."`. Numbers are natural; the counters
-- that may fall below zero are integers. Loops are recursions on lists, but
-- for the waiting for a response and the rounds of dispatching, which take fuel; theorems say how much is
-- enough.
-- Random identifiers, the clock, the reading of times, the decoding of JSON, digests, what the delivery
-- reads of frontmatter, the inbox counter and whether a rename succeeds are arguments. Acquiring a lease
-- and appending to the journal run whole under its file lock, so that each is one step; ResolveSession and
-- OpenCurrentWriter take no lock, and are taken as one step each, since the records and the lease do not
-- depend on what is written to the session file. All these writes succeed.
--
-- Not modelled: the daemon's event loop and file watcher, the files that the status is collected from, the
-- mailbox files that a projection writes, the writing of envelopes and of the JSON of requests, the
-- configuration files, tmux, the command line and the terminal user interface, which are input and output
-- around these parts or are left for later.
pub mod Base
pub mod Address
pub mod Filename
pub mod Router
pub mod Delivery
pub mod Journal
pub mod Projection
pub mod Gate
pub mod Status
pub mod Workspace
pub mod Submit
pub mod Store
pub mod Budget
pub mod Envelope
