-- ===== src/Lib.antt =====
-- A verification library for Fleet, the web front end of the Prime Agent daemon: the server
-- (web/server/src), the wire protocol (web/protocol/src) and the browser application (web/app/src).
--
-- How the parts meet. The server holds one connection to the daemon. Frames that arrive on it pass the
-- sequence-gap tracker, are mapped to stream events, are kept in a ring for clients that reconnect, and
-- go to the browser, where one reducer folds them into the transcript. Questions of the agent wait in
-- the registry of pending dialogs until the browser answers them. The catalog of models and the tree of
-- a session are read from the daemon on request.
--
-- The files and the code they model:
--   Prelude              what the parts share: Boolean tests on numbers and texts, lists by native
--                        length, changes at an index, a JavaScript Map as an association list (Dict),
--                        a Map from numbers (NatMap), a JSON value (Json), the operations of String
--                        that the code uses (Text), and decimal numerals (Text/Decimals).
--   Ring                 web/server/src/ring-buffer.ts, the class RingBuffer: push, clear and
--                        replay_since over slots that are reused; Ring/Log is the plain list of all
--                        events, to which Ring/Refinement relates the ring.
--   Dialogs              web/server/src/pending-dialogs.ts, the class PendingDialogRegistry: open_dialog,
--                        answer, cancel, cancel_all, and the timer's callback (expire). A promise is an
--                        entry of a table, a step is one call or one run of a timer.
--   SequenceGap          web/server/src/daemon-sequence-gap.ts: observe reads a JSON frame (view) and
--                        handle changes the position of its session and reports a gap.
--   ModelCatalog         web/server/src/model-catalog-cache.ts: readModelCatalogSnapshot,
--                        loadModelCatalog and invalidateModelCatalog as steps of a system of callers
--                        that share one refresh.
--   RefreshQueue         web/server/src/coalescing-refresh-queue.ts for one key: request, clear, the end
--                        of a refresh and the callback that forgets a run, each a step.
--   SessionTree          web/server/src/session-tree-mapper.ts: the active branch (walk), the index of
--                        messages (Context), and the snapshot and its lookup (Shown).
--   Chat                 web/protocol/src/chat-types.ts and chat-protocol.ts, the transcript's data;
--                        Chat/Parts and Chat/Reasoning are
--                        web/app/src/components/chat/chat-message-helpers.ts; Chat/Merge,
--                        Chat/InFlight and Chat/Stream are chat-stream-state.ts beside it, from
--                        reconcileAssistantId to applyChatStreamEvent.
--   ProjectRegistry      web/server/src/project-registry.ts, the class ProjectRegistry once it is loaded;
--                        the file system is an argument of its calls.
--   PlanState            web/app/src/components/chat/plans/plan-state.ts; PlanState/Part is the part
--                        that shows a plan.
--   EventMapper          web/server/src/event-mapper.ts: the state of a session's mapper. Core is
--                        mapCoreAgentEvent, and Stream, Episodes, Tools, Finalize and Remember what it
--                        calls; ToolResults is the reading of results in transcript-hydrator.ts beside
--                        it. Rlm is computeRlmExecutionTree. The files of Lives and of Rlm are proofs.
--   DaemonSocket         web/server/src/daemon-socket-client.ts, the class DaemonSocketClient: its
--                        buffer and the framing by lines (Lines), the frames that the protocol of
--                        daemon-protocol.ts accepts (Frames), and requests, their timers and the events
--                        of the socket as steps (Connection).
--
-- Conventions. A class is a record of its fields and a method a function from the old state to the new
-- one, with what it returns beside it. A field that may be absent is an Option, and `a ?? b` is or_else.
-- What is asynchronous is cut at each await: a run is a list of steps in the order in which they happen,
-- and the theorems quantify over every such list. A clock is a number that a step is given. Numbers are
-- natural; a sequence, a revision or a time that is negative or fractional does not occur in the frames.
-- Texts are sequences of code points, where the source counts UTF-16 units.
--
-- Bounds. Loops are structural recursion on the list or the tree that they walk, but for three. The decimal
-- numerals of Prelude/Text get one more step than the number counts. The search for a free content index
-- (EventMapper.Episodes.next_unclaimed) gets one more step than there are indexes in use. The walk over the
-- RLM tree (EventMapper.Rlm.depths) gets a round for each id in the lists of the root and of the nodes.
--
-- Not modelled: the bridge and the daemon's runtime (web/server/src/prime-bridge.ts, daemon-runtime.ts,
-- fleet-daemon-connection.ts), in the mapper the session events, the presentation with its artifacts and
-- the user's bash, in the socket's client the promise that connect shares and a write of an
-- acknowledgement that throws, in the registry of projects a call that overlaps with another, the
-- hydration of stored transcripts, the schemas that Zod checks, the route handlers, and the React
-- components and hooks. They are effects on sockets, files and the DOM around the parts above, or wait
-- for a later extension of the library. The names of tools, the envelope of an error and the messages of
-- the runtime are an argument of the mapper (Hydrator), and JSON.parse one of the socket's client.
pub mod Prelude
pub mod Chat
pub mod DaemonSocket
pub mod Dialogs
pub mod EventMapper
pub mod ModelCatalog
pub mod PlanState
pub mod ProjectRegistry
pub mod RefreshQueue
pub mod Ring
pub mod SequenceGap
pub mod SessionTree
