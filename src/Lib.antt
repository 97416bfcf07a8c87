-- ===== src/Lib.antt =====
-- Agent Cockpit: the parts of the desktop application that decide something, as executable
-- definitions with their theorems. The main process keeps a connection per project, watches its
-- files and serves diffs; the renderer shows panels; tmux and a terminal daemon run the terminals;
-- all of them speak length-prefixed JSON.
--
-- Connection models electron/main/providers/connectionMachine.ts: the record ConnectionMachine is
-- the class, and create, current, subscribe, apply, toConnecting to toReconnecting,
-- shortCircuitConnected, coalesce and isInFlight are the functions of these names; the promise that
-- an async call creates is a number. Limiter models electron/main/callback/limiter.ts in thousandths
-- of a token, so that the division by 1000 is exact; the source's floating point may round. Callback
-- is the socket by which terminals ask for files: Callback.Protocol is
-- src/shared/callback/protocol.ts over the JSON values of Tabs.Stored, Callback.Classify is
-- electron/main/callback/classify.ts with posix of node:path, and Callback.Broker is
-- electron/main/callback/broker.ts, which asks both and a bucket of Limiter for each project;
-- dispatchOpen is cut at its await into begin_open and finish_open.
--
-- Frame models src/shared/wire/frame.ts: encodeFrame, and FrameDecoder with its chunks, its count of
-- buffered bytes and its poisoned state. JSON and UTF-8 together are the parameter JsonCodec. The
-- loop of push runs on fuel, one round more than the bytes that are buffered, since every round that
-- goes on takes four bytes.
--
-- Watch models the path of a file change: Watch.Policy is src/shared/watch/policy.ts, Watch.Ingest
-- is electron/main/watch/ingest.ts, whose batches reach Watch.Hub, src/renderer/watch/hub.ts.
-- DiffCache is electron/main/providers/diffCache.ts, which the same batches invalidate through the
-- policy's classification; a Map is an association list in insertion order (Base.Maps).
--
-- Tabs is src/renderer/content/tabState.ts; Tabs.Stored reads and writes a slice in localStorage, a
-- map that takes every write, with JSON.parse and JSON.stringify as parameters. Beads is
-- src/renderer/beads/graphSelectors.ts, with Intl collation as a parameter and Array.prototype.sort
-- as a stable insertion sort; the loop up the parents runs on fuel, two rounds more than there are
-- parent edges, since every round but the last two uses up one. Patch is
-- src/renderer/content/parsePatch.ts and src/renderer/content/hunkMap.ts. Tabular is the parser of
-- src/renderer/content/tabular/tabularCore.ts; its loop over rows and its loop over fields run on
-- fuel, one round more than there are characters left, since every round but the last takes one at
-- least. FoldLines is the line search of src/renderer/content/folding/foldModel.ts; its fuel is the
-- number of lines, since every round makes the range smaller.
--
-- Codec is src/shared/tmux/codec.ts: decodeOutput runs on fuel for the characters of the payload,
-- each round takes one at least; toHex and fromHex are Codec.Hex; the chunks of a paste run on fuel
-- for its bytes and answer nothing if it were to run out, which it does not. Layout is
-- src/shared/tmux/layout.ts, on fuel for the characters of the text; numbers are read without the
-- limit of 53 bits. Control is the control-mode parser, src/shared/tmux/parser.ts, which calls both;
-- the loop of feed is a recursion on the characters, and Number with its -1 is a parameter. Session
-- is electron/main/providers/sessionManager.ts for one project: the entries of its maps, the methods
-- cut at each await, and Session.Runs with the calls in flight, which settle in any order and in any
-- way; the detail and the time of a status are left out. Rpc is
-- electron/main/providers/remote/rpcClient.ts, over Frame and the JSON values of Tabs.Stored. View
-- is src/renderer/tmux/tmuxStore.ts with src/shared/tmux/subscriptions.ts: View.Reduce folds the
-- notifications of Control, and View.Store keeps the views of the projects and the sets of sinks, by
-- address. Reaper is the sweep of electron/main/providers/sessionReaper.ts over the interface that
-- it declares of the session manager. Topology is the choice of a snapshot in
-- src/renderer/terminal/muxTopologyModel.ts.
--
-- Base holds what they share: Boolean tests and their reflection, lists and texts over native
-- numbers, and maps. The Tests module of each part runs the definitions on concrete inputs.
--
-- Not modelled: log lines, and the error messages outside Callback; the user interface; processes,
-- sockets and the file system; the Go programs cockpit-mux and remote-helper; the adjacent terminal
-- pane, which is computed in floating point.
pub mod Base
pub mod Connection
pub mod Limiter
pub mod Frame
pub mod Watch
pub mod DiffCache
pub mod Tabs
pub mod Beads
pub mod Callback
pub mod Codec
pub mod Layout
pub mod FoldLines
pub mod Patch
pub mod Topology
pub mod Control
pub mod Reaper
pub mod Session
pub mod View
pub mod Rpc
pub mod Tabular
