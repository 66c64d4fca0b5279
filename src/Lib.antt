-- ===== src/Lib.antt =====
-- go-agent-wrapper runs coding agents (Claude, Codex, Copilot, OpenCode, pi) as child processes or
-- as ACP servers and turns what they say into events. This library models the parts of it that
-- decide: what a turn's output is, how the client of an ACP server talks to it and ends its turns,
-- how permission requests are answered, how a managed ACP session lives and ends, which delivery
-- operations a runtime has, and which environment a child process gets.
--
-- How the parts interact. A client of package acp (acp/ndjsonclient.go) starts an agent, opens a
-- session with it (acp/client.go has what the handshake parses), sends it prompts and reads its
-- protocol stream. It passes the agent's permission requests to a BestEffortPermissionRequests
-- coordinator (acp/permission.go), which asks the host's responder and answers within the turn that
-- was current when the request came in. A Manager and its Sessions (acp/lifecycle.go) own one
-- client each, from launch to teardown, and admit prompts. The events of a session reach a Reducer
-- (turnoutput), which keeps the turns in progress and reports one Output for each turn that ends.
-- The wrapper composes the environment of a child process (wrapper/environment.go) before it starts
-- one. A host asks adapters/delivery.go for the plan of a delivery before it sends anything to a
-- runtime.
--
-- Files:
--
-- Shared: the library names in use, Boolean tests, lists with native lengths (Shared/Lists), Go
-- strings as lists of bytes (Shared/Text), maps as association lists (Shared/Assoc, and
-- Shared/Table for keys that are numbers) and signed integers (Shared/Int).
--
-- Turnoutput: package turnoutput. Output and Turn hold the types of output.go, reducer.go and
-- signals.go. Blocks is the text of a turn in reducer.go: addDelta is add_delta (with locate and
-- write_block), trim is trim and trim_loop, cutUTF8 is cut_utf8, pick is pick. Tools and Signals
-- are signals.go: addTool, factsFor (as update_facts and facts_of) and toolResult in Tools,
-- raiseQuestion, raiseApproval, request, resolve, place, open (as is_open), openSignal and
-- signalText in Signals. Reducer, Report and Closing are the rest of reducer.go: New, current,
-- begin, body and noteStop; the Output that finish builds; ending, what finish does to the reducer
-- (as settle), and Flush. Feed is feed.go: Observe is observe, with a function for each case, then
-- observe_provider and observe_stream; Feed/Payload has the payloads after decoding. Methods that
-- change a Reducer or a turn take it and return it. Safety, Blocks/Cut, Blocks/Pick, Blocks/Bounds,
-- Signals/Memory, Signals/Working, Signals/Refusals, Signals/Ending, Reducer/Opening,
-- Reducer/Invariant, Reducer/Endings, Reducer/Reports, Reducer/Finished, Feed/Kept, Feed/History
-- and Feed/Late have the proofs.
--
-- Permission: acp/permission.go. Request has the data, parsePermissionRequest and the resolutions;
-- Coordinator the state and its methods, each as the critical section that it holds the lock for;
-- Answer the three locked sections of respondAdmitted; Run sequences of all of them, which is what
-- any number of goroutines can do. Answer/Chosen, Run/Dead, Run/Ordered, Run/Bounds and Run/Stopped
-- have the proofs.
--
-- Bridge: acp/ndjsonclient.go, the client of one agent process, in parts. Rpc is the table of
-- outbound requests: beginCall is allocate and register, with dropPending, deliverResponse and
-- failPending. Frame is the writing of frames on one transport: WriteFrameCtx of acp/writeframe.go,
-- and the write with a deadline that answers a server request. Client is the state of the client
-- and its locked sections: emit, Prompt (admit_prompt), Cancel, the reset of the turn in
-- finishTurn, and closeEvents; Client/Run has the goroutine of a turn, from Prompt to finishTurn,
-- as phases, and the sequences of steps of all goroutines, with the permission coordinator and the
-- table of requests inside. Reader is what the read loop makes of one line. Servers is
-- acp/mcp_servers.go. Launch is what the handshake parses and checks (acp/client.go),
-- Launch/Handshake the handshake itself, in a monad of errors and of the requests sent so far.
-- Rpc/Lives, Rpc/Answers, Rpc/Zero, Frame/Contract, Frame/Framing, Frame/Glued, Client/Flight,
-- Client/View, Client/Events, Client/Steps, Client/Ended, Client/Calm, Client/Settled,
-- Client/Permits, Client/Channel, Client/Paired, Client/Drain, Client/Nearer, Client/Stops,
-- Client/Endings, Client/Shutdown, Reader/Lines, Servers/Chosen, Launch/Calls, Launch/Ready,
-- Launch/Order, Launch/Silent and Launch/Returned have the proofs.
--
-- Transport: acp/transport.go, TransportTermination: ReportRead, ReportProcess and the selects of
-- Coordinate as steps in every order, where a grace period may end at any time. Transport/Joined
-- and Transport/Returns have the proofs.
--
-- Delivery: adapters/delivery.go, the delivery capabilities of runtimes, Validate, Require and the
-- plan of a request. Delivery/Capability has the names it declares and Delivery/Entries the
-- declaration for a runtime; Delivery/Plan and Delivery/Runtime have the proofs.
--
-- Lifecycle: acp/lifecycle.go. Outcome has the states, outcomes and errors; Session the state of a
-- session and its critical sections; Run sequences of them, each behind the guard that the source
-- gives it (finishOnce, launchDone, closeOnce); Manager the registration of sessions; Redact the
-- redaction of decoded JSON. Run/Order, Run/Final, Run/Ending, Run/Launch, Run/Turns, Manager/Held,
-- Manager/Registered and Manager/Slots have the proofs.
--
-- Wrapper: wrapper/typed_order.go (Queue, with its order in Queue/Order) and turnMarks of
-- wrapper/turn_interrupt.go (Marks).
--
-- Environment: wrapper/environment.go, resolveForOS as its checks, its loops and its sort.
-- Environment/Values and Environment/Sorted have the proofs.
--
-- Tests: runs at concrete inputs, and each theorem of the list below applied at one.
--
-- Loops are structural recursions on the list they go over (trim on the blocks, begin's loop on the
-- order), so that no fuel is used. The bounds of the source (128 blocks, 4 MiB a turn, 1 MiB a
-- block, 64 open turns and finished ids, 64 pending requests and signals, 256 calls, 64 callbacks
-- and dispatches, 64 events in the Events channel) are the constants of the model. Counters of the
-- source that only count up are unbounded; a subtraction stops at 0 where the source tests for it
-- or where the counter cannot be 0.
--
-- Not modelled: JSON decoding, regular expressions, time, goroutines other than as sequences of
-- critical sections, the contents of buffered channels (but for the number of events in the Events
-- channel), the payloads of events, processes, timers, pipes and files; of the standard library's
-- string functions, letter case outside ASCII, and the quoting of %q, which is an argument of the
-- definitions that use it. In Bridge, the choices of the environment (whether a write fails and
-- after how many bytes, what the agent answers, when a context ends) are fields of the steps; a
-- turn id is an argument of its step, and the theorems that need it say that it is not empty. Of
-- acp/ndjsonclient.go, waitProcess, coordinateTermination and the sequence of Close are steps of
-- Client/Run without what they do to the process; how adapters translate notifications is not
-- modelled. In Turnoutput, the function that mints turn ids, the stop reasons of go-llm-types, the
-- normalizer of stop reasons and the text redactor are arguments of the definitions that use them.
-- The packages and files without a module here are not modelled: wrapper/wrapper.go and what it
-- dispatches to, acp/sandbox.go, the adapters but for delivery.go, snapshot, launch, plant,
-- sandbox, policy, filters, classifybridge, sidebyside, activity and internal.
pub mod Shared
pub mod Turnoutput
pub mod Permission
pub mod Lifecycle
pub mod Environment
pub mod Wrapper
pub mod Bridge
pub mod Delivery
mod Tests
pub mod Transport
