-- ===== src/Lib.antt =====
-- Nodejs-WSS-Tunnel: a server that exposes the HTTP and TCP services of a private network through
-- WebSocket connections which tunnel clients open to it.
--
-- The program's parts, and the files here that model them:
-- * src/shared/protocol.js, the binary frames: `Protocol` has the types and the codec, and
--   `Protocol/Json` the JSON payloads.
-- * src/tcp/VirtualSocket.js, the socket that stands for a connection of a TCP agent:
--   `VirtualSocket`. Its events are returned as a list, in the order in which it emits them.
-- * src/server/StreamManager.js, the registry of streams and the frames of tunnel clients:
--   `Server/State` (its fields), `Server/Streams` (the life of a stream), `Server/ClientFrames`
--   (`handleClientFrame`, one function for each case).
-- * src/server/ClientManager.js, the tunnel clients: `Server/Clients`, with the heartbeat in
--   `Server/Heartbeat` and the closing in `Server/Closing`, which are TcpAgentServer.js's too.
-- * src/tcp/TcpRouter.js, connections from outside: `Server/Router`; src/tcp/TcpFlowControl.js:
--   `Server/FlowControl`.
-- * src/tcp/TcpAgentServer.js, connections of agents: `Server/AgentServer`.
-- * src/server/HttpRouter.js, `_proxyHttpRequest` and its listeners, and `sanitizeHeaders` of
--   src/shared/utils.js: `Server/HttpProxy` and `Server/Headers`. What else HttpRouter.js does, and the
--   credentials of utils.js: `Gateway`, with `Gateway/Auth` (credentials and signatures),
--   `Gateway/Upgrade` (upgrades to WebSockets), `Gateway/Routes` (requests) and `Gateway/Admin` (the
--   configuration page); src/shared/ipAllowlist.js: `AllowList`.
-- * `Server/Run` puts these together: an event is one callback of the program, and a history of the
--   server is a list of events, each with the answers of the outside at that time.
-- * serve/tcp-agent.js, the agent: `TcpAgent`, with `TcpAgent/Frames` (the frames of the server) and
--   `TcpAgent/Events` (its listeners and histories); its start is `TcpAgent/Start`.
-- * serve/client.js and src/tcp/TcpClientHandler.js, the tunnel client: `TunnelClient`, with
--   `TunnelClient/Streams` (the life of a stream), `TunnelClient/Tcp` and `TunnelClient/Http` (the
--   two kinds of streams) and `TunnelClient/Events` (frames, listeners and histories); its start is
--   `TunnelClient/Start`, and the URL of a local request `TunnelClient/Target`.
-- * src/server/WsFrameWriter.js, the writer of request and response bodies: `FrameWriter`, with its
--   histories.
-- * src/server/TunnelServer.js, which puts the server's components together, closes them and ends the
--   process: `TunnelServer`; the closing of the router's listeners is `Server/Listeners`.
-- * src/shared/port-parser.js, the ports of the agent: `Ports`; src/shared/config.js and
--   src/shared/runtime-config.js, their readers and checks: `Config`, with the constants in
--   `Config/Load`; src/shared/logging.js: `Logging`.
--   Texts are lists of code units there and in `Gateway`, `AllowList` and `CommitAudit`.
-- * scripts/audit-commits.js, the check of the history: `CommitAudit`.
--
-- The objects of the source are shared: `streams` maps a stream id to an object of `heap`, and
-- closures hold an object after it has left the map. An object never leaves the heap. What the
-- program calls but does not implement (`ws`, `node:net`, `node:http`, `JSON.parse`, timers) is the
-- record `Net.Env`: the calls are logged as effects, the newest first, and the environment answers
-- them, also with exceptions. A resource is a number. The closure in `state.onCleanup` is the data
-- type `OnCleanup`, with the captured variables. An exception that nothing catches ends the process of
-- the agent or of the tunnel client: `crashed` is set, and no later event does anything.
--
-- The loop of `allocateStreamId` runs on fuel, which is the source's own bound of 0xffffffff rounds.
-- The loop of `_sendChunk` runs on fuel, the chunk's length: a round takes at least a byte, where
-- MAX_FRAME_PAYLOAD is positive. All other recursion is structural.
--
-- Not modelled: the text of log lines and of served files, the files that the agent and the client
-- write when they are ready, the options and the closing of node's own servers with the answers to
-- broken requests, `waitDrain` but for how it ends, and serve/build.js. `new URL` and the setters
-- of a URL, `git`, the hash, the HMAC and the decoding of base64 and of hexadecimal are parameters. `headers` are lists of
-- single values, the status text of a response is left out, and addresses that node gives are texts.
-- The rounding of numbers to doubles is not modelled. What is left out is output and the glue to
-- node.

pub mod AllowList
pub mod CommitAudit
pub mod Config
pub mod FrameWriter
pub mod Gateway
pub mod Logging
pub mod Net
pub mod Ports
pub mod Prelude
pub mod Protocol
pub mod Server
pub mod TcpAgent
pub mod TunnelClient
pub mod TunnelServer
pub mod VirtualSocket
