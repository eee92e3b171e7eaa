-- ===== src/Lib.antt =====
-- A model of GoGRPCBridge, which carries gRPC over WebSockets, with the theorems that make it correct.
--
-- The program. A handler upgrades an HTTP request to a WebSocket, wraps the socket as a net.Conn, and
-- serves HTTP/2 on it: pkg/grpctunnel serves a gRPC server in the same process, pkg/bridge proxies to a
-- backend. Before the upgrade a guard counts the client's sessions and attempts, and refuses with the
-- wait that the client is told. In a browser, pkg/wasm/dialer wraps the browser's own WebSocket.
--
-- The files. Each part has a module with its state and operations, and children with what is proved of
-- it and with its tests.
-- Base: what the modules share: tests, lists, signed integers, texts as code points, dictionaries.
-- Net: the fields of a request, http.Header.Get, and net.SplitHostPort. Clock: instants and durations.
-- Config: BridgeConfig of pkg/grpctunnel/api.go, and GetBridgeConfigError, applyBridgeKeepaliveDefaults,
--   getBridgeReadLimitBytes and buildBridgePingWriteTimeout of pkg/grpctunnel/server.go.
-- Abuse: pkg/grpctunnel/abuse_control.go and retry_after.go. reserveBridgeConnection is
--   reserve_bridge_connection, made of charge_upgrade (the rate window) and take_slot (the two caps);
--   clearBridgeConnection is clear_bridge_connection. Abuse.Sessions holds the abstract view: the
--   sessions that the handler keeps open.
-- HandlerConfig, HandlerAbuse: the same parts of pkg/bridge (bridge.go, abuse_control.go,
--   retry_after.go).
-- BrowserConn: pkg/wasm/dialer/websocket_conn.go. BrowserConn.Session is the browser's events
--   interleaved with the calls of one reader.
-- Conn: pkg/grpctunnel/conn.go and pkg/bridge/conn.go, one model with the errors as an argument.
-- Origin: BuildOriginAllowlistCheck of pkg/grpctunnel/api.go.
-- Forward: the forwarded headers of pkg/grpctunnel/server.go.
-- Handler: BuildBridgeHandler of pkg/grpctunnel/server.go; a request is the trace of its actions.
-- ServerOptions: the options of pkg/grpctunnel/server.go, Wrap and the servers.
-- Buffers: the buffer pools of pkg/grpctunnel/server.go and pkg/bridge/bridge.go.
-- Proxy: NewHandler and ServeHTTP of pkg/bridge/bridge.go.
-- BridgeClient: pkg/bridge/client.go.
-- Target: the targets of the clients (pkg/grpctunnel/client.go, client_wasm.go): ParseTunnelTargetURL is
--   parse_tunnel_target_url natively and parse_browser_tunnel_target_url in a browser.
-- Policy: the reconnect and keepalive policies of pkg/grpctunnel/api.go.
-- Client: TunnelConfig, BuildTunnelConn and, in Client.Options, the options and DialContext of
--   pkg/grpctunnel/client.go; Client.Browser: the same of client_wasm.go.
-- Keepalive: the loops of applyBridgeConnectionSettings (pkg/grpctunnel/server.go) and
--   applyHandlerConnectionSettings (pkg/bridge/bridge.go), as events on the timers and the socket.
-- Handshake: the dial of pkg/wasm/dialer/dialer.go, as the trace of what it does to a socket.
-- Listener: the listener of pkg/grpctunnel/server_native.go, as steps of its callers.
-- Tooling: the tooling server of pkg/grpctunnel/tooling.go.
-- Runner: tools/runner.go, on a machine that answers each effect. Runner.Commands has the fixed sequences,
--   Runner.Publish the publish check, Runner.Benchmarks the parser, Runner.Quality and Runner.Gates the
--   gates; Runner.Main chooses the command.
-- ApiGuard: tools/api_compat_guard/main.go, its commands in ApiGuard.Commands.
--
-- How the parts meet: ServerOptions builds a BridgeConfig that Handler validates with Config; Handler
-- calls Abuse before the upgrade, and answers with the wait of set_retry_after; Proxy does the same with
-- HandlerConfig, HandlerAbuse and set_retry_after_header. Handler starts the loop of Keepalive on each
-- socket, and hands it to gRPC through Listener. Client validates with Policy and Target, and builds
-- the dialer of the target.
--
-- Bounds. Counters are unbounded numbers. Instants are nanoseconds, and time.Time.Sub saturates at the
-- int64 range. A mutex makes a method one step; the browser runs callbacks only while the reader is
-- parked. BrowserConn.read_loop has two rounds: the signal channel holds one token. Conn.read_frames
-- recurses on the frames that are to come. A keepalive timer is served at most `slack` after it is due,
-- an argument of the steps; select takes any case that is ready. Runner.Gates.attempts recurses on the
-- retries that are left, which are one; every other loop of the runner recurses on a list.
--
-- Not modelled: log output and OpenTelemetry, generated code and the examples. gorilla, url.Parse,
-- net.ParseIP, unicode.ToLower, the Go parser, encoding/json and the files are arguments of the
-- definitions that use them.
pub mod Base
pub mod Net
pub mod Clock
pub mod Config
pub mod Abuse
pub mod HandlerConfig
pub mod HandlerAbuse
pub mod BrowserConn
pub mod Conn
pub mod Origin
pub mod Forward
pub mod Handler
pub mod ServerOptions
pub mod Proxy
pub mod Target
pub mod Policy
pub mod Client
pub mod Keepalive
pub mod Listener
pub mod ApiGuard
pub mod Tooling
pub mod Handshake
pub mod Runner
pub mod Buffers
pub mod BridgeClient
