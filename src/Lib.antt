-- ===== src/Lib.antt =====
-- Verification of mitm-proxy, a man-in-the-middle HTTP proxy in Go.
--
-- The program has two versions. A client connects to the proxy; its requests are read, may be
-- rewritten or answered by handlers, are forwarded to the target over connections that are kept for
-- reuse, and the responses, with HTML injected if so configured, are written back. core/ is the first
-- version and core_refactor/ the second.
--
-- The files, and the code that they are about:
--   Base, Base/Tests, Base/Lists    shared names, tests on numbers, lists
--   Text, Text/Search               Go strings as lists of bytes; strings.LastIndex
--   Text/Table                      Go maps with string keys
--   Text/Numeral, Text/Base64       %d and %x of fmt; base64.StdEncoding
--   Http/Error                      error values, errors.Is, wrapping
--   Http/Writer                     io.Writer as an interface with its contract
--   Http/Header, Http/Header/Laws   http.Header with canonical names
--   Http/Status, Http/Message       status texts; requests, responses, bodies, decompressors
--   Http/Chunked, Http/Framing      the receiving side of HTTP/1.1 framing, an independent reader
--   Net/Address, Net/Interfaces     net.SplitHostPort and JoinHostPort; reports on interfaces
--   Net/Upstream                    the network as an interface: dial, send, receive, handshake, close
--   Net/Certificates                certificates and keys as an interface
--   Core/ResponseWriter             core/responseWriter.go
--   Core/HtmlInject                 InsertHTMLToHTMLBody of core/mitm.go
--   Core/Connector                  DoRequest, connectServer and UpgradeServer2TLS of
--                                   core/client-connector-server.go
--   Core/Container                  the requests of addConnector and the setters of core/mitm.go
--   Core/Reads                      ReadRequest and UpgradeClient2Tls of
--                                   core/client-connector-server.go
--   Core/Certificates               core/singer.go
--   Core/Lifecycle                  Start, Stop and the table of connectors of core/mitm.go, as a step
--                                   relation
--   Core/Local                      isWebSocketRequest and getLocalIPs of core/mitm.go
--   Refactor/ResponseWriter         core_refactor/response_writer.go
--   Refactor/HtmlInject             core_refactor/html_inject.go
--   Refactor/Hosts                  core_refactor/utils.go
--   Refactor/Proxy, Refactor/Server core_refactor/proxy.go, core_refactor/server.go
--   Refactor/Session                forward, getServer, removeServer, writeRequest and the
--                                   servers' part of close of core_refactor/session.go
--   Refactor/Requests               handleRequest, handleManage, submit, writeLoop and the begin of
--                                   handleWebSocket of core_refactor/session.go; mustManageRequest
--                                   of core_refactor/mitm.go
--   Refactor/Ca                     core_refactor/ca.go
--   Refactor/Client                 upgradeTLS of core_refactor/client.go
--   Refactor/Options                core_refactor/options.go, New and HandleFunc of
--                                   core_refactor/mitm.go
--   Refactor/Serve                  serve of core_refactor/mitm.go
--   Refactor/Lifecycle              Start and Stop of core_refactor/mitm.go, as a step relation
--   Refactor/Tunnel                 the tunnel of handleWebSocket of core_refactor/session.go, as a
--                                   step relation
--   Rewrite/Pool                    the pool of Lua states of
--                                   examples/rewrite_by_lua_v2/internal/lua.go
--   Rewrite/Tables                  the headers as Lua tables, and CallLuaString, of the same file
--   Rewrite/Handlers                handlers.go beside it
--   Rewrite/Config                  config.go beside it
--   Rewrite/Locks                   the locks of that pool and of config.go beside it
--   DevTool/Rules, DevTool/Body,    examples/dev-tool/main.go: the rules on requests, the bodies that
--   DevTool/Messages,               are copied as they pass, the texts of messages, the history, the
--   DevTool/Records,                tracker with its goroutines, and the web interface
--   DevTool/Tracker, DevTool/Web
--   LuaProxy                        loadScript of examples/lua_proxy/main.go
--   Examples                        the theorems at concrete inputs
-- The children of a file hold its proofs.
--
-- How code corresponds to definitions. A method takes the state of its receiver and returns the new
-- state with its result. An early return of an error is a clause on the result of the step before:
-- `forward` is a chain of such steps (first_server, first_written, write_again, rewritten, read_again,
-- retry_on), one for each place where the Go function looks at an error. Strings are lists of bytes;
-- bytes above ASCII have no case. Status codes and lengths are natural numbers; a content length of -1
-- is none. The loop of the chunked encoding runs for the rounds that its bound leaves, the content's
-- length over the chunk size, rounded up. The reader of chunks takes fuel, one round for each chunk
-- and one for the last: more than the content's length is enough.
--
-- A job for the client's write loop is a function on the client's connection, as in Go. A job that is
-- sent behind a cancellation is left out, since the loop that would run it has ended.
--
-- What is not under the repository is a parameter: decompressors (Codec), url.Parse, the network
-- (Upstream), cryptography and files (CertLib). The laws of Upstream are in Lifetimes (only dialling
-- opens a connection and only closing closes one) and BodyRules (writing a request reads its body to
-- the end, and fails where the body is shorter than the content length); Examples/FakeNet is a
-- network that obeys them.
--
-- SignHost gives its lock back while it signs: Refactor/Ca has its parts and a call of its own, and
-- Refactor/Ca/Calls has the parts of any number of calls in any order. In Refactor/Lifecycle a client
-- leaves when it likes, or its goroutine ends behind the close of its connection; in Refactor/Tunnel a
-- Write may block until the connections are closed, and the bytes that a buffered reader holds are
-- apart from the stream behind them.
--
-- Not modelled: what TLS and signatures do beyond their outcome, logging, deadlines, and the rest of the
-- example programs: the handlers of lua_proxy, of which lua_proxy_test is a copy, the first version of
-- rewrite_by_lua, and the administration and the scripts of the second.
pub mod Base
pub mod Text
pub mod Http
pub mod Core
pub mod Refactor
pub mod Net
pub mod Examples
pub mod Rewrite
pub mod DevTool
pub mod LuaProxy
