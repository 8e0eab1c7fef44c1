-- ===== src/Lib.antt =====
-- A verification library for the websocket client: a WebSocket over TCP or TLS with an HTTP upgrade.
--
-- The parts and their files. Paths are from the repository's root.
-- Utils: the text helpers of src/impl/utils.cpp (explode, implode, url_decode, base64_encode).
-- Http: the lines and headers of src/impl/http.cpp (isHttpRequest, parseHttpLines,
--   parseHttpHeaders).
-- Handshake: the class WsHandshake of src/impl/wshandshake.cpp, both sides of the upgrade.
-- Message, Transport: include/message.hpp, src/message.cpp and src/impl/transport.cpp.
--   Transport.Stack has the base class as such, one object on another.
-- Ws: the class WsTransport of src/impl/wstransport.cpp. Ws.Frame has parseFrame and the bytes of
--   sendFrame, Ws.Core the members, Ws.Send and Ws.Receive the operations, Ws.Incoming the handler
--   of the bytes of the lower transport. The other modules below Ws hold the proofs.
-- Tcp: the class TcpTransport of src/impl/tcptransport.cpp. Tcp has a socket: sending and poll
--   events. Tcp.Dial is how it gets one: start, connect, resolve, attempt and createSocket.
-- Poll: the class PollService of src/impl/pollservice.cpp, one round of its loop after the other.
-- Tls: the class TlsTransport of src/impl/tlstransport.cpp, what its three versions share.
--   Tls.Callbacks and Tls.Receive are those for GnuTLS and Mbed TLS, Tls.OpenSsl that for OpenSSL.
-- Certificate: src/impl/certificate.cpp: fingerprints, and FromString and FromFile with OpenSSL.
-- Client: the class WebSocket of src/impl/websocketimpl.cpp and the Channel of src/impl/channel.cpp:
--   the four transports, their callbacks and the receive queue. Client.Reach has the steps.
-- Channel: the whole class Channel of src/impl/channel.cpp and src/channel.cpp, with its callbacks.
-- HttpProxy: the class HttpProxyTransport of src/impl/httpproxytransport.cpp.
-- Queue, Processor: src/impl/queue.hpp, src/impl/processor.hpp and src/impl/processor.cpp.
-- ThreadPool, Init: src/impl/threadpool.cpp, src/impl/threadpool.hpp and src/impl/init.cpp.
-- Callback: the callbacks of include/utils.hpp, which keep the last call that was missed, until a
--   function is set or taken away.
-- Url: the regular expression for URLs, which src/impl/websocketimpl.cpp and src/configuration.cpp
--   share. Client.Open has the constructor of WebSocket and open, which reads a URL.
-- Config: the configuration of include/configuration.hpp and the proxy URL of src/configuration.cpp.
-- Capi: the C interface of src/capi.cpp and include/websocketclient.h. Capi.Buffers and
--   Capi.Receive copy to the caller, Capi.Settings reads the C structure, Capi.Calls has all calls.
--   What a WebSocket does is an interface there, which Capi.Socket fills with the client.
-- Tests: the theorems at concrete inputs.
--
-- A byte is a number below 256, a byte string a list of them, and a size is a natural number, with
-- the wrap-around written out where the code computes a size that can pass 2^64. A method that may
-- throw returns a result which keeps the state that was reached. An int of the C interface is
-- written out with its conversion from a size; its handles are by their 32 bits. The callbacks are
-- events, in their order. Masking keys, nonces, the answers of the lower transport, of the sockets,
-- the resolver, poll and the clock, the TLS libraries, the priority queue, std::stoul, the making of
-- a certificate and the SHA-1 digest are parameters. Threads are steps: a task, a callback or a thread
-- that cleans up runs as a whole, under its lock, at any time.
--
-- Loops run on fuel where they are not structural. The frame loop has one more than the size of the
-- buffer, since each round takes a byte at least; connecting has two steps for each address, and
-- three; running due tasks has a round for each; and reading a chain of certificates has one more
-- than the size of the text. The loops over calls of a TLS library end with no result where the
-- fuel is too small, since the library decides how often it is called.
--
-- Not modelled: making certificates, their import with GnuTLS and Mbed TLS, and the set-up of the
-- TLS libraries, which are calls of these; the interrupter of the poll service and the logger,
-- which are calls of the system; and the threads' waiting on condition variables.
pub mod Common
pub mod Url
pub mod Utils
pub mod Http
pub mod Handshake
pub mod Message
pub mod Transport
pub mod Tcp
pub mod Ws
pub mod HttpProxy
pub mod Client
pub mod Queue
pub mod Processor
pub mod Config
pub mod Capi
pub mod Poll
pub mod Tls
pub mod ThreadPool
pub mod Callback
pub mod Certificate
pub mod Channel
pub mod Init
mod Tests
