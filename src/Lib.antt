-- ===== src/Lib.antt =====
-- Vortex-Net is a C++ network library in the reactor style (src/, utils/), with an HTTP server
-- (Http/), a length-prefixed codec (Codec/) and two load balancers on top of it (Proxy/src/L4,
-- Proxy/src/L7). This library models the parts below, each in a module of the part's name, with
-- its lemmas in child modules.
--
-- A connection (TcpConnection) owns two buffers (Buffer) and an entry in its loop's poller; its
-- operations run in the loop's thread, or queue a functor that does. Timers (TimerQueue) run in
-- the same loop. A loop (EventLoop) waits for the events of its channels (EPollPoller), calls
-- what they lead to (Channel), and then the functors that were queued for it. A client's
-- connection begins in a Connector. The gateway (LbServer) reads a request (HttpParser,
-- HttpContext), takes a backend's connection (RemoteClient) from the pool (ConnectionPool), and
-- passes on the bytes both ways. The load balancers choose a backend (Selector) among nodes whose
-- health the probes (CheckerTask) report (ServerNode), check the API key of a request
-- (ApiKeyAuth), and limit the rate of requests (TokenBucket).
--
-- - Buffer.antt, utils/Buffer.h and utils/Buffer.cc: the vector and the two indices, with
--   operations of the source's names (retrieve, append, makeSpace, readFd). Sizes are size_t:
--   sums and differences are taken modulo 2^64. Buffer.Inv has the invariant, Buffer.Stream reads
--   a buffer as the bytes that it holds, Buffer.ReadFd is about readv.
--
-- - TcpConnection.antt, src/TcpConnection.h and src/TcpConnection.cc: the connection's state,
--   interest and buffers, the bytes given to the kernel so far, the callbacks made and the
--   functors queued. One function per operation; what write and readv answer is an argument.
--   TcpConnection.Stream and Flush are about the bytes, Calls, Closing and Shutdown about
--   sequences of operations and queued functors, Close about the end of a connection.
--
-- - TimerQueue.antt, src/TimerQueue.cc and src/Timer.cc: the ordered set, the set of active
--   timers and the heap. Every read of a timer through its pointer is a lookup in the heap, which
--   fails for a deleted timer. The alarm is the last delay given to timerfd_settime. What a
--   callback does to the queue is a list of actions.
--
-- - EventLoop.antt, src/EventLoop.cc: the queue of functors and the wake-up descriptor, with the
--   steps of the loop's thread and of others between them. EventLoop.Turns is about these steps
--   in any order.
--
-- - Channel.antt, src/Channel.cc: the callbacks that a descriptor's events lead to, in order.
--
-- - EPollPoller.antt, src/EPollPoller.cc and src/Channel.h: the channels by number, the map of
--   the poller, and its calls of epoll_ctl as a list. EPollPoller.Watched has the set that
--   epoll_ctl keeps by its manual, EPollPoller.Kernel runs the calls against it, and
--   EPollPoller.Steps is about sequences of changes.
--
-- - TcpClient.antt, src/TcpClient.cc: the one connection of a client, which its connector makes.
--   TcpClient.Retry is about a client that was stopped while no timer of Connector::retry is
--   pending.
--
-- - TcpServer.antt, src/TcpServer.cc and src/Acceptor.cc: the connections by number, and the
--   functors that their loops are given. TcpServer.Tally counts them.
--
-- - EventLoopThreadPool.antt, src/EventLoopThreadPool.cc: the loops of a server's threads, handed
--   out in turn.
--
-- - ServerNode.antt, Proxy/src/Common/ServerNode.h: a node, and the counters behind its liveness.
--
-- - CheckerTask.antt, Proxy/src/L4/HealthCheck/CheckerTask.cc: one health probe, with the events
--   that end it; the calls that it makes of its client and loop are a list.
--
-- - Selector.antt, Proxy/src/Common/Selector.cc: smooth weighted round robin over the nodes by
--   position, and the hash ring as the ordered list of its partitions. The hash of a virtual
--   node's name is a parameter of the definitions. Current weights are integers without overflow.
--
-- - Connector.antt, src/Connector.cc: connecting with retries. What socket, connect and
--   getsockopt answer is an argument; the closed and the handed-over descriptors and the delays
--   of the timers are kept as lists, and the pending timers of retry are counted.
--   Connector.Descriptors has the steps of a connector that is not stopped, and the order of
--   Channel::handleEvent.
--
-- - TlvCodec.antt, Codec/TLVCodec.cc and Codec/protocol.h: the framing loop over the buffer's
--   readable bytes. The loop runs on fuel, the number of bytes: each round takes at least the
--   eleven of a header.
--
-- - HttpParser.antt, Http/HttpParser.cc: the states of the parser and the headers that it reads.
--   picohttpparser is an argument: what its functions find at the front of the bytes.
--
-- - HttpServer.antt, Http/HttpServer.h: the requests of a connection, given to the callback with
--   their bodies, and the text of an answer. The headers that the callback sees are views into
--   the buffer: those of a head that came in an earlier message are none.
--
-- - LbServer.antt, Proxy/src/L7/LB_Server.h: the gateway, for one client's connection: its checks
--   (LbServer.Admission), and the requests that it passes on (LbServer.Request,
--   LbServer.Delivery). picohttpparser, std::hash, inet_ntop and std::stoi are arguments. What
--   the handlers read through a null pointer is a result of its own.
--
-- - HttpContext.antt, Proxy/src/L7/HttpContext.cc: the parser of a client's connection, the
--   backend bound to it, and the name of the model in a body.
--
-- - RemoteClient.antt, Proxy/src/L7/RemoteClient.cc: the connection to a backend, the bytes that
--   wait for it to come up, and the relay of responses. The TcpClient below it is whether it is
--   connected, the bytes that it was given and whether it was told to disconnect.
--
-- - ConnectionPool.antt, Proxy/src/L7/ConnecitonPool.cc: the idle backends by address; a
--   RemoteClient is a number, and the pool's state holds all of them.
--
-- - L4Proxy.antt, Proxy/src/L4/LB_Server.h, RemoteClient.cc and HealthCheck/HealthChecker.cc: the
--   relay between one client and its backend, and whose turn it is to be checked. A context that
--   holds no RemoteClient makes the handlers that read it give none. L4Proxy.Relay is about
--   sequences of events.
--
-- - ApiKeyAuth.antt, Proxy/src/L7/Middleware/ApiKeyAuth.cc: the ordered vector of keys and the
--   reading of an Authorization header, over strings as lists of bytes.
--
-- - TokenBucket.antt, Proxy/src/L7/Middleware/TokenBucket.cc: the state that the compare-and-swap
--   loops exchange, with 32-bit and 64-bit wrap. A round of a loop is an argument that holds the
--   clock's value and whether the exchange fails, so a run is a list of rounds; when the list is
--   over the loop is still spinning.
--
-- Base.antt has the tests, list lemmas, machine words and integers that the parts share.
--
-- Not modelled: system calls, threads, logging and the copies of picohttpparser.
pub mod Base
pub mod ApiKeyAuth
pub mod Buffer
pub mod Channel
pub mod CheckerTask
pub mod ConnectionPool
pub mod Connector
pub mod EPollPoller
pub mod EventLoop
pub mod EventLoopThreadPool
pub mod HttpContext
pub mod HttpParser
pub mod HttpServer
pub mod L4Proxy
pub mod LbServer
pub mod RemoteClient
pub mod Selector
pub mod ServerNode
pub mod TcpClient
pub mod TcpConnection
pub mod TcpServer
pub mod TimerQueue
pub mod TlvCodec
pub mod TokenBucket
