-- ===== src/Lib.antt =====
-- The model of netman, a TCP, UDP and websocket server framework over epoll.
--
-- The program's parts and how they interact. An acceptor takes connections and hands each to one of the
-- event loop's pollers and to the connection manager. A poller waits for events: on a readable socket it
-- calls the connection's DecodePacket, which returns a message, nothing or an error, and on a writable
-- one its ProceedWrite, which sends what Write had to put off. Messages go to the router manager, which
-- runs the middlewares and then the route, or the websocket handler. A connection is a BaseConnect with a
-- decoder over it, for the packets of server/router.go or the frames of server/websocket.go; it closes
-- itself, and with that calls back into the poller and the manager.
--
-- Files and code:
--   Util/Message      util/message.go: Message and its accessors
--   Util/Queue        util/queue.go: Push, Pop, Len
--   Util/DataPack     util/datapack.go: Pack, UnPack
--   Util/Pipeline     util/pipeline.go, ArrayReduce of util/helpers.go
--   Errors            util/errors.go, Go's error results, and what a decoder returns
--   Kernel            the system calls, a record of functions on the state `W` of the world
--   Host              what a connection calls on the objects around it
--   Epoll             eventloop/epoll.go: the registrations
--   Kqueue            eventloop/kqueue.go: the registrations, and what epoll's become in such a build;
--                     Kqueue/Waiting is Wait, and the other files below Kqueue hold proofs
--   EventLoop         eventloop/event.go: Init, AddRead, Remove; NewPoller of eventloop/epoll.go
--   Connect           server/baseconnect.go: Read, Write, ProceedWrite, GetWriteBuff; the branches of a
--                     call are functions of the system call's result, named after what they do
--   Connect/Tls       readData, with crypto/tls as a parameter over the connection's own Read and Write
--   Router            server/router.go: DecodePacket in phases (decode_head, decode_body), Send,
--                     receiveFromUDP; Router/Close is Close; Router/Stream is the abstract view, the
--                     stream of packets, with the rules of the reads and the proofs by phase
--   Router/ClearAll   the connection as the manager sees it
--   Manager           server/connectmgr.go: the map behind its lock, ClearByEpFd, ClearAll, the heartbeat
--   Dispatch          server/routermgr.go, server/middleware.go
--   Websocket         server/websocket.go: the state and the header; Websocket/Frame is
--                     server/websocket_frame.go, Websocket/Control server/websocket_ctrl.go,
--                     Websocket/Handshake the handshake and Websocket/Decode DecodePacket; the other
--                     files below Websocket hold proofs
--   Wait              eventloop/epoll.go, Wait: the reaction to DecodePacket and ProceedWrite, over the
--                     connection as an interface; Wait/Routers fills it with server/router.go and
--                     Wait/Websockets with server/websocket.go, where the manager stands beside the
--                     world since the connection removes itself inside DecodePacket; Wait/Serving is what
--                     the connections have to keep for the loops to go on, and the other files below
--                     Wait hold proofs
--   Options           server/options.go: the options are functions, as there
--   Socket            server/socket_linux.go: the listening socket
--   Acceptor          server/acceptor_linux.go: Run with its loop; Acceptor/Serves, Acceptor/Listening and
--                     Acceptor/Refused hold proofs
--   Darwin            server/acceptor_darwin.go; Darwin/Datagrams is server/acceptor_udp_darwin.go,
--                     Darwin/Sockets server/socket_darwin.go, and the other files below hold proofs
--   Server            server/server.go: New, Websocket, Start, Stop; Server/Live is the step relation of a
--                     running server, and the other files below Server hold proofs
--   Udp               server/acceptor_udp_base.go; Udp/Turns is server/acceptor_udp_linux.go and
--                     Server/Datagrams server/server_udp.go; the other files below Udp hold proofs
--   Util/Context      util/context.go, util/request.go
--   World, Runs       a small world, and runs in it
--
-- State passing: an operation takes the connection and the world and returns both, changed. Go's int, uint
-- and uint32 are natural numbers with their wrap-around written out; the count of raw TLS bytes is an
-- integer. Ids of connections are unbounded where Go's int wraps, and the int32 of an id that epoll's Pad
-- takes, which nothing reads, is not cut. A nil pointer that is called is the value `panics`, `crash` or `panicked`, and a lock that is
-- waited for by its holder the value `blocked` or `none`.
--
-- Fuel: Router.decode_packet has fuel for its calls of itself. Each round takes a byte at least, so more
-- fuel than the packet may still want is enough, and 2^32 + 1 always is. The loops of Wait and Run go on
-- for ever: the model takes a number of turns, and the theorems hold for every number.
--
-- Concurrency: the goroutines of a server are the steps of Server/Live, one call each. The manager's map
-- holds pointers to connections: a call's new state of a connection is written back to the map.
--
-- Parameters: the system calls, crypto/tls, the application's callbacks, the packer where it is not the
-- default one, and of Go's library utf8.Valid and what the handshake takes (regular expressions,
-- strings.Index, strings.Trim, url.ParseQuery, SHA-1, base64). Their rules are the
-- records WriteLaws, StaysWritable, ReadLaws, StreamLaws, TlsLaws, TlsWriteLaws, TlsShares, Registers and
-- SetsUp, and World and Runs satisfy them. A kernel queue's calls are Kevent and Queues. The bytes to come
-- and the bytes sent are streams for each descriptor. StreamLaws has two rules that plain sockets satisfy
-- and that are assumptions on crypto/tls: a read that fails otherwise than at the end carries no bytes,
-- which io.Reader alone does not promise, and the stream of a descriptor is one, read with TLS or
-- without, so that a layer over it has to be transparent.
--
-- Not modelled: util/socketaddr.go, which is a copy of another project's file, ArrayReduce of
-- values that are no slices, which has no caller, the listeners' backlog, which is a number that the
-- program reads from the system, the nil TLS configuration of WithTLSConfig(nil), which a new connection
-- reads, and examples. Logging is left out.
pub mod Common
pub mod Errors
pub mod Util
pub mod Kernel
pub mod World
pub mod Epoll
pub mod Kqueue
pub mod Darwin
pub mod Connect
pub mod EventLoop
pub mod Manager
pub mod Router
pub mod Wait
pub mod Udp
pub mod Socket
pub mod Server
pub mod Acceptor
pub mod Options
pub mod Dispatch
pub mod Host
pub mod Websocket
pub mod Runs
