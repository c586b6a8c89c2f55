-- ===== src/Lib.antt =====
-- A verification library for mRpc, a remote procedure call library over libevent and protobuf.
--
-- The program. A `TcpServer` (src/tcpServer.h, src/tcpServer.cpp) accepts sockets and hands them to
-- its threads through pipes; each thread keeps its connections in a `ConnQueue`. The bytes of a
-- connection go through `ProtobufCodecLite` (src/codeClite.h, src/codeClite.cpp), which cuts
-- them into frames, and its messages to an `RpcChannel` (src/rpcChannel.h, src/rpcChannel.cpp),
-- which answers requests by registered services and matches responses to outstanding calls.
-- An `RpcServer` (src/rpcServer.h, src/rpcServer.cpp) makes a channel for each connection of its
-- `TcpServer`; a `TcpClient` (src/tcpClient.h, src/tcpClient.cpp) has one connection.
--
-- The files.
--   Prelude: tests, lists over the native numbers, and `Run`, the outcome of code that can crash
--     (an abort, a failed assert, a NULL or dangling pointer, a signed overflow) or use up the rounds given to a loop.
--   Endian: include/ev_endian.h, for a host of either byte order. An integer of a given width is
--     a number; `image` and `load` are its bytes in memory.
--   Platform: libevent's evbuffer, zlib's adler32 and the protobuf runtime behind a message, as
--     records of operations with the documented facts that the code uses. Platform/Concrete has
--     values of them.
--   Codec: src/codeClite.h and src/codeClite.cpp. `fill_empty_buffer`, `serialize_to_buffer`,
--     `send`, `checksum`, `validate_checksum`, `as_int32`, `parse` and `on_message` are the
--     methods of those names; `examine` is the part of `parse` behind evbuffer_pullup, `round`
--     is one test and body of the loop of `onMessage`, `take_frame` its branch for a whole
--     frame and `dispatch` what follows `parse`. Codec/Frame describes the wire format on its
--     own, Codec/Send, Codec/Body and Codec/Receive compare the code with it, Codec/Total takes
--     any input, Codec/Guards has the error paths. An int32_t is its bit pattern, a number
--     below 2 ^ 32.
--   ConnQueue: the connections of a thread in src/tcpServer.h, on an explicit heap. `construct`,
--     `insert_conn`, `delete_conn` and `destroy_loop` are the constructor, the two operations and
--     the destructor's loop. ConnQueue/Memory has the single reads and writes, ConnQueue/Linked
--     the doubly linked lists, ConnQueue/Insert, /Delete and /Lifetime the operations.
--   Message: the fields of `RpcMessage` in src/rpc.pb.h and src/rpc.pb.cc with their presence bits,
--     its accessors, Clear, MergeFrom, CopyFrom and Swap. Message/Merge compares these.
--     Message/Wire has ByteSize and the two serialisers, over `WireFormat`, what they call of the
--     protobuf runtime; Message/Sizes compares them. Message/Parse is MergePartialFromCodedStream,
--     over `WireReader`, the reads of the runtime; its labels are functions that are given the next
--     round of the loop. Message/Written, /Labels, /LastFields and /RoundTrip follow what the
--     serialiser wrote through the parser, Message/Termination any input; Message/Plain is a wire
--     format with its reader to run them with. Message/Strings has the pointer behind a string
--     field, with mutable_, release_ and set_allocated_.
--   Channel: src/rpcChannel.h and src/rpcChannel.cpp. `call_method` is CallMethod,
--     `on_rpc_message` onRpcMessage, of which `on_response` is the branch for responses and
--     `resolve` and `answer` the two halves of the branch for requests, and `done_callback`
--     doneCallback. Services are a parameter, `ServiceClass`, whose CallMethod may run the closure
--     before it returns; what the channel does to objects of its callers is a list of effects.
--     Channel/Calls has the calling side, Channel/Refusals and /Requests the answering side of
--     a channel, which never gets its services, Channel/Unique, /Deletions and /Ownership what becomes
--     of response objects; `destroy` is the destructor.
--   Server: src/tcpServer.h and src/tcpServer.cpp without the sockets: `accept_cb`,
--     `notify_handler`, `buffer_event_cb` and `quit` on the pipes and connections of the
--     threads. Server/Choice is about the thread that gets a connection, Server/Conservation,
--     by the counts of Server/Counting, about what becomes of it; its `Step` lets the threads'
--     events come in any order, and writes to pipes fail. `close_conn` is a deletion by the codec.
--   Client: src/tcpClient.h and src/tcpClient.cpp. `make_client`, `start_run`,
--     `buffer_read_cb`, `buffer_write_cb`, `buffer_event_cb`, `quit` and `destroy` are what
--     makes, uses and frees the event base, the bufferevents and the buffers of the one
--     connection. A bufferevent is a number, and the user's callbacks are a function that may
--     change the client. Client/Steps says what can happen to a client, Client/Invariant what
--     stays true then, and Client/Lifetime follows it to its end.
--   RpcServer: src/rpcServer.h and src/rpcServer.cpp, the table of services
--     (RpcServer/Registry) and the channels made for connections, each named by a number.
--     RpcServer/Served has the server among the connections of its TcpServer, with the
--     callbacks that these call: the functions of Server/Objects given the callbacks that
--     RpcServer sets. RpcServer/Channels and /Ending follow it through any sequence of these.
--   Codec/Closing: `default_error_callback`, on the connections, bufferevents and queues of a
--     server's threads. Codec/Text: errorCodeToString. Its texts are lists of ASCII codes.
--   RpcCodec: src/rpcCode.h, src/rpcCode.cpp and the template ProtobufCodecLiteDerived, whose
--     callbacks change a state of their owner. RpcCodec/Link is RpcChannel::onMessage, a channel
--     over bytes, for any message class of RpcMessage; RpcCodec/Trip follows one call through the
--     bytes of both sides; RpcCodec/Proto is the message class that src/rpc.pb.cc makes on
--     the protobuf runtime, `Runtime`.
--   Channel/Race: `++_id` as a load and a store, for threads in any order.
--   Server/Life: the constructor, startRun, threadProcess, quit and the destructor of TcpServer on
--     what they open and free, given the results of the calls of the system. Server/Life/SettingUp
--     is about the constructor; Server/Life/Freeing goes on to the destructor.
--   Conn: the operations of class Conn of src/tcpServer.h on its buffers (Conn/Laws).
--   Atomic: include/atomic.h on the bit pattern of the integer; the compiler's builtins are atomic
--     steps that wrap around, and a signed sum of the language out of its range is a crash. Atomic/History has sequences of calls by any threads.
--   Server/Objects: the callbacks of TcpServer on the connections, bufferevents and queues of its
--     threads: `open_conn` is the part of notifyHandler for a connection, and bufferReadCb,
--     bufferWriteCb and bufferEventCb have their names. A callback of the user is a function that
--     may change all of these. Server/Opening and Server/Reading are about them, Server/Queues
--     and /Serving compare the linked queue of a thread with the descriptors in `Server`, through
--     the events of the thread in both, and Server/Progress follows the pipe of one thread.
--   Probe: src/build/CMakeFiles/3.10.2/CompilerIdC/CMakeCCompilerId.c, a program whose texts
--     depend on the compiler that compiles it. The macros that are defined are an argument.
--     Probe/Vendors and Probe/Compilers have COMPILER_ID and the versions, one function for
--     each branch; Probe/Platforms has PLATFORM_ID, ARCHITECTURE_ID and C_DIALECT; Probe/Output
--     the texts and `main`. Probe/CxxVendors and Probe/Cxx have its twin
--     CompilerIdCXX/CMakeCXXCompilerId.cpp. Probe/Digits, Probe/Reading and Probe/Twins are
--     about DEC, HEX, `main` and the two programs.
--
-- Bounds. `on_message` is given a number of rounds; a round that goes on takes four bytes or more
-- off the input, so one round more than there are bytes is enough; `on_message` of RpcCodec gives
-- as many. The destructor's loop is given rounds as well, one more than there are nodes; the
-- parser of a message one more than there are bytes, of which each of its rounds but the last
-- takes one.
--
-- Assumptions and what is left out. The message callback and the raw callback of a codec do not
-- change the input buffer while it is read. Calls of the buffer library that report a failure may
-- leave any buffer behind. The reads of the protobuf runtime give back what its writes wrote.
-- Logging, the event loop of libevent, sockets and threads themselves are not modelled.
pub mod Prelude
pub mod Atomic
pub mod Client
pub mod Endian
pub mod Platform
pub mod Codec
pub mod Conn
pub mod ConnQueue
pub mod Message
pub mod Channel
pub mod RpcCodec
pub mod RpcServer
pub mod Server
pub mod Probe
