-- ===== src/Lib.antt =====
-- The chat server of v4/ (the current version; v1 to v3 are its forerunners): an epoll reactor on edge-triggered
-- sockets, a length-prefixed packet format, and the chat application behind it. This library models the path of
-- the bytes: from the socket into a connection's input ring, through the codec to message events, and from the
-- packets that the application sends or broadcasts back through the connection's queue to the socket; the
-- application's handlers; the reactor that runs them; and the terminal client.
--
-- The files. Ring is `RingBuffer` of v4/ringbuffer.h (v3/ringbuffer.h is the same file), one function per
-- method, with children for its memory, its invariant, each method, `readv` into its regions and whole sequences
-- of calls. Codec is v4/codec.h: `decode` is `PacketCodec::decode`, `encode`, `decode_payload` and
-- `decode_message` are the members of `ProtobufCodec`. Conn is v4/connection.h. Wire is
-- `WebServer::attempt_write` of v4/webserver.cpp, with its three loops (`gather`, `advance`, `write_loop`). Send
-- is the rest of the sending side of v4/webserver.cpp: `send_pre_encoded` is `SendPreEncoded`, `handle_write`
-- its namesake, `flush_conn` what `flush_all_queues` does to one connection, and `broadcast_to` what a task of
-- `process_global_queue` does to one. Receive is `WebServer::handle_read`, `decode_all` its loop over the codec.
-- Chat is `ChatApp` of v4/chatapp.h: one function per handler, `process_event` on top; it returns the calls of
-- the server, of which Send and Codec say what becomes of them. Chat.Events has the sequences of network events.
-- SafeQueue is v4/safe_queue.h. Server is the table of connections of v4/webserver.cpp: `accept_client` is the
-- body of `accept_loop` for one client, `close_conn` its namesake, which `Close` only calls, and which is two
-- steps (`start_close`, `finish_close`) on a thread other than the reactor's; Server.Sweep is `check_timeouts`.
-- Reactor is `Run` with everything that it calls: `handle_event` is the body of the loop over the reported
-- events, `turn` one round of the `while`, `run_server` the whole, `stop_server` is `Stop`, where what the joins
-- of the workers come to is an argument (they block, or the workers have run some of the waiting tasks,
-- `work_off`); `accept_loop`, `flush_all_queues`, `broadcast` and `process_global_queue` are their namesakes,
-- and `run_task` is what a worker of the thread pool does with one task. ThreadPool is v4/threadpool.cpp, with a
-- worker's loop cut where it holds no lock. Codec3 is v3/codec.h: the codec of packets, beside that of v4, and
-- the codec of lines. Chat3 is v3/chatapp.h, whose hooks run on several threads: `on_client_connect`,
-- `on_client_disconnect`, and the message hook in its parts `take_message`, `claim_name`, `accept_name` and
-- `normal_chat`, between which other threads run; `close_client` is `close_conn` of v3/webserver.cpp as far as
-- the application sees it. Client is v4/client.cpp: `input_loop` over the bytes typed, with `enter` for a line
-- and `command` for one that starts with a slash; Client.Inbox is `login` (`log_in`), `receive_loop` and
-- `handle_server_message`. Base holds the helpers that they share.
--
-- State and concurrency. A method that changes an object returns the new one. Each body on a connection runs
-- under the connection's mutex, so that it is one step, and Send.History runs any sequence of such steps, and
-- Send.Registration follows the mask that epoll holds through the calls of `epoll_ctl`; Reactor.Steps has the
-- steps of the whole server (a handler of the reactor's thread is one step, with what it closes; a task of a
-- worker is one step; a close on another thread is two, between which its connection is closed and still in the
-- table), and Chat3 those of its hooks, in any order. `size_t` arithmetic is taken modulo 2^64 and `uint32_t`
-- arithmetic modulo 2^32, except where a comparison just before rules the wrap-around out. Bytes are numbers;
-- nothing depends on their being below 256 but the four bytes of a length, which `htonl_bytes` keeps below it.
--
-- What is not under this repository. The kernel: the answers of `writev` and `readv` are lists, one entry for
-- each call, and every list is allowed; a call with no entry left is reported as unanswered. A clock's readings
-- are arguments. That `readv` fills the regions in order is the record `Readv`, a parameter. Google's protobuf
-- library is the record `Protobuf`, a parameter: a message type with `SerializeToString` and `ParseFromArray`,
-- and that the second undoes the first; the chat application is given the parser alone. The members of a room,
-- an unordered set in the source, are visited in the order of a list. A message class that protobuf generates is
-- a parameter of Client.Inbox, with a function for its accessors. The tables of the shards are visited in the
-- order in which the connections were accepted, where the source leaves the order open. Tokens of the rate limit
-- are whole numbers of 10^-9, without the rounding of `double`.
--
-- Bounds and fuel. `decode_all` runs on fuel, and `handle_read` gives it one round more than the ring holds
-- bytes; each packet takes at least four bytes and the loop stops at the first round without a packet;
-- `decode_messages` of the client likewise. The loop over a heap of timers runs one round more than the heap has
-- entries, which is enough: an entry that is put back lies in the future. Everything else is structural
-- recursion. Reactor.Steps takes from the kernel, as `Fits`, that `accept` returns a descriptor that no
-- connection has which is open or which a thread holds to erase it, and that the clock does not go back. Byte
-- counts are assumed below 2^63 where a counter grows, well over any memory.
--
-- Not modelled: the set-up of sockets, epoll and signals, the blocking of a thread in a wait, the buffer pool,
-- the logger and the metrics; what the client shows on the terminal but for its texts and its prompt; the load
-- generators and, of the older versions, all but the codecs and the chat application of version 3.

pub mod Base
pub mod Ring
pub mod Codec
pub mod Conn
pub mod Wire
pub mod Send
pub mod Receive
pub mod Chat
pub mod SafeQueue
pub mod Server
pub mod Reactor
pub mod ThreadPool
pub mod Codec3
pub mod Chat3
pub mod Client
