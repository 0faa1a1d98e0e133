-- ===== src/Lib.antt =====
-- servd: a server over io_uring whose clients send framed commands over TCP, Unix sockets and UDP, in a
-- binary or a text protocol, in the open or inside an AES-GCM channel keyed by an X25519 exchange.
--
-- A frame goes through the parts in this order. The engine accepts a client
-- (src/UringEngine/ClientHandlers.cpp), reads frames from its stream (IoUring.cpp, FrameIO.cpp), fetches
-- the frame's session from the session store (include/servd/store), enters the client in the session
-- table and hands the frame to the command router (CommandRoute.cpp, EncryptedHandler.cpp), which looks
-- up the endpoint (include/servd/router), checks it and calls the application's handler; the answer is
-- written through the connection (ConnectionImpl.cpp, UdpConnection.cpp), and the session is saved.
-- Server messages (SessionBroadcast.cpp) go to the descriptors of the session table. Discovery packets
-- are answered by a loop of their own.
--
-- The files:
--   Base, Result, Exec      shared lists, bytes, maps, decimal numerals; exceptions as a result type;
--                           coroutines that serve one request as functions of a state that comes back
--                           beside an exception too
--   Protocol                include/servd/Protocol.hpp: `encode_header` and `decode_header` are the
--                           copies of the packed struct on a little-endian host
--   Session                 include/servd/interfaces/Session.hpp and ISessionStore.hpp; Session/InMemory
--                           is include/servd/store/InMemorySessionStore.hpp
--   Context, Access         include/servd/Context.hpp, the authenticator, which may change the session
--                           and the bag before it answers, the test of an endpoint's requirements and
--                           the call of its handler; Context/Bag is the property bag, Access/Messages
--                           the server messages that a handler sends
--   Router                  include/servd/router: the table as a function of the command id
--   Crypto                  include/servd/crypto/AesGcm.hpp and X25519.hpp; Crypto/Rng is Rng.hpp
--   Connection              the connection classes; `async_write` records what the kernel took
--   Command, Encrypted      CommandRoute.cpp and EncryptedHandler.cpp, function by function
--   Stream, Text            async_read_exact and read_frame; the text protocol
--   Engine                  handle_client, text_handle_client, start_accept_loop: `serve_frame` is one
--                           round of a client's loop, `finish_client` what follows it; Engine/Loop is
--                           the whole coroutine of a client, from its first read to the close;
--                           Engine/Secure joins the exchange of keys and the encrypted channel
--   Messaging               send_to_session, do_broadcast, do_broadcast_if
--   Datagram, Discovery     one round of start_udp_loop, of start_discovery_loop, where an exception
--                           ends the round, and of the announcement
--   Config                  load_config over the setters of src/serveur/ServerConfiguration.cpp
--   Tasks                   include/servd/Task.hpp: the promise, and when_all as the order in which its
--                           tasks complete; Tasks/Tuple is the variadic one, Tasks/Void is
--                           Task<void>, and Tasks/Owner is about the frames that Task objects own
--   Pool                    include/servd/ThreadPool.hpp; Pool/Steps holds the steps of its threads
--   EventLoop               src/UringEngine/EngineCore.cpp: posts, the queue behind them, the rounds of
--                           the loop in any order with posts and submissions
--   Lifecycle               src/serveur/ServerLifecycle.cpp: init, on what the kernel answers; Lifecycle/
--                           Stages has a rule for each way to build a part of it, and Lifecycle/Calls
--                           the setters that a program calls before, load_config aside
--   Timers                  periodic_timer_loop of src/UringEngine/ClientHandlers.cpp
--   Dbus                    bus_monitor_loop of the same file
--   App                     app/main.cpp, a program on top of the parts above
--   Logger                  src/Logger.cpp, entries as bytes on the standard error and in a file
--   Fixtures, */Tests       concrete values and runs
--
-- Numbers: a machine integer is a natural number; where the source truncates, the model has `% 2 ^ w`,
-- and where a width matters a theorem assumes it (`IsFrameHeader`).
--
-- Parameters: Botan (`Botan`, with its documented behaviour in `IsBotan`), the random bytes, what the
-- kernel takes of each write and delivers to each receive, the application's handlers and authenticator,
-- the session store where the default one is not meant. `Crypto.Toy` is a Botan that computes.
--
-- Fuel: a reader runs on a list of completions and every round of its loop takes one, so the fuel is
-- one more than the completions; a reader that has used them all is `pending`, waiting for the kernel.
-- A round of a client's loop takes at least one completion, so the same fuel is enough for it.
--
-- Interleaving: a step of the engine serves one frame to its end or lets one client come or go, and
-- steps of different clients follow one another in any order. What other coroutines do while a handler
-- waits is not modelled. The steps of a thread pool are what its threads do under a mutex, in any order,
-- and a worker may go on whenever its condition holds, notified or not;
-- the tasks of when_all complete on one thread, in any order; the event loop runs on what the
-- surroundings do in each round.
--
-- Not modelled: socket options and how single operations enter the ring, which are system calls; what a
-- coroutine handle resumes, other than by counting its resumptions; the notifications of the pool's
-- condition variable; what handlers and authenticators do with the server other than to send messages;
-- the signal handlers, and the text of the log's time.
pub mod Base
pub mod Result
pub mod Protocol
pub mod Session
pub mod Context
pub mod Router
pub mod Crypto
pub mod Exec
pub mod Connection
pub mod Access
pub mod Encrypted
pub mod Command
pub mod Stream
pub mod Text
pub mod Engine
pub mod Messaging
pub mod Datagram
pub mod Dbus
pub mod Discovery
pub mod Config
pub mod Tasks
pub mod Pool
pub mod EventLoop
pub mod Lifecycle
pub mod Timers
pub mod App
pub mod Logger
pub mod Fixtures
