-- ===== src/Lib.antt =====
-- A model of the node manager (NoM): a program that listens on a UDP port, takes nodes that register,
-- pings each of them, and tells all nodes when one does not answer any more.
--
-- The parts, from the bottom up:
--   Types      the enumerations and `str_MessageState` of source/Utils.h. An `enum class` may hold
--              any number, so a value without a name has a constructor of its own.
--   Wire       `set_bits` and `get_bits` of source/Utils.cpp. A buffer is a list of bytes; an access
--              outside of it, and a shift beyond a `uint32_t` or an `int`, is a fault, which is `none`.
--   Packet     the classes of source/Packet.h with `encode` and `decode` of source/Packet.cpp. The
--              class of an object is a constructor of `AnyPacket`, so that the casts of the source
--              are partial functions.
--   SafeQueue  `ThreadSafeQueue` of source/Utils.h, each method one step under the mutex.
--              SafeQueue/Threads has any number of threads on one queue in smaller steps, with
--              threads that sleep until they are notified.
--   Node       source/node_service: a monitored node, its states and its thread. What the other
--              threads do while it waits is an argument (`Wake`, `Round`); the messages that a
--              handler pushes are part of its result. Node/Moves has the thread in small steps,
--              between which others set the pong flag or stop the node at any place.
--   Manager    source/NodeManagament.cpp: the vector of nodes, the handlers and the two threads by
--              turns, with the queues that they share with the nodes and with the IO handler.
--              Manager/Watch has the manager and the threads of its nodes as one relation, in which
--              a round of a node is one step.
--   Udp        source/udp_connected_lib/UDPConnector.cpp: the socket, and the thread that fills the
--              queue of raw buffers.
--   IoHandler  source/IOHandler.cpp: the thread that parses buffers into packets for the manager, and
--              the thread that sends the packets of the manager.
--   Heap       the packets as objects that are made and deleted by source/IOHandler.cpp and
--              source/NodeManagament.cpp, and the pointers to them in two queues and two threads.
--   AppCtrl    source/AppCtrl.cpp: the menu and the loop of `main`, and in AppCtrl/Console what they
--              show, with `MAIN_LOG` of source/Log_Handler.h; AppCtrl/Delivery follows a datagram
--              through the three receiving threads, and AppCtrl/System has the turns of all threads
--              of the program, in any order, as one relation, with the socket that `initialize` sets.
--   Common     what these share.
--
-- A file beside a folder holds the definitions of its part, the files in the folder what is proved
-- of them, and Examples concrete runs. Names are those of the source in this language's spelling. An
-- `int` or `uint8_t` that the source keeps in its range is a natural number, with the cut to its
-- width where the source cuts. The time, the text of the local time, the lines that are typed and
-- the answers of Winsock are arguments.
--
-- Loops over a list or a counter are structural. `handleThread` runs for the rounds that are listed,
-- the loop of `main` for a number of rounds of which a result below says how many are enough, and
-- the other threads are given by single turns, since they end only when they are stopped.
--
-- Not modelled: in the log file (`DEBUG_LOG`), the prefix of a line and the lines that are not
-- about nodes (those are in Node/Log and Manager/Log), and races on data without a lock: a turn of
-- a thread of the manager or of the handler is one step. In Manager/Watch no step of the manager falls
-- between the message of a node's death and the `stop` behind it, where the source may delete the
-- node and wait for its thread, which ends by itself (Node/Moves/Ending). `start` and `stop` of the
-- two parts are without the creation and the joining of threads. `sockaddr_in` is its port and its
-- address. A line is always typed in the end: the end of the input is not modelled. The Python tools
-- are not part of the program.
pub mod Common
pub mod Wire
pub mod Types
pub mod Packet
pub mod SafeQueue
pub mod Node
pub mod Manager
pub mod Udp
pub mod IoHandler
pub mod Heap
pub mod AppCtrl
