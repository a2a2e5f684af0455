-- ===== src/Lib.antt =====
-- light_server: small TCP and UDP servers and a TCP client for Linux, over one epoll loop, and example
-- programs that use them.
--
-- A SocketManager owns the descriptors of the loop (epoll, an eventfd that ends it, an eventfd that
-- announces commands, a timer), a map from sockets to SocketObjects on the heap, and a queue of
-- commands. Its thread waits for events and dispatches them: a command, the timer, or an object whose
-- address was registered with epoll, which it hands to the IIOHandler of the server that owns it.
-- A server pushes MsgPackets into an object's queue and writes them when the socket is writable; what
-- it reads, it gives to its listener.
--
-- Which file models what:
--   MsgPacket           src/socket_manager/socket_object.h, struct MsgPacket; laws in MsgPacket/Laws
--   SocketObject        src/socket_manager/socket_object.h, class SocketObject; its queue in
--                       SocketObject/Queue, its receive limits in SocketObject/Limit (packets)
--                       and SocketObject/ByteLimit
--   Machine             the heap, the system calls, and the monad of code that may stop
--   SocketManager/      src/socket_manager/socket_manager.h and socket_manager.cpp
--     FdMap             std::map<SOCKET, SocketObject*>, as a list in key order
--     Descriptors       Reset, CtrlFD, SetNonBlocking, the clock and the timer
--     Objects           TriggerCmdEvent, AddSocketObject, RemoveSocketObject, ReleaseSocketObjects
--     Traffic           Send, UdpSend, the limits, CloseAllSocket, DisconnectSilenceConnections
--     Connect           ConnectToRemote, AsynchConnectTo, AddTcpSocket, AddUdpSocket
--     Events            DoWork, ProcessIo, DoProcessIo, ProcessCommand, ProcessTimer
--     Lifecycle         Start, Stop, StartWorkThread, StopWorkThread
--     Silence           theorems on DisconnectSilenceConnections and CloseAllSocket
--     Sending           theorems on Send
--     Membership        theorems on the members of the map
--     Batch             theorems on a batch of events and on the commands of an event
--     Releasing         what Stop deletes and closes
--     StartStop         theorems on Start and Stop
--     WellFormed        every entry of the map is a live object of its own socket, and an object is
--                       registered with epoll only under its entry; rules for code that
--                       keeps it so in WellFormed/Rules, the operations in WellFormed/Calls, Adding and
--                       Removing, the loop in WellFormed/Looping
--     Reachable         the states behind calls and events in any order; which calls return in them in
--                       Reachable/Returning and Reachable/Calls, Start in Reachable/Starting, and
--                       Stop in Reachable/Stopping
--     View              the table from sockets to objects, and what the calls mean on it
--   Server/Base         src/socket_manager/server_base.h and byte_buffer.h
--   Server/Input        the read loop of HandleReceive
--   Server/Output       the write loop of HandleSend; Output/Wire and Output/Flush have its theorems
--   Server/TcpServer    src/socket_manager/tcp_server.h and tcp_server.cpp
--   Server/UdpServer    src/socket_manager/udp_server.h and udp_server.cpp
--   Server/TcpClient    src/socket_manager/tcp_client.h and tcp_client.cpp
--   Server/Calls        the methods of the three that hand a call on to the manager
--   Server/Accept       theorems on HandleAccept
--   Server/Listening    theorems on CreateListenSocket
--   Server/Stopping     Stop of a TCP server that holds nothing
--   Server/StartStop    theorems on Start of the TCP server, with Stop behind it
--   Server/Heartbeat    theorems on OnTimer of the client
--   Server/WellFormed   the handlers of the three keep the manager well formed
--   Server/Delivery     what becomes of a message, from Send to the last byte written
--   Server/Receiving    what a listener is given by HandleReceive
--   Server/Hazards      undefined behaviour and misleading results
--   Crc                 src/utilities/common_funcs.cpp; which bytes it reads in Crc/Laws, its table
--                       in Crc/Table, a step on a byte in Crc/Division (over Crc/Xor), and a whole
--                       message in Crc/Message
--   DmPacket            src/examples/dm_packet.h and dm_packet.cpp; its theorems in DmPacket/Reading (any
--                       bytes) and DmPacket/Message (a valid message), over DmPacket/Shape and Rounds;
--                       a stream in pieces in DmPacket/Splitting (a round), Looping and Pieces (a call),
--                       Stream (a receiver) and Framing (its messages)
--   CommonFuncs         src/utilities/common_funcs.h: words out of bytes, arrays; what is printed into a
--                       buffer in CommonFuncs/Printing, its theorem in Printing/Dumping (over
--                       Printing/Room)
--   Examples/Text       what printing a buffer as a C string needs
--   Examples/TcpEcho    src/examples/tcp_server_base.cpp, tcp_server_tester.cpp, tcp_server_tester2.cpp
--   Examples/UdpEcho    src/examples/udp_server_tester.cpp
--   Examples/Console    src/examples/debug_fun.cpp and console_input_process_thread.cpp; its theorems in
--                       Examples/Console/Lines
--   Base, Common        shared names and lemmas; constants, and int as a bit pattern; bytes of memory in
--                       Common/Memory
--   Tests               concrete runs
--
-- The listeners of the examples are instances of the listeners that the servers take as parameters; the
-- console is separate, a state of two flags and the bytes of standard input.
--
-- Names are those of the source in small letters with underscores, without the trailing underscore of
-- a field. An int or a uint32_t is its bit pattern, a natural number below 2 ^ 32, and -1 is
-- 2 ^ 32 - 1; arithmetic that can wrap is written with % 2 ^ 32 or % 2 ^ 64.
--
-- State. A computation takes a State (the heap of SocketObjects, the manager, the object that owns it,
-- and the trace of system calls, newest first) and returns a value with a new state, or a Fault:
-- undefined behaviour, a failed assertion, or the end of the rounds. A void* is a Pvoid: a member of
-- the manager, or the address of an object, and reading a freed address is undefined behaviour. What
-- is not assigned yet is an argument (Kernel.memory, the bytes of a header) or an absent value.
--
-- The kernel is a parameter: Kernel.answer gives the result of a call from the trace, the call
-- included, so each theorem holds for every behaviour of the kernel. The listeners are parameters
-- too, as computations on the same state.
--
-- Threads. An operation of SocketManager, and the work for one event, is one step of Reachable,
-- changes of the owner's members and other system calls are steps too, and steps of several threads
-- stand in any order. AddFD and ModifyFD are steps where they are not given the address of an object. What two threads do to the map or to the queue of
-- commands at the same time, which the mutexes of the code guard in part, is outside of that.
--
-- Rounds. The loop over a packet that is sent has as many rounds as the packet has bytes, and one: each
-- write that goes on takes a byte. The loops that only an answer of the kernel ends (reading, the
-- event loop) have Kernel.rounds rounds. DmPacketRead has two rounds for a byte, and one. A receiver
-- of a stream has a round for a byte. The loop of the console has a number of rounds, and one for a
-- line is enough.
--
-- Not modelled: the other threads (the thread of the loop is the argument worker of stop, which runs
-- where pthread_join waits), the mutexes, output to cout, failing allocation, the vendored libraries
-- (spdlog, uthash, the leak detector), what PrintSockaddr and the examples print (but for the
-- read of a buffer as a C string), and main,
-- which starts the console and the two echo servers and stops them.
pub mod Base
pub mod Common
pub mod Crc
pub mod CommonFuncs
pub mod DmPacket
pub mod MsgPacket
pub mod SocketObject
pub mod Machine
pub mod SocketManager
pub mod Server
pub mod Examples
pub mod Tests
