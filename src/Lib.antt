-- ===== src/Lib.antt =====
-- NetClass, a small library of sockets and threads in C++ (src/): a model of its code, and proofs.
--
-- The parts of the program. ncSocket (src/ncsocket.h, src/ncsocket.cpp) is a client socket: it
-- connects, writes, reads, flushes and closes, and counts its own timeouts. ncSocketListener
-- (src/ncsocklist.cpp) accepts connections or datagrams, makes an ncSocket or a udpData for each
-- (src/udpdata.h) and hands it to a callback, in a thread of ncThread (src/ncthread.cpp) or in its own.
-- ncMutex (src/ncmutex.cpp) wraps the native mutex with a flag. src/ncarch.h hides the platforms
-- behind macros; src/ncconsts.h and src/ncenums.h hold the constants and the return codes.
--
-- The files of the model.
--   Common: numbers, 32-bit words, signed integers, lists, tests. Consts: src/ncconsts.h, src/ncenums.h.
--   Arch: the macros of src/ncarch.h over the numbers and calls of the system headers (Defs), and the
--   systems and configurations that it accepts (Platforms).
--   Socket.State: the members of ncSocket, its constructors, setters and getters. Socket.Handle: close,
--   flush, ~ncSocket. Socket.Owned: how often a descriptor is closed. Socket.Ownership: what
--   flush and a socket without a descriptor do to that. Socket.Hostname: the stored name.
--   Socket.Timeout: checkTimeout. Socket.Udp: the datagrams of a connected UDP socket.
--   Socket.Connect: both methods connect (Defs), the loop round ::connect (Attempts, Sleeping), the
--   whole method (Paths, Outcome, Ends), dotted addresses (Dotted), and open descriptors (Opened,
--   Reconnect).
--   Socket.Poll: writeData and readData where the build has poll. Os is the interface of the system
--   calls, Loop the loop that the two methods share line by line, with the direction as an argument,
--   Calls the two methods; Contracts states what the system calls are documented to do, Outcome what a
--   call promises, Rounds, Runs, Progress, Still, Waiting, Steady, Kept prove it; Write, Read, Stall and
--   Quota hold the results, and Stream is about a writer and a reader at the ends of one connection.
--   Socket.Select: writeData and readData where the build has select only. Memory is what a pointer into
--   the buffer reaches, Os the system calls, Loop and Calls the code; Outcome, Passes and Runs prove what
--   Write and Read state; Again is about sends that block, Wait about the time.
--   Socket.Builds: the two builds on one system. System says what the system has to answer, Bytes
--   compares a buffer as a list and in memory, Agreement and Step one pass with one round, Loops the
--   two loops, Same the methods where they agree, and Differ readData where they do not.
--   Mutex: src/ncmutex.cpp, both builds (Defs), the flag while calls do not overlap (Flag), the threads'
--   calls statement by statement (Threads), the POSIX build against a specification (Refine), and the
--   flag in the WIN32 build, where a thread can lock again (Section).
--   Thread: src/ncthread.cpp for POSIX (Defs), which threads are reclaimed (Lifecycle), and the WIN32
--   build (Win32). Datagram: src/udpdata.h.
--   Listener: src/ncsocklist.cpp: the members and small operations (Defs), the loops that accept and
--   receive (Serve), startListening as a whole (Start); proofs on the bind loop (Binding), on the
--   time that it sleeps (Naps) and on an address that is in use (Unbound), on what becomes of a
--   connection in a round and why a round fails (Handing, Failing), on the end of the rounds
--   (Ending), on the loop that accepts (Clients), on its runs that end well (Good): the order of the connections (Order) and the
--   threads that are joined or detached (Reclaim), on the other calls and on failures (Quiet,
--   Causes), on the whole call (Whole), on stopListening (Stopping), and on the loop of the
--   datagrams (Datagrams).
--   StartUp: src/netclass.cpp.
--   Examples: concrete systems, runs and instances.
--
-- How code and model correspond. A method is a function from the object and the state W of the
-- system to the new object, the new state and the result. The system calls are fields of a record
-- (PollOs, SelectOs, ConnectOs, InetCalls, ModeCalls, FileOs, PosixMutex, CriticalSection, ThreadOs,
-- Win32Os, WinsockOs, ListenOs) over W, and a theorem holds for every such record that keeps the
-- contract which the theorem names; no call is modelled by a definition. The members of ncSocket are
-- a record without the prefix m_; a FILE pointer is an Option. An int is an unbounded integer (its
-- values here stay within the length of the buffer); an unsigned int wraps at 2 ^ 32, and unsigned
-- long at 2 ^ 64, and a pointer has 8 bytes, as on 64-bit POSIX systems. A buffer is its list of
-- bytes, and a pointer into it is an offset; in the select build, where the pointer can leave the buffer, the memory is a function of the signed distance
-- from the buffer's start, and FD_SET is taken to have room for the descriptor. A null pointer to a
-- count is `none`. What the other threads do to a listener while it is in a call is a function of
-- the interface, so that a theorem holds for everything that they may do. Undefined behaviour is
-- `none` in place of a result.
--
-- Fuel. The loops of writeData, readData, connect and startListening run on fuel, one unit for each
-- test of the loop, and give `none` when it runs out. timeout / polltime + 3 units are enough for the
-- transfers, since each round without progress adds polltime to the clock; timeout / 100 + 1 for connect,
-- which sleeps 100 ms in each round; and 11 for the loop round ::bind, which counts its attempts. The
-- loops that accept and receive need one unit more than the rounds until the listener is stopped.
--
-- Not modelled: the debug output, and the includes, type synonyms and casts of src/ncarch.h.
pub mod Common
pub mod Consts
pub mod Arch
pub mod Socket
pub mod Mutex
pub mod Thread
pub mod Datagram
pub mod Listener
pub mod StartUp
mod Examples
