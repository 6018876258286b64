-- ===== src/Lib.antt =====
-- clsocket: a model of the socket library of src/, with theorems on what its methods do.
--
-- The library wraps the sockets of the operating system. `CSimpleSocket` (src/SimpleSocket.h,
-- src/SimpleSocket.cpp) holds a handle, the last error, a receive buffer that it manages, addresses and
-- options; `CActiveSocket` (src/ActiveSocket.h, src/ActiveSocket.cpp) adds `Open`, which connects, and
-- `CPassiveSocket` (src/PassiveSocket.h, src/PassiveSocket.cpp) adds `Listen`, `BindMulticast` and
-- `Accept`, which makes a new `CActiveSocket`. Each method that calls the system translates errno into
-- the object's error with `TranslateSocketError`, and most time themselves with a `CStatTimer`
-- (src/StatTimer.h). The programs in examples/ use the two classes.
--
-- How the model stands to the code:
--   Base      numbers, integers, machine words, lists (Base/Int, Base/Lists, Base/Tests).
--   Net       what is outside: errno, addresses, the calls of the system, and `Env`, an environment that
--             answers each call from the calls made so far, and gives the clock and inet_addr(3).
--   Error     `CSocketError`, `TranslateSocketError` as Linux compiles it, `DescribeError`. Error/Windows:
--             the error table of Windows.
--   Host      the 64-bit conversions of src/Host.h.
--   Timer     `CStatTimer`.
--   Socket    the members of `CSimpleSocket` as a record, the state of a run (the object, errno, the
--             caller's buffer, the calls made, newest first, the readings of the clock), and the monad
--             `Op` of methods. An outcome is a value with a state, `exhausted` where the fuel of a loop
--             is gone, or `fault`: a read or write of the receive buffer, of the caller's memory or
--             of a program's array outside its bounds, what `Send` reads of the pointer that it is handed
--             included, a bit outside the descriptor sets of `Select`, or `new` with a negative size. The
--             static block of `SendFile` has no bounds in the model, and the vector form of `Send` is
--             given the bytes of its elements.
--             Socket/Lifecycle: constructors, destructor, `Initialize`, `Close`, `Shutdown`. Socket/Send: `Send` in
--             both forms, `Flush`, `Writev`. Socket/Receive: `Receive`. Socket/SendFile: `SendFile`.
--             Socket/Select: `Select`. Socket/Options: the methods that set or read an option
--             (Socket/Options/Bits: `|` and `& ~` on flags).
--             Socket/Access: the methods that the class body defines, which read a member or hand on.
--             Socket/Steps: lemmas on the monad.
--   Active    `CActiveSocket`: `Open` and the three `Connect` methods.
--   Passive   `CPassiveSocket`: `BindMulticast`, `Listen`, `Accept`, `Send`. Passive/Converse: `Receive`
--             and `Send` of a UDP object in turn.
--   Windows   what Windows compiles in place of the Linux parts: the translation of the last error,
--             `Initialize`, `SetNonblocking`, `SetBlocking`, and the resolution of a name in `Connect`.
--   History   the public methods of the three classes as steps on one object, in any order (`Method`,
--             `Reaches`); History/Calm, Moves, Answers, Opening, Buffers and Owning take the methods group by
--             group.
--             History/World: programs with several objects, some of them from `Accept`, as steps.
--             History/Writes and Reading follow `Receive` through the memory it writes,
--             Moves and Running take what the others read, and History/World/Memory is about several
--             objects.
--   Programs  the programs of examples/, on the object that `main` declares: Programs/EchoServer,
--             Programs/RecvAsync (its two threads are two programs: they share nothing but the kernel)
--             and Programs/QueryDayTime. Programs/Chunk and Programs/Listening have what they share:
--             bytes that come and go back, and a server that comes to listen. Programs/Errno, Counts,
--             Signals and Guests follow a client of a server from method to method when anything may fail, and
--             the two files called Safety the servers themselves; the two called Stuck are about
--             servers that make no progress. Programs/RecvAsync/Server and Thread are about the server
--             thread, Polling, Client, Session, Connection and Main about the client, Together about
--             the two over one kernel.
--   Examples  the properties at concrete inputs.
-- Methods keep their names, in lower case with underscores; a child module such as Socket/Send/Method
-- holds the theorems of its parent's methods.
--
-- Integers: `int32` and the results of calls are integers. Wrap-around is written out in the DSCP
-- arithmetic, the block size of `SendFile`, the conversion to `size_t` and the timer's `uint32`; the
-- other sums are unbounded: the total of `Writev`, the count and the offset of `SendFile`, the byte
-- counts of the programs, the timer's microseconds before their conversion. Handles are integers with
-- -1 for INVALID_SOCKET.
--
-- Fuel: the retry loops of `Send`, `Receive` and `Accept` and the loop of `SendFile` take the number of
-- rounds they may run. The source has no such bound; how much is enough, and where none is, is said by
-- the theorems on those loops. A theorem on a loop that returns gives the amount it needs. The loops of
-- the programs take a number of rounds of their own; the server's loop runs as long as its handle is
-- valid, so a theorem on it says what it has done when its rounds are spent.
--
-- The system is a parameter: nothing is assumed of it but what a theorem names as a hypothesis, for
-- instance that a call that succeeds leaves errno alone.
--
-- Bytes that nothing has written are `none` in a block; where a program sends them they read as the
-- argument `stale`, and where it prints them as the bytes of the argument `old`, whatever those are.
--
-- Not modelled: the macros of src/Host.h that rename system calls, which are the calls of Net; what
-- differs on Windows in those macros and in the types of variables; the build files and the docs.
pub mod Base
pub mod Net
pub mod Host
pub mod Error
pub mod Timer
pub mod Socket
pub mod Active
pub mod Passive
pub mod Windows
pub mod History
pub mod Programs
pub mod Examples
