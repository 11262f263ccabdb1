-- ===== src/Lib.antt =====
-- netlib, a network library in C++ for Linux: event loops, connections, timers and logging.
--
-- The program. One EventLoop runs in each thread. It waits in its Epoller, which maps descriptors
-- to Chnnels and tells the kernel what to watch, and lets each active Chnnel call its handlers. A
-- TcpConnection is such handlers around two Buffers; a Connector makes connections and tries again
-- when they fail; a TimerQueue runs callbacks when a descriptor of timerfd is due. Work for
-- another thread's loop is queued and its thread woken. Log lines go through AsyncLogging to the
-- thread that writes them.
--
-- The files, each with its children, and the code they model:
--   Base           shared: tests on numbers, lists and maps, machine words, assertions
--   Buffer         netlib/net/Buffer.{h,cc}: bytes between two indices in a vector; integers are
--                  stored in network byte order
--   Chnnel         netlib/net/Chnnel.{h,cc}: interest masks and the order of the callbacks
--   TcpConnection  netlib/net/TcpConnection.{h,cc}: every handler, with the calls it makes of others
--                  as effects, over a Buffer each way
--   TimerQueue     netlib/net/TimerQueue.{h,cc}, Timer.{h,cc}: two sorted sets of timers, cancelling
--                  while callbacks run, when the descriptor fires
--   EventLoop      netlib/net/EventLoop.{h,cc}: a step relation of the loop's thread and others, the
--                  round over active channels, the loops of threads
--   Epoller        netlib/net/Epoller.{h,cc}: the map, the flags and the kernel's set
--   EventLoopThread  netlib/net/EventLoopThread.{h,cc}: handing the loop of a new thread over
--   EventLoopThreadPool  netlib/net/EventLoopThreadPool.{h,cc}: which thread's loop is next
--   Connector      netlib/net/Connector.{h,cc}: attempts, retries and stopping
--   Acceptor       netlib/net/Acceptor.{h,cc}, `accept` of Socket.cc and SockFunc.cc: where accepted
--                  descriptors go
--   SockAddr       netlib/net/SockAddr.{h,cc}, SockFunc.cc: addresses and their text
--   TcpClient      netlib/net/TcpClient.{h,cc}: one connection at a time, over a Connector
--   TcpServer      netlib/net/TcpServer.{h,cc}: its map of connections, their steps in two loops
--   AsyncLogging   netlib/base/AsyncLogging.{h,cc}, FixedBuffer of LogStream.h: two threads that
--                  exchange buffers, from `start` to `stop`
--   LogStream      netlib/base/LogStream.{h,cc}: numbers as text, `operator<<` into a buffer
--   Logging        netlib/base/Logging.{h,cc}: a log statement, from its level to its line
--   FileUtil       netlib/base/FileUtil.{h,cc}: `AppendFile` over a stream of stdio
--   LogFile        netlib/base/LogFile.{h,cc}: files that roll by size and by day
--   CountDownLatch netlib/base/CountDownLatch.{h,cc}: any number of waiting threads
--   Mutex          netlib/base/Mutex.h, Condition.h: locking, and waiting on a condition
--   Thread         netlib/base/Thread.{h,cc}: starting a thread, over a CountDownLatch
--   Date           netlib/base/Date.{h,cc}: Julian day numbers
--   Time           netlib/base/Time.{h,cc}: times as text
--   TimeZone       netlib/base/TimeZone.cc: UTC and local times, zone files
-- The C++ names are kept in snake case: `TcpConnection::sendInLoop` is `send_in_loop`.
--
-- How the code is read. An operation is a function from the state to the state; what it does to
-- other objects is a list of effects beside it. Where the code asserts, the result is an Option
-- and `none` a failed assertion; a null pointer that is followed and other undefined behaviour,
-- such as more than 25 full buffers in one round of AsyncLogging, are `none` too. System calls are
-- arguments: what `write`, `readv`, `connect` or `epoll_wait` returned. Where a property needs
-- their documented behaviour it is a hypothesis, and an instance in the Examples keeps it. An int
-- of the code is a natural number with its bound written out where the code can pass it: Buffer's
-- indices are below 2^31, and the times of timers count microseconds from the epoch; `toString` is
-- that of times before it too. Day numbers are meant to stay below 2^29 - 32044: from there on the
-- products of `getYearMonthDay` overflow an int, and it is `none`; `toUtcTime` has its casts to
-- int. Locked blocks are single steps, and callbacks are numbers. Loops are recursion on lists,
-- but for those that run on fuel: `convert` and `convertHex`, with a number's successor, more than
-- it has digits, and the loop of `AppendFile::append`, with the successor of the message's length,
-- as each turn writes a byte or ends.
--
-- Not modelled: socket options and the other wrappers of system calls, the queries of the operating
-- system in CurrentThread, ProcessInfo and Exception, floating-point times, and templates without state.
pub mod Acceptor
pub mod AsyncLogging
pub mod Base
pub mod Buffer
pub mod Chnnel
pub mod Connector
pub mod CountDownLatch
pub mod Date
pub mod Epoller
pub mod EventLoop
pub mod EventLoopThread
pub mod EventLoopThreadPool
pub mod FileUtil
pub mod LogFile
pub mod LogStream
pub mod Logging
pub mod Mutex
pub mod SockAddr
pub mod TcpClient
pub mod TcpConnection
pub mod TcpServer
pub mod Thread
pub mod Time
pub mod TimeZone
pub mod TimerQueue
