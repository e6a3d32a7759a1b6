-- ===== src/Lib.antt =====
-- jinyi, a small epoll web server: its HTTP connection, socket helpers, logging, timers,
-- poller and pool of loops.
--
-- Http (net/HttpData.h, net/HttpData.cpp). `Types` has the enumerations and the fields of HttpData,
--   `Mime` the table of MimeType::init. `Uri` is parseURI and `Headers` is parseHeaders, one step for
--   each byte. `Analysis` is analysisRequest, `Reply` is handleError, `Reset` is reset and
--   seperateTimer with Timer::clearReq. `Conn` is handleWrite, `Phases` the do-while block of
--   handleRead, and `Handlers` the rest of handleRead with handleConn, newEvent and handleClose. A
--   connection (`Conn`) is its HttpData, its socket, and the calls that its handlers made on the
--   event loop. `Session` is a connection over several events.
-- Util (net/Util.cpp). readn and both writen over lists of the kernel's answers; `Listen` is
--   socket_bind_listen and setSocketNonBlocking.
-- Log. `Convert` and `Stream` are base/LogStream.h and base/LogStream.cpp, `AppendFile` is
--   base/FileUtil.cpp, `Logger` is base/Logging.h and base/Logging.cpp: the line of a LOG statement and
--   its way to AsyncLogging. `Async` is base/AsyncLogging.cpp: the front end, and the back-end thread
--   as one step for each stretch between two points where other threads come in. `Async/Run` has the
--   runs, any order of log lines, steps of the thread and `stop`; the shared buffers are addresses in
--   a store. `Async/Output` is about the order of what is written.
-- Loop (net/). `Timer` is net/Timer.h and net/Timer.cpp, `Pool` is net/EventLoopThreadPool.cpp,
--   `EventLoopThread` is net/EventLoopThread.cpp, `Poller` is net/Epoll.cpp: the calls that register
--   a channel, getEventsRequest and poll; `Channel` is net/Channel.h, `Server` is net/Server.cpp.
--   `EventLoop` is net/EventLoop.cpp, with `EventLoop/Steps` for loop() beside other threads. `Serving`
--   puts poller, channel and connection together: an event of a connection with what its handlers do
--   to the poller, how a connection is opened, and in `Serving/Rounds` a round of the loop with many
--   connections.
-- Sync (base/). `Mutex` is base/MutexLock.h, `Latch` is base/CountDownLatch.cpp with its condition
--   variable, each critical section one step, and `Latch/Locked` has lock, unlock and wait as steps of
--   their own. `Thread` is Thread::start of base/Thread.cpp beside the new thread, with
--   base/CurrentThread.h, and `Thread/Handles` is start, join and the destructor in any order.
-- Prelude has the shared names: tests on numbers, lists, byte texts and searching them, decimal
--   numerals, single bits. Tests runs the functions on concrete inputs.
--
-- Given from outside: the answers of the system calls (lists in `Socket`, records in `Listen`, whether
-- a call of epoll_ctl succeeds), the time of day, the file system, the icon and MimeType::getMime,
-- which is declared without a body (`Site`), what snprintf writes for a double, the order of
-- std::priority_queue, and LogFile, whose calls of append are recorded. A list of answers that has
-- ended means that the call would block, and for fwrite that it takes all.
-- Threads call CurrentThread::tid() as it is written, which is 0 in each, and pthread_create may fail.
-- A failed assertion is an outcome; whether assertions are compiled in is a parameter `checks` of
-- `EventLoopThread` and `Logger`, and `Sync/Thread` and `Async` take it that they are.
-- Undefined behaviour, such as copying from position -1, is a result of its own, and so are an overrun
-- of handleError's array and the exception of handleEvent. Fuel: `handle_read`
-- takes one unit for each call of handleRead, each of which but the first two has a byte less before
-- it than the one that called it; `reset` takes one for each nested call; the decimal digits of n take
-- n + 1, which is more than their number.
-- The source does not compile as it stands; where a name is misspelt or a body is missing, the model
-- takes what the callers need and says so in the file.
-- Not modelled: what epoll_wait and epoll_ctl do in the kernel, the names that prctl gives to threads,
-- and what is only a single system call.
pub mod Prelude
pub mod Util
pub mod Http
pub mod Log
pub mod Loop
pub mod Sync
mod Tests
