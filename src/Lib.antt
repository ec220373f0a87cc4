-- ===== src/Lib.antt =====
-- simplev: a network library in the style of muduo on top of libev, in C++. One thread runs one event
-- loop; a connection belongs to one loop and is touched only in its thread.
--
-- The parts, with the file of this library that models each:
-- * simplev/src/simplev/net/Buffer.h, Buffer.cc (Buffer.antt): the byte buffer of a connection. A vector
--   with two indices; `append`, `prepend`, `retrieve`, `make_space`, `read_fd` and the others are the
--   methods of those names, camel case turned into snake case, here and below.
-- * simplev/src/simplev/net/Channel.h, Channel.cc (Channel.antt): the events of one descriptor and the
--   dispatch to callbacks, with the tie to its owner.
-- * simplev/src/simplev/net/TcpConnection.h, TcpConnection.cc (TcpConnection.antt): a connection, which
--   owns an input buffer, an output buffer, a channel and a socket. `send_in_loop` and `handle_write`
--   move bytes from the user through the output buffer to the kernel. Served puts a connection under
--   its owner and its loop, from `connectEstablished` to `connectDestroyed`.
-- * simplev/src/simplev/net/Connector.h, Connector.cc (Connector.antt): a client's attempts to connect.
-- * simplev/src/simplev/net/EventLoop.h, EventLoop.cc (EventLoop.antt): the queue of functors that other
--   threads hand to a loop, the event descriptor that wakes it, and its end. Functions for the methods,
--   and steps (Order) for what threads and the loop do in turn, where `queueInLoop` and `quit` are
--   interrupted between their accesses. Iteration is `prepareCallBack` with functors that call them.
-- * simplev/src/simplev/net/TimerQueue.h, TimerQueue.cc, Timer.h, Timer.cc and TimerId.h (TimerQueue.antt):
--   the timers of a loop, as objects on a heap that can be deleted.
-- * simplev/src/simplev/net/EventLoopThreadPool.h, EventLoopThreadPool.cc (EventLoopThreadPool.antt): which
--   loop the next connection gets.
-- * simplev/src/simplev/net/Acceptor.h, Acceptor.cc (Acceptor.antt): the listening socket of a server.
-- * simplev/src/simplev/net/TcpServer.h, TcpServer.cc (TcpServer.antt): the map of a server's connections;
--   its pool of loops is the one of EventLoopThreadPool.antt.
-- * simplev/src/simplev/cases/curl/download.cc (Downloader.antt): a client that fetches a file in pieces.
-- * simplev/src/simplev/base/LogStream.h, LogStream.cc (LogStream.antt): text of numbers, pointers and
--   strings in a buffer of fixed size, for the log.
-- * simplev/src/simplev/base/BlockingQueue.h, BoundedBlockingQueue.h, CountDownLatch.h and CountDownLatch.cc
--   (BlockingQueue.antt, BoundedBlockingQueue.antt, CountDownLatch.antt): monitors, as the steps that
--   threads make with the mutex, with Condition.h's conditions in BoundedBlockingQueue.antt.
-- * simplev/src/simplev/net/TcpClient.h, TcpClient.cc (TcpClient.antt): a client, which owns a Connector
--   and makes a connection of each socket that it hands over.
-- * simplev/src/simplev/net/EventLoopThread.h, EventLoopThread.cc (EventLoopThread.antt): the thread of a
--   loop of the pool, over simplev/src/simplev/base/Thread.h and Thread.cc (Thread.antt), which start, join
--   or detach a thread, and CurrentThread.h (CurrentThread.antt), which keeps its number as text.
-- * simplev/src/simplev/base/Mutex.h and Condition.h (MutexLock.antt): a mutex that knows its holder, and
--   how a wait takes the holder away and gives it back. simplev/src/simplev/base/Atomic.h (Atomic.antt):
--   integers that wrap around.
-- * simplev/src/simplev/net/SocketsOps.h, SocketsOps.cc, Socket.cc and InetAddress.cc (SocketsOps.antt):
--   what the code does with the answers of system calls, byte orders, and texts of addresses. Accepting
--   puts it under Acceptor::handleRead.
-- * simplev/src/simplev/cases/curl/Curl.h, Curl.cc (Curl.antt): transfers of libcurl on a loop. Watching is
--   about the channel of a request, Finishing about the end of transfers.
-- * simplev/src/simplev/base/StringPiece.h (StringPiece.antt): a text that belongs to someone else.
-- * simplev/src/simplev/base/Logging.h, Logging.cc (Logging.antt): a statement of the log, over LogStream,
--   whose child Printf is the part of snprintf that prints numbers of a width. History is about many
--   statements in a row.
-- Prelude.antt holds what they share. Each part has its state as a record and one function per method;
-- its child modules hold the invariants and the theorems, and its Tests module runs of the code.
--
-- A run of code that can stop is a `Result`: a failed assert, an access outside an object, an exception
-- of a container or LOG_FATAL is a value of `Fault`. The kernel is outside: what `write`, `readv`,
-- `connect` and `getsockopt` answer are arguments of the functions, and theorems hold for every answer
-- within the manual's limits (no call takes or gives more bytes than it is offered). A socket keeps the
-- bytes that it was given, so that order and loss can be stated. Callbacks of the user are parameters
-- or, where they are queued, constructors of a type `Functor`. The thread that calls a method is an
-- argument where the method asks for it.
--
-- Bounds and fuel: the loops of `convert` and `convertHex` divide until the number is zero; they run on
-- fuel that is the number plus one, and the theorems on them say that the digits come out; the digits
-- of snprintf are found likewise. The loop in which libcurl asks to be called again runs on fuel too,
-- one more than the number of times that it asks, which is given with each event; that it stops asking is
-- libcurl's to keep. The counters of connections are the 32 bits of an int, and theorems on them ask
-- that no more than 2147483646 connections were made; the count of a CountDownLatch is not bounded. The
-- steps of a connector call `restart` only while no attempt is under way, as TcpClient does. A 64-bit
-- value has at most 20 decimal and 16 hexadecimal digits. A vector is at most `max_size` long, beyond which `resize`
-- throws; theorems on a buffer ask that its indices stay within it.
--
-- Not modelled: floating point numbers in the log; setOutput, setFlush and Timestamp, which reads the
-- clock and prints it; Exception, whose stack trace is the C library's; the names that connections and
-- threads have in the log; calls that only forward to libcurl, libev or the kernel; and the programs in
-- net/tests, base/test and cases that try the library by hand.
pub mod Prelude
pub mod Acceptor
pub mod Atomic
pub mod BlockingQueue
pub mod BoundedBlockingQueue
pub mod Buffer
pub mod Channel
pub mod Connector
pub mod CountDownLatch
pub mod Curl
pub mod CurrentThread
pub mod Downloader
pub mod EventLoop
pub mod EventLoopThread
pub mod EventLoopThreadPool
pub mod LogStream
pub mod Logging
pub mod MutexLock
pub mod SocketsOps
pub mod StringPiece
pub mod TcpClient
pub mod TcpConnection
pub mod TcpServer
pub mod Thread
pub mod TimerQueue
