-- ===== src/Lib.antt =====
-- TinyHttpServer: an HTTP server with a pool of event loops, and the pages that it serves.
--
-- The program's parts. An `HttpServer` sits on a `TcpServer`, which names the connections that come,
-- gives each a loop of an `EventLoopThreadPool` in turn, and keeps them until they are removed. An
-- `EventLoop` waits in its `Epoller`, runs the handlers of its `Channel`s, and then the functions that
-- were queued for it. A `TcpConnection` reads the bytes of its socket into a `Buffer`; the callback of
-- `HttpServer` hands them to an `HttpContext`, whose `HttpRequest` is parsed from the buffer line by
-- line, and whose `HttpResponse` is written to a second buffer, which the connection sends. A
-- connection that is idle falls out of the buckets of `HttpServer`, and is shut down. A POST of the
-- login or the register form is decoded and held against the database over a connection from
-- `SqlConnPool`. The pages run two small scripts of their own over jQuery and its plugins.
--
-- The files. A path of the repository stands behind each.
--   Prelude        shared types, list lemmas, `Result` with the faults of the code, maps, and the
--                  arithmetic of `size_t` (Prelude/Words: additions and subtractions wrap at 2 ^ 64);
--                  Prelude/Digits is about `std::to_string`
--   Buffer         src/base/buffer.h, src/base/buffer.cc: a record of the vector and its two indices.
--                  Its children are about the bounds of the indices (Bounds), what `makespace` does
--                  (Growth), each operation on the readable bytes (View) and whole runs (Run)
--   Patterns       src/http/httprequest.cc: the regular expressions of the request line and of a
--                  header, as functions on a line; Patterns/Spec holds what they should match
--   Urlencoded     src/http/httprequest.cc: `ConverHex` and `ParseFromUrlencoded_`
--   UserVerify     src/http/httprequest.cc: `UserVerify` over a pool and a database
--   SqlPool        src/sql/sqlconnpool.cc, src/sql/sqlconnpool.h, src/sql/sqlconnRAII.h
--   Page           resources/js/custom.js, resources/js/magnific-popup-options.js
--   HttpRequest    src/http/httprequest.h, src/http/httprequest.cc: the parser over a buffer. Refine
--                  states it on the plain bytes, Ends is about its loop, and Print about printed
--                  requests
--   Channel        src/event/channel.h, src/event/channel.cc
--   Epoller        src/event/epoller.cc, src/event/pollbase.h: Sync is about the agreement of
--                  status, map and kernel, Toggle about two changes in a row, and Poll about `poll`
--   HttpResponse   src/http/httpresponse.h, src/http/httpresponse.cc: Layout holds the text that a
--                  response puts into the buffer
--   TcpConnection  src/server/tcpconnection.h, src/server/tcpconnection.cc: Sending is about the
--                  order of the output, and Closing about its two ways to close. Ops holds the
--                  operations of a connection; Dispatch is about a round of events that fails,
--                  and Calls and Life about how often it is closed
--   HttpContext    src/http/httpcontext.h, src/http/httpcontext.cc: Page takes a request for a page
--                  from its bytes to those of the response
--   HttpServer     src/httpserver.h, src/httpserver.cc, src/server/entry.h: Idle is about the buckets
--                  over time, and Serve about a message that is a request for a page
--   TcpServer      src/server/tcpserver.h, src/server/tcpserver.cc: Spec numbers the connections,
--                  Names and Count are about their names and numbers, and Refine holds the server
--                  beside Spec. Whole is the server with its connections, over Ops of TcpConnection;
--                  Times counts in lists of connections, Fits is what holds of the whole, Worked,
--                  Removed and Came are about its acts, and Kept about the map
--   LoopPool       src/server/eventloopthreadpool.h, src/server/eventloopthreadpool.cc: Start is about
--                  the loops it starts with, and Turns about the one that each call returns
--   LoopThread     src/server/eventloopthread.h, src/server/eventloopthread.cc, with `quit` and `loop`
--                  of src/event/eventloop.cc: Told is about `quit_` and `loop_`, Leave about the join,
--                  and Quit about a `quit` that comes too early
--   EventLoop      src/event/eventloop.h, src/event/eventloop.cc: Queue is about the order of the
--                  functions that are queued, and their wake-up
--   ThreadPool     src/threadpool.h: Join is about the tasks that were run when the workers have been
--                  joined, and Ends about how long they go on
--   FourHeap       src/base/four_heap.h, src/base/four_heap.cc, src/base/timernode.h: Index is about
--                  the positions noted for the numbers, Shift about the moves up and down, Timers,
--                  Removal and Change about single calls, Run about runs of them, and Expired and
--                  Found about `get_k`
--   TimerQueue     src/base/timerqueue.h, src/base/timerqueue.cc: Numbers is about the numbers of the
--                  timers, Book is the map that Calls and Expiry compare a queue with, and Quiet is
--                  about a round of `reset_`
--   Acceptor       src/event/acceptor.h, src/event/acceptor.cc, with `accept` of
--                  src/server/socketserver.cc: Spare is about its spare descriptor
--
-- Each class is a record with its fields, and each member function is a function that takes the record
-- and returns the new one, in a `Result` where it can fail an assertion, access memory out of bounds,
-- exceed a vector, or wait for ever. A definition has the name of the member that it models, without
-- the underscore at its end.
--
-- Parameters. The kernel, the MySQL client, jQuery and its plugins are arguments of the definitions
-- that use them; what a theorem needs of them is among its hypotheses.
--
-- Bounds and fuel. A `size_t` wraps at 2 ^ 64, and a vector holds 2 ^ 63 - 1 bytes at most, beyond
-- which `resize` throws. An `int` that counts bytes of a body or a line is taken to be in range, which
-- holds for less than 2 ^ 31 bytes. The decoder of forms has one round more than the body has bytes,
-- and each round moves on by one at least. The loop of the parser has one round more than there are
-- readable bytes, and each round but the last takes two of them off.
--
-- The state machines of several threads are relations on a state, whose steps are what a thread does
-- under a mutex or by one call of the kernel: SqlPool/Interleaving, EventLoop, LoopThread and
-- ThreadPool. The moves of a timer in its heap have one round more than the heap has timers, and each
-- goes further down; the children of a node are at `pos << 3`, as C++ reads `pos << 2 + 1`. A signed `int` that
-- is counted up fails at its largest value. A number that is printed has at most 21 digits, more
-- than any `size_t`.
--
-- Not modelled: how the acceptor listens; what the callbacks of a `TcpConnection` do, apart from those of
-- `HttpServer`, each on its own; `extend_timer`, which lacks its return statement; the calls of `TcpConnection` from a thread other than its
-- loop's; logging, which nothing reads back; the wrappers of socket calls; and the styles and
-- third-party scripts of the pages.
pub mod Acceptor
pub mod Buffer
pub mod Channel
pub mod Epoller
pub mod EventLoop
pub mod FourHeap
pub mod HttpContext
pub mod HttpRequest
pub mod HttpResponse
pub mod HttpServer
pub mod LoopPool
pub mod LoopThread
pub mod Page
pub mod Patterns
pub mod Prelude
pub mod SqlPool
pub mod TcpConnection
pub mod TcpServer
pub mod ThreadPool
pub mod TimerQueue
pub mod Urlencoded
pub mod UserVerify
