-- ===== src/Lib.antt =====
-- A verification library for the nginx-style server of linux_c++_6_4/nginx, the last state of the
-- course's server: a process that accepts TCP clients, receives length-prefixed packages from them
-- through epoll, puts each complete package into a queue, and lets a pool of threads check it and run
-- its command.
--
-- The parts, and how they work together:
-- * Net.Memory is misc/ngx_c_memory.cxx: AllocMemory and FreeMemory for messages and answers. A
--   block is its address; the addresses that are allocated and not freed are a list. Connection objects
--   have addresses of their own, in Net.Socket, and are not in that list.
-- * Net.Conn is the structures of _include/ngx_c_socket.h and ngx_comm.h (connection, message header,
--   package header, receive states) with GetOneToUse and PutOneToFree.
-- * Threads is the queue of received messages of misc/ngx_c_threadpool.cxx with inMsgRecvQueueAndSignal
--   and Call. Threads.Workers is Create, ThreadFunc and the first half of StopAll as steps that
--   interleave, Threads.Stopping the caller of both beside them, to the end of StopAll; Places, Order
--   and Owners are about every interleaving, Progress about what the threads can still do.
-- * Net.Recv is the receiving state machine of net/ngx_c_socket_request.cxx on one connection:
--   ngx_wait_request_handler with its four receive states, ngx_wait_request_handler_proc_p1 for a
--   complete header and ngx_wait_request_handler_proc_plast for a complete package. Net.Recv.Stream
--   says, byte by byte and without buffers, which packages a stream holds; Holds relates the buffers to
--   the bytes of the package that has begun, Package and Steps treat the handler's branches, Refine any
--   sequence of calls, Whole and Delivery what a client that follows the protocol gets.
-- * Net.Socket is net/ngx_c_socket_conn.cxx: the pool of connections, the free list, the queue of those
--   that wait 60 seconds for their release, and the thread that releases them. Socket.Invariant,
--   Lifecycle and Recycling are about its lists and counters.
-- * Net.Request is recvproc, sendproc and the whole of ngx_wait_request_handler; Net.Accept is
--   net/ngx_c_socket_accept.cxx; Net.Epoll and Net.Events are ngx_epoll_oper_event and
--   ngx_epoll_process_events of net/ngx_c_socket.cxx, which call the handlers. Net.Events.Kept and Pool
--   are about what a round of events leaves of the connection pool, Net.Send about sendproc.
-- * Net.Listen is the other half of that file: ReadConf and the sockets on which the master listens,
--   Net.Start is ngx_epoll_init, which gives a worker its connections; Listen.Tracked and Closing are
--   about the descriptors, Start.Listeners about the connections of the listening sockets.
-- * Net.Inet is ngx_sock_ntop of net/ngx_c_socket_inet.cxx.
-- * Worker puts the threads of a worker together: the event loop, the recycling thread and the pool
--   threads take turns in any order, a pool thread four for each message: it takes it off the queue, checks
--   it, runs its command and frees it. Worker.Blocks, Received, Balance, Handlers, Accepting, Rounds,
--   Jobs and Finish follow the blocks of memory through the operations, Turns through all turns; Faces
--   and Listening do so for the connections of the listening sockets. Worker.Init is
--   ngx_worker_process_init of proc/ngx_process_cycle.cxx, with Create and with Net.Subproc, which is
--   Initialize_subproc, Shutdown_subproc and msgSend of net/ngx_c_socket.cxx; Worker.Exit is about what
--   Initialize_subproc leaves, and has clearMsgRecvQueue.
-- * Logic is logic/ngx_c_slogic.cxx: threadRecvProcFunc, which a pool thread calls with a message, and
--   the registration and log-in commands. Logic.Check and Corrupt are about the checks before a command
--   runs, Stale about messages that outlive their client, Reply about the answer to a registration.
-- * Crc is misc/ngx_c_crc32.cxx; Crc.Bitwise is about its table and its result, Crc.Step and Detect
--   about what it tells apart.
-- * Printf is ngx_sprintf_num, and Printf.Format the rest of app/ngx_printf.cxx; Number, Digits and
--   Bounds are about what they write, Ends about the end of the loop.
-- * Conf is app/ngx_string.cxx and app/ngx_c_conf.cxx: Load, which reads the items of a configuration
--   file, and the two look-ups; Conf.Roundtrip is about a file that is written item by
--   item, Conf.Ends about the end of its loop.
-- * Log is app/ngx_log.cxx: what a line of the log is made of and where it is written; Log.Lines is
--   about the lines and where they go, Log.Errno about ngx_log_errno. The other parts do not call it in the model, as a line changes nothing
--   of their state.
-- * Signals is signal/ngx_signal.cxx: the table of signals, the handler and the loop over waitpid();
--   Signals.Children is about both loops.
-- * Process is the master process of proc/ngx_process_cycle.cxx with its workers and its title, and
--   proc/ngx_daemon.cxx; Process.Title is app/ngx_setproctitle.cxx on the memory that main counts,
--   Process.Spawned and Title.Environ are about them. Process.Main is main and freeresource of
--   app/nginx.cxx, Main.Exits and Process.Daemon about how main ends.
-- * ReadTest is read_test, the repository's second server, where it differs from the first:
--   ReadTest.Conf is app/ngx_c_conf.cxx, a map that is read line by line, ReadTest.Pool is
--   net/ngx_c_socket_conn.cxx, whose recycling thread counts another number down than the queue that it
--   shortens. ReadTest.Pool.Drift compares it with Net.Socket, whose operations it shares; Runs and
--   Starved are about what the counters become.
--
-- Prelude holds the tests on native numbers, lists, machine words, byte buffers and exclusive or that
-- the parts share. Examples holds concrete runs.
--
-- How the code is represented. An object that is shared through pointers (a connection) lies in a map
-- from addresses; the other objects are records that are passed on. `char` buffers are lists of bytes.
-- An `int` or `unsigned` counter is its bit pattern and wraps at 2 ^ 32; the sequence number of a
-- connection wraps at 2 ^ 64; a size_t difference is taken modulo 2 ^ 64. What the kernel answers
-- (recv, send, accept, epoll_ctl, epoll_wait) is an argument, also the time, and what fresh memory
-- holds; operations on doubles are a record of functions that the theorems take for any such functions.
--
-- Bounds and fuel. The digit loop of ngx_sprintf_num has fuel 64, more than the twenty digits of a
-- 64-bit number; its padding loop has the size of the buffer as fuel, as each round writes a byte;
-- ngx_vslprintf has the length of the format, and Load that of the file, of which every round takes a
-- byte, and a loop that ran out of fuel would have no result; the digits that sprintf() makes of an int
-- have fuel 10; the release loop of the recycling thread has one more than the connections that wait, as
-- each round takes one away.
--
-- Not modelled: the calls of the log, the locks but for the thread pool's (an operation under a lock is
-- one step), the signal masks, and the sending thread of net/ngx_c_socket.cxx, which is commented out.
-- A worker does not come to an end in the model: its loop has no exit, so the calls of StopAll and
-- Shutdown_subproc behind it, which are modelled for themselves, are never reached. A read error of the configuration file is left out.
-- The earlier states of the server (linux_c++_4_2 to linux_c++_6_3), the event loop, the listening
-- sockets and the logic of read_test, the client and the third-party TCP stack are outside.
pub mod Prelude
pub mod Printf
pub mod Crc
pub mod Threads
pub mod Net
pub mod Logic
pub mod Conf
pub mod Worker
pub mod Log
pub mod Signals
pub mod Process
pub mod ReadTest
pub mod Examples
