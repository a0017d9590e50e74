-- ===== src/Lib.antt =====
-- Samples of the Linux API and of socket programming in C: a thread pool, two web servers, echo and chat servers
-- with their clients, and programs with threads and signals.
--
-- The parts, which are programs of their own and share no code though much text, and the files that model them:
--
-- ThreadPool: thread_pool/threadpool.c, a pool with a ring of tasks, a manager thread that adds and removes
-- workers, and callers that submit. ThreadPool/State has the struct threadpool_t and the places of a worker,
-- ThreadPool/Create threadpool_create, threadpool_free and threadpool_destroy, ThreadPool/Queue threadpool_add,
-- ThreadPool/Worker threadpool_thread, split where it waits and where it holds no lock, ThreadPool/Adjust a round
-- of adjust_thread. ThreadPool/System lets them take turns in any order: a step is what a thread does between two
-- points at which it gives the lock up, and a pthread_create that starts no thread is counted. ThreadPool/Demo has the
-- submissions of main. What the allocator and the pthread calls answer is a record, Answers.
--
-- Http: http_code/epoll/http_epoll.c and http_code/libevent/libevent_http.c, two web servers for a directory.
-- Http/GetLine has get_line, Http/Epoll the handler do_read with http_get_request and disconnect, Http/Reply
-- send_response_head, send_file and send_dir, Http/Loop do_accept, epoll_addfd, set_nonblocking and
-- epoll_run over any finite number of waits, Http/FileType get_file_type, Http/Decode hexit and decode_str,
-- Http/Libevent the callbacks and replies of the second server. A function that sends gives the list of blocks
-- that it passes to send or bufferevent_write, and one that changes descriptors the list of its calls. Http/Files
-- is the file system as a parameter; a socket is the list of answers that it will give to one-byte reads.
--
-- Threads: thread_code/sem_thread.c (Threads/Sem) and thread_code/cond_thread.c (Threads/Cond), producers and
-- consumers as step relations over the globals and the places of the threads. In Threads/Cond the lock is what keeps the
-- two moves that link a node, and the two that print and unlink one, together.
--
-- Setup: how the servers below open their sockets, up to one that listens: socket, setsockopt, bind and listen with
-- what follows when one of them fails; also main of http_code/epoll/main.c and init of server_code/server.c.
-- Setup/Listening has what a set-up leads to.
--
-- Echo: servers of select_poll_epoll that send back what they read, in upper case. Echo/Epoll is lt_work and et_work of
-- epoll_server2.c; lt_work of epoll_server.c is the same text, and its et_work is Echo/Drain. Echo/Main composes Setup
-- with the loop over epoll_wait in main of both. Echo/Poll is poll_server.c and Echo/Select is select_server.c, with
-- FD_SETSIZE 1024: the table or set of clients and the main loop. Echo/Modes is mtlt.cpp, from which 9-3mtlt.cpp
-- differs in printed text only. Echo/Buffer has the buffer that a server keeps from one read to the next and the loop
-- to upper case, where a result of none is an access outside an array; servers of the other directories use it too.
--
-- Clients: tcp_code. Clients/Users is server_thread.c, a table of clients that main fills and that a thread for each
-- client empties, as a step relation, and Clients/Session the loop of such a thread. The counter user is kept as the
-- number of times that it was raised less the number of times that it was lowered, since it is -1 for a moment when a
-- client leaves before main counts it; its load and its store are two steps, since no lock keeps them together, and the
-- theorems on the counter say for which runs they hold. Clients/Fork is server_fork.c, the loop of a child over the
-- buffer that it keeps, and Clients/Parent its parent with the handler recycle_child for SIGCHLD, where ++user is a
-- load and a store. Clients/Client is client.c: its loop takes its server as a Peer, of which both servers are
-- instances.
--
-- Chat: server_code. Chat/Room is server.c, the table of clients, and a turn of main and of service_thread; Chat/Client
-- is client.c, and Chat/Client/Delivery follows a line from one client over the server to another.
--
-- Events: lIbevent_code/event_server.c, its callbacks, and a run over what libevent calls with the addresses that are
-- allocated. Udp: udp_code/udp_server.c, and in Udp/Client udp_client.c with it. Signals:
-- signal_code/recycle_process_signal.c, a step relation for a father that forks five children while SIGCHLD is blocked
-- and waits for them in its handler. Tree: dir_code/file_count.c, the recursive count of regular files.
--
-- Common has the shared names: Boolean tests on native numbers, lists indexed by them, weighted counts.
--
-- Numbers are natural numbers. Descriptors, sizes and counters are non-negative where the sources use them; the
-- -1 of a failed call is an Option. The counters of Threads stay below the limit of int by a condition of the step.
-- Bytes are unsigned. Loops are structural, but for these, which run on fuel: send_blocks, with the length of the
-- file, since a block takes a byte at least; decimal, with one round more than the number, since each round divides
-- it by ten; read_on, with one line more than the socket has answers, since each line takes one; and a number of
-- rounds where the source counts.
--
-- Endless outer loops are run for any finite number of rounds, waits or messages. A read of a socket gives what the
-- theorems say of it; that TCP may split and join messages is left to these conditions.
--
-- Not modelled: the main functions of dir_code and of the libevent programs, printed text, sends that take only a part
-- of their block, overlong words that sscanf and sprintf write past a buffer (but for the paths in file_count.c and in
-- send_dir of http_epoll.c), a peer that sends without end, memory races of accesses without a lock (but for those on
-- the counters of tcp_code), the threads of server_code/server.c side by side, and the samples of one or two system
-- calls, which keep no state and make no decision (the fifo programs of lIbevent_code, IO_code, IPC_code, ls_code,
-- process_code, chdir.c, and the rest of signal_code).
pub mod Common
pub mod ThreadPool
pub mod Http
pub mod Threads
pub mod Echo
pub mod Tree
pub mod Clients
pub mod Chat
pub mod Setup
pub mod Udp
pub mod Events
pub mod Signals
