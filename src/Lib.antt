-- ===== src/Lib.antt =====
-- A verification library for dkftpbench, an FTP benchmark that runs many simulated users from one
-- thread: each user is a state machine that a scheduler and a poller of sockets call back.
--
-- Parts, from below, with the files that model them (paths from the repository's root):
--   Nbbio, for dkftpbench-0.45/nbbio.h and nbbio.cc: the circular buffer between a nonblocking
--     socket and the code. `Nbbio` is the class, with `buf`, `get_from`, `put_to`, `linelen` and
--     `lastchar` for m_buf, m_getFrom, m_putTo, m_linelen and m_lastchar; `put`, `readc`,
--     `readline`, `flush_to` and `fill_from` are the methods put, readc, readline, flushTo and
--     fillFrom. Nbbio/Fifo is the bounded queue that it stands for, Nbbio/Line the scan of lines.
--     What `read` and `write` of the operating system answer is a parameter.
--   Eclock, for dkftpbench-0.45/eclock.h: comparing clock readings that wrap.
--   Sked, for dkftpbench-0.45/Sked.h and Sked.cc: the scheduler, a heap in an array. `sked_index`
--     holds the member skedIndex of every client. `push`, `pop`, `remove`, `add_client`,
--     `del_client` and `run_all` are push, pop, remove, addClient, delClient and runAll. Whether
--     an allocation succeeds, and what the callbacks do, are parameters.
--   FtpProto, for dkftpbench-0.45/ftp_client_proto.h and ftp_client_proto.cc: the protocol of an
--     FTP client. FtpProto/Replies has giveInput, FtpProto/Requests has login, cd, type, size, ls,
--     get and quit (`login`, `cd`, `set_type`, `get_size`, `ls`, `get`, `log_out`). The lines that
--     are read from an Nbbio are what giveInput gets.
--   Poller, for dkftpbench-0.45/Poller.h and Poller.cc: the pipe by which a poller is woken up; `drain`
--     is the loop of WakeUpClient::notifyPollEvent.
--   PollerPoll, for dkftpbench-0.45/Poller_poll.h and Poller_poll.cc: the descriptors that `poll`
--     watches. `fd_to_pfd` is m_fd2pfdnum; `add`, `del`, `set_mask`, `or_mask`, `and_mask`,
--     `wait_for_events`, `get_next_event` and `wait_and_dispatch` are the methods of those names.
--     What `poll` answers and what the clients do are parameters.
--   PollerSelect, for dkftpbench-0.45/Poller_select.h and Poller_select.cc: the same interface over
--     `select`, with the same names; `fd_limit` is m_max_fd + 1 and `next_fd` is m_cur_fd + 1.
--   Pipe, for dkftpbench-0.45/ftp_client_pipe.h and ftp_client_pipe.cc: the client that joins a
--     protocol to its two sockets, the poller and the scheduler. `Os` holds what the operating
--     system, the poller, the scheduler's memory and the application's handle_data_io answer during
--     one call; `log` is what is asked of the operating system and the poller, `timer` the pipe's
--     entry in the scheduler. Pipe/Ephemeral has ephemeral_connect and connect, Pipe/Data and
--     Pipe/Control the two halves of notifyPollEvent, Pipe/Notify notifyPollEvent itself,
--     shutdownAndNotify, skedCallback and kickstart, Pipe/Requests login to get. The callback
--     ftpCmdDone of the application is a parameter, a function on the pipe.
--   Robouser, for dkftpbench-0.45/robouser.h and robouser.cc: one simulated user. `goto_state`,
--     `start`, `stop`, `ftp_cmd_done` and `sked_callback` are gotoState, start, stop, ftpCmdDone
--     and skedCallback, and `cmd_round` is one turn of the loop of ftpCmdDone. `Calls` holds what
--     its connection does, which may call the user back (Robouser/Connection fills it with the
--     pipe, which calls the user back as its last act), and `World` the settings of the platoon, the clock and the comparison of rates, which
--     the code does in floating point.
--   Platoon, for dkftpbench-0.45/Platoon.h and Platoon.cc: the users. `users`, `in_state` and `dead`
--     are m_users, m_nInState and m_deadlist; a user is known by its slot. Platoon/Fleet has init,
--     reset, startUser, reap, getStatus, skedCallback (`ramp_up`) and the setters, and handle_data_io
--     of robouser.cc. Platoon/Census counts the users of the table in each state.
--   CText: the functions on strings of the C library that FtpProto calls.
--   Common: shared names, tests on numbers, lists, memory and error codes.
--
-- Bounds and fuel. Bytes and clock readings are numbers below 2^8 and 2^64, with the wrap-around of
-- the clock written out. `readline` runs on fuel for each byte in the buffer, `flush_to` on fuel for
-- two writes, the sifting loops on fuel for the index or the number of records, which halves or
-- doubles; the theorems about them show that this is enough, since nothing is left undone. `run_all`
-- takes its fuel as an argument; more than the number of scheduled events is enough. The loops of
-- `wait_and_dispatch` take their fuel as an argument too, and give `unfinished` without it. An assertion
-- that fails is the result `aborted`, and an access outside a buffer is `stray`, or `undefined` where the language gives it no meaning.
-- The loop of Pipe/Control runs on fuel for each byte in its buffer and three rounds more, the loop that
-- binds a local port on fuel for each ephemeral port, and the loop of ftpCmdDone on fuel for two
-- rounds. `ramp_up` takes its fuel as an argument; one more than the users that are missing is
-- enough. The counts of users and of reads and the numbers in replies are not cut to the range of
-- int, which the C standard leaves undefined.
--
-- Descriptors are numbers: what the code does with a negative one is written out in `del` of PollerPoll,
-- and elsewhere left out, as is the assertion that it is not -1. `runAll` is specified for callbacks
-- that schedule nobody for a time that has come. The program's callbacks schedule clients for later
-- times, or for the reading of the clock at the call, which is past that of `runAll` but for calls
-- within the same tick.
--
-- Not modelled: debug output, Sked::isHeap, which only expensive tests call, the other pollers,
-- the CORBA wrapper, the main program and the tests. What becomes of the sockets of a user that is
-- deleted is not kept.
pub mod CText
pub mod Common
pub mod Eclock
pub mod FtpProto
pub mod Nbbio
pub mod Pipe
pub mod Platoon
pub mod Poller
pub mod PollerPoll
pub mod PollerSelect
pub mod Robouser
pub mod Sked
