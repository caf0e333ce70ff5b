-- ===== src/Lib.antt =====
-- The gazon server: a file server that many clients use over a line-based protocol.
--
-- A connection sends packets. The server's job for a packet finds the connection's context, reads
-- the packet as a command with arguments, asks the command's middleware whether it may run, checks
-- and converts the arguments, and executes the command, which works on the context, on what the
-- connections share (the accounts, the counts of sessions, the virtual file system) and writes to
-- the client. Jobs wait in the queues of a thread pool.
--
-- Base: numbers, lists, texts (lists of bytes) and maps (association lists) that all parts share.
-- Scan: src/common/common.cpp, with an index loop as recursion on the rounds that its bound leaves,
--   so no fuel is chosen. Scan.Shell reads words the way a shell does.
-- FilePath: src/common/path.cpp and include/common/path.h, every operation of `Path`. What
--   `snprintf` prints for the user's name is the record Printf, which says only that a format
--   without conversions is printed as it is.
-- Errors: the exceptions; code that may throw returns a Result. Numbers: `std::stoi`.
-- Config: the accounts and settings of src/common/config.cpp; Config.File: the reading of grass.conf.
--   `getcwd`, `mkdir` and the reading of a word as a `uint16_t` are the record ConfigHost.
-- Context: include/common/context.h; `Context::logged` is passed explicitly, its counts wrap at 2^32.
-- Filesystem: src/common/filesystem.cpp, include/common/filesystem.h, and `commit` of
--   src/common/file.cpp. The tree of entries is a data type with the counters of each entry, which
--   wrap at 2^64. The record Os holds the answers of the system calls. A locked block is one step.
-- Command: src/common/command.cpp and include/common/command.h. The loop of `commandFromInput` runs
--   on fuel of one more than the bytes of the line; each round moves on by a byte at least.
-- Session: src/common/commands and the job of src/server/server.cpp. A command is a function from a
--   session to a result and a session, so what was written before an exception stays written. The
--   commands get, grep, ls and put are the record FileCommands: what they run, and the contract that
--   they leave the context, the counts of sessions and the settings alone. Transfer.Schedule fills get
--   and put, and Grep.Keeps fills grep where its behaviour is defined; for ls, and for grep where its
--   behaviour is undefined, the contract is an assumption of what is said of a session.
-- Server: the map of contexts of src/server/server.cpp, its handlers for a packet and for a closed
--   connection. A job is one step; Server.Runs: jobs and closings of any connections in any order.
-- Pool: the queues of include/common/threadpool.h; an access out of an array's bounds is `none`.
--   ThreadPoolQueue has a block under a mutex as one step; a worker runs on fuel of one more than the
--   items of its subqueue.
-- Regex: include/common/regexpostfix.h. The loop of `convert` and that of `parseRepetitions` run on
--   fuel of one more than the bytes of the expression; each round moves on by a byte at least.
--   Regex.Nfa: include/common/regexnfa.h, states in a memory with pointers to their fields. A visit of
--   `addStateToStateList` runs on fuel of one more than the states that are allocated, since each call
--   but one marks a state. Regex.Dfa: include/common/regexdfa.h, states on a heap with a cache.
--   Regex.Pattern: include/common/regex.h. Bytes are numbers, and the count of steps, an `int` in the
--   code, does not overflow. `allocateState` has no test for the end of `m_states`; a write behind it is
--   `none`.
-- Transfer: src/common/commands/put.cpp; Transfer.Get: src/common/commands/get.cpp. The record Peer
--   holds what the calls on the second connection answer. The contents of the files are a map from
--   the strings of their paths. A job runs undisturbed. The loop of `get` runs on fuel of one more than the bytes of the file.
-- Grep: src/common/commands/grep.cpp. Sorting by `strcoll` is a parameter that keeps the names. The
--   recursion runs on fuel of one more than the height of the tree. A write behind the end of the
--   array of positions and an access to a deleted state are outcomes of their own.
-- Sockets: the buffer of src/common/socket.cpp and the event loop as one connection sees it. The loop
--   over the packets runs on fuel of one more than the bytes of the buffer.
-- Examples: concrete runs.
--
-- Not modelled: the body of ls, the other system calls on sockets, the client, what get and put print
-- on the server's terminal, and failures of the streams behind `File` and `TemporaryFile`, which are
-- system calls.
-- Texts are shorter than 2^32, so an index of type `uint` does not wrap.
pub mod Base
pub mod Scan
pub mod FilePath
pub mod Errors
pub mod Numbers
pub mod Config
pub mod Context
pub mod Filesystem
pub mod Command
pub mod Session
pub mod Server
pub mod Pool
pub mod Regex
pub mod Transfer
pub mod Grep
pub mod Sockets
pub mod Examples
