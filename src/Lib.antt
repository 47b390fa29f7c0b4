-- ===== src/Lib.antt =====
-- A model of the core of an IRC client and server: the data structures that both share, the state
-- machine of a connection, the server's record of users and channels, the server's clients, commands
-- and event loop, and the line editor of the client.
--
-- The server (server/src) multiplexes its clients by poll. What a client sends is collected in the
-- buffer of its `Client`, cut into messages at CRLF, and each message becomes an event. The dispatcher
-- takes the events from a queue, parses a message into the tokens of a command and calls the command's
-- handler, which answers through the server's queue (for a client that is not registered) or the
-- user's, and forwards messages through the queues of users and channels. A registered client has a
-- `User`; joining makes `Channel`s; `Session` finds users and channels by name in two hash tables, keeps
-- for every user the list of the channels it is in and for every channel the list of its users, and
-- keeps ready lists of the users and channels whose queues hold messages. What a client may send is
-- decided by the table of states of session_state.c. The containers come from libs/src.
--
--   Base           native numbers, lists and their lemmas, Boolean tests, the integers of a C `int`
--   LinkedList     libs/src/linked_list.c: create_linked_list, append_node, remove_node, find_node,
--                  the iterator and its loops
--   Queue          libs/src/queue.c: the ring buffer with a cursor
--   HashTable      libs/src/hash_table.c: the table of chains and its two hash functions
--   PollManager    libs/src/poll_manager.c: the poll slots and the table from descriptors to slots
--   Event          libs/src/event.c: events, their queue and the tables of handlers
--   SessionState   libs/src/session_state.c, session_state.h, command.h: the tables of both sides
--   Text           libs/src/string_utils.c: copies, names, delimiters and messages; Endings
--                  (is_terminated, CRLF), Tokens (tokenize_string, concat_tokens), Scanning (all messages
--                  at once), Letters (case), Numbers (uint_to_str, str_to_uint)
--   ResponseCode   libs/src/response_code.c: the codes and texts of replies
--   Command        libs/src/command.c: the table of commands in Infos, and the tokens of a command
--   IrcMessage     libs/src/irc_message.c: create_irc_message
--   Message        libs/src/message.c: the content of a message of the client
--   User, Channel  server/src/user.c, server/src/channel.c
--   Session        server/src/session.c on an explicit heap: the state and the monad of
--                  its operations in State, the functions in Tables, Membership and Registration,
--                  proofs about them in Counts, Effects, Registered, Joins, Leaves and Rename
--   Client         server/src/client.c: what the server knows of a connection
--   Server         State: the context of a handler and the monad of its operations. tcp_server.c in
--                  Connections (clients come and go), Reading (buffers and events) and Delivery (the
--                  queues and the writes); command_handler.c in Replies, Nick, Channels, Talk and
--                  Commands; dispatcher.c in Dispatch. Proofs in Buffers, Refusals, Descriptors,
--                  Routing and Moves
--   LineEditor     client/src/input_window.c: the line editor and the history of commands
--   Examples       runs at concrete inputs
--
-- Functions keep the names of the source in snake case, records the names of the structs. A function
-- that changes a structure takes it and returns the new one. Pointers are values where nothing shares
-- them, positions into a list or table where they point into one, and addresses on the heap of
-- Session/State where freed objects matter. In the session, `fault` is a read through a dangling
-- pointer and `failed` is a call of FAILED, which ends the process; in the server, an operation is
-- `done`, or the process has `aborted` (FAILED), has `exited`, or has `crashed` (a read through a
-- dangling pointer, or an access out of bounds). `create_irc_message` is none where it would write
-- beyond one of its arrays.
--
-- What the functions of libs/src that call the operating system answer is in the record `Environment`
-- of Server/State: the resolved host names, the address of a peer, what became of each write, and the
-- bytes that malloc leaves in a buffer. What `read_string` returned is an argument of the functions of
-- Server/Reading, and the descriptors that `accept` will return are in the context.
--
-- Bounds: capacities and counts are natural numbers within a C `int`; the count of a member list, which
-- the source can decrement below zero, is an integer. Hashes wrap at 2^64. A loop by an iterator has
-- fuel for one round more than the list has nodes: every round moves the iterator on by one node, and a
-- node is never put in front of it while the loop runs. The loop over extract_message has one round
-- more than the string has bytes: each round takes a delimiter away; so does each round of the loop of
-- tokenize_string. The loop that counts digits has the number itself as fuel: its divisor grows by a
-- factor of ten. The loops that empty a queue have a round for each message of the queue, and one more
-- where the source tests for the end behind the last. `dispatch_loop` takes its fuel as an argument,
-- since a handler may add events; it crashes where the fuel does not do.
--
-- Not modelled: allocation failure, the locks and the worker threads of the threaded mode (one
-- operation runs at a time), logging, sockets and the calls of poll, the terminal user interface, the
-- client's connection, option parsing and settings.
pub mod Base
pub mod LinkedList
pub mod HashTable
pub mod Queue
pub mod SessionState
pub mod PollManager
pub mod Text
pub mod User
pub mod Channel
pub mod Session
pub mod ResponseCode
pub mod IrcMessage
pub mod Event
pub mod Client
pub mod Command
pub mod Server
pub mod Message
pub mod LineEditor
pub mod Examples
