-- ===== src/Server.antt =====
-- The server of server/src: the table of connections (tcp_server.c), the handlers of commands
-- (command_handler.c) and the dispatcher of events (dispatcher.c), on one state.
pub mod State
pub mod Connections
pub mod Delivery
pub mod Reading
pub mod Replies
pub mod Nick
pub mod Channels
pub mod Talk
pub mod Commands
pub mod Dispatch
pub mod Buffers
pub mod Refusals
pub mod Descriptors
pub mod Routing
pub mod Moves
