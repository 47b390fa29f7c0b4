-- ===== src/Server/Moves/Commands.antt =====
-- The handlers of server/src/command_handler.c for channels and for the end of a connection, and the
-- table of handlers: the clients that they move.
use irc_client_server.Text.{Text}
use irc_client_server.Server.Moves.{Moves}
