-- ===== src/Command/Infos.antt =====
-- libs/src/command.c: what is known of each command. Descriptions and examples are listed without the
-- null pointer at their end.
use irc_client_server.Base.{ℕ, Option, none, some, List, [], ◌∷◌}
use irc_client_server.Text.{Text, codes}
use irc_client_server.SessionState.{
  CommandType, help, connect, disconnect, nick, user, join, part, privmsg, address, port, whois,
  quit, unknown_command_type,
}

pub data CommandUser : Type 0 where
  client_command server_command common_command unknown_command_user : CommandUser

pub record CommandInfo : Type 0 where
  pub cmd_type : CommandType
  pub command_user : CommandUser
  pub min_args : ℕ
  pub max_args : ℕ
  pub label : Text
  pub alias : Option Text
  pub syntax : Option Text
  pub description : List Text
  pub examples : List Text

-- A command without alias, syntax, description and examples.
abbrev bare : CommandType → CommandUser → ℕ → ℕ → Text → CommandInfo
bare t u min_args max_args label = record {
  cmd_type = t;
  command_user = u;
  min_args = min_args;
  max_args = max_args;
  label = label;
  alias = none;
  syntax = none;
  description = [];
  examples = [];
}

abbrev documented : CommandInfo → Text → List Text → List Text → CommandInfo
documented info syntax description examples = record info {
  syntax = some syntax;
  description = description;
  examples = examples;
}

abbrev pub unknown_info : CommandInfo
unknown_info = bare unknown_command_type unknown_command_user 0 0 (codes "unknown")

abbrev pub command_infos : List CommandInfo
command_infos =
    bare help client_command 0 1 (codes "help")
    ∷ documented (bare connect client_command 0 0 (codes "connect"))
        (codes "connect [IP address | hostname] [port]")
        (codes "connects to the server at the optional IP address (hostname) and port"
          ∷ codes "if no IP address is provided <127.0.0.1> will be used"
          ∷ codes "if no port is provided <50100> will be used"
          ∷ [])
        (codes "/connect 127.0.0.1 49152" ∷ [])
    ∷ documented (bare disconnect client_command 0 1 (codes "disconnect"))
        (codes "disconnect [msg]")
        (codes "disconnects from the active server with an optional message" ∷ [])
        (codes "/disconnect bye" ∷ [])
    ∷ documented (bare nick common_command 1 1 (codes "nick")) (codes "nick <nickname>")
        (codes "sets user nickname" ∷ []) (codes "/nick j007" ∷ [])
    ∷ documented (bare user common_command 1 3 (codes "user"))
        (codes "user [username] [hostname] <real name>")
        (codes "sets user username, hostname and real name"
          ∷ codes "if no username or hostname is provided default values will be used"
          ∷ [])
        (codes "/user jjones defhost \"john jones\"" ∷ [])
    ∷ documented (bare join common_command 1 1 (codes "join")) (codes "join <channel>")
        (codes "joins the specified channel or creates a new one if it doesn't exist" ∷ [])
        (codes "/join #general" ∷ [])
    ∷ documented (bare part common_command 1 2 (codes "part")) (codes "part <channel> [msg]")
        (codes "leaves the channel with optional message" ∷ []) (codes "/part #general bye" ∷ [])
    ∷ record (documented (bare privmsg common_command 2 2 (codes "msg"))
        (codes "msg <channel | user> <message>") (codes "sends message to the channel" ∷ [])
        (codes "/msg #programming what is a double pointer?" ∷ codes "/msg john bye" ∷ [])) {
          alias = some (codes "privmsg");
        }
    ∷ documented (bare address client_command 1 1 (codes "address")) (codes "address <address>")
        (codes "sets a default server address" ∷ [])
        (codes "/address 45.56.126.124" ∷ codes "/address chat.freenode.net" ∷ [])
    ∷ documented (bare port client_command 1 1 (codes "port")) (codes "port <port>")
        (codes "sets a default server port" ∷ []) (codes "/port 50100" ∷ [])
    ∷ documented (bare whois common_command 1 1 (codes "whois")) (codes "whois <user>")
        (codes "displays detailed information about a specific user" ∷ [])
        (codes "/whois john" ∷ [])
    ∷ documented (bare quit common_command 0 1 (codes "quit")) (codes "quit [msg]")
        (codes "terminates the application with optional message" ∷ [])
        (codes "/quit done for today!" ∷ [])
    ∷ unknown_info
    ∷ []
