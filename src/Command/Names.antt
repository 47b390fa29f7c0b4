-- ===== src/Command/Names.antt =====
-- The names of commands in libs/src/command.c.
use irc_client_server.Base.{◌≡◌, refl, ◌∷◌, none, some}
use irc_client_server.Text.{Text}
use irc_client_server.Text.Letters.{str_to_lower, str_to_upper}
use irc_client_server.HashTable.Hashes.{are_strings_equal}
use irc_client_server.SessionState.{
  CommandType, help, connect, disconnect, nick, user, join, part, privmsg, address, port, whois,
  quit, unknown_command_type,
}
use irc_client_server.Command.Infos.{CommandInfo}
use irc_client_server.Command.{
  string_to_command_type, get_cmd_info, find_command_type, has_command_prefix, is_same_token,
}

abbrev pub shouted : Text → Text
shouted string = str_to_upper string 64 string

abbrev pub alias_or_label : CommandInfo → Text
alias_or_label info = elim info.alias [ none ↦ info.label | some alias ↦ alias ]

-- The row of a command is its own, and its names lead to it.
pub record IsNamed (t : CommandType) : Type 0 where
  pub own_row : (get_cmd_info t).cmd_type ≡ t
  pub by_label : string_to_command_type (get_cmd_info t).label ≡ t
  pub by_alias : string_to_command_type (alias_or_label (get_cmd_info t)) ≡ t
  pub by_capitals : string_to_command_type (shouted (get_cmd_info t).label) ≡ t
  pub by_prefix : string_to_command_type (b'/' ∷ (get_cmd_info t).label) ≡ t

-- The row of every command is the command's own, and its label, its alias if it has one, its
-- label in capitals and its label behind a slash all lead to it.
pub string_to_command_type-IsNamed : (t : CommandType) → IsNamed t
unfolding string_to_command_type get_cmd_info find_command_type has_command_prefix is_same_token
    are_strings_equal str_to_lower str_to_upper
string_to_command_type-IsNamed help = record {
  own_row = refl;
  by_label = refl;
  by_alias = refl;
  by_capitals = refl;
  by_prefix = refl;
}
string_to_command_type-IsNamed connect = record {
  own_row = refl;
  by_label = refl;
  by_alias = refl;
  by_capitals = refl;
  by_prefix = refl;
}
string_to_command_type-IsNamed disconnect = record {
  own_row = refl;
  by_label = refl;
  by_alias = refl;
  by_capitals = refl;
  by_prefix = refl;
}
string_to_command_type-IsNamed nick = record {
  own_row = refl;
  by_label = refl;
  by_alias = refl;
  by_capitals = refl;
  by_prefix = refl;
}
string_to_command_type-IsNamed user = record {
  own_row = refl;
  by_label = refl;
  by_alias = refl;
  by_capitals = refl;
  by_prefix = refl;
}
string_to_command_type-IsNamed join = record {
  own_row = refl;
  by_label = refl;
  by_alias = refl;
  by_capitals = refl;
  by_prefix = refl;
}
string_to_command_type-IsNamed part = record {
  own_row = refl;
  by_label = refl;
  by_alias = refl;
  by_capitals = refl;
  by_prefix = refl;
}
string_to_command_type-IsNamed privmsg = record {
  own_row = refl;
  by_label = refl;
  by_alias = refl;
  by_capitals = refl;
  by_prefix = refl;
}
string_to_command_type-IsNamed address = record {
  own_row = refl;
  by_label = refl;
  by_alias = refl;
  by_capitals = refl;
  by_prefix = refl;
}
string_to_command_type-IsNamed port = record {
  own_row = refl;
  by_label = refl;
  by_alias = refl;
  by_capitals = refl;
  by_prefix = refl;
}
string_to_command_type-IsNamed whois = record {
  own_row = refl;
  by_label = refl;
  by_alias = refl;
  by_capitals = refl;
  by_prefix = refl;
}
string_to_command_type-IsNamed quit = record {
  own_row = refl;
  by_label = refl;
  by_alias = refl;
  by_capitals = refl;
  by_prefix = refl;
}
string_to_command_type-IsNamed unknown_command_type = record {
  own_row = refl;
  by_label = refl;
  by_alias = refl;
  by_capitals = refl;
  by_prefix = refl;
}
