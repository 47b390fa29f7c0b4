-- ===== src/Command.antt =====
-- libs/src/command.c: the table of commands and the tokens of a parsed command. A token points into
-- `input`; it is the text found there.
pub mod Infos
pub mod Names
use irc_client_server.Base.{
  ℕ, ◌+◌, ltb, ◌==◌, if◌then◌else◌, Bool, true, false, ◌||◌, Option, none, some, List, [], ◌∷◌,
  replicate, set, get_elem?, take, drop,
}
use irc_client_server.Base.Int.{ℤ, pos}
use irc_client_server.Text.{Text, codes, max_chars}
use irc_client_server.Text.Letters.{str_to_lower}
use irc_client_server.HashTable.Hashes.{are_strings_equal}
use irc_client_server.SessionState.{CommandType, command_value, unknown_command_type}
use irc_client_server.Command.Infos.{CommandInfo, command_infos, unknown_info}

abbrev pub max_tokens : ℕ
max_tokens = 5

pub record CommandTokens : Type 0 where
  pub input : Text
  pub command : Option Text
  pub args : List (Option Text)
  pub arg_count : ℤ

unfoldable pub reset_command_tokens : CommandTokens
reset_command_tokens = record {
  input = [];
  command = none;
  args = replicate max_tokens none;
  arg_count = pos 0;
}

abbrev pub create_command_tokens : ℕ → List CommandTokens
create_command_tokens count = replicate count reset_command_tokens

unfoldable pub has_command_prefix : Text → Bool
has_command_prefix [] = false
has_command_prefix (c ∷ string) = c == b'/'

abbrev pub max_token_len : ℕ
max_token_len = 64

-- `strncmp(a, b, MAX_TOKEN_LEN) == 0`
unfoldable pub is_same_token : Text → Text → Bool
is_same_token a b = are_strings_equal (take max_token_len a) (take max_token_len b)

abbrev pub is_alias : Option Text → Text → Bool
is_alias none string = false
is_alias (some alias) string = is_same_token alias string

-- The loop over the commands: the first that has the label or the alias.
unfoldable pub find_command_type : List CommandInfo → Text → CommandType
find_command_type [] string = unknown_command_type
find_command_type (info ∷ infos) string =
    let rest = find_command_type infos string in
    if is_same_token info.label string || is_alias info.alias string then info.cmd_type else rest

unfoldable pub string_to_command_type : Text → CommandType
unfolding find_command_type
string_to_command_type string =
    find_command_type command_infos (
      str_to_lower [] (max_chars + 1) (if has_command_prefix string then drop 1 string else string))

-- Past the table there is a null pointer; it is not reached for the values of the enumeration.
unfoldable pub get_cmd_info : CommandType → CommandInfo
get_cmd_info t = elim (get_elem? command_infos (command_value t)) [
  | none ↦ unknown_info
  | some info ↦ info
]

abbrev pub set_command : CommandTokens → Option Text → CommandTokens
set_command tokens command = record tokens { command = command }

unfoldable pub get_command_argument : CommandTokens → ℕ → Option Text
get_command_argument tokens index =
    if ltb index max_tokens
    then elim (get_elem? tokens.args index) [ none ↦ none | some arg ↦ arg ]
    else none

-- none: a null argument ends the process.
unfoldable pub set_command_argument : CommandTokens → Option Text → ℕ → Option CommandTokens
set_command_argument tokens none index = none
set_command_argument tokens (some arg) index =
    if ltb index max_tokens
    then some (record tokens { args = set tokens.args index (some arg) })
    else some tokens

abbrev pub set_command_argument_count : CommandTokens → ℤ → CommandTokens
set_command_argument_count tokens arg_count = record tokens { arg_count = arg_count }
