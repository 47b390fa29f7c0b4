-- ===== src/Server/Commands.antt =====
-- server/src/command_handler.c and dispatcher.c: a message is parsed into the tokens of a command, and
-- the command's handler is called.
use irc_client_server.Base.{
  ℕ, zero, suc, ◌+◌, ◌-◌, ltb, if◌then◌else◌, Option, none, some, List, [], ◌∷◌, get_elem?,
}
use irc_client_server.Base.Int.{pos, negsuc}
use irc_client_server.Text.{Text, codes, max_chars, safe_copy}
use irc_client_server.Text.Tokens.{count_tokens, tokenize_string}
use irc_client_server.SessionState.{CommandType, command_value}
use irc_client_server.Command.{
  CommandTokens, max_tokens, reset_command_tokens, set_command, set_command_argument,
  set_command_argument_count, string_to_command_type,
}
use irc_client_server.Server.State.{Environment, R, ◌>>◌, skip, done}
use irc_client_server.Server.Nick.{cmd_nick, cmd_user}
use irc_client_server.Server.Channels.{cmd_join, cmd_part}
use irc_client_server.Server.Talk.{cmd_privmsg, cmd_whois, cmd_quit, cmd_unknown}

-- The loop that sets `n` arguments from the array of tokens, none where it meets a null pointer, which
-- ends the process: entries that `tokenize_string` does not write are null.
abbrev pub set_arguments : ℕ → CommandTokens → List Text → ℕ → Option CommandTokens
set_arguments zero tokens array i = some tokens
set_arguments (suc n) tokens array i =
    elim (set_command_argument tokens (get_elem? array (i + 1)) i) [
      | none ↦ none
      | some tokens' ↦ set_arguments n tokens' array (i + 1)
    ]

abbrev pub with_count : ℕ → Option CommandTokens → Option CommandTokens
with_count tk_count none = none
with_count zero (some tokens) = some (set_command_argument_count tokens (negsuc 0))
with_count (suc n) (some tokens) = some (set_command_argument_count tokens (pos n))

-- none: the process ends.
unfoldable pub parse_message : Text → CommandTokens → Option CommandTokens
parse_message message tokens =
    let input = (safe_copy tokens.input (max_chars + 1) message).1 in
    let count = count_tokens input (codes ":") in
    let tk_count = if ltb max_tokens count then max_tokens else count in
    let array = (tokenize_string input tk_count (codes " ")).0 in
    let named = set_command (record tokens { input = input }) (get_elem? array 0) in
    with_count tk_count (set_arguments (tk_count - 1) named array 0)

abbrev pub put_tokens : CommandTokens → R (Unit {0})
put_tokens tokens c = done tt (record c { cmd_tokens = tokens })

module _ (env : Environment) where
  abbrev pub CommandFunc : Type 0
  CommandFunc = ℕ → CommandTokens → R (Unit {0})

  -- COMMAND_FUNCTIONS
  abbrev pub command_functions : List (Option CommandFunc)
  command_functions =
      none
      ∷ none
      ∷ none
      ∷ some (cmd_nick env)
      ∷ some (cmd_user env)
      ∷ some (cmd_join env)
      ∷ some (cmd_part env)
      ∷ some (cmd_privmsg env)
      ∷ none
      ∷ none
      ∷ some (cmd_whois env)
      ∷ some (cmd_quit env)
      ∷ some (cmd_unknown env)
      ∷ []

  abbrev pub or_unknown : Option (Option CommandFunc) → CommandFunc
  or_unknown none = cmd_unknown env
  or_unknown (some none) = cmd_unknown env
  or_unknown (some (some f)) = f

  unfoldable pub get_command_function : CommandType → CommandFunc
  get_command_function t = or_unknown (get_elem? command_functions (command_value t))

  unfoldable pub execute_command : ℕ → CommandTokens → R (Unit {0})
  execute_command i tokens = elim tokens.command [
    | none ↦ skip
    | some command ↦
        get_command_function (string_to_command_type command) i tokens
        >> put_tokens reset_command_tokens
  ]
