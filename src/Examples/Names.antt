-- ===== src/Examples/Names.antt =====
-- Rows of the tables of response codes and of commands, and a number as text.
use irc_client_server.Base.{◌≡◌, refl, [], arith}
use irc_client_server.Base.Int.{pos}
use irc_client_server.Text.Numbers.{count_digits, uint_to_str, str_to_uint}
use irc_client_server.Text.Numbers.RoundTrip.{str_to_uint-uint_to_str}
use irc_client_server.ResponseCode.{err_nosuchnick}
use irc_client_server.ResponseCode.Table.{IsListed, get_response_code-IsListed}
use irc_client_server.SessionState.{privmsg}
use irc_client_server.Command.Names.{IsNamed, string_to_command_type-IsNamed}

get_response_code-IsListed_example : IsListed err_nosuchnick
get_response_code-IsListed_example = get_response_code-IsListed err_nosuchnick

string_to_command_type-IsNamed_example : IsNamed privmsg
string_to_command_type-IsNamed_example = string_to_command_type-IsNamed privmsg

str_to_uint-uint_to_str_example : str_to_uint (uint_to_str [] 10 1204).1 ≡ pos 1204
unfolding uint_to_str count_digits
str_to_uint-uint_to_str_example = str_to_uint-uint_to_str 10 1204 (omega arith) refl
