-- ===== src/ResponseCode.antt =====
-- libs/src/response_code.c: the responses of the server with their numeric codes and messages.
pub mod Table
use irc_client_server.Base.{ℕ, ◌==◌, if◌then◌else◌, Option, none, some, List, [], ◌∷◌}
use irc_client_server.Text.{Text, codes}
use irc_client_server.HashTable.Hashes.{are_strings_equal}

pub data ResponseType : Type 0 where
  rpl_welcome rpl_whoisuser rpl_notopic rpl_topic rpl_namreply rpl_endofnames : ResponseType
  err_nosuchnick err_nosuchchannel err_unknowncommand err_nonicknamegiven : ResponseType
  err_erroneusnickname err_nicknameinuse err_notonchannel err_notregistered : ResponseType
  err_needmoreparams err_alreadyregistred err_channelisfull err_badchanname : ResponseType
  unknown_response_type : ResponseType

-- The value of an enumeration constant.
abbrev pub response_value : ResponseType → ℕ
response_value rpl_welcome = 0
response_value rpl_whoisuser = 1
response_value rpl_notopic = 2
response_value rpl_topic = 3
response_value rpl_namreply = 4
response_value rpl_endofnames = 5
response_value err_nosuchnick = 6
response_value err_nosuchchannel = 7
response_value err_unknowncommand = 8
response_value err_nonicknamegiven = 9
response_value err_erroneusnickname = 10
response_value err_nicknameinuse = 11
response_value err_notonchannel = 12
response_value err_notregistered = 13
response_value err_needmoreparams = 14
response_value err_alreadyregistred = 15
response_value err_channelisfull = 16
response_value err_badchanname = 17
response_value unknown_response_type = 18

pub record ResponseCode : Type 0 where
  pub response_type : ResponseType
  pub code : Text
  pub message : Text

abbrev row : ResponseType → Text → Text → ResponseCode
row t c m = record { response_type = t; code = c; message = m }

abbrev pub response_codes : List ResponseCode
response_codes =
    row rpl_welcome (codes "001") (codes "Welcome to the IRC Network")
    ∷ row rpl_whoisuser (codes "311") []
    ∷ row rpl_notopic (codes "331") (codes "No topic is set")
    ∷ row rpl_topic (codes "332") []
    ∷ row rpl_namreply (codes "353") []
    ∷ row rpl_endofnames (codes "366") (codes "End of /NAMES list")
    ∷ row err_nosuchnick (codes "401") (codes "No such nick")
    ∷ row err_nosuchchannel (codes "403") (codes "No such channel")
    ∷ row err_unknowncommand (codes "421") (codes "Unknown command")
    ∷ row err_nonicknamegiven (codes "431") (codes "No nickname given")
    ∷ row err_erroneusnickname (codes "432") (codes "Erroneous nickname")
    ∷ row err_nicknameinuse (codes "433") (codes "Nickname is already in use")
    ∷ row err_notonchannel (codes "442") (codes "You're not on that channel")
    ∷ row err_notregistered (codes "451") (codes "You have not registered")
    ∷ row err_needmoreparams (codes "461") (codes "Not enough parameters")
    ∷ row err_alreadyregistred (codes "462") (codes "Already registered")
    ∷ row err_channelisfull (codes "471") (codes "Cannot join channel")
    ∷ row err_badchanname (codes "479") (codes "Illegal channel name")
    ∷ row unknown_response_type (codes "0") (codes "Unknown response type")
    ∷ []

-- The loops run over all rows, and the last match stands.
abbrev pub last_type : Text → List ResponseCode → ResponseType → ResponseType
last_type code [] found = found
last_type code (r ∷ rows) found =
    last_type code rows (if are_strings_equal r.code code then r.response_type else found)

abbrev pub last_code : ResponseType → List ResponseCode → Option Text → Option Text
last_code t [] found = found
last_code t (r ∷ rows) found =
    last_code t rows
      (if response_value r.response_type == response_value t then some r.code else found)

abbrev pub last_message : Text → List ResponseCode → Option Text → Option Text
last_message code [] found = found
last_message code (r ∷ rows) found =
    last_message code rows (if are_strings_equal r.code code then some r.message else found)

unfoldable pub get_response_type : Text → ResponseType
unfolding are_strings_equal
get_response_type code = last_type code response_codes unknown_response_type

-- none is a null pointer.
unfoldable pub get_response_code : ResponseType → Option Text
get_response_code t = last_code t response_codes none

unfoldable pub get_response_message : Text → Option Text
unfolding are_strings_equal
get_response_message code = last_message code response_codes none
