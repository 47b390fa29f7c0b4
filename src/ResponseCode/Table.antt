-- ===== src/ResponseCode/Table.antt =====
-- The table of libs/src/response_code.c read in both directions.
use irc_client_server.Base.{[], some, ◌≡◌, refl}
use irc_client_server.Text.{Text, codes}
use irc_client_server.HashTable.Hashes.{are_strings_equal}
use irc_client_server.ResponseCode.{
  ResponseType, rpl_welcome, rpl_whoisuser, rpl_notopic, rpl_topic, rpl_namreply, rpl_endofnames,
  err_nosuchnick, err_nosuchchannel, err_unknowncommand, err_nonicknamegiven, err_erroneusnickname,
  err_nicknameinuse, err_notonchannel, err_notregistered, err_needmoreparams, err_alreadyregistred,
  err_channelisfull, err_badchanname, unknown_response_type, get_response_code, get_response_type,
  get_response_message,
}

-- Every response type has a code, the code leads back to it, and a message stands for the code.
pub record IsListed (t : ResponseType) : Type 0 where
  pub code : Text
  pub message : Text
  pub has_code : get_response_code t ≡ some code
  pub has_type : get_response_type code ≡ t
  pub has_message : get_response_message code ≡ some message

-- Every response type has a code, the code leads back to the type, and a message stands for the
-- code.
pub get_response_code-IsListed : (t : ResponseType) → IsListed t
unfolding get_response_code get_response_type get_response_message are_strings_equal
get_response_code-IsListed rpl_welcome = record {
  code = codes "001";
  message = codes "Welcome to the IRC Network";
  has_code = refl;
  has_type = refl;
  has_message = refl;
}
get_response_code-IsListed rpl_whoisuser = record {
  code = codes "311";
  message = [];
  has_code = refl;
  has_type = refl;
  has_message = refl;
}
get_response_code-IsListed rpl_notopic = record {
  code = codes "331";
  message = codes "No topic is set";
  has_code = refl;
  has_type = refl;
  has_message = refl;
}
get_response_code-IsListed rpl_topic = record {
  code = codes "332";
  message = [];
  has_code = refl;
  has_type = refl;
  has_message = refl;
}
get_response_code-IsListed rpl_namreply = record {
  code = codes "353";
  message = [];
  has_code = refl;
  has_type = refl;
  has_message = refl;
}
get_response_code-IsListed rpl_endofnames = record {
  code = codes "366";
  message = codes "End of /NAMES list";
  has_code = refl;
  has_type = refl;
  has_message = refl;
}
get_response_code-IsListed err_nosuchnick = record {
  code = codes "401";
  message = codes "No such nick";
  has_code = refl;
  has_type = refl;
  has_message = refl;
}
get_response_code-IsListed err_nosuchchannel = record {
  code = codes "403";
  message = codes "No such channel";
  has_code = refl;
  has_type = refl;
  has_message = refl;
}
get_response_code-IsListed err_unknowncommand = record {
  code = codes "421";
  message = codes "Unknown command";
  has_code = refl;
  has_type = refl;
  has_message = refl;
}
get_response_code-IsListed err_nonicknamegiven = record {
  code = codes "431";
  message = codes "No nickname given";
  has_code = refl;
  has_type = refl;
  has_message = refl;
}
get_response_code-IsListed err_erroneusnickname = record {
  code = codes "432";
  message = codes "Erroneous nickname";
  has_code = refl;
  has_type = refl;
  has_message = refl;
}
get_response_code-IsListed err_nicknameinuse = record {
  code = codes "433";
  message = codes "Nickname is already in use";
  has_code = refl;
  has_type = refl;
  has_message = refl;
}
get_response_code-IsListed err_notonchannel = record {
  code = codes "442";
  message = codes "You're not on that channel";
  has_code = refl;
  has_type = refl;
  has_message = refl;
}
get_response_code-IsListed err_notregistered = record {
  code = codes "451";
  message = codes "You have not registered";
  has_code = refl;
  has_type = refl;
  has_message = refl;
}
get_response_code-IsListed err_needmoreparams = record {
  code = codes "461";
  message = codes "Not enough parameters";
  has_code = refl;
  has_type = refl;
  has_message = refl;
}
get_response_code-IsListed err_alreadyregistred = record {
  code = codes "462";
  message = codes "Already registered";
  has_code = refl;
  has_type = refl;
  has_message = refl;
}
get_response_code-IsListed err_channelisfull = record {
  code = codes "471";
  message = codes "Cannot join channel";
  has_code = refl;
  has_type = refl;
  has_message = refl;
}
get_response_code-IsListed err_badchanname = record {
  code = codes "479";
  message = codes "Illegal channel name";
  has_code = refl;
  has_type = refl;
  has_message = refl;
}
get_response_code-IsListed unknown_response_type = record {
  code = codes "0";
  message = codes "Unknown response type";
  has_code = refl;
  has_type = refl;
  has_message = refl;
}
