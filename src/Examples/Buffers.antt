-- ===== src/Examples/Buffers.antt =====
-- Runs of the loop over `extract_message` of libs/src/string_utils.c, with CRLF for the delimiter.
use irc_client_server.Base.{suc, ◌≡◌, none, [], ◌∷◌, ◌++◌, length, arith}
use irc_client_server.Text.{Text}
use irc_client_server.Text.Messages.{find_delimiter, extract_messages}
use irc_client_server.Text.Messages.Framing.{glue, extract_messages-glue, extract_messages-append}

abbrev crlf : Text
crlf = 13 ∷ 10 ∷ []

-- "a", CRLF, "b" and a CR whose LF has not arrived
abbrev cut_off : Text
cut_off = b'a' ∷ 13 ∷ 10 ∷ b'b' ∷ 13 ∷ []

abbrev arriving : Text
arriving = 10 ∷ b'c' ∷ []

extract_messages-glue_example :
    (glue crlf (extract_messages 6 [] 20 cut_off crlf).0 (extract_messages 6 [] 20 cut_off crlf).1
      ≡ cut_off)
    × (find_delimiter (extract_messages 6 [] 20 cut_off crlf).1 crlf ≡ none)
extract_messages-glue_example = extract_messages-glue crlf (omega arith) [] 20 cut_off (omega arith)

extract_messages-append_example :
    let first = extract_messages 6 [] 20 cut_off crlf in
    let second =
      extract_messages (suc (length (first.1 ++ arriving))) [] 20 (first.1 ++ arriving) crlf in
    let whole = extract_messages 8 [] 20 (cut_off ++ arriving) crlf in
    (whole.0 ≡ first.0 ++ second.0) × (whole.1 ≡ second.1)
extract_messages-append_example =
    extract_messages-append crlf (omega arith) [] 20 cut_off arriving (omega arith)
