-- ===== src/Examples/Editing.antt =====
-- Runs of the line editor of client/src/input_window.c and of the buffers of messages.
use irc_client_server.Base.{
  true, ◌≡◌, refl, some, [], ◌∷◌, ◌++◌, length, replicate, arith, suc, ℕ, zero, All, subst, some_eq,
  drop,
}
use irc_client_server.Text.{Text, codes, safe_copy}
use irc_client_server.Text.Messages.{extract_messages}
use irc_client_server.Text.Scanning.{process_messages, crlf}
use irc_client_server.Text.Scanning.Processing.{process_messages-extract_messages}
use irc_client_server.Queue.{empty_queue}
use irc_client_server.Message.{Message, msg_command, no_priority}
use irc_client_server.IrcMessage.{create_irc_message}
use irc_client_server.IrcMessage.Layout.{laid_out, create_irc_message-laid_out}
use irc_client_server.LineEditor.{LineEditor, add_le_char}
use irc_client_server.LineEditor.Uncovered.{Types, add_le_char-Types}
use irc_client_server.LineEditor.Refine.{gap, press, edit, typed}
use irc_client_server.LineEditor.Shown.{Shows, ShowsText, IsNul, IsCleared, Agrees}
use irc_client_server.LineEditor.Simulation.{press-Agrees}
use irc_client_server.Server.Delivery.{create_server_info}
use irc_client_server.Server.Reading.{fill_buffer}
use irc_client_server.Server.Buffers.{Fills, fill_buffer-Fills}

-- "hi", with the cursor behind the "h".
abbrev greeting : Message
greeting = record {
  content = codes "hi" ++ replicate 511 0;
  separator = replicate 2 0;
  message_type = msg_command;
  message_priority = no_priority;
}

abbrev editor : LineEditor
editor = record {
  front_cmd_queue = empty_queue greeting 1;
  back_cmd_queue = empty_queue greeting 1;
  input_width = 80;
  cursor = 3;
  char_count = 2;
}

shown : Shows editor (gap (codes "h") (codes "i"))
shown = record {
  message = greeting;
  rest = replicate 510 0;
  current = refl;
  content = refl;
  size = refl;
  no_nul = (λ e. omega (arith, e), (λ e. omega (arith, e), tt));
  cursor = refl;
  char_count = refl;
}

nuls : (n : ℕ) → All IsNul (replicate n 0)
nuls zero = tt
nuls (suc n) = (refl, nuls n)

cleared : IsCleared editor (gap (codes "h") (codes "i"))
cleared m e = subst (λ m. All IsNul (drop 2 m.content)) (some_eq e) (nuls 511)

press-Agrees_example :
    Agrees (press (typed b'o') editor) (edit 80 (typed b'o') (gap (codes "h") (codes "i")))
press-Agrees_example =
    press-Agrees editor (typed b'o') (gap (codes "h") (codes "i")) shown cleared
      (λ e. omega (arith, e))

-- Two messages and the start of a third.
abbrev stream : Text
stream = codes "a" ++ crlf ++ codes "bc" ++ crlf ++ codes "d"

process_messages-extract_messages_example :
    process_messages stream crlf ≡ extract_messages (suc (length stream)) [] 513 stream crlf
process_messages-extract_messages_example =
    process_messages-extract_messages crlf (omega arith) [] 513 stream (omega arith)

-- ":irc 451 * :You have not registered"
create_irc_message-laid_out_example :
    create_irc_message [] 510 (record {
      body = some (codes "451") ∷ some (codes "*") ∷ [];
      suffix = some (codes "You have not registered") ∷ [];
      multi_word_suffix = true;
      message_prefix = some (create_server_info (some (codes "irc")));
    })
    ≡ some (laid_out (codes "irc") (codes "451" ∷ codes "*" ∷ []) (codes "You have not registered"))
unfolding create_server_info safe_copy
create_irc_message-laid_out_example =
    create_irc_message-laid_out 510 (create_server_info (some (codes "irc"))) (codes "irc")
      (codes "451") (codes "*" ∷ []) (codes "You have not registered") refl (omega arith)
      (omega arith) (omega arith, (omega arith, tt)) (omega arith) (omega arith)

fill_buffer-Fills_example : Fills (codes "NICK a") crlf (fill_buffer (codes "NICK a") crlf)
fill_buffer-Fills_example = fill_buffer-Fills (codes "NICK a") crlf (omega arith)

-- "hi" over an older "hi,lo"
abbrev stale : Message
stale = record greeting { content = codes "hi" ++ (0 ∷ codes "lo" ++ replicate 508 0) }

abbrev stale_editor : LineEditor
stale_editor = record editor { front_cmd_queue = empty_queue stale 1 }

abbrev stale_shown : ShowsText stale_editor (codes "h") (codes "i")
stale_shown = record {
  message = stale;
  rest = codes "lo" ++ replicate 508 0;
  current = refl;
  content = refl;
  size = refl;
  no_nul = (λ e. omega (arith, e), (λ e. omega (arith, e), tt));
  cursor = refl;
  char_count = refl;
}

add_le_char-Types_example :
    Types (add_le_char stale_editor b'o') (codes "hoilo" ++ replicate 508 0) 3
add_le_char-Types_example =
    add_le_char-Types stale_editor (codes "h") (codes "i") b'o' stale_shown (omega arith)
      (omega arith)
