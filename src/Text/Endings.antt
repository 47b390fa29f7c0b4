-- ===== src/Text/Endings.antt =====
-- libs/src/string_utils.c: the end of a string. The loops run from the last byte to the first; they
-- stop at the start of the shorter string, and a string that is shorter than the terminator is
-- compared as far as it goes.
use irc_client_server.Base.{
  ℕ, ◌+◌, ltb, ◌==◌, if◌then◌else◌, Bool, true, [], ◌∷◌, ◌++◌, ◌&&◌, length, reverse,
}
use irc_client_server.Text.{Text}

-- The loop of `is_terminated` on the reversed strings.
unfoldable pub agrees : Text → Text → Bool
agrees [] term = true
agrees (c ∷ string) [] = true
agrees (c ∷ string) (d ∷ term) = (c == d) && agrees string term

unfoldable pub is_terminated : Text → Text → Bool
is_terminated string term = agrees (reverse string) (reverse term)

-- The loop of `clear_terminator` likewise: what it leaves of the reversed string.
unfoldable pub clear_agreeing : Text → Text → Text
clear_agreeing [] term = []
clear_agreeing (c ∷ string) [] = c ∷ string
clear_agreeing (c ∷ string) (d ∷ term) =
    let rest = clear_agreeing string term in if c == d then rest else c ∷ string

unfoldable pub clear_terminator : Text → Text → Text
clear_terminator string term = reverse (clear_agreeing (reverse string) (reverse term))

-- The buffer afterwards.
unfoldable pub terminate_string : Text → ℕ → Text → Text → Text
terminate_string buffer size string term =
    if ltb (length string + length term) size then buffer ++ (string ++ term) else buffer
