-- ===== src/Examples/Sessions.antt =====
-- Runs of the state machine of libs/src/session_state.c and of server/src/session.c.
use irc_client_server.Base.{◌==◌, ◌≡◌, refl, ◌⊎◌, true, [], ◌∷◌, arith}
use irc_client_server.Base.Int.{pos}
use irc_client_server.LinkedList.{at}
use irc_client_server.LinkedList.Search.{NoMatch}
use irc_client_server.SessionState.{
  disconnected, connected, start_registration, registered, server_states, client_states, join,
  is_allowed_state_command, is_allowed_state_transition,
}
use irc_client_server.SessionState.Protocol.{
  Leads, here, move, trail, IsOrdered, Leads-IsOrdered, server-client_commands,
}
use irc_client_server.Session.State.{Members}
use irc_client_server.Session.Membership.{add_member, remove_member}
use irc_client_server.Session.Counts.{
  IsCounted, add_member-IsCounted, remove_member-IsCounted, remove_member-add_member,
}

registration : Leads server_states disconnected registered
unfolding is_allowed_state_transition
registration = move registered (move start_registration (move connected here refl) refl) refl

Leads-IsOrdered_example : IsOrdered registered (trail registration)
Leads-IsOrdered_example = Leads-IsOrdered registration

join_allowed : is_allowed_state_command server_states registered join ≡ true
unfolding is_allowed_state_command
join_allowed = refl

server-client_commands_example : is_allowed_state_command client_states registered join ≡ true
server-client_commands_example = server-client_commands registered join (λ e. cc) join_allowed

abbrev two_members : Members
two_members = record {
  owner = 1;
  list = record { nodes = 4 ∷ 6 ∷ []; iterator = at 0; count = 2 };
  capacity = 5;
  count = pos 2;
}

two_members-IsCounted : IsCounted two_members
two_members-IsCounted = record { counted = refl; list_counted = refl; within = omega arith }

add_member-IsCounted_example :
    IsCounted (add_member two_members 9).1
    × ((add_member two_members 9).0 ≡ true)
    × ((add_member two_members 9).1.list.nodes ≡ 4 ∷ 6 ∷ 9 ∷ [])
add_member-IsCounted_example = add_member-IsCounted two_members 9 two_members-IsCounted

remove_member-IsCounted_example :
    (IsCounted (remove_member ◌==◌ two_members 9) × ¬ NoMatch ◌==◌ 9 (4 ∷ 6 ∷ []))
    ⊎ ((¬ IsCounted (remove_member ◌==◌ two_members 9))
        × NoMatch ◌==◌ 9 (4 ∷ 6 ∷ [])
        × ((remove_member ◌==◌ two_members 9).list ≡ two_members.list))
remove_member-IsCounted_example = remove_member-IsCounted ◌==◌ 9 two_members two_members-IsCounted

remove_member-add_member_example :
    ((remove_member ◌==◌ (add_member two_members 9).1 9).list.nodes ≡ 4 ∷ 6 ∷ [])
    × ((remove_member ◌==◌ (add_member two_members 9).1 9).count ≡ pos 2)
remove_member-add_member_example =
    remove_member-add_member ◌==◌ 9 two_members two_members-IsCounted (omega arith) refl
      (refl, (refl, tt))
