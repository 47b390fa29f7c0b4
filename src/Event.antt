-- ===== src/Event.antt =====
-- libs/src/event.c: the event manager, with its tables of handlers and its queue of events. A handler
-- is a value of a type `H`: what dispatching yields is the handler that is called, none if there is
-- no call. An index that the tables do not have, which the source reads out of bounds, leads to none.
use irc_client_server.Base.{
  ℕ, ◌==◌, if◌then◌else◌, Bool, false, Option, none, some, List, [], replicate, set, get_elem?,
}
use irc_client_server.Text.{Text}
use irc_client_server.Queue.{Queue, create_queue, enqueue, dequeue}

pub data EventType : Type 0 where
  ui_event network_event system_event unknown_event_type : EventType

abbrev pub event_value : EventType → ℕ
event_value ui_event = 0
event_value network_event = 1
event_value system_event = 2
event_value unknown_event_type = 3

pub data UiEventType : Type 0 where
  ui_key ui_win_resize unknown_ui_event_type : UiEventType

abbrev pub ui_value : UiEventType → ℕ
ui_value ui_key = 0
ui_value ui_win_resize = 1
ui_value unknown_ui_event_type = 2

pub data NetworkEventType : Type 0 where
  ne_client_connect ne_client_disconnect ne_add_poll_fd ne_remove_poll_fd : NetworkEventType
  ne_peer_close ne_server_msg ne_client_msg ne_send_immediate_msg : NetworkEventType
  unknown_network_event_type : NetworkEventType

abbrev pub network_value : NetworkEventType → ℕ
network_value ne_client_connect = 0
network_value ne_client_disconnect = 1
network_value ne_add_poll_fd = 2
network_value ne_remove_poll_fd = 3
network_value ne_peer_close = 4
network_value ne_server_msg = 5
network_value ne_client_msg = 6
network_value ne_send_immediate_msg = 7
network_value unknown_network_event_type = 8

pub data SystemEventType : Type 0 where
  se_timer se_exit unknown_system_event_type : SystemEventType

abbrev pub system_value : SystemEventType → ℕ
system_value se_timer = 0
system_value se_exit = 1
system_value unknown_system_event_type = 2

-- `DataItem` with its `DataType`: the members of the union that the programs use.
pub data DataItem : Type 0 where
  item_int : ℕ → DataItem
  item_char : Text → DataItem
  no_item : DataItem

-- `sub_event_type` is none for UNASSIGNED.
pub record Event : Type 0 where
  pub event_type : EventType
  pub sub_event_type : Option ℕ
  pub data_item : DataItem

pub record EventManager (H : Type 0) : Type 0 where
  pub base_handlers : List (Option H)
  pub ui_handlers : List (Option H)
  pub network_handlers : List (Option H)
  pub system_handlers : List (Option H)
  pub event_queue : Queue Event
  pub dropped_events : ℕ
  pub stop_processing : Bool

abbrev pub def_queue_capacity : ℕ
def_queue_capacity = 20

abbrev pub create_event : EventType → Option ℕ → DataItem → Event
create_event t sub item = record { event_type = t; sub_event_type = sub; data_item = item }

module _ {H : Type 0} where
  abbrev pub reset_event_handlers : EventManager H → EventManager H
  reset_event_handlers m = record m {
    base_handlers = replicate 4 none;
    ui_handlers = replicate 3 none;
    network_handlers = replicate 9 none;
    system_handlers = replicate 3 none;
  }

  -- none: `create_queue` returned a null pointer. A capacity of zero or less is 0.
  unfoldable pub create_event_manager : Event → ℕ → Option (EventManager H)
  create_event_manager blank capacity =
      elim (create_queue blank (if capacity == 0 then def_queue_capacity else capacity)) [
        | none ↦ none
        | some event_queue ↦ some (
            reset_event_handlers (record {
              base_handlers = [];
              ui_handlers = [];
              network_handlers = [];
              system_handlers = [];
              event_queue = event_queue;
              dropped_events = 0;
              stop_processing = false;
            }))
      ]

  unfoldable pub register_base_event_handler : EventManager H → EventType → H → EventManager H
  register_base_event_handler m t handler = record m {
    base_handlers = set m.base_handlers (event_value t) (some handler);
  }

  unfoldable pub register_ui_event_handler : EventManager H → UiEventType → H → EventManager H
  register_ui_event_handler m t handler = record m {
    ui_handlers = set m.ui_handlers (ui_value t) (some handler);
  }

  unfoldable pub register_network_event_handler :
      EventManager H → NetworkEventType → H → EventManager H
  register_network_event_handler m t handler = record m {
    network_handlers = set m.network_handlers (network_value t) (some handler);
  }

  unfoldable pub register_system_event_handler :
      EventManager H → SystemEventType → H → EventManager H
  register_system_event_handler m t handler = record m {
    system_handlers = set m.system_handlers (system_value t) (some handler);
  }

  -- The entry of a table.
  abbrev pub handler_at : List (Option H) → Option ℕ → Option H
  handler_at handlers none = none
  handler_at handlers (some i) = elim (get_elem? handlers i) [ none ↦ none | some h ↦ h ]

  unfoldable pub dispatch_base_event : EventManager H → Event → Option H
  dispatch_base_event m e = handler_at m.base_handlers (some (event_value e.event_type))

  unfoldable pub dispatch_ui_event : EventManager H → Event → Option H
  dispatch_ui_event m e =
      if event_value e.event_type == 0 then handler_at m.ui_handlers e.sub_event_type else none

  unfoldable pub dispatch_network_event : EventManager H → Event → Option H
  dispatch_network_event m e =
      if event_value e.event_type == 1 then handler_at m.network_handlers e.sub_event_type else none

  unfoldable pub dispatch_system_event : EventManager H → Event → Option H
  dispatch_system_event m e =
      if event_value e.event_type == 2 then handler_at m.system_handlers e.sub_event_type else none

  abbrev pub push_event_to_queue : EventManager H → Event → EventManager H
  push_event_to_queue m e = record m { event_queue = enqueue m.event_queue e }

  abbrev pub pop_event_from_queue : EventManager H → Option Event × EventManager H
  pop_event_from_queue m =
      let (e, rest) = dequeue m.event_queue in (e, record m { event_queue = rest })
