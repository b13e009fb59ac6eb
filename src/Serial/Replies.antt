-- ===== src/Serial/Replies.antt =====
-- Which message answers a command of infracstructure/serial_manager.py.
use smart_locker_iot.Prelude.{
  not, ◌&&◌, ◌≡◌, refl, ◌∙◌, ap, Option, none, some, List, [], ◌∷◌, ◌++◌, append-nil, append_assoc,
  arith, if◌then◌else◌,
}
use smart_locker_iot.Python.{Value, is_none, str, Fields, find, same}
use smart_locker_iot.Serial.{
  awaiting, DoorEvent, Link, slave_of, alive_reply, handle_message, handle_messages, notify,
  timeout_response, arrived, send_and_wait,
}

-- What a message answers to a command to the slave, if it does: an ALIVE event of the slave, or a
-- message of the slave with a result and no event. Nothing answers a command to None.
unfoldable pub answer_of : Value → Fields → Option Fields
answer_of slave m =
    if not (is_none slave) && same (slave_of m) slave
    then elim (find "event" m) [
      | some event ↦ if same event (str "ALIVE") then some (alive_reply m) else none
      | none ↦ elim (find "result" m) [ some result ↦ some m | none ↦ none ]
    ]
    else none

abbrev or_later : Option Fields → Option Fields → Option Fields
or_later a none = a
or_later a (some b) = some b

-- The last answer in a row of messages.
unfoldable pub last_answer : Value → List Fields → Option Fields
last_answer slave [] = none
last_answer slave (m ∷ ms) = or_later (answer_of slave m) (last_answer slave ms)

abbrev calls : Option Value → Fields → List DoorEvent
calls none m = []
calls (some event) m =
    (notify m event (record { waiting = none; response = none; door_events = [] })).door_events

-- The calls of the door callback for a row of messages.
unfoldable pub door_calls : List Fields → List DoorEvent
door_calls [] = []
door_calls (m ∷ ms) = calls (find "event" m) m ++ door_calls ms

abbrev after : Value → Option Fields → List DoorEvent → Link
after slave r evs = record { waiting = awaiting slave; response = r; door_events = evs }

handle_message_lem :
    (slave : Value) (m : Fields) (r : Option Fields) (evs : List DoorEvent)
    → handle_message m (after slave r evs)
      ≡ after slave (or_later r (answer_of slave m)) (evs ++ calls (find "event" m) m)
unfolding handle_message answer_of
handle_message_lem slave m r evs = ground (arith, append-nil evs)

or_later_assoc : (a b c : Option Fields) → or_later (or_later a b) c ≡ or_later a (or_later b c)
or_later_assoc a b none = refl
or_later_assoc a b (some c) = refl

handle_messages_lem :
    (slave : Value) (ms : List Fields) (r : Option Fields) (evs : List DoorEvent)
    → handle_messages ms (after slave r evs)
      ≡ after slave (or_later r (last_answer slave ms)) (evs ++ door_calls ms)
unfolding handle_messages last_answer door_calls
handle_messages_lem slave [] r evs = rw append-nil
handle_messages_lem slave (m ∷ ms) r evs =
    ap (handle_messages ms) (handle_message_lem slave m r evs)
    ∙ handle_messages_lem slave ms _ _
    ∙ rw (or_later_assoc, append_assoc)

abbrev pub or_timeout : Value → Value → Option Fields → Fields
or_timeout slot slave none = timeout_response slot slave
or_timeout slot slave (some reply) = reply

-- A command that waits while the port does not raise returns the last answer of its slave among the messages
-- that were handled meanwhile, or TIMEOUT if there is none; nothing answers a command to None. Every door
-- event among them reaches the callback, in order, and nothing is left waiting.
pub send_and_wait_lem :
    (slot slave : Value) (ms : List Fields) (l : Link)
    → send_and_wait slot slave (arrived ms) l ≡ (
      or_timeout slot slave (last_answer slave ms),
      record { waiting = none; response = none; door_events = l.door_events ++ door_calls ms },
    )
unfolding send_and_wait
send_and_wait_lem slot slave ms l = rw handle_messages_lem (ground (arith))
