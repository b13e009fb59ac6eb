-- ===== src/Serial.antt =====
-- infracstructure/serial_manager.py: the listener's framing, the request and its reply, the scan of
-- the bus, the reconnection, and the simulation.
pub mod Replies
pub mod Scan
pub mod Found
pub mod Listener
pub mod Frames
pub mod Port
pub mod Connect
pub mod Turns
pub mod Adapters
use smart_locker_iot.Prelude.{
  ℕ, zero, suc, ◌+◌, ◌^◌, min, String, ◌<>◌, Bool, true, false, not, ◌&&◌, ◌||◌, Option, none, some,
  List, [], ◌∷◌, ◌++◌, string_eq, ◌==◌, if◌then◌else◌,
}
use smart_locker_iot.Prelude.Int.{ℤ, pos, negsuc}
use smart_locker_iot.Python.{
  Value, null, bool, num, str, datetime, arr, obj, Fields, find, default, same, as_number, Result,
  ok, raise,
}
use smart_locker_iot.Python.Text.{format, decimal}
use smart_locker_iot.Gateway.{SerialPort, fields_of, dict}

-- A call of `_on_door_event(slot, event, slave_id=…)`.
pub record DoorEvent : Type 0 where
  pub slot : Value
  pub event : Value
  pub slave : Value

-- `_waiting_for_slave` and `_response_data`, which is there exactly where the event is set; and the
-- calls that were made of the door callback.
pub record Link : Type 0 where
  pub waiting : Option Value
  pub response : Option Fields
  pub door_events : List DoorEvent

-- What `_send_and_wait` sets `_waiting_for_slave` to: for None nothing is awaited.
abbrev pub awaiting : Value → Option Value
awaiting null = none
awaiting (bool b) = some (bool b)
awaiting (num n) = some (num n)
awaiting (str s) = some (str s)
awaiting (datetime n) = some (datetime n)
awaiting (arr vs) = some (arr vs)
awaiting (obj fs) = some (obj fs)

-- self._waiting_for_slave is not None and slave_id == self._waiting_for_slave
abbrev pub is_awaited : Value → Option Value → Bool
is_awaited slave none = false
is_awaited slave (some w) = same slave w

-- data.get("slave", 1)
abbrev pub slave_of : Fields → Value
slave_of message = default (num (pos 1)) (find "slave" message)

abbrev pub is_door_event : Value → Bool
is_door_event event = same event (str "DOOR_CLOSED") || same event (str "DOOR_OPENED")

-- The reply that an ALIVE message stands for.
abbrev pub alive_reply : Fields → Fields
alive_reply message = fields_of (
    ("slave", slave_of message)
    ∷ ("result", str "OK")
    ∷ ("slots", default (num (pos 6)) (find "slots" message))
    ∷ ("event_confirm", str "ALIVE")
    ∷ [])

abbrev pub respond : Value → Fields → Link → Link
respond slave reply l = if is_awaited slave l.waiting then record l { response = some reply } else l

abbrev pub notify : Fields → Value → Link → Link
notify message event l =
    if is_door_event event
    then record l {
      door_events =
          l.door_events
          ++ record {
            slot = default (num (negsuc 0)) (find "slot" message);
            event = event;
            slave = slave_of message;
          }
            ∷ [];
    }
    else l

-- `_handle_incoming_json` of an object.
unfoldable pub handle_message : Fields → Link → Link
handle_message message l = elim (find "event" message) [
  | some event ↦
      if same event (str "ALIVE")
      then respond (slave_of message) (alive_reply message) (notify message event l)
      else notify message event l
  | none ↦ elim (find "result" message) [
    | some result ↦ respond (slave_of message) message l
    | none ↦ l
  ]
]

unfoldable pub handle_messages : List Fields → Link → Link
unfolding handle_message
handle_messages [] l = l
handle_messages (m ∷ ms) l = handle_messages ms (handle_message m l)

-- _timeout_response
abbrev pub timeout_response : Value → Value → Fields
timeout_response slot slave =
    fields_of
      (("slave", slave) ∷ ("slot", slot) ∷ ("result", str "FAIL") ∷ ("error", str "TIMEOUT") ∷ [])

-- The reply where the port raises.
abbrev pub serial_error : Value → Value → Fields
serial_error slot slave = fields_of (
    ("slave", slave) ∷ ("slot", slot) ∷ ("result", str "FAIL") ∷ ("error", str "SERIAL_ERROR") ∷ [])

-- What happens on the line while a command waits: these messages are handled, and then the port
-- raises, with the text of the command written or not, or the waiter goes on (woken up, or at its
-- timeout).
pub data Wait : Type 0 where
  port_error : Bool → List Fields → Wait
  arrived : List Fields → Wait

-- _send_and_wait: the reply, and the link afterwards.
unfoldable pub send_and_wait : Value → Value → Wait → Link → Fields × Link
unfolding handle_messages
send_and_wait slot slave (port_error sent messages) l =
    let l' = handle_messages messages (record l { waiting = awaiting slave; response = none }) in
    (serial_error slot slave, record l' { waiting = none })
send_and_wait slot slave (arrived messages) l =
    let l' = handle_messages messages (record l { waiting = awaiting slave; response = none }) in
    (
      elim l'.response [ none ↦ timeout_response slot slave | some reply ↦ reply ],
      record l' { waiting = none; response = none },
    )

-- The texts that are written to the line, with the newline that `_send_and_wait` puts in front.
unfoldable pub command_text : String → Value → Value → String
command_text letter slot slave =
    "\n" <> ("\n" <> ("S" <> (format slave <> (":" <> (letter <> (format slot <> "\n"))))))

-- The simulated replies.
abbrev simulated : Bool → Value → Value → Fields
simulated door slot slave =
    fields_of (("slave", slave) ∷ ("slot", slot) ∷ ("result", str "OK") ∷ ("door", bool door) ∷ [])

unfoldable pub simulate_test_slot : Value → Value → Fields
simulate_test_slot slot slave = simulated true slot slave

unfoldable pub simulate_open_slot : Value → Value → Fields
simulate_open_slot slot slave = simulated false slot slave

unfoldable pub simulate_close_slot : Value → Value → Fields
simulate_close_slot slot slave = simulated true slot slave

abbrev pub simulated_slaves : List Value
simulated_slaves = dict (("slaveId", num (pos 1)) ∷ ("availableSlots", num (pos 6)) ∷ []) ∷ []

-- SIMULATION=true: the manager as the services see it.
abbrev pub simulation : SerialPort
simulation = record {
  State = Unit;
  test_slot = λ slot slave timeout s. (simulate_test_slot slot slave, s);
  open_slot = λ slot slave s. (simulate_open_slot slot slave, s);
  close_slot = λ slot slave s. (simulate_close_slot slot slave, s);
  scan_slaves = λ range_end s. (ok simulated_slaves, s);
}

-- The real line: `_ser` is there or not, what is written, and what happens during the n-th command.
pub record Line : Type 0 where
  pub link : Link
  pub attached : Bool
  pub written : List String
  pub commands : ℕ
  pub happens : ℕ → Wait

-- Whether the text of the command got out to the port.
abbrev pub is_sent : Wait → Bool
is_sent (port_error sent messages) = sent
is_sent (arrived messages) = true

-- One command: its text is written if there is a port that takes it, and its reply awaited.
unfoldable pub exchange : String → Value → Value → Line → Fields × Line
unfolding send_and_wait
exchange text slot slave s =
    let (reply, link) = send_and_wait slot slave (s.happens s.commands) s.link in
    (
      reply,
      record s {
        link = link;
        written =
            (if is_sent (s.happens s.commands) && s.attached
              then s.written ++ text ∷ []
              else s.written);
        commands = s.commands + 1;
      },
    )

unfoldable pub command : String → Value → Value → Line → Fields × Line
unfolding exchange command_text
command letter slot slave = exchange (command_text letter slot slave) slot slave

-- PING of one slave.
unfoldable pub ping : ℕ → Line → Fields × Line
unfolding exchange
ping sid = exchange ("\n" <> ("S" <> (decimal sid <> ":PING\n"))) (num (negsuc 0)) (num (pos sid))

-- The slave answered, with its number or with none.
unfoldable pub is_found : ℕ → Fields → Bool
is_found sid reply =
    let slave = default (num (negsuc 0)) (find "slave" reply) in
    same (default null (find "result" reply)) (str "OK")
    && (same slave (num (pos sid)) || same slave (num (negsuc 0)))

abbrev pub found_entry : ℕ → Fields → Value
found_entry sid reply = dict (
    ("slaveId", num (pos sid))
    ∷ ("availableSlots", default (num (pos 6)) (find "slots" reply))
    ∷ [])

-- The loop of `scan_slaves` over `count` slaves from `sid` on.
unfoldable pub scan_from : ℕ → ℕ → Line → List Value × Line
scan_from sid zero s = ([], s)
scan_from sid (suc count) s =
    let (reply, s') = ping sid s in
    let (rest, s'') = scan_from (suc sid) count s' in
    (if is_found sid reply then found_entry sid reply ∷ rest else rest, s'')

-- How many slaves there are from 1 up to the end of the range.
abbrev pub slave_count : ℤ → ℕ
slave_count (pos n) = n
slave_count (negsuc n) = 0

unfoldable pub scan_slaves : Value → Line → Result (List Value) × Line
scan_slaves range_end s = elim (as_number range_end) [
  | raise e ↦ (raise e, s)
  | ok n ↦ let (found, s') = scan_from 1 (slave_count n) s in (ok found, s')
]

-- test_slot, open_slot and close_slot without simulation.
abbrev pub hardware : SerialPort
hardware = record {
  State = Line;
  test_slot = λ slot slave timeout s. command "T" slot slave s;
  open_slot = λ slot slave s. command "O" slot slave s;
  close_slot = λ slot slave s. command "C" slot slave s;
  scan_slaves = scan_slaves;
}

-- `_attempt_reconnect`: the seconds to wait, and the count of failures after an attempt.
unfoldable pub reconnect_delay : ℕ → ℕ
reconnect_delay attempts = min (2 ^ attempts) 60

unfoldable pub attempts_after : Bool → ℕ → ℕ
attempts_after opened attempts = if opened then 0 else attempts + 1
