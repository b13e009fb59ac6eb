-- ===== src/Locker.antt =====
-- services/locker_service.py, as main.py wires it: every collaborator is there.
pub mod Outcome
pub mod Reports
pub mod Commands
pub mod Hardware
mod Payloads
use smart_locker_iot.Prelude.{
  ℕ, String, ◌<>◌, Bool, true, false, not, ◌&&◌, ◌||◌, Option, none, some, List, [], ◌∷◌, string_eq,
  ◌==◌, if◌then◌else◌,
}
use smart_locker_iot.Prelude.Lists.{get_elem?}
use smart_locker_iot.Prelude.Texts.{split, ends_with, contains}
use smart_locker_iot.Prelude.Int.{pos}
use smart_locker_iot.Python.{
  Value, null, bool, num, str, obj, Fields, find, default, get, get_or, index, truthy, is_none,
  same, Result, ok, raise,
}
use smart_locker_iot.Python.Text.{format}
use smart_locker_iot.Python.Exec.{Exec, pure, lift, gets, modify, ◌>>=◌, ◌>>◌}
use smart_locker_iot.CabinetState.{
  get_cabinet_by_name, get_locker_by_slot, all_cabinets, find_cabinet,
}
use smart_locker_iot.Gateway.{
  SerialPort, Gateway, dict, without_none, on_cabinets, timestamp, publish, subscribe_open_command,
}
use smart_locker_iot.Heartbeat.{update_locker_state, locker_name, start}
pub use Payloads.*
pub use Outcome.{Report, open_report, close_report}

module _ {P : SerialPort} where
  -- The common beginning of the two handlers, once the topic has given the cabinet's name: `none` where
  -- they return without an effect.
  unfoldable pub read_named : Value → String → Exec (Gateway P) (Option Request)
  read_named payload cabinet_name = do
    cab ← on_cabinets (get_cabinet_by_name cabinet_name)
    if not (truthy cab) then pure none else do
      cabinet_id ← lift (index "id" cab)
      slave_id ← lift (get_or "slaveId" (num (pos 1)) cab)
      locker_id ← lift (get_or "lockerId" (str "") payload)
      slot ← lift (get "slotIndex" payload)
      command ← lift (get "commandId" payload)
      if is_none (default null slot)
          then pure none
          else pure (
              some (record {
                cabinet_name = cabinet_name;
                cabinet_id = cabinet_id;
                slave_id = slave_id;
                locker_id = locker_id;
                slot_index = default null slot;
                command_id = default null command;
              }))

  unfoldable pub when_named :
      Option String
      → (String → Exec (Gateway P) (Option Request))
      → Exec (Gateway P) (Option Request)
  when_named none act = pure none
  when_named (some cabinet_name) act = act cabinet_name

  -- The cabinet's name is the second part of the topic.
  unfoldable pub read_request : String → Value → Exec (Gateway P) (Option Request)
  read_request topic payload = when_named (get_elem? (split b'/' topic) 1) (read_named payload)

  unfoldable pub open_slot : Request → Exec (Gateway P) Fields
  open_slot r g =
      let (reply, port) = P.open_slot r.slot_index r.slave_id g.serial in
      (ok reply, record g { serial = port })

  unfoldable pub close_slot : Request → Exec (Gateway P) Fields
  close_slot r g =
      let (reply, port) = P.close_slot r.slot_index r.slave_id g.serial in
      (ok reply, record g { serial = port })

  -- _handle_open_command once the request is read.
  unfoldable pub perform_open : Request → Exec (Gateway P) (Unit {0})
  perform_open r = do
    update_locker_state r.cabinet_id r.slot_index "OPENING"
    reply ← open_slot r
    now ← timestamp
    publish (open_result_topic r) (result_payload r (open_report reply) now) 1
    later ← timestamp
    publish (ack_topic r) (ack_payload r (open_report reply) later) 1
    update_locker_state r.cabinet_id r.slot_index (open_report reply).hw_state

  -- _handle_close_command once the request is read.
  unfoldable pub perform_close : Request → Exec (Gateway P) (Unit {0})
  perform_close r = do
    reply ← close_slot r
    now ← timestamp
    publish (close_result_topic r) (result_payload r (close_report reply) now) 1
    update_locker_state r.cabinet_id r.slot_index (close_report reply).hw_state

  unfoldable pub answer :
      (Request → Exec (Gateway P) (Unit {0})) → Option Request → Exec (Gateway P) (Unit {0})
  answer act none = pure tt
  answer act (some r) = act r

  unfoldable pub handle_open_command : String → Value → Exec (Gateway P) (Unit {0})
  handle_open_command topic payload = do
    request ← read_request topic payload
    answer perform_open request

  unfoldable pub handle_close_command : String → Value → Exec (Gateway P) (Unit {0})
  handle_close_command topic payload = do
    request ← read_request topic payload
    answer perform_close request

  -- handle_door_event once the cabinet of the slave is found.
  unfoldable pub report_door : Value → Value → String → Exec (Gateway P) (Unit {0})
  report_door cab slot_index event_type = do
    cabinet_id ← lift (index "id" cab)
    cabinet_name ← lift (index "name" cab)
    locker_info ← on_cabinets (get_locker_by_slot cabinet_id slot_index)
    locker_id ← lift (locker_name locker_info slot_index)
    let prefix = "cabinet/" <> format cabinet_name
    let opened = event_type == "DOOR_OPENED"
    now ← timestamp
    publish (prefix <> ("/locker/" <> (format locker_id <> "/status")))
        (status_payload locker_id slot_index opened now) 1
    if event_type == "DOOR_CLOSED"
        then publish (prefix <> "/command/close")
            (dict (("cabinetId", cabinet_id) ∷ ("slotIndex", slot_index) ∷ [])) 1
        else pure tt
    update_locker_state cabinet_id slot_index (if opened then "OPENING" else "CLOSING")

  unfoldable pub handle_door_event : Value → String → Value → Exec (Gateway P) (Unit {0})
  handle_door_event slot_index event_type slave_id = do
    cabs ← gets (λ g. all_cabinets g.cabinets)
    cab ← lift (find_cabinet "slaveId" slave_id cabs)
    if truthy cab then report_door cab slot_index event_type else pure tt

  -- _on_setup_complete
  unfoldable pub on_setup_complete : Value → Exec (Gateway P) (Unit {0})
  on_setup_complete cabinet_name = do subscribe_open_command (format cabinet_name); start
