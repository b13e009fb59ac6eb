-- ===== src/Service/Orders/Echo.antt =====
-- A door that closes (_on_door_event of services/locker_service.py), and the message about it that comes back
-- on a topic that the gateway subscribes to.
use text.Mathlib.TextLemmas as Text
use smart_locker_iot.Prelude.{
  String, ◌<>◌, true, false, some, List, [], ◌∷◌, ◌++◌, ◌+◌, ◌≡◌, ap, ◌∙◌, refl, append_assoc,
  if◌then◌else◌,
}
use smart_locker_iot.Prelude.Texts.Laws.{free_of}
use smart_locker_iot.Python.{
  Value, str, obj, Fields, field, end, find, get, index, truthy, is_none, Key, key_of, ok, dumps,
}
use smart_locker_iot.Python.Text.{format}
use smart_locker_iot.Python.Exec.{◌>>=◌, ◌>>◌}
use smart_locker_iot.CabinetState.{find_cabinet, all_cabinets, get_locker_by_slot}
use smart_locker_iot.Gateway.{SerialPort, Gateway, Message, timestamp, on_cabinets}
use smart_locker_iot.Heartbeat.{locker_name}
use smart_locker_iot.Heartbeat.Status.{assigned, update_locker_state_eq}
use smart_locker_iot.Serial.{hardware, arrived, command_text}
use smart_locker_iot.Locker.Outcome.{close_report}
use smart_locker_iot.Locker.Commands.{publish_eq}
use smart_locker_iot.Locker.Hardware.{reply_to}
use smart_locker_iot.Locker.{
  status_payload, report_door, handle_door_event, result_payload, close_result_topic,
}
use smart_locker_iot.Service.{message, door, react}
use smart_locker_iot.Service.Routing.{cabinet_topic}
use smart_locker_iot.Service.Orders.{request_of, command_message}
use smart_locker_iot.Service.Orders.Hardware.{react_message-close}

-- The payload that the gateway publishes on the topic for close commands.
abbrev pub echo : Value → Value → Fields
echo id slot = field "cabinetId" id (field "slotIndex" slot end)

-- What the gateway publishes when a door closes.
abbrev pub notices : String → Value → Value → Value → Value → List Message
notices name id locker_id slot status =
    record {
      topic = ("cabinet/" <> name) <> ("/locker/" <> (format locker_id <> "/status"));
      payload = status;
      qos = 1;
    }
    ∷ record { topic = cabinet_topic name "/command/close"; payload = obj (echo id slot); qos = 1 }
    ∷ []

-- The gateway after a door has closed.
abbrev pub shut :
    {P : SerialPort} → String → Value → Key → Key → Value → Value → Value → Gateway P → Gateway P
shut name id ck sk locker_id slot status g = record g {
  outbox = g.outbox ++ notices name id locker_id slot status;
  readings = g.readings + 1;
  heartbeat = record g.heartbeat {
    locker_states = assigned ck sk (str "CLOSING") g.heartbeat.locker_states;
  };
}

module _ {P : SerialPort} (name : String) (cab : Fields) (id slot info locker_id status : Value)
    (ck sk : Key) (g : Gateway P) (own : find "id" cab ≡ some id)
    (called : find "name" cab ≡ some (str name)) (hc : key_of id ≡ ok ck) (hs : key_of slot ≡ ok sk)
    (cached : get_locker_by_slot id slot g.cabinets ≡ (ok info, g.cabinets))
    (named : locker_name info slot ≡ ok locker_id)
    (js : dumps (status_payload locker_id slot false (str (g.clock g.readings))) ≡ ok status)
    (je : dumps (obj (echo id slot)) ≡ ok (obj (echo id slot)))
    (heard : g.client.publishes
        (("cabinet/" <> name) <> ("/locker/" <> (format locker_id <> "/status")))
      ≡ true)
    (sent : g.client.publishes (cabinet_topic name "/command/close") ≡ true) where
  report_door-closed :
      report_door (obj cab) slot "DOOR_CLOSED" g
      ≡ (ok tt, shut name id ck sk locker_id slot status g)
  unfolding report_door on_cabinets timestamp index get format ◌>>=◌ ◌>>◌
  report_door-closed =
      rw
        (
          own,
          called,
          cached,
          named,
          Text.append_assoc "cabinet/" name "/command/close",
          publish_eq _ _ status 1 _ js,
          heard,
          publish_eq _ _ (obj (echo id slot)) 1 _ je,
          sent,
          update_locker_state_eq _ _ "CLOSING" ck sk _ hc hs,
        )
        (ap (λ out. (ok tt, record (shut name id ck sk locker_id slot status g) { outbox = out }))
          (append_assoc g.outbox _ _))

  react-door_closed :
      (slave : Value)
      → find_cabinet "slaveId" slave (all_cabinets g.cabinets) ≡ ok (obj cab)
      → truthy (obj cab) ≡ true
      → (react (door slot "DOOR_CLOSED" slave) g).1 ≡ shut name id ck sk locker_id slot status g
  unfolding react handle_door_event ◌>>=◌
  react-door_closed slave there full = rw (there, full) (ap (λ r. r.1) report_door-closed)

module _ (name text : String) (cab : Fields) (id slot info locker_id status result slave : Value)
    (ck sk : Key) (g : Gateway hardware) (ms : List Fields) (plain : free_of b'/' name ≡ true)
    (served : find_cabinet "slaveId" slave (all_cabinets g.cabinets) ≡ ok (obj cab))
    (there : find_cabinet "name" (str name) (all_cabinets g.cabinets) ≡ ok (obj cab))
    (full : truthy (obj cab) ≡ true) (own : find "id" cab ≡ some id)
    (called : find "name" cab ≡ some (str name)) (hc : key_of id ≡ ok ck) (hs : key_of slot ≡ ok sk)
    (whole : is_none slot ≡ false)
    (cached : get_locker_by_slot id slot g.cabinets ≡ (ok info, g.cabinets))
    (named : locker_name info slot ≡ ok locker_id)
    (happens : g.serial.happens g.serial.commands ≡ arrived ms) where
  -- A door that closes, at a slave whose cabinet is known, under a name without a slash, with hashable ids,
  -- payloads that are JSON and topics that the client takes: the gateway publishes the status of the slot, and a
  -- message on the topic for the close commands of the cabinet. Once this message comes back, and while the port
  -- does not raise, the text of a command to close the slot is written to the line, if there is a port, and a
  -- third message tells the result.
  pub react_door-close :
      let r = request_of name cab id (echo id slot) slot in
      let closed = (react (door slot "DOOR_CLOSED" slave) g).1 in
      let after =
        (react (message (command_message "/command/close" name text (echo id slot))) closed).1 in
      dumps (status_payload locker_id slot false (str (g.clock g.readings))) ≡ ok status
      → dumps (obj (echo id slot)) ≡ ok (obj (echo id slot))
      → dumps (result_payload r (close_report (reply_to r ms)) (str (g.clock (g.readings + 1))))
        ≡ ok result
      → g.client.publishes (("cabinet/" <> name) <> ("/locker/" <> (format locker_id <> "/status")))
        ≡ true
      → g.client.publishes (cabinet_topic name "/command/close") ≡ true
      → g.client.publishes (close_result_topic r) ≡ true
      → (closed.outbox ≡ g.outbox ++ notices name id locker_id slot status)
        × (after.outbox
            ≡ (g.outbox ++ notices name id locker_id slot status)
              ++ record { topic = close_result_topic r; payload = result; qos = 1 } ∷ [])
        × (after.serial.written ≡ (
            if g.serial.attached
            then g.serial.written ++ command_text "C" slot r.slave_id ∷ []
            else g.serial.written))
  unfolding find
  react_door-close js je jr heard taken told =
      let m = message (command_message "/command/close" name text (echo id slot)) in
      let same =
        react-door_closed name cab id slot info locker_id status ck sk g own called hc hs cached
          named js je heard taken slave served full in
      let (out, sent, _, _, _) =
        react_message-close name text cab id (echo id slot) slot
          (shut name id ck sk locker_id slot status g) ms ck sk plain there full own refl whole hc
          hs happens result jr told in
      (
        ap (λ t. t.outbox) same,
        ap (λ (t : Gateway hardware). (react m t).1.outbox) same ∙ out,
        ap (λ (t : Gateway hardware). (react m t).1.serial.written) same ∙ sent,
      )
