-- ===== src/Service/Orders.antt =====
-- What a message with a command for a known cabinet does up to the command itself: the log, the routing and
-- the reading of the request (services/locker_service.py).
pub mod Hardware
pub mod Echo
use smart_locker_iot.Prelude.{
  String, ◌<>◌, true, false, none, some, List, [], ◌∷◌, ◌++◌, ◌+◌, ◌≡◌, refl, ap, ◌∙◌, sym, arith,
  if◌then◌else◌,
}
use smart_locker_iot.Prelude.Int.{pos}
use smart_locker_iot.Prelude.Texts.{ends_with}
use smart_locker_iot.Prelude.Texts.Laws.{free_of, ends_with-other}
use smart_locker_iot.Prelude.Dict
use smart_locker_iot.Python.{
  Value, null, num, str, obj, Fields, find, default, get, get_or, index, truthy, is_none, Key,
  key_of, ok, dumps,
}
use smart_locker_iot.Python.Exec.{Exec, continue, ◌>>=◌, ◌>>◌}
use smart_locker_iot.Database.Tables.{transact}
use smart_locker_iot.Database.Methods.{log_mqtt}
use smart_locker_iot.CabinetState.{
  CabinetState, with_db, get_cabinet_by_name, find_cabinet, all_cabinets,
}
use smart_locker_iot.Gateway.{SerialPort, Gateway, on_cabinets}
use smart_locker_iot.Heartbeat.Status.{tracked}
use smart_locker_iot.Serial.{hardware, arrived, command_text}
use smart_locker_iot.Serial.Replies.{last_answer}
use smart_locker_iot.Locker.Outcome.{open_report}
use smart_locker_iot.Locker.Hardware.{reply_to, perform_open-hardware}
use smart_locker_iot.Locker.{
  Request, read_named, answer, perform_open, result_payload, ack_payload, open_result_topic,
  ack_topic,
}
use smart_locker_iot.Service.{Incoming, handle_incoming_message, route, route_json, message, react}
use smart_locker_iot.Service.Routing.{cabinet_topic}

-- What a command reads from its cabinet and its payload.
abbrev pub request_of : String → Fields → Value → Fields → Value → Request
request_of name cab id payload slot = record {
  cabinet_name = name;
  cabinet_id = id;
  slave_id = default (num (pos 1)) (find "slaveId" cab);
  locker_id = default (str "") (find "lockerId" payload);
  slot_index = slot;
  command_id = default null (find "commandId" payload);
}

-- The cabinet state once a message was logged.
abbrev pub logged : Incoming → CabinetState → CabinetState
logged m s = (with_db (log_mqtt m.topic m.text "IN") s).1

logged_ok : (m : Incoming) (s : CabinetState) → (with_db (log_mqtt m.topic m.text "IN") s).0 ≡ ok tt
unfolding with_db log_mqtt transact
logged_ok m s = ground arith

logged_cabinets : (m : Incoming) (s : CabinetState) → (logged m s).cabinets ≡ s.cabinets
unfolding with_db
logged_cabinets m s = ground arith

module _ {P : SerialPort} where
  read_named-known :
      (name : String) (cab : Fields) (id : Value) (payload : Fields) (slot : Value) (g : Gateway P)
      → find_cabinet "name" (str name) (all_cabinets g.cabinets) ≡ ok (obj cab)
      → truthy (obj cab) ≡ true
      → find "id" cab ≡ some id
      → find "slotIndex" payload ≡ some slot
      → is_none slot ≡ false
      → read_named (obj payload) name g ≡ (ok (some (request_of name cab id payload slot)), g)
  unfolding read_named on_cabinets get_cabinet_by_name get get_or index ◌>>=◌
  read_named-known name cab id payload slot g there full i s given =
      rw (there, full, i, s, given) refl

  -- The log comes first, and nothing of it goes on.
  handle_incoming_message-logged :
      (m : Incoming) (g : Gateway P)
      → ends_with m.topic "/discovery/start" ≡ false
      → handle_incoming_message m g
        ≡ route_json m.topic m.json (record g { cabinets = logged m g.cabinets })
  unfolding handle_incoming_message on_cabinets ◌>>◌ ◌>>=◌
  handle_incoming_message-logged m g other = rw (logged_ok m g.cabinets, other) refl

-- The message of the broker.
abbrev pub command_message : String → String → String → Fields → Incoming
command_message word name text payload = record {
  topic = cabinet_topic name word;
  text = text;
  json = some (obj payload);
}

module _ {P : SerialPort} (word : String) (act : Request → Exec (Gateway P) (Unit {0})) where
  -- A message that is routed to the reading of a request and to this action.
  pub react-known :
      (name text : String) (cab : Fields) (id : Value) (payload : Fields) (slot : Value)
      (g : Gateway P)
      → ends_with (cabinet_topic name word) "/discovery/start" ≡ false
      → route (cabinet_topic name word) (obj payload)
        ≡ (read_named (obj payload) name >>= answer act)
      → find_cabinet "name" (str name) (all_cabinets g.cabinets) ≡ ok (obj cab)
      → truthy (obj cab) ≡ true
      → find "id" cab ≡ some id
      → find "slotIndex" payload ≡ some slot
      → is_none slot ≡ false
      → let m = command_message word name text payload in
        (react (message m) g).1
        ≡ (act
            (request_of name cab id payload slot)
            (record g { cabinets = logged m g.cabinets })).1
  unfolding react route_json answer all_cabinets ◌>>=◌
  react-known name text cab id payload slot g other routed there full i s given =
      let m : Incoming = command_message word name text payload in
      let h : Gateway P = record g { cabinets = logged m g.cabinets } in
      let kept : find_cabinet "name" (str name) (all_cabinets h.cabinets) ≡ ok (obj cab) =
        ap (λ d. find_cabinet "name" (str name) (Dict.values d)) (logged_cabinets m g.cabinets)
        ∙ there in
      ap (λ r. r.1)
        (handle_incoming_message-logged m g other
          ∙ ap (λ m. m h) routed
          ∙ ap (λ r. continue r.0 (answer act) r.1)
              (read_named-known name cab id payload slot h kept full i s given))
