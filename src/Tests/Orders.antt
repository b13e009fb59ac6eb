-- ===== src/Tests/Orders.antt =====
-- The results at commands over the real line.
use smart_locker_iot.Prelude.{none, some, true, false, ◌≡◌, refl, [], ◌∷◌, List, ◌++◌}
use smart_locker_iot.Prelude.Int.{pos}
use smart_locker_iot.Python.{
  num, str, bool, Fields, field, end, str_key, int_key, find, same, serializable, dumps, get,
  key_of, null,
}
use smart_locker_iot.Gateway.{Gateway}
use smart_locker_iot.Heartbeat.Status.{tracked}
use smart_locker_iot.Locker.{
  Request, perform_open, perform_close, result_payload, ack_payload, open_result_topic,
  close_result_topic, ack_topic, status_payload,
}
use smart_locker_iot.Locker.Outcome.{open_report, close_report, is_ok, door_is_closed}
use smart_locker_iot.Locker.Hardware.{reply_to}
use smart_locker_iot.Locker.Hardware.Alive.{closed, jammed, alive_answers}
use smart_locker_iot.Serial.{hardware, arrived, command_text}
use smart_locker_iot.Serial.Replies.{last_answer, answer_of}
use smart_locker_iot.Prelude.Texts.Laws.{free_of}
use smart_locker_iot.CabinetState.{find_cabinet, all_cabinets, get_locker_by_slot}
use smart_locker_iot.Service.{react, message, door}
use smart_locker_iot.Prelude.Dict
use smart_locker_iot.Heartbeat.{locker_name}
use smart_locker_iot.Python.Text.{format}
use smart_locker_iot.Service.Orders.{command_message, request_of}
use smart_locker_iot.Service.Orders.Hardware.{react_message-open, react_message-close}
use smart_locker_iot.Service.Orders.Echo.{echo, notices, react_door-close}
use smart_locker_iot.Tests.{cabinet_state}
use smart_locker_iot.Tests.Gateways.{client}
use smart_locker_iot.Tests.Lines.{line}

abbrev order : Request
order = record {
  cabinet_name = "A";
  cabinet_id = str "c1";
  slave_id = num (pos 1);
  locker_id = str "l1";
  slot_index = num (pos 0);
  command_id = str "k";
}

-- A gateway on a line on which these messages come during every command.
abbrev wired : List Fields → Gateway hardware
wired ms = record {
  cabinets = cabinet_state;
  heartbeat = record { locker_states = []; running = true };
  outbox = [];
  subscriptions = [];
  setup_running = false;
  serial = record line { happens = λ n. arrived ms };
  mac_address = "aa";
  firmware_version = "1";
  max_cabinets = pos 1;
  clock = λ n. "now";
  readings = 0;
  stopwatch = λ n. pos 1;
  pending = [];
  client = client;
}

abbrev alive : Fields
alive = field "slave" (num (pos 1)) (field "event" (str "ALIVE") end)

abbrev done : Fields
done =
    field "slave" (num (pos 1))
      (field "slot" (num (pos 0)) (field "result" (str "OK") (field "door" (bool false) end)))

alive_answers_example :
    ((perform_close order (wired (alive ∷ []))).1.outbox
      ≡ record {
        topic = close_result_topic order;
        payload = result_payload order closed (str "now");
        qos = 1;
      }
        ∷ [])
    × ((perform_open order (wired (alive ∷ []))).1.outbox
        ≡ record {
          topic = open_result_topic order;
          payload = result_payload order jammed (str "now");
          qos = 1;
        }
          ∷ record {
            topic = ack_topic order;
            payload = ack_payload order jammed (str "now");
            qos = 1;
          }
          ∷ [])
unfolding find same serializable dumps free_of format
alive_answers_example =
    alive_answers order (str_key "c1") (int_key (pos 0)) (wired (alive ∷ [])) alive refl refl refl
      refl refl refl (result_payload order closed (str "now"))
      (result_payload order jammed (str "now")) (ack_payload order jammed (str "now")) refl refl
      refl refl refl refl

abbrev payload : Fields
payload =
    field "slotIndex" (num (pos 0)) (field "lockerId" (str "l1") (field "commandId" (str "k") end))

-- The fields of the cabinet that is known as A.
abbrev cabinet_fields : Fields
cabinet_fields = field "id" (str "c1") (
    field "name" (str "A") (
      field "slaveId" (num (pos 1))
        (field "totalRows" (num (pos 1)) (field "totalColumns" (num (pos 2)) end))))

react_message-open_example :
    let after =
      (react (message (command_message "/command/open" "A" "{}" payload)) (wired (done ∷ []))).1 in
    (after.outbox
      ≡ record {
        topic = open_result_topic order;
        payload = result_payload order (open_report (reply_to order (done ∷ []))) (str "now");
        qos = 1;
      }
        ∷ record {
          topic = ack_topic order;
          payload = ack_payload order (open_report (reply_to order (done ∷ []))) (str "now");
          qos = 1;
        }
        ∷ [])
    × (after.serial.written ≡ command_text "O" (num (pos 0)) (num (pos 1)) ∷ [])
    × (after.serial.link.waiting ≡ none)
    × (tracked (str_key "c1") (int_key (pos 0)) after.heartbeat.locker_states
        ≡ some (str (open_report (reply_to order (done ∷ []))).hw_state))
    × (last_answer (num (pos 1)) (done ∷ []) ≡ none
        → ((open_report (reply_to order (done ∷ []))).status ≡ "FAILED")
          × ((open_report (reply_to order (done ∷ []))).error_code ≡ str "TIMEOUT"))
unfolding open_report is_ok door_is_closed last_answer answer_of find same serializable dumps
    free_of find_cabinet all_cabinets get key_of format
react_message-open_example =
    react_message-open "A" "{}" cabinet_fields (str "c1") payload (num (pos 0)) (wired (done ∷ []))
      (done ∷ []) (str_key "c1") (int_key (pos 0)) refl refl refl refl refl refl refl refl refl
      (result_payload order (open_report (reply_to order (done ∷ []))) (str "now"))
      (ack_payload order (open_report (reply_to order (done ∷ []))) (str "now")) refl refl refl refl

react_message-close_example :
    let after =
      (react (message (command_message "/command/close" "A" "{}" payload)) (wired (done ∷ []))).1 in
    (after.outbox
      ≡ record {
        topic = close_result_topic order;
        payload = result_payload order (close_report (reply_to order (done ∷ []))) (str "now");
        qos = 1;
      }
        ∷ [])
    × (after.serial.written ≡ command_text "C" (num (pos 0)) (num (pos 1)) ∷ [])
    × (after.serial.link.waiting ≡ none)
    × (tracked (str_key "c1") (int_key (pos 0)) after.heartbeat.locker_states
        ≡ some (str (close_report (reply_to order (done ∷ []))).hw_state))
    × (last_answer (num (pos 1)) (done ∷ []) ≡ none
        → ((close_report (reply_to order (done ∷ []))).status ≡ "FAILED")
          × ((close_report (reply_to order (done ∷ []))).error_code ≡ str "TIMEOUT"))
unfolding close_report is_ok door_is_closed last_answer answer_of find same serializable dumps
    free_of find_cabinet all_cabinets get key_of format
react_message-close_example =
    react_message-close "A" "{}" cabinet_fields (str "c1") payload (num (pos 0)) (wired (done ∷ []))
      (done ∷ []) (str_key "c1") (int_key (pos 0)) refl refl refl refl refl refl refl refl refl
      (result_payload order (close_report (reply_to order (done ∷ []))) (str "now")) refl refl

react_door-close_example :
    let closed = (react (door (num (pos 0)) "DOOR_CLOSED" (num (pos 1))) (wired (done ∷ []))).1 in
    let after =
      (react
        (message (command_message "/command/close" "A" "{}" (echo (str "c1") (num (pos 0)))))
        closed).1 in
    let told =
      notices "A"
        (str "c1")
        (str "unknown-0")
        (num (pos 0))
        (status_payload (str "unknown-0") (num (pos 0)) false (str "now")) in
    let r =
      request_of "A" cabinet_fields (str "c1") (echo (str "c1") (num (pos 0))) (num (pos 0)) in
    (closed.outbox ≡ told)
    × (after.outbox
        ≡ told
          ++ record {
            topic = close_result_topic r;
            payload = result_payload r (close_report (reply_to r (done ∷ []))) (str "now");
            qos = 1;
          }
            ∷ [])
    × (after.serial.written ≡ command_text "C" (num (pos 0)) (num (pos 1)) ∷ [])
unfolding close_report is_ok door_is_closed last_answer answer_of find same serializable dumps
    free_of find_cabinet all_cabinets get key_of get_locker_by_slot Dict.get locker_name format
react_door-close_example =
    let r =
      request_of "A" cabinet_fields (str "c1") (echo (str "c1") (num (pos 0))) (num (pos 0)) in
    react_door-close "A" "{}" cabinet_fields (str "c1") (num (pos 0)) null (str "unknown-0")
      (status_payload (str "unknown-0") (num (pos 0)) false (str "now"))
      (result_payload r (close_report (reply_to r (done ∷ []))) (str "now")) (num (pos 1))
      (str_key "c1") (int_key (pos 0)) (wired (done ∷ [])) (done ∷ []) refl refl refl refl refl refl
      refl refl refl refl refl refl refl refl refl refl refl refl
