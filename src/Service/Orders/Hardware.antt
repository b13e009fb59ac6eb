-- ===== src/Service/Orders/Hardware.antt =====
-- Commands to open and to close, from the message of the broker to the reply of the slave
-- (services/locker_service.py over infracstructure/serial_manager.py).
use text.Mathlib.TextLemmas as Text
use smart_locker_iot.Prelude.{
  String, ◌<>◌, true, false, none, some, List, [], ◌∷◌, ◌++◌, ◌+◌, ◌≡◌, ap, ◌∙◌, sym, refl, arith,
  if◌then◌else◌,
}
use smart_locker_iot.Prelude.Texts.{ends_with}
use smart_locker_iot.Prelude.Texts.Laws.{free_of, ends_with-other}
use smart_locker_iot.Python.{Value, str, obj, Fields, find, truthy, is_none, Key, key_of, ok, dumps}
use smart_locker_iot.CabinetState.{find_cabinet, all_cabinets}
use smart_locker_iot.Gateway.{Gateway}
use smart_locker_iot.Heartbeat.Status.{tracked}
use smart_locker_iot.Serial.{hardware, arrived, command_text}
use smart_locker_iot.Serial.Replies.{last_answer}
use smart_locker_iot.Locker.Outcome.{open_report, close_report}
use smart_locker_iot.Locker.Hardware.{reply_to, perform_open-hardware, perform_close-hardware}
use smart_locker_iot.Locker.{
  Request, perform_open, perform_close, result_payload, ack_payload, open_result_topic,
  close_result_topic, ack_topic,
}
use smart_locker_iot.Service.{Incoming, message, react}
use smart_locker_iot.Service.Routing.{cabinet_topic, route-cabinet_topic}
use smart_locker_iot.Service.Orders.{request_of, logged, command_message, react-known}

not-discovery :
    (name : String)
    → (ends_with (cabinet_topic name "/command/open") "/discovery/start" ≡ false)
      × (ends_with (cabinet_topic name "/command/close") "/discovery/start" ≡ false)
unfolding ends_with
not-discovery name = (
  ap (λ t. ends_with t "/discovery/start") (sym (Text.append_assoc "cabinet/" name "/command/open"))
      ∙ ends_with-other ("cabinet/" <> name) "/command/open" "/discovery/" "start" (omega arith)
          refl,
  ap (λ t. ends_with t "/discovery/start")
        (sym (Text.append_assoc "cabinet/" name "/command/close"))
      ∙ ends_with-other ("cabinet/" <> name) "/command/close" "/discovery/" "start" (omega arith)
          refl,
)

module _ (name text : String) (cab : Fields) (id : Value) (payload : Fields) (slot : Value)
    (g : Gateway hardware) (ms : List Fields) (ck sk : Key) (plain : free_of b'/' name ≡ true)
    (there : find_cabinet "name" (str name) (all_cabinets g.cabinets) ≡ ok (obj cab))
    (full : truthy (obj cab) ≡ true) (own : find "id" cab ≡ some id)
    (given : find "slotIndex" payload ≡ some slot) (whole : is_none slot ≡ false)
    (hc : key_of id ≡ ok ck) (hs : key_of slot ≡ ok sk)
    (happens : g.serial.happens g.serial.commands ≡ arrived ms) where
  -- A JSON message with a slot, on the topic for the open commands of a cabinet that is known under this
  -- name, which has no slash: while the port does not raise, with hashable ids, payloads that are JSON and
  -- topics that the client takes, the text of the command is
  -- written to the line, once, if there is a port, and no waiter is left; the result and then the
  -- acknowledgement are published, and report the last answer of the cabinet's slave among the messages
  -- that come meanwhile, or else a failure, TIMEOUT; and the state that they tell is what is then
  -- tracked of the slot.
  pub react_message-open :
      (result ack : Value)
      → let r = request_of name cab id payload slot in
        dumps (result_payload r (open_report (reply_to r ms)) (str (g.clock g.readings)))
          ≡ ok result
        → dumps (ack_payload r (open_report (reply_to r ms)) (str (g.clock (g.readings + 1))))
          ≡ ok ack
        → g.client.publishes (open_result_topic r) ≡ true
        → g.client.publishes (ack_topic r) ≡ true
        → let after = (react (message (command_message "/command/open" name text payload)) g).1 in
          (after.outbox
            ≡ g.outbox
              ++ record { topic = open_result_topic r; payload = result; qos = 1 }
                ∷ record { topic = ack_topic r; payload = ack; qos = 1 }
                ∷ [])
          × (after.serial.written ≡ (
              if g.serial.attached
              then g.serial.written ++ command_text "O" r.slot_index r.slave_id ∷ []
              else g.serial.written))
          × (after.serial.link.waiting ≡ none)
          × (tracked ck sk after.heartbeat.locker_states
              ≡ some (str (open_report (reply_to r ms)).hw_state))
          × (last_answer r.slave_id ms ≡ none
              → ((open_report (reply_to r ms)).status ≡ "FAILED")
                × ((open_report (reply_to r ms)).error_code ≡ str "TIMEOUT"))
  react_message-open result ack jr ja t u =
      let r : Request = request_of name cab id payload slot in
      let m : Incoming = command_message "/command/open" name text payload in
      let same =
        react-known "/command/open" perform_open name text cab id payload slot g
          (not-discovery name).0 (route-cabinet_topic name (obj payload) plain).0 there full own
          given whole in
      let (out, sent, free, known, late) =
        perform_open-hardware r ck sk (record g { cabinets = logged m g.cabinets }) ms hc hs happens
          result ack jr ja t u in
      (
        ap (λ t. t.outbox) same ∙ out,
        ap (λ t. t.serial.written) same ∙ sent,
        ap (λ t. t.serial.link.waiting) same ∙ free,
        ap (λ t. tracked ck sk t.heartbeat.locker_states) same ∙ known,
        late,
      )

  -- A JSON message with a slot, on the topic for the close commands of a cabinet that is known under this
  -- name, which has no slash: while the port does not raise, with hashable ids, a payload that is JSON and a
  -- topic that the client takes, the text of the command is
  -- written to the line, once, if there is a port, and no waiter is left; the result alone is published,
  -- without an acknowledgement, and reports the last answer of the cabinet's slave among the messages that
  -- come meanwhile, or else a failure, TIMEOUT; and the state that it tells is what is then tracked of the
  -- slot.
  pub react_message-close :
      (result : Value)
      → let r = request_of name cab id payload slot in
        dumps (result_payload r (close_report (reply_to r ms)) (str (g.clock g.readings)))
          ≡ ok result
        → g.client.publishes (close_result_topic r) ≡ true
        → let after = (react (message (command_message "/command/close" name text payload)) g).1 in
          (after.outbox
            ≡ g.outbox ++ record { topic = close_result_topic r; payload = result; qos = 1 } ∷ [])
          × (after.serial.written ≡ (
              if g.serial.attached
              then g.serial.written ++ command_text "C" r.slot_index r.slave_id ∷ []
              else g.serial.written))
          × (after.serial.link.waiting ≡ none)
          × (tracked ck sk after.heartbeat.locker_states
              ≡ some (str (close_report (reply_to r ms)).hw_state))
          × (last_answer r.slave_id ms ≡ none
              → ((close_report (reply_to r ms)).status ≡ "FAILED")
                × ((close_report (reply_to r ms)).error_code ≡ str "TIMEOUT"))
  react_message-close result jr t =
      let r : Request = request_of name cab id payload slot in
      let m : Incoming = command_message "/command/close" name text payload in
      let same =
        react-known "/command/close" perform_close name text cab id payload slot g
          (not-discovery name).1 (route-cabinet_topic name (obj payload) plain).1 there full own
          given whole in
      let (out, sent, free, known, late) =
        perform_close-hardware r ck sk (record g { cabinets = logged m g.cabinets }) ms hc hs
          happens result jr t in
      (
        ap (λ t. t.outbox) same ∙ out,
        ap (λ t. t.serial.written) same ∙ sent,
        ap (λ t. t.serial.link.waiting) same ∙ free,
        ap (λ t. tracked ck sk t.heartbeat.locker_states) same ∙ known,
        late,
      )
