-- ===== src/Locker/Hardware.antt =====
-- The commands of services/locker_service.py over the real line of infracstructure/serial_manager.py.
pub mod Alive
use smart_locker_iot.Prelude.{
  ◌&&◌, String, true, some, none, List, [], ◌∷◌, ◌++◌, ◌+◌, ◌≡◌, refl, ap, ◌∙◌, if◌then◌else◌,
}
use smart_locker_iot.Python.{Value, null, str, Fields, find, Key, key_of, same, ok, dumps}
use smart_locker_iot.Gateway.{Gateway}
use smart_locker_iot.Heartbeat.Status.{tracked}
use smart_locker_iot.Serial.{
  hardware, command, command_text, exchange, arrived, timeout_response, alive_reply, slave_of,
  send_and_wait, is_sent,
}
use smart_locker_iot.Serial.Replies.{
  answer_of, last_answer, door_calls, or_timeout, send_and_wait_lem,
}
use smart_locker_iot.Locker.Outcome.{Report, is_ok, door_is_closed, open_report, close_report}
use smart_locker_iot.Locker.Commands.{perform_open_lem, perform_close_lem}
use smart_locker_iot.Locker.{
  Request, perform_open, perform_close, result_payload, ack_payload, open_result_topic,
  close_result_topic, ack_topic,
}

-- The reply to a command of the request during which these messages are handled.
abbrev pub reply_to : Request → List Fields → Fields
reply_to r ms = or_timeout r.slot_index r.slave_id (last_answer r.slave_id ms)

pub command-arrived :
    (letter : String) (r : Request) (s : hardware.State) (ms : List Fields)
    → s.happens s.commands ≡ arrived ms
    → command letter r.slot_index r.slave_id s ≡ (
      reply_to r ms,
      record s {
        link = record {
          waiting = none;
          response = none;
          door_events = s.link.door_events ++ door_calls ms;
        };
        written =
            (if s.attached
              then s.written ++ command_text letter r.slot_index r.slave_id ∷ []
              else s.written);
        commands = s.commands + 1;
      },
    )
unfolding command exchange
command-arrived letter r s ms h =
    let text = command_text letter r.slot_index r.slave_id in
    ap
      (λ w. (
        (send_and_wait r.slot_index r.slave_id w s.link).0,
        record s {
          link = (send_and_wait r.slot_index r.slave_id w s.link).1;
          written = (if is_sent w && s.attached then s.written ++ text ∷ [] else s.written);
          commands = s.commands + 1;
        },
      ))
      h
    ∙ ap
        (λ x. (
          x.0,
          record s {
            link = x.1;
            written = (if s.attached then s.written ++ text ∷ [] else s.written);
            commands = s.commands + 1;
          },
        ))
        (send_and_wait_lem r.slot_index r.slave_id ms s.link)

timeout-open_report :
    (slot slave : Value)
    → ((open_report (timeout_response slot slave)).status ≡ "FAILED")
      × ((open_report (timeout_response slot slave)).error_code ≡ str "TIMEOUT")
unfolding open_report is_ok find same
timeout-open_report slot slave = (refl, refl)

timeout-close_report :
    (slot slave : Value)
    → ((close_report (timeout_response slot slave)).status ≡ "FAILED")
      × ((close_report (timeout_response slot slave)).error_code ≡ str "TIMEOUT")
unfolding close_report is_ok find same
timeout-close_report slot slave = (refl, refl)

module _ (r : Request) (ck sk : Key) (g : Gateway hardware) (ms : List Fields)
    (hc : key_of r.cabinet_id ≡ ok ck) (hs : key_of r.slot_index ≡ ok sk)
    (happens : g.serial.happens g.serial.commands ≡ arrived ms) where
  -- A command to open on the real line while the port does not raise, with hashable ids, payloads that are
  -- JSON and topics that the client takes: the text of the command is written, once, if there is a port; the
  -- result and the acknowledgement report the last answer of the slave among the messages that come meanwhile,
  -- or else a failure, TIMEOUT. No waiter is left.
  pub perform_open-hardware :
      (result ack : Value)
      → dumps (result_payload r (open_report (reply_to r ms)) (str (g.clock g.readings)))
        ≡ ok result
      → dumps (ack_payload r (open_report (reply_to r ms)) (str (g.clock (g.readings + 1))))
        ≡ ok ack
      → g.client.publishes (open_result_topic r) ≡ true
      → g.client.publishes (ack_topic r) ≡ true
      → let after = (perform_open r g).1 in
        (after.outbox
          ≡ g.outbox
            ++ record { topic = open_result_topic r; payload = result; qos = 1 }
              ∷ record { topic = ack_topic r; payload = ack; qos = 1 }
              ∷ [])
        × (after.serial.written ≡ (
            if g.serial.attached
            then g.serial.written ++ command_text "O" r.slot_index r.slave_id ∷ []
            else g.serial.written))
        × (after.serial.link.waiting ≡ none)
        × (tracked ck sk after.heartbeat.locker_states
            ≡ some (str (open_report (reply_to r ms)).hw_state))
        × (last_answer r.slave_id ms ≡ none
            → ((open_report (reply_to r ms)).status ≡ "FAILED")
              × ((open_report (reply_to r ms)).error_code ≡ str "TIMEOUT"))
  perform_open-hardware result ack jr ja t u =
      let told = command-arrived "O" r g.serial ms happens in
      let reply = ap (λ x. x.0) told in
      let (out, serial, known) =
        perform_open_lem r ck sk g hc hs result ack
          (ap (λ a. dumps (result_payload r (open_report a) (str (g.clock g.readings)))) reply ∙ jr)
          (ap (λ a. dumps (ack_payload r (open_report a) (str (g.clock (g.readings + 1))))) reply
            ∙ ja)
          t u in
      let line = serial ∙ ap (λ x. x.1) told in
      (
        out,
        ap (λ l. l.written) line,
        ap (λ l. l.link.waiting) line,
        known ∙ ap (λ a. some (str (open_report a).hw_state)) reply,
        λ silent. rw silent (timeout-open_report r.slot_index r.slave_id),
      )

  -- A command to close on the real line while the port does not raise, with hashable ids, a payload that is
  -- JSON and a topic that the client takes: the text of the command is written, once, if there is a port; the
  -- result alone is published and reports the last answer of the slave among the messages that come meanwhile,
  -- or else a failure, TIMEOUT. No waiter is left.
  pub perform_close-hardware :
      (result : Value)
      → dumps (result_payload r (close_report (reply_to r ms)) (str (g.clock g.readings)))
        ≡ ok result
      → g.client.publishes (close_result_topic r) ≡ true
      → let after = (perform_close r g).1 in
        (after.outbox
          ≡ g.outbox ++ record { topic = close_result_topic r; payload = result; qos = 1 } ∷ [])
        × (after.serial.written ≡ (
            if g.serial.attached
            then g.serial.written ++ command_text "C" r.slot_index r.slave_id ∷ []
            else g.serial.written))
        × (after.serial.link.waiting ≡ none)
        × (tracked ck sk after.heartbeat.locker_states
            ≡ some (str (close_report (reply_to r ms)).hw_state))
        × (last_answer r.slave_id ms ≡ none
            → ((close_report (reply_to r ms)).status ≡ "FAILED")
              × ((close_report (reply_to r ms)).error_code ≡ str "TIMEOUT"))
  perform_close-hardware result jr t =
      let told = command-arrived "C" r g.serial ms happens in
      let reply = ap (λ x. x.0) told in
      let (out, serial, known) =
        perform_close_lem r ck sk g hc hs result
          (ap (λ a. dumps (result_payload r (close_report a) (str (g.clock g.readings)))) reply
            ∙ jr)
          t in
      let line = serial ∙ ap (λ x. x.1) told in
      (
        out,
        ap (λ l. l.written) line,
        ap (λ l. l.link.waiting) line,
        known ∙ ap (λ a. some (str (close_report a).hw_state)) reply,
        λ silent. rw silent (timeout-close_report r.slot_index r.slave_id),
      )
