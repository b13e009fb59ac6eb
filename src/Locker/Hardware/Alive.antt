-- ===== src/Locker/Hardware/Alive.antt =====
-- The periodic ALIVE event of a slave, and the commands of services/locker_service.py on the real line.
use smart_locker_iot.Prelude.{
  arith, String, true, false, some, [], ◌∷◌, ◌++◌, ◌+◌, ◌≡◌, refl, ap, ◌∙◌,
}
use smart_locker_iot.Python.{Value, null, is_none, str, Fields, find, Key, key_of, same, ok, dumps}
use smart_locker_iot.Gateway.{Gateway}
use smart_locker_iot.Serial.{hardware, command, arrived, alive_reply, slave_of}
use smart_locker_iot.Serial.Replies.{answer_of, last_answer, or_timeout}
use smart_locker_iot.Locker.Outcome.{Report, is_ok, door_is_closed, open_report, close_report}
use smart_locker_iot.Locker.Commands.{perform_open_lem, perform_close_lem}
use smart_locker_iot.Locker.{
  Request, perform_open, perform_close, result_payload, ack_payload, open_result_topic,
  close_result_topic, ack_topic,
}
use smart_locker_iot.Locker.Hardware.{reply_to, command-arrived}

-- A slave that is asked to close and sends its ALIVE event only.
alive-last_answer :
    (slave : Value) (m : Fields)
    → find "event" m ≡ some (str "ALIVE")
    → same (slave_of m) slave ≡ true
    → is_none slave ≡ false
    → last_answer slave (m ∷ []) ≡ some (alive_reply m)
unfolding last_answer answer_of same
alive-last_answer slave m e s given = ground (arith, e, s, given)

-- What is reported of a door that was closed, and of one that was not opened.
abbrev pub closed : Report
closed = record {
  status = "SUCCESS";
  message = "Door is closed and locked";
  hw_state = "CLOSING";
  error_code = null;
}

abbrev pub jammed : Report
jammed = record {
  status = "FAILED";
  message = "Command OK but door remained closed (jammed?)";
  hw_state = "CLOSING";
  error_code = str "JAMMED";
}

alive_reports :
    (m : Fields) → (close_report (alive_reply m) ≡ closed) × (open_report (alive_reply m) ≡ jammed)
unfolding close_report open_report is_ok door_is_closed find same
alive_reports m = (refl, refl)

module _ (r : Request) (ck sk : Key) (g : Gateway hardware) (m : Fields)
    (hc : key_of r.cabinet_id ≡ ok ck) (hs : key_of r.slot_index ≡ ok sk)
    (happens : g.serial.happens g.serial.commands ≡ arrived (m ∷ []))
    (alive : find "event" m ≡ some (str "ALIVE")) (own : same (slave_of m) r.slave_id ≡ true)
    (given : is_none r.slave_id ≡ false) where
  alive-reply_to : reply_to r (m ∷ []) ≡ alive_reply m
  alive-reply_to =
      ap (or_timeout r.slot_index r.slave_id) (alive-last_answer r.slave_id m alive own given)

  -- A slave, which is not None, that only sends its periodic ALIVE event while a command waits has answered it,
  -- if the port does not raise. With hashable ids, payloads that are JSON and topics that the client takes, a
  -- command to close is then reported as SUCCESS, with the door closed and locked, and a command to open as a
  -- failure, JAMMED, whatever the door does.
  pub alive_answers :
      (shut result ack : Value)
      → dumps (result_payload r closed (str (g.clock g.readings))) ≡ ok shut
      → dumps (result_payload r jammed (str (g.clock g.readings))) ≡ ok result
      → dumps (ack_payload r jammed (str (g.clock (g.readings + 1)))) ≡ ok ack
      → g.client.publishes (close_result_topic r) ≡ true
      → g.client.publishes (open_result_topic r) ≡ true
      → g.client.publishes (ack_topic r) ≡ true
      → ((perform_close r g).1.outbox
          ≡ g.outbox ++ record { topic = close_result_topic r; payload = shut; qos = 1 } ∷ [])
        × ((perform_open r g).1.outbox
            ≡ g.outbox
              ++ record { topic = open_result_topic r; payload = result; qos = 1 }
                ∷ record { topic = ack_topic r; payload = ack; qos = 1 }
                ∷ [])
  alive_answers shut result ack js jr ja tc t u =
      let (locked, stuck) = alive_reports m in
      let reply : (letter : String)
          → (command letter r.slot_index r.slave_id g.serial).0 ≡ alive_reply m =
        λ letter.
          ap (λ x. x.0) (command-arrived letter r g.serial (m ∷ []) happens) ∙ alive-reply_to in
      let shown : open_report (command "O" r.slot_index r.slave_id g.serial).0 ≡ jammed =
        ap open_report (reply "O") ∙ stuck in
      (
        (perform_close_lem r ck sk g hc hs shut
            (ap (λ a. dumps (result_payload r a (str (g.clock g.readings))))
                (ap close_report (reply "C") ∙ locked)
              ∙ js)
            tc).0,
        (perform_open_lem r ck sk g hc hs result ack
            (ap (λ a. dumps (result_payload r a (str (g.clock g.readings)))) shown ∙ jr)
            (ap (λ a. dumps (ack_payload r a (str (g.clock (g.readings + 1))))) shown ∙ ja) t u).0,
      )
