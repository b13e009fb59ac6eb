-- ===== src/Locker/Commands.antt =====
-- What the commands to open and to close of services/locker_service.py do, from the reply to the table.
use smart_locker_iot.Prelude.{true, ℕ, ◌+◌, String, ◌≡◌, refl, some, [], ◌∷◌, ◌++◌, append_assoc}
use smart_locker_iot.Python.{Value, str, Key, key_of, ok, dumps}
use smart_locker_iot.Python.Exec.{◌>>=◌, ◌>>◌}
use smart_locker_iot.Gateway.{SerialPort, Gateway, or_value_error, timestamp, publish}
use smart_locker_iot.Heartbeat.Status.{tracked, tracked-assigned_self, update_locker_state_eq}
use smart_locker_iot.Locker.Outcome.{open_report, close_report}
use smart_locker_iot.Locker.{
  Request, open_slot, close_slot, perform_open, perform_close, result_payload, ack_payload,
  open_result_topic, close_result_topic, ack_topic,
}

pub publish_eq :
    {P : SerialPort} (topic : String) (payload text : Value) (qos : ℕ) (g : Gateway P)
    → dumps payload ≡ ok text
    → publish topic payload qos g ≡ (
      or_value_error (g.client.publishes topic),
      record g { outbox = g.outbox ++ record { topic = topic; payload = text; qos = qos } ∷ [] },
    )
unfolding publish ◌>>=◌ ◌>>◌
publish_eq topic payload text qos g h = rw h refl

module _ {P : SerialPort} (r : Request) (ck sk : Key) (g : Gateway P)
    (hc : key_of r.cabinet_id ≡ ok ck) (hs : key_of r.slot_index ≡ ok sk) where
  -- A command to close whose cabinet and slot are hashable, whose payload is JSON and whose topic the client
  -- takes asks the Arduino
  -- once, publishes one result, and the state that the result tells is what is known of the slot
  -- afterwards.
  pub perform_close_lem :
      (text : Value)
      → dumps (
          result_payload r
            (close_report (P.close_slot r.slot_index r.slave_id g.serial).0)
            (str (g.clock g.readings)))
        ≡ ok text
      → g.client.publishes (close_result_topic r) ≡ true
      → ((perform_close r g).1.outbox
          ≡ g.outbox ++ record { topic = close_result_topic r; payload = text; qos = 1 } ∷ [])
        × ((perform_close r g).1.serial ≡ (P.close_slot r.slot_index r.slave_id g.serial).1)
        × (tracked ck sk (perform_close r g).1.heartbeat.locker_states
            ≡ some (str (close_report (P.close_slot r.slot_index r.slave_id g.serial).0).hw_state))
  unfolding perform_close close_slot timestamp ◌>>=◌ ◌>>◌
  perform_close_lem text h t =
      rw (publish_eq _ _ text 1 _ h, t, update_locker_state_eq _ _ _ ck sk _ hc hs)
        (refl, refl, tracked-assigned_self ck sk _ _)

  -- A command to open whose cabinet and slot are hashable, whose payloads are JSON and whose topics the client
  -- takes asks the Arduino
  -- once, publishes one result and then one acknowledgement, both of the same report, and the state that
  -- they tell is what is known of the slot afterwards.
  pub perform_open_lem :
      (result ack : Value)
      → dumps (
          result_payload r
            (open_report (P.open_slot r.slot_index r.slave_id g.serial).0)
            (str (g.clock g.readings)))
        ≡ ok result
      → dumps (
          ack_payload r
            (open_report (P.open_slot r.slot_index r.slave_id g.serial).0)
            (str (g.clock (g.readings + 1))))
        ≡ ok ack
      → g.client.publishes (open_result_topic r) ≡ true
      → g.client.publishes (ack_topic r) ≡ true
      → ((perform_open r g).1.outbox
          ≡ g.outbox
            ++ record { topic = open_result_topic r; payload = result; qos = 1 }
              ∷ record { topic = ack_topic r; payload = ack; qos = 1 }
              ∷ [])
        × ((perform_open r g).1.serial ≡ (P.open_slot r.slot_index r.slave_id g.serial).1)
        × (tracked ck sk (perform_open r g).1.heartbeat.locker_states
            ≡ some (str (open_report (P.open_slot r.slot_index r.slave_id g.serial).0).hw_state))
  unfolding perform_open open_slot timestamp ◌>>=◌ ◌>>◌
  perform_open_lem result ack h k t u =
      rw
        (
          update_locker_state_eq _ _ "OPENING" ck sk g hc hs,
          publish_eq _ _ result 1 _ h,
          t,
          publish_eq _ _ ack 1 _ k,
          u,
          update_locker_state_eq _ _ _ ck sk _ hc hs,
        )
        (append_assoc g.outbox _ _, refl, tracked-assigned_self ck sk _ _)
