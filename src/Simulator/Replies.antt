-- ===== src/Simulator/Replies.antt =====
-- simulate_demo_cabinet.py: every command to open is answered once, on the topic of its cabinet and with
-- its own id.
use text.Mathlib.TextLemmas as Text
use smart_locker_iot.Prelude.{
  ◌+◌, String, ◌<>◌, Bool, true, false, not, ◌||◌, Bool-cases, inl, inr, some, List, [], ◌∷◌, ◌++◌,
  ◌≡◌, refl, ap, ◌∙◌, sym, append-nil, append_assoc, arith, string_eq, if◌then◌else◌,
}
use smart_locker_iot.Prelude.Texts.{ends_with}
use smart_locker_iot.Prelude.Texts.Laws.{free_of, ends_with-other}
use smart_locker_iot.Python.{
  Value, null, str, obj, Fields, is_none, find, default, get, serializable, ok, dumps,
}
use smart_locker_iot.Python.Exec.{Exec, pure, modify, ◌>>=◌, ◌>>◌}
use smart_locker_iot.Python.Text.{format}
use smart_locker_iot.Gateway.{Message, dict}
use smart_locker_iot.Service.Routing.{cabinet_topic, split-cabinet_topic}
use smart_locker_iot.Simulator.{
  Simulator, Reply, on_message, on_cabinet_message, on_open, learn_cabinet, publish_heartbeat,
  reply_after_delay, report_box_hw_state, reply_payload, result_topic, publish, now, get_either,
}

-- The reply that a command stands for.
abbrev pub reply_to : String → Fields → Reply
reply_to name message = record {
  locker_id = name;
  command_id = default null (find "commandId" message);
  box_id = default (default null (find "boxId" message)) (find "box_id" message);
}

replies-learn_cabinet :
    (name : String) (s : Simulator)
    → ((learn_cabinet name s).0 ≡ ok tt) × ((learn_cabinet name s).1.replies ≡ s.replies)
unfolding learn_cabinet publish_heartbeat publish now dumps serializable ◌>>=◌ ◌>>◌
replies-learn_cabinet name s = ground arith

publish_lem :
    (topic : String) (payload : Value) (s : Simulator)
    → serializable payload ≡ true
    → publish topic payload s ≡ (
      ok tt,
      record s { outbox = s.outbox ++ record { topic = topic; payload = payload; qos = 1 } ∷ [] },
    )
unfolding publish dumps ◌>>=◌
publish_lem topic payload s h = rw h refl

serializable-reply_payload :
    (failed : Bool) (r : Reply) (time : String)
    → serializable r.command_id ≡ true
    → serializable r.box_id ≡ true
    → serializable (reply_payload failed r (str time)) ≡ true
unfolding serializable reply_payload
serializable-reply_payload true r time c b = rw (c, b) refl
serializable-reply_payload false r time c b = rw (c, b) refl

-- The open door that is reported after a success, for a box that is known and while the client is
-- connected.
abbrev pub door_messages : Reply → Simulator → List Message
door_messages r s =
    if s.force_fail || is_none r.box_id || not s.connected
    then []
    else record {
      topic = "cabinet/" <> (r.locker_id <> ("/locker/" <> (format r.box_id <> "/status")));
      payload = dict (
          ("slotIndex", r.box_id)
          ∷ ("hwState", str "OPEN")
          ∷ ("timestamp", str (s.clock (s.readings + 1)))
          ∷ []);
      qos = 1;
    }
      ∷ []

-- What a reply publishes from a state: its result, and the open door after a success.
abbrev pub result_message : Reply → Simulator → Message
result_message r s = record {
  topic = result_topic r.locker_id;
  payload = reply_payload s.force_fail r (str (s.clock s.readings));
  qos = 1;
}

-- What is done after the result.
abbrev opened_door : Bool → Reply → Exec Simulator (Unit {0})
opened_door failed r = if failed then pure tt else if is_none r.box_id then pure tt else do
  report_box_hw_state r.locker_id r.box_id "OPEN"
  modify (λ s. record s {
    closings = s.closings ++ record { locker_id = r.locker_id; box_id = r.box_id } ∷ [];
  })

opened_door_lem :
    (r : Reply) (s : Simulator)
    → serializable r.box_id ≡ true
    → (t : Simulator) → t.force_fail ≡ s.force_fail
    → t.connected ≡ s.connected
    → t.clock ≡ s.clock
    → t.readings ≡ s.readings + 1
    → (opened_door s.force_fail r t).1.outbox ≡ t.outbox ++ door_messages r s
unfolding report_box_hw_state publish now dumps serializable ◌>>=◌ ◌>>◌
opened_door_lem r s b t f c k n = elim (Bool-cases s.force_fail) [
  | inl e ↦ rw e (sym (append-nil t.outbox))
  | inr e ↦ rw e (elim (Bool-cases (is_none r.box_id)) [
    | inl m ↦ rw m (sym (append-nil t.outbox))
    | inr m ↦ rw m (elim (Bool-cases s.connected) [
      | inl d ↦ rw (c, d, b, k, n) refl
      | inr d ↦ rw (c, d) (sym (append-nil t.outbox))
    ])
  ])
]

reply_after_delay_lem :
    (r : Reply) (s : Simulator)
    → serializable r.command_id ≡ true
    → serializable r.box_id ≡ true
    → (reply_after_delay r s).1.outbox ≡ s.outbox ++ result_message r s ∷ door_messages r s
unfolding reply_after_delay now report_box_hw_state ◌>>=◌ ◌>>◌
reply_after_delay_lem r s c b =
    let payload = serializable-reply_payload s.force_fail r (s.clock s.readings) c b in
    rw (publish_lem _ _ (record s { readings = s.readings + 1 }) payload) (
      opened_door_lem r s b
        (record s { outbox = s.outbox ++ result_message r s ∷ []; readings = s.readings + 1 }) refl
        refl refl refl
      ∙ append_assoc s.outbox (result_message r s ∷ []) (door_messages r s))

on_open_command-replies :
    (name topic : String) (message : Fields) (s : Simulator)
    → ends_with topic "/command/sync" ≡ false
    → let r = on_cabinet_message (some name) topic (some (obj message)) s in
      (r.0 ≡ ok tt) × (r.1.replies ≡ s.replies ++ reply_to name message ∷ [])
unfolding on_open get_either get ◌>>=◌ ◌>>◌
on_open_command-replies name topic message s other =
    let (learned, same) = replies-learn_cabinet name s in
    rw (other, learned) (refl, ap (λ rs. rs ++ reply_to name message ∷ []) same)

pub on_message-reply_after_delay :
    (name : String) (message : Fields) (s later : Simulator)
    → free_of b'/' name ≡ true
    → serializable (reply_to name message).command_id ≡ true
    → serializable (reply_to name message).box_id ≡ true
    → let r = on_message (cabinet_topic name "/command/open") (some (obj message)) s in
      let reply = reply_to name message in
      (r.0 ≡ ok tt)
      × (r.1.replies ≡ s.replies ++ reply ∷ [])
      × ((reply_after_delay reply later).1.outbox
          ≡ later.outbox ++ result_message reply later ∷ door_messages reply later)
unfolding on_message ends_with
on_message-reply_after_delay name message s later plain c b =
    let topic : String = cabinet_topic name "/command/open" in
    let other : ends_with topic "/command/sync" ≡ false =
      ap (λ t. ends_with t "/command/sync")
        (sym (Text.append_assoc "cabinet/" name "/command/open"))
      ∙ ends_with-other ("cabinet/" <> name) "/command/open" "/command/" "sync" (omega arith)
          refl in
    let (returned, pending) = on_open_command-replies name topic message s other in
    rw (split-cabinet_topic name "command/open" plain)
      (returned, pending, reply_after_delay_lem (reply_to name message) later c b)
