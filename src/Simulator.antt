-- ===== src/Simulator.antt =====
-- simulate_demo_cabinet.py: the stand-in for the cabinets in a demonstration. The set of known cabinets
-- is the list of its elements; delays, the texts on the console, and a payload that is not UTF-8 are left out.
pub mod Replies
use Prim.Native.Char.{code}
use smart_locker_iot.Prelude.{
  ℕ, zero, suc, ◌+◌, String, ◌<>◌, Bool, true, false, not, Option, none, some, List, [], ◌∷◌, ◌++◌,
  string_eq, ◌==◌, nat_beq, if◌then◌else◌,
}
use smart_locker_iot.Prelude.Int.{ℤ, pos}
use smart_locker_iot.Prelude.Lists.{get_elem?}
use smart_locker_iot.Prelude.Texts.{split, ends_with, starts, lower, same_codes}
use smart_locker_iot.Python.{
  Value, null, str, default, get, is_none, truthy, dumps, Result, ok, raise,
}
use smart_locker_iot.Python.Text.{format, int_of_text}
use smart_locker_iot.Python.Exec.{Exec, pure, lift, gets, modify, ◌>>=◌, ◌>>◌}
use smart_locker_iot.Serial.Listener.{lstrip, rstrip}
use smart_locker_iot.Settings.{Environment}
use smart_locker_iot.Gateway.{Message, dict}

-- A thread of `_reply_after_delay`, and a timer that reports a door as closed.
pub record Reply : Type 0 where
  pub locker_id : String
  pub command_id : Value
  pub box_id : Value

pub record Closing : Type 0 where
  pub locker_id : String
  pub box_id : Value

pub record Simulator : Type 0 where
  pub known : List String
  pub connected : Bool
  pub force_fail : Bool
  pub subscriptions : List String
  pub outbox : List Message
  pub replies : List Reply
  pub closings : List Closing
  pub clock : ℕ → String
  pub readings : ℕ

abbrev pub Action : Type 0
Action = Exec Simulator (Unit {0})

-- What follows the first "://", or the whole text.
unfoldable pub without_scheme : String → String → String
without_scheme url String.[] = url
without_scheme url (String.◌∷◌ c s) =
    let rest = without_scheme url s in
    if starts (String.◌∷◌ c s) "://" then drop_text 3 (String.◌∷◌ c s) else rest
  where
    drop_text : ℕ → String → String
    drop_text zero s = s
    drop_text (suc n) String.[] = ""
    drop_text (suc n) (String.◌∷◌ c s) = drop_text n s

-- text.partition(":"): what stands before the first colon, and after it.
unfoldable pub partition : String → String × String
partition String.[] = ("", "")
partition (String.◌∷◌ c s) =
    let (host, port) = partition s in
    if nat_beq (code c) b':' then ("", s) else (String.◌∷◌ c host, port)

abbrev with_host : String → Result ℤ → Result (String × ℤ)
with_host host (ok port) = ok (host, port)
with_host host (raise e) = raise e

abbrev getenv : Environment → String → String → String
getenv env name d = elim (env name) [ none ↦ d | some v ↦ v ]

unfoldable pub resolve_broker : Environment → Result (String × ℤ)
unfolding without_scheme partition int_of_text
resolve_broker env =
    let url = getenv env "MQTT_BROKER_URL" "" in
    let (host, port) = partition (without_scheme url url) in
    if truthy (str url)
    then with_host host (if truthy (str port) then int_of_text port else ok (pos 1883))
    else with_host (getenv env "MQTT_BROKER" "broker.hivemq.com")
        (int_of_text (getenv env "MQTT_PORT" "1883"))

unfoldable pub is_known : String → List String → Bool
is_known cabinet_id [] = false
is_known cabinet_id (c ∷ cs) = if c == cabinet_id then true else is_known cabinet_id cs

-- A set that takes in the elements of a list.
unfoldable pub known_with : List String → List String → List String
unfolding is_known
known_with [] known = known
known_with (c ∷ cs) known = known_with cs (if is_known c known then known else known ++ c ∷ [])

-- [c.strip() for c in … if c.strip()]
unfoldable pub stripped : List String → List String
unfolding lstrip rstrip
stripped [] = []
stripped (c ∷ cs) =
    let rest = stripped cs in
    let name = rstrip (lstrip c) in if name == "" then rest else name ∷ rest

-- SIM_HEARTBEAT_CABINETS and SIM_FORCE_FAIL
unfoldable pub heartbeat_cabinets : Environment → List String
unfolding stripped split
heartbeat_cabinets env = stripped (split b',' (getenv env "SIM_HEARTBEAT_CABINETS" ""))

unfoldable pub forces_failure : Environment → Bool
forces_failure env = same_codes (lower (getenv env "SIM_FORCE_FAIL" "false")) (lower "true")

-- The state before the connection: `main` adds the seeded cabinets to the known ones.
unfoldable pub seeded : Environment → (ℕ → String) → Simulator
unfolding heartbeat_cabinets forces_failure known_with
seeded env clock = record {
  known = known_with (heartbeat_cabinets env) [];
  connected = false;
  force_fail = forces_failure env;
  subscriptions = [];
  outbox = [];
  replies = [];
  closings = [];
  clock = clock;
  readings = 0;
}

-- client.publish(topic, json.dumps(payload), qos=1)
unfoldable pub publish : String → Value → Action
publish topic payload = do
  text ← lift (dumps payload)
  modify (λ s. record s {
    outbox = s.outbox ++ record { topic = topic; payload = text; qos = 1 } ∷ [];
  })

-- datetime.now(timezone.utc).isoformat()
unfoldable pub now : Exec Simulator Value
now s = (ok (str (s.clock s.readings)), record s { readings = s.readings + 1 })

unfoldable pub publish_heartbeat : String → Action
publish_heartbeat cabinet_id = do
  connected ← gets (λ s. s.connected)
  if not connected then pure tt else do
    time ← now
    publish ("cabinet/" <> (cabinet_id <> "/heartbeat"))
        (dict (("status", str "ONLINE") ∷ ("timestamp", time) ∷ []))

unfoldable pub learn_cabinet : String → Action
learn_cabinet cabinet_id = do
  known ← gets (λ s. s.known)
  if is_known cabinet_id known then pure tt else do
    modify (λ s. record s { known = s.known ++ cabinet_id ∷ [] })
    publish_heartbeat cabinet_id

unfoldable pub heartbeats : List String → Action
heartbeats [] = pure tt
heartbeats (cabinet_id ∷ ids) = do publish_heartbeat cabinet_id; heartbeats ids

-- One round of `_heartbeat_loop`.
unfoldable pub heartbeat_round : Action
heartbeat_round = do known ← gets (λ s. s.known); heartbeats known

unfoldable pub on_connect : ℕ → Action
on_connect reason_code = if not (nat_beq reason_code 0) then pure tt else do
  modify (λ s. record s {
    subscriptions = s.subscriptions ++ "cabinet/+/command/open" ∷ "cabinet/+/command/sync" ∷ [];
  })
  heartbeat_round

unfoldable pub report_box_hw_state : String → Value → String → Action
report_box_hw_state locker_id box_id hw_state = do
  connected ← gets (λ s. s.connected)
  if not connected then pure tt else do
    time ← now
    publish ("cabinet/" <> (locker_id <> ("/locker/" <> (format box_id <> "/status"))))
        (dict (("slotIndex", box_id) ∷ ("hwState", str hw_state) ∷ ("timestamp", time) ∷ []))

-- The payload of a reply.
unfoldable pub reply_payload : Bool → Reply → Value → Value
reply_payload failed r time = dict (
    ("commandId", r.command_id)
    ∷ ("lockerId", str r.locker_id)
    ∷ ("boxId", r.box_id)
    ∷ ("status", str (if failed then "FAILED" else "SUCCESS"))
    ∷ ("hwState", str (if failed then "CLOSING" else "OPENING"))
    ∷ ("errorCode", (if failed then str "SIMULATED_FAILURE" else null))
    ∷ (
      "errorMessage",
      str (if failed then "Simulated hardware failure" else "Simulated: door opened"),
    )
    ∷ ("timestamp", time)
    ∷ [])

abbrev pub result_topic : String → String
result_topic locker_id = "cabinet/" <> (locker_id <> "/command/open/result")

-- _reply_after_delay: after a success the door is reported open now, and closed by a timer.
unfoldable pub reply_after_delay : Reply → Action
reply_after_delay r = do
  failed ← gets (λ s. s.force_fail)
  time ← now
  publish (result_topic r.locker_id) (reply_payload failed r time)
  if failed then pure tt else if is_none r.box_id then pure tt else do
    report_box_hw_state r.locker_id r.box_id "OPEN"
    modify (λ s. record s {
      closings = s.closings ++ record { locker_id = r.locker_id; box_id = r.box_id } ∷ [];
    })

-- The timer of a door.
unfoldable pub close_door : Closing → Action
close_door c = report_box_hw_state c.locker_id c.box_id "CLOSED"

-- message.get(first, message.get(second))
unfoldable pub get_either : String → String → Value → Exec Simulator Value
get_either first second message = do
  other ← lift (get second message)
  found ← lift (get first message)
  pure (default (default null other) found)

-- A sync is only shown on the console.
unfoldable pub on_sync : Value → Action
on_sync message = do box_id ← get_either "boxId" "box_id" message; pure tt

-- A command to open is answered by a thread.
unfoldable pub on_open : String → Value → Action
on_open locker_id message = do
  command_id ← lift (get "commandId" message)
  box_id ← get_either "box_id" "boxId" message
  modify (λ s. record s {
    replies =
        s.replies
        ++ record { locker_id = locker_id; command_id = default null command_id; box_id = box_id }
          ∷ [];
  })

-- A message of a cabinet, whose payload is JSON or (`none`) is not.
abbrev pub on_cabinet_message : Option String → String → Option Value → Action
on_cabinet_message none topic json = pure tt
on_cabinet_message (some locker_id) topic none = learn_cabinet locker_id
on_cabinet_message (some locker_id) topic (some message) = do
  learn_cabinet locker_id
  if ends_with topic "/command/sync" then on_sync message else on_open locker_id message

-- `_on_message`: the cabinet is the second part of the topic.
unfoldable pub on_message : String → Option Value → Action
on_message topic json = on_cabinet_message (get_elem? (split b'/' topic) 1) topic json
