-- ===== src/Gateway.antt =====
-- What the services of main.py share: the MQTT client (infracstructure/mqtt_client.py), the cabinet
-- state, the heartbeat's table, the serial line behind an interface, and the clock.
pub mod Interface
pub mod Keeps
use smart_locker_iot.Prelude.{
  ℕ, ◌+◌, String, ◌<>◌, Bool, true, false, ◌&&◌, Option, none, some, List, [], ◌∷◌, ◌++◌,
  if◌then◌else◌,
}
use smart_locker_iot.Prelude.Dict.{Dict}
use smart_locker_iot.Prelude.Int.{ℤ}
use smart_locker_iot.Python.{
  Value, str, Fields, end, field, obj, Key, dumps, is_none, Result, ok, raise, value_error,
}
use smart_locker_iot.Python.Exec.{Exec, lift, gets, modify, ◌>>=◌, ◌>>◌}
use smart_locker_iot.CabinetState.{CabinetState}
pub use Interface.{SerialPort}

-- A message that was handed to the client, also one that it refuses, with the value of its JSON text.
pub record Message : Type 0 where
  pub topic : String
  pub payload : Value
  pub qos : ℕ

-- The client of paho: whether `publish` and `subscribe` take a topic, or raise a ValueError, as for a
-- wildcard that may not stand there. Paho is not part of the repository.
pub record Client : Type 0 where
  pub publishes : String → Bool
  pub subscribes : String → Bool

-- HeartbeatService: `_locker_states` and `_running`.
pub record Heartbeat : Type 0 where
  pub locker_states : Dict Key (Dict Key Value)
  pub running : Bool

-- A thread that was started and has not run yet.
pub data Job : Type 0 where
  setup : Value → String → Job
  clear : Job
  discover : Value → Job

-- `clock n` is the n-th reading of the clock, and `readings` of them were taken. `stopwatch n`: the
-- whole seconds that a cabinet's test took which ends at that reading. `subscriptions`: the topics for which
-- `subscribe` was called; a client without a connection takes the call, and does nothing.
pub record Gateway (P : SerialPort) : Type 0 where
  pub cabinets : CabinetState
  pub heartbeat : Heartbeat
  pub outbox : List Message
  pub subscriptions : List String
  pub setup_running : Bool
  pub serial : P.State
  pub mac_address : String
  pub firmware_version : String
  pub max_cabinets : ℤ
  pub clock : ℕ → String
  pub readings : ℕ
  pub stopwatch : ℕ → ℤ
  pub pending : List Job
  pub client : Client

-- A dictionary display, { "k": v, … }.
abbrev pub fields_of : List (String × Value) → Fields
fields_of [] = end
fields_of ((k, v) ∷ kvs) = field k v (fields_of kvs)

abbrev pub dict : List (String × Value) → Value
dict kvs = obj (fields_of kvs)

-- { k: v for k, v in … if v is not None }
abbrev pub without_none : List (String × Value) → List (String × Value)
without_none [] = []
without_none ((k, v) ∷ kvs) = if is_none v then without_none kvs else (k, v) ∷ without_none kvs

abbrev pub all : (String → Bool) → List String → Bool
all test [] = true
all test (topic ∷ topics) = test topic && all test topics

-- A call that the client takes, or refuses.
abbrev pub or_value_error : Bool → Result (Unit {0})
or_value_error taken = if taken then ok tt else raise value_error

module _ {P : SerialPort} where
  -- A call of a method of the cabinet state.
  unfoldable pub on_cabinets {ℓ} : {A : Type ℓ} → Exec CabinetState A → Exec (Gateway P) A
  on_cabinets m g = let r = m g.cabinets in (r.0, record g { cabinets = r.1 })

  -- datetime.now(timezone.utc).isoformat()
  unfoldable pub timestamp : Exec (Gateway P) Value
  timestamp g = (ok (str (g.clock g.readings)), record g { readings = g.readings + 1 })

  -- publish(topic, json.dumps(payload), qos)
  unfoldable pub publish : String → Value → ℕ → Exec (Gateway P) (Unit {0})
  publish topic payload qos = do
    text ← lift (dumps payload)
    modify (λ g. record g {
      outbox = g.outbox ++ record { topic = topic; payload = text; qos = qos } ∷ [];
    })
    taken ← gets (λ g. g.client.publishes topic)
    lift (or_value_error taken)

  -- threading.Thread(target=…).start()
  unfoldable pub spawn : Job → Exec (Gateway P) (Unit {0})
  spawn job = modify λ g. record g { pending = g.pending ++ job ∷ [] }

  -- client.subscribe of these topics
  unfoldable pub subscribe : List String → Exec (Gateway P) (Unit {0})
  subscribe topics = do
    client ← gets (λ g. g.client)
    lift (or_value_error (all client.subscribes topics))
    modify λ g. record g { subscriptions = g.subscriptions ++ topics }

  -- subscribe_open_command
  unfoldable pub subscribe_open_command : String → Exec (Gateway P) (Unit {0})
  unfolding subscribe
  subscribe_open_command cabinet_name =
      subscribe (("cabinet/" <> (cabinet_name <> "/command/open")) ∷ [])

  -- subscribe_locker_commands
  unfoldable pub subscribe_locker_commands : String → Exec (Gateway P) (Unit {0})
  unfolding subscribe
  subscribe_locker_commands cabinet_name = subscribe (
      ("cabinet/" <> (cabinet_name <> "/command/open"))
      ∷ ("cabinet/" <> (cabinet_name <> "/command/close"))
      ∷ [])
