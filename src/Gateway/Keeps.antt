-- ===== src/Gateway/Keeps.antt =====
-- What the code of the services keeps of the cabinet state and of the subscriptions: one rule for each way to build it.
use smart_locker_iot.Prelude.{
  List, [], ◌∷◌, ◌++◌, ◌<>◌, ℕ, String, Bool, true, false, if◌then◌else◌,
}
use smart_locker_iot.Python.{Value, Result, ok, raise}
use smart_locker_iot.Python.Exec.{Exec, attempt, continue, ◌>>=◌, ◌>>◌}
use smart_locker_iot.CabinetState.{CabinetState}
use smart_locker_iot.Gateway.{
  SerialPort, Gateway, Job, on_cabinets, timestamp, publish, spawn, subscribe,
  subscribe_open_command, subscribe_locker_commands,
}

-- `m` keeps `Inv` of the cabinet state and the subscriptions, whether it returns or raises.
pub record Keeps {ℓ} (P : SerialPort) {A : Type ℓ} (Inv : CabinetState → List String → Type 0)
    (m : Exec (Gateway P) A) : Type ℓ where
  pub at :
      (g : Gateway P) → Inv g.cabinets g.subscriptions → Inv (m g).1.cabinets (m g).1.subscriptions

module _ {P : SerialPort} {Inv : CabinetState → List String → Type 0} where
  pub Keeps-reads {ℓ} : {A : Type ℓ} (f : Gateway P → Result A) → Keeps P Inv (λ g. (f g, g))
  Keeps-reads f = record { at = λ g h. h }

  pub Keeps-if {ℓ} :
      {A : Type ℓ} (b : Bool) (m n : Exec (Gateway P) A)
      → Keeps P Inv m
      → Keeps P Inv n
      → Keeps P Inv (if b then m else n)
  Keeps-if true m n km kn = km
  Keeps-if false m n km kn = kn

  -- A test that reads the state.
  pub Keeps-branch {ℓ} :
      {A : Type ℓ} (test : Gateway P → Bool) (m n : Exec (Gateway P) A)
      → Keeps P Inv m
      → Keeps P Inv n
      → Keeps P Inv (λ g. if test g then m g else n g)
  Keeps-branch test m n km kn = record { at = λ g h. taken (test g) g h }
    where
      taken :
          (b : Bool) (g : Gateway P)
          → Inv g.cabinets g.subscriptions
          → Inv (if b then m g else n g).1.cabinets (if b then m g else n g).1.subscriptions
      taken true g h = km.at g h
      taken false g h = kn.at g h

  Keeps-continue {ℓ κ} :
      {A : Type ℓ} {B : Type κ} (r : Result A) (f : A → Exec (Gateway P) B)
      → ((a : A) → Keeps P Inv (f a))
      → Keeps P Inv (λ g. continue r f g)
  Keeps-continue (ok a) f kf = kf a
  Keeps-continue (raise e) f kf = record { at = λ g h. h }

  pub Keeps-bind {ℓ κ} :
      {A : Type ℓ} {B : Type κ} (m : Exec (Gateway P) A) (f : A → Exec (Gateway P) B)
      → Keeps P Inv m
      → ((a : A) → Keeps P Inv (f a))
      → Keeps P Inv (m >>= f)
  unfolding ◌>>=◌
  Keeps-bind m f km kf = record { at = λ g h. (Keeps-continue (m g).0 f kf).at (m g).1 (km.at g h) }

  pub Keeps-then {ℓ κ} :
      {A : Type ℓ} {B : Type κ} (m : Exec (Gateway P) A) (n : Exec (Gateway P) B)
      → Keeps P Inv m
      → Keeps P Inv n
      → Keeps P Inv (m >> n)
  unfolding ◌>>◌
  Keeps-then m n km kn = Keeps-bind m (λ _. n) km λ _. kn

  pub Keeps-attempt : (m : Exec (Gateway P) (Unit {0})) → Keeps P Inv m → Keeps P Inv (attempt m)
  Keeps-attempt m km = record { at = km.at }

  pub Keeps-timestamp : Keeps P Inv timestamp
  unfolding timestamp
  Keeps-timestamp = record { at = λ g h. h }

  pub Keeps-publish :
      (topic : String) (payload : Value) (qos : ℕ) → Keeps P Inv (publish topic payload qos)
  unfolding publish
  Keeps-publish topic payload qos = Keeps-bind _ _ (Keeps-reads _) λ text.
      Keeps-then _ _ (record { at = λ g h. h })
        (Keeps-bind _ _ (Keeps-reads _) λ taken. Keeps-reads _)

  pub Keeps-spawn : (job : Job) → Keeps P Inv (spawn job)
  unfolding spawn
  Keeps-spawn job = record { at = λ g h. h }

  -- Where one more topic for open commands does not matter.
  pub Keeps-subscribe_open :
      ((s : CabinetState) (topics : List String) (name : String)
        → Inv s topics
        → Inv s (topics ++ ("cabinet/" <> (name <> "/command/open")) ∷ []))
      → (name : String) → Keeps P Inv (subscribe_open_command name)
  unfolding subscribe_open_command subscribe
  Keeps-subscribe_open opens name = Keeps-bind _ _ (Keeps-reads _) λ client.
      Keeps-then _ _ (Keeps-reads _)
        (record { at = λ g h. opens g.cabinets g.subscriptions name h })

  -- Where the topics do not matter.
  pub Keeps-subscribe :
      ((s : CabinetState) (topics more : List String) → Inv s topics → Inv s more)
      → (name : String) → Keeps P Inv (subscribe_locker_commands name)
  unfolding subscribe_locker_commands subscribe
  Keeps-subscribe free name = Keeps-bind _ _ (Keeps-reads _) λ client.
      Keeps-then _ _ (Keeps-reads _) (record { at = λ g h. free g.cabinets g.subscriptions _ h })

  pub Keeps-on_cabinets {ℓ} :
      {A : Type ℓ} (m : Exec CabinetState A)
      → ((s : CabinetState) (topics : List String) → Inv s topics → Inv (m s).1 topics)
      → Keeps P Inv (on_cabinets m)
  unfolding on_cabinets
  Keeps-on_cabinets m k = record { at = λ g h. k g.cabinets g.subscriptions h }

pub ruleset keeps_rules = (
  Keeps-reads, Keeps-if, Keeps-bind, Keeps-then, Keeps-attempt, Keeps-timestamp, Keeps-publish,
  Keeps-spawn,
)
