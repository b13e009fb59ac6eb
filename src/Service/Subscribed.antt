-- ===== src/Service/Subscribed.antt =====
-- The start of main.py once the client is connected: what is subscribed.
use smart_locker_iot.Prelude.{
  ◌<>◌, Bool, String, true, List, [], ◌∷◌, ◌++◌, ◌≡◌, refl, ap, ◌∙◌, arith, append-nil,
  append_assoc,
}
use smart_locker_iot.Python.{Value, str, num, index, ok, dumps}
use smart_locker_iot.Python.Text.{format}
use smart_locker_iot.Python.Exec.{◌>>=◌, ◌>>◌}
use smart_locker_iot.CabinetState.{all_cabinets, is_configured}
use smart_locker_iot.Gateway.{SerialPort, Gateway, all, subscribe, subscribe_locker_commands}
use smart_locker_iot.Discovery.Report.{report, reported, discovered}
use smart_locker_iot.Heartbeat.{start}
use smart_locker_iot.Service.{subscribe_all, start_up}
use smart_locker_iot.Service.Routing.{cabinet_topic}

-- The topics of the commands of these cabinets.
abbrev pub command_topics : List String → List String
command_topics [] = []
command_topics (name ∷ names) =
    cabinet_topic name "/command/open" ∷ cabinet_topic name "/command/close" ∷ command_topics names

-- The cabinets have these names, one for one.
pub data Named : List Value → List String → Type 0 where
  none_left : Named [] []
  next_named :
      {cab : Value} {cabs : List Value} {name : String} {names : List String}
      → index "name" cab ≡ ok (str name)
      → Named cabs names
      → Named (cab ∷ cabs) (name ∷ names)

taken-cons :
    (test : String → Bool) (a b : String) (topics : List String)
    → all test (a ∷ b ∷ topics) ≡ true
    → (test a ≡ true) × (test b ≡ true) × (all test topics ≡ true)
taken-cons test a b topics h = ground arith

module _ {P : SerialPort} where
  subscribe_all-Named :
      {cabs : List Value} {names : List String} (g : Gateway P)
      → Named cabs names
      → all g.client.subscribes (command_topics names) ≡ true
      → subscribe_all cabs g
        ≡ (ok tt, record g { subscriptions = g.subscriptions ++ command_topics names })
  unfolding subscribe_all subscribe subscribe_locker_commands format ◌>>=◌ ◌>>◌
  subscribe_all-Named g none_left t = rw append-nil refl
  subscribe_all-Named g (next_named {names = names} n h) t =
      let (o, c, rest) = taken-cons g.client.subscribes _ _ (command_topics names) t in
      rw (n, o, c)
        (subscribe_all-Named _ h rest
          ∙ ap (λ topics. (ok tt, record g { subscriptions = topics }))
              (append_assoc g.subscriptions (_ ∷ _ ∷ []) (command_topics names)))

  start_configured :
      (g : Gateway P)
      → is_configured g.cabinets ≡ true
      → ((start g).0 ≡ ok tt)
        × ((start g).1.subscriptions ≡ g.subscriptions)
        × ((start g).1.heartbeat.running ≡ true)
  unfolding start
  start_configured g h = ground arith

  -- The start of a configured gateway, where the scan returns, its report is JSON, and the client takes the
  -- report's topic and those of the cabinets' commands: nothing is raised, `subscribe` is called for the
  -- commands to open and to close of every cabinet, in order, and heartbeats are sent. Without a connection
  -- the calls have no effect at the broker.
  pub start_up-Named :
      (g : Gateway P) (names : List String) (slaves : List Value) (port : P.State)
      → is_configured g.cabinets ≡ true
      → Named (all_cabinets g.cabinets) names
      → P.scan_slaves (num g.max_cabinets) g.serial ≡ (ok slaves, port)
      → dumps (report g slaves) ≡ ok (report g slaves)
      → g.client.publishes ("iot/" <> (g.mac_address <> "/discovery/result")) ≡ true
      → all g.client.subscribes (command_topics names) ≡ true
      → ((start_up g).0 ≡ ok tt)
        × ((start_up g).1.subscriptions ≡ g.subscriptions ++ command_topics names)
        × ((start_up g).1.heartbeat.running ≡ true)
  unfolding start_up ◌>>=◌ ◌>>◌
  start_up-Named g names slaves port configured named found json told taken =
      rw
        (
          discovered g slaves port found json,
          told,
          configured,
          subscribe_all-Named (reported g slaves port) named taken,
        )
        (start_configured _ configured)
