-- ===== src/Boot/Shutdown.antt =====
-- main.py, at its end: the services are stopped one after the other.
use mathlib.Core.Option
use smart_locker_iot.Prelude.{
  Bool, true, some, none, ◌≢◌, ℕ, zero, suc, String, false, Option, List, [], ◌∷◌, ◌≡◌, refl, ◌∙◌,
  ap, arith,
}
use smart_locker_iot.Python.{Fields, Result}
use smart_locker_iot.Gateway.{SerialPort}
use smart_locker_iot.Heartbeat as Heartbeats
use smart_locker_iot.Service.Beats.{
  Beating, Point, at_head, pausing, ended, beat, Move, turn_at, move, play,
}
use smart_locker_iot.Serial.Port.{
  opened, attempt_reconnect, Host, Manager, Reading, close, turn, turns,
}
use smart_locker_iot.Mqtt.{MqttClient}
use smart_locker_iot.Mqtt as Mqtt

-- The parts that run beside the services: the heartbeat's thread, with the gateway, the listener of the
-- serial port, and the client of the broker.
pub record Running (P : SerialPort) : Type 0 where
  pub beating : Beating P
  pub manager : Manager
  pub mqtt : MqttClient

unfoldable pub shut_down : {P : SerialPort} → Running P → Running P
shut_down r = record r {
  beating = record r.beating { gateway = (Heartbeats.stop r.beating.gateway).1 };
  manager = record r.manager { port = close r.manager.port };
  mqtt = Mqtt.stop r.mqtt;
}

-- Turns of the heartbeat's thread, and of no other.
abbrev pub beats : ℕ → List Move
beats zero = []
beats (suc n) = beat ∷ beats n

module _ {P : SerialPort} (interval : ℕ) where
  turn_at-stopped :
      (p : Point) (b : Beating P)
      → b.gateway.heartbeat.running ≡ false
      → b.point ≡ p
      → turn_at interval p b ≡ record b { point = ended }
  unfolding turn_at
  turn_at-stopped at_head b off at = rw off refl
  turn_at-stopped (pausing n) b off at = rw off refl
  turn_at-stopped ended b off at = ap (λ p. record b { point = p }) at

  play-ended :
      (n : ℕ) (b : Beating P)
      → play interval (beats n) (record b { point = ended }) ≡ record b { point = ended }
  unfolding play move turn_at
  play-ended zero b = refl
  play-ended (suc n) b = play-ended n b

  play-stopped :
      (n : ℕ) (b : Beating P)
      → b.gateway.heartbeat.running ≡ false
      → play interval (beat ∷ beats n) b ≡ record b { point = ended }
  unfolding play move
  play-stopped n b off =
      ap (play interval (beats n)) (turn_at-stopped b.point b off refl) ∙ play-ended n b

closed-ne : (ser : Option Bool) → Option.map (λ is_open. false) ser ≢ some true
closed-ne none e = cc
closed-ne (some is_open) e = cc

module _ (h : Host) (loads : String → Result (Option Fields)) where
  turn-closed :
      (r : Reading) (m : Manager)
      → m.waiting ≡ false
      → m.port.listening ≡ false
      → turn h loads r m ≡ m
  unfolding turn
  turn-closed r m awake off = ground arith

  turns-closed :
      (rs : List Reading) (m : Manager)
      → m.waiting ≡ false
      → m.port.listening ≡ false
      → turns h loads rs m ≡ m
  unfolding turns
  turns-closed [] m awake off = refl
  turns-closed (r ∷ rs) m awake off =
      ap (turns h loads rs) (turn-closed r m awake off) ∙ turns-closed rs m awake off

  turn-waiting :
      (r : Reading) (m : Manager)
      → m.waiting ≡ true
      → h.opens m.port.now m.port.port ≡ opened
      → let m' = turn h loads r m in
        (m'.waiting ≡ false)
        × (m'.port.listening ≡ m.port.listening)
        × (m'.port.ser ≡ some true)
        × (m'.listener ≡ m.listener)
  unfolding turn attempt_reconnect
  turn-waiting r m waits opens = rw (waits, attempt_reconnect, opens) (refl, refl, refl, refl)

  pub shut_down-waiting :
      {P : SerialPort} (r : Running P) (next : Reading) (rs : List Reading)
      → r.manager.waiting ≡ true
      → h.opens r.manager.port.now r.manager.port.port ≡ opened
      → let m = (shut_down r).manager in
        let m' = turns h loads (next ∷ rs) m in
        (m.port.ser ≢ some true)
        × (m'.port.ser ≡ some true)
        × (m'.port.listening ≡ false)
        × (m'.listener ≡ m.listener)
  unfolding shut_down close turns
  shut_down-waiting r next rs waits opens =
      let m = (shut_down r).manager in
      let (awake, stopped, there, same) = turn-waiting next m waits opens in
      let over = turns-closed rs (turn h loads next m) awake stopped in
      (
        closed-ne r.manager.port.ser,
        ap (λ x. x.port.ser) over ∙ there,
        ap (λ x. x.port.listening) over ∙ stopped,
        ap (λ x. x.listener) over ∙ same,
      )

  -- A shutdown that comes while the listener does not wait: the heartbeat's thread is over with its next turn
  -- and publishes nothing more, the listener reads nothing more, and the broker's client is stopped.
  shut_down_lem :
      {P : SerialPort} (r : Running P) (interval n : ℕ) (rs : List Reading)
      → r.manager.waiting ≡ false
      → let r' = shut_down r in
        let b = play interval (beat ∷ beats n) r'.beating in
        (b.point ≡ ended)
        × (b.gateway.outbox ≡ r.beating.gateway.outbox)
        × (turns h loads rs r'.manager ≡ r'.manager)
        × (r'.mqtt.client.looping ≡ false)
  unfolding shut_down Heartbeats.stop close Mqtt.stop
  shut_down_lem r interval n rs awake =
      let over = play-stopped interval n (shut_down r).beating refl in
      (
        ap (λ b. b.point) over,
        ap (λ b. b.gateway.outbox) over,
        turns-closed rs (shut_down r).manager awake refl,
        refl,
      )
