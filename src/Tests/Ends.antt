-- ===== src/Tests/Ends.antt =====
-- The results at the shutdown of a gateway.
use smart_locker_iot.Prelude.{false, true, some, none, ◌≡◌, ◌≢◌, refl, [], ◌∷◌}
use smart_locker_iot.Boot.Shutdown.{Running, shut_down, shut_down-waiting}
use smart_locker_iot.Mqtt as Mqtt
use smart_locker_iot.Serial.{simulation}
use smart_locker_iot.Serial.Port.{Host, opened, nothing, bytes, turns}
use smart_locker_iot.Service.Beats.{pausing}
use smart_locker_iot.Tests.Gateways.{gateway}
use smart_locker_iot.Tests.Ports.{host, loads, manager}
use smart_locker_iot.Tests.Configs.{settings}

abbrev opening : Host
opening = record host { opens = λ n path. opened }

-- The port was lost, and the listener waits to open it again.
abbrev running : Running simulation
running = record {
  beating = record { point = pausing 3; rounds = 1; seconds = 0; gateway = gateway };
  manager = record manager { port = record manager.port { ser = none }; waiting = true };
  mqtt = Mqtt.create settings;
}

shut_down-waiting_example :
    let m = (shut_down running).manager in
    let m' = turns opening loads (nothing ∷ bytes "{" ∷ []) m in
    (m.port.ser ≢ some true)
    × (m'.port.ser ≡ some true)
    × (m'.port.listening ≡ false)
    × (m'.listener ≡ m.listener)
shut_down-waiting_example =
    shut_down-waiting opening loads running nothing (bytes "{" ∷ []) refl refl
