-- ===== src/Tests/Scripts.antt =====
-- The results at the scripts and at a scan of the bus.
use smart_locker_iot.Prelude.{false, ◌≡◌, ◌↔◌, ◌∷◌, [], some}
use smart_locker_iot.Prelude.Int.{pos}
use smart_locker_iot.Python.{num, ok}
use smart_locker_iot.Scripts.Rs485.{Port, run, advice, no_reception}
use smart_locker_iot.Scripts.Rs485.Silence.{Silent, Mute, run-no_reception}
use smart_locker_iot.Serial.{scan_slaves}
use smart_locker_iot.Serial.Found.{answering, scan_slaves-answering}
use smart_locker_iot.Tests.Lines.{line}

scan_slaves-answering_example :
    (scan_slaves (num (pos 2)) line).0 ≡ ok (answering 1 2 line.commands line.happens)
scan_slaves-answering_example = scan_slaves-answering 2 line

-- The adapter echoes the command once, late in the first trial.
abbrev port : Port
port = record {
  rts = false;
  written = [];
  trials =
      λ n. record { elapsed = 4000; chunk = "" } ∷ record { elapsed = 6000; chunk = "S2" } ∷ [];
}

run-no_reception_example : (advice (run port).0 ≡ some no_reception) ↔ (
    Silent 5000 (port.trials 0)
    × Silent 5000 (port.trials 1)
    × Silent 5000 (port.trials 2)
    × Mute 70000 (port.trials 3))
run-no_reception_example = run-no_reception port
