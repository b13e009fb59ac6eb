-- ===== src/Discovery/Report.antt =====
-- What services/discovery_service.py does where the scan returns and its report is JSON.
use smart_locker_iot.Prelude.{◌<>◌, ◌+◌, List, [], ◌∷◌, ◌++◌, ◌≡◌, refl}
use smart_locker_iot.Python.{Value, null, num, str, arr, items_of, ok, dumps}
use smart_locker_iot.Python.Exec.{◌>>=◌, ◌>>◌}
use smart_locker_iot.Gateway.{SerialPort, Gateway, dict, or_value_error, timestamp, publish}
use smart_locker_iot.Discovery.{scan, discover_and_report}

-- The report of a scan.
abbrev pub report : {P : SerialPort} → Gateway P → List Value → Value
report g slaves = dict (
    ("macAddress", str g.mac_address)
    ∷ ("timestamp", str (g.clock g.readings))
    ∷ ("slaves", arr (items_of slaves))
    ∷ ("firmwareVersion", str g.firmware_version)
    ∷ [])

-- The gateway after the report, which is handed to the client.
abbrev pub reported : {P : SerialPort} → Gateway P → List Value → P.State → Gateway P
reported g slaves port = record g {
  serial = port;
  readings = g.readings + 1;
  outbox =
      g.outbox
      ++ record {
        topic = "iot/" <> (g.mac_address <> "/discovery/result");
        payload = report g slaves;
        qos = 1;
      }
        ∷ [];
}

pub discovered :
    {P : SerialPort} (g : Gateway P) (slaves : List Value) (port : P.State)
    → P.scan_slaves (num g.max_cabinets) g.serial ≡ (ok slaves, port)
    → dumps (report g slaves) ≡ ok (report g slaves)
    → discover_and_report null g ≡ (
      or_value_error (g.client.publishes ("iot/" <> (g.mac_address <> "/discovery/result"))),
      reported g slaves port,
    )
unfolding discover_and_report scan timestamp publish ◌>>=◌ ◌>>◌
discovered g slaves port found json = rw (found, json) refl
