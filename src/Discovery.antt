-- ===== src/Discovery.antt =====
-- services/discovery_service.py: the scan of the bus and its report.
pub mod Report
use smart_locker_iot.Prelude.{◌<>◌, List, [], ◌∷◌, if◌then◌else◌}
use smart_locker_iot.Python.{Value, num, str, arr, items_of, is_none}
use smart_locker_iot.Python.Exec.{Exec, gets, ◌>>=◌}
use smart_locker_iot.Gateway.{SerialPort, Gateway, dict, timestamp, publish}

module _ {P : SerialPort} where
  unfoldable pub scan : Value → Exec (Gateway P) (List Value)
  scan range_end g =
      let (found, port) = P.scan_slaves range_end g.serial in (found, record g { serial = port })

  -- discover_and_report: `None` stands for MAX_CABINETS of the settings.
  unfoldable pub discover_and_report : Value → Exec (Gateway P) (Unit {0})
  discover_and_report max_cabinets = do
    configured ← gets (λ g. g.max_cabinets)
    slaves ← scan (if is_none max_cabinets then num configured else max_cabinets)
    mac ← gets (λ g. g.mac_address)
    now ← timestamp
    version ← gets (λ g. g.firmware_version)
    publish ("iot/" <> (mac <> "/discovery/result"))
        (dict (
          ("macAddress", str mac)
          ∷ ("timestamp", now)
          ∷ ("slaves", arr (items_of slaves))
          ∷ ("firmwareVersion", str version)
          ∷ []))
        1
