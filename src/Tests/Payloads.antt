-- ===== src/Tests/Payloads.antt =====
-- The results at payloads.
use smart_locker_iot.Prelude.{◌≡◌, []}
use smart_locker_iot.Python.{null, num, str, arr, items_of, ok, get_or, find}
use smart_locker_iot.Prelude.Int.{pos}
use smart_locker_iot.Domain.{HeartbeatPayload, heartbeat_to_json, OpenAckPayload, open_ack_to_json}
use smart_locker_iot.Domain.Optional.{heartbeat_to_json-read, open_ack_to_json-read}

abbrev heartbeat : HeartbeatPayload
heartbeat = record {
  cabinet_id = str "c1";
  timestamp = str "now";
  status = "online";
  lockers = [];
  mac_address = null;
  uptime = null;
  cpu_temp = null;
  memory_usage = null;
}

abbrev open_ack : OpenAckPayload
open_ack = record {
  locker_id = str "l1";
  slot_index = num (pos 0);
  status = "SUCCESS";
  message = "";
  timestamp = str "now";
  error_code = null;
}

heartbeat_to_json-read_example :
    (get_or "cabinetId" null (heartbeat_to_json heartbeat) ≡ ok (str "c1"))
    × (get_or "timestamp" null (heartbeat_to_json heartbeat) ≡ ok (str "now"))
    × (get_or "status" null (heartbeat_to_json heartbeat) ≡ ok (str "online"))
    × (get_or "lockers" null (heartbeat_to_json heartbeat) ≡ ok (arr (items_of [])))
    × (get_or "macAddress" null (heartbeat_to_json heartbeat) ≡ ok null)
    × (get_or "uptime" null (heartbeat_to_json heartbeat) ≡ ok null)
    × (get_or "cpuTemp" null (heartbeat_to_json heartbeat) ≡ ok null)
    × (get_or "memoryUsage" null (heartbeat_to_json heartbeat) ≡ ok null)
unfolding find
heartbeat_to_json-read_example = heartbeat_to_json-read heartbeat

open_ack_to_json-read_example :
    (get_or "lockerId" null (open_ack_to_json open_ack) ≡ ok (str "l1"))
    × (get_or "slotIndex" null (open_ack_to_json open_ack) ≡ ok (num (pos 0)))
    × (get_or "status" null (open_ack_to_json open_ack) ≡ ok (str "SUCCESS"))
    × (get_or "message" null (open_ack_to_json open_ack) ≡ ok (str ""))
    × (get_or "timestamp" null (open_ack_to_json open_ack) ≡ ok (str "now"))
    × (get_or "errorCode" null (open_ack_to_json open_ack) ≡ ok null)
unfolding find
open_ack_to_json-read_example = open_ack_to_json-read open_ack
