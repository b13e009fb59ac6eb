-- ===== src/Domain.antt =====
-- domain/models.py: the data classes that the services build, and the values of their JSON. A field has the
-- type that its class states only where the services make sure of it.
pub mod Unsent
pub mod Optional
use smart_locker_iot.Prelude.{String, Bool, List, [], ◌∷◌}
use smart_locker_iot.Prelude.Int.{ℤ}
use smart_locker_iot.Python.{Value, bool, num, str, arr, items_of}
use smart_locker_iot.Gateway.{dict, without_none}

pub record HeartbeatPayload : Type 0 where
  pub cabinet_id : Value
  pub timestamp : Value
  pub status : String
  pub lockers : List Value
  pub mac_address : Value
  pub uptime : Value
  pub cpu_temp : Value
  pub memory_usage : Value

abbrev pub heartbeat_asdict : HeartbeatPayload → List (String × Value)
heartbeat_asdict p =
    ("cabinetId", p.cabinet_id)
    ∷ ("timestamp", p.timestamp)
    ∷ ("status", str p.status)
    ∷ ("lockers", arr (items_of p.lockers))
    ∷ ("macAddress", p.mac_address)
    ∷ ("uptime", p.uptime)
    ∷ ("cpuTemp", p.cpu_temp)
    ∷ ("memoryUsage", p.memory_usage)
    ∷ []

abbrev pub heartbeat_to_json : HeartbeatPayload → Value
heartbeat_to_json p = dict (without_none (heartbeat_asdict p))

pub record OpenAckPayload : Type 0 where
  pub locker_id : Value
  pub slot_index : Value
  pub status : String
  pub message : String
  pub timestamp : Value
  pub error_code : Value

abbrev pub open_ack_asdict : OpenAckPayload → List (String × Value)
open_ack_asdict p =
    ("lockerId", p.locker_id)
    ∷ ("slotIndex", p.slot_index)
    ∷ ("status", str p.status)
    ∷ ("message", str p.message)
    ∷ ("timestamp", p.timestamp)
    ∷ ("errorCode", p.error_code)
    ∷ []

abbrev pub open_ack_to_json : OpenAckPayload → Value
open_ack_to_json p = dict (without_none (open_ack_asdict p))

pub record HwDetail : Type 0 where
  pub servo_response : Bool
  pub door_sensor : Value
  pub lock_sensor : Bool
  pub response_time_ms : Value

abbrev pub hw_detail_asdict : HwDetail → Value
hw_detail_asdict d = dict (
    ("servoResponse", bool d.servo_response)
    ∷ ("doorSensor", d.door_sensor)
    ∷ ("lockSensor", bool d.lock_sensor)
    ∷ ("responseTimeMs", d.response_time_ms)
    ∷ [])

pub record SetupProgress : Type 0 where
  pub tested : ℤ
  pub total : ℤ
  pub ok_count : ℤ
  pub fail_count : ℤ

abbrev pub setup_progress_asdict : SetupProgress → Value
setup_progress_asdict p = dict (
    ("tested", num p.tested)
    ∷ ("total", num p.total)
    ∷ ("okCount", num p.ok_count)
    ∷ ("failCount", num p.fail_count)
    ∷ [])

pub record SetupProgressPayload : Type 0 where
  pub command_id : Value
  pub cabinet_id : Value
  pub slot_index : ℤ
  pub row : Value
  pub column : Value
  pub test_result : String
  pub hw_detail : Value
  pub progress : Value
  pub timestamp : Value

abbrev pub setup_progress_to_json : SetupProgressPayload → Value
setup_progress_to_json p = dict (
    ("commandId", p.command_id)
    ∷ ("cabinetId", p.cabinet_id)
    ∷ ("slotIndex", num p.slot_index)
    ∷ ("row", p.row)
    ∷ ("column", p.column)
    ∷ ("testResult", str p.test_result)
    ∷ ("hwDetail", p.hw_detail)
    ∷ ("progress", p.progress)
    ∷ ("timestamp", p.timestamp)
    ∷ [])

pub record LockerResultDetail : Type 0 where
  pub slot_index : Value
  pub row : Value
  pub column : Value
  pub test_result : Value
  pub hw_state : String
  pub response_time_ms : Value
  pub error_code : Value
  pub error_message : Value

abbrev pub locker_result_detail_asdict : LockerResultDetail → Value
locker_result_detail_asdict d = dict (
    ("slotIndex", d.slot_index)
    ∷ ("row", d.row)
    ∷ ("column", d.column)
    ∷ ("testResult", d.test_result)
    ∷ ("hwState", str d.hw_state)
    ∷ ("responseTimeMs", d.response_time_ms)
    ∷ ("errorCode", d.error_code)
    ∷ ("errorMessage", d.error_message)
    ∷ [])

pub record SetupResultSummary : Type 0 where
  pub total : ℤ
  pub total_ok : ℤ
  pub total_fail : ℤ
  pub duration : ℤ

abbrev pub setup_result_summary_asdict : SetupResultSummary → Value
setup_result_summary_asdict s = dict (
    ("total", num s.total)
    ∷ ("totalOk", num s.total_ok)
    ∷ ("totalFail", num s.total_fail)
    ∷ ("duration", num s.duration)
    ∷ [])

pub record SetupResultPayload : Type 0 where
  pub command_id : Value
  pub cabinet_id : Value
  pub status : String
  pub summary : Value
  pub lockers : List Value
  pub timestamp : Value

abbrev pub setup_result_to_json : SetupResultPayload → Value
setup_result_to_json p = dict (
    ("commandId", p.command_id)
    ∷ ("cabinetId", p.cabinet_id)
    ∷ ("status", str p.status)
    ∷ ("summary", p.summary)
    ∷ ("lockers", arr (items_of p.lockers))
    ∷ ("timestamp", p.timestamp)
    ∷ [])
