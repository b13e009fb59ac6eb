-- ===== src/Domain/Unsent.antt =====
-- domain/models.py: the data classes that no service builds, and the values of their JSON. A field that may be
-- None is a `Value`.
use smart_locker_iot.Prelude.{String, Bool, List, [], ◌∷◌}
use smart_locker_iot.Prelude.Int.{ℤ}
use smart_locker_iot.Python.{Value, bool, num, str}
use smart_locker_iot.Gateway.{dict, without_none}

pub record AckPayload : Type 0 where
  pub locker_id : String
  pub command_id : String
  pub action : String
  pub status : String
  pub message : String
  pub timestamp : String

abbrev pub ack_asdict : AckPayload → List (String × Value)
ack_asdict p =
    ("lockerId", str p.locker_id)
    ∷ ("commandId", str p.command_id)
    ∷ ("action", str p.action)
    ∷ ("status", str p.status)
    ∷ ("message", str p.message)
    ∷ ("timestamp", str p.timestamp)
    ∷ []

abbrev pub ack_to_json : AckPayload → Value
ack_to_json p = dict (ack_asdict p)

pub record StatusPayload : Type 0 where
  pub locker_id : String
  pub hw_state : String
  pub door_sensor : Bool
  pub lock_sensor : Bool
  pub timestamp : String
  pub command_id : Value
  pub previous_hw_state : Value
  pub temperature : Value
  pub slot_index : Value

abbrev pub status_asdict : StatusPayload → List (String × Value)
status_asdict p =
    ("lockerId", str p.locker_id)
    ∷ ("hwState", str p.hw_state)
    ∷ ("doorSensor", bool p.door_sensor)
    ∷ ("lockSensor", bool p.lock_sensor)
    ∷ ("timestamp", str p.timestamp)
    ∷ ("commandId", p.command_id)
    ∷ ("previousHwState", p.previous_hw_state)
    ∷ ("temperature", p.temperature)
    ∷ ("slotIndex", p.slot_index)
    ∷ []

abbrev pub status_to_json : StatusPayload → Value
status_to_json p = dict (without_none (status_asdict p))

pub record ErrorPayload : Type 0 where
  pub locker_id : String
  pub error_code : String
  pub error_message : String
  pub hw_state : String
  pub timestamp : String
  pub command_id : Value
  pub slot_index : Value

abbrev pub error_asdict : ErrorPayload → List (String × Value)
error_asdict p =
    ("lockerId", str p.locker_id)
    ∷ ("errorCode", str p.error_code)
    ∷ ("errorMessage", str p.error_message)
    ∷ ("hwState", str p.hw_state)
    ∷ ("timestamp", str p.timestamp)
    ∷ ("commandId", p.command_id)
    ∷ ("slotIndex", p.slot_index)
    ∷ []

abbrev pub error_to_json : ErrorPayload → Value
error_to_json p = dict (without_none (error_asdict p))

pub record ConfigSyncPayload : Type 0 where
  pub cabinet_id : String
  pub cabinet_code : String
  pub mac_address : String
  pub ip_address : String
  pub firmware_version : String
  pub python_version : String
  pub config_version : String
  pub connected_arduinos : ℤ
  pub timestamp : String

abbrev pub config_sync_asdict : ConfigSyncPayload → List (String × Value)
config_sync_asdict p =
    ("cabinetId", str p.cabinet_id)
    ∷ ("cabinetCode", str p.cabinet_code)
    ∷ ("macAddress", str p.mac_address)
    ∷ ("ipAddress", str p.ip_address)
    ∷ ("firmwareVersion", str p.firmware_version)
    ∷ ("pythonVersion", str p.python_version)
    ∷ ("configVersion", str p.config_version)
    ∷ ("connectedArduinos", num p.connected_arduinos)
    ∷ ("timestamp", str p.timestamp)
    ∷ []

abbrev pub config_sync_to_json : ConfigSyncPayload → Value
config_sync_to_json p = dict (config_sync_asdict p)

pub record CabinetConfigResponse : Type 0 where
  pub cabinet_id : String
  pub cabinet_code : String
  pub location_id : String
  pub mqtt_topic_prefix : String
  pub heartbeat_interval : ℤ
  pub open_door_timeout : ℤ
  pub led_intensity : ℤ
  pub volume_level : ℤ
  pub is_synced : Bool
  pub mqtt_broker_host : String
  pub mqtt_broker_port : ℤ
  pub mqtt_username : String
  pub mqtt_password : String
  pub is_active : Bool
  pub total_rows : ℤ
  pub total_columns : ℤ
  pub last_synced_at : Value

abbrev pub cabinet_config_asdict : CabinetConfigResponse → List (String × Value)
cabinet_config_asdict p =
    ("cabinetId", str p.cabinet_id)
    ∷ ("cabinetCode", str p.cabinet_code)
    ∷ ("locationId", str p.location_id)
    ∷ ("mqttTopicPrefix", str p.mqtt_topic_prefix)
    ∷ ("heartbeatInterval", num p.heartbeat_interval)
    ∷ ("openDoorTimeout", num p.open_door_timeout)
    ∷ ("ledIntensity", num p.led_intensity)
    ∷ ("volumeLevel", num p.volume_level)
    ∷ ("isSynced", bool p.is_synced)
    ∷ ("mqttBrokerHost", str p.mqtt_broker_host)
    ∷ ("mqttBrokerPort", num p.mqtt_broker_port)
    ∷ ("mqttUsername", str p.mqtt_username)
    ∷ ("mqttPassword", str p.mqtt_password)
    ∷ ("isActive", bool p.is_active)
    ∷ ("totalRows", num p.total_rows)
    ∷ ("totalColumns", num p.total_columns)
    ∷ ("lastSyncedAt", p.last_synced_at)
    ∷ []

abbrev pub cabinet_config_to_dict : CabinetConfigResponse → Value
cabinet_config_to_dict p = dict (cabinet_config_asdict p)

pub record ClearSetupAckPayload : Type 0 where
  pub cabinet_id : String
  pub command_id : String
  pub action : String
  pub status : String
  pub message : String
  pub timestamp : String

abbrev pub clear_setup_ack_asdict : ClearSetupAckPayload → List (String × Value)
clear_setup_ack_asdict p =
    ("cabinetId", str p.cabinet_id)
    ∷ ("commandId", str p.command_id)
    ∷ ("action", str p.action)
    ∷ ("status", str p.status)
    ∷ ("message", str p.message)
    ∷ ("timestamp", str p.timestamp)
    ∷ []

abbrev pub clear_setup_ack_to_json : ClearSetupAckPayload → Value
clear_setup_ack_to_json p = dict (clear_setup_ack_asdict p)

pub record ClearSetupResultPayload : Type 0 where
  pub command_id : String
  pub cabinet_id : String
  pub status : String
  pub timestamp : String
  pub error_message : Value

abbrev pub clear_setup_result_asdict : ClearSetupResultPayload → List (String × Value)
clear_setup_result_asdict p =
    ("commandId", str p.command_id)
    ∷ ("cabinetId", str p.cabinet_id)
    ∷ ("status", str p.status)
    ∷ ("timestamp", str p.timestamp)
    ∷ ("errorMessage", p.error_message)
    ∷ []

abbrev pub clear_setup_result_to_json : ClearSetupResultPayload → Value
clear_setup_result_to_json p = dict (without_none (clear_setup_result_asdict p))
