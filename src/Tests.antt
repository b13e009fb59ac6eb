-- ===== src/Tests.antt =====
-- A small installation: one location with one cabinet of two slots, and the results at it.
mod Gateways
mod Runs
mod Setups
mod Lines
mod Ends
mod Ports
mod Configs
mod Systems
mod Scripts
mod Orders
mod Payloads
use smart_locker_iot.Prelude.{
  ◌++◌, ℕ, String, Bool, true, false, ◌≡◌, ◌≢◌, refl, Option, none, some, List, [], ◌∷◌, ◌≤◌, ◌<◌,
  arith,
}
use smart_locker_iot.Prelude.Int.{ℤ, pos, negsuc}
use smart_locker_iot.Python.{
  Value, null, bool, num, str, arr, obj, Items, nil, cons, Fields, end, field, ok, raise,
  type_error, key_error, index, key_of, find, serializable, Key, str_key, int_key, Fault,
}
use smart_locker_iot.Prelude.Dict
use smart_locker_iot.Prelude.Lists.{All}
use smart_locker_iot.CabinetState.{
  CabinetState, missing, malformed, Call, location, cabinet, run, create, clear, is_configured,
  get_locker_by_slot, save_location,
}
use smart_locker_iot.CabinetState.Keyed.{IsKeyed, run-IsKeyed}
use smart_locker_iot.CabinetState.Stored.{IsStored}
use smart_locker_iot.CabinetState.Persistence.{create-run}
use smart_locker_iot.CabinetState.Clearing.{create-clear}
use smart_locker_iot.CabinetState.Recovery.{IsUnreadable, get_cabinets-IsUnreadable, HasCabinet}
use smart_locker_iot.Database.Tables.{
  transact, done, ◌>>=◌, Driver, Database, LocationRow, CabinetRow, LockerRow,
}
use smart_locker_iot.Database.Methods.{without_lockers, Write, perform}
use smart_locker_iot.Python.Text.{format}
use smart_locker_iot.Database.Settings.{
  get_system_setting-save_system_setting, get_mqtt_config-save_mqtt_config,
}
use smart_locker_iot.Database.Methods as Db
use smart_locker_iot.Database.Refinement.{replaced, parsed, rows_of, replace_lockers-replaced}
use smart_locker_iot.Database.Integrity.{Integrity, perform-Integrity}

abbrev text : Value → Option (Option String)
text null = some none
text (str s) = some (some s)
text _ = none

abbrev integer : Value → Option (Option ℤ)
integer null = some none
integer (num n) = some (some n)
integer _ = none

abbrev boolean : Value → Option (Option Bool)
boolean null = some none
boolean (bool b) = some (some b)
boolean _ = none

abbrev pub database : Database
database = record {
  driver = record { text = text; integer = integer; boolean = boolean };
  reachable = true;
  now = 7;
  tables = record {
    mqtt_logs = [];
    locker_events = [];
    locations = ("L", record { name = some "Hall"; address = none; updated_at = 1 }) ∷ [];
    cabinets =
        (
          "c1",
          record {
            location_id = some "L";
            name = some "A";
            total_rows = some (pos 1);
            total_columns = some (pos 2);
            slave_id = some (pos 1);
            heartbeat_interval = some (pos 60);
            is_synced = some true;
            updated_at = 1;
          },
        )
        ∷ [];
    lockers =
        (
          "l1",
          record {
            cabinet_id = some "c1";
            slot_index = some (pos 0);
            locker_label = none;
            updated_at = 1;
          },
        )
        ∷ [];
    mqtt_config = none;
    system_settings = [];
  };
}

pub database-Integrity : Integrity database.tables
unfolding Dict.get
database-Integrity = record {
  location_keys = (refl, tt);
  cabinet_keys = (refl, tt);
  locker_keys = (refl, tt);
  cabinet_refs = (refl, tt);
  locker_refs = (refl, tt);
}

abbrev layout : List Value
layout =
    obj (field "id" (str "l2") (field "slotIndex" (num (pos 1)) (field "label" (str "2") end))) ∷ []

-- A locker without an id.
abbrev nameless : List Value
nameless = obj end ∷ []

perform-Integrity_example : Integrity (perform (Db.lockers (str "c1") layout) database).1.tables
perform-Integrity_example =
    perform-Integrity (Db.lockers (str "c1") layout) database database-Integrity

abbrev broker : Fields
broker = field "broker" (str "b") (field "port" (num (pos 1883)) end)

-- The state of the gateway: the cabinet is kept under its id, and the file can be written.
abbrev pub cabinet_a : Value
cabinet_a = obj (
    field "id" (str "c1") (
      field "name" (str "A") (
        field "slaveId" (num (pos 1))
          (field "totalRows" (num (pos 1)) (field "totalColumns" (num (pos 2)) end)))))

abbrev pub cabinet_state : CabinetState
cabinet_state = record {
  location = obj (field "id" (str "L") (field "name" (str "Hall") (field "address" (str "") end)));
  cabinets = (str_key "c1", cabinet_a) ∷ [];
  lockers = [];
  file = missing;
  writable = true;
  db = some database;
}

cabinet_state-IsKeyed : IsKeyed cabinet_state
unfolding Dict.get index key_of
cabinet_state-IsKeyed = record { distinct = (refl, tt); keyed = (refl, tt) }

abbrev new_location : Call
new_location = location (str "M") (str "Annex") (str "")

abbrev new_cabinet : Call
new_cabinet = cabinet (record {
  cabinet_id = str "c2";
  name = str "B";
  total_rows = num (pos 1);
  total_columns = num (pos 1);
  slave_id = num (pos 2);
  heartbeat_interval = num (pos 60);
  is_synced = bool true;
})

run-IsKeyed_example : IsKeyed (run new_cabinet cabinet_state).1
run-IsKeyed_example = run-IsKeyed cabinet_state cabinet_state-IsKeyed new_cabinet

create-run_example :
    let t = (run new_location cabinet_state).1 in
    let r = create t.file t.writable t.db in
    (r.0 ≡ ok tt) × (r.1.location ≡ t.location) × (r.1.cabinets ≡ t.cabinets)
unfolding run save_location Db.save_location transact ◌>>=◌ find serializable
create-run_example = create-run new_location cabinet_state cabinet_state-IsKeyed refl tt refl

create-clear_example :
    let t = (clear cabinet_state).1 in
    let r = create t.file t.writable t.db in
    ((clear cabinet_state).0 ≡ ok tt)
    × (is_configured t ≡ false)
    × (r.0 ≡ ok tt)
    × (r.1.location ≡ null)
    × (r.1.cabinets ≡ [])
create-clear_example = create-clear cabinet_state refl refl

get_cabinets-IsUnreadable_example : All IsUnreadable (Db.get_cabinets database)
get_cabinets-IsUnreadable_example = get_cabinets-IsUnreadable database

pub database-HasCabinet : HasCabinet database
database-HasCabinet = record {
  up = refl;
  location_id = "L";
  location = record { name = some "Hall"; address = none; updated_at = 1 };
  other_locations = [];
  locations = refl;
  cabinet_id = "c1";
  cabinet = record {
    location_id = some "L";
    name = some "A";
    total_rows = some (pos 1);
    total_columns = some (pos 2);
    slave_id = some (pos 1);
    heartbeat_interval = some (pos 60);
    is_synced = some true;
    updated_at = 1;
  };
  other_cabinets = [];
  cabinets = refl;
}

-- The table once the cabinet c1 has the lockers of `layout`.
abbrev new_lockers : Dict.Dict String LockerRow
new_lockers =
    (
      "l2",
      record {
        cabinet_id = some "c1";
        slot_index = some (pos 1);
        locker_label = some "2";
        updated_at = 7;
      },
    )
    ∷ []

replace_lockers-replaced_example :
    (cabinet : Option String) × (new : List (String × LockerRow)) × (database.driver.text (str "c1")
      ≡ some cabinet)
    × (parsed database cabinet layout ≡ done new)
    × (new_lockers ≡ without_lockers cabinet database.tables.lockers ++ new)
    × ((other : String)
        → rows_of new_lockers other ≡ replaced cabinet new (rows_of database.tables.lockers) other)
unfolding ◌>>=◌ index Db.replace_lockers Dict.reject Dict.get
replace_lockers-replaced_example = replace_lockers-replaced (str "c1") layout database _ refl
