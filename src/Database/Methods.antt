-- ===== src/Database/Methods.antt =====
-- The methods of `DatabaseManager` (infracstructure/database.py).
mod Columns
mod Logs
use smart_locker_iot.Prelude.{
  String, Bool, false, Option, none, some, List, [], ◌∷◌, ◌++◌, ◌||◌, ◌&&◌, ◌==◌, string_eq,
  if◌then◌else◌,
}
use mathlib.Core.List.{reverse}
use smart_locker_iot.Prelude.Dict
use smart_locker_iot.Prelude.Dict.{Dict}
use smart_locker_iot.Prelude.Lists.{take}
use smart_locker_iot.Prelude.Int.{int_beq, ℤ, pos, negsuc}
use smart_locker_iot.Python.{
  Value, null, bool, num, str, datetime, obj, Fields, end, field, find, default, index,
}
use smart_locker_iot.Python.Text.{format}
use smart_locker_iot.Python.Exec.{Exec}
use smart_locker_iot.Database.Tables.{
  LocationRow, CabinetRow, LockerRow, MqttLog, Tables, Database, Sql, done, refused, broken, ◌>>=◌,
  bind, not_null, python, known, transact, query,
}
unfoldable pub use Columns.*
unfoldable pub use Logs.*

-- The upsert of a location.
unfoldable pub insert_location : Fields → Database → Sql Tables
insert_location fs db = do
  id ← not_null (db.driver.text (arg "id" null fs))
  name ← bind (db.driver.text (arg "name" null fs))
  address ← bind (db.driver.text (arg "address" null fs))
  let row = Dict.insert id (record { name = name; address = address; updated_at = db.now })
  done (record db.tables { locations = row db.tables.locations })

unfoldable pub save_location : Fields → Exec Database (Unit {0})
unfolding insert_location
save_location fs = transact (insert_location fs)

unfoldable pub location_fields : String → LocationRow → Fields
location_fields id row = field "id" (str id) (
    field "name" (text_value row.name)
      (field "address" (text_value row.address) (field "updated_at" (datetime row.updated_at) end)))

unfoldable pub first_location : Dict String LocationRow → Value
unfolding location_fields
first_location [] = null
first_location ((id, row) ∷ _) = obj (location_fields id row)

-- get_location: `None` is `null`.
unfoldable pub get_location : Database → Value
unfolding first_location
get_location db = query null db (first_location db.tables.locations)

unfoldable pub cabinet_row : Fields → Database → Sql CabinetRow
cabinet_row fs db = do
  location_id ← bind (db.driver.text (arg "locationId" null fs))
  name ← bind (db.driver.text (arg "name" null fs))
  rows ← bind (db.driver.integer (arg "totalRows" (num (pos 0)) fs))
  columns ← bind (db.driver.integer (arg "totalColumns" (num (pos 0)) fs))
  slave ← bind (db.driver.integer (arg "slaveId" null fs))
  interval ← bind (db.driver.integer (arg "heartbeatInterval" (num (pos 60)) fs))
  synced ← bind (db.driver.boolean (arg "isSynced" (bool false) fs))
  done (record {
    location_id = location_id;
    name = name;
    total_rows = rows;
    total_columns = columns;
    slave_id = slave;
    heartbeat_interval = interval;
    is_synced = synced;
    updated_at = db.now;
  })

-- The upsert of a cabinet, with its foreign key.
unfoldable pub insert_cabinet : Fields → Database → Sql Tables
unfolding cabinet_row
insert_cabinet fs db = do
  id ← not_null (db.driver.text (arg "id" null fs))
  row ← cabinet_row fs db
  if known row.location_id db.tables.locations
      then done (record db.tables { cabinets = Dict.insert id row db.tables.cabinets })
      else refused

unfoldable pub save_cabinet : Fields → Exec Database (Unit {0})
unfolding insert_cabinet
save_cabinet fs = transact (insert_cabinet fs)

unfoldable pub cabinet_fields : String → CabinetRow → Fields
cabinet_fields id row = field "id" (str id) (
    field "location_id" (text_value row.location_id) (
      field "name" (text_value row.name) (
        field "total_rows" (int_value row.total_rows) (
          field "total_columns" (int_value row.total_columns) (
            field "slave_id" (int_value row.slave_id) (
              field "heartbeat_interval" (int_value row.heartbeat_interval) (
                field "is_synced" (bool_value row.is_synced)
                  (field "updated_at" (datetime row.updated_at) end))))))))

unfoldable pub cabinet_list : Dict String CabinetRow → List Value
unfolding cabinet_fields
cabinet_list [] = []
cabinet_list ((id, row) ∷ rows) = obj (cabinet_fields id row) ∷ cabinet_list rows

unfoldable pub get_cabinets : Database → List Value
unfolding cabinet_list
get_cabinets db = query [] db (cabinet_list db.tables.cabinets)

-- WHERE cabinet_id = …: NULL equals nothing.
abbrev pub belongs : String → LockerRow → Bool
belongs cabinet row = elim row.cabinet_id [ none ↦ false | some c ↦ c == cabinet ]

-- What one INSERT of `save_lockers` binds.
pub record LockerArgs : Type 0 where
  pub id : String
  pub slot_index : Option ℤ
  pub label : Option String

unfoldable pub locker_args : Database → Value → Sql LockerArgs
locker_args db locker = do
  raw_id ← python (index "id" locker)
  raw_slot ← python (index "slotIndex" locker)
  raw_label ← python (index "label" locker)
  id ← not_null (db.driver.text raw_id)
  slot ← bind (db.driver.integer raw_slot)
  label ← bind (db.driver.text raw_label)
  done (record { id = id; slot_index = slot; label = label })

abbrev pub locker_row : Database → Option String → LockerArgs → String × LockerRow
locker_row db cabinet a = (
  a.id,
  record {
    cabinet_id = cabinet;
    slot_index = a.slot_index;
    locker_label = a.label;
    updated_at = db.now;
  },
)

-- The INSERT: the primary key has to be new and the cabinet known, or NULL.
unfoldable pub insert_locker :
    Database
    → Dict String CabinetRow
    → Option String
    → Value
    → Dict String LockerRow
    → Sql (Dict String LockerRow)
unfolding locker_args
insert_locker db cabinets cabinet locker rows = do
  a ← locker_args db locker
  if known (some a.id) rows
      then refused
      else if known cabinet cabinets
      then done (rows ++ locker_row db cabinet a ∷ [])
      else refused

unfoldable pub insert_lockers :
    Database
    → Dict String CabinetRow
    → Option String
    → List Value
    → Dict String LockerRow
    → Sql (Dict String LockerRow)
unfolding insert_locker
insert_lockers db cabinets cabinet [] rows = done rows
insert_lockers db cabinets cabinet (locker ∷ lockers) rows =
    insert_locker db cabinets cabinet locker rows >>= λ rows'.
    insert_lockers db cabinets cabinet lockers rows'

-- DELETE … WHERE cabinet_id = …: NULL deletes nothing.
abbrev pub without_lockers : Option String → Dict String LockerRow → Dict String LockerRow
without_lockers none rows = rows
without_lockers (some cabinet) rows = Dict.reject (belongs cabinet) rows

-- The rows of the cabinet are deleted, then the new ones inserted, in one transaction.
unfoldable pub replace_lockers : Value → List Value → Database → Sql Tables
unfolding insert_lockers
replace_lockers cabinet_id lockers db = do
  cabinet ← bind (db.driver.text cabinet_id)
  rows ←
      insert_lockers db db.tables.cabinets cabinet lockers
        (without_lockers cabinet db.tables.lockers)
  done (record db.tables { lockers = rows })

unfoldable pub save_lockers : Value → List Value → Exec Database (Unit {0})
unfolding replace_lockers
save_lockers cabinet_id lockers = transact (replace_lockers cabinet_id lockers)

unfoldable pub locker_fields : String → LockerRow → Fields
locker_fields id row = field "id" (str id) (
    field "cabinet_id" (text_value row.cabinet_id) (
      field "slot_index" (int_value row.slot_index) (
        field "locker_label" (text_value row.locker_label)
          (field "updated_at" (datetime row.updated_at) end))))

unfoldable pub lockers_of : String → Dict String LockerRow → List Value
unfolding locker_fields
lockers_of cabinet [] = []
lockers_of cabinet ((id, row) ∷ rows) =
    let rest = lockers_of cabinet rows in
    if belongs cabinet row then obj (locker_fields id row) ∷ rest else rest

abbrev pub answer : Sql (List Value) → List Value
answer (done vs) = vs
answer refused = []
answer (broken e) = []

unfoldable pub get_lockers : Value → Database → List Value
unfolding lockers_of
get_lockers cabinet_id db =
    query [] db
      (answer (not_null (db.driver.text cabinet_id) >>= λ c. done (lockers_of c db.tables.lockers)))

-- get_locker_by_slot: `None` is `null`. NULL equals nothing.
unfoldable pub is_at : Option ℤ → LockerRow → Bool
is_at none row = false
is_at (some n) row = elim row.slot_index [ none ↦ false | some k ↦ int_beq k n ]

unfoldable pub first_at : String → Option ℤ → Dict String LockerRow → Value
first_at cabinet slot [] = null
first_at cabinet slot ((id, row) ∷ rows) =
    let rest = first_at cabinet slot rows in
    if belongs cabinet row && is_at slot row then obj (locker_fields id row) else rest

abbrev found : Sql Value → Value
found (done v) = v
found refused = null
found (broken e) = null

unfoldable pub get_locker_by_slot : Value → Value → Database → Value
get_locker_by_slot cabinet_id slot_index db = query null db (
    found (do
      cabinet ← not_null (db.driver.text cabinet_id)
      slot ← bind (db.driver.integer slot_index)
      done (first_at cabinet slot db.tables.lockers)))

unfoldable pub clear_all_state : Exec Database (Unit {0})
clear_all_state =
    transact λ db. done (record db.tables { locations = []; cabinets = []; lockers = [] })

-- A call of a method that writes, as a value.
pub data Write : Type 0 where
  setting : String → Value → Write
  mqtt : String → String → String → Write
  location cabinet : Fields → Write
  lockers : Value → List Value → Write
  config : Fields → Write
  event : EventArgs → Write
  clear : Write

unfoldable pub perform : Write → Exec Database (Unit {0})
unfolding save_system_setting log_mqtt save_mqtt_config log_event save_location save_cabinet
    save_lockers clear_all_state
perform (setting key value) = save_system_setting key value
perform (mqtt topic payload direction) = log_mqtt topic payload direction
perform (location fs) = save_location fs
perform (cabinet fs) = save_cabinet fs
perform (lockers cabinet_id items) = save_lockers cabinet_id items
perform (config fs) = save_mqtt_config fs
perform (event a) = log_event a
perform clear = clear_all_state
