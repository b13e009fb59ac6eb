-- ===== src/CabinetState.antt =====
-- infracstructure/cabinet_state.py: the class `CabinetState`, with its JSON file and its database.
-- The file is its parsed content. A write fails as a whole or is cut short where `json.dump` raises.
mod Rows
pub mod Clearing
pub mod Recovery
pub mod Effects
pub mod Keyed
pub mod Stored
pub mod Reloaded
pub mod Persistence
use smart_locker_iot.Prelude.{
  ℕ, String, Bool, true, false, Option, none, some, List, [], ◌∷◌, ◌&&◌, not, string_eq, ltb,
  if◌then◌else◌,
}
use smart_locker_iot.Prelude.Dict
use smart_locker_iot.Prelude.Dict.{Dict}
use smart_locker_iot.Prelude.Lists.{length}
use smart_locker_iot.Prelude.Int.{pos}
unfoldable pub use Rows.*
use smart_locker_iot.Python.{
  Value, null, bool, num, str, arr, obj, Fields, end, field, items_of, Key, key_eq, key_of,
  value_of, default, get, get_or, index, iterate, truthy, is_none, same, serializable, Result, ok,
  raise, type_error,
}
use smart_locker_iot.Python.Exec.{Exec, pure, lift, gets, modify, when, ◌>>=◌, ◌>>◌}
use smart_locker_iot.Database.Tables.{Database}
use smart_locker_iot.Database.Methods as Db

-- `_path`: no file, one that is no JSON, or what `json.load` gives.
pub data StateFile : Type 0 where
  missing malformed : StateFile
  content : Value → StateFile

-- `writable`: the file system takes writes, and no `IOError` comes.
pub record CabinetState : Type 0 where
  pub location : Value
  pub cabinets : Dict Key Value
  pub lockers : Dict Key (Dict Key Value)
  pub file : StateFile
  pub writable : Bool
  pub db : Option Database

abbrev pub Action : Type 0 → Type 0
Action A = Exec CabinetState A

-- A call of a method of `self._db`.
unfoldable pub with_db : Exec Database (Unit {0}) → Action (Unit {0})
with_db m s = elim s.db [
  | none ↦ (ok tt, s)
  | some d ↦ let r = m d in (r.0, record s { db = some r.1 })
]

unfoldable pub all_cabinets : CabinetState → List Value
all_cabinets s = Dict.values s.cabinets

unfoldable pub is_configured : CabinetState → Bool
is_configured s = not (is_none s.location) && ltb 0 (length s.cabinets)

abbrev first_interval : List Value → Result Value
first_interval [] = ok (num (pos 60))
first_interval (cab ∷ _) = get_or "heartbeatInterval" (num (pos 60)) cab

unfoldable pub heartbeat_interval : CabinetState → Result Value
unfolding all_cabinets
heartbeat_interval s = first_interval (all_cabinets s)

-- `None` is `null`.
unfoldable pub get_cabinet_by_id : Value → Action Value
unfolding ◌>>=◌
get_cabinet_by_id cabinet_id = do
  key ← lift (key_of cabinet_id)
  gets (λ s. or_null (Dict.get key s.cabinets))

unfoldable pub get_cabinet_by_name : String → Action Value
unfolding find_cabinet all_cabinets
get_cabinet_by_name name s = (find_cabinet "name" (str name) (all_cabinets s), s)

unfoldable pub get_locker_by_slot : Value → Value → Action Value
unfolding ◌>>=◌
get_locker_by_slot cabinet_id slot_index = do
  cabinet ← lift (key_of cabinet_id)
  slot ← lift (key_of slot_index)
  gets (λ s. elim (Dict.get cabinet s.lockers) [ none ↦ null | some m ↦ or_null (Dict.get slot m) ])

abbrev pub file_value : CabinetState → Value
file_value s =
    obj (field "location" s.location (field "cabinets" (arr (items_of (all_cabinets s))) end))

-- _save_to_json: the file is opened, and so cut, before `json.dump` may raise.
unfoldable pub save_to_json : Action (Unit {0})
unfolding all_cabinets
save_to_json s =
    if s.writable
    then (if serializable (file_value s)
        then (ok tt, record s { file = content (file_value s) })
        else (raise type_error, record s { file = malformed }))
    else (ok tt, s)

unfoldable pub save_location : Value → Value → Value → Action (Unit {0})
unfolding with_db save_to_json ◌>>◌
save_location location_id name address = do
  modify (λ s. record s { location = obj (location_data location_id name address) })
  with_db (Db.save_location (location_data location_id name address))
  save_to_json

-- `save_cabinet` once there is a location.
unfoldable pub store_cabinet : CabinetArgs → Value → Action (Unit {0})
unfolding with_db save_to_json ◌>>=◌ ◌>>◌
store_cabinet a location = do
  location_id ← lift (index "id" location)
  key ← lift (key_of a.cabinet_id)
  modify
      (λ s. record s { cabinets = Dict.insert key (obj (cabinet_data a location_id)) s.cabinets })
  with_db (Db.save_cabinet (cabinet_data a location_id))
  save_to_json

unfoldable pub save_cabinet : CabinetArgs → Action (Unit {0})
unfolding store_cabinet
save_cabinet a s = if truthy s.location then store_cabinet a s.location s else (ok tt, s)

abbrev pub file_data : StateFile → Value
file_data missing = null
file_data malformed = null
file_data (content v) = v

abbrev pub database_data : Database → Value
database_data d = obj (
    field "location" (Db.get_location d)
      (field "cabinets" (arr (items_of (Db.get_cabinets d))) end))

-- What `load` reads from the file or, failing that, from the database: `null` is `None`.
unfoldable pub load_data : CabinetState → Value
load_data s = if truthy (file_data s.file) then file_data s.file else elim s.db [
  | none ↦ file_data s.file
  | some d ↦ if truthy (Db.get_location d) then database_data d else file_data s.file
]

-- The lockers of one cabinet, from the database.
unfoldable pub load_one : Key → Action (Unit {0})
unfolding ◌>>=◌
load_one key = do
  db ← gets (λ s. s.db)
  when db (λ d. do
    rows ← lift (by_field "slot_index" (Db.get_lockers (value_of key) d) [])
    modify (λ s. record s { lockers = Dict.insert key rows s.lockers }))

unfoldable pub load_lockers : List Key → Action (Unit {0})
unfolding ◌>>◌
load_lockers [] = pure tt
load_lockers (key ∷ keys) = do load_one key; load_lockers keys

-- `load` once there is something to load.
unfoldable pub restore : Value → Action (Unit {0})
unfolding ◌>>=◌ ◌>>◌
restore saved = do
  location ← lift (get "location" saved)
  modify (λ s. record s { location = or_null location })
  table ← lift (cabinet_table saved)
  modify (λ s. record s { cabinets = table })
  load_lockers (Dict.keys table)

-- `self._location.get("name") if self._location else "None"`, at the end of `load`.
unfoldable pub location_label : Value → Result (Option Value)
location_label v = if truthy v then get "name" v else ok none

unfoldable pub label_location : Action (Unit {0})
unfolding ◌>>=◌
label_location = do
  location ← gets (λ s. s.location)
  label ← lift (location_label location)
  pure tt

unfoldable pub load : Action (Unit {0})
unfolding load_data restore label_location ◌>>◌
load s = if truthy (load_data s) then (restore (load_data s) >> label_location) s else (ok tt, s)

unfoldable pub save_lockers : Value → Value → Action (Unit {0})
unfolding with_db cached_lockers ◌>>=◌ ◌>>◌
save_lockers cabinet_id lockers = do
  items ← lift (iterate lockers)
  with_db (Db.save_lockers cabinet_id items)
  rows ← lift (cached_lockers cabinet_id items [])
  key ← lift (key_of cabinet_id)
  modify (λ s. record s { lockers = Dict.insert key rows s.lockers })

-- Deletes the file if there is one; an `IOError` is logged.
unfoldable pub unlink : CabinetState → CabinetState
unlink s = if s.writable then record s { file = missing } else s

unfoldable pub clear : Action (Unit {0})
unfolding unlink with_db ◌>>◌
clear = do
  modify (λ s. record s { location = null; cabinets = [] })
  modify unlink
  with_db Db.clear_all_state

-- `CabinetState(state_path, db_manager)`: the empty state, then `load`.
unfoldable pub create : StateFile → Bool → Option Database → Result (Unit {0}) × CabinetState
unfolding load
create file writable db = load (record {
  location = null;
  cabinets = [];
  lockers = [];
  file = file;
  writable = writable;
  db = db;
})

-- A call of a method that changes the state, as a value.
pub data Call : Type 0 where
  location : Value → Value → Value → Call
  cabinet : CabinetArgs → Call
  lockers : Value → Value → Call
  reload wipe : Call

unfoldable pub run : Call → Action (Unit {0})
run (location id name address) = save_location id name address
run (cabinet a) = save_cabinet a
run (lockers id items) = save_lockers id items
run reload = load
run wipe = clear
