-- ===== src/CabinetState/Rows.antt =====
-- The dictionaries that infracstructure/cabinet_state.py builds and searches.
use smart_locker_iot.Prelude.{String, Option, List, [], ◌∷◌, string_eq, if◌then◌else◌}
use smart_locker_iot.Prelude.Dict
use smart_locker_iot.Prelude.Dict.{Dict}
use smart_locker_iot.Python.{
  Value, null, obj, arr, nil, get_or, iterate, Fields, end, field, Key, key_eq, key_of, default,
  get, index, same, Result, ok, raise, ◌>>=◌,
}

abbrev pub or_null : Option Value → Value
or_null = default null

abbrev pub location_data : Value → Value → Value → Fields
location_data location_id name address =
    field "id" location_id (field "name" name (field "address" address end))

-- The arguments of `save_cabinet`.
pub record CabinetArgs : Type 0 where
  pub cabinet_id : Value
  pub name : Value
  pub total_rows : Value
  pub total_columns : Value
  pub slave_id : Value
  pub heartbeat_interval : Value
  pub is_synced : Value

abbrev pub cabinet_data : CabinetArgs → Value → Fields
cabinet_data a location_id = field "id" a.cabinet_id (
    field "locationId" location_id (
      field "name" a.name (
        field "totalRows" a.total_rows (
          field "totalColumns" a.total_columns (
            field "slaveId" a.slave_id (
              field "heartbeatInterval" a.heartbeat_interval
                (field "isSynced" a.is_synced end)))))))

-- The first cabinet whose field has the value.
unfoldable pub find_cabinet : String → Value → List Value → Result Value
find_cabinet name value [] = ok null
find_cabinet name value (cab ∷ cabs) =
    let rest = find_cabinet name value cabs in
    elim (get name cab) [
      | raise e ↦ raise e
      | ok found ↦ if same (or_null found) value then ok cab else rest
    ]

-- { c[name]: c for c in … }
unfoldable pub by_field : String → List Value → Dict Key Value → Result (Dict Key Value)
by_field name [] d = ok d
by_field name (c ∷ cs) d = do
  id ← index name c
  key ← key_of id
  by_field name cs (Dict.insert key c d)

-- The cabinets of what was saved, by id.
unfoldable pub cabinet_table : Value → Result (Dict Key Value)
cabinet_table saved = do
  listed ← get_or "cabinets" (arr nil) saved
  cabinets ← iterate listed
  by_field "id" cabinets []

-- One locker of the cache, as `save_lockers` writes it.
unfoldable pub cached_locker : Value → Value → Result (Key × Value)
cached_locker cabinet_id l = do
  slot ← index "slotIndex" l
  id ← index "id" l
  label ← index "label" l
  key ← key_of slot
  ok (
    key,
    obj (
        field "id" id (
          field "cabinet_id" cabinet_id
            (field "slot_index" slot (field "locker_label" label end)))),
  )

unfoldable pub cached_lockers : Value → List Value → Dict Key Value → Result (Dict Key Value)
unfolding cached_locker
cached_lockers cabinet_id [] d = ok d
cached_lockers cabinet_id (l ∷ ls) d = do
  entry ← cached_locker cabinet_id l
  cached_lockers cabinet_id ls (Dict.insert entry.0 entry.1 d)
