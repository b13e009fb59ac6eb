-- ===== src/CabinetState/Recovery.antt =====
-- What `load` recovers from the database: rows with the columns' names, and with their `updated_at`
-- (infracstructure/cabinet_state.py with infracstructure/database.py).
use smart_locker_iot.Prelude.{
  true, false, String, ◌≡◌, refl, Option, some, List, [], ◌∷◌, arith, string_eq, Bool-cases,
  Option-cases, inl, inr,
}
use smart_locker_iot.Prelude.Dict
use smart_locker_iot.Prelude.Dict.{Dict}
use smart_locker_iot.Prelude.Lists.{All}
use smart_locker_iot.Python.{
  Value, default, null, Fields, list_of-items_of, str_key, index, iterate, obj, get_or, get,
  items_of, Key, key_eq, key_of, serializable, serializable_items, ok, raise, type_error,
}
use smart_locker_iot.Database.Tables.{Database, LocationRow, CabinetRow, transact}
use smart_locker_iot.Database.Tables as Sql
use smart_locker_iot.Database.Methods as Db
use smart_locker_iot.Database.Methods.{get_cabinets, cabinet_list, cabinet_fields}
use smart_locker_iot.CabinetState.Effects.{cabinets-restore, load-restore}
use smart_locker_iot.CabinetState.{
  load_one, load_lockers, restore, load_data, CabinetState, all_cabinets, cabinet_table,
  database_data, missing, malformed, create, save_location, with_db, location_data, by_field,
  save_to_json,
}

-- A dictionary of a cabinet that has none of the keys by which the services read it.
abbrev pub IsUnreadable : Value → Type 0
IsUnreadable c =
    (v : Value)
    → (get_or "slaveId" v c ≡ ok v)
      × (get_or "totalRows" v c ≡ ok v)
      × (get_or "totalColumns" v c ≡ ok v)
      × (get_or "heartbeatInterval" v c ≡ ok v)

cabinet_list-IsUnreadable : (rows : Dict String CabinetRow) → All IsUnreadable (cabinet_list rows)
unfolding cabinet_list get_or
cabinet_list-IsUnreadable [] = tt
cabinet_list-IsUnreadable ((id, row) ∷ rows) =
    (λ v. (refl, refl, refl, refl), cabinet_list-IsUnreadable rows)

-- Every cabinet that `get_cabinets` returns reads as if it had no slave id, no layout and no
-- interval: a lookup of these keys gives its default, whatever was saved.
pub get_cabinets-IsUnreadable : (d : Database) → All IsUnreadable (get_cabinets d)
unfolding get_cabinets
get_cabinets-IsUnreadable d = elim (Bool-cases d.reachable) [
  | inl e ↦ rw e (cabinet_list-IsUnreadable d.tables.cabinets)
  | inr e ↦ rw e tt
]

abbrev IsRefused : Value → Type 0
IsRefused c = serializable c ≡ false

cabinet_list-IsRefused : (rows : Dict String CabinetRow) → All IsRefused (cabinet_list rows)
unfolding cabinet_list serializable
cabinet_list-IsRefused [] = tt
cabinet_list-IsRefused ((id, row) ∷ rows) = (ground arith, cabinet_list-IsRefused rows)

-- `json.dumps` refuses the list of the dictionary's values.
abbrev HasRefused : Dict Key Value → Type 0
HasRefused d = serializable_items (items_of (Dict.values d)) ≡ false

insert-HasRefused :
    (k : Key) (c : Value) (d : Dict Key Value) → IsRefused c → HasRefused (Dict.insert k c d)
unfolding Dict.insert serializable
insert-HasRefused k c [] h = ground arith
insert-HasRefused k c ((j, w) ∷ d) h = ground (arith, insert-HasRefused k c d h)

by_field-cabinet_list :
    (rows : Dict String CabinetRow) (acc : Dict Key Value)
    → HasRefused acc
    → (d : Dict Key Value) × (by_field "id" (cabinet_list rows) acc ≡ ok d) × HasRefused d
unfolding by_field cabinet_list index key_of
by_field-cabinet_list [] acc h = (acc, refl, h)
by_field-cabinet_list ((id, row) ∷ rows) acc h =
    by_field-cabinet_list rows (Dict.insert (str_key id) (obj (cabinet_fields id row)) acc)
      (insert-HasRefused (str_key id) _ acc (cabinet_list-IsRefused ((id, row) ∷ [])).0)

-- A database with a location and a cabinet.
pub record HasCabinet (d : Database) : Type 0 where
  pub up : d.reachable ≡ true
  pub location_id : String
  pub location : LocationRow
  pub other_locations : Dict String LocationRow
  pub locations : d.tables.locations ≡ (location_id, location) ∷ other_locations
  pub cabinet_id : String
  pub cabinet : CabinetRow
  pub other_cabinets : Dict String CabinetRow
  pub cabinets : d.tables.cabinets ≡ (cabinet_id, cabinet) ∷ other_cabinets

save_location-ok : (fs : Fields) (d : Database) → (Db.save_location fs d).0 ≡ ok tt
unfolding Db.save_location transact Db.insert_location Sql.◌>>=◌
save_location-ok fs d = ground arith

save_to_json-refused :
    (s : CabinetState)
    → s.writable ≡ true
    → HasRefused s.cabinets
    → save_to_json s ≡ (raise type_error, record s { file = malformed })
unfolding save_to_json serializable all_cabinets
save_to_json-refused s w r = ground arith

-- A state with a row of the database cannot be saved: the file is cut short.
save_location-refused :
    (i n a : Value) (s : CabinetState)
    → s.writable ≡ true
    → HasRefused s.cabinets
    → ((save_location i n a s).0 ≡ raise type_error) × ((save_location i n a s).1.file ≡ malformed)
unfolding save_location with_db
save_location-refused i n a s w r = elim (Option-cases s.db) [
  | inl e ↦ ground (arith, save_to_json-refused (record s { location = obj (location_data i n a) }))
  | inr (d, e) ↦ ground (
    arith,
    save_location-ok (location_data i n a) d,
    save_to_json-refused (record s {
      location = obj (location_data i n a);
      db = some (Db.save_location (location_data i n a) d).1;
    }),
  )
]

writable-load_one : (key : Key) (s : CabinetState) → (load_one key s).1.writable ≡ s.writable
unfolding load_one
writable-load_one key s = ground arith

writable-load_lockers :
    (keys : List Key) (s : CabinetState) → (load_lockers keys s).1.writable ≡ s.writable
unfolding load_lockers
writable-load_lockers [] s = refl
writable-load_lockers (key ∷ keys) s =
    ground (arith, writable-load_one key s, writable-load_lockers keys (load_one key s).1)

writable-restore :
    (v : Value) (s : CabinetState) (l : Option Value) (table : Dict Key Value)
    → get "location" v ≡ ok l
    → cabinet_table v ≡ ok table
    → (restore v s).1.writable ≡ s.writable
unfolding restore
writable-restore v s l table h₁ h₂ = ground (
  arith,
  writable-load_lockers (Dict.keys table)
      (record s { location = default null l; cabinets = table }),
)

module _ (d : Database) (h : HasCabinet d) where
  cabinet_table-database_data :
      (t : Dict Key Value) × (cabinet_table (database_data d) ≡ ok t) × HasRefused t
  unfolding cabinet_table get_or iterate get_cabinets Dict.insert by_field index key_of
  cabinet_table-database_data =
      rw (h.up, list_of-items_of, h.cabinets)
        (by_field-cabinet_list h.other_cabinets
          (Dict.insert (str_key h.cabinet_id) (obj (cabinet_fields h.cabinet_id h.cabinet)) [])
          (insert-HasRefused (str_key h.cabinet_id) _ []
            (cabinet_list-IsRefused ((h.cabinet_id, h.cabinet) ∷ [])).0))

  abbrev pub empty : CabinetState
  empty = record {
    location = null;
    cabinets = [];
    lockers = [];
    file = missing;
    writable = true;
    db = some d;
  }

  load_data-empty : load_data empty ≡ database_data d
  unfolding load_data Db.get_location
  load_data-empty = rw (h.up, h.locations)

  pub create-database_data : (create missing true (some d)).1 ≡ (restore (database_data d) empty).1
  unfolding create
  create-database_data = load-restore empty (database_data d) load_data-empty refl

  -- A `CabinetState` whose file is lost, with a database that has a location and a cabinet: its
  -- `save_location` raises a `TypeError`, and the file that it leaves is no JSON. `main` ends before.
  save_location-create :
      (i n a : Value)
      → let s = (create missing true (some d)).1 in
        ((save_location i n a s).0 ≡ raise type_error)
        × ((save_location i n a s).1.file ≡ malformed)
  unfolding get
  save_location-create i n a =
      let (t, found, refused) = cabinet_table-database_data in
      let l = some (Db.get_location d) in
      save_location-refused i n a (create missing true (some d)).1
        (rw create-database_data (writable-restore (database_data d) empty l t refl found))
        (rw (create-database_data, cabinets-restore (database_data d) empty l t refl found) refused)
