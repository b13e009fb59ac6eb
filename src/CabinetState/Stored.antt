-- ===== src/CabinetState/Stored.antt =====
-- What infracstructure/cabinet_state.py keeps of its database.
use smart_locker_iot.Prelude.{
  ◌≡◌, refl, subst, sym, arith, Option, none, some, List, [], ◌∷◌, Bool-cases, inl, inr,
}
use smart_locker_iot.Python.{
  Value, Key, key_of, truthy, iterate, index, Result-cases, Fault, ok, raise,
}
use smart_locker_iot.Python.Exec.{◌>>=◌, ◌>>◌}
use smart_locker_iot.Database.Tables.{Database}
use smart_locker_iot.Database.Methods as Db
use smart_locker_iot.Database.Methods.{Write, perform}
use smart_locker_iot.Database.Integrity.{Integrity, perform-Integrity}
use smart_locker_iot.CabinetState.{
  CabinetState, CabinetArgs, cabinet_data, location_data, Call, location, cabinet, lockers, reload,
  wipe, run, save_location, save_cabinet, store_cabinet, save_lockers, clear, unlink, with_db,
  save_to_json, load, load_data, restore, load_lockers, load_one,
}

-- The database, if there is one, satisfies its keys and foreign keys.
abbrev pub IsStored : Option Database → Type 0
IsStored none = Unit
IsStored (some d) = Integrity d.tables

-- The database after a method that writes.
abbrev written : Write → Option Database → Option Database
written w none = none
written w (some d) = some (perform w d).1

written-IsStored : (w : Write) (db : Option Database) → IsStored db → IsStored (written w db)
written-IsStored w none h = tt
written-IsStored w (some d) h = perform-Integrity w d h

db-with_db : (w : Write) (s : CabinetState) → (with_db (perform w) s).1.db ≡ written w s.db
unfolding with_db
db-with_db w s = ground arith

db-save_to_json : (s : CabinetState) → (save_to_json s).1.db ≡ s.db
unfolding save_to_json
db-save_to_json s = ground arith

db-load_one : (key : Key) (s : CabinetState) → (load_one key s).1.db ≡ s.db
unfolding load_one ◌>>=◌
db-load_one key s = ground arith

db-load_lockers : (keys : List Key) (s : CabinetState) → (load_lockers keys s).1.db ≡ s.db
unfolding load_lockers ◌>>◌ ◌>>=◌
db-load_lockers [] s = refl
db-load_lockers (key ∷ keys) s =
    ground (arith, db-load_one key s, db-load_lockers keys (load_one key s).1)

db-restore : (v : Value) (s : CabinetState) → (restore v s).1.db ≡ s.db
unfolding restore ◌>>=◌ ◌>>◌
db-restore v s = grind (arith, db-load_lockers)

db-load : (s : CabinetState) → (load s).1.db ≡ s.db
unfolding load
db-load s = ground (arith, db-restore (load_data s) s)

db-save_location :
    (i n a : Value) (s : CabinetState)
    → (save_location i n a s).1.db ≡ written (Db.location (location_data i n a)) s.db
unfolding save_location save_to_json perform with_db ◌>>◌ ◌>>=◌
db-save_location i n a s = ground arith

db-clear : (s : CabinetState) → (clear s).1.db ≡ written Db.clear s.db
unfolding clear perform with_db unlink ◌>>◌ ◌>>=◌
db-clear s = ground arith

db-save_lockers :
    (id l : Value) (items : List Value) (s : CabinetState)
    → iterate l ≡ ok items
    → (save_lockers id l s).1.db ≡ written (Db.lockers id items) s.db
unfolding save_lockers perform with_db ◌>>◌ ◌>>=◌
db-save_lockers id l items s h = ground arith

db-save_lockers_raise :
    (id l : Value) (x : Fault) (s : CabinetState)
    → iterate l ≡ raise x
    → (save_lockers id l s).1.db ≡ s.db
unfolding save_lockers ◌>>◌ ◌>>=◌
db-save_lockers_raise id l x s h = ground arith

module _ (a : CabinetArgs) (v : Value) (s : CabinetState) where
  db-store_cabinet :
      (id : Value) (k : Key)
      → index "id" v ≡ ok id
      → key_of a.cabinet_id ≡ ok k
      → (store_cabinet a v s).1.db ≡ written (Db.cabinet (cabinet_data a id)) s.db
  unfolding store_cabinet perform with_db save_to_json ◌>>◌ ◌>>=◌
  db-store_cabinet id k h₁ h₂ = ground arith

  db-store_cabinet_homeless :
      (x : Fault) → index "id" v ≡ raise x → (store_cabinet a v s).1.db ≡ s.db
  unfolding store_cabinet ◌>>◌ ◌>>=◌
  db-store_cabinet_homeless x h = ground arith

  db-store_cabinet_unhashable :
      (x : Fault) → key_of a.cabinet_id ≡ raise x → (store_cabinet a v s).1.db ≡ s.db
  unfolding store_cabinet ◌>>◌ ◌>>=◌
  db-store_cabinet_unhashable x h = ground arith

module _ (s : CabinetState) (h : IsStored s.db) where
  stored : (w : Write) (db : Option Database) → db ≡ written w s.db → IsStored db
  stored w db e = subst IsStored (sym e) (written-IsStored w s.db h)

  same : (db : Option Database) → db ≡ s.db → IsStored db
  same db e = subst IsStored (sym e) h

  store_cabinet-IsStored : (a : CabinetArgs) (v : Value) → IsStored (store_cabinet a v s).1.db
  store_cabinet-IsStored a v = elim (Result-cases (index "id" v)) [
    | inr (x, hx) ↦ same _ (db-store_cabinet_homeless a v s x hx)
    | inl (id, hid) ↦ elim (Result-cases (key_of a.cabinet_id)) [
      | inr (x, hx) ↦ same _ (db-store_cabinet_unhashable a v s x hx)
      | inl (k, hk) ↦ stored (Db.cabinet (cabinet_data a id)) _ (db-store_cabinet a v s id k hid hk)
    ]
  ]

  save_cabinet-IsStored : (a : CabinetArgs) → IsStored (save_cabinet a s).1.db
  unfolding save_cabinet
  save_cabinet-IsStored a = elim (Bool-cases (truthy s.location)) [
    | inl e ↦ rw e (store_cabinet-IsStored a s.location)
    | inr e ↦ rw e h
  ]

  save_lockers-IsStored : (id l : Value) → IsStored (save_lockers id l s).1.db
  save_lockers-IsStored id l = elim (Result-cases (iterate l)) [
    | inl (items, e) ↦ stored (Db.lockers id items) _ (db-save_lockers id l items s e)
    | inr (x, e) ↦ same _ (db-save_lockers_raise id l x s e)
  ]

  -- Every method that changes the state leaves the database with unique keys and satisfied foreign
  -- keys, also where it raises halfway.
  pub run-IsStored : (c : Call) → IsStored (run c s).1.db
  unfolding run
  run-IsStored (location id name address) =
      stored (Db.location (location_data id name address)) _ (db-save_location id name address s)
  run-IsStored (cabinet a) = save_cabinet-IsStored a
  run-IsStored (lockers id items) = save_lockers-IsStored id items
  run-IsStored reload = same _ (db-load s)
  run-IsStored wipe = stored Db.clear _ (db-clear s)

  pub write-IsStored : (w : Write) → IsStored (with_db (perform w) s).1.db
  write-IsStored w = stored w _ (db-with_db w s)
