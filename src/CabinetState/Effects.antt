-- ===== src/CabinetState/Effects.antt =====
-- What the methods of infracstructure/cabinet_state.py do to the dictionary of cabinets.
use smart_locker_iot.Prelude.{true, ◌≡◌, refl, Option, List, [], ◌∷◌, arith, string_eq}
use smart_locker_iot.Prelude.Dict
use smart_locker_iot.Prelude.Dict.{Dict, NodupKeys}
use smart_locker_iot.Python.{
  Value, null, default, truthy, obj, Key, key_eq, key_of, index, get, Fault, ok, raise,
}
use smart_locker_iot.Python.Exec as Exec
use smart_locker_iot.Python.Exec.{Exec, when}
use smart_locker_iot.Database.Tables.{Database}
use smart_locker_iot.CabinetState.{
  CabinetState, CabinetArgs, cabinet_data, cabinet_table, save_location, store_cabinet,
  save_lockers, clear, with_db, save_to_json, load, load_data, restore, load_lockers, load_one,
  label_location,
}

pub cabinets-with_db :
    (m : Exec Database (Unit {0})) (s : CabinetState) → (with_db m s).1.cabinets ≡ s.cabinets
unfolding with_db
cabinets-with_db m s = ground arith

pub cabinets-save_to_json : (s : CabinetState) → (save_to_json s).1.cabinets ≡ s.cabinets
unfolding save_to_json
cabinets-save_to_json s = ground arith

pub cabinets-load_one : (key : Key) (s : CabinetState) → (load_one key s).1.cabinets ≡ s.cabinets
unfolding load_one
cabinets-load_one key s = ground arith

pub cabinets-load_lockers :
    (keys : List Key) (s : CabinetState) → (load_lockers keys s).1.cabinets ≡ s.cabinets
unfolding load_lockers
cabinets-load_lockers [] s = refl
cabinets-load_lockers (key ∷ keys) s =
    ground (arith, cabinets-load_one key s, cabinets-load_lockers keys (load_one key s).1)

pub cabinets-save_location :
    (i n a : Value) (s : CabinetState) → (save_location i n a s).1.cabinets ≡ s.cabinets
unfolding save_location with_db save_to_json Exec.◌>>=◌
cabinets-save_location i n a s = ground arith

pub cabinets-save_lockers :
    (i l : Value) (s : CabinetState) → (save_lockers i l s).1.cabinets ≡ s.cabinets
unfolding save_lockers with_db Exec.◌>>=◌
cabinets-save_lockers i l s = ground arith

pub cabinets-clear : (s : CabinetState) → (clear s).1.cabinets ≡ []
unfolding clear with_db Exec.◌>>=◌
cabinets-clear s = ground arith

module _ (a : CabinetArgs) (v : Value) (s : CabinetState) where
  pub cabinets-store_cabinet :
      (id : Value) (k : Key)
      → index "id" v ≡ ok id
      → key_of a.cabinet_id ≡ ok k
      → (store_cabinet a v s).1.cabinets ≡ Dict.insert k (obj (cabinet_data a id)) s.cabinets
  unfolding store_cabinet
  cabinets-store_cabinet id k h₁ h₂ = ground arith

  pub cabinets-store_cabinet_homeless :
      (x : Fault) → index "id" v ≡ raise x → (store_cabinet a v s).1.cabinets ≡ s.cabinets
  unfolding store_cabinet
  cabinets-store_cabinet_homeless x h = ground arith

  pub cabinets-store_cabinet_unhashable :
      (x : Fault) → key_of a.cabinet_id ≡ raise x → (store_cabinet a v s).1.cabinets ≡ s.cabinets
  unfolding store_cabinet
  cabinets-store_cabinet_unhashable x h = ground arith

pub cabinets-restore_raise :
    (v : Value) (s : CabinetState) (x : Fault)
    → cabinet_table v ≡ raise x
    → (restore v s).1.cabinets ≡ s.cabinets
unfolding restore
cabinets-restore_raise v s x h = ground arith

pub cabinets-restore_unread :
    (v : Value) (s : CabinetState) (x : Fault)
    → get "location" v ≡ raise x
    → (restore v s).1.cabinets ≡ s.cabinets
unfolding restore
cabinets-restore_unread v s x h = ground arith

pub cabinets-restore :
    (v : Value) (s : CabinetState) (l : Option Value) (table : Dict Key Value)
    → get "location" v ≡ ok l
    → cabinet_table v ≡ ok table
    → (restore v s).1.cabinets ≡ table
unfolding restore
cabinets-restore v s l table h₁ h₂ = ground (
  arith,
  cabinets-load_lockers (Dict.keys table)
      (record s { location = default null l; cabinets = table }),
)

-- The last step of `load` only reads.
pub label_location_same :
    (m : Exec CabinetState (Unit {0})) (s : CabinetState)
    → ((Exec.◌>>◌ m label_location) s).1 ≡ (m s).1
unfolding label_location Exec.◌>>◌ Exec.◌>>=◌
label_location_same m s = ground arith

pub load-restore :
    (s : CabinetState) (v : Value)
    → load_data s ≡ v
    → truthy v ≡ true
    → (load s).1 ≡ (restore v s).1
unfolding load
load-restore s v e h = rw (e, h) (label_location_same (restore v) s)
