-- ===== src/CabinetState/Reloaded.antt =====
-- What `_load` of infracstructure/cabinet_state.py makes of the JSON that `_save_to_json` writes, and of the rows of
-- the lockers.
use smart_locker_iot.Prelude.{
  ap, String, Bool, true, false, ◌≡◌, refl, ◌∙◌, Option, none, some, List, [], ◌∷◌, ◌++◌,
  append_assoc, arith, append-nil, inl, inr, Bool-cases, Option-cases, if◌then◌else◌, string_eq,
}
use smart_locker_iot.Prelude.Dict
use smart_locker_iot.Prelude.Dict.{Dict, NodupKeys}
use smart_locker_iot.Prelude.Int.{ℤ}
use smart_locker_iot.Python.{
  Value, list_of-items_of, null, default, value_of, none_key, int_key, Key, key_eq, key_of, index,
  get, get_or, iterate, ok,
}
use smart_locker_iot.Python.Exec as Exec
use smart_locker_iot.Python.Exec.{Exec}
use smart_locker_iot.Database.Tables.{LockerRow, Database, Sql, done, refused, broken, not_null}
use smart_locker_iot.Database.Tables as Sql
use smart_locker_iot.Database.Methods.{belongs, int_value, answer, lockers_of, get_lockers}
use smart_locker_iot.CabinetState.Keyed.{AllKeyed, IsKeyed, by_field-step}
use smart_locker_iot.CabinetState.Effects.{cabinets-restore, label_location_same}
use smart_locker_iot.CabinetState.{
  CabinetState, content, cabinet_table, by_field, all_cabinets, load_one, create, file_value,
  restore, load_lockers, load, label_location, location_label,
}

-- Reading back the values of a dictionary gives the dictionary.
by_field-values :
    (d acc : Dict Key Value)
    → NodupKeys (acc ++ d)
    → AllKeyed d
    → by_field "id" (Dict.values d) acc ≡ ok (acc ++ d)
by_field-values [] acc u h = unfold by_field in rw append-nil
by_field-values ((k, c) ∷ d) acc u (hc, h) =
    by_field-step c (Dict.values d) acc k hc
    ∙ rw (Dict.insert-fresh k c acc (Dict.get_before acc k c d u))
        (by_field-values d (acc ++ (k, c) ∷ []) (rw append_assoc u) h ∙ rw append_assoc)

-- The cabinets read from the file of a state are its cabinets.
cabinet_table-file_value :
    (s : CabinetState) → IsKeyed s → cabinet_table (file_value s) ≡ ok s.cabinets
unfolding cabinet_table get_or iterate all_cabinets
cabinet_table-file_value s inv =
    rw list_of-items_of (by_field-values s.cabinets [] inv.distinct inv.keyed)

abbrev slot_key : Option ℤ → Key
slot_key none = none_key
slot_key (some n) = int_key n

key_of-int_value : (o : Option ℤ) → key_of (int_value o) ≡ ok (slot_key o)
unfolding key_of
key_of-int_value none = refl
key_of-int_value (some n) = refl

-- The rows of a table come back as a dictionary by slot: no hash fails.
by_field-lockers_of :
    (c : String) (rows : Dict String LockerRow) (acc : Dict Key Value)
    → (d : Dict Key Value) × (by_field "slot_index" (lockers_of c rows) acc ≡ ok d)
unfolding by_field lockers_of index
by_field-lockers_of c [] acc = (acc, refl)
by_field-lockers_of c ((id, row) ∷ rows) acc = elim (Bool-cases (belongs c row)) [
  | inl e ↦
      rw (e, key_of-int_value row.slot_index)
        (by_field-lockers_of c rows (Dict.insert (slot_key row.slot_index) _ acc))
  | inr e ↦ rw e (by_field-lockers_of c rows acc)
]

by_field-get_lockers :
    (v : Value) (d : Database)
    → (t : Dict Key Value) × (by_field "slot_index" (get_lockers v d) [] ≡ ok t)
unfolding get_lockers Sql.◌>>=◌
by_field-get_lockers v d = go d.reachable (not_null (d.driver.text v))
  where
    go :
        (up : Bool) (c : Sql String)
        → (t : Dict Key Value) × (by_field "slot_index"
              (if up then answer (Sql.◌>>=◌ c (λ k. done (lockers_of k d.tables.lockers))) else [])
              []
            ≡ ok t)
    go false c = ([], unfold by_field in refl)
    go true (done c) = by_field-lockers_of c d.tables.lockers []
    go true refused = ([], unfold by_field in refl)
    go true (broken e) = ([], unfold by_field in refl)

load_one_lem :
    (key : Key) (s : CabinetState)
    → ((load_one key s).0 ≡ ok tt) × ((load_one key s).1.location ≡ s.location)
unfolding load_one
load_one_lem key s = elim (Option-cases s.db) [
  | inl e ↦ ground arith
  | inr (d, e) ↦ let (t, h) = by_field-get_lockers (value_of key) d in ground (arith)
]

load_lockers_lem :
    (keys : List Key) (s : CabinetState)
    → ((load_lockers keys s).0 ≡ ok tt) × ((load_lockers keys s).1.location ≡ s.location)
unfolding load_lockers
load_lockers_lem [] s = (refl, refl)
load_lockers_lem (key ∷ keys) s =
    ground (arith, load_one_lem key s, load_lockers_lem keys (load_one key s).1)

restore_lem :
    (v : Value) (s : CabinetState) (l : Option Value) (table : Dict Key Value)
    → get "location" v ≡ ok l
    → cabinet_table v ≡ ok table
    → ((restore v s).0 ≡ ok tt) × ((restore v s).1.location ≡ default null l)
unfolding restore
restore_lem v s l table h₁ h₂ = ground (
  arith,
  load_lockers_lem (Dict.keys table) (record s { location = default null l; cabinets = table }),
)

label_location_lem :
    (m : Exec CabinetState (Unit {0})) (s : CabinetState) (x : Option Value)
    → (m s).0 ≡ ok tt
    → location_label (m s).1.location ≡ ok x
    → ((Exec.◌>>◌ m label_location) s).0 ≡ ok tt
unfolding label_location Exec.◌>>◌ Exec.◌>>=◌
label_location_lem m s x h k = ground arith

-- A restart from a file that holds `file_value s`.
pub create-file_value :
    (s : CabinetState) (writable : Bool) (db : Option Database) (x : Option Value)
    → IsKeyed s
    → location_label s.location ≡ ok x
    → let r = create (content (file_value s)) writable db in
      (r.0 ≡ ok tt) × (r.1.location ≡ s.location) × (r.1.cabinets ≡ s.cabinets)
unfolding create load get
create-file_value s writable db x inv label =
    let empty : CabinetState = record {
      location = null;
      cabinets = [];
      lockers = [];
      file = content (file_value s);
      writable = writable;
      db = db;
    } in
    let table = cabinet_table-file_value s inv in
    let (returns, kept) =
      restore_lem (file_value s) empty (some s.location) s.cabinets refl table in
    let same = label_location_same (restore (file_value s)) empty in
    (
      label_location_lem (restore (file_value s)) empty x returns (ap location_label kept ∙ label),
      ap (λ t. t.location) same ∙ kept,
      ap (λ t. t.cabinets) same
          ∙ cabinets-restore (file_value s) empty (some s.location) s.cabinets refl table,
    )
