-- ===== src/Boot/Recovered.antt =====
-- main.py on a cabinet state that was recovered from the database (infracstructure/cabinet_state.py
-- with infracstructure/database.py).
use smart_locker_iot.Prelude.{
  ◌<◌, true, String, Bool-cases, Option, some, List, [], ◌∷◌, ◌≡◌, refl, ap, ◌∙◌, subst, sym, arith,
  string_eq, ◌==◌, inl, inr, ltb,
}
use smart_locker_iot.Prelude.Dict
use smart_locker_iot.Prelude.Dict.{Dict}
use smart_locker_iot.Prelude.Lists.{All, length}
use smart_locker_iot.Python.{
  Value, Fields, null, obj, list_of-items_of, Key, key_eq, str_key, key_of, index, get, get_or,
  iterate, default, Result, Fault, key_error, ok, raise, ◌>>=◌,
}
use smart_locker_iot.Database.Tables.{Database, CabinetRow}
use smart_locker_iot.Database.Methods.{
  get_cabinets, cabinet_list, cabinet_fields, get_location, location_fields,
}
use smart_locker_iot.CabinetState.{
  CabinetState, missing, create, restore, load_one, load_lockers, cabinet_table, by_field,
  database_data, is_configured, all_cabinets,
}
use smart_locker_iot.CabinetState.Effects.{cabinets-restore}
use smart_locker_iot.CabinetState.Recovery.{HasCabinet, empty, create-database_data}
use smart_locker_iot.Settings.{Settings}
use smart_locker_iot.Boot.{configure, log_cabinets, log_state, boot}

-- A cabinet with a name and no `slaveId`.
IsRecovered : Value → Type 0
IsRecovered c =
    ((v : Value) × (index "name" c ≡ ok v)) × (index "slaveId" c ≡ raise (key_error "slaveId"))

abbrev AllRecovered : Dict Key Value → Type 0
AllRecovered d = All IsRecovered (Dict.values d) × (0 < length (Dict.values d))

cabinet_fields-IsRecovered :
    (id : String) (row : CabinetRow) → IsRecovered (obj (cabinet_fields id row))
unfolding IsRecovered cabinet_fields index
cabinet_fields-IsRecovered id row = ((_, refl), refl)

insert-AllRecovered :
    (k : Key) (c : Value) (d : Dict Key Value)
    → IsRecovered c
    → All IsRecovered (Dict.values d)
    → AllRecovered (Dict.insert k c d)
unfolding Dict.insert
insert-AllRecovered k c [] h all = ((h, tt), omega arith)
insert-AllRecovered k c ((j, w) ∷ d) h (hw, all) = elim (Bool-cases (j == k)) [
  | inl e ↦ rw e ((h, all), omega arith)
  | inr e ↦ rw e ((hw, (insert-AllRecovered k c d h all).0), omega arith)
]

by_field-AllRecovered :
    (rows : Dict String CabinetRow) (acc : Dict Key Value)
    → AllRecovered acc
    → (d : Dict Key Value) × (by_field "id" (cabinet_list rows) acc ≡ ok d) × AllRecovered d
unfolding by_field cabinet_list index key_of
by_field-AllRecovered [] acc h = (acc, refl, h)
by_field-AllRecovered ((id, row) ∷ rows) acc h =
    by_field-AllRecovered rows (Dict.insert (str_key id) (obj (cabinet_fields id row)) acc)
      (insert-AllRecovered (str_key id) _ acc (cabinet_fields-IsRecovered id row) h.0)

log_cabinets-AllRecovered :
    (cabs : List Value)
    → All IsRecovered cabs
    → 0 < length cabs
    → log_cabinets cabs ≡ raise (key_error "slaveId")
unfolding log_cabinets IsRecovered
log_cabinets-AllRecovered [] all h = absurd (omega (arith, h))
log_cabinets-AllRecovered (cab ∷ cabs) (((name, n), slave), all) h = rw (n, slave) refl

location-load_one : (key : Key) (s : CabinetState) → (load_one key s).1.location ≡ s.location
unfolding load_one
location-load_one key s = ground arith

location-load_lockers :
    (keys : List Key) (s : CabinetState) → (load_lockers keys s).1.location ≡ s.location
unfolding load_lockers
location-load_lockers [] s = refl
location-load_lockers (key ∷ keys) s =
    ground (arith, location-load_one key s, location-load_lockers keys (load_one key s).1)

location-restore :
    (v : Value) (s : CabinetState) (l : Option Value) (table : Dict Key Value)
    → get "location" v ≡ ok l
    → cabinet_table v ≡ ok table
    → (restore v s).1.location ≡ default null l
unfolding restore
location-restore v s l table h₁ h₂ = ground (
  arith,
  location-load_lockers (Dict.keys table)
      (record s { location = default null l; cabinets = table }),
)

length-values : (d : Dict Key Value) → length (Dict.values d) ≡ length d
length-values [] = refl
length-values (e ∷ d) = omega (arith, length-values d)

log_state-AllRecovered :
    (s : CabinetState) (location : Fields)
    → s.location ≡ obj location
    → AllRecovered s.cabinets
    → log_state s ≡ raise (key_error "slaveId")
unfolding log_state is_configured all_cabinets get
log_state-AllRecovered s location e (all, more) =
    let counted : ltb 0 (length s.cabinets) ≡ true =
      ground (arith, length-values s.cabinets, more) in
    rw (e, counted) (log_cabinets-AllRecovered (Dict.values s.cabinets) all more)

module _ (d : Database) (h : HasCabinet d) where
  abbrev recovered : CabinetState
  recovered = (create missing true (some d)).1

  cabinet_table-AllRecovered :
      (t : Dict Key Value) × (cabinet_table (database_data d) ≡ ok t) × AllRecovered t
  unfolding cabinet_table get_or iterate get_cabinets Dict.insert by_field index key_of
  cabinet_table-AllRecovered =
      rw (h.up, list_of-items_of, h.cabinets)
        (by_field-AllRecovered h.other_cabinets
          (Dict.insert (str_key h.cabinet_id) (obj (cabinet_fields h.cabinet_id h.cabinet)) [])
          ((cabinet_fields-IsRecovered h.cabinet_id h.cabinet, tt), omega arith))

  log_state-recovered : log_state recovered ≡ raise (key_error "slaveId")
  unfolding get get_location
  log_state-recovered =
      let (t, found, all) = cabinet_table-AllRecovered in
      let restored = create-database_data d h in
      let l = some (get_location d) in
      log_state-AllRecovered recovered (location_fields h.location_id h.location)
        (ap (λ s. s.location) restored
          ∙ location-restore (database_data d) (empty d h) l t refl found
          ∙ rw (h.up, h.locations) refl)
        (subst AllRecovered
          (sym (
            ap (λ s. s.cabinets) restored
            ∙ cabinets-restore (database_data d) (empty d h) l t refl found))
          all)

abbrev pub Raises : {A : Type 0} → Result A → Type 0
Raises r = (x : Fault) × (r ≡ raise x)

Raises-bind :
    {A B : Type 0} (r : Result A) (f : A → Result B) → ((a : A) → Raises (f a)) → Raises (r >>= f)
Raises-bind (ok a) f h = h a
Raises-bind (raise x) f h = (x, refl)

Raises-first :
    {A B : Type 0} {x : Fault} (r : Result A) (f : A → Result B) → r ≡ raise x → Raises (r >>= f)
Raises-first {x} r f e = rw e (x, refl)

-- A gateway whose file is lost, with a database that has a location and a cabinet, does not start: main
-- ends in an exception before any service runs.
pub boot_raise :
    (settings : Settings) (d : Database) → HasCabinet d → Raises (boot settings missing true d)
unfolding boot
boot_raise settings d h = Raises-bind (configure d settings) _ λ t.
    Raises-bind (create missing true (some d)).0 _
      λ loaded. Raises-first (log_state (recovered d h)) _ (log_state-recovered d h)
