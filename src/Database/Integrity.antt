-- ===== src/Database/Integrity.antt =====
-- Referential integrity of the tables (infracstructure/database.py): keys are unique and foreign keys
-- refer to rows that are there, across every method that writes.
use smart_locker_iot.Prelude.{
  String, Bool, true, false, ◌≡◌, refl, Option, none, some, List, [], ◌∷◌, ◌||◌, arith, ◌==◌,
  string_eq, if◌then◌else◌,
}
use smart_locker_iot.Prelude.Dict
use smart_locker_iot.Prelude.Dict.{Dict}
use smart_locker_iot.Python.{Value, Fields, ok}
use smart_locker_iot.Database.Tables.{
  LocationRow, CabinetRow, LockerRow, MqttLog, MqttConfig, LockerEvent, Tables, Database, Sql, done,
  refused, broken, known, transact, finish,
}
use smart_locker_iot.Database.Ensures.{
  Ensures, Ensures-done, Ensures-refused, Ensures-bind, Ensures-bind_with, Ensures-if,
}
use smart_locker_iot.Database.Methods.{
  Write, setting, mqtt, config, event, mqtt_row, event_row, location, cabinet, lockers, clear,
  perform, insert_location, insert_cabinet, insert_locker, insert_lockers, without_lockers,
  replace_lockers,
}
use smart_locker_iot.Database.Appended.{append-NodupKeys, append-AllValues}

-- A foreign key that refers to nothing, or to a row that is there.
abbrev pub Refers {ℓ} : {V : Type ℓ} → Option String → Dict String V → Type 0
Refers k d = known k d ≡ true

pub record Integrity (t : Tables) : Type 0 where
  pub location_keys : Dict.NodupKeys t.locations
  pub cabinet_keys : Dict.NodupKeys t.cabinets
  pub locker_keys : Dict.NodupKeys t.lockers
  pub cabinet_refs : Dict.AllValues (λ row. Refers row.location_id t.locations) t.cabinets
  pub locker_refs : Dict.AllValues (λ row. Refers row.cabinet_id t.cabinets) t.lockers

-- What holds of the tables before and of what the block leaves holds after a transaction.
transact-inv :
    (P : Tables → Type 0) (body : Database → Sql Tables) (db : Database)
    → Ensures P (body db)
    → P db.tables
    → P (transact body db).1.tables
unfolding transact
transact-inv P body db h p = go db.reachable (body db) h
  where
    go :
        (up : Bool) (m : Sql Tables)
        → Ensures P m
        → P (if up then finish m db else (ok tt, db)).1.tables
    go false m h = p
    go true (done t) h = h.at t refl
    go true refused h = p
    go true (broken e) h = p

known-insert {ℓ} :
    {V : Type ℓ} (k : Option String) (j : String) (v : V) (d : Dict String V)
    → Refers k d
    → Refers k (Dict.insert j v d)
known-insert none j v d h = refl
known-insert (some k) j v d h = ground (arith, Dict.get-insert j k v d)

module _ (t : Tables) (inv : Integrity t) where
  put_location-Integrity :
      (id : String) (row : LocationRow)
      → Integrity (record t { locations = Dict.insert id row t.locations })
  put_location-Integrity id row = record {
    location_keys = Dict.insert-NodupKeys id row t.locations inv.location_keys;
    cabinet_keys = inv.cabinet_keys;
    locker_keys = inv.locker_keys;
    cabinet_refs =
        Dict.AllValues-map _ _ t.cabinets (λ c h. known-insert c.location_id id row t.locations h)
          inv.cabinet_refs;
    locker_refs = inv.locker_refs;
  }

  put_cabinet-Integrity :
      (id : String) (row : CabinetRow)
      → Refers row.location_id t.locations
      → Integrity (record t { cabinets = Dict.insert id row t.cabinets })
  put_cabinet-Integrity id row h = record {
    location_keys = inv.location_keys;
    cabinet_keys = Dict.insert-NodupKeys id row t.cabinets inv.cabinet_keys;
    locker_keys = inv.locker_keys;
    cabinet_refs = Dict.insert-AllValues _ id row t.cabinets h inv.cabinet_refs;
    locker_refs =
        Dict.AllValues-map _ _ t.lockers (λ l r. known-insert l.cabinet_id id row t.cabinets r)
          inv.locker_refs;
  }

-- What the locker rows keep while `save_lockers` inserts.
abbrev LockersFit : Dict String CabinetRow → Dict String LockerRow → Type 0
LockersFit cabinets rows =
    Dict.NodupKeys rows × Dict.AllValues (λ row. Refers row.cabinet_id cabinets) rows

module _ (db : Database) (cabinets : Dict String CabinetRow) (cabinet_id : Option String) where
  insert_locker-fit :
      (item : Value) (rows : Dict String LockerRow)
      → LockersFit cabinets rows
      → Ensures (LockersFit cabinets) (insert_locker db cabinets cabinet_id item rows)
  unfolding insert_locker
  insert_locker-fit item rows (u, all) = Ensures-bind _ _ λ a.
      Ensures-if (known (some a.id) rows) _ _ (λ _. Ensures-refused)
        λ new.
          Ensures-if (known cabinet_id cabinets) _ _
            (λ there.
              Ensures-done _ _
                (append-NodupKeys a.id _ rows new u, append-AllValues _ a.id _ rows there all))
            λ _. Ensures-refused

  insert_lockers-fit :
      (items : List Value) (rows : Dict String LockerRow)
      → LockersFit cabinets rows
      → Ensures (LockersFit cabinets) (insert_lockers db cabinets cabinet_id items rows)
  unfolding insert_lockers
  insert_lockers-fit [] rows fit = Ensures-done _ _ fit
  insert_lockers-fit (item ∷ items) rows fit =
      Ensures-bind_with _ _ _ (insert_locker-fit item rows fit) (insert_lockers-fit items)

without_lockers-fit :
    (c : Option String) (cabinets : Dict String CabinetRow) (rows : Dict String LockerRow)
    → LockersFit cabinets rows
    → LockersFit cabinets (without_lockers c rows)
without_lockers-fit none cabinets rows fit = fit
without_lockers-fit (some c) cabinets rows (u, all) =
    (Dict.reject-NodupKeys _ rows u, Dict.reject-AllValues _ _ rows all)

module _ (db : Database) (inv : Integrity db.tables) where
  replace_lockers-Integrity :
      (cabinet_id : Value) (items : List Value)
      → Ensures Integrity (replace_lockers cabinet_id items db)
  unfolding replace_lockers
  replace_lockers-Integrity cabinet_id items = Ensures-bind _ _ λ c.
      Ensures-bind_with _ _ _
        (insert_lockers-fit db db.tables.cabinets c items _ (
          without_lockers-fit c db.tables.cabinets db.tables.lockers
            (inv.locker_keys, inv.locker_refs)))
        λ rows (u, all). Ensures-done _ _ (record {
          location_keys = inv.location_keys;
          cabinet_keys = inv.cabinet_keys;
          locker_keys = u;
          cabinet_refs = inv.cabinet_refs;
          locker_refs = all;
        })

  insert_location-Integrity : (fs : Fields) → Ensures Integrity (insert_location fs db)
  unfolding insert_location
  insert_location-Integrity fs = Ensures-bind _ _ λ id. Ensures-bind _ _ λ name.
      Ensures-bind _ _ λ address. Ensures-done _ _ (put_location-Integrity db.tables inv id _)

  insert_cabinet-Integrity : (fs : Fields) → Ensures Integrity (insert_cabinet fs db)
  unfolding insert_cabinet
  insert_cabinet-Integrity fs = Ensures-bind _ _ λ id. Ensures-bind _ _ λ row.
      Ensures-if _ _ _
        (λ there. Ensures-done _ _ (put_cabinet-Integrity db.tables inv id row there))
        λ _. Ensures-refused

  -- A method that leaves these three tables alone.
  logs-Integrity :
      (logs : List MqttLog) (events : List LockerEvent) (one_row : Option MqttConfig)
      (settings : Dict String (Option String))
      → Integrity (record db.tables {
        mqtt_logs = logs;
        locker_events = events;
        mqtt_config = one_row;
        system_settings = settings;
      })
  logs-Integrity logs events one_row settings = record {
    location_keys = inv.location_keys;
    cabinet_keys = inv.cabinet_keys;
    locker_keys = inv.locker_keys;
    cabinet_refs = inv.cabinet_refs;
    locker_refs = inv.locker_refs;
  }

-- Every method that writes keeps the keys unique and the foreign keys satisfied, whether it commits,
-- is refused, meets an unreachable server or raises.
pub perform-Integrity :
    (w : Write) (db : Database) → Integrity db.tables → Integrity (perform w db).1.tables
unfolding perform
perform-Integrity (setting key value) db inv =
    transact-inv Integrity _ db
      (Ensures-done _ _
        (logs-Integrity db inv db.tables.mqtt_logs db.tables.locker_events db.tables.mqtt_config _))
      inv
perform-Integrity (mqtt topic payload direction) db inv =
    transact-inv Integrity _ db
      (Ensures-if (direction == "IN" || direction == "OUT") _ _
        (λ _. Ensures-done _ _ (
          logs-Integrity db inv _ db.tables.locker_events db.tables.mqtt_config
            db.tables.system_settings))
        λ _. Ensures-refused)
      inv
perform-Integrity (location fs) db inv =
    transact-inv Integrity _ db (insert_location-Integrity db inv fs) inv
perform-Integrity (cabinet fs) db inv =
    transact-inv Integrity _ db (insert_cabinet-Integrity db inv fs) inv
perform-Integrity (lockers cabinet_id items) db inv =
    transact-inv Integrity _ db (replace_lockers-Integrity db inv cabinet_id items) inv
perform-Integrity (config fs) db inv =
    transact-inv Integrity _ db
      (Ensures-bind (mqtt_row fs db) _ λ row. Ensures-done _ _ (
        logs-Integrity db inv db.tables.mqtt_logs db.tables.locker_events (some row)
          db.tables.system_settings))
      inv
perform-Integrity (event a) db inv =
    transact-inv Integrity _ db
      (Ensures-bind (event_row a db) _ λ row. Ensures-done _ _ (
        logs-Integrity db inv db.tables.mqtt_logs _ db.tables.mqtt_config
          db.tables.system_settings))
      inv
perform-Integrity clear db inv =
    transact-inv Integrity _ db
      (Ensures-done _ _ (record {
        location_keys = tt;
        cabinet_keys = tt;
        locker_keys = tt;
        cabinet_refs = tt;
        locker_refs = tt;
      }))
      inv
