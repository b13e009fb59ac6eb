-- ===== src/Database/Tables.antt =====
-- The tables of `_init_db` and the transactions of infracstructure/database.py. A table with a
-- primary key is a dictionary by that key; the constraints of the schema make a statement fail.
-- Rows are scanned in the order in which they were inserted.
use smart_locker_iot.Prelude.{
  ℕ, String, Bool, true, false, Option, none, some, List, string_eq, if◌then◌else◌,
}
use smart_locker_iot.Prelude.Dict
use smart_locker_iot.Prelude.Dict.{Dict}
use smart_locker_iot.Prelude.Int.{ℤ}
use smart_locker_iot.Python.{Value, Result, Fault, ok, raise}
use smart_locker_iot.Python.Exec.{Exec}

-- How the driver and the server take a value for a column: `none` if they refuse it, and
-- `some none` for NULL. PostgreSQL and psycopg2 are not part of the repository.
pub record Driver : Type 0 where
  pub text : Value → Option (Option String)
  pub integer : Value → Option (Option ℤ)
  pub boolean : Value → Option (Option Bool)

pub record LocationRow : Type 0 where
  pub name : Option String
  pub address : Option String
  pub updated_at : ℕ

pub record CabinetRow : Type 0 where
  pub location_id : Option String
  pub name : Option String
  pub total_rows : Option ℤ
  pub total_columns : Option ℤ
  pub slave_id : Option ℤ
  pub heartbeat_interval : Option ℤ
  pub is_synced : Option Bool
  pub updated_at : ℕ

pub record LockerRow : Type 0 where
  pub cabinet_id : Option String
  pub slot_index : Option ℤ
  pub locker_label : Option String
  pub updated_at : ℕ

pub record MqttLog : Type 0 where
  pub topic : String
  pub payload : Option String
  pub direction : String
  pub timestamp : ℕ

pub record LockerEvent : Type 0 where
  pub locker_id : Option String
  pub slot_index : Option ℤ
  pub event_type : String
  pub status : Option String
  pub message : Option String
  pub command_id : Option String
  pub timestamp : ℕ

-- The one row of `mqtt_config`.
pub record MqttConfig : Type 0 where
  pub broker : String
  pub port : ℤ
  pub username : Option String
  pub password : Option String
  pub use_tls : Option Bool

-- The logs stand in the order of their `id`.
pub record Tables : Type 0 where
  pub mqtt_logs : List MqttLog
  pub locker_events : List LockerEvent
  pub locations : Dict String LocationRow
  pub cabinets : Dict String CabinetRow
  pub lockers : Dict String LockerRow
  pub mqtt_config : Option MqttConfig
  pub system_settings : Dict String (Option String)

-- `reachable`: the connection can be opened. `now`: CURRENT_TIMESTAMP.
pub record Database : Type 0 where
  pub driver : Driver
  pub reachable : Bool
  pub now : ℕ
  pub tables : Tables

-- A statement gives a result, is refused by the server, or the code between raises.
pub data Sql {ℓ} (A : Type ℓ) : Type ℓ where
  done : A → Sql A
  refused : Sql A
  broken : Fault → Sql A

infixl 5 ◌>>=◌
unfoldable pub ◌>>=◌ {ℓ κ} : {A : Type ℓ} {B : Type κ} → Sql A → (A → Sql B) → Sql B
done a >>= f = f a
refused >>= f = refused
broken e >>= f = broken e

-- A bound parameter: `none` is a refusal of the driver.
abbrev pub bind {ℓ} : {A : Type ℓ} → Option A → Sql A
bind none = refused
bind (some a) = done a

-- A NOT NULL column.
abbrev pub not_null {ℓ} : {A : Type ℓ} → Option (Option A) → Sql A
not_null none = refused
not_null (some none) = refused
not_null (some (some a)) = done a

abbrev pub python {ℓ} : {A : Type ℓ} → Result A → Sql A
python (ok a) = done a
python (raise e) = broken e

-- REFERENCES: NULL refers to nothing, and any other value has to be a key.
abbrev pub known {ℓ} : {V : Type ℓ} → Option String → Dict String V → Bool
known none d = true
known (some k) d = elim (Dict.get k d) [ none ↦ false | some v ↦ true ]

abbrev pub finish : Sql Tables → Database → Result (Unit {0}) × Database
finish (done t) db = (ok tt, record db { tables = t })
finish refused db = (ok tt, db)
finish (broken e) db = (raise e, db)

-- One `with self._get_connection()` block: committed at its end, rolled back if anything fails. An
-- error of psycopg2 is logged and swallowed, any other exception goes on.
unfoldable pub transact : (Database → Sql Tables) → Exec Database (Unit {0})
transact body db = if db.reachable then finish (body db) db else (ok tt, db)

-- A query: `d` is returned where psycopg2 fails.
abbrev pub query {ℓ} : {A : Type ℓ} → A → Database → A → A
query d db answer = if db.reachable then answer else d
