-- ===== src/Service/Invariants.antt =====
-- The invariant of the cabinet state over the whole life of the gateway that main.py starts.
use smart_locker_iot.Prelude.{Bool, Option, List, [], String, ◌≡◌, refl}
use smart_locker_iot.Python.{Value, null}
use smart_locker_iot.Database.Tables.{Database}
use smart_locker_iot.CabinetState.{CabinetState, StateFile, create, reload, run}
use smart_locker_iot.CabinetState.Keyed.{IsKeyed, run-IsKeyed, write-IsKeyed}
use smart_locker_iot.CabinetState.Stored.{IsStored, run-IsStored, write-IsStored}
use smart_locker_iot.Gateway.{SerialPort, Gateway}
use smart_locker_iot.Heartbeat.{publish_all_heartbeats}
use smart_locker_iot.Locker.{handle_open_command, handle_close_command, handle_door_event}
use smart_locker_iot.Service.{Event, start_up, react_all}
use smart_locker_iot.Service.Handlers.{
  Keeps-handle_open, Keeps-handle_close, Keeps-handle_door, Keeps-publish_all,
}
use smart_locker_iot.Service.Reach.{IsKept, Keeps-start_up, Keeps-react_all}

-- Every cabinet stands under its own id, once, and the database satisfies its keys and foreign keys.
pub record IsConsistent (s : CabinetState) : Type 0 where
  pub keyed : IsKeyed s
  pub stored : IsStored s.db

pub IsConsistent-IsKept : IsKept (λ s _. IsConsistent s)
IsConsistent-IsKept = record {
  calls = λ c s _ h. record { keyed = run-IsKeyed s h.keyed c; stored = run-IsStored s h.stored c };
  opens = λ s topics name h. h;
  writes =
      λ w s _ h. record { keyed = write-IsKeyed s h.keyed w; stored = write-IsStored s h.stored w };
}

pub create-IsConsistent :
    (file : StateFile) (writable : Bool) (db : Option Database)
    → IsStored db
    → IsConsistent (create file writable db).1
unfolding create run
create-IsConsistent file writable db h = record {
  keyed = run-IsKeyed empty (record { distinct = tt; keyed = tt }) reload;
  stored = run-IsStored empty h reload;
}
  where
    empty : CabinetState
    empty = record {
      location = null;
      cabinets = [];
      lockers = [];
      file = file;
      writable = writable;
      db = db;
    }

module _ {P : SerialPort} where
  -- Started on any state file and any database that satisfies its constraints, the gateway keeps every
  -- cabinet under its own id, once, and the database's keys unique and its foreign keys satisfied, after
  -- any sequence of commands, thread runs, door events and heartbeats, on any serial port, whatever they
  -- raise.
  life-IsConsistent :
      (g : Gateway P) (file : StateFile) (writable : Bool) (db : Option Database)
      → IsStored db
      → (es : List Event)
      → IsConsistent
          (react_all es (start_up (record g { cabinets = (create file writable db).1 })).1).cabinets
  life-IsConsistent g file writable db h es =
      Keeps-react_all IsConsistent-IsKept es _
        ((Keeps-start_up {Inv = IsConsistent}).at _ (create-IsConsistent file writable db h))

  -- A command to open or to close, a door event and a round of heartbeats leave the cabinet state, its
  -- file and its database as they were.
  pub handlers_same :
      (topic : String) (payload slot : Value) (event : String) (slave : Value) (g : Gateway P)
      → ((handle_open_command topic payload g).1.cabinets ≡ g.cabinets)
        × ((handle_close_command topic payload g).1.cabinets ≡ g.cabinets)
        × ((handle_door_event slot event slave g).1.cabinets ≡ g.cabinets)
        × ((publish_all_heartbeats g).1.cabinets ≡ g.cabinets)
  handlers_same topic payload slot event slave g = (
    (Keeps-handle_open {Inv = λ s _. s ≡ g.cabinets} topic payload).at g refl,
    (Keeps-handle_close {Inv = λ s _. s ≡ g.cabinets} topic payload).at g refl,
    (Keeps-handle_door {Inv = λ s _. s ≡ g.cabinets} slot event slave).at g refl,
    (Keeps-publish_all {Inv = λ s _. s ≡ g.cabinets}).at g refl,
  )
