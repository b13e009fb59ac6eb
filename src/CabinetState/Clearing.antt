-- ===== src/CabinetState/Clearing.antt =====
-- `clear` of `CabinetState` (infracstructure/cabinet_state.py): what goes, and what stays.
use smart_locker_iot.Prelude.{true, false, ◌≡◌, Option, none, some, [], arith}
use smart_locker_iot.Python.{Value, null, ok}
use smart_locker_iot.Database.Tables.{Database, transact}
use smart_locker_iot.Database.Methods.{clear_all_state, get_location}
use smart_locker_iot.CabinetState.{
  CabinetState, is_configured, get_locker_by_slot, clear, create, load_data,
}

-- The database, if there is one, can be reached.
abbrev pub IsReachable : Option Database → Type 0
IsReachable none = Unit
IsReachable (some d) = d.reachable ≡ true

-- After `clear` on a writable disk with a reachable database the gateway is not configured, and a
-- restart from what is left on disk and in the database loads nothing.
pub create-clear :
    (s : CabinetState)
    → s.writable ≡ true
    → IsReachable s.db
    → let t = (clear s).1 in
      let r = create t.file t.writable t.db in
      ((clear s).0 ≡ ok tt)
      × (is_configured t ≡ false)
      × (r.0 ≡ ok tt)
      × (r.1.location ≡ null)
      × (r.1.cabinets ≡ [])
unfolding clear create clear_all_state transact get_location is_configured load_data
create-clear s w reachable = ground arith

-- `clear` leaves the cache of lockers as it was: the lookup gives what it gave before.
get_locker_by_slot-clear :
    (s : CabinetState) (cabinet_id slot_index : Value)
    → (get_locker_by_slot cabinet_id slot_index (clear s).1).0
      ≡ (get_locker_by_slot cabinet_id slot_index s).0
unfolding clear get_locker_by_slot
get_locker_by_slot-clear s cabinet_id slot_index = ground arith
