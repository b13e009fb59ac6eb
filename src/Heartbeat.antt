-- ===== src/Heartbeat.antt =====
-- services/heartbeat_service.py: the table of hardware states and the heartbeats.
pub mod Status
use smart_locker_iot.Prelude.{
  ℕ, zero, suc, ◌+◌, ◌*◌, String, ◌<>◌, Bool, true, false, not, Option, none, some, List, [], ◌∷◌,
  ◌++◌, if◌then◌else◌, string_eq,
}
use smart_locker_iot.Prelude.Dict
use smart_locker_iot.Prelude.Dict.{Dict}
use smart_locker_iot.Prelude.Int.{ℤ, pos, negsuc}
use smart_locker_iot.Python.{
  as_number, Value, null, bool, num, str, arr, items_of, Key, key_eq, key_of, default, get_or,
  index, truthy, Result, ok, raise, type_error,
}
use smart_locker_iot.Python.Text.{format}
use smart_locker_iot.Python.Exec.{Exec, pure, lift, gets, modify, ◌>>=◌, ◌>>◌}
use smart_locker_iot.CabinetState.{
  get_cabinet_by_id, get_locker_by_slot, all_cabinets, is_configured,
}
use smart_locker_iot.Gateway.{
  SerialPort, Gateway, Heartbeat, dict, without_none, on_cabinets, timestamp, publish,
}
use smart_locker_iot.Domain.{heartbeat_to_json}

abbrev pub or_empty {ℓ} : {A : Type ℓ} → Option (List A) → List A
or_empty none = []
or_empty (some d) = d

-- How many turns `range(a * b)` takes.
unfoldable pub turns : ℤ → ℤ → ℕ
turns (pos a) (pos b) = a * b
turns (negsuc a) (negsuc b) = suc a * suc b
turns _ _ = 0

-- The id of a locker, or `unknown-…`.
unfoldable pub locker_name : Value → Value → Result Value
locker_name locker_info slot =
    if truthy locker_info then index "id" locker_info else ok (str ("unknown-" <> format slot))

module _ {P : SerialPort} where
  -- self._locker_states[cabinet_id][slot_index] = hw_state, after `setdefault`.
  unfoldable pub update_locker_state : Value → Value → String → Exec (Gateway P) (Unit {0})
  update_locker_state cabinet_id slot_index hw_state = do
    cabinet ← lift (key_of cabinet_id)
    let set = λ (states : Dict Key (Dict Key Value)) (g : Gateway P). record g {
      heartbeat = record g.heartbeat { locker_states = states };
    }
    modify (λ g.
        set
          (Dict.insert cabinet (or_empty (Dict.get cabinet g.heartbeat.locker_states))
            g.heartbeat.locker_states)
          g)
    slot ← lift (key_of slot_index)
    modify (λ g.
        set
          (Dict.insert cabinet
            (Dict.insert slot (str hw_state)
              (or_empty (Dict.get cabinet g.heartbeat.locker_states)))
            g.heartbeat.locker_states)
          g)

  -- The entry of one slot: its hardware state is CLOSING until one is known.
  unfoldable pub slot_status : Value → Dict Key Value → ℕ → Exec (Gateway P) Value
  slot_status cabinet_id states slot = do
    locker_info ← on_cabinets (get_locker_by_slot cabinet_id (num (pos slot)))
    id ← lift (locker_name locker_info (num (pos slot)))
    key ← lift (key_of (num (pos slot)))
    pure (
        dict (
          ("lockerId", id)
          ∷ ("slotIndex", num (pos slot))
          ∷ ("hwState", default (str "CLOSING") (Dict.get key states))
          ∷ []))

  -- The loop over `range(total_slots)`, from `slot` on for `count` turns.
  unfoldable pub slot_statuses : Value → Dict Key Value → ℕ → ℕ → Exec (Gateway P) (List Value)
  slot_statuses cabinet_id states slot zero = pure []
  slot_statuses cabinet_id states slot (suc count) = do
    entry ← slot_status cabinet_id states slot
    rest ← slot_statuses cabinet_id states (suc slot) count
    pure (entry ∷ rest)

  -- `_get_lockers_status` of a cabinet that was found.
  unfoldable pub cabinet_status : Value → Value → Exec (Gateway P) (List Value)
  cabinet_status cabinet_id cab = do
    rows ← lift (get_or "totalRows" (num (pos 0)) cab)
    columns ← lift (get_or "totalColumns" (num (pos 0)) cab)
    a ← lift (as_number rows)
    b ← lift (as_number columns)
    key ← lift (key_of cabinet_id)
    states ← gets (λ g. or_empty (Dict.get key g.heartbeat.locker_states))
    slot_statuses cabinet_id states 0 (turns a b)

  unfoldable pub get_lockers_status : Value → Exec (Gateway P) (List Value)
  get_lockers_status cabinet_id = do
    cab ← on_cabinets (get_cabinet_by_id cabinet_id)
    if truthy cab then cabinet_status cabinet_id cab else pure []

  unfoldable pub publish_single_heartbeat : Value → Exec (Gateway P) (Unit {0})
  publish_single_heartbeat cabinet = do
    cabinet_id ← lift (index "id" cabinet)
    cabinet_name ← lift (index "name" cabinet)
    now ← timestamp
    lockers ← get_lockers_status cabinet_id
    publish ("cabinet/" <> (format cabinet_name <> "/heartbeat"))
        (heartbeat_to_json (record {
          cabinet_id = cabinet_id;
          timestamp = now;
          status = "online";
          lockers = lockers;
          mac_address = null;
          uptime = null;
          cpu_temp = null;
          memory_usage = null;
        }))
        0

  unfoldable pub publish_heartbeats : List Value → Exec (Gateway P) (Unit {0})
  publish_heartbeats [] = pure tt
  publish_heartbeats (cab ∷ cabs) = do publish_single_heartbeat cab; publish_heartbeats cabs

  unfoldable pub publish_all_heartbeats : Exec (Gateway P) (Unit {0})
  publish_all_heartbeats = do cabs ← gets (λ g. all_cabinets g.cabinets); publish_heartbeats cabs

  -- start: nothing happens without a cabinet, or while it runs.
  unfoldable pub start : Exec (Gateway P) (Unit {0})
  start g =
      if not (is_configured g.cabinets)
      then (ok tt, g)
      else if g.heartbeat.running
      then (ok tt, g)
      else (ok tt, record g { heartbeat = record g.heartbeat { running = true } })

  unfoldable pub stop : Exec (Gateway P) (Unit {0})
  stop = modify (λ g. record g { heartbeat = record g.heartbeat { running = false } })
