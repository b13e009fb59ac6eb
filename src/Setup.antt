-- ===== src/Setup.antt =====
-- services/setup_handler.py: the setup of a gateway's cabinets.
pub mod Slot
pub mod Tested
pub mod Running
use smart_locker_iot.Prelude.{
  ℕ, zero, suc, ◌+◌, String, ◌<>◌, Bool, true, false, not, Option, none, some, List, [], ◌∷◌, ◌++◌,
  string_eq, ◌==◌, ltb, if◌then◌else◌,
}
use smart_locker_iot.Prelude.Lists.{length}
use smart_locker_iot.Prelude.Int.{ℤ, pos}
use smart_locker_iot.Python.{
  Value, null, bool, num, str, arr, nil, items_of, obj, Fields, default, get, get_or, index,
  iterate, truthy, same, or_else, Result, ok, raise,
}
use smart_locker_iot.Python.Exec.{Exec, pure, lift, gets, modify, attempt, ◌>>=◌, ◌>>◌}
use smart_locker_iot.CabinetState.{CabinetArgs, save_location, save_cabinet, save_lockers}
use smart_locker_iot.CabinetState as Cabinets
use smart_locker_iot.Gateway.{
  SerialPort, Gateway, setup, dict, on_cabinets, timestamp, publish, spawn,
}
use smart_locker_iot.Locker.{on_setup_complete}
use Slot.{
  Tally, judge, marked, slot_number, overall, progress_payload, locker_details, setup_result,
  cabinet_name,
}

-- MAX_SLOTS of infracstructure/serial_manager.py
abbrev pub max_slots : ℕ
max_slots = 6

-- What the loops of `_run_setup` share for one cabinet.
pub record Plan : Type 0 where
  pub command_id : Value
  pub prefix : String
  pub timeout : Value
  pub cabinet_id : Value
  pub name : Value
  pub slave_id : Value
  pub total : ℕ

abbrev pub counted : Fields → Tally → Tally
counted reply t = record {
  results = t.results ++ marked reply ∷ [];
  ok_count = (if (judge reply).passed then t.ok_count + 1 else t.ok_count);
  fail_count = (if (judge reply).passed then t.fail_count else t.fail_count + 1);
}

abbrev pub untested : Tally
untested = record { results = []; ok_count = 0; fail_count = 0 }

module _ {P : SerialPort} where
  unfoldable pub test_slot : Plan → ℤ → Exec (Gateway P) Fields
  test_slot p slot g =
      let (reply, port) = P.test_slot (num slot) p.slave_id p.timeout g.serial in
      (ok reply, record g { serial = port })

  -- One turn of the loop over the layout, for the slot at position `i`.
  unfoldable pub examine : Plan → ℕ → Value → ℤ → Tally → Exec (Gateway P) Tally
  examine p i slot n t = do
    reply ← test_slot p n
    row ← lift (get_or "row" (num (pos 0)) slot)
    column ← lift (get_or "column" (num (pos 0)) slot)
    now ← timestamp
    publish (p.prefix <> "/setup/progress")
        (progress_payload p.command_id p.cabinet_id n row column reply (i + 1) p.total
          (counted reply t) now)
        1
    pure (counted reply t)

  unfoldable pub visit : Plan → ℕ → Value → Option ℤ → Tally → Exec (Gateway P) Tally
  visit p i slot none t = pure t
  visit p i slot (some n) t = examine p i slot n t

  -- The loop over the layout from position `i` on.
  unfoldable pub test_slots : Plan → ℕ → List Value → Tally → Exec (Gateway P) Tally
  test_slots p i [] t = pure t
  test_slots p i (slot ∷ layout) t = do
    number ← lift (slot_number slot)
    t' ← visit p i slot number t
    test_slots p (i + 1) layout t'

  -- What is kept of a cabinet that did not fail.
  unfoldable pub keep_cabinet : Plan → Value → Value → Exec (Gateway P) (Unit {0})
  keep_cabinet p cab layout = do
    rows ← lift (get_or "totalRows" (num (pos 0)) cab)
    columns ← lift (get_or "totalColumns" (num (pos 0)) cab)
    on_cabinets (
        save_cabinet (record {
          cabinet_id = p.cabinet_id;
          name = p.name;
          total_rows = rows;
          total_columns = columns;
          slave_id = p.slave_id;
          heartbeat_interval = num (pos 60);
          is_synced = bool true;
        }))
    on_cabinets (save_lockers p.cabinet_id layout)
    on_setup_complete p.name

  -- The result of a cabinet is published, and the cabinet kept unless its status is FAILED.
  unfoldable pub conclude : Plan → Value → Value → List Value → Tally → Exec (Gateway P) (Unit {0})
  conclude p cab layout items t = do
    duration ← gets (λ g. g.stopwatch g.readings)
    details ← lift (locker_details items t.results)
    now ← timestamp
    publish (p.prefix <> "/setup/result")
        (setup_result p.command_id p.cabinet_id (overall t) p.total t duration details now) 1
    if overall t == "FAILED" then pure tt else keep_cabinet p cab layout

  unfoldable pub setup_cabinet : Value → String → Value → Value → Exec (Gateway P) (Unit {0})
  setup_cabinet command_id prefix timeout cab = do
    cabinet_id ← lift (index "cabinetId" cab)
    name ← lift (cabinet_name cabinet_id cab)
    slave_id ← lift (get_or "slaveId" (num (pos 1)) cab)
    layout ← lift (get_or "lockerLayout" (arr nil) cab)
    items ← lift (iterate layout)
    let p : Plan = record {
      command_id = command_id;
      prefix = prefix;
      timeout = timeout;
      cabinet_id = cabinet_id;
      name = name;
      slave_id = slave_id;
      total = length items;
    }
    t ← test_slots p 0 items untested
    conclude p cab layout items t

  unfoldable pub setup_cabinets : Value → String → Value → List Value → Exec (Gateway P) (Unit {0})
  setup_cabinets command_id prefix timeout [] = pure tt
  setup_cabinets command_id prefix timeout (cab ∷ cabs) = do
    setup_cabinet command_id prefix timeout cab
    setup_cabinets command_id prefix timeout cabs

  -- `cabinets_to_process`: a single setup is wrapped into a list.
  unfoldable pub cabinets_to_process : Bool → Value → Exec (Gateway P) (List Value)
  cabinets_to_process true payload = do
    cabinets ← lift (get_or "cabinets" (arr nil) payload)
    lift (iterate cabinets)
  cabinets_to_process false payload = do
    cabinet_id ← lift (index "cabinetId" payload)
    code ← lift (get_or "cabinetCode" (str "Unknown") payload)
    slave ← lift (get_or "slaveId" (num (pos 1)) payload)
    layout ← lift (get_or "lockerLayout" (arr nil) payload)
    rows ← lift (get_or "totalRows" (num (pos 0)) payload)
    columns ← lift (get_or "totalColumns" (num (pos 0)) payload)
    pure (
        dict (
          ("cabinetId", cabinet_id)
          ∷ ("cabinetCode", code)
          ∷ ("slaveId", slave)
          ∷ ("lockerLayout", layout)
          ∷ ("totalRows", rows)
          ∷ ("totalColumns", columns)
          ∷ [])
        ∷ [])

  -- The body of the `try` of `_run_setup`.
  unfoldable pub setup_body : Bool → Value → String → Value → Exec (Gateway P) (Unit {0})
  setup_body bulk payload prefix command_id = do
    timeout ← lift (get_or "testTimeout" (num (pos 10)) payload)
    cabs ← cabinets_to_process bulk payload
    if bulk then on_cabinets Cabinets.clear else pure tt
    location_id ← lift (get "locationId" payload)
    location_name ← lift (get "locationName" payload)
    address ← lift (get "address" payload)
    on_cabinets (
        save_location (or_else (default null location_id) (str "unknown-loc"))
          (or_else (default null location_name) (str "Unknown Location"))
          (or_else (default null address) (str "")))
    setup_cabinets command_id prefix timeout cabs

  unfoldable pub set_running : Bool → Exec (Gateway P) (Unit {0})
  set_running b = modify λ g. record g { setup_running = b }

  unfoldable pub run_setup : Value → String → Exec (Gateway P) (Unit {0})
  run_setup payload prefix = do
    set_running true
    action ← lift (get_or "action" (str "") payload)
    command_id ← lift (get_or "commandId" (str "no-id") payload)
    attempt (setup_body (same action (str "BULK_SETUP_LOCKERS")) payload prefix command_id)
    set_running false

  unfoldable pub report_failure : Value → String → Exec (Gateway P) (Unit {0})
  report_failure payload prefix = do
    command_id ← lift (get_or "commandId" (str "") payload)
    cabinet_id ← lift (get_or "cabinetId" (str "") payload)
    now ← timestamp
    publish (prefix <> "/setup/result")
        (setup_result command_id cabinet_id "FAILED" 0 untested (pos 0) [] now) 1

  -- `handle` once no setup runs.
  unfoldable pub admit : Bool → Value → String → Exec (Gateway P) (Unit {0})
  admit true payload prefix = do
    cabinets ← lift (get_or "cabinets" (arr nil) payload)
    if truthy cabinets then spawn (setup payload prefix) else pure tt
  admit false payload prefix = do
    layout ← lift (get_or "lockerLayout" (arr nil) payload)
    items ← lift (iterate layout)
    if ltb max_slots (length items)
        then report_failure payload prefix
        else spawn (setup payload prefix)

  unfoldable pub handle : Value → String → Exec (Gateway P) (Unit {0})
  handle payload prefix g =
      if g.setup_running
      then (ok tt, g)
      else (do
        action ← lift (get_or "action" (str "") payload)
        admit (same action (str "BULK_SETUP_LOCKERS")) payload prefix)
          g
