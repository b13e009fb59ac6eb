-- ===== src/Service/Handlers.antt =====
-- What the handlers, the threads and the start of services/locker_service.py keep of the cabinet state:
-- whatever the methods of the cabinet state keep.
use smart_locker_iot.Prelude.{
  zero, suc, ℕ, String, Option, none, some, List, [], ◌∷◌, ◌++◌, ◌<>◌, ◌≡◌, subst, sym, arith,
  string_eq,
}
use smart_locker_iot.Python.{Value, Key}
use smart_locker_iot.Python.Exec.{Exec, ◌>>=◌}
use smart_locker_iot.Gateway.{SerialPort, Gateway, on_cabinets}
use smart_locker_iot.Gateway.Keeps.{
  Keeps, keeps_rules, Keeps-on_cabinets, Keeps-bind, Keeps-then, Keeps-subscribe_open,
}
use smart_locker_iot.Prelude.Int.{ℤ}
use smart_locker_iot.Prelude.Dict.{Dict}
use smart_locker_iot.CabinetState.{
  CabinetState, get_cabinet_by_id, get_locker_by_slot, get_cabinet_by_name,
}
use smart_locker_iot.Heartbeat.{
  update_locker_state, slot_status, slot_statuses, cabinet_status, get_lockers_status,
  publish_single_heartbeat, publish_heartbeats, publish_all_heartbeats, start, stop,
}
use smart_locker_iot.Locker.{
  Request, open_slot, close_slot, perform_open, perform_close, read_request, read_named, when_named,
  answer, handle_open_command, handle_close_command, report_door, handle_door_event,
  on_setup_complete,
}
use smart_locker_iot.Setup.{Plan, test_slot}
use smart_locker_iot.Discovery.{scan, discover_and_report}

get_cabinet_by_id_same : (id : Value) (s : CabinetState) → (get_cabinet_by_id id s).1 ≡ s
unfolding get_cabinet_by_id ◌>>=◌
get_cabinet_by_id_same id s = ground arith

get_locker_by_slot_same :
    (id slot : Value) (s : CabinetState) → (get_locker_by_slot id slot s).1 ≡ s
unfolding get_locker_by_slot ◌>>=◌
get_locker_by_slot_same id slot s = ground arith

module _ {P : SerialPort} {Inv : CabinetState → List String → Type 0} where
  Keeps-by_id : (id : Value) → Keeps P Inv (on_cabinets (get_cabinet_by_id id))
  Keeps-by_id id =
      Keeps-on_cabinets _
        λ s topics h. subst (λ t. Inv t topics) (sym (get_cabinet_by_id_same id s)) h

  Keeps-by_slot : (id slot : Value) → Keeps P Inv (on_cabinets (get_locker_by_slot id slot))
  Keeps-by_slot id slot =
      Keeps-on_cabinets _
        λ s topics h. subst (λ t. Inv t topics) (sym (get_locker_by_slot_same id slot s)) h

  Keeps-by_name : (name : String) → Keeps P Inv (on_cabinets (get_cabinet_by_name name))
  unfolding get_cabinet_by_name
  Keeps-by_name name = Keeps-on_cabinets _ λ s topics h. h

  Keeps-update : (c s : Value) (h : String) → Keeps P Inv (update_locker_state c s h)
  unfolding update_locker_state
  Keeps-update c s h = search keeps_rules depth 30

  pub Keeps-start : Keeps P Inv start
  unfolding start
  Keeps-start = record { at = λ g h. ground arith }

  pub Keeps-stop : Keeps P Inv stop
  unfolding stop
  Keeps-stop = record { at = λ g h. h }

  Keeps-open_slot : (r : Request) → Keeps P Inv (open_slot r)
  unfolding open_slot
  Keeps-open_slot r = record { at = λ g h. h }

  Keeps-close_slot : (r : Request) → Keeps P Inv (close_slot r)
  unfolding close_slot
  Keeps-close_slot r = record { at = λ g h. h }

  pub Keeps-test_slot : (p : Plan) (n : ℤ) → Keeps P Inv (test_slot p n)
  unfolding test_slot
  Keeps-test_slot p n = record { at = λ g h. h }

  Keeps-scan : (v : Value) → Keeps P Inv (scan v)
  unfolding scan
  Keeps-scan v = record { at = λ g h. h }

  ruleset parts = (
    keeps_rules, Keeps-by_id, Keeps-by_slot, Keeps-by_name, Keeps-update, Keeps-start, Keeps-stop,
    Keeps-open_slot, Keeps-close_slot, Keeps-test_slot, Keeps-scan,
  )

  Keeps-perform_open : (r : Request) → Keeps P Inv (perform_open r)
  unfolding perform_open
  Keeps-perform_open r = search parts depth 30

  Keeps-perform_close : (r : Request) → Keeps P Inv (perform_close r)
  unfolding perform_close
  Keeps-perform_close r = search parts depth 30

  Keeps-read_named : (payload : Value) (name : String) → Keeps P Inv (read_named payload name)
  unfolding read_named
  Keeps-read_named payload name = search parts depth 40

  Keeps-when_named :
      (name : Option String) (act : String → Exec (Gateway P) (Option Request))
      → ((n : String) → Keeps P Inv (act n))
      → Keeps P Inv (when_named name act)
  unfolding when_named
  Keeps-when_named none act k = search parts
  Keeps-when_named (some name) act k = k name

  Keeps-read_request : (topic : String) (payload : Value) → Keeps P Inv (read_request topic payload)
  unfolding read_request
  Keeps-read_request topic payload = Keeps-when_named _ _ (Keeps-read_named payload)

  Keeps-answer :
      (act : Request → Exec (Gateway P) (Unit {0}))
      → ((r : Request) → Keeps P Inv (act r))
      → (r : Option Request) → Keeps P Inv (answer act r)
  unfolding answer
  Keeps-answer act k none = search parts
  Keeps-answer act k (some r) = k r

  pub Keeps-handle_open :
      (topic : String) (payload : Value) → Keeps P Inv (handle_open_command topic payload)
  unfolding handle_open_command
  Keeps-handle_open topic payload =
      search (parts, Keeps-read_request, read_named, when_named, Keeps-answer, Keeps-perform_open)
        depth 30

  pub Keeps-handle_close :
      (topic : String) (payload : Value) → Keeps P Inv (handle_close_command topic payload)
  unfolding handle_close_command
  Keeps-handle_close topic payload =
      search (parts, Keeps-read_request, read_named, when_named, Keeps-answer, Keeps-perform_close)
        depth 30

  Keeps-report_door : (cab slot : Value) (event : String) → Keeps P Inv (report_door cab slot event)
  unfolding report_door
  Keeps-report_door cab slot event = search parts depth 40

  pub Keeps-handle_door :
      (slot : Value) (event : String) (slave : Value)
      → Keeps P Inv (handle_door_event slot event slave)
  unfolding handle_door_event
  Keeps-handle_door slot event slave = search (parts, Keeps-report_door) depth 30

  Keeps-slot_status :
      (id : Value) (states : Dict Key Value) (slot : ℕ) → Keeps P Inv (slot_status id states slot)
  unfolding slot_status
  Keeps-slot_status id states slot = search parts depth 30

  Keeps-slot_statuses :
      (id : Value) (states : Dict Key Value) (slot count : ℕ)
      → Keeps P Inv (slot_statuses id states slot count)
  unfolding slot_statuses
  Keeps-slot_statuses id states slot zero = search parts
  Keeps-slot_statuses id states slot (suc count) =
      Keeps-bind _ _ (Keeps-slot_status id states slot)
        λ entry. search (parts, Keeps-slot_statuses id states (suc slot) count) depth 30

  Keeps-lockers_status : (id : Value) → Keeps P Inv (get_lockers_status id)
  unfolding get_lockers_status cabinet_status
  Keeps-lockers_status id = search (parts, Keeps-slot_statuses) depth 40

  Keeps-single : (cab : Value) → Keeps P Inv (publish_single_heartbeat cab)
  unfolding publish_single_heartbeat
  Keeps-single cab = search (parts, Keeps-lockers_status) depth 30

  Keeps-heartbeats : (cabs : List Value) → Keeps P Inv (publish_heartbeats cabs)
  unfolding publish_heartbeats
  Keeps-heartbeats [] = search parts
  Keeps-heartbeats (cab ∷ cabs) = Keeps-then _ _ (Keeps-single cab) (Keeps-heartbeats cabs)

  pub Keeps-publish_all : Keeps P Inv publish_all_heartbeats
  unfolding publish_all_heartbeats
  Keeps-publish_all = search (parts, Keeps-heartbeats) depth 30

  pub Keeps-discover : (v : Value) → Keeps P Inv (discover_and_report v)
  unfolding discover_and_report
  Keeps-discover v = search parts depth 40

  pub Keeps-setup_complete :
      ((s : CabinetState) (topics : List String) (name : String)
        → Inv s topics
        → Inv s (topics ++ ("cabinet/" <> (name <> "/command/open")) ∷ []))
      → (name : Value) → Keeps P Inv (on_setup_complete name)
  unfolding on_setup_complete
  Keeps-setup_complete opens name = Keeps-then _ _ (Keeps-subscribe_open opens _) Keeps-start
