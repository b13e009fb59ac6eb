-- ===== src/Service/Reach.antt =====
-- Every run of events over services/locker_service.py keeps what the methods of the cabinet state
-- keep: setups, commands, doors, heartbeats and clears, in any order.
use smart_locker_iot.Prelude.{
  ◌+◌, ◌++◌, ◌<>◌, ℕ, String, Option, none, some, List, [], ◌∷◌, Bool, true, false, string_eq,
}
use smart_locker_iot.Python.{Value}
use smart_locker_iot.Python.Exec.{pure}
use smart_locker_iot.Gateway.{SerialPort, Gateway, Job, setup, clear, discover, on_cabinets}
use smart_locker_iot.Gateway.Keeps.{
  Keeps-branch, Keeps, keeps_rules, Keeps-on_cabinets, Keeps-bind, Keeps-then, Keeps-subscribe,
  Keeps-attempt, Keeps-reads,
}
use smart_locker_iot.Prelude.Int.{ℤ}
use smart_locker_iot.Database.Methods.{Write, mqtt, perform, log_mqtt}
use smart_locker_iot.CabinetState.{
  CabinetState, CabinetArgs, Call, run, with_db, get_cabinet_by_id, get_locker_by_slot,
  get_cabinet_by_name, save_location, save_cabinet, save_lockers,
}
use smart_locker_iot.CabinetState as Cabinets
use smart_locker_iot.Setup.{
  Plan, examine, visit, test_slots, keep_cabinet, conclude, setup_cabinet, setup_cabinets,
  cabinets_to_process, setup_body, set_running, run_setup, report_failure, admit, handle,
}
use smart_locker_iot.Setup.Slot.{Tally}
use smart_locker_iot.Service.{
  Incoming, Event, message, thread, door, tick, choose, handle_setup_command,
  handle_clear_setup_command, route, route_json, handle_incoming_message, run_job, subscribe_all,
  start_up, run_chosen, react, react_all,
}
use smart_locker_iot.Service.Handlers.{
  Keeps-handle_open, Keeps-handle_close, Keeps-handle_door, Keeps-publish_all, Keeps-discover,
  Keeps-setup_complete, Keeps-test_slot, Keeps-stop, Keeps-start,
}

-- What every method of the cabinet state keeps, every method of the database behind it, and a subscription to
-- the open commands of a cabinet.
pub record IsKept (Inv : CabinetState → List String → Type 0) : Type 0 where
  pub calls :
      (c : Call) (s : CabinetState) (topics : List String) → Inv s topics → Inv (run c s).1 topics
  pub writes :
      (w : Write) (s : CabinetState) (topics : List String)
      → Inv s topics
      → Inv (with_db (perform w) s).1 topics
  pub opens :
      (s : CabinetState) (topics : List String) (name : String)
      → Inv s topics
      → Inv s (topics ++ ("cabinet/" <> (name <> "/command/open")) ∷ [])

module _ {P : SerialPort} {Inv : CabinetState → List String → Type 0} where
  Keeps-examine :
      (p : Plan) (i : ℕ) (slot : Value) (n : ℤ) (t : Tally) → Keeps P Inv (examine p i slot n t)
  unfolding examine
  Keeps-examine p i slot n t = search (keeps_rules, Keeps-test_slot) depth 30

  Keeps-visit :
      (p : Plan) (i : ℕ) (slot : Value) (n : Option ℤ) (t : Tally)
      → Keeps P Inv (visit p i slot n t)
  unfolding visit
  Keeps-visit p i slot none t = search keeps_rules
  Keeps-visit p i slot (some n) t = Keeps-examine p i slot n t

  Keeps-test_slots :
      (p : Plan) (i : ℕ) (layout : List Value) (t : Tally) → Keeps P Inv (test_slots p i layout t)
  unfolding test_slots
  Keeps-test_slots p i [] t = search keeps_rules
  Keeps-test_slots p i (slot ∷ layout) t =
      Keeps-bind _ _ (Keeps-reads _)
        λ n. Keeps-bind _ _ (Keeps-visit p i slot n t) λ t'. Keeps-test_slots p (i + 1) layout t'

  Keeps-to_process :
      (bulk : Bool) (payload : Value) → Keeps P Inv (cabinets_to_process bulk payload)
  unfolding cabinets_to_process
  Keeps-to_process true payload = Keeps-bind _ _ (Keeps-reads _) λ v. Keeps-reads _
  Keeps-to_process false payload = Keeps-bind _ _ (Keeps-reads _) λ v. search keeps_rules depth 30

  Keeps-report_failure :
      (payload : Value) (prefix : String) → Keeps P Inv (report_failure payload prefix)
  unfolding report_failure
  Keeps-report_failure payload prefix = search keeps_rules depth 30

  Keeps-admit :
      (bulk : Bool) (payload : Value) (prefix : String) → Keeps P Inv (admit bulk payload prefix)
  unfolding admit
  Keeps-admit true payload prefix = Keeps-bind _ _ (Keeps-reads _) λ v. search keeps_rules
  Keeps-admit false payload prefix =
      Keeps-bind _ _ (Keeps-reads _) λ v. search (keeps_rules, Keeps-report_failure) depth 20

  Keeps-handle : (payload : Value) (prefix : String) → Keeps P Inv (handle payload prefix)
  unfolding handle
  Keeps-handle payload prefix =
      Keeps-branch (λ g. g.setup_running) (pure tt) _ (search keeps_rules)
        (search (keeps_rules, Keeps-admit) depth 20)

  Keeps-handle_setup :
      (topic : String) (payload : Value) → Keeps P Inv (handle_setup_command topic payload)
  unfolding handle_setup_command
  Keeps-handle_setup topic payload = search (keeps_rules, Keeps-handle) depth 40

  Keeps-handle_clear : (payload : Value) → Keeps P Inv (handle_clear_setup_command payload)
  unfolding handle_clear_setup_command
  Keeps-handle_clear payload = search keeps_rules depth 20

  Keeps-any : (topic : String) (payload : Value) → Keeps P Inv (route topic payload)
  unfolding route
  Keeps-any topic payload =
      search
        (keeps_rules, Keeps-handle_setup, Keeps-handle_clear, Keeps-handle_open, Keeps-handle_close)
        depth 20

  Keeps-route : (topic : String) (json : Option Value) → Keeps P Inv (route_json topic json)
  unfolding route_json
  Keeps-route topic none = search keeps_rules
  Keeps-route topic (some payload) = Keeps-any topic payload

  module _ (kept : IsKept Inv) where
    Keeps-call : (c : Call) → Keeps P Inv (on_cabinets (run c))
    Keeps-call c = Keeps-on_cabinets (run c) (kept.calls c)

    Keeps-clear : Keeps P Inv (on_cabinets Cabinets.clear)
    unfolding run
    Keeps-clear = Keeps-call Cabinets.wipe

    Keeps-save_location : (i n a : Value) → Keeps P Inv (on_cabinets (save_location i n a))
    unfolding run
    Keeps-save_location i n a = Keeps-call (Cabinets.location i n a)

    Keeps-save_cabinet : (a : CabinetArgs) → Keeps P Inv (on_cabinets (save_cabinet a))
    unfolding run
    Keeps-save_cabinet a = Keeps-call (Cabinets.cabinet a)

    Keeps-save_lockers : (i l : Value) → Keeps P Inv (on_cabinets (save_lockers i l))
    unfolding run
    Keeps-save_lockers i l = Keeps-call (Cabinets.lockers i l)

    Keeps-logs :
        (topic text : String) → Keeps P Inv (on_cabinets (with_db (log_mqtt topic text "IN")))
    unfolding perform
    Keeps-logs topic text = Keeps-on_cabinets _ (kept.writes (mqtt topic text "IN"))

    Keeps-set_running : (b : Bool) → Keeps P Inv (set_running b)
    unfolding set_running
    Keeps-set_running b = record { at = λ g h. h }

    Keeps-keep_cabinet : (p : Plan) (cab layout : Value) → Keeps P Inv (keep_cabinet p cab layout)
    unfolding keep_cabinet
    Keeps-keep_cabinet p cab layout =
        search
          (keeps_rules, Keeps-save_cabinet, Keeps-save_lockers, Keeps-setup_complete kept.opens)
          depth 30

    Keeps-conclude :
        (p : Plan) (cab layout : Value) (items : List Value) (t : Tally)
        → Keeps P Inv (conclude p cab layout items t)
    unfolding conclude
    Keeps-conclude p cab layout items t = search (keeps_rules, Keeps-keep_cabinet) depth 30

    Keeps-setup_cabinet :
        (id : Value) (prefix : String) (timeout cab : Value)
        → Keeps P Inv (setup_cabinet id prefix timeout cab)
    unfolding setup_cabinet
    Keeps-setup_cabinet id prefix timeout cab =
        search (keeps_rules, Keeps-test_slots, Keeps-conclude) depth 40

    Keeps-setup_cabinets :
        (id : Value) (prefix : String) (timeout : Value) (cabs : List Value)
        → Keeps P Inv (setup_cabinets id prefix timeout cabs)
    unfolding setup_cabinets
    Keeps-setup_cabinets id prefix timeout [] = search keeps_rules
    Keeps-setup_cabinets id prefix timeout (cab ∷ cabs) =
        Keeps-then _ _ (Keeps-setup_cabinet id prefix timeout cab)
          (Keeps-setup_cabinets id prefix timeout cabs)

    Keeps-setup_body :
        (bulk : Bool) (payload : Value) (prefix : String) (id : Value)
        → Keeps P Inv (setup_body bulk payload prefix id)
    unfolding setup_body
    Keeps-setup_body bulk payload prefix id =
        search
          (keeps_rules, Keeps-to_process, Keeps-clear, Keeps-save_location, Keeps-setup_cabinets)
          depth 40

    Keeps-run_setup : (payload : Value) (prefix : String) → Keeps P Inv (run_setup payload prefix)
    unfolding run_setup
    Keeps-run_setup payload prefix =
        search (keeps_rules, Keeps-setup_body, set_running, Keeps-set_running) depth 40

    Keeps-run_job : (j : Job) → Keeps P Inv (run_job j)
    unfolding run_job
    Keeps-run_job (setup payload prefix) = Keeps-run_setup payload prefix
    Keeps-run_job clear = Keeps-then _ _ Keeps-clear Keeps-stop
    Keeps-run_job (discover n) = Keeps-discover n

    Keeps-message : (m : Incoming) → Keeps P Inv (handle_incoming_message m)
    unfolding handle_incoming_message
    Keeps-message m = search (keeps_rules, Keeps-logs, Keeps-route) depth 20

    Keeps-chosen : (c : Option (Job × List Job)) → Keeps P Inv (run_chosen c)
    unfolding run_chosen
    Keeps-chosen none = record { at = λ g h. h }
    Keeps-chosen (some (job, rest)) = record {
      at = λ g h. (Keeps-run_job job).at (record g { pending = rest }) h;
    }

    -- What an event keeps, whatever it raises.
    pub Keeps-react : (e : Event) → Keeps P Inv (react e)
    unfolding react
    Keeps-react (message m) = Keeps-attempt _ (Keeps-message m)
    Keeps-react (thread i) = record { at = λ g h. (Keeps-chosen (choose i g.pending)).at g h }
    Keeps-react (door slot event slave) = Keeps-attempt _ (Keeps-handle_door slot event slave)
    Keeps-react tick =
        Keeps-branch (λ g. g.heartbeat.running) _ (pure tt) (Keeps-attempt _ Keeps-publish_all)
          (search keeps_rules)

    pub Keeps-react_all :
        (es : List Event) (g : Gateway P)
        → Inv g.cabinets g.subscriptions
        → Inv (react_all es g).cabinets (react_all es g).subscriptions
    unfolding react_all
    Keeps-react_all [] g h = h
    Keeps-react_all (e ∷ es) g h = Keeps-react_all es (react e g).1 ((Keeps-react e).at g h)

module _ {P : SerialPort} {Inv : CabinetState → Type 0} where
  Keeps-subscribe_all : (cabs : List Value) → Keeps P (λ s _. Inv s) (subscribe_all cabs)
  unfolding subscribe_all
  Keeps-subscribe_all [] = search keeps_rules
  Keeps-subscribe_all (cab ∷ cabs) =
      Keeps-bind _ _ (Keeps-reads _)
        λ name. Keeps-then _ _ (Keeps-subscribe (λ s _ _ h. h) _) (Keeps-subscribe_all cabs)

  pub Keeps-start_up : Keeps P (λ s _. Inv s) start_up
  unfolding start_up
  Keeps-start_up = search (keeps_rules, Keeps-discover, Keeps-subscribe_all, Keeps-start) depth 20
