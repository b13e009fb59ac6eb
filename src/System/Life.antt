-- ===== src/System/Life.antt =====
-- The invariant of the cabinet state over the whole life of main.py, with the requests to its
-- configuration server.
use smart_locker_iot.Prelude.{String, Bool, some, List, [], ◌∷◌, ◌≡◌, ap, sym, subst, arith}
use smart_locker_iot.Python.{Fields, field, end, Result, ok, raise, >>=-eq-ok}
use smart_locker_iot.Python.Exec.{Exec, continue, ◌>>◌}
use smart_locker_iot.Python.Exec as Exec
use smart_locker_iot.Database.Tables.{Database}
use smart_locker_iot.Database.Methods.{Write, setting, config, perform}
use smart_locker_iot.Database.Integrity.{Integrity}
use smart_locker_iot.CabinetState.{CabinetState, StateFile, create, with_db, run, wipe, clear}
use smart_locker_iot.Settings.{Settings}
use smart_locker_iot.ConfigApi.{
  Server, Request, system_info, system_state, health, get_mqtt, get_system, clear_setup,
  recent_logs, post_mqtt, post_system, open_otp, serve, attempted, on_state, save_settings,
  reload_settings, post_system_config, model_dump,
}
use smart_locker_iot.Boot.{Started, boot, configure, log_state, first_beat}
use smart_locker_iot.Gateway.{SerialPort}
use smart_locker_iot.Service.Reach.{IsKept, Keeps-start_up, Keeps-react}
use smart_locker_iot.Service.Invariants.{IsConsistent, IsConsistent-IsKept, create-IsConsistent}
use smart_locker_iot.System.{
  Machine, System, Action, event, request, act, acts, built, server_of, main,
}

-- `m` keeps `Inv` of the server's cabinet state, whether it returns or raises.
record Preserves (Inv : CabinetState → Type 0) (m : Exec Server (Unit {0})) : Type 0 where
  at : (s : Server) → Inv s.cabinets → Inv (m s).1.cabinets

reload_settings_same : (s : Server) → (reload_settings s).1.cabinets ≡ s.cabinets
unfolding reload_settings
reload_settings_same s = ground arith

attempted_same :
    (m : Exec Server (Unit {0})) (message : String) (s : Server)
    → (attempted m message s).1 ≡ (m s).1
unfolding attempted
attempted_same m message s = ground arith

module _ {Inv : CabinetState → Type 0} where
  Preserves-continue :
      (r : Result (Unit {0})) (n : Exec Server (Unit {0})) (s : Server)
      → Preserves Inv n
      → Inv s.cabinets
      → Inv (continue r (λ _. n) s).1.cabinets
  Preserves-continue (ok a) n s k h = k.at s h
  Preserves-continue (raise e) n s k h = h

  Preserves-then :
      (m n : Exec Server (Unit {0})) → Preserves Inv m → Preserves Inv n → Preserves Inv (m >> n)
  unfolding ◌>>◌ Exec.◌>>=◌
  Preserves-then m n k l = record { at = λ s h. Preserves-continue (m s).0 n (m s).1 l (k.at s h) }

  Preserves-attempted :
      (m : Exec Server (Unit {0})) (message : String) (s : Server)
      → Preserves Inv m
      → Inv s.cabinets
      → Inv (attempted m message s).1.cabinets
  Preserves-attempted m message s k h =
      subst (λ t. Inv t.cabinets) (sym (attempted_same m message s)) (k.at s h)

  Preserves-on_state :
      (m : Exec CabinetState (Unit {0}))
      → ((s : CabinetState) → Inv s → Inv (m s).1)
      → Preserves Inv (on_state m)
  unfolding on_state
  Preserves-on_state m k = record { at = λ s h. k s.cabinets h }

  module _ (kept : IsKept (λ s _. Inv s)) where
    Preserves-write : (w : Write) → Preserves Inv (on_state (with_db (perform w)))
    Preserves-write w = Preserves-on_state (with_db (perform w)) (λ s. kept.writes w s [])

    Preserves-save_settings : (fs : Fields) → Preserves Inv (save_settings fs)
    unfolding save_settings perform
    Preserves-save_settings end = record { at = λ s h. h }
    Preserves-save_settings (field key value fs) =
        Preserves-then _ _ (Preserves-write (setting key value)) (Preserves-save_settings fs)

    Preserves-post_system : (fs : Fields) → Preserves Inv (post_system_config fs)
    unfolding post_system_config
    Preserves-post_system fs =
        Preserves-then _ _ (Preserves-save_settings fs)
          (record { at = λ s h. subst Inv (sym (reload_settings_same s)) h })

    Preserves-clear : Preserves Inv (on_state clear)
    unfolding run
    Preserves-clear = Preserves-on_state clear (λ s. kept.calls wipe s [])

    serve-keeps : (r : Request) (s : Server) → Inv s.cabinets → Inv (serve r s).1.cabinets
    unfolding serve perform
    serve-keeps system_info s h = h
    serve-keeps system_state s h = h
    serve-keeps health s h = h
    serve-keeps get_mqtt s h = h
    serve-keeps get_system s h = h
    serve-keeps (recent_logs limit) s h = h
    serve-keeps (post_mqtt c) s h =
        Preserves-attempted _ _ s (Preserves-write (config (model_dump c))) h
    serve-keeps (post_system fs) s h = Preserves-attempted _ _ s (Preserves-post_system fs) h
    serve-keeps clear_setup s h = Preserves-attempted _ _ s Preserves-clear h
    serve-keeps (open_otp otp) s h = h

    module _ {P : SerialPort} where
      act-keeps :
          (a : Action) (s : System P) → Inv s.gateway.cabinets → Inv (act a s).gateway.cabinets
      unfolding act
      act-keeps (event e) s h = (Keeps-react kept e).at s.gateway h
      act-keeps (request r) s h = serve-keeps r (server_of s) h

      acts-keeps :
          (more : List Action) (s : System P)
          → Inv s.gateway.cabinets
          → Inv (acts more s).gateway.cabinets
      unfolding acts
      acts-keeps [] s h = h
      acts-keeps (a ∷ rest) s h = acts-keeps rest (act a s) (act-keeps a s h)

ok_inj : {A : Type 0} (a b : A) → ok a ≡ ok b → a ≡ b
ok_inj a b h = cc

-- The services are built with the cabinets that the constructor loaded.
boot-cabinets :
    (settings : Settings) (file : StateFile) (writable : Bool) (db : Database) (started : Started)
    → boot settings file writable db ≡ ok started
    → started.cabinets ≡ (create file writable (some db)).1
unfolding boot
boot-cabinets settings file writable db started e =
    let (s, e₁, booted) = >>=-eq-ok (configure db settings) _ e in
    let (loaded, e₂, made) = >>=-eq-ok (create file writable (some db)).0 _ booted in
    let (logged, e₃, shown) = >>=-eq-ok (log_state (create file writable (some db)).1) _ made in
    let (interval, e₄, same) = >>=-eq-ok (first_beat (create file writable (some db)).1) _ shown in
    sym (ap (λ x. x.cabinets) (ok_inj _ started same))

-- Whatever `main` is started on, if the database satisfies its constraints: if the start succeeds, every
-- cabinet stands under its own id, once, and the database's keys are unique and its foreign keys
-- satisfied, after any requests to the configuration server and any commands, thread runs, door events
-- and heartbeats, in any order and on any serial port, whatever they raise.
pub main-IsConsistent :
    {P : SerialPort} (m : Machine P) (settings : Settings) (file : StateFile) (writable : Bool)
    (db : Database) (early late : List Action) (s : System P)
    → Integrity db.tables
    → main m settings file writable db early late ≡ ok s
    → IsConsistent s.gateway.cabinets
unfolding main
main-IsConsistent m settings file writable db early late s h e =
    let (started, booted, ended) = >>=-eq-ok (boot settings file writable db) _ e in
    let first : IsConsistent started.cabinets =
      subst IsConsistent (sym (boot-cabinets settings file writable db started booted))
        (create-IsConsistent file writable (some db) h) in
    let before = acts-keeps IsConsistent-IsKept early (built m started) first in
    let up = (Keeps-start_up {Inv = IsConsistent}).at _ before in
    subst (λ r. IsConsistent r.gateway.cabinets) (ok_inj _ s ended)
      (acts-keeps IsConsistent-IsKept late _ up)
