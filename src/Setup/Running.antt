-- ===== src/Setup/Running.antt =====
-- `_is_running` of services/setup_handler.py: who sets it, and when.
use smart_locker_iot.Prelude.{
  String, true, false, ◌≡◌, refl, List, [], ◌∷◌, ◌++◌, ◌≤◌, ◌<◌, arith, ap, ◌∙◌, append_assoc,
}
use smart_locker_iot.Prelude.Lists.{length}
use smart_locker_iot.Python.{Value, obj, str, arr, nil, Fields, same, get_or, iterate, ok}
use smart_locker_iot.Python.Exec.{◌>>=◌, ◌>>◌}
use smart_locker_iot.Gateway.{SerialPort, Gateway, spawn, setup, timestamp, publish}
use smart_locker_iot.Setup.{run_setup, set_running, handle, admit, report_failure, max_slots}

module _ {P : SerialPort} where
  -- The thread of a setup ends without an exception and with the flag down, whatever happened in it.
  pub run_setup_releases :
      (fs : Fields) (prefix : String) (g : Gateway P)
      → ((run_setup (obj fs) prefix g).0 ≡ ok tt)
        × ((run_setup (obj fs) prefix g).1.setup_running ≡ false)
  unfolding run_setup set_running get_or ◌>>=◌ ◌>>◌
  run_setup_releases fs prefix g = (refl, refl)

  -- While a setup runs, a command for another changes nothing.
  handle_busy :
      (payload : Value) (prefix : String) (g : Gateway P)
      → g.setup_running ≡ true
      → handle payload prefix g ≡ (ok tt, g)
  unfolding handle
  handle_busy payload prefix g h = rw h

  module _ (payload action layout : Value) (items : List Value) (prefix : String)
      (single : get_or "action" (str "") payload ≡ ok action)
      (kind : same action (str "BULK_SETUP_LOCKERS") ≡ false)
      (listed : get_or "lockerLayout" (arr nil) payload ≡ ok layout)
      (known : iterate layout ≡ ok items) where
    -- A command for one cabinet whose action and layout can be read, while no setup runs: with at most
    -- six slots it starts one thread and does nothing else; with more it starts none.
    handle_single :
        (g : Gateway P)
        → g.setup_running ≡ false
        → (length items ≤ max_slots
            → handle payload prefix g
              ≡ (ok tt, record g { pending = g.pending ++ setup payload prefix ∷ [] }))
          × (max_slots < length items → (handle payload prefix g).1.pending ≡ g.pending)
    unfolding handle admit spawn report_failure timestamp publish ◌>>=◌ ◌>>◌
    handle_single g free = (λ fits. ground arith, λ over. ground arith)

    -- A readable command for one cabinet of at most six slots that arrives twice, both times before the
    -- first thread has run and while no setup runs, starts two setups.
    pub handle_twice :
        (g : Gateway P)
        → g.setup_running ≡ false
        → length items ≤ max_slots
        → (handle payload prefix (handle payload prefix g).1).1.pending
          ≡ g.pending ++ setup payload prefix ∷ setup payload prefix ∷ []
    handle_twice g free fits = rw ((handle_single g free).0 fits) (
        ap (λ r. r.1.pending)
          ((handle_single (record g { pending = g.pending ++ setup payload prefix ∷ [] }) free).0
            fits)
        ∙ append_assoc g.pending _ _)
