-- ===== src/Serial/Turns.antt =====
-- infracstructure/serial_manager.py, `_listener_loop`: what a loss of the port and the reconnection
-- leave of the text that was read.
use smart_locker_iot.Prelude.{
  Bool, false, String, ◌<>◌, true, Option, some, List, [], ◌∷◌, ◌≡◌, ◌≢◌, refl, ap, ◌∙◌, arith,
}
use smart_locker_iot.Prelude.Lists.{All}
use smart_locker_iot.Python.{Fields, Result, raise, Fault}
use smart_locker_iot.Serial.Listener.{listen}
use smart_locker_iot.Serial.Frames.{listen-listen}
use smart_locker_iot.Serial.Port.{
  Host, Port, Reading, bytes, nothing, io_error, failure, Manager, attempt_reconnect,
  handle_fatal_error, is_connected, read, turn, turns,
}

abbrev pub is_bytes : Reading → Bool
is_bytes (bytes chunk) = true
is_bytes nothing = false
is_bytes io_error = false
is_bytes failure = false

module _ (h : Host) (loads : String → Result (Option Fields)) where
  attempt_reconnect-port : (s : Port) → (attempt_reconnect h s).port ≡ s.port
  unfolding attempt_reconnect
  attempt_reconnect-port s = ground arith

  read-port : (r : Reading) (m : Manager) → (read h loads r m).port.port ≡ m.port.port
  unfolding read handle_fatal_error
  read-port (bytes chunk) m = refl
  read-port nothing m = refl
  read-port io_error m = refl
  read-port failure m = refl

  turn-port : (r : Reading) (m : Manager) → (turn h loads r m).port.port ≡ m.port.port
  unfolding turn
  turn-port r m = ground (arith, read-port r m, attempt_reconnect-port m.port)

  -- The listener never looks for another port: whatever it reads and loses, each reconnection is
  -- tried on the port that was there first.
  pub turns-port : (rs : List Reading) (m : Manager) → (turns h loads rs m).port.port ≡ m.port.port
  unfolding turns
  turns-port [] m = refl
  turns-port (r ∷ rs) m = turns-port rs (turn h loads r m) ∙ turn-port r m

  turn-bytes :
      (chunk : String) (m : Manager)
      → m.waiting ≡ false
      → m.port.listening ≡ true
      → m.port.ser ≡ some true
      → turn h loads (bytes chunk) m ≡ record m { listener = listen loads chunk m.listener }
  unfolding turn is_connected read
  turn-bytes chunk m awake on there = rw (awake, on, there) refl

  turn-io_error :
      (m : Manager)
      → m.waiting ≡ false
      → m.port.listening ≡ true
      → m.port.ser ≡ some true
      → (turn h loads io_error m).listener ≡ m.listener
  unfolding turn is_connected read handle_fatal_error
  turn-io_error m awake on there = rw (awake, on, there) refl

  -- Only bytes change what is read.
  turn-quiet :
      (r : Reading) (m : Manager) → is_bytes r ≡ false → (turn h loads r m).listener ≡ m.listener
  unfolding turn is_connected read handle_fatal_error
  turn-quiet (bytes chunk) m q = absurd (let no : true ≡ false = q in cc)
  turn-quiet nothing m q = ground arith
  turn-quiet io_error m q = ground arith
  turn-quiet failure m q = ground arith

  turns-quiet :
      (rs : List Reading) (m : Manager)
      → All (λ r. is_bytes r ≡ false) rs
      → (turns h loads rs m).listener ≡ m.listener
  unfolding turns
  turns-quiet [] m quiet = refl
  turns-quiet (r ∷ rs) m (q, quiet) = turns-quiet rs (turn h loads r m) quiet ∙ turn-quiet r m q

  module _ (loads-ok : (s : String) (e : Fault) → loads s ≢ raise e) where
    -- Where `json.loads` raises nothing but a JSONDecodeError: what was read of a line before the port was lost
    -- is put in front of what is read once it is open again, however many attempts fail, and however often
    -- the port is lost, in between. The listener handles the two as one text.
    pub turns-io_error :
        (before after : String) (rs : List Reading) (m : Manager)
        → m.waiting ≡ false
        → m.port.listening ≡ true
        → m.port.ser ≡ some true
        → All (λ r. is_bytes r ≡ false) rs
        → let m' = turns h loads (bytes before ∷ io_error ∷ rs) m in
          m'.waiting ≡ false
          → m'.port.listening ≡ true
          → m'.port.ser ≡ some true
          → (turn h loads (bytes after) m').listener ≡ listen loads (before <> after) m.listener
    unfolding turns
    turns-io_error before after rs m awake on there quiet awake' on' there' =
        let m₁ : Manager = record m { listener = listen loads before m.listener } in
        let lost : Manager = turn h loads io_error (turn h loads (bytes before) m) in
        let kept : (turns h loads rs lost).listener ≡ listen loads before m.listener =
          turns-quiet rs lost quiet
          ∙ ap (λ s. (turn h loads io_error s).listener) (turn-bytes before m awake on there)
          ∙ turn-io_error m₁ awake on there in
        ap (λ s. s.listener) (turn-bytes after (turns h loads rs lost) awake' on' there')
        ∙ ap (listen loads after) kept
        ∙ listen-listen loads loads-ok before after m.listener
