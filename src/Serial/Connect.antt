-- ===== src/Serial/Connect.antt =====
-- infracstructure/serial_manager.py, `_connect`: it ends, and the listener runs exactly where it
-- succeeded.
use smart_locker_iot.Prelude.{
  ℕ, zero, suc, ◌+◌, ◌≤◌, String, Bool, true, false, not, ◌&&◌, Option, none, some, List, ◌≡◌, ◌∙◌,
  sym, refl, arith, string_eq, ◌==◌, ==_self, Bool-cases, Option-cases, inl, inr,
}
use smart_locker_iot.Serial.Port.{
  Device, Host, Port, find_arduino_port, is_auto, detect, is_unusable, locate, open_port, retry,
  other_port, open_target, try_connect, connect,
}

-- How a call of `_connect` ends: it does, and with at most `n` questions to the operating system.
abbrev pub EndsWithin : ℕ → Port → Option (Bool × Port) → Type 0
EndsWithin n s result = (r : Bool × Port) × (result ≡ some r) × (r.1.now ≤ s.now + n)

EndsWithin-some :
    (n : ℕ) (s s' : Port) (done : Bool) → s'.now ≤ s.now + n → EndsWithin n s (some (done, s'))
EndsWithin-some n s s' done le = ((done, s'), refl, le)

EndsWithin-later :
    (n k : ℕ) (s s' : Port) {result : Option (Bool × Port)}
    → s'.now ≤ s.now + k
    → EndsWithin n s' result
    → EndsWithin (k + n) s result
EndsWithin-later n k s s' le (r, e, bound) = (r, e, omega arith)

module _ (h : Host) where
  locate-now : (s : Port) → (locate h s).1.now ≤ s.now + 2
  unfolding locate is_unusable detect
  locate-now s = ground arith

  open_port-now : (path : String) (s : Port) → (open_port h path s).1.now ≤ s.now + 1
  unfolding open_port
  open_port-now path s = ground arith

  open_target-EndsWithin :
      (again : Port → Option (Bool × Port)) (n : ℕ) (target : Option String) (s s' : Port)
      → s'.now ≤ s.now + 2
      → ((path : String) (s'' : Port)
          → target ≡ some path
          → EndsWithin n s'' (retry h again path s''))
      → EndsWithin (3 + n) s (open_target h again target s')
  open_target-EndsWithin again n none s s' le ends = EndsWithin-some _ s s' false (omega arith)
  open_target-EndsWithin again n (some path) s s' le ends =
      let (done, s'') = open_port h path s' in
      let le' : s''.now ≤ s.now + 3 = omega (arith, open_port-now path s') in
      elim (Bool-cases done) [
        | inl e ↦ rw e (EndsWithin-some _ s s'' true (omega arith))
        | inr e ↦ rw e (EndsWithin-later n 3 s s'' le' (ends path s'' refl))
      ]

  module _ (ports : Option (List Device)) (stable : (n : ℕ) → h.comports n ≡ ports) where
    locate-found : (s : Port) → find_arduino_port ports ≡ some s.port → (locate h s).0 ≡ some s.port
    unfolding locate is_unusable detect
    locate-found s found =
        let listed : find_arduino_port (h.comports s.now) ≡ some s.port = rw (stable s.now) found in
        let listed' : find_arduino_port (h.comports (s.now + 1)) ≡ some s.port =
          rw (stable (s.now + 1)) found in
        ground arith

    module _ (again : Port → Option (Bool × Port)) (path : String) where
      retry-EndsWithin :
          (n : ℕ) (s : Port)
          → EndsWithin n s (other_port h again path (find_arduino_port ports) (detect h s).1)
          → EndsWithin n s (retry h again path s)
      unfolding retry detect
      retry-EndsWithin n s ends = elim (Bool-cases (path == s.port && not (is_auto s.port))) [
        | inl e ↦ rw (e, stable s.now) ends
        | inr e ↦ rw e (EndsWithin-some n s s false (omega arith))
      ]

      retry-found :
          (s : Port) → find_arduino_port ports ≡ some path → EndsWithin 1 s (retry h again path s)
      unfolding detect
      retry-found s found =
          retry-EndsWithin 1 s
            (rw (found, ==_self path) (EndsWithin-some 1 s _ false (omega arith)))

    -- A port that the listing gives is opened once, whether it succeeds or not.
    connect-found :
        (fuel : ℕ) (s : Port)
        → find_arduino_port ports ≡ some s.port
        → EndsWithin 4 s (connect h (suc fuel) s)
    unfolding connect try_connect
    connect-found fuel s found =
        open_target-EndsWithin (connect h fuel) 1 _ s _ (locate-now s)
          λ path s' e. retry-found (connect h fuel) path s' (found ∙ sym (locate-found s found) ∙ e)

    retry-connect :
        (fuel : ℕ) (path : String) (s : Port)
        → EndsWithin 5 s (retry h (connect h (suc fuel)) path s)
    unfolding detect
    retry-connect fuel path s =
        retry-EndsWithin (connect h (suc fuel)) path 5 s
          (elim (Option-cases (find_arduino_port ports)) [
            | inl e ↦ rw e (EndsWithin-some 5 s _ false (omega arith))
            | inr (device, e) ↦ rw e (elim (Bool-cases (device == path)) [
              | inl d ↦ rw d (EndsWithin-some 5 s _ false (omega arith))
              | inr d ↦ rw d (
                  EndsWithin-later 4 1 s (record (detect h s).1 { port = device }) (omega arith)
                    (connect-found fuel _ e))
            ])
          ])

    -- While the serial ports stay as they are, `_connect` ends, whatever opening them does: it calls
    -- itself once at most, and asks the operating system at most eight times: for the ports, whether a path exists,
    -- and to open one.
    pub connect_ends : (fuel : ℕ) (s : Port) → EndsWithin 8 s (connect h (suc (suc fuel)) s)
    unfolding connect try_connect
    connect_ends fuel s =
        open_target-EndsWithin (connect h (suc fuel)) 5 _ s _ (locate-now s)
          λ path s' e. retry-connect fuel path s'

-- Of a call of `_connect` that ends: whether it succeeded, and the state that it leaves.
abbrev pub Listens : Option (Bool × Port) → Type 0
Listens none = Unit
Listens (some (done, s)) = (s.listening ≡ done) × (done ≡ true → s.ser ≡ some true)

refused-Listens : (s : Port) → s.listening ≡ false → Listens (some (false, s))
refused-Listens s off = (off, λ done. absurd (let no : false ≡ true = done in cc))

module _ (h : Host) where
  locate-listening : (s : Port) → (locate h s).1.listening ≡ s.listening
  unfolding locate is_unusable detect
  locate-listening s = ground arith

  open_port-Listens :
      (path : String) (s : Port) → s.listening ≡ false → Listens (some (open_port h path s))
  unfolding open_port
  open_port-Listens path s off = ground arith

  module _ (again : Port → Option (Bool × Port))
      (again-Listens : (s : Port) → s.listening ≡ false → Listens (again s)) where
    other_port-Listens :
        (path : String) (found : Option String) (s : Port)
        → s.listening ≡ false
        → Listens (other_port h again path found s)
    other_port-Listens path none s off = refused-Listens s off
    other_port-Listens path (some device) s off = elim (Bool-cases (device == path)) [
      | inl e ↦ rw e (refused-Listens s off)
      | inr e ↦ rw e (again-Listens _ off)
    ]

    retry-Listens :
        (path : String) (s : Port) → s.listening ≡ false → Listens (retry h again path s)
    unfolding retry detect
    retry-Listens path s off = elim (Bool-cases (path == s.port && not (is_auto s.port))) [
      | inl e ↦ rw e (other_port-Listens path _ _ off)
      | inr e ↦ rw e (refused-Listens s off)
    ]

    open_target-Listens :
        (target : Option String) (s : Port)
        → s.listening ≡ false
        → Listens (open_target h again target s)
    open_target-Listens none s off = refused-Listens s off
    open_target-Listens (some path) s off =
        let listens : Listens (some (open_port h path s)) = open_port-Listens path s off in
        elim (Bool-cases (open_port h path s).0) [
          | inl e ↦ rw e (listens.0 ∙ e, λ _. listens.1 e)
          | inr e ↦ rw e (retry-Listens path _ (listens.0 ∙ e))
        ]

  -- Where `_connect` is called with no listener running, the listener runs afterwards exactly if the
  -- call returns, and then the port is open. After an exception no listener runs.
  connect-Listens : (fuel : ℕ) (s : Port) → s.listening ≡ false → Listens (connect h fuel s)
  unfolding connect try_connect
  connect-Listens zero s off = tt
  connect-Listens (suc fuel) s off =
      open_target-Listens (connect h fuel) (connect-Listens fuel) _ _ (locate-listening s ∙ off)
