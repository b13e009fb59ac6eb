-- ===== src/Service/Beats.antt =====
-- _heartbeat_loop of services/heartbeat_service.py, turn by turn, between the events of a run: one thread
-- of it, an interval that is a number, and seconds as the sleeps that it has begun.
use smart_locker_iot.Prelude.{
  ℕ, zero, suc, ◌+◌, ◌*◌, Bool-cases, inl, inr, List, [], ◌∷◌, ◌++◌, ◌≡◌, refl, sym, ◌∙◌, ◌≤◌,
  arith, if◌then◌else◌,
}
use smart_locker_iot.Gateway.{SerialPort, Gateway}
use smart_locker_iot.Python.Exec.{attempt}
use smart_locker_iot.Heartbeat.{publish_all_heartbeats}
use smart_locker_iot.Service.{Event, tick, react, react_all}

-- Where the thread stands: at the head of the loop, in the pause with some turns left after the next, or
-- ended.
pub data Point : Type 0 where
  at_head ended : Point
  pausing : ℕ → Point

-- The thread, the rounds it has sent and the seconds it has slept, and the gateway.
pub record Beating (P : SerialPort) : Type 0 where
  pub point : Point
  pub rounds : ℕ
  pub seconds : ℕ
  pub gateway : Gateway P

-- `range(n)`, from its first turn on.
abbrev pub pause : ℕ → Point
pause zero = at_head
pause (suc n) = pausing n

-- A turn of the thread, or an event between two of them.
pub data Move : Type 0 where
  beat : Move
  other : Event → Move

module _ {P : SerialPort} where
  -- The thread reads the flag once in each turn.
  unfoldable pub turn_at : ℕ → Point → Beating P → Beating P
  turn_at interval at_head b =
      if b.gateway.heartbeat.running
      then record b {
        point = pause interval;
        rounds = suc b.rounds;
        gateway = (attempt publish_all_heartbeats b.gateway).1;
      }
      else record b { point = ended }
  turn_at interval (pausing n) b =
      if b.gateway.heartbeat.running
      then record b { point = pause n; seconds = b.seconds + 1 }
      else record b { point = ended }
  turn_at interval ended b = b

  unfoldable pub move : ℕ → Move → Beating P → Beating P
  unfolding turn_at
  move interval beat b = turn_at interval b.point b
  move interval (other e) b = record b { gateway = (react e b.gateway).1 }

  unfoldable pub play : ℕ → List Move → Beating P → Beating P
  unfolding move
  play interval [] b = b
  play interval (m ∷ ms) b = play interval ms (move interval m b)

-- The thread of `start`.
abbrev pub launched : {P : SerialPort} → Gateway P → Beating P
launched g = record { point = at_head; rounds = 0; seconds = 0; gateway = g }

-- The rounds of the thread are the ticks of a run.
abbrev ticks : Point → List Event
ticks at_head = tick ∷ []
ticks (pausing n) = []
ticks ended = []

-- The run that the services see.
unfoldable pub heard : {P : SerialPort} → ℕ → List Move → Beating P → List Event
heard interval [] b = []
heard interval (other e ∷ ms) b = e ∷ heard interval ms (move interval (other e) b)
heard interval (beat ∷ ms) b = ticks b.point ++ heard interval ms (move interval beat b)

module _ (interval : ℕ) where
  -- Each round is followed by a pause of `interval` seconds, but for what is left of the last one.
  IsPaced : Point → ℕ → ℕ → Type 0
  IsPaced at_head rounds seconds = seconds ≡ rounds * interval
  IsPaced (pausing n) rounds seconds = (seconds + suc n ≡ rounds * interval) × (suc n ≤ interval)
  IsPaced ended rounds seconds =
      (seconds ≤ rounds * interval) × (rounds * interval ≤ seconds + interval)

  IsPaced-pause :
      (n rounds seconds : ℕ)
      → seconds + n ≡ rounds * interval
      → n ≤ interval
      → IsPaced (pause n) rounds seconds
  unfolding IsPaced
  IsPaced-pause zero rounds seconds e h = omega arith
  IsPaced-pause (suc n) rounds seconds e h = (e, h)

  paced_bounds :
      (p : Point) (rounds seconds : ℕ)
      → IsPaced p rounds seconds
      → (seconds ≤ rounds * interval) × (rounds * interval ≤ seconds + interval)
  unfolding IsPaced
  paced_bounds at_head rounds seconds h = (omega arith, omega arith)
  paced_bounds (pausing n) rounds seconds (h, k) = (omega arith, omega arith)
  paced_bounds ended rounds seconds h = h

module _ {P : SerialPort} (interval : ℕ) where
  react_ticks :
      (p : Point) (es : List Event) (b : Beating P)
      → react_all (ticks p ++ es) b.gateway ≡ react_all es (turn_at interval p b).gateway
  unfolding react_all react turn_at
  react_ticks at_head es b = elim (Bool-cases b.gateway.heartbeat.running) [
    | inl e ↦ rw e refl
    | inr e ↦ rw e refl
  ]
  react_ticks (pausing n) es b = elim (Bool-cases b.gateway.heartbeat.running) [
    | inl e ↦ rw e refl
    | inr e ↦ rw e refl
  ]
  react_ticks ended es b = refl

  play-heard :
      (ms : List Move) (b : Beating P)
      → (play interval ms b).gateway ≡ react_all (heard interval ms b) b.gateway
  unfolding play heard react_all move
  play-heard [] b = refl
  play-heard (other e ∷ ms) b = play-heard ms (move interval (other e) b)
  play-heard (beat ∷ ms) b =
      play-heard ms (move interval beat b)
      ∙ sym (react_ticks b.point (heard interval ms (move interval beat b)) b)

  abbrev Paced : Beating P → Type 0
  Paced b = IsPaced interval b.point b.rounds b.seconds

  IsPaced-turn_at :
      (p : Point) (b : Beating P)
      → IsPaced interval p b.rounds b.seconds
      → b.point ≡ p
      → Paced (turn_at interval p b)
  unfolding IsPaced turn_at
  IsPaced-turn_at at_head b h at = elim (Bool-cases b.gateway.heartbeat.running) [
    | inl e ↦
        rw e (IsPaced-pause interval interval (suc b.rounds) b.seconds (omega arith) (omega arith))
    | inr e ↦ rw e (omega arith, omega arith)
  ]
  IsPaced-turn_at (pausing n) b (h, n≤) at = elim (Bool-cases b.gateway.heartbeat.running) [
    | inl e ↦ rw e (IsPaced-pause interval n b.rounds (b.seconds + 1) (omega arith) (omega arith))
    | inr e ↦ rw e (omega arith, omega arith)
  ]
  IsPaced-turn_at ended b h at = rw at h

  IsPaced-play : (ms : List Move) (b : Beating P) → Paced b → Paced (play interval ms b)
  unfolding play move
  IsPaced-play [] b h = h
  IsPaced-play (other e ∷ ms) b h = IsPaced-play ms (move interval (other e) b) h
  IsPaced-play (beat ∷ ms) b h =
      IsPaced-play ms (move interval beat b) (IsPaced-turn_at b.point b h refl)

  -- However the turns of a heartbeat thread fall between the other events, the services see a run in which
  -- each round is a tick, and the seconds that were slept are those of its rounds, each a full interval,
  -- but for what is left of the last.
  pub play_lem :
      (ms : List Move) (g : Gateway P)
      → let b = play interval ms (launched g) in
        (b.gateway ≡ react_all (heard interval ms (launched g)) g)
        × (b.seconds ≤ b.rounds * interval)
        × (b.rounds * interval ≤ b.seconds + interval)
  unfolding IsPaced
  play_lem ms g =
      let b = play interval ms (launched g) in
      let (slept, waited) =
        paced_bounds interval b.point b.rounds b.seconds
          (IsPaced-play ms (launched g) (omega arith)) in
      (play-heard ms (launched g), slept, waited)
