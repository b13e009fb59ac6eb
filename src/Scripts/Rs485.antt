-- ===== src/Scripts/Rs485.antt =====
-- debug_rs485_rx.py: four trials of the adapter, and what they say about it. What the port gives in each
-- trial is a parameter: the turns of its loop, each with the milliseconds since its start and the text that
-- was read, empty where nothing was waiting.
pub mod Silence
use smart_locker_iot.Prelude.{
  ℕ, zero, suc, ◌+◌, String, ◌<>◌, Bool, true, false, not, ◌&&◌, ◌||◌, Option, none, some, List, [],
  ◌∷◌, ◌++◌, ltb, string_eq, ◌==◌, if◌then◌else◌,
}
use smart_locker_iot.Prelude.Texts.{contains}

pub record Turn : Type 0 where
  pub elapsed : ℕ
  pub chunk : String

-- The port: RTS, what was written to it with the RTS of that moment, and what each trial reads.
pub record Port : Type 0 where
  pub rts : Bool
  pub written : List (Bool × String)
  pub trials : ℕ → List Turn

abbrev pub set_rts : Bool → Port → Port
set_rts level p = record p { rts = level }

abbrev pub write : String → Port → Port
write text p = record p { written = p.written ++ (p.rts, text) ∷ [] }

-- while time.time() - start < limit: response_bytes += …
unfoldable pub collect : ℕ → String → List Turn → String
collect limit response [] = response
collect limit response (t ∷ ts) =
    let more = collect limit (response <> t.chunk) ts in
    if ltb t.elapsed limit then more else response

abbrev ping : String
ping = "\nS2:PING\n"

-- The reading of a trial, and whether a byte came.
abbrev pub received : ℕ → Port → Bool
received trial p = not (collect 5000 "" (p.trials trial) == "")

unfoldable pub test_ping : ℕ → Port → Bool × Port
unfolding collect
test_ping trial p = let p' = write ping p in (received trial p', p')

-- The third trial sends with RTS on, and reads with RTS off.
unfoldable pub test_toggle : Port → Bool × Port
unfolding collect
test_toggle p = let p' = set_rts false (write ping (set_rts true p)) in (received 2 p', p')

-- The fourth: until a text names ALIVE or a slave.
unfoldable pub alive_received : List Turn → Bool
alive_received [] = false
alive_received (t ∷ ts) =
    let later = alive_received ts in
    if not (ltb t.elapsed 70000)
    then false
    else if contains t.chunk "ALIVE" || contains t.chunk "slave"
    then true
    else later

pub record Outcome : Type 0 where
  pub result1 : Bool
  pub result2 : Bool
  pub result3 : Bool
  pub alive : Bool

unfoldable pub run : Port → Outcome × Port
unfolding test_ping test_toggle alive_received
run p =
    let (result1, p₁) = test_ping 0 p in
    let (result2, p₂) = test_ping 1 (set_rts false p₁) in
    let (result3, p₃) = test_toggle p₂ in
    let p₄ = set_rts false p₃ in
    (
      record {
        result1 = result1;
        result2 = result2;
        result3 = result3;
        alive = alive_received (p₄.trials 3);
      },
      p₄,
    )

-- What is printed at the end: the adapter turns round too slowly, nothing is received at all, or RTS has
-- to be cleared after sending.
pub data Advice : Type 0 where
  slow_turnaround no_reception clear_rts : Advice

unfoldable pub advice : Outcome → Option Advice
advice o =
    let answered = o.result1 || o.result2 || o.result3 in
    if o.alive && not answered
    then some slow_turnaround
    else if not o.alive && not answered
    then some no_reception
    else if o.result2 || o.result3
    then some clear_rts
    else none
