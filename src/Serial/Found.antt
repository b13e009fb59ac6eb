-- ===== src/Serial/Found.antt =====
-- What the scan of infracstructure/serial_manager.py finds, told by the messages alone.
use smart_locker_iot.Prelude.{ℕ, zero, suc, ◌+◌, List, [], ◌∷◌, ◌≡◌, refl, ap, if◌then◌else◌}
use smart_locker_iot.Prelude.Int.{pos, negsuc}
use smart_locker_iot.Python.{Value, num, Fields, ok, as_number}
use smart_locker_iot.Serial.{
  Link, Line, Wait, arrived, port_error, exchange, send_and_wait, serial_error, ping, is_found,
  found_entry, scan_from, scan_slaves,
}
use smart_locker_iot.Serial.Replies.{last_answer, or_timeout, send_and_wait_lem}

-- The reply to a PING of a slave, by what happens on the line meanwhile.
abbrev pub pong : ℕ → Wait → Fields
pong sid (arrived ms) = or_timeout (num (negsuc 0)) (num (pos sid)) (last_answer (num (pos sid)) ms)
pong sid (port_error sent ms) = serial_error (num (negsuc 0)) (num (pos sid))

-- The entries of the slaves from `sid` on whose own PING was accepted; the first PING is command `n`.
unfoldable pub answering : ℕ → ℕ → ℕ → (ℕ → Wait) → List Value
answering sid zero n happens = []
answering sid (suc count) n happens =
    let rest = answering (suc sid) count (n + 1) happens in
    let reply = pong sid (happens n) in
    if is_found sid reply then found_entry sid reply ∷ rest else rest

send_and_wait-pong :
    (sid : ℕ) (w : Wait) (l : Link)
    → (send_and_wait (num (negsuc 0)) (num (pos sid)) w l).0 ≡ pong sid w
unfolding send_and_wait
send_and_wait-pong sid (arrived ms) l = ap (λ r. r.0) (send_and_wait_lem _ _ ms l)
send_and_wait-pong sid (port_error sent ms) l = refl

ping-pong : (sid : ℕ) (s : Line) → (ping sid s).0 ≡ pong sid (s.happens s.commands)
unfolding ping exchange
ping-pong sid s = send_and_wait-pong sid (s.happens s.commands) s.link

scan_from-answering :
    (sid count : ℕ) (s : Line)
    → (scan_from sid count s).0 ≡ answering sid count s.commands s.happens
unfolding scan_from answering ping
scan_from-answering sid zero s = refl
scan_from-answering sid (suc count) s =
    rw (ping-pong sid s, scan_from-answering (suc sid) count (ping sid s).1) refl

-- A scan finds exactly the slaves from 1 up to its end whose last answer to their own PING is an OK, in
-- order: what came during other commands, and what the link was left with, plays no part.
pub scan_slaves-answering :
    (n : ℕ) (s : Line) → (scan_slaves (num (pos n)) s).0 ≡ ok (answering 1 n s.commands s.happens)
unfolding scan_slaves as_number
scan_slaves-answering n s = ap ok (scan_from-answering 1 n s)
