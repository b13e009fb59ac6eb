-- ===== src/Tests/Lines.antt =====
-- The results at a serial line and at a few replies.
use smart_locker_iot.Prelude.{true, false, ◌≡◌, none, [], ◌∷◌, ◌≤◌}
use smart_locker_iot.Prelude.Int.{pos}
use smart_locker_iot.Python.{num, str, Fields, end, field}
use smart_locker_iot.Serial.{Link, Line, arrived, send_and_wait, reconnect_delay, attempts_after}
use smart_locker_iot.Serial.Replies.{last_answer, door_calls, or_timeout, send_and_wait_lem}
use smart_locker_iot.Serial.Scan.{reconnect_delay_bounds}

-- The reply of slave 1 to a command for slot 3, and a door event of slave 1.
abbrev reply : Fields
reply = field "slave" (num (pos 1)) (field "slot" (num (pos 3)) (field "result" (str "OK") end))

abbrev push : Fields
push =
    field "slave" (num (pos 1)) (field "event" (str "DOOR_OPENED") (field "slot" (num (pos 3)) end))

abbrev pub link : Link
link = record { waiting = none; response = none; door_events = [] }

send_and_wait_lem_example :
    send_and_wait (num (pos 3)) (num (pos 1)) (arrived (push ∷ reply ∷ [])) link ≡ (
      or_timeout (num (pos 3)) (num (pos 1)) (last_answer (num (pos 1)) (push ∷ reply ∷ [])),
      record { waiting = none; response = none; door_events = door_calls (push ∷ reply ∷ []) },
    )
send_and_wait_lem_example = send_and_wait_lem (num (pos 3)) (num (pos 1)) (push ∷ reply ∷ []) link

abbrev pub line : Line
line = record {
  link = link;
  attached = true;
  written = [];
  commands = 0;
  happens = λ n. arrived (reply ∷ []);
}

reconnect_delay_bounds_example :
    (reconnect_delay 7 ≤ reconnect_delay (attempts_after false 7))
    × (reconnect_delay 7 ≤ 60)
    × (6 ≤ 7 → reconnect_delay 7 ≡ 60)
    × (reconnect_delay (attempts_after true 7) ≡ 1)
reconnect_delay_bounds_example = reconnect_delay_bounds 7
