-- ===== src/Tests/Runs.antt =====
-- The results at runs of a gateway in simulation mode, and at its commands.
use smart_locker_iot.Prelude.{◌≡◌, ◌*◌, ◌≢◌, refl, some, List, [], ◌∷◌, ◌+◌, ◌≤◌}
use smart_locker_iot.Prelude.Int.{pos}
use smart_locker_iot.Python.{num, str, Key, str_key, int_key, key_of}
use smart_locker_iot.Heartbeat.{update_locker_state}
use smart_locker_iot.Heartbeat.Status.{tracked, update_locker_state_tracks}
use smart_locker_iot.Service.{Event, tick, thread, door, react_all}
use smart_locker_iot.Service.Beats.{Move, beat, other, launched, play, heard, play_lem}
use smart_locker_iot.Tests.Gateways.{gateway}

abbrev events : List Event
events = tick ∷ thread 0 ∷ door (num (pos 0)) "DOOR_OPENED" (num (pos 1)) ∷ []

-- A round, a door that opens, and the first second of the pause.
abbrev moves : List Move
moves = beat ∷ other (door (num (pos 0)) "DOOR_OPENED" (num (pos 1))) ∷ beat ∷ []

play_lem_example :
    let b = play 2 moves (launched gateway) in
    (b.gateway ≡ react_all (heard 2 moves (launched gateway)) gateway)
    × (b.seconds ≤ b.rounds * 2)
    × (b.rounds * 2 ≤ b.seconds + 2)
play_lem_example = play_lem 2 moves gateway

update_locker_state_tracks_example :
    let t =
      (update_locker_state (str "c1") (num (pos 0)) "OPENING" gateway).1.heartbeat.locker_states in
    (tracked (str_key "c1") (int_key (pos 0)) t ≡ some (str "OPENING"))
    × ((k : Key) → int_key (pos 0) ≢ k → tracked (str_key "c1") k t ≡ tracked (str_key "c1") k [])
    × ((d k : Key) → str_key "c1" ≢ d → tracked d k t ≡ tracked d k [])
unfolding key_of
update_locker_state_tracks_example =
    update_locker_state_tracks (str "c1") (num (pos 0)) "OPENING" (str_key "c1") (int_key (pos 0))
      gateway refl refl
