-- ===== src/Tests/Setups.antt =====
-- The results at setups of a gateway in simulation mode.
use smart_locker_iot.Prelude.Texts.Laws.{free_of}
use smart_locker_iot.Prelude.{false, ◌≡◌, ◌↔◌, refl, [], ◌∷◌, ◌+◌, ◌<◌, arith}
use smart_locker_iot.Prelude.Int.{pos}
use smart_locker_iot.Prelude.Lists.{length}
use smart_locker_iot.Python.{
  put, num, str, arr, nil, cons, ok, find, same, get_or, get, key_of, iterate, dumps, serializable,
}
use smart_locker_iot.Prelude.Texts.{contains}
use smart_locker_iot.Python.Text.{format, int}
use smart_locker_iot.Python.Exec.{◌>>=◌, ◌>>◌}
use smart_locker_iot.Gateway.{setup, timestamp, publish}
use smart_locker_iot.Locker.Outcome.{is_ok}
use smart_locker_iot.Serial.{simulate_test_slot}
use smart_locker_iot.Setup.{
  visit, examine, test_slot, Plan, test_slots, untested, run_setup, handle, counted,
}
use smart_locker_iot.Setup.Slot.{slot_number, door_reading, marked, judge, Tally, overall}
use smart_locker_iot.Setup.Tested.{passes, test_slots_status, test_slots_simulated}
use smart_locker_iot.Setup.Running.{run_setup_releases, handle_twice}
use smart_locker_iot.Tests.Gateways.{gateway, slot, command_fields, command}

abbrev plan : Plan
plan = record {
  command_id = str "k";
  prefix = "iot/aa";
  timeout = num (pos 10);
  cabinet_id = str "c1";
  name = str "A";
  slave_id = num (pos 1);
  total = 1;
}

abbrev tally : Tally
tally = counted (simulate_test_slot (num (pos 0)) (num (pos 1))) untested

test_slots_status_example :
    (tally.ok_count ≡ passes tally.results)
    × (tally.ok_count + tally.fail_count ≡ length tally.results)
    × ((overall tally ≡ "COMPLETED") ↔ (passes tally.results ≡ length tally.results))
    × ((overall tally ≡ "FAILED") ↔ ((passes tally.results ≡ 0) × (0 < length tally.results)))
unfolding free_of test_slots ◌>>=◌ slot_number get visit int examine test_slot get_or timestamp ◌>>◌
    publish dumps serializable door_reading simulate_test_slot marked put is_ok contains find key_of
    same format judge
test_slots_status_example = test_slots_status plan 0 (slot 0 ∷ []) gateway tally refl

test_slots_simulated_example :
    (tally.ok_count ≡ 0) × (0 < length tally.results → overall tally ≡ "FAILED")
unfolding free_of test_slots ◌>>=◌ slot_number get visit int examine test_slot get_or timestamp ◌>>◌
    publish dumps serializable door_reading simulate_test_slot marked put is_ok contains find key_of
    same format judge
test_slots_simulated_example = test_slots_simulated plan 0 (slot 0 ∷ []) gateway tally refl

run_setup_releases_example :
    ((run_setup command "iot/aa" gateway).0 ≡ ok tt)
    × ((run_setup command "iot/aa" gateway).1.setup_running ≡ false)
run_setup_releases_example = run_setup_releases command_fields "iot/aa" gateway

handle_twice_example :
    (handle command "iot/aa" (handle command "iot/aa" gateway).1).1.pending
    ≡ setup command "iot/aa" ∷ setup command "iot/aa" ∷ []
unfolding get_or same iterate
handle_twice_example =
    handle_twice command (str "SETUP_LOCKERS") (arr (cons (slot 0) nil)) (slot 0 ∷ []) "iot/aa" refl
      refl refl refl gateway refl (omega arith)
