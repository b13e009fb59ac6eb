-- ===== src/Setup/Slot.antt =====
-- The pure parts of services/setup_handler.py: how one slot's test is judged, and the payloads.
use smart_locker_iot.Prelude.{
  ℕ, zero, suc, String, ◌<>◌, Bool, true, false, not, Option, none, some, List, [], ◌∷◌, string_eq,
  nat_beq, if◌then◌else◌,
}
use smart_locker_iot.Prelude.Int.{ℤ, pos, is_negative}
use smart_locker_iot.Python.{
  Value, null, bool, str, arr, obj, Items, nil, cons, Fields, find, put, default, get, index,
  is_none, truthy, same, Result, ok, raise, type_error, ◌>>=◌,
}
use smart_locker_iot.Python.Text.{format, int}
use smart_locker_iot.Domain.{
  setup_progress_to_json, hw_detail_asdict, setup_progress_asdict, locker_result_detail_asdict,
  setup_result_to_json, setup_result_summary_asdict,
}
use smart_locker_iot.Locker.Outcome.{is_ok}

-- `testResult`, `error_code` and `error_msg` of a slot.
pub record Verdict : Type 0 where
  pub passed : Bool
  pub error_code : Value
  pub error_msg : Value

-- result.get("door", False)
unfoldable pub door_reading : Fields → Value
door_reading reply = default (bool false) (find "door" reply)

unfoldable pub judge : Fields → Verdict
unfolding door_reading
judge reply =
    if not (is_ok reply)
    then record {
      passed = false;
      error_code = str "HW_ERROR";
      error_msg =
          str ("Arduino test failed: " <> format (default (str "unknown") (find "error" reply)));
    }
    else if truthy (door_reading reply)
    then record {
      passed = false;
      error_code = str "DOOR_STUCK";
      error_msg = str "Servo popped but door remained closed (mechanical delay or stuck)";
    }
    else record { passed = true; error_code = null; error_msg = null }

abbrev pub test_result : Verdict → String
test_result v = if v.passed then "OK" else "FAIL"

-- The reply, with the judgement written into it.
unfoldable pub marked : Fields → Fields
unfolding judge
marked reply = put "error_msg" (judge reply).error_msg (
    put "error_code" (judge reply).error_code
      (put "result" (str (test_result (judge reply))) reply))

abbrev accepted : Result ℤ → Option ℤ
accepted (raise e) = none
accepted (ok n) = if is_negative n then none else some n

abbrev numbered : Value → Option ℤ
numbered raw = if is_none raw then none else accepted (int raw)

-- The slot's number, or `none` where the loop goes on to the next slot.
unfoldable pub slot_number : Value → Result (Option ℤ)
slot_number slot = get "slotIndex" slot >>= λ raw. ok (numbered (default null raw))

-- `results`, `ok_count` and `fail_count`.
pub record Tally : Type 0 where
  pub results : List Fields
  pub ok_count : ℕ
  pub fail_count : ℕ

unfoldable pub overall : Tally → String
overall t =
    if nat_beq t.fail_count 0
    then "COMPLETED"
    else if nat_beq t.ok_count 0
    then "FAILED"
    else "PARTIAL"

-- The payload of `setup/progress`.
abbrev pub progress_payload :
    Value → Value → ℤ → Value → Value → Fields → ℕ → ℕ → Tally → Value → Value
progress_payload command_id cabinet_id slot_index row column reply tested total t now =
    setup_progress_to_json (record {
      command_id = command_id;
      cabinet_id = cabinet_id;
      slot_index = slot_index;
      row = row;
      column = column;
      test_result = test_result (judge reply);
      hw_detail = hw_detail_asdict (record {
        servo_response = (judge reply).passed;
        door_sensor = door_reading reply;
        lock_sensor = false;
        response_time_ms = default null (find "ms" (marked reply));
      });
      progress = setup_progress_asdict (record {
        tested = pos tested;
        total = pos total;
        ok_count = pos t.ok_count;
        fail_count = pos t.fail_count;
      });
      timestamp = now;
    })

-- asdict(LockerResultDetail(…)) of a slot of the layout and a result.
unfoldable pub locker_detail : Value → Fields → Result Value
locker_detail slot res = do
  slot_index ← index "slotIndex" slot
  row ← index "row" slot
  column ← index "column" slot
  result ← index "result" (obj res)
  ok (
      locker_result_detail_asdict (record {
        slot_index = slot_index;
        row = row;
        column = column;
        test_result = result;
        hw_state = (if same result (str "OK") then "CLOSING" else "OFFLINE");
        response_time_ms = default null (find "ms" res);
        error_code = default null (find "error_code" res);
        error_message = default null (find "error_msg" res);
      }))

-- The loop over zip(layout, results).
unfoldable pub locker_details : List Value → List Fields → Result (List Value)
unfolding locker_detail
locker_details [] results = ok []
locker_details (slot ∷ layout) [] = ok []
locker_details (slot ∷ layout) (res ∷ results) = do
  detail ← locker_detail slot res
  rest ← locker_details layout results
  ok (detail ∷ rest)

-- The payload of `setup/result`.
abbrev pub setup_result : Value → Value → String → ℕ → Tally → ℤ → List Value → Value → Value
setup_result command_id cabinet_id status total t duration details now =
    setup_result_to_json (record {
      command_id = command_id;
      cabinet_id = cabinet_id;
      status = status;
      summary = setup_result_summary_asdict (record {
        total = pos total;
        total_ok = pos t.ok_count;
        total_fail = pos t.fail_count;
        duration = duration;
      });
      lockers = details;
      timestamp = now;
    })

abbrev take_text : ℕ → String → String
take_text zero s = ""
take_text (suc n) String.[] = ""
take_text (suc n) (String.◌∷◌ c s) = String.◌∷◌ c (take_text n s)

abbrev take_items : ℕ → Items → Items
take_items zero vs = nil
take_items (suc n) nil = nil
take_items (suc n) (cons v vs) = cons v (take_items n vs)

-- x[:n]
first : ℕ → Value → Result Value
first n (str s) = ok (str (take_text n s))
first n (arr vs) = ok (arr (take_items n vs))
first n v = raise type_error

fallback_name : Value → Result Value
unfolding first
fallback_name cabinet_id = first 4 cabinet_id >>= λ p. ok (str ("Cab-" <> format p))

-- cabinetCode or name or "Cab-…"
unfoldable pub cabinet_name : Value → Value → Result Value
unfolding fallback_name
cabinet_name cabinet_id cab = do
  code ← get "cabinetCode" cab
  name ← get "name" cab
  if truthy (default null code)
      then ok (default null code)
      else if truthy (default null name)
      then ok (default null name)
      else fallback_name cabinet_id
