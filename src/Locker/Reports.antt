-- ===== src/Locker/Reports.antt =====
-- What the outcome of a command in services/locker_service.py reports, and how it agrees with the door.
use smart_locker_iot.Prelude.{
  String, Bool, true, false, not, ◌&&◌, ◌≡◌, ◌↔◌, refl, ap, ◌∙◌, sym, arith, if◌then◌else◌,
  string_eq, ◌==◌,
}
use smart_locker_iot.Python.{Fields}
use smart_locker_iot.Locker.Outcome.{is_ok, door_is_closed, open_report, close_report}

-- The state of the door that a report tells.
abbrev pub told : Bool → String
told closed = if closed then "CLOSING" else "OPENING"

abbrev outcome : Bool → String
outcome passed = if passed then "SUCCESS" else "FAILED"

success_or_failure : (b : Bool) → (outcome b ≡ "SUCCESS") ↔ (b ≡ true)
success_or_failure true = (λ e. refl, λ e. refl)
success_or_failure false = (λ e. let f : true ≡ false = ap (λ s. s == "FAILED") e in cc, λ e. cc)

-- The report of an open command is SUCCESS exactly if the Arduino said OK and the door is open. After an OK
-- it tells the door as the sensor does; without one it tells CLOSING, whatever the sensor says.
pub open_report_lem :
    (reply : Fields)
    → (((open_report reply).status ≡ "SUCCESS")
        ↔ ((is_ok reply && not (door_is_closed reply)) ≡ true))
      × (is_ok reply ≡ true → (open_report reply).hw_state ≡ told (door_is_closed reply))
      × (is_ok reply ≡ false → (open_report reply).hw_state ≡ "CLOSING")
unfolding open_report
open_report_lem reply =
    let (to, from) = success_or_failure (is_ok reply && not (door_is_closed reply)) in
    let status : (open_report reply).status ≡ outcome (is_ok reply && not (door_is_closed reply)) =
      ground arith in
    ((λ e. to (sym status ∙ e), λ h. status ∙ from h), λ h. ground arith, λ h. ground arith)

-- The report of a close command is SUCCESS exactly if the Arduino said OK and the door is closed, and it
-- always tells the door as the sensor does.
close_report_lem :
    (reply : Fields)
    → (((close_report reply).status ≡ "SUCCESS") ↔ ((is_ok reply && door_is_closed reply) ≡ true))
      × ((close_report reply).hw_state ≡ told (door_is_closed reply))
unfolding close_report
close_report_lem reply =
    let (to, from) = success_or_failure (is_ok reply && door_is_closed reply) in
    let status : (close_report reply).status ≡ outcome (is_ok reply && door_is_closed reply) =
      ground arith in
    ((λ e. to (sym status ∙ e), λ h. status ∙ from h), ground arith)
