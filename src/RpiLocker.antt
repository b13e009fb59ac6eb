-- ===== src/RpiLocker.antt =====
-- hardware/rpi_locker.py: the stand-in for the GPIO, which main.py builds. A locker's id is its hash.
use smart_locker_iot.Prelude.{
  String, Bool, true, false, Option, none, some, ◌≡◌, ◌≢◌, ap, sym, ◌∙◌, arith,
}
use smart_locker_iot.Prelude.Dict
use smart_locker_iot.Prelude.Dict.{Dict}
use smart_locker_iot.Python.{Key, key_eq}

-- The door sensor is false, and the lock sensor true, while the locker is closed and locked.
pub record LockerStatus : Type 0 where
  pub hw_state : String
  pub door_sensor : Bool
  pub lock_sensor : Bool

pub record HardwareController : Type 0 where
  pub states : Dict Key LockerStatus

abbrev pub initial : LockerStatus
initial = record { hw_state = "CLOSING"; door_sensor = false; lock_sensor = true }

abbrev pub unlocked : LockerStatus
unlocked = record { hw_state = "OPENING"; door_sensor = true; lock_sensor = false }

unfoldable pub init_locker : Key → HardwareController → HardwareController
init_locker id c = record c { states = Dict.insert id initial c.states }

-- if locker_id not in self._states: self.init_locker(locker_id)
unfoldable pub ensured : Key → HardwareController → HardwareController
unfolding init_locker
ensured id c = elim (Dict.get id c.states) [ none ↦ init_locker id c | some status ↦ c ]

unfoldable pub unlock : Key → HardwareController → Bool × HardwareController
unfolding ensured
unlock id c =
    let c' = ensured id c in (true, record c' { states = Dict.insert id unlocked c'.states })

-- What the lookup gives after `ensured` is there.
unfoldable pub get_status : Key → HardwareController → Option LockerStatus × HardwareController
unfolding ensured
get_status id c = let c' = ensured id c in (Dict.get id c'.states, c')

abbrev or_initial : Option LockerStatus → LockerStatus
or_initial none = initial
or_initial (some status) = status

get-ensured :
    (id : Key) (c : HardwareController)
    → Dict.get id (ensured id c).states ≡ some (or_initial (Dict.get id c.states))
unfolding ensured init_locker
get-ensured id c = ground (arith, Dict.get-insert_self id initial c.states)

get-ensured_ne :
    (id other : Key) (c : HardwareController)
    → id ≢ other
    → Dict.get other (ensured id c).states ≡ Dict.get other c.states
unfolding ensured init_locker
get-ensured_ne id other c ne = ground (arith, Dict.get-insert_ne id other initial c.states ne)

-- A locker's status is there whenever it is asked for: after unlocking it is unlocked, and another
-- locker's status is what it was.
get_status-unlock :
    (id other : Key) (c : HardwareController)
    → id ≢ other
    → ((get_status id (unlock id c).1).0 ≡ some unlocked)
      × ((get_status other (unlock id c).1).0 ≡ (get_status other c).0)
unfolding get_status unlock
get_status-unlock id other c ne =
    let after = (unlock id c).1 in
    (
      get-ensured id after
          ∙ ap (λ o. some (or_initial o)) (Dict.get-insert_self id unlocked (ensured id c).states),
      get-ensured other after
          ∙ ap (λ o. some (or_initial o))
              (Dict.get-insert_ne id other unlocked (ensured id c).states ne
                ∙ get-ensured_ne id other c ne)
          ∙ sym (get-ensured other c),
    )
