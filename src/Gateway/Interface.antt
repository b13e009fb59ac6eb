-- ===== src/Gateway/Interface.antt =====
-- The methods of `SerialManager` (infracstructure/serial_manager.py) that the services call. A reply
-- is a dict, and no method raises: `_send_and_wait` turns every exception into a reply.
use smart_locker_iot.Python.{Value, Fields, Result}
use smart_locker_iot.Prelude.{List}

-- The arguments are the slot and the slave, and for `test_slot` the timeout.
pub record SerialPort : Type 1 where
  pub State : Type 0
  pub test_slot : Value → Value → Value → State → Fields × State
  pub open_slot : Value → Value → State → Fields × State
  pub close_slot : Value → Value → State → Fields × State
  -- The end of the range, which begins at 1.
  pub scan_slaves : Value → State → Result (List Value) × State
