-- ===== src/Database/Methods/Columns.antt =====
-- Values of columns as the methods of infracstructure/database.py return them, and `data.get`.
use smart_locker_iot.Prelude.{String, Bool, Option, none, some, string_eq}
use smart_locker_iot.Prelude.Int.{ℤ}
use smart_locker_iot.Python.{Value, null, bool, num, str, Fields, find, default}

abbrev pub text_value : Option String → Value
text_value none = null
text_value (some s) = str s

abbrev pub int_value : Option ℤ → Value
int_value none = null
int_value (some n) = num n

abbrev pub bool_value : Option Bool → Value
bool_value none = null
bool_value (some b) = bool b

-- data.get(k), data.get(k, d) of a dict
abbrev pub arg : String → Value → Fields → Value
arg k d fs = default d (find k fs)
