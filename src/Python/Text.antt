-- ===== src/Python/Text.antt =====
-- `str(x)` and `repr(x)`, which the f-strings of the services use, and `int(x)`.
-- ASCII is modelled: other blanks, digits and unprintable characters are taken as plain ones.
pub mod Decimal
use Prim.Native.Char.{Char, code}
use smart_locker_iot.Prelude.{
  ℕ, zero, suc, ◌+◌, ◌-◌, ◌*◌, ◌/◌, ◌%◌, String, ◌<>◌, Bool, true, false, not, ◌&&◌, ◌||◌, ltb, leb,
  nat_beq, Option, none, some, ◌==◌, string_eq, if◌then◌else◌,
}
use smart_locker_iot.Prelude.Texts.{contains}
use smart_locker_iot.Prelude.Int.{ℤ, pos, negsuc, neg}
use smart_locker_iot.Python.Defs.{
  Value, null, bool, num, str, datetime, arr, obj, Items, nil, cons, Fields, end, field, Result, ok,
  raise, value_error, type_error,
}

abbrev digit_text : ℕ → String
digit_text n =
    if nat_beq n 0
    then "0"
    else if nat_beq n 1
    then "1"
    else if nat_beq n 2
    then "2"
    else if nat_beq n 3
    then "3"
    else if nat_beq n 4
    then "4"
    else if nat_beq n 5
    then "5"
    else if nat_beq n 6
    then "6"
    else if nat_beq n 7
    then "7"
    else if nat_beq n 8
    then "8"
    else "9"

-- The decimal digits of a number: the fuel is above their count.
decimal_loop : ℕ → ℕ → String
decimal_loop zero n = ""
decimal_loop (suc fuel) n =
    let rest = decimal_loop fuel (n / 10) in
    if ltb n 10 then digit_text n else rest <> digit_text (n % 10)

unfoldable pub decimal : ℕ → String
unfolding decimal_loop
decimal n = decimal_loop (suc n) n

unfoldable pub show_int : ℤ → String
unfolding decimal
show_int (pos n) = decimal n
show_int (negsuc n) = "-" <> decimal (suc n)

hex_digit : ℕ → String
hex_digit n =
    if ltb n 10
    then digit_text n
    else if nat_beq n 10
    then "a"
    else if nat_beq n 11
    then "b"
    else if nat_beq n 12
    then "c"
    else if nat_beq n 13
    then "d"
    else if nat_beq n 14
    then "e"
    else "f"

-- A digit of `%X`.
unfoldable pub hex_digit_upper : ℕ → String
hex_digit_upper n =
    if ltb n 10
    then digit_text n
    else if nat_beq n 10
    then "A"
    else if nat_beq n 11
    then "B"
    else if nat_beq n 12
    then "C"
    else if nat_beq n 13
    then "D"
    else if nat_beq n 14
    then "E"
    else "F"

-- A character inside a quoted text.
escape : String → Char → String
unfolding hex_digit
escape quote c =
    if nat_beq (code c) b'\\'
    then "\\\\"
    else if String.◌∷◌ c String.[] == quote
    then "\\" <> quote
    else if nat_beq (code c) b'\n'
    then "\\n"
    else if nat_beq (code c) b'\r'
    then "\\r"
    else if nat_beq (code c) b'\t'
    then "\\t"
    else if ltb (code c) 32 || nat_beq (code c) 127
    then "\\x" <> (hex_digit (code c / 16) <> hex_digit (code c % 16))
    else String.◌∷◌ c String.[]

escape_all : String → String → String
unfolding escape
escape_all quote String.[] = ""
escape_all quote (String.◌∷◌ c s) = escape quote c <> escape_all quote s

-- Single quotes, unless the text has one and no double quote.
repr_text : String → String
unfolding escape_all
repr_text s =
    let quote = (if contains s "'" && not (contains s "\"") then "\"" else "'") in
    quote <> (escape_all quote s <> quote)

-- A `datetime` is printed by its number.
unfoldable mutual
  unfolding show_int repr_text

  pub repr : Value → String
  repr null = "None"
  repr (bool true) = "True"
  repr (bool false) = "False"
  repr (num n) = show_int n
  repr (str s) = repr_text s
  repr (datetime t) = "datetime(" <> (decimal t <> ")")
  repr (arr vs) = "[" <> (repr_items vs <> "]")
  repr (obj fs) = "{" <> (repr_fields fs <> "}")

  repr_items : Items → String
  repr_items nil = ""
  repr_items (cons v nil) = repr v
  repr_items (cons v (cons w vs)) = repr v <> (", " <> repr_items (cons w vs))

  repr_fields : Fields → String
  repr_fields end = ""
  repr_fields (field k v end) = repr_text k <> (": " <> repr v)
  repr_fields (field k v (field j w fs)) =
      repr_text k <> (": " <> (repr v <> (", " <> repr_fields (field j w fs))))

-- str(x), and x in an f-string
unfoldable pub format : Value → String
unfolding repr
format (str s) = s
format v = repr v

unfoldable pub is_blank : Char → Bool
is_blank c = leb 9 (code c) && leb (code c) 13 || leb 28 (code c) && leb (code c) 32

is_digit : Char → Bool
is_digit c = leb b'0' (code c) && leb (code c) b'9'

only_blanks : String → Bool
unfolding is_blank
only_blanks String.[] = true
only_blanks (String.◌∷◌ c s) = is_blank c && only_blanks s

-- The digits of `int("…")`: single underscores between digits, then blanks. The flag says that a
-- digit stands directly before.
digits_value : String → Bool → ℕ → Option ℕ
unfolding is_digit only_blanks
digits_value String.[] after n = if after then some n else none
digits_value (String.◌∷◌ c s) after n =
    let more = digits_value s true (n * 10 + (code c - b'0')) in
    let next = digits_value s false n in
    if is_digit c
    then more
    else if after && nat_beq (code c) b'_'
    then next
    else if after && only_blanks (String.◌∷◌ c s)
    then some n
    else none

with_sign : (ℕ → ℤ) → Option ℕ → Result ℤ
with_sign f none = raise value_error
with_sign f (some n) = ok (f n)

unfoldable pub int_of_text : String → Result ℤ
unfolding is_blank digits_value with_sign
int_of_text String.[] = raise value_error
int_of_text (String.◌∷◌ c s) =
    let rest = int_of_text s in
    if is_blank c
    then rest
    else if nat_beq (code c) b'-'
    then with_sign neg (digits_value s false 0)
    else if nat_beq (code c) b'+'
    then with_sign pos (digits_value s false 0)
    else with_sign pos (digits_value (String.◌∷◌ c s) false 0)

-- int(x)
unfoldable pub int : Value → Result ℤ
unfolding int_of_text
int (bool true) = ok (pos 1)
int (bool false) = ok (pos 0)
int (num n) = ok n
int (str s) = int_of_text s
int v = raise type_error
