-- ===== src/Serial/Listener.antt =====
-- infracstructure/serial_manager.py, `_listener_loop`: what is read from the line is cut into lines,
-- and the JSON of each line is handled.
use Prim.Native.Char.{code}
use smart_locker_iot.Prelude.{
  ℕ, String, ◌<>◌, Bool, false, ◌||◌, Option, none, some, List, [], ◌∷◌, string_eq, ◌==◌, nat_beq,
  if◌then◌else◌,
}
use smart_locker_iot.Prelude.Texts.{split}
use smart_locker_iot.Python.{Fields, Result}
use smart_locker_iot.Python.Text.{is_blank}
use smart_locker_iot.Python.Exec.{Exec, pure, lift, modify, ◌>>=◌, ◌>>◌}
use smart_locker_iot.Serial.{Link, handle_message}

-- `c in text` for a text of one character, by its code.
unfoldable pub has_char : ℕ → String → Bool
has_char c String.[] = false
has_char c (String.◌∷◌ d s) = nat_beq (code d) c || has_char c s

-- lines.pop(-1): the lines that stay, and the one that is taken.
unfoldable pub pop : List String → List String × String
pop [] = ([], "")
pop (line ∷ []) = ([], line)
pop (line ∷ next ∷ lines) = let (rest, last) = pop (next ∷ lines) in (line ∷ rest, last)

-- The lines that a chunk completes, and the buffer afterwards.
unfoldable pub receive : String → String → List String × String
unfolding has_char pop
receive chunk buffer =
    if has_char b'\n' (buffer <> chunk)
    then pop (split b'\n' (buffer <> chunk))
    else ([], buffer <> chunk)

unfoldable pub lstrip : String → String
lstrip String.[] = ""
lstrip (String.◌∷◌ c s) = let rest = lstrip s in if is_blank c then rest else String.◌∷◌ c s

-- What is stripped at the right is a suffix of blanks.
unfoldable pub rstrip : String → String
rstrip String.[] = ""
rstrip (String.◌∷◌ c s) =
    let rest = rstrip s in
    if is_blank c then (if rest == "" then "" else String.◌∷◌ c rest) else String.◌∷◌ c rest

-- s.replace('\x00', '')
unfoldable pub without_nul : String → String
without_nul String.[] = ""
without_nul (String.◌∷◌ c s) =
    let rest = without_nul s in if nat_beq (code c) 0 then rest else String.◌∷◌ c rest

-- line[line.find("{"):], if there is a brace.
unfoldable pub from_brace : String → Option String
from_brace String.[] = none
from_brace (String.◌∷◌ c s) =
    let rest = from_brace s in if nat_beq (code c) b'{' then some (String.◌∷◌ c s) else rest

-- `buffer`: the text after the last newline.
pub record Listener : Type 0 where
  pub buffer : String
  pub link : Link

-- `loads` is `json.loads` of a text that begins with a brace: its object, or `none` for the
-- JSONDecodeError that is caught; another exception is raised.
module _ (loads : String → Result (Option Fields)) where
  unfoldable pub handle_incoming_json : String → Exec Link (Unit {0})
  unfolding ◌>>=◌ handle_message
  handle_incoming_json text = do
    found ← lift (loads text)
    elim found [ none ↦ pure tt | some message ↦ modify (handle_message message) ]

  unfoldable pub handle_line : String → Exec Link (Unit {0})
  unfolding lstrip rstrip without_nul from_brace handle_incoming_json
  handle_line line =
      let text = without_nul (rstrip (lstrip line)) in
      if text == ""
      then pure tt
      else elim (from_brace text) [ none ↦ pure tt | some json ↦ handle_incoming_json json ]

  unfoldable pub handle_lines : List String → Exec Link (Unit {0})
  unfolding ◌>>=◌ ◌>>◌ handle_line
  handle_lines [] = pure tt
  handle_lines (line ∷ lines) = do handle_line line; handle_lines lines

  -- One chunk that was read and decoded. An exception ends the handling of its lines, and the loop
  -- goes on.
  unfoldable pub listen : String → Listener → Listener
  unfolding receive handle_lines
  listen chunk s =
      let (lines, rest) = receive chunk s.buffer in
      record { buffer = rest; link = (handle_lines lines s.link).1 }

  unfoldable pub listen_all : List String → Listener → Listener
  unfolding listen
  listen_all [] s = s
  listen_all (chunk ∷ chunks) s = listen_all chunks (listen chunk s)
