-- ===== src/Service/Routing.antt =====
-- services/locker_service.py with infracstructure/mqtt_client.py: a message on a topic that the client
-- subscribes to reaches the handler that it is meant for.
use Prim.Native.Char.{Char}
use Prim.Native.String.append
use text.Mathlib.TextLemmas as Text
use smart_locker_iot.Prelude.{
  String, ◌<>◌, true, false, some, ◌≡◌, refl, ap, ◌∙◌, arith, Bool-cases, inl, inr,
}
use smart_locker_iot.Prelude.Lists.{get_elem?}
use smart_locker_iot.Prelude.Texts.{ends_with, contains, starts, split}
use smart_locker_iot.Prelude.Texts.Laws.{
  free_of, ends_with-other, contains-append, contains-free_of, split-free_of, starts-free_of,
}
use smart_locker_iot.Python.{Value}
use smart_locker_iot.Python.Exec.{◌>>=◌}
use smart_locker_iot.Gateway.{SerialPort}
use smart_locker_iot.Locker.{
  read_request, read_named, when_named, answer, perform_open, perform_close, handle_open_command,
  handle_close_command,
}
use smart_locker_iot.Service.{route}

abbrev pub cabinet_topic : String → String → String
cabinet_topic name command = "cabinet/" <> (name <> command)

abbrev pub slash : Char
slash = "/"

topic_slash : (rest : String) → "cabinet/" <> rest ≡ "cabinet" <> String.◌∷◌ slash rest
topic_slash rest =
    Text.append_assoc "cabinet" "/" rest
    ∙ ap (λ t. "cabinet" <> t) (rw (append.cons, Text.nil-append) refl)

-- The second part of a topic is the cabinet's name.
pub split-cabinet_topic :
    (name command : String)
    → free_of b'/' name ≡ true
    → get_elem? (split b'/' (cabinet_topic name (String.◌∷◌ slash command))) 1 ≡ some name
unfolding free_of
split-cabinet_topic name command plain =
    let rest : String = name <> String.◌∷◌ slash command in
    ap (λ t. get_elem? (split b'/' t) 1) (topic_slash rest)
    ∙ ap (λ ws. get_elem? ws 1) (split-free_of b'/' "cabinet" rest slash refl refl)
    ∙ ap (λ ws. get_elem? ws 0) (split-free_of b'/' name command slash plain refl)

-- A command's topic is no topic of a setup.
module _ (name : String) where
  ends_with-open :
      (ends_with (cabinet_topic name "/command/open") "/command/setup" ≡ false)
      × (ends_with (cabinet_topic name "/command/open") "/command/clear-setup" ≡ false)
  unfolding ends_with
  ends_with-open = rw (← Text.append_assoc "cabinet/" name "/command/open") (
    ends_with-other ("cabinet/" <> name) "/command/open" "/command/" "setup" (omega arith) refl,
    ends_with-other ("cabinet/" <> name) "/command/open" "/command/clear-" "setup" (omega arith)
        refl,
  )

  ends_with-close :
      (ends_with (cabinet_topic name "/command/close") "/command/setup" ≡ false)
      × (ends_with (cabinet_topic name "/command/close") "/command/clear-setup" ≡ false)
  unfolding ends_with
  ends_with-close = rw (← Text.append_assoc "cabinet/" name "/command/close") (
    ends_with-other ("cabinet/" <> name) "/command/close" "/command/" "setup" (omega arith) refl,
    ends_with-other ("cabinet/" <> name) "/command/close" "/command/clear-" "setup" (omega arith)
        refl,
  )

  contains-cabinet_topic :
      (command : String)
      → contains command command ≡ true
      → contains (cabinet_topic name command) command ≡ true
  contains-cabinet_topic command h =
      contains-append "cabinet/" (name <> command) command (contains-append name command command h)

  starts-close : free_of b'/' name ≡ true → starts (name <> "/command/close") "command/open" ≡ false
  unfolding starts free_of
  starts-close plain = elim (Bool-cases (starts (name <> "/command/close") "command/open")) [
    | inr e ↦ e
    | inl e ↦ absurd (
        let impossible : false ≡ true =
          starts-free_of slash name "command/close" "command" "open" plain refl e in
        cc)
  ]

  -- A command to close is none to open: the name has no slash.
  contains-close :
      free_of b'/' name ≡ true
      → contains (cabinet_topic name "/command/close") "/command/open" ≡ false
  unfolding contains starts free_of
  contains-close plain =
      let rest : String = name <> "/command/close" in
      ap (λ t. contains t "/command/open") (topic_slash rest)
      ∙ contains-free_of slash "cabinet" (String.◌∷◌ slash rest) "command/open" refl
      ∙ rw (starts-close plain) (contains-free_of slash name "/command/close" "command/open" plain)

module _ {P : SerialPort} where
  read_request-cabinet_topic :
      (name command : String) (payload : Value)
      → free_of b'/' name ≡ true
      → read_request {P = P} (cabinet_topic name (String.◌∷◌ slash command)) payload
        ≡ read_named payload name
  unfolding read_request when_named
  read_request-cabinet_topic name command payload plain =
      ap (λ found. when_named found (read_named payload)) (split-cabinet_topic name command plain)

  -- A message on the topic to which the client subscribes a cabinet, whose name has no slash, is a
  -- command to open this cabinet, or to close it, and no other.
  pub route-cabinet_topic :
      (name : String) (payload : Value)
      → free_of b'/' name ≡ true
      → (route {P = P} (cabinet_topic name "/command/open") payload
          ≡ (read_named payload name >>= answer perform_open))
        × (route {P = P} (cabinet_topic name "/command/close") payload
            ≡ (read_named payload name >>= answer perform_close))
  unfolding route contains handle_open_command handle_close_command
  route-cabinet_topic name payload plain = (
    rw
        (
          (ends_with-open name).0,
          (ends_with-open name).1,
          contains-cabinet_topic name "/command/open" refl,
        )
        (ap (λ m. m >>= answer perform_open)
          (read_request-cabinet_topic name "command/open" payload plain)),
    rw
        (
          (ends_with-close name).0,
          (ends_with-close name).1,
          contains-close name plain,
          contains-cabinet_topic name "/command/close" refl,
        )
        (ap (λ m. m >>= answer perform_close)
          (read_request-cabinet_topic name "command/close" payload plain)),
  )
