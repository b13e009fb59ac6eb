-- ===== src/Service/Closing.antt =====
-- services/locker_service.py: for which topics of close commands a running gateway calls `subscribe`.
use text.Mathlib.TextLemmas as Text
use smart_locker_iot.Prelude.{
  Bool-cases, inl, inr, String, ◌<>◌, true, false, List, [], ◌∷◌, ◌++◌, ◌≡◌, refl, ap, ◌∙◌, sym,
  arith, if◌then◌else◌,
}
use smart_locker_iot.Prelude.Texts.{ends_with}
use smart_locker_iot.Prelude.Texts.Laws.{ends_with-other, ends_with-append}
use smart_locker_iot.CabinetState.{is_configured, all_cabinets}
use smart_locker_iot.Gateway.{SerialPort, Gateway, all}
use smart_locker_iot.Service.{Event, react_all, start_up}
use smart_locker_iot.Service.Subscribed.{Named, command_topics, start_up-Named}
use smart_locker_iot.Discovery.Report.{report}
use smart_locker_iot.Python.{Value, num, ok, dumps}
use smart_locker_iot.Service.Reach.{IsKept, Keeps-react_all}
use smart_locker_iot.Service.Routing.{cabinet_topic}

-- The topics of close commands among these.
unfoldable pub closing : List String → List String
closing [] = []
closing (topic ∷ topics) =
    if ends_with topic "/command/close" then topic ∷ closing topics else closing topics

ends_with-close :
    (name : String)
    → (ends_with (cabinet_topic name "/command/open") "/command/close" ≡ false)
      × (ends_with (cabinet_topic name "/command/close") "/command/close" ≡ true)
unfolding ends_with
ends_with-close name = (
  ap (λ t. ends_with t "/command/close") (sym (Text.append_assoc "cabinet/" name "/command/open"))
      ∙ ends_with-other ("cabinet/" <> name) "/command/open" "/command/" "close" (omega arith) refl,
  ap (λ t. ends_with t "/command/close") (sym (Text.append_assoc "cabinet/" name "/command/close"))
      ∙ ends_with-append ("cabinet/" <> name) "/command/close" "/command/close" (omega arith),
)

closing-open :
    (name : String) (topics : List String)
    → closing (topics ++ cabinet_topic name "/command/open" ∷ []) ≡ closing topics
unfolding closing
closing-open name [] = rw (ends_with-close name).0 refl
closing-open name (topic ∷ topics) = rw (closing-open name topics) refl

closing-IsKept : (base : List String) → IsKept (λ s topics. closing topics ≡ closing base)
closing-IsKept base = record {
  calls = λ c s topics h. h;
  writes = λ w s topics h. h;
  opens = λ s topics name h. closing-open name topics ∙ h;
}

-- The topics of the close commands of these cabinets.
abbrev pub close_topics : List String → List String
close_topics [] = []
close_topics (name ∷ names) = cabinet_topic name "/command/close" ∷ close_topics names

closing-commands :
    (topics names : List String)
    → closing (topics ++ command_topics names) ≡ closing topics ++ close_topics names
unfolding closing
closing-commands [] [] = refl
closing-commands [] (name ∷ names) =
    rw ((ends_with-close name).0, (ends_with-close name).1, closing-commands [] names) refl
closing-commands (topic ∷ topics) names = elim (Bool-cases (ends_with topic "/command/close")) [
  | inl e ↦ rw (e, closing-commands topics names) refl
  | inr e ↦ rw (e, closing-commands topics names) refl
]

module _ {P : SerialPort} where
  -- No event asks for close commands.
  react_all-closing :
      (es : List Event) (g : Gateway P)
      → closing (react_all es g).subscriptions ≡ closing g.subscriptions
  react_all-closing es g = Keeps-react_all (closing-IsKept g.subscriptions) es g refl

  -- A configured gateway, where the scan returns, its report is JSON, and the client takes the report's topic
  -- and those of the cabinets' commands, asks the broker for the close commands of the cabinets that it knows
  -- at its start, and of no other: after the start and any events, the topics of close commands for which the
  -- services have called `subscribe` are those of these cabinets, after the ones before the start. A cabinet
  -- that is set up meanwhile is not among them.
  pub start_up-closing :
      (g : Gateway P) (names : List String) (slaves : List Value) (port : P.State)
      → is_configured g.cabinets ≡ true
      → Named (all_cabinets g.cabinets) names
      → P.scan_slaves (num g.max_cabinets) g.serial ≡ (ok slaves, port)
      → dumps (report g slaves) ≡ ok (report g slaves)
      → g.client.publishes ("iot/" <> (g.mac_address <> "/discovery/result")) ≡ true
      → all g.client.subscribes (command_topics names) ≡ true
      → (es : List Event)
      → closing (react_all es (start_up g).1).subscriptions
        ≡ closing g.subscriptions ++ close_topics names
  start_up-closing g names slaves port configured named found json told taken es =
      let (done, topics, beats) =
        start_up-Named g names slaves port configured named found json told taken in
      react_all-closing es (start_up g).1
      ∙ ap closing topics
      ∙ closing-commands g.subscriptions names
