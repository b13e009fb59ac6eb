-- ===== src/Scripts/Rs485/Silence.antt =====
-- What the advice of debug_rs485_rx.py says of the trials.
use text.Mathlib.TextLemmas as Text
use smart_locker_iot.Prelude.{
  ℕ, String, ◌<>◌, Bool, true, false, not, ◌||◌, Bool-cases, inl, inr, some, List, [], ◌∷◌, ltb,
  ◌≡◌, ◌↔◌, refl, ap, arith, string_eq, ◌==◌, ==_iff,
}
use smart_locker_iot.Prelude.Texts.{contains}
use smart_locker_iot.Scripts.Rs485.{
  Turn, Port, collect, test_ping, test_toggle, alive_received, Outcome, run, advice, no_reception,
}

-- Nothing is read before the limit.
abbrev pub Silent : ℕ → List Turn → Type 0
Silent limit [] = Unit
Silent limit (t ∷ ts) = ltb t.elapsed limit ≡ true → (t.chunk ≡ "") × Silent limit ts

-- No text names ALIVE or a slave before the limit.
abbrev pub Mute : ℕ → List Turn → Type 0
Mute limit [] = Unit
Mute limit (t ∷ ts) =
    ltb t.elapsed limit ≡ true
    → (contains t.chunk "ALIVE" || contains t.chunk "slave" ≡ false) × Mute limit ts

collect-Silent :
    (limit : ℕ) (response : String) (ts : List Turn)
    → (collect limit response ts ≡ "") ↔ ((response ≡ "") × Silent limit ts)
unfolding collect
collect-Silent limit response [] = (λ e. (e, tt), λ h. h.0)
collect-Silent limit response (t ∷ ts) = elim (Bool-cases (ltb t.elapsed limit)) [
  | inl e ↦
      let (to, from) = collect-Silent limit (response <> t.chunk) ts in
      let (apart, together) = Text.append-eq-nil_iff {p = response} {q = t.chunk} in
      rw e (
        λ h. let (both, rest) = to h in ((apart both).0, λ _. ((apart both).1, rest)),
        λ h. from (together (h.0, (h.1 refl).0), (h.1 refl).1),
      )
  | inr e ↦ rw e (λ h. (h, λ x. cc), λ h. h.0)
]

alive_received-Mute : (ts : List Turn) → (alive_received ts ≡ false) ↔ Mute 70000 ts
unfolding alive_received
alive_received-Mute [] = (λ e. tt, λ h. refl)
alive_received-Mute (t ∷ ts) = elim (Bool-cases (ltb t.elapsed 70000)) [
  | inl e ↦ rw e (elim (Bool-cases (contains t.chunk "ALIVE" || contains t.chunk "slave")) [
    | inl named ↦ rw named (λ h. cc, λ h. let f = (h refl).0 in cc)
    | inr quiet ↦
        let (to, from) = alive_received-Mute ts in
        rw quiet (λ h. λ _. (refl, to h), λ h. from (h refl).1)
  ])
  | inr e ↦ rw e (λ h. λ x. cc, λ h. refl)
]

received-Silent : (ts : List Turn) → (not (collect 5000 "" ts == "") ≡ false) ↔ Silent 5000 ts
received-Silent ts =
    let (to, from) = collect-Silent 5000 "" ts in
    let (same, equal) = ==_iff (collect 5000 "" ts) "" in
    (λ h. (to (same (not_false _ h))).1, λ h. ap not (equal (from (refl, h))))
  where
    not_false : (b : Bool) → not b ≡ false → b ≡ true
    not_false true h = refl
    not_false false h = cc

advice-no_reception :
    (o : Outcome)
    → (advice o ≡ some no_reception)
      ↔ ((o.result1 ≡ false) × (o.result2 ≡ false) × (o.result3 ≡ false) × (o.alive ≡ false))
unfolding advice
advice-no_reception o = (λ h. ground arith, λ (a, b, c, d). rw (a, b, c, d) refl)

-- The script says that nothing is received at all exactly if no byte came in five seconds after any of its
-- three commands, and no text in the 70 seconds of the last trial names ALIVE or a slave.
pub run-no_reception :
    (p : Port)
    → (advice (run p).0 ≡ some no_reception) ↔ (
        Silent 5000 (p.trials 0)
        × Silent 5000 (p.trials 1)
        × Silent 5000 (p.trials 2)
        × Mute 70000 (p.trials 3))
unfolding run test_ping test_toggle
run-no_reception p =
    let (to, from) = advice-no_reception (run p).0 in
    let first = received-Silent (p.trials 0) in
    let second = received-Silent (p.trials 1) in
    let third = received-Silent (p.trials 2) in
    let last = alive_received-Mute (p.trials 3) in
    (
      λ h. let (a, b, c, d) = to h in (first.0 a, second.0 b, third.0 c, last.0 d),
      λ (a, b, c, d). from (first.1 a, second.1 b, third.1 c, last.1 d),
    )
