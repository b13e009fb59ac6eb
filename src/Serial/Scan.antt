-- ===== src/Serial/Scan.antt =====
-- The scan of the bus and the reconnection of infracstructure/serial_manager.py.
use native.Mathlib.Nat.{pow-le-pow_right}
use smart_locker_iot.Prelude.{
  ℕ, zero, suc, ◌+◌, ◌^◌, ◌≤◌, ◌<◌, true, false, ◌≡◌, refl, List, [], ◌∷◌, arith, subst,
  if◌then◌else◌, Bool-cases, inl, inr,
}
use smart_locker_iot.Python.{Value}
use smart_locker_iot.Serial.{
  Line, ping, is_found, found_entry, scan_from, reconnect_delay, attempts_after,
}

-- An entry of a slave that was found: its number lies in the range, and it answered its own PING.
pub record IsFound (low high : ℕ) (e : Value) : Type 0 where
  pub sid : ℕ
  pub from : low ≤ sid
  pub below : sid < high
  pub line : Line
  pub accepted : is_found sid (ping sid line).0 ≡ true
  pub entry : e ≡ found_entry sid (ping sid line).0

IsFound-widen : (low high : ℕ) (e : Value) → IsFound (suc low) high e → IsFound low high e
IsFound-widen low high e f = record {
  sid = f.sid;
  from = omega (arith, f.from);
  below = f.below;
  line = f.line;
  accepted = f.accepted;
  entry = f.entry;
}

-- The entries stand in the order of their slaves, each slave once.
abbrev pub Ascending : ℕ → ℕ → List Value → Type 0
Ascending low high [] = Unit
Ascending low high (e ∷ es) = (f : IsFound low high e) × Ascending (suc f.sid) high es

Ascending-widen :
    (low high : ℕ) (es : List Value) → Ascending (suc low) high es → Ascending low high es
unfolding IsFound-widen
Ascending-widen low high [] h = tt
Ascending-widen low high (e ∷ es) (f, h) = (IsFound-widen low high e f, h)

-- One turn of the loop: the entry of the slave is put in front if it answered.
turn-Ascending :
    (sid high : ℕ) (s : Line) (rest : List Value)
    → sid < high
    → Ascending (suc sid) high rest
    → Ascending sid high
        (if is_found sid (ping sid s).0 then found_entry sid (ping sid s).0 ∷ rest else rest)
turn-Ascending sid high s rest fits h = elim (Bool-cases (is_found sid (ping sid s).0)) [
  | inl e ↦ rw e (
    record { sid = sid; from = omega arith; below = fits; line = s; accepted = e; entry = refl },
    h,
  )
  | inr e ↦ rw e (Ascending-widen sid high rest h)
]

commands-ping : (sid : ℕ) (s : Line) → (ping sid s).1.commands ≡ s.commands + 1
unfolding ping
commands-ping sid s = refl

-- A scan of `count` slaves from `sid` on sends one command for each. What it reports are slaves of
-- that range, in ascending order and each once, that answered their own PING.
scan_from-Ascending :
    (sid count : ℕ) (s : Line)
    → Ascending sid (sid + count) (scan_from sid count s).0
      × ((scan_from sid count s).1.commands ≡ s.commands + count)
unfolding scan_from
scan_from-Ascending sid zero s = (tt, omega arith)
scan_from-Ascending sid (suc count) s =
    let (found, sent) = scan_from-Ascending (suc sid) count (ping sid s).1 in
    let shift : suc sid + count ≡ sid + suc count = omega arith in
    let rest = (scan_from (suc sid) count (ping sid s).1).0 in
    (
      turn-Ascending sid (sid + suc count) s rest (omega arith)
          (subst (λ high. Ascending (suc sid) high rest) shift found),
      omega (arith, sent, commands-ping sid s),
    )

two-pow_mono : (n m : ℕ) → n ≤ m → 2 ^ n ≤ 2 ^ m
two-pow_mono n m h = pow-le-pow_right (omega arith) h

-- After `n` failures in a row: the waits never shrink, never pass a minute, and reach it at the sixth.
pub reconnect_delay_bounds :
    (n : ℕ)
    → (reconnect_delay n ≤ reconnect_delay (attempts_after false n))
      × (reconnect_delay n ≤ 60)
      × (6 ≤ n → reconnect_delay n ≡ 60)
      × (reconnect_delay (attempts_after true n) ≡ 1)
unfolding reconnect_delay attempts_after
reconnect_delay_bounds n = (
  omega (arith, two-pow_mono n (n + 1) (omega arith)),
  omega arith,
  λ h. omega (arith, two-pow_mono 6 n h),
  refl,
)
