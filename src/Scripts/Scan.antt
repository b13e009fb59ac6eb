-- ===== src/Scripts/Scan.antt =====
-- debug_scan.py: the slaves 1 to 3, scanned one after the other.
use smart_locker_iot.Prelude.{ℕ, zero, suc, List, [], ◌++◌, ◌≡◌, refl, ap, sym, arith}
use smart_locker_iot.Prelude.Int.{pos}
use smart_locker_iot.Python.{Value, num, ok, as_number}
use smart_locker_iot.Serial.{Line, ping, scan_from, scan_slaves}

-- The loop: a scan whose range is one slave, for each.
unfoldable pub scan_each : ℕ → ℕ → Line → List Value × Line
scan_each sid zero s = ([], s)
scan_each sid (suc count) s =
    let (found, s') = scan_from sid 1 s in
    let (rest, s'') = scan_each (suc sid) count s' in (found ++ rest, s'')

unfoldable pub debug_scan : Line → List Value × Line
unfolding scan_each
debug_scan = scan_each 1 3

scan_each_lem : (sid count : ℕ) (s : Line) → scan_each sid count s ≡ scan_from sid count s
unfolding scan_each scan_from
scan_each_lem sid zero s = refl
scan_each_lem sid (suc count) s = ground (arith, scan_each_lem (suc sid) count (ping sid s).1)

-- Scanning the slaves one by one finds what a single scan finds, and leaves the line the same.
pub debug_scan_lem :
    (s : Line) → scan_slaves (num (pos 3)) s ≡ (ok (debug_scan s).0, (debug_scan s).1)
unfolding debug_scan scan_slaves as_number
debug_scan_lem s = ap (λ r. (ok r.0, r.1)) (sym (scan_each_lem 1 3 s))
