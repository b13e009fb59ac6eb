-- ===== src/Setup/Tested.antt =====
-- What the loop over the slots of services/setup_handler.py counts, and the status it leads to.
use smart_locker_iot.Prelude.{
  ℕ, ◌+◌, String, true, false, ◌≡◌, refl, ap, ◌∙◌, sym, subst, Option, none, some, List, [], ◌∷◌,
  ◌++◌, arith, Bool-cases, inl, inr, if◌then◌else◌, string_eq, ◌==◌, nat_beq, ◌↔◌, nat_beq_iff, ◌<◌,
  ==_self, ==_iff,
}
use smart_locker_iot.Prelude.Lists.{length, length-append}
use smart_locker_iot.Prelude.Int.{ℤ}
use smart_locker_iot.Python.{num, truthy, Value, str, Fields, find, put, end, field, same, ok}
use smart_locker_iot.Python.Exec.{Returns, Returns-pure, Returns-bind, Returns-next, Returns-after}
use smart_locker_iot.Gateway.{SerialPort, Gateway}
use smart_locker_iot.Serial.{simulation, simulate_test_slot}
use smart_locker_iot.Locker.Outcome.{is_ok}
use smart_locker_iot.Setup.{Plan, counted, untested, examine, visit, test_slots, test_slot}
use smart_locker_iot.Setup.Slot.{Tally, judge, marked, test_result, overall}

find-put_self : (k : String) (v : Value) (fs : Fields) → find k (put k v fs) ≡ some v
unfolding find put
find-put_self k v end = rw ==_self
find-put_self k v (field j w fs) = elim (Bool-cases (j == k)) [
  | inl e ↦ rw (e, e)
  | inr e ↦ rw (e, e, find-put_self k v fs)
]

find-put_ne :
    (k j : String) (v : Value) (fs : Fields) → (j == k) ≡ false → find k (put j v fs) ≡ find k fs
unfolding find put
find-put_ne k j v end ne = rw ne
find-put_ne k j v (field i w fs) ne = elim (Bool-cases (i == j)) [
  | inl e ↦ let ik : (i == k) ≡ false = ap (λ x. x == k) ((==_iff i j).0 e) ∙ ne in rw (e, ik)
  | inr e ↦ rw (e, find-put_ne k j v fs ne)
]

-- How many of the results have "OK" under "result".
unfoldable pub passes : List Fields → ℕ
passes [] = 0
passes (res ∷ results) = (if is_ok res then 1 else 0) + passes results

-- Every result is counted, and as what it says.
pub record IsCounted (t : Tally) : Type 0 where
  pub oks : t.ok_count ≡ passes t.results
  pub all : t.ok_count + t.fail_count ≡ length t.results

find-marked :
    (reply : Fields) → find "result" (marked reply) ≡ some (str (test_result (judge reply)))
unfolding marked
find-marked reply =
    find-put_ne "result" "error_msg" _ _ refl
    ∙ find-put_ne "result" "error_code" _ _ refl
    ∙ find-put_self "result" _ reply

is_ok-marked : (reply : Fields) → is_ok (marked reply) ≡ (judge reply).passed
unfolding is_ok same
is_ok-marked reply = elim (Bool-cases (judge reply).passed) [
  | inl e ↦ rw (find-marked, e)
  | inr e ↦ rw (find-marked, e)
]

passes-append :
    (xs : List Fields) (res : Fields)
    → passes (xs ++ res ∷ []) ≡ passes xs + (if is_ok res then 1 else 0)
unfolding passes
passes-append [] res = omega arith
passes-append (x ∷ xs) res = omega (arith, passes-append xs res)

counted-IsCounted : (reply : Fields) (t : Tally) → IsCounted t → IsCounted (counted reply t)
counted-IsCounted reply t h = record {
  oks = rw (passes-append, is_ok-marked) (ground (arith, h.oks));
  all = rw length-append (ground (arith, h.all));
}

module _ {P : SerialPort} where
  -- The tally after the test of one slot is that of some reply.
  examine-counted :
      (p : Plan) (i : ℕ) (slot : Value) (n : ℤ) (t : Tally)
      → Returns (λ t'. (reply : Fields) × (t' ≡ counted reply t)) (examine {P = P} p i slot n t)
  unfolding examine
  examine-counted p i slot n t = Returns-next _ _ λ reply. Returns-next _ _ λ row.
      Returns-next _ _ λ column.
        Returns-next _ _ λ now. Returns-after _ _ (Returns-pure (counted reply t) (reply, refl))

  visit-IsCounted :
      (p : Plan) (i : ℕ) (slot : Value) (n : Option ℤ) (t : Tally)
      → IsCounted t
      → Returns IsCounted (visit {P = P} p i slot n t)
  unfolding visit
  visit-IsCounted p i slot none t h = Returns-pure t h
  visit-IsCounted p i slot (some n) t h = record {
    at = λ g t' e.
        let (reply, same) = (examine-counted p i slot n t).at g t' e in
        subst IsCounted (sym same) (counted-IsCounted reply t h);
  }

  test_slots-Returns :
      (p : Plan) (i : ℕ) (layout : List Value) (t : Tally)
      → IsCounted t
      → Returns IsCounted (test_slots {P = P} p i layout t)
  unfolding test_slots
  test_slots-Returns p i [] t h = Returns-pure t h
  test_slots-Returns p i (slot ∷ layout) t h = Returns-next _ _ λ n.
      Returns-bind _ _ (visit-IsCounted p i slot n t h)
        λ t' h'. test_slots-Returns p (i + 1) layout t' h'

positive : (n : ℕ) → nat_beq n 0 ≡ false → 0 < n
positive n h = ground arith

overall_lem :
    (t : Tally)
    → IsCounted t
    → ((overall t ≡ "COMPLETED") ↔ (passes t.results ≡ length t.results))
      × ((overall t ≡ "FAILED") ↔ ((passes t.results ≡ 0) × (0 < length t.results)))
unfolding overall
overall_lem t h = elim (Bool-cases (nat_beq t.fail_count 0)) [
  | inl e ↦
      let z = (nat_beq_iff t.fail_count 0).0 e in
      rw e (
        (λ same. omega (arith, h.oks, h.all, z), λ same. refl),
        (
          λ same. let f : true ≡ false = ap (λ s. s == "COMPLETED") same in cc,
          λ (none_passed, some_tested). absurd (omega (arith, h.oks, h.all, z)),
        ),
      )
  | inr e ↦
      let z = positive t.fail_count e in
      elim (Bool-cases (nat_beq t.ok_count 0)) [
        | inl k ↦
            let o = (nat_beq_iff t.ok_count 0).0 k in
            rw (e, k)
              (
                (
                  λ same. let f : true ≡ false = ap (λ s. s == "FAILED") same in cc,
                  λ same. absurd (omega (arith, h.oks, h.all, z)),
                ),
                (λ same. (omega (arith, h.oks, o), omega (arith, h.all, z)), λ both. refl),
              )
        | inr k ↦
            let o = positive t.ok_count k in
            rw (e, k)
              (
                (
                  λ same. let f : true ≡ false = ap (λ s. s == "PARTIAL") same in cc,
                  λ same. absurd (omega (arith, h.oks, h.all, z)),
                ),
                (
                  λ same. let f : true ≡ false = ap (λ s. s == "PARTIAL") same in cc,
                  λ (none_passed, some_tested). absurd (omega (arith, h.oks, o)),
                ),
              )
      ]
]

module _ {P : SerialPort} where
  -- A loop over a layout that ends has counted each result once, as what it says: the cabinet is COMPLETED
  -- exactly if every tested slot passed, and FAILED exactly if slots were tested and none passed.
  pub test_slots_status :
      (p : Plan) (i : ℕ) (layout : List Value) (g : Gateway P) (t : Tally)
      → (test_slots p i layout untested g).0 ≡ ok t
      → (t.ok_count ≡ passes t.results)
        × (t.ok_count + t.fail_count ≡ length t.results)
        × ((overall t ≡ "COMPLETED") ↔ (passes t.results ≡ length t.results))
        × ((overall t ≡ "FAILED") ↔ ((passes t.results ≡ 0) × (0 < length t.results)))
  unfolding passes
  test_slots_status p i layout g t e =
      let h =
        (test_slots-Returns p i layout untested (record { oks = refl; all = refl })).at g t e in
      let (completed, failed) = overall_lem t h in (h.oks, h.all, completed, failed)

simulated_test_slot :
    (p : Plan) (n : ℤ)
    → Returns
        (λ reply. reply ≡ simulate_test_slot (num n) p.slave_id)
        (test_slot {P = simulation} p n)
unfolding test_slot
simulated_test_slot p n = Returns-pure _ refl

simulated_passed : (slot slave : Value) → (judge (simulate_test_slot slot slave)).passed ≡ false
unfolding judge simulate_test_slot is_ok find same truthy
simulated_passed slot slave = refl

examine_simulated :
    (p : Plan) (i : ℕ) (slot : Value) (n : ℤ) (t : Tally)
    → Returns (λ t'. t'.ok_count ≡ t.ok_count) (examine {P = simulation} p i slot n t)
unfolding examine
examine_simulated p i slot n t = Returns-bind _ _ (simulated_test_slot p n) λ reply same.
    Returns-next _ _ λ row. Returns-next _ _ λ column. Returns-next _ _ λ now.
      Returns-after _ _
        (Returns-pure (counted reply t) (rw (same, simulated_passed (num n) p.slave_id)))

visit_simulated :
    (p : Plan) (i : ℕ) (slot : Value) (n : Option ℤ) (t : Tally)
    → Returns (λ t'. t'.ok_count ≡ t.ok_count) (visit {P = simulation} p i slot n t)
unfolding visit
visit_simulated p i slot none t = Returns-pure t refl
visit_simulated p i slot (some n) t = examine_simulated p i slot n t

ok_count_simulated :
    (p : Plan) (i : ℕ) (layout : List Value) (t : Tally)
    → Returns (λ t'. t'.ok_count ≡ t.ok_count) (test_slots {P = simulation} p i layout t)
unfolding test_slots
ok_count_simulated p i [] t = Returns-pure t refl
ok_count_simulated p i (slot ∷ layout) t = Returns-next _ _ λ n.
    Returns-bind _ _ (visit_simulated p i slot n t) λ t' same. record {
      at = λ g t'' e. (ok_count_simulated p (i + 1) layout t').at g t'' e ∙ same;
    }

-- With SIMULATION on no slot ever passes: a simulated test reports the door closed, which the setup
-- judges as stuck. A cabinet of which a slot was tested is FAILED.
pub test_slots_simulated :
    (p : Plan) (i : ℕ) (layout : List Value) (g : Gateway simulation) (t : Tally)
    → (test_slots p i layout untested g).0 ≡ ok t
    → (t.ok_count ≡ 0) × (0 < length t.results → overall t ≡ "FAILED")
test_slots_simulated p i layout g t e =
    let none_passed = (ok_count_simulated p i layout untested).at g t e in
    let (oks, all, completed, failed) = test_slots_status p i layout g t e in
    (none_passed, λ tested. failed.1 (sym oks ∙ none_passed, tested))
