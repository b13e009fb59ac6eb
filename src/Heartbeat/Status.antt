-- ===== src/Heartbeat/Status.antt =====
-- The table of hardware states in services/heartbeat_service.py, and the slots that a heartbeat lists.
use smart_locker_iot.Prelude.{
  ℕ, zero, suc, String, ◌≡◌, ◌≢◌, refl, ap, ◌∙◌, sym, Option, some, List, [], ◌∷◌,
}
use smart_locker_iot.Prelude.Dict
use smart_locker_iot.Prelude.Dict.{Dict}
use smart_locker_iot.Prelude.Int.{ℤ, pos}
use smart_locker_iot.Prelude.Lists.{length}
use smart_locker_iot.Python.{Value, str, num, Key, key_eq, as_number, get_or, key_of, ok, Result}
use smart_locker_iot.Python.Exec.{
  Returns, Returns-pure, Returns-bind, Returns-next, Returns-lift, ◌>>=◌, ◌>>◌,
}
use smart_locker_iot.Gateway.{SerialPort, Gateway}
use smart_locker_iot.Heartbeat.{or_empty, turns, update_locker_state, slot_statuses, cabinet_status}

-- The state that is known of a slot.
abbrev pub tracked : Key → Key → Dict Key (Dict Key Value) → Option Value
tracked c s states = Dict.get s (or_empty (Dict.get c states))

-- The two assignments of `update_locker_state`.
abbrev pub assigned : Key → Key → Value → Dict Key (Dict Key Value) → Dict Key (Dict Key Value)
assigned c s v states =
    let ready = Dict.insert c (or_empty (Dict.get c states)) states in
    Dict.insert c (Dict.insert s v (or_empty (Dict.get c ready))) ready

pub tracked-assigned_self :
    (c s : Key) (v : Value) (states : Dict Key (Dict Key Value))
    → tracked c s (assigned c s v states) ≡ some v
tracked-assigned_self c s v states = rw (Dict.get-insert_self, Dict.get-insert_self)

tracked-assigned_slot :
    (c s k : Key) (v : Value) (states : Dict Key (Dict Key Value))
    → s ≢ k
    → tracked c k (assigned c s v states) ≡ tracked c k states
tracked-assigned_slot c s k v states ne =
    rw (Dict.get-insert_self, Dict.get-insert_self) (Dict.get-insert_ne s k v _ ne)

tracked-assigned_cabinet :
    (c d s k : Key) (v : Value) (states : Dict Key (Dict Key Value))
    → c ≢ d
    → tracked d k (assigned c s v states) ≡ tracked d k states
tracked-assigned_cabinet c d s k v states ne =
    ap (λ found. Dict.get k (or_empty found))
      (Dict.get-insert_ne c d _ _ ne ∙ Dict.get-insert_ne c d _ states ne)

number_read :
    {r : Result Value} {v : Value} {a x : ℤ}
    → r ≡ ok (num a)
    → r ≡ ok v
    → as_number v ≡ ok x
    → a ≡ x
unfolding as_number
number_read {r} {v} {a} {x} ha hv hx = read_back (sym (ap as_number same) ∙ hx)
  where
    same : v ≡ num a
    same = cc

    read_back : ok a ≡ ok x → a ≡ x
    read_back e = cc

module _ {P : SerialPort} where
  pub update_locker_state_eq :
      (c s : Value) (h : String) (ck sk : Key) (g : Gateway P)
      → key_of c ≡ ok ck
      → key_of s ≡ ok sk
      → update_locker_state c s h g ≡ (
        ok tt,
        record g {
          heartbeat = record g.heartbeat {
            locker_states = assigned ck sk (str h) g.heartbeat.locker_states;
          };
        },
      )
  unfolding update_locker_state ◌>>=◌ ◌>>◌
  update_locker_state_eq c s h ck sk g hc hs = rw (hc, hs)

  slot_statuses-length :
      (id : Value) (states : Dict Key Value) (slot count : ℕ)
      → Returns (λ entries. length entries ≡ count) (slot_statuses {P = P} id states slot count)
  unfolding slot_statuses
  slot_statuses-length id states slot zero = Returns-pure [] refl
  slot_statuses-length id states slot (suc count) = Returns-next _ _ λ entry.
      Returns-bind _ _ (slot_statuses-length id states (suc slot) count)
        λ rest h. Returns-pure (entry ∷ rest) (ap suc h)

  -- A report of a slot whose cabinet and number are hashable is what is known of the slot from then on, and
  -- what was known of every other slot, of this cabinet and of the others, stays.
  pub update_locker_state_tracks :
      (c s : Value) (h : String) (ck sk : Key) (g : Gateway P)
      → key_of c ≡ ok ck
      → key_of s ≡ ok sk
      → (tracked ck sk (update_locker_state c s h g).1.heartbeat.locker_states ≡ some (str h))
        × ((k : Key)
            → sk ≢ k
            → tracked ck k (update_locker_state c s h g).1.heartbeat.locker_states
              ≡ tracked ck k g.heartbeat.locker_states)
        × ((d k : Key)
            → ck ≢ d
            → tracked d k (update_locker_state c s h g).1.heartbeat.locker_states
              ≡ tracked d k g.heartbeat.locker_states)
  update_locker_state_tracks c s h ck sk g hc hs =
      let states = g.heartbeat.locker_states in
      let to = ap (λ r. r.1.heartbeat.locker_states) (update_locker_state_eq c s h ck sk g hc hs) in
      (
        ap (tracked ck sk) to ∙ tracked-assigned_self ck sk (str h) states,
        λ k ne. ap (tracked ck k) to ∙ tracked-assigned_slot ck sk k (str h) states ne,
        λ d k ne. ap (tracked d k) to ∙ tracked-assigned_cabinet ck d sk k (str h) states ne,
      )

  -- The status of a cabinet that was found, with its rows and columns as numbers, has one entry for each
  -- slot.
  cabinet_status-length :
      (id cab : Value) (a b : ℤ) (g : Gateway P) (entries : List Value)
      → get_or "totalRows" (num (pos 0)) cab ≡ ok (num a)
      → get_or "totalColumns" (num (pos 0)) cab ≡ ok (num b)
      → (cabinet_status id cab g).0 ≡ ok entries
      → length entries ≡ turns a b
  unfolding cabinet_status
  cabinet_status-length id cab a b g entries ha hb e = (listed).at g entries e
    where
      listed : Returns (λ es. length es ≡ turns a b) (cabinet_status {P = P} id cab)
      listed = Returns-bind _ _ (Returns-lift _) λ rows h₁.
          Returns-bind _ _ (Returns-lift _) λ columns h₂. Returns-bind _ _ (Returns-lift _) λ x h₃.
            Returns-bind _ _ (Returns-lift _) λ y h₄. Returns-next _ _ λ key.
              Returns-next _ _ λ states.
                rw (number_read ha h₁ h₃, number_read hb h₂ h₄)
                  (slot_statuses-length id states 0 (turns x y))
