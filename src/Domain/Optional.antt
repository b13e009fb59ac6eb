-- ===== src/Domain/Optional.antt =====
-- domain/models.py: the payloads that leave out their fields that are None.
use smart_locker_iot.Prelude.{
  String, ◌==◌, ==_iff, string_eq, Bool, Bool-cases, inl, inr, true, false, not, ◌&&◌, List, [],
  ◌∷◌, ◌≡◌, refl, ap, ◌∙◌, sym, arith, if◌then◌else◌,
}
use smart_locker_iot.Python.{
  str, arr, items_of, Value, null, find, default, is_none, get, get_or, ok,
}
use smart_locker_iot.Gateway.{fields_of, without_none}
use smart_locker_iot.Domain.{
  HeartbeatPayload, heartbeat_asdict, heartbeat_to_json, OpenAckPayload, open_ack_asdict,
  open_ack_to_json,
}

-- No key stands twice.
unfoldable pub has_key : String → List (String × Value) → Bool
has_key k [] = false
has_key k ((j, v) ∷ kvs) = if j == k then true else has_key k kvs

unfoldable pub distinct : List (String × Value) → Bool
distinct [] = true
distinct ((k, v) ∷ kvs) = not (has_key k kvs) && distinct kvs

-- The field of this key, or None.
abbrev pub read : String → List (String × Value) → Value
read k kvs = default null (find k (fields_of kvs))

distinct-cons :
    (k : String) (v : Value) (kvs : List (String × Value))
    → distinct ((k, v) ∷ kvs) ≡ true
    → (has_key k kvs ≡ false) × (distinct kvs ≡ true)
unfolding distinct
distinct-cons k v kvs h = ground arith

is_none-null : (v : Value) → is_none v ≡ true → v ≡ null
is_none-null v h = ground arith

read-missing :
    (k : String) (kvs : List (String × Value))
    → has_key k kvs ≡ false
    → read k (without_none kvs) ≡ null
unfolding find has_key
read-missing k [] h = refl
read-missing k ((j, v) ∷ kvs) h =
    let tail = read-missing k kvs in
    elim (Bool-cases (j == k)) [
      | inl e ↦ absurd (ground (arith, e))
      | inr e ↦ elim (Bool-cases (is_none v)) [
        | inl n ↦ rw n (tail (ground (arith, e)))
        | inr n ↦ rw (n, e) (tail (ground (arith, e)))
      ]
    ]

-- A payload with distinct keys that leaves out what is None loses nothing: where a missing key is read as
-- None, every key reads as before.
pub read-without_none :
    (k : String) (kvs : List (String × Value))
    → distinct kvs ≡ true
    → read k (without_none kvs) ≡ read k kvs
unfolding find distinct
read-without_none k [] h = refl
read-without_none k ((j, v) ∷ kvs) h =
    let (fresh, rest) = distinct-cons j v kvs h in
    let tail = read-without_none k kvs rest in
    let missing = read-missing k kvs in
    elim (Bool-cases (is_none v)) [
      | inl n ↦ elim (Bool-cases (j == k)) [
        | inl e ↦
            rw (n, e)
              (missing (ap (λ i. has_key i kvs) (sym ((==_iff j k).0 e)) ∙ fresh)
                ∙ sym (is_none-null v n))
        | inr e ↦ rw (n, e) tail
      ]
      | inr n ↦ elim (Bool-cases (j == k)) [ inl e ↦ rw (n, e) refl | inr e ↦ rw (n, e) tail ]
    ]

-- The JSON of a heartbeat has each field under the field's own name: reading it there, with None for a key that
-- is missing, gives the field, also where it is None and was left out.
pub heartbeat_to_json-read :
    (p : HeartbeatPayload)
    → (get_or "cabinetId" null (heartbeat_to_json p) ≡ ok p.cabinet_id)
      × (get_or "timestamp" null (heartbeat_to_json p) ≡ ok p.timestamp)
      × (get_or "status" null (heartbeat_to_json p) ≡ ok (str p.status))
      × (get_or "lockers" null (heartbeat_to_json p) ≡ ok (arr (items_of p.lockers)))
      × (get_or "macAddress" null (heartbeat_to_json p) ≡ ok p.mac_address)
      × (get_or "uptime" null (heartbeat_to_json p) ≡ ok p.uptime)
      × (get_or "cpuTemp" null (heartbeat_to_json p) ≡ ok p.cpu_temp)
      × (get_or "memoryUsage" null (heartbeat_to_json p) ≡ ok p.memory_usage)
unfolding get_or get find distinct has_key
heartbeat_to_json-read p = (
  ap ok (read-without_none "cabinetId" (heartbeat_asdict p) refl),
  ap ok (read-without_none "timestamp" (heartbeat_asdict p) refl),
  ap ok (read-without_none "status" (heartbeat_asdict p) refl),
  ap ok (read-without_none "lockers" (heartbeat_asdict p) refl),
  ap ok (read-without_none "macAddress" (heartbeat_asdict p) refl),
  ap ok (read-without_none "uptime" (heartbeat_asdict p) refl),
  ap ok (read-without_none "cpuTemp" (heartbeat_asdict p) refl),
  ap ok (read-without_none "memoryUsage" (heartbeat_asdict p) refl),
)

-- The JSON of the acknowledgement of a command to open has each field under the field's own name: reading it
-- there, with None for a key that is missing, gives the field, also where it is None and was left out.
pub open_ack_to_json-read :
    (p : OpenAckPayload)
    → (get_or "lockerId" null (open_ack_to_json p) ≡ ok p.locker_id)
      × (get_or "slotIndex" null (open_ack_to_json p) ≡ ok p.slot_index)
      × (get_or "status" null (open_ack_to_json p) ≡ ok (str p.status))
      × (get_or "message" null (open_ack_to_json p) ≡ ok (str p.message))
      × (get_or "timestamp" null (open_ack_to_json p) ≡ ok p.timestamp)
      × (get_or "errorCode" null (open_ack_to_json p) ≡ ok p.error_code)
unfolding get_or get find distinct has_key
open_ack_to_json-read p = (
  ap ok (read-without_none "lockerId" (open_ack_asdict p) refl),
  ap ok (read-without_none "slotIndex" (open_ack_asdict p) refl),
  ap ok (read-without_none "status" (open_ack_asdict p) refl),
  ap ok (read-without_none "message" (open_ack_asdict p) refl),
  ap ok (read-without_none "timestamp" (open_ack_asdict p) refl),
  ap ok (read-without_none "errorCode" (open_ack_asdict p) refl),
)
