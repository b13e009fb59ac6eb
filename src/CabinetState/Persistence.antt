-- ===== src/CabinetState/Persistence.antt =====
-- The JSON file of `CabinetState` (infracstructure/cabinet_state.py): what is saved is loaded again.
use smart_locker_iot.Prelude.{
  ap, sym, true, ◌≡◌, refl, ◌∙◌, Option, none, arith, inl, inr, Bool-cases, string_eq,
}
use smart_locker_iot.Python.{
  Value, truthy, key_eq, index, get, ok, obj, find, Fault, raise, Result-cases,
}
use smart_locker_iot.CabinetState.Keyed.{IsKeyed, run-IsKeyed}
use smart_locker_iot.CabinetState.{
  CabinetArgs, Call, location, cabinet, lockers, reload, wipe, run, save_location, save_cabinet,
  CabinetState, content, create, file_value, location_label, location_data,
}
use smart_locker_iot.CabinetState.Reloaded.{create-file_value}

-- The calls that write the file: a cabinet is only saved where there is a location.
abbrev pub Saves : Call → CabinetState → Type 0
Saves (location id name address) s = Unit
Saves (cabinet a) s = truthy s.location ≡ true
Saves _ s = ⊥

file-save_location :
    (i n a : Value) (s : CabinetState)
    → s.writable ≡ true
    → (save_location i n a s).0 ≡ ok tt
    → (save_location i n a s).1.file ≡ content (file_value (save_location i n a s).1)
unfolding save_location
file-save_location i n a s w h = ground arith

file-save_cabinet :
    (a : CabinetArgs) (s : CabinetState)
    → s.writable ≡ true
    → truthy s.location ≡ true
    → (save_cabinet a s).0 ≡ ok tt
    → (save_cabinet a s).1.file ≡ content (file_value (save_cabinet a s).1)
unfolding save_cabinet
file-save_cabinet a s w l h = ground arith

file-run :
    (c : Call) (s : CabinetState)
    → s.writable ≡ true
    → Saves c s
    → (run c s).0 ≡ ok tt
    → (run c s).1.file ≡ content (file_value (run c s).1)
unfolding run
file-run (location id name address) s w l h = file-save_location id name address s w h
file-run (cabinet a) s w l h = file-save_cabinet a s w l h
file-run (lockers id items) s w l h = absurd l
file-run reload s w l h = absurd l
file-run wipe s w l h = absurd l

-- A location that `save_cabinet` could read an id from is a dict.
label-index : (v id : Value) → index "id" v ≡ ok id → (x : Option Value) × (location_label v ≡ ok x)
unfolding index location_label get truthy
label-index (obj fs) id h = elim (Bool-cases (truthy (obj fs))) [
  | inl e ↦ (find "name" fs, rw e refl)
  | inr e ↦ (none, rw e refl)
]
label-index v id h = cc

location-save_location :
    (i n a : Value) (s : CabinetState)
    → (save_location i n a s).1.location ≡ obj (location_data i n a)
unfolding save_location
location-save_location i n a s = ground arith

location-save_cabinet :
    (a : CabinetArgs) (s : CabinetState) → (save_cabinet a s).1.location ≡ s.location
unfolding save_cabinet
location-save_cabinet a s = ground arith

save_cabinet_homeless :
    (a : CabinetArgs) (s : CabinetState) (x : Fault)
    → truthy s.location ≡ true
    → index "id" s.location ≡ raise x
    → (save_cabinet a s).0 ≡ raise x
unfolding save_cabinet
save_cabinet_homeless a s x l h = ground arith

label-run :
    (c : Call) (s : CabinetState)
    → Saves c s
    → (run c s).0 ≡ ok tt
    → (x : Option Value) × (location_label (run c s).1.location ≡ ok x)
unfolding run index
label-run (location id name address) s l h =
    let (x, label) = label-index (obj (location_data id name address)) id refl in
    (x, ap location_label (location-save_location id name address s) ∙ label)
label-run (cabinet a) s l h = elim (Result-cases (index "id" s.location)) [
  | inl (id, e) ↦
      let (x, label) = label-index s.location id e in
      (x, ap location_label (location-save_cabinet a s) ∙ label)
  | inr (f, e) ↦
      absurd (let fails : raise f ≡ ok tt = sym (save_cabinet_homeless a s f l e) ∙ h in cc)
]
label-run (lockers id items) s l h = absurd l
label-run reload s l h = absurd l
label-run wipe s l h = absurd l

-- On a writable disk, with the cabinets under their own ids: after a call of `save_location`, or of
-- `save_cabinet` where there is a location, that returns, a new `CabinetState` on the file loads without
-- an exception and has the location and the cabinets.
pub create-run :
    (c : Call) (s : CabinetState)
    → IsKeyed s
    → s.writable ≡ true
    → Saves c s
    → (run c s).0 ≡ ok tt
    → let t = (run c s).1 in
      let r = create t.file t.writable t.db in
      (r.0 ≡ ok tt) × (r.1.location ≡ t.location) × (r.1.cabinets ≡ t.cabinets)
create-run c s inv w l h =
    let (x, label) = label-run c s l h in
    rw (file-run c s w l h) (
      create-file_value (run c s).1 (run c s).1.writable (run c s).1.db x (run-IsKeyed s inv c)
        label)
