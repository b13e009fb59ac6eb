-- ===== src/CabinetState/Keyed.antt =====
-- The invariant of `CabinetState` (infracstructure/cabinet_state.py): every cabinet stands under its own id.
use smart_locker_iot.Prelude.{
  ◌≡◌, subst, sym, ◌∙◌, List, [], ◌∷◌, arith, inl, inr, ◌==◌, ==_iff, Bool-cases, string_eq,
}
use smart_locker_iot.Prelude.Dict
use smart_locker_iot.Prelude.Dict.{Dict, NodupKeys}
use smart_locker_iot.Python.{
  Value, truthy, obj, arr, nil, Key, key_eq, key_of, index, get, get_or, iterate, Result, Fault,
  Result-cases, >>=-eq-ok, ok, raise, ◌>>=◌,
}
use smart_locker_iot.Database.Methods.{Write, perform}
use smart_locker_iot.CabinetState.{
  CabinetState, CabinetArgs, cabinet_data, Call, location, cabinet, lockers, reload, wipe, run,
  by_field, cabinet_table, save_cabinet, store_cabinet, with_db, load, load_data, restore,
}
use smart_locker_iot.CabinetState.Effects.{
  cabinets-with_db, cabinets-save_location, cabinets-save_lockers, cabinets-clear,
  cabinets-store_cabinet, cabinets-store_cabinet_homeless, cabinets-store_cabinet_unhashable,
  cabinets-restore_raise, cabinets-restore_unread, cabinets-restore, label_location_same,
}

-- The key of a cabinet is the hash of its field "id".
abbrev pub HasKey : Key → Value → Type 0
HasKey k c = (index "id" c >>= key_of) ≡ ok k

abbrev pub AllKeyed : Dict Key Value → Type 0
AllKeyed [] = Unit
AllKeyed ((k, c) ∷ d) = HasKey k c × AllKeyed d

-- What `load` builds, and every method keeps: the cabinets stand under their own ids, once each.
pub record IsKeyed (s : CabinetState) : Type 0 where
  pub distinct : NodupKeys s.cabinets
  pub keyed : AllKeyed s.cabinets

pub by_field-step :
    (c : Value) (cs : List Value) (d : Dict Key Value) (k : Key)
    → HasKey k c
    → by_field "id" (c ∷ cs) d ≡ by_field "id" cs (Dict.insert k c d)
unfolding by_field
by_field-step c cs d k h = elim-id (index "id" c) h
  where
    elim-id :
        (r : Result Value)
        → (r >>= key_of) ≡ ok k
        → (r >>= λ id. key_of id >>= λ key. by_field "id" cs (Dict.insert key c d))
          ≡ by_field "id" cs (Dict.insert k c d)
    elim-id (ok id) h = rw h
    elim-id (raise e) h = cc

insert-AllKeyed :
    (k : Key) (c : Value) (d : Dict Key Value)
    → HasKey k c
    → AllKeyed d
    → AllKeyed (Dict.insert k c d)
unfolding Dict.insert
insert-AllKeyed k c [] h all = (h, tt)
insert-AllKeyed k c ((j, w) ∷ d) h (hw, all) = elim (Bool-cases (j == k)) [
  | inl e ↦ rw e (subst (λ i. HasKey i c) (sym ((==_iff j k).0 e)) h, all)
  | inr e ↦ rw e (hw, insert-AllKeyed k c d h all)
]

by_field-raise :
    (c : Value) (cs : List Value) (d : Dict Key Value) (x : Fault)
    → (index "id" c >>= key_of) ≡ raise x
    → by_field "id" (c ∷ cs) d ≡ raise x
unfolding by_field
by_field-raise c cs d x h = ground arith

-- What the dictionary comprehension of `load` builds.
by_field-IsKeyed :
    (cs : List Value) (acc d : Dict Key Value)
    → NodupKeys acc
    → AllKeyed acc
    → by_field "id" cs acc ≡ ok d
    → NodupKeys d × AllKeyed d
by_field-IsKeyed [] acc d u h e =
    let same : acc ≡ d = unfold by_field in cc in (subst NodupKeys same u, subst AllKeyed same h)
by_field-IsKeyed (c ∷ cs) acc d u h e = elim (Result-cases (index "id" c >>= key_of)) [
  | inl (k, hk) ↦
      by_field-IsKeyed cs (Dict.insert k c acc) d (Dict.insert-NodupKeys k c acc u)
        (insert-AllKeyed k c acc hk h) (sym (by_field-step c cs acc k hk) ∙ e)
  | inr (x, hx) ↦ absurd (let f : raise x ≡ ok d = sym (by_field-raise c cs acc x hx) ∙ e in cc)
]

cabinet_table-IsKeyed :
    (v : Value) (d : Dict Key Value) → cabinet_table v ≡ ok d → NodupKeys d × AllKeyed d
unfolding cabinet_table
cabinet_table-IsKeyed v d e =
    let (listed, _, e₁) = >>=-eq-ok (get_or "cabinets" (arr nil) v) _ e in
    let (cs, _, e₂) = >>=-eq-ok (iterate listed) _ e₁ in by_field-IsKeyed cs [] d tt tt e₂

HasKey-cabinet_data :
    (a : CabinetArgs) (id : Value) (k : Key)
    → key_of a.cabinet_id ≡ ok k
    → HasKey k (obj (cabinet_data a id))
unfolding index
HasKey-cabinet_data a id k h = h

module _ (s : CabinetState) (inv : IsKeyed s) where
  same_cabinets-IsKeyed : (t : CabinetState) → t.cabinets ≡ s.cabinets → IsKeyed t
  same_cabinets-IsKeyed t e = record { distinct = rw e inv.distinct; keyed = rw e inv.keyed }

  insert-IsKeyed :
      (t : CabinetState) (k : Key) (c : Value)
      → HasKey k c
      → t.cabinets ≡ Dict.insert k c s.cabinets
      → IsKeyed t
  insert-IsKeyed t k c h e = record {
    distinct = rw e (Dict.insert-NodupKeys k c s.cabinets inv.distinct);
    keyed = rw e (insert-AllKeyed k c s.cabinets h inv.keyed);
  }

  store_cabinet-IsKeyed : (a : CabinetArgs) (v : Value) → IsKeyed (store_cabinet a v s).1
  store_cabinet-IsKeyed a v = elim (Result-cases (index "id" v)) [
    | inr (x, hx) ↦ same_cabinets-IsKeyed _ (cabinets-store_cabinet_homeless a v s x hx)
    | inl (id, hid) ↦ elim (Result-cases (key_of a.cabinet_id)) [
      | inr (x, hx) ↦ same_cabinets-IsKeyed _ (cabinets-store_cabinet_unhashable a v s x hx)
      | inl (k, hk) ↦
          insert-IsKeyed _ k (obj (cabinet_data a id)) (HasKey-cabinet_data a id k hk)
            (cabinets-store_cabinet a v s id k hid hk)
    ]
  ]

  save_cabinet-IsKeyed : (a : CabinetArgs) → IsKeyed (save_cabinet a s).1
  unfolding save_cabinet
  save_cabinet-IsKeyed a = elim (Bool-cases (truthy s.location)) [
    | inl e ↦ rw e (store_cabinet-IsKeyed a s.location)
    | inr e ↦ rw e inv
  ]

  restore-IsKeyed : (v : Value) → IsKeyed (restore v s).1
  restore-IsKeyed v = elim (Result-cases (get "location" v)) [
    | inr (x, hx) ↦ same_cabinets-IsKeyed _ (cabinets-restore_unread v s x hx)
    | inl (l, hl) ↦ elim (Result-cases (cabinet_table v)) [
      | inr (x, hx) ↦ same_cabinets-IsKeyed _ (cabinets-restore_raise v s x hx)
      | inl (table, ht) ↦
          let (u, h) = cabinet_table-IsKeyed v table ht in
          let e = cabinets-restore v s l table hl ht in record { distinct = rw e u; keyed = rw e h }
    ]
  ]

  load-IsKeyed : IsKeyed (load s).1
  unfolding load
  load-IsKeyed = elim (Bool-cases (truthy (load_data s))) [
    | inl e ↦ rw e (
        subst IsKeyed (sym (label_location_same (restore (load_data s)) s))
          (restore-IsKeyed (load_data s)))
    | inr e ↦ rw e inv
  ]

  -- Every method that changes the state keeps each cabinet under its own id, once, also where it
  -- raises halfway, and whatever file or database is loaded.
  pub run-IsKeyed : (c : Call) → IsKeyed (run c s).1
  unfolding run
  run-IsKeyed (location id name address) =
      same_cabinets-IsKeyed _ (cabinets-save_location id name address s)
  run-IsKeyed (cabinet a) = save_cabinet-IsKeyed a
  run-IsKeyed (lockers id items) = same_cabinets-IsKeyed _ (cabinets-save_lockers id items s)
  run-IsKeyed reload = load-IsKeyed
  run-IsKeyed wipe = let e = cabinets-clear s in record { distinct = rw e tt; keyed = rw e tt }

  pub write-IsKeyed : (w : Write) → IsKeyed (with_db (perform w) s).1
  write-IsKeyed w = same_cabinets-IsKeyed _ (cabinets-with_db (perform w) s)
