-- ===== src/Database/Refinement.antt =====
-- infracstructure/database.py: `save_lockers` against what it promises. The lockers are seen as one list
-- for each cabinet, and a call replaces the list of its cabinet.
use smart_locker_iot.Prelude.{
  String, Bool, true, false, Option, some, none, List, [], ◌∷◌, ◌++◌, append_assoc, append-nil, ◌≡◌,
  refl, ap, sym, ◌∙◌, arith, string_eq, ◌==◌, ==_iff, Bool-cases, Option-cases, inl, inr,
  if◌then◌else◌,
}
use smart_locker_iot.Prelude.Dict
use smart_locker_iot.Prelude.Dict.{Dict}
use smart_locker_iot.Python.{Value}
use smart_locker_iot.Database.Tables.{
  Database, Tables, CabinetRow, LockerRow, Sql, done, refused, broken, ◌>>=◌, bind, known,
}
use smart_locker_iot.Database.Methods.{
  belongs, LockerArgs, locker_args, locker_row, insert_locker, insert_lockers, without_lockers,
  replace_lockers,
}

-- The rows of each cabinet, in the order in which they were inserted.
abbrev pub View : Type 0
View = String → List (String × LockerRow)

unfoldable pub rows_of : Dict String LockerRow → View
rows_of [] cabinet = []
rows_of ((id, row) ∷ rows) cabinet =
    let rest = rows_of rows cabinet in if belongs cabinet row then (id, row) ∷ rest else rest

-- The view in which one cabinet has these rows, and every other its own. Rows without a cabinet stand in no
-- cabinet's list.
abbrev pub replaced : Option String → List (String × LockerRow) → View → View
replaced none rows view other = view other
replaced (some cabinet) rows view other = if other == cabinet then rows else view other

-- The rows that a list of lockers stands for.
unfoldable pub parsed : Database → Option String → List Value → Sql (List (String × LockerRow))
parsed db cabinet [] = done []
parsed db cabinet (locker ∷ lockers) = do
  a ← locker_args db locker
  rows ← parsed db cabinet lockers
  done (locker_row db cabinet a ∷ rows)

>>=-eq-done {ℓ κ} :
    {A : Type ℓ} {B : Type κ} {b : B} (m : Sql A) (f : A → Sql B)
    → (m >>= f) ≡ done b
    → (a : A) × (m ≡ done a) × (f a ≡ done b)
unfolding ◌>>=◌
>>=-eq-done (done a) f h = (a, refl, h)
>>=-eq-done refused f h = cc
>>=-eq-done (broken e) f h = cc

>>=-done {ℓ κ} :
    {A : Type ℓ} {B : Type κ} {a : A} (m : Sql A) (f : A → Sql B) → m ≡ done a → (m >>= f) ≡ f a
unfolding ◌>>=◌
>>=-done m f e = rw e refl

done-inj : {A : Type 0} {x y : A} → done x ≡ done y → x ≡ y
done-inj e = cc

guarded-eq-done :
    {A : Type 0} {x y : A} (taken there : Bool)
    → (if taken then refused else if there then done x else refused) ≡ done y
    → y ≡ x
guarded-eq-done true there h = cc
guarded-eq-done false true h = cc
guarded-eq-done false false h = cc

module _ (db : Database) (cabinets : Dict String CabinetRow) (cabinet : Option String) where
  insert_locker-eq-done :
      (locker : Value) (rows : Dict String LockerRow) {rows' : Dict String LockerRow}
      → insert_locker db cabinets cabinet locker rows ≡ done rows'
      → (a : LockerArgs) × (locker_args db locker ≡ done a)
        × (rows' ≡ rows ++ locker_row db cabinet a ∷ [])
  unfolding insert_locker
  insert_locker-eq-done locker rows {rows'} h =
      let (a, e, more) = >>=-eq-done (locker_args db locker) _ h in
      (a, e, guarded-eq-done (known (some a.id) rows) (known cabinet cabinets) more)

  insert_lockers-eq-done :
      (lockers : List Value) (rows : Dict String LockerRow) {rows' : Dict String LockerRow}
      → insert_lockers db cabinets cabinet lockers rows ≡ done rows'
      → (new : List (String × LockerRow)) × (parsed db cabinet lockers ≡ done new)
        × (rows' ≡ rows ++ new)
  unfolding insert_lockers parsed
  insert_lockers-eq-done [] rows {rows'} h = ([], refl, done-inj (sym h) ∙ sym (append-nil rows))
  insert_lockers-eq-done (locker ∷ lockers) rows {rows'} h =
      let (next, inserted, more) =
        >>=-eq-done (insert_locker db cabinets cabinet locker rows) _ h in
      let (a, e, first) = insert_locker-eq-done locker rows inserted in
      let (new, p, all) = insert_lockers-eq-done lockers next more in
      (
        locker_row db cabinet a ∷ new,
        >>=-done (locker_args db locker) _ e ∙ >>=-done (parsed db cabinet lockers) _ p,
        all ∙ ap (λ r. r ++ new) first ∙ append_assoc rows _ new,
      )

module _ (db : Database) where
  rows_of-parsed :
      (cabinet : String) (lockers : List Value) (other : String) (new : List (String × LockerRow))
      → parsed db (some cabinet) lockers ≡ done new
      → rows_of new other ≡ (if other == cabinet then new else [])
  unfolding parsed rows_of
  rows_of-parsed cabinet [] other new h =
      rw (sym (done-inj h))
        (elim (Bool-cases (other == cabinet)) [ inl e ↦ rw e refl | inr e ↦ rw e refl ])
  rows_of-parsed cabinet (locker ∷ lockers) other new h =
      let (a, e, more) = >>=-eq-done (locker_args db locker) _ h in
      let (rest, p, last) = >>=-eq-done (parsed db (some cabinet) lockers) _ more in
      rw (sym (done-inj last)) (
        ground (
          arith,
          rows_of-parsed cabinet lockers other rest p,
          ==_iff other cabinet,
          ==_iff cabinet other,
        ))

  -- Rows without a cabinet are in no cabinet's list.
  rows_of-homeless :
      (lockers : List Value) (other : String) (new : List (String × LockerRow))
      → parsed db none lockers ≡ done new
      → rows_of new other ≡ []
  unfolding parsed rows_of
  rows_of-homeless [] other new h = rw (sym (done-inj h)) refl
  rows_of-homeless (locker ∷ lockers) other new h =
      let (a, e, more) = >>=-eq-done (locker_args db locker) _ h in
      let (rest, p, last) = >>=-eq-done (parsed db none lockers) _ more in
      rw (sym (done-inj last)) (rows_of-homeless lockers other rest p)

rows_of-append :
    (a b : Dict String LockerRow) (cabinet : String)
    → rows_of (a ++ b) cabinet ≡ rows_of a cabinet ++ rows_of b cabinet
unfolding rows_of
rows_of-append [] b cabinet = refl
rows_of-append ((id, row) ∷ a) b cabinet = ground (arith, rows_of-append a b cabinet)

rows_of-reject :
    (cabinet other : String) (rows : Dict String LockerRow)
    → rows_of (Dict.reject (belongs cabinet) rows) other
      ≡ (if other == cabinet then [] else rows_of rows other)
unfolding rows_of Dict.reject
rows_of-reject cabinet other [] = elim (Bool-cases (other == cabinet)) [
  | inl e ↦ rw e refl
  | inr e ↦ rw e refl
]
rows_of-reject cabinet other ((id, row) ∷ rows) = elim (Option-cases row.cabinet_id) [
  | inl e ↦ ground (arith, rows_of-reject cabinet other rows)
  | inr (k, e) ↦ ground (
    arith,
    rows_of-reject cabinet other rows,
    ==_iff other cabinet,
    ==_iff k cabinet,
    ==_iff k other,
  )
]

bind-eq-done : {A : Type 0} {a : A} (o : Option A) → bind o ≡ done a → o ≡ some a
bind-eq-done none h = cc
bind-eq-done (some b) h = ap some (done-inj h)

rows_of-replaced :
    (db : Database) (cabinet : Option String) (lockers : List Value)
    (new : List (String × LockerRow)) (rows : Dict String LockerRow) (other : String)
    → parsed db cabinet lockers ≡ done new
    → rows_of (without_lockers cabinet rows ++ new) other
      ≡ replaced cabinet new (rows_of rows) other
rows_of-replaced db none lockers new rows other p =
    rows_of-append rows new other ∙ rw (rows_of-homeless db lockers other new p) (append-nil _)
rows_of-replaced db (some cabinet) lockers new rows other p =
    rw
      (
        rows_of-append (Dict.reject (belongs cabinet) rows) new other,
        rows_of-reject cabinet other rows,
        rows_of-parsed db cabinet lockers other new p,
      )
      (elim (Bool-cases (other == cabinet)) [ inl e ↦ rw e refl | inr e ↦ rw e (append-nil _) ])

-- A `save_lockers` that is committed replaces the lockers of its cabinet by those that it was given, in
-- their order, and leaves those of every other cabinet. Without a cabinet it leaves those of every cabinet.
-- In both cases the rows that it spares come first in the table, and those that it was given after them.
pub replace_lockers-replaced :
    (cabinet_id : Value) (lockers : List Value) (db : Database) (t : Tables)
    → replace_lockers cabinet_id lockers db ≡ done t
    → (cabinet : Option String) × (new : List (String × LockerRow)) × (db.driver.text cabinet_id
        ≡ some cabinet)
      × (parsed db cabinet lockers ≡ done new)
      × (t.lockers ≡ without_lockers cabinet db.tables.lockers ++ new)
      × ((other : String)
          → rows_of t.lockers other ≡ replaced cabinet new (rows_of db.tables.lockers) other)
unfolding replace_lockers
replace_lockers-replaced cabinet_id lockers db t h =
    let (cabinet, bound, more) = >>=-eq-done (bind (db.driver.text cabinet_id)) _ h in
    let spared = without_lockers cabinet db.tables.lockers in
    let (rows, inserted, last) =
      >>=-eq-done (insert_lockers db db.tables.cabinets cabinet lockers spared) _ more in
    let (new, p, all) =
      insert_lockers-eq-done db db.tables.cabinets cabinet lockers spared inserted in
    let whole = ap (λ x. x.lockers) (sym (done-inj last)) ∙ all in
    (
      cabinet,
      new,
      bind-eq-done _ bound,
      p,
      whole,
      λ other.
          ap (λ ls. rows_of ls other) whole
          ∙ rows_of-replaced db cabinet lockers new db.tables.lockers other p,
    )
