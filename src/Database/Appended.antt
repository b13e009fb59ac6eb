-- ===== src/Database/Appended.antt =====
-- A table of infracstructure/database.py to which a row with a new key was added.
use smart_locker_iot.Prelude.{
  String, false, ◌≡◌, refl, none, some, [], ◌∷◌, ◌++◌, arith, ◌==◌, string_eq, if◌then◌else◌,
  ==_iff,
}
use smart_locker_iot.Prelude.Dict
use smart_locker_iot.Prelude.Dict.{Dict}
use smart_locker_iot.Database.Tables.{known}

pub get-append_new {ℓ} :
    {V : Type ℓ} (k j : String) (v : V) (d : Dict String V)
    → Dict.get k (d ++ (j, v) ∷ [])
      ≡ (elim (Dict.get k d) [ none ↦ (if j == k then some v else none) | some w ↦ some w ])
unfolding Dict.get
get-append_new k j v [] = refl
get-append_new k j v ((i, w) ∷ d) = ground (arith, get-append_new k j v d)

pub append-NodupKeys {ℓ} :
    {V : Type ℓ} (j : String) (v : V) (d : Dict String V)
    → known (some j) d ≡ false
    → Dict.NodupKeys d
    → Dict.NodupKeys (d ++ (j, v) ∷ [])
unfolding Dict.get
append-NodupKeys j v [] new u = (refl, tt)
append-NodupKeys j v ((i, w) ∷ d) new (fresh, u) =
    ground (arith, get-append_new i j v d, ==_iff i j, ==_iff j i, append-NodupKeys j v d)

pub append-AllValues {ℓ} :
    {V : Type ℓ} (P : V → Type 0) (j : String) (v : V) (d : Dict String V)
    → P v
    → Dict.AllValues P d
    → Dict.AllValues P (d ++ (j, v) ∷ [])
append-AllValues P j v [] h all = (h, tt)
append-AllValues P j v ((i, w) ∷ d) h (p, all) = (p, append-AllValues P j v d h all)
