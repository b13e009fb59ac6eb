-- ===== src/Prelude/Dict.antt =====
-- Python's `dict`, in insertion order: a new key goes to the end, a known one keeps its place.
use mathlib.Core.Path.{◌≡◌, refl}
use mathlib.Core.Logic.{◌≢◌}
use mathlib.Core.Bool.{Bool, true, false}
use mathlib.Core.Option.{Option, none, some}
use mathlib.Core.List.{List, [], ◌∷◌, ◌++◌}
use native.Mathlib.Omega.{arith}
use smart_locker_iot.Prelude.Tests.{if◌then◌else◌}
use smart_locker_iot.Prelude.Equality.{Eq, ◌==◌, ==_iff, ==_self}

abbrev pub Dict {ℓ κ} : Type ℓ → Type κ → Type (ℓ ⊔ κ)
Dict K V = List (K × V)

abbrev pub keys {ℓ κ} : {K : Type ℓ} {V : Type κ} → Dict K V → List K
keys [] = []
keys ((k, v) ∷ d) = k ∷ keys d

abbrev pub values {ℓ κ} : {K : Type ℓ} {V : Type κ} → Dict K V → List V
values [] = []
values ((k, v) ∷ d) = v ∷ values d

module _ {ℓ κ} {K : Type ℓ} {V : Type κ} ⦃e : Eq K⦄ where
  -- d.get(k)
  unfoldable pub get : K → Dict K V → Option V
  get k [] = none
  get k ((j, v) ∷ d) = if j == k then some v else get k d

  -- d[k] = v
  unfoldable pub insert : K → V → Dict K V → Dict K V
  insert k v [] = (k, v) ∷ []
  insert k v ((j, w) ∷ d) = if j == k then (j, v) ∷ d else (j, w) ∷ insert k v d

  pub get-insert :
      (k j : K) (v : V) (d : Dict K V) → get j (insert k v d) ≡ (if k == j then some v else get j d)
  unfolding get insert
  get-insert k j v [] = refl
  get-insert k j v ((i, w) ∷ d) =
      ground (arith, ==_iff k j, ==_iff i k, ==_iff i j, get-insert k j v d)

  pub get-insert_self : (k : K) (v : V) (d : Dict K V) → get k (insert k v d) ≡ some v
  get-insert_self k v d = ground (arith, get-insert k k v d, ==_self k)

  pub get-insert_ne : (k j : K) (v : V) (d : Dict K V) → k ≢ j → get j (insert k v d) ≡ get j d
  get-insert_ne k j v d h = ground (arith, get-insert k j v d, ==_iff k j)

  -- A statement's deletion: the entries that the test spares.
  unfoldable pub reject : (V → Bool) → Dict K V → Dict K V
  reject p [] = []
  reject p ((j, v) ∷ d) = let rest = reject p d in if p v then rest else (j, v) ∷ rest

  -- No key stands twice.
  abbrev pub NodupKeys : Dict K V → Type κ
  NodupKeys [] = Unit {κ}
  NodupKeys ((k, v) ∷ d) = (get k d ≡ none) × NodupKeys d

  pub insert-NodupKeys : (k : K) (v : V) (d : Dict K V) → NodupKeys d → NodupKeys (insert k v d)
  unfolding insert
  insert-NodupKeys k v [] u = unfold get in (refl, tt)
  insert-NodupKeys k v ((j, w) ∷ d) (fresh, u) =
      ground (arith, ==_iff j k, get-insert k j v d, ==_iff k j, insert-NodupKeys k v d u)

  pub get-reject-none :
      (p : V → Bool) (k : K) (d : Dict K V) → get k d ≡ none → get k (reject p d) ≡ none
  unfolding get reject
  get-reject-none p k [] h = refl
  get-reject-none p k ((j, v) ∷ d) h = ground (arith, get-reject-none p k d)

  pub reject-NodupKeys : (p : V → Bool) (d : Dict K V) → NodupKeys d → NodupKeys (reject p d)
  unfolding reject
  reject-NodupKeys p [] u = tt
  reject-NodupKeys p ((j, v) ∷ d) (fresh, u) =
      ground (arith, get-reject-none p j d, reject-NodupKeys p d u)

  -- What holds of every value.
  abbrev pub AllValues {μ} : (V → Type μ) → Dict K V → Type μ
  AllValues P [] = Unit
  AllValues P ((k, v) ∷ d) = P v × AllValues P d

  pub insert-AllValues {μ} :
      (P : V → Type μ) (k : K) (v : V) (d : Dict K V)
      → P v
      → AllValues P d
      → AllValues P (insert k v d)
  unfolding insert
  insert-AllValues P k v [] h all = (h, tt)
  insert-AllValues P k v ((j, w) ∷ d) h (p, all) =
      elim (j == k) as (λ b. AllValues P (if b then (j, v) ∷ d else (j, w) ∷ insert k v d)) [
        | true ↦ (h, all)
        | false ↦ (p, insert-AllValues P k v d h all)
      ]

  pub reject-AllValues {μ} :
      (P : V → Type μ) (p : V → Bool) (d : Dict K V) → AllValues P d → AllValues P (reject p d)
  unfolding reject
  reject-AllValues P p [] all = tt
  reject-AllValues P p ((j, v) ∷ d) (h, all) =
      elim (p v) as (λ b. AllValues P (if b then reject p d else (j, v) ∷ reject p d)) [
        | true ↦ reject-AllValues P p d all
        | false ↦ (h, reject-AllValues P p d all)
      ]

  pub AllValues-map {μ ν} :
      (P : V → Type μ) (Q : V → Type ν) (d : Dict K V)
      → ((v : V) → P v → Q v)
      → AllValues P d
      → AllValues Q d
  AllValues-map P Q [] f all = tt
  AllValues-map P Q ((j, v) ∷ d) f (h, all) = (f v h, AllValues-map P Q d f all)

module _ {ℓ κ} {K : Type ℓ} {V : Type κ} ⦃e : Eq K⦄ where
  pub insert-fresh :
      (k : K) (v : V) (d : Dict K V) → get k d ≡ none → insert k v d ≡ d ++ (k, v) ∷ []
  unfolding get insert
  insert-fresh k v [] h = refl
  insert-fresh k v ((j, w) ∷ d) h = ground (arith, insert-fresh k v d)

  -- A key that comes later in a dictionary is not among the keys before.
  pub get_before :
      (a : Dict K V) (k : K) (v : V) (d : Dict K V) → NodupKeys (a ++ (k, v) ∷ d) → get k a ≡ none
  unfolding get
  get_before [] k v d u = refl
  get_before ((j, w) ∷ a) k v d (fresh, u) =
      ground (arith, get_before a k v d u, ==_iff j k, get_there a k j v d)
    where
      get_there :
          (a : Dict K V) (k j : K) (v : V) (d : Dict K V)
          → get j (a ++ (k, v) ∷ d) ≡ none
          → (j == k) ≡ false
      get_there [] k j v d h = ground (arith, ==_iff j k, ==_iff k j)
      get_there ((i, w) ∷ a) k j v d h = ground (arith, get_there a k j v d)
