-- ===== src/Python/Exec.antt =====
-- Code that changes objects and may raise: what was written before an exception stays written.
use smart_locker_iot.Prelude.{◌≡◌, refl, subst, Option, none, some}
use smart_locker_iot.Python.Defs.{Result, ok, raise}

abbrev pub Exec {ℓ} : Type 0 → Type ℓ → Type ℓ
Exec S A = S → Result A × S

module _ {S : Type 0} where
  abbrev pub pure {ℓ} : {A : Type ℓ} → A → Exec S A
  pure a s = (ok a, s)

  abbrev pub lift {ℓ} : {A : Type ℓ} → Result A → Exec S A
  lift r s = (r, s)

  abbrev pub gets {ℓ} : {A : Type ℓ} → (S → A) → Exec S A
  gets f s = (ok (f s), s)

  abbrev pub modify : (S → S) → Exec S (Unit {0})
  modify f s = (ok tt, f s)

  abbrev pub continue {ℓ κ} : {A : Type ℓ} {B : Type κ} → Result A → (A → Exec S B) → Exec S B
  continue (ok a) f s = f a s
  continue (raise e) f s = (raise e, s)

  infixl 5 ◌>>=◌ ◌>>◌
  unfoldable pub ◌>>=◌ {ℓ κ} : {A : Type ℓ} {B : Type κ} → Exec S A → (A → Exec S B) → Exec S B
  ◌>>=◌ m f s = continue (m s).0 f (m s).1

  unfoldable pub ◌>>◌ {ℓ κ} : {A : Type ℓ} {B : Type κ} → Exec S A → Exec S B → Exec S B
  unfolding ◌>>=◌
  m >> n = m >>= λ _. n

  -- Runs `m` if the object is there.
  abbrev pub when {ℓ} : {A : Type ℓ} → Option A → (A → Exec S (Unit {0})) → Exec S (Unit {0})
  when none f s = (ok tt, s)
  when (some a) f s = f a s

  -- try: m, except Exception: pass
  abbrev pub attempt : Exec S (Unit {0}) → Exec S (Unit {0})
  attempt m s = (ok tt, (m s).1)

-- What holds of each value that an action returns, from whatever state.
pub record Returns {S : Type 0} {A : Type 0} (Q : A → Type 0) (m : Exec S A) : Type 0 where
  pub at : (s : S) (a : A) → (m s).0 ≡ ok a → Q a

module _ {S A : Type 0} where
  pub Returns-any : (m : Exec S A) → Returns (λ _. Unit) m
  Returns-any m = record { at = λ s a e. tt }

  pub Returns-lift : (r : Result A) → Returns (λ a. r ≡ ok a) (lift {S = S} r)
  Returns-lift r = record { at = λ s a e. e }

  pub Returns-pure : {Q : A → Type 0} (a : A) → Q a → Returns {S = S} Q (pure a)
  Returns-pure {Q} a q = record { at = λ s b e. subst Q (returned e) q }
    where
      returned : {a b : A} → ok a ≡ ok b → a ≡ b
      returned e = cc

module _ {S A B : Type 0} {R : A → Type 0} {Q : B → Type 0} where
  Returns-continue :
      (r : Result A) (f : A → Exec S B) (s : S) (b : B)
      → ((a : A) → r ≡ ok a → R a)
      → ((a : A) → R a → Returns Q (f a))
      → (continue r f s).0 ≡ ok b
      → Q b
  Returns-continue (ok a) f s b h k e = (k a (h a refl)).at s b e
  Returns-continue (raise x) f s b h k e = cc

  pub Returns-bind :
      (m : Exec S A) (f : A → Exec S B)
      → Returns R m
      → ((a : A) → R a → Returns Q (f a))
      → Returns Q (m >>= f)
  unfolding ◌>>=◌
  Returns-bind m f h k = record { at = λ s b e. Returns-continue (m s).0 f (m s).1 b (h.at s) k e }

module _ {S A B : Type 0} {Q : B → Type 0} where
  -- Whatever the first action returns.
  pub Returns-next :
      (m : Exec S A) (f : A → Exec S B) → ((a : A) → Returns Q (f a)) → Returns Q (m >>= f)
  Returns-next m f k = Returns-bind m f (Returns-any m) λ a _. k a

  pub Returns-after : (m : Exec S A) (n : Exec S B) → Returns Q n → Returns Q (m >> n)
  unfolding ◌>>◌
  Returns-after m n k = Returns-next m (λ _. n) λ _. k
