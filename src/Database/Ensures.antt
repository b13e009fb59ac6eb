-- ===== src/Database/Ensures.antt =====
-- What the statements of a transaction of infracstructure/database.py ensure of their result.
use smart_locker_iot.Prelude.{Bool, true, false, ◌≡◌, refl, subst, string_eq, if◌then◌else◌}
use smart_locker_iot.Python.{Fault}
use smart_locker_iot.Database.Tables.{Sql, done, refused, broken, ◌>>=◌}

-- `P` holds of the result of a statement, if there is one.
pub record Ensures {A : Type 0} (P : A → Type 0) (m : Sql A) : Type 0 where
  pub at : (a : A) → m ≡ done a → P a

pub Ensures-done : {A : Type 0} (P : A → Type 0) (a : A) → P a → Ensures P (done a)
Ensures-done P a h = record {
  at = λ b e. subst (elim [ done c ↦ P c | refused ↦ P a | broken _ ↦ P a ]) e h;
}

pub Ensures-refused : {A : Type 0} {P : A → Type 0} → Ensures P refused
Ensures-refused = record { at = λ b e. cc }

pub Ensures-broken : {A : Type 0} {P : A → Type 0} (e : Fault) → Ensures P (broken e)
Ensures-broken f = record { at = λ b e. cc }

pub Ensures-bind :
    {A B : Type 0} {P : B → Type 0} (m : Sql A) (f : A → Sql B)
    → ((a : A) → Ensures P (f a))
    → Ensures P (m >>= f)
unfolding ◌>>=◌
Ensures-bind (done a) f h = h a
Ensures-bind refused f h = Ensures-refused
Ensures-bind (broken e) f h = Ensures-broken e

-- The rest may use what the statement ensures.
pub Ensures-bind_with :
    {A B : Type 0} {P : B → Type 0} (Q : A → Type 0) (m : Sql A) (f : A → Sql B)
    → Ensures Q m
    → ((a : A) → Q a → Ensures P (f a))
    → Ensures P (m >>= f)
unfolding ◌>>=◌
Ensures-bind_with Q (done a) f q h = h a (q.at a refl)
Ensures-bind_with Q refused f q h = Ensures-refused
Ensures-bind_with Q (broken e) f q h = Ensures-broken e

pub Ensures-if :
    {A : Type 0} {P : A → Type 0} (b : Bool) (m n : Sql A)
    → (b ≡ true → Ensures P m)
    → (b ≡ false → Ensures P n)
    → Ensures P (if b then m else n)
Ensures-if true m n h k = h refl
Ensures-if false m n h k = k refl
