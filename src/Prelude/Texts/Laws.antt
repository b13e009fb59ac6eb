-- ===== src/Prelude/Texts/Laws.antt =====
-- Texts in front of a text that is tested or split.
use Prim.Native.Nat.{ℕ, suc, ◌≤◌}
use Prim.Native.Char.{Char, code}
use Prim.Native.String.{String, ◌++◌, count}
use Prim.Native.String.append
use text.Mathlib.TextLemmas as Text
use mathlib.Core.Path.{◌≡◌, refl, ap, sym, ◌∙◌}
use mathlib.Core.Logic.{inl, inr}
use mathlib.Core.Bool.{Bool, true, false, not, ◌&&◌}
use mathlib.Core.List.{◌∷◌}
use native.Mathlib.Omega.{arith}
use smart_locker_iot.Prelude.Tests.{nat_beq, Bool-cases}
use smart_locker_iot.Prelude.Equality.{◌==◌, string_eq, ==_iff, ==_self}
use smart_locker_iot.Prelude.Texts.{ends_with, starts, contains, split}

-- The text has no character of this code.
unfoldable pub free_of : ℕ → String → Bool
free_of k String.[] = true
free_of k (String.◌∷◌ c s) = not (nat_beq (code c) k) && free_of k s

-- A text in front changes no test for a suffix that is not longer.
pub ends_with-append :
    (a b suffix : String) → count suffix ≤ count b → ends_with (a ++ b) suffix ≡ ends_with b suffix
unfolding ends_with
ends_with-append String.[] b suffix le = rw Text.nil-append refl
ends_with-append (String.◌∷◌ c a) b suffix le =
    rw append.cons (elim (Bool-cases (String.◌∷◌ c (a ++ b) == suffix)) [
      | inl e ↦
          let same : count suffix ≡ suc (count (a ++ b)) =
            ap count (sym ((==_iff _ suffix).0 e)) ∙ Text.length-cons c (a ++ b) in
          absurd (omega (arith, same, Text.length-append a b, le))
      | inr e ↦ rw e (ends_with-append a b suffix le)
    ])

ends_with_self : (s : String) → ends_with s s ≡ true
unfolding ends_with
ends_with_self String.[] = refl
ends_with_self (String.◌∷◌ c s) = rw (==_self (String.◌∷◌ c s)) refl

ends_with-tail :
    (s : String) (c : Char) (q : String)
    → ends_with s (String.◌∷◌ c q) ≡ true
    → ends_with s q ≡ true
unfolding ends_with
ends_with-tail String.[] c q h = absurd (Text.cons≢nil ((==_iff (String.◌∷◌ c q) "").0 h))
ends_with-tail (String.◌∷◌ d s) c q h = elim (Bool-cases (String.◌∷◌ d s == String.◌∷◌ c q)) [
  | inl e ↦
      let rest : s ≡ q = Text.tail-eq_of_cons-eq ((==_iff _ (String.◌∷◌ c q)).0 e) in
      let ends : ends_with s q ≡ true = ap (λ t. ends_with t q) rest ∙ ends_with_self q in
      ground (arith, ends)
  | inr e ↦
      let ends : ends_with s q ≡ true = ends_with-tail s c q (ground (arith, h, e)) in
      ground (arith, ends)
]

-- A suffix of the suffix is a suffix.
ends_with-drop : (s p q : String) → ends_with s (p ++ q) ≡ true → ends_with s q ≡ true
unfolding ends_with
ends_with-drop s String.[] q h = ap (λ t. ends_with s t) (sym (Text.nil-append q)) ∙ h
ends_with-drop s (String.◌∷◌ c p) q h =
    ends_with-drop s p q
      (ends_with-tail s c (p ++ q) (ap (λ t. ends_with s t) (sym (append.cons c p q)) ∙ h))

-- A text with an end of its own has no suffix that ends otherwise.
pub ends_with-other :
    (a b p q : String)
    → count q ≤ count b
    → ends_with b q ≡ false
    → ends_with (a ++ b) (p ++ q) ≡ false
ends_with-other a b p q le differs = elim (Bool-cases (ends_with (a ++ b) (p ++ q))) [
  | inr e ↦ e
  | inl e ↦
      let impossible : true ≡ false =
        sym (ends_with-drop (a ++ b) p q e) ∙ ends_with-append a b q le ∙ differs in
      absurd cc
]

pub contains-append : (a b part : String) → contains b part ≡ true → contains (a ++ b) part ≡ true
unfolding contains
contains-append String.[] b part h = rw Text.nil-append h
contains-append (String.◌∷◌ c a) b part h =
    rw append.cons (ground (arith, contains-append a b part h))

-- A part that begins with a character is not found inside a text without it.
pub contains-free_of :
    (d : Char) (a b part : String)
    → free_of (code d) a ≡ true
    → contains (a ++ b) (String.◌∷◌ d part) ≡ contains b (String.◌∷◌ d part)
unfolding contains free_of
contains-free_of d String.[] b part h = rw Text.nil-append refl
contains-free_of d (String.◌∷◌ c a) b part h =
    rw append.cons (elim (Bool-cases (nat_beq (code c) (code d))) [
      | inl e ↦ absurd (ground (arith, h, e))
      | inr e ↦ rw e (contains-free_of d a b part (ground (arith, h, e)))
    ])

-- What stands in front of the first separator is the first word.
pub split-free_of :
    (k : ℕ) (a b : String) (c : Char)
    → free_of k a ≡ true
    → code c ≡ k
    → split k (a ++ String.◌∷◌ c b) ≡ a ∷ split k b
unfolding split free_of
split-free_of k String.[] b c h e =
    rw Text.nil-append (let first : nat_beq (code c) k ≡ true = ground (arith, e) in rw first refl)
split-free_of k (String.◌∷◌ d a) b c h e = rw append.cons (elim (Bool-cases (nat_beq (code d) k)) [
  | inl n ↦ absurd (ground (arith, h, n))
  | inr n ↦ rw (n, split-free_of k a b c (ground (arith, h, n)) e) refl
])

-- Two texts up to a separator: where one starts with the other, so do their rests.
pub starts-free_of :
    (d : Char) (a b p q : String)
    → free_of (code d) a ≡ true
    → free_of (code d) p ≡ true
    → starts (a ++ String.◌∷◌ d b) (p ++ String.◌∷◌ d q) ≡ true
    → starts b q ≡ true
unfolding starts free_of
starts-free_of d String.[] b String.[] q fa fp h =
    let h' : starts (String.◌∷◌ d b) (String.◌∷◌ d q) ≡ true =
      rw (Text.nil-append, Text.nil-append) at h in
    ground (arith, h')
starts-free_of d String.[] b (String.◌∷◌ e p) q fa fp h =
    let h' : starts (String.◌∷◌ d b) (String.◌∷◌ e (p ++ String.◌∷◌ d q)) ≡ true =
      rw (Text.nil-append, append.cons) at h in
    absurd (ground (arith, h', fp))
starts-free_of d (String.◌∷◌ c a) b String.[] q fa fp h =
    let h' : starts (String.◌∷◌ c (a ++ String.◌∷◌ d b)) (String.◌∷◌ d q) ≡ true =
      rw (append.cons, Text.nil-append) at h in
    absurd (ground (arith, h', fa))
starts-free_of d (String.◌∷◌ c a) b (String.◌∷◌ e p) q fa fp h =
    let h' : starts (String.◌∷◌ c (a ++ String.◌∷◌ d b)) (String.◌∷◌ e (p ++ String.◌∷◌ d q))
        ≡ true =
      rw (append.cons c a, append.cons e p) at h in
    starts-free_of d a b p q (ground (arith, fa)) (ground (arith, fp)) (ground (arith, h'))
