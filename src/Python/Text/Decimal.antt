-- ===== src/Python/Text/Decimal.antt =====
-- `int(str(n))` is `n`: the decimal digits that the services write are read back.
use Prim.Native.Char.{Char, code, nul}
use Prim.Native.String.append
use text.Mathlib.TextLemmas as Text
use smart_locker_iot.Prelude.{
  ℕ, zero, suc, ◌+◌, ◌-◌, ◌*◌, ◌/◌, ◌%◌, ◌<◌, String, ◌<>◌, Bool, true, false, ltb, Bool-cases,
  nat_beq, ◌⊎◌, ◌≡◌, refl, arith, inl, inr, Option, none, some, ◌∙◌, ap, sym,
}
use smart_locker_iot.Prelude.Int.{ℤ, pos, negsuc, neg}
use smart_locker_iot.Python.Defs.{ok, raise, value_error}
use smart_locker_iot.Python.Text.{
  digit_text, decimal_loop, decimal, show_int, is_digit, is_blank, digits_value, with_sign,
  int_of_text,
}

head : String → Char
head String.[] = nul
head (String.◌∷◌ c s) = c

abbrev IsDigit : String → ℕ → Type 0
IsDigit s n = (s ≡ String.◌∷◌ (head s) String.[]) × (code (head s) ≡ 48 + n)

digit_text_lem : (n : ℕ) → n < 10 → IsDigit (digit_text n) n
unfolding head
digit_text_lem zero h = (refl, refl)
digit_text_lem (suc zero) h = (refl, refl)
digit_text_lem (suc (suc zero)) h = (refl, refl)
digit_text_lem (suc (suc (suc zero))) h = (refl, refl)
digit_text_lem (suc (suc (suc (suc zero)))) h = (refl, refl)
digit_text_lem (suc (suc (suc (suc (suc zero))))) h = (refl, refl)
digit_text_lem (suc (suc (suc (suc (suc (suc zero)))))) h = (refl, refl)
digit_text_lem (suc (suc (suc (suc (suc (suc (suc zero))))))) h = (refl, refl)
digit_text_lem (suc (suc (suc (suc (suc (suc (suc (suc zero)))))))) h = (refl, refl)
digit_text_lem (suc (suc (suc (suc (suc (suc (suc (suc (suc zero))))))))) h = (refl, refl)
digit_text_lem (suc (suc (suc (suc (suc (suc (suc (suc (suc (suc n)))))))))) h =
    absurd (omega (arith, h))

digits_value-digit :
    (d : ℕ) (s : String) (after : Bool) (n m : ℕ)
    → d < 10
    → m ≡ n * 10 + d
    → digits_value (digit_text d <> s) after n ≡ digits_value s true m
unfolding digits_value is_digit
digits_value-digit d s after n m h e =
    let (shape, c) = digit_text_lem d h in
    let at : code (head (digit_text d)) - 48 ≡ d = omega (arith, c) in
    let sum : n * 10 + (code (head (digit_text d)) - 48) ≡ m = omega (arith, at, e) in
    let digit : is_digit (head (digit_text d)) ≡ true = ground (arith, c) in
    rw (shape, append.cons, Text.nil-append, digit, sum) refl

-- The digits of a number, read in front of a text, give the number and go on with the text.
digits_value-decimal :
    (fuel n : ℕ) (s : String)
    → n < fuel
    → digits_value (decimal_loop fuel n <> s) false 0 ≡ digits_value s true n
unfolding decimal_loop
digits_value-decimal zero n s h = absurd (omega (arith, h))
digits_value-decimal (suc fuel) n s h = elim (Bool-cases (ltb n 10)) [
  | inl e ↦ rw e (digits_value-digit n s false 0 n (ground arith) (omega arith))
  | inr e ↦
      rw (e, Text.append_assoc)
        (digits_value-decimal fuel (n / 10) _ (ground arith)
          ∙ digits_value-digit (n % 10) s true (n / 10) n (omega arith) (omega arith))
]

with_sign-cases :
    (f : ℕ → ℤ) (r : Option ℕ)
    → ((n : ℤ) × (with_sign f r ≡ ok n)) ⊎ (with_sign f r ≡ raise value_error)
unfolding with_sign
with_sign-cases f none = inr refl
with_sign-cases f (some n) = inl (f n, refl)

-- `int` of a text gives a number or raises a ValueError.
pub int_of_text-cases :
    (s : String) → ((n : ℤ) × (int_of_text s ≡ ok n)) ⊎ (int_of_text s ≡ raise value_error)
unfolding int_of_text
int_of_text-cases String.[] = inr refl
int_of_text-cases (String.◌∷◌ c s) = elim (Bool-cases (is_blank c)) [
  | inl e ↦ rw e (int_of_text-cases s)
  | inr e ↦ rw e (elim (Bool-cases (nat_beq (code c) b'-')) [
    | inl m ↦ rw m (with_sign-cases neg _)
    | inr m ↦ rw m (elim (Bool-cases (nat_beq (code c) b'+')) [
      | inl p ↦ rw p (with_sign-cases (λ n. pos n) _)
      | inr p ↦ rw p (with_sign-cases (λ n. pos n) _)
    ])
  ])
]

StartsWithDigit : String → Type 0
StartsWithDigit s = (c : Char) × (t : String) × (s ≡ String.◌∷◌ c t) × (is_digit c ≡ true)

digit_text-StartsWithDigit : (d : ℕ) → d < 10 → StartsWithDigit (digit_text d)
unfolding is_digit StartsWithDigit
digit_text-StartsWithDigit d h =
    let (shape, c) = digit_text_lem d h in
    (head (digit_text d), String.[], shape, ground (arith, c))

decimal_loop-StartsWithDigit : (fuel n : ℕ) → n < fuel → StartsWithDigit (decimal_loop fuel n)
unfolding decimal_loop StartsWithDigit
decimal_loop-StartsWithDigit zero n h = absurd (omega (arith, h))
decimal_loop-StartsWithDigit (suc fuel) n h = elim (Bool-cases (ltb n 10)) [
  | inl e ↦ rw e (digit_text-StartsWithDigit n (ground arith))
  | inr e ↦
      let (c, t, shape, digit) = decimal_loop-StartsWithDigit fuel (n / 10) (ground arith) in
      rw e (c, t <> digit_text (n % 10), rw (shape, append.cons) refl, digit)
]

digits_value-number : (n : ℕ) → digits_value (decimal n) false 0 ≡ some n
unfolding decimal digits_value
digits_value-number n =
    ap (λ s. digits_value s false 0) (sym (Text.append-nil (decimal_loop (suc n) n)))
    ∙ digits_value-decimal (suc n) n "" (omega arith)

int_of_text-digit :
    (c : Char) (t : String)
    → is_digit c ≡ true
    → int_of_text (String.◌∷◌ c t) ≡ with_sign pos (digits_value (String.◌∷◌ c t) false 0)
unfolding int_of_text is_digit is_blank
int_of_text-digit c t digit = ground arith

int_of_text-decimal : (n : ℕ) → int_of_text (decimal n) ≡ ok (pos n)
unfolding decimal StartsWithDigit with_sign
int_of_text-decimal n =
    let (c, t, shape, digit) = decimal_loop-StartsWithDigit (suc n) n (omega arith) in
    let read : digits_value (String.◌∷◌ c t) false 0 ≡ some n =
      ap (λ s. digits_value s false 0) (sym shape) ∙ digits_value-number n in
    rw shape (int_of_text-digit c t digit ∙ ap (with_sign pos) read)

int_of_text-minus : (s : String) → int_of_text ("-" <> s) ≡ with_sign neg (digits_value s false 0)
unfolding int_of_text is_blank
int_of_text-minus s = rw (append.cons, Text.nil-append) refl

-- A number that was written as a text is read back.
pub int_of_text-show_int : (n : ℤ) → int_of_text (show_int n) ≡ ok n
unfolding show_int with_sign
int_of_text-show_int (pos n) = int_of_text-decimal n
int_of_text-show_int (negsuc n) =
    int_of_text-minus (decimal (suc n)) ∙ ap (with_sign neg) (digits_value-number (suc n))
