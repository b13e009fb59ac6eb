-- ===== src/Prelude/Texts.antt =====
-- What the source uses of Python's `str`: split, join, endswith, `in`, lower and upper. Letters are
-- the ASCII ones.
-- A text is walked by the constructors of the native `String`.
pub mod Laws
use Prim.Native.Nat.{ℕ, ◌+◌, ◌-◌}
use Prim.Native.Char.{code}
use Prim.Native.String.{String, ◌++◌}
use mathlib.Core.Bool.{Bool, true, false, ◌&&◌, ◌||◌}
use mathlib.Core.List.{List, [], ◌∷◌}
use smart_locker_iot.Prelude.Tests.{if◌then◌else◌, nat_beq, leb}
use smart_locker_iot.Prelude.Equality.{◌==◌, string_eq, nat_eq}

-- s.endswith(suffix)
unfoldable pub ends_with : String → String → Bool
ends_with String.[] suffix = suffix == ""
ends_with (String.◌∷◌ c s) suffix = String.◌∷◌ c s == suffix || ends_with s suffix

-- s.startswith(part)
unfoldable pub starts : String → String → Bool
starts s String.[] = true
starts String.[] (String.◌∷◌ d part) = false
starts (String.◌∷◌ c s) (String.◌∷◌ d part) = nat_beq (code c) (code d) && starts s part

-- `part in s`
unfoldable pub contains : String → String → Bool
unfolding starts
contains String.[] part = part == ""
contains (String.◌∷◌ c s) part = starts (String.◌∷◌ c s) part || contains s part

abbrev pub on_head : (String → String) → List String → List String
on_head f [] = f "" ∷ []
on_head f (w ∷ ws) = f w ∷ ws

-- s.split(sep) for a separator of one character: never the empty list.
unfoldable pub split : ℕ → String → List String
split sep String.[] = "" ∷ []
split sep (String.◌∷◌ c s) =
    let rest = split sep s in
    if nat_beq (code c) sep then "" ∷ rest else on_head (λ w. String.◌∷◌ c w) rest

-- sep.join(words)
unfoldable pub join : String → List String → String
join sep [] = ""
join sep (w ∷ []) = w
join sep (w ∷ v ∷ ws) = w ++ (sep ++ join sep (v ∷ ws))

-- The code points of s.lower().
unfoldable pub lower : String → List ℕ
lower String.[] = []
lower (String.◌∷◌ c s) =
    (if leb b'A' (code c) && leb (code c) b'Z' then code c + 32 else code c) ∷ lower s

unfoldable pub same_codes : List ℕ → List ℕ → Bool
same_codes [] [] = true
same_codes (a ∷ s) (b ∷ t) = nat_beq a b && same_codes s t
same_codes _ _ = false

-- The code points of s.upper().
unfoldable pub upper : String → List ℕ
upper String.[] = []
upper (String.◌∷◌ c s) =
    (if leb b'a' (code c) && leb (code c) b'z' then code c - 32 else code c) ∷ upper s

starts_codes : List ℕ → List ℕ → Bool
starts_codes s [] = true
starts_codes [] (b ∷ t) = false
starts_codes (a ∷ s) (b ∷ t) = nat_beq a b && starts_codes s t

-- `part in s` on code points.
unfoldable pub contains_codes : List ℕ → List ℕ → Bool
unfolding starts_codes
contains_codes [] part = starts_codes [] part
contains_codes (a ∷ s) part = starts_codes (a ∷ s) part || contains_codes s part
