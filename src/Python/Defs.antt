-- ===== src/Python/Defs.antt =====
-- One data type of values, with `d.get`, truth, hashing of keys and what `json.dumps` accepts.
use smart_locker_iot.Prelude.{
  ℕ, suc, ap, ◌⊎◌, inl, inr, nat_beq, ==_iff, String, ◌≡◌, ◌↔◌, refl, Bool, true, false, ◌&&◌, not,
  Option, none, some, List, [], ◌∷◌, arith, Eq, ◌==◌, string_eq, nat_eq, if◌then◌else◌,
}
use smart_locker_iot.Prelude.Int.{ℤ, pos, int_beq, int_beq_iff}

mutual
  pub data Value : Type 0 where
    null : Value
    bool : Bool → Value
    num : ℤ → Value
    str : String → Value
    datetime : ℕ → Value
    arr : Items → Value
    obj : Fields → Value

  pub data Items : Type 0 where
    cons : Value → Items → Items
    nil : Items

  pub data Fields : Type 0 where
    field : String → Value → Fields → Fields
    end : Fields

-- What a service may raise: the exceptions of the language that its own code does not catch.
pub data Fault : Type 0 where
  key_error : String → Fault
  index_error type_error attribute_error value_error : Fault

pub data Result {ℓ} (A : Type ℓ) : Type ℓ where
  ok : A → Result A
  raise : Fault → Result A

infixl 5 ◌>>=◌
abbrev pub ◌>>=◌ {ℓ κ} : {A : Type ℓ} {B : Type κ} → Result A → (A → Result B) → Result B
raise e >>= next = raise e
ok found >>= next = next found

-- d.get(k) of a dict
unfoldable pub find : String → Fields → Option Value
find k end = none
find k (field j v fs) = if j == k then some v else find k fs

abbrev pub default : Value → Option Value → Value
default v none = v
default v (some w) = w

-- x.get(k): only a dict has the method.
unfoldable pub get : String → Value → Result (Option Value)
unfolding find
get k (obj fs) = ok (find k fs)
get k v = raise attribute_error

-- x.get(k, d)
unfoldable pub get_or : String → Value → Value → Result Value
unfolding get
get_or k d v = get k v >>= λ found. ok (default d found)

abbrev required : String → Option Value → Result Value
required k none = raise (key_error k)
required k (some v) = ok v

-- x[k] for a text k
unfoldable pub index : String → Value → Result Value
unfolding find
index k (obj fs) = required k (find k fs)
index k v = raise type_error

-- d[k] = v
unfoldable pub put : String → Value → Fields → Fields
put k v end = field k v end
put k v (field j w fs) = if j == k then field j v fs else field j w (put k v fs)

abbrev pub list_of : Items → List Value
list_of nil = []
list_of (cons v vs) = v ∷ list_of vs

abbrev pub items_of : List Value → Items
items_of [] = nil
items_of (v ∷ vs) = cons v (items_of vs)

-- bool(x)
abbrev pub truthy : Value → Bool
truthy null = false
truthy (bool b) = b
truthy (num n) = not (int_beq n (pos 0))
truthy (str s) = not (s == "")
truthy (datetime t) = true
truthy (arr nil) = false
truthy (arr (cons v vs)) = true
truthy (obj end) = false
truthy (obj (field k v fs)) = true

-- `a or b`
abbrev pub or_else : Value → Value → Value
or_else a b = if truthy a then a else b

-- `x is not None`
abbrev pub is_none : Value → Bool
is_none null = true
is_none _ = false

-- What a value is as a key of a dict: `True` is the key 1.
pub data Key : Type 0 where
  none_key : Key
  int_key : ℤ → Key
  str_key : String → Key
  datetime_key : ℕ → Key

abbrev key_beq : Key → Key → Bool
key_beq none_key none_key = true
key_beq (int_key a) (int_key b) = int_beq a b
key_beq (str_key a) (str_key b) = a == b
key_beq (datetime_key a) (datetime_key b) = a == b
key_beq _ _ = false

pub key_beq_iff : (a b : Key) → (key_beq a b ≡ true) ↔ (a ≡ b)
key_beq_iff (int_key a) (int_key b) = ground (arith, int_beq_iff a b)
key_beq_iff (str_key a) (str_key b) = ground (arith, ==_iff a b)
key_beq_iff _ _ = ground arith

-- hash(x): a list or a dict is unhashable.
unfoldable pub key_of : Value → Result Key
key_of null = ok none_key
key_of (bool true) = ok (int_key (pos 1))
key_of (bool false) = ok (int_key (pos 0))
key_of (num n) = ok (int_key n)
key_of (str s) = ok (str_key s)
key_of (datetime t) = ok (datetime_key t)
key_of (arr vs) = raise type_error
key_of (obj fs) = raise type_error

unfoldable mutual
  -- `json.dumps` refuses a `datetime`, at any depth.
  pub serializable : Value → Bool
  serializable (datetime t) = false
  serializable (arr vs) = serializable_items vs
  serializable (obj fs) = serializable_fields fs
  serializable null = true
  serializable (bool b) = true
  serializable (num n) = true
  serializable (str s) = true

  pub serializable_items : Items → Bool
  serializable_items nil = true
  serializable_items (cons v vs) = serializable v && serializable_items vs

  pub serializable_fields : Fields → Bool
  serializable_fields end = true
  serializable_fields (field k v fs) = serializable v && serializable_fields fs

-- json.dumps(x): the text is modelled by the value that it denotes.
unfoldable pub dumps : Value → Result Value
dumps v = if serializable v then ok v else raise type_error

-- The value that a key stands for.
abbrev pub value_of : Key → Value
value_of none_key = null
value_of (int_key n) = num n
value_of (str_key s) = str s
value_of (datetime_key t) = datetime t

instance abbrev pub key_eq : Eq Key
key_eq = record { equal = key_beq; equal_iff = key_beq_iff }

-- The characters of a text, as one iterates over it.
characters : String → List Value
characters String.[] = []
characters (String.◌∷◌ c s) = str (String.◌∷◌ c String.[]) ∷ characters s

field_names : Fields → List Value
field_names end = []
field_names (field k v fs) = str k ∷ field_names fs

-- `for y in x`
unfoldable pub iterate : Value → Result (List Value)
unfolding characters field_names
iterate (arr vs) = ok (list_of vs)
iterate (obj fs) = ok (field_names fs)
iterate (str s) = ok (characters s)
iterate v = raise type_error

-- `x == y` for a number, a text or `None`: what hashes alike is equal.
abbrev size : Fields → ℕ
size end = 0
size (field k v fs) = suc (size fs)

same_scalar : Result Key → Result Key → Bool
same_scalar (ok a) (ok b) = a == b
same_scalar _ _ = false

unfoldable mutual
  unfolding key_of find field_names same_scalar

  -- x == y
  pub same : Value → Value → Bool
  same (arr vs) (arr ws) = same_items vs ws
  same (obj fs) (obj gs) = same_fields fs gs && nat_beq (size fs) (size gs)
  same v w = same_scalar (key_of v) (key_of w)

  same_items : Items → Items → Bool
  same_items nil nil = true
  same_items (cons v vs) (cons w ws) = same v w && same_items vs ws
  same_items _ _ = false

  -- Every field of the first has its equal in the second.
  same_fields : Fields → Fields → Bool
  same_fields end gs = true
  same_fields (field k v fs) gs =
      elim (find k gs) [ none ↦ false | some w ↦ same v w ] && same_fields fs gs

pub Result-cases {ℓ} :
    {A : Type ℓ} (r : Result A) → ((a : A) × (r ≡ ok a)) ⊎ ((e : Fault) × (r ≡ raise e))
Result-cases (ok a) = inl (a, refl)
Result-cases (raise e) = inr (e, refl)

-- Inversion of a chain that succeeds.
pub >>=-eq-ok {ℓ κ} :
    {A : Type ℓ} {B : Type κ} {out : B} (r : Result A) (next : A → Result B)
    → (r >>= next) ≡ ok out
    → (found : A) × (r ≡ ok found) × (next found ≡ ok out)
>>=-eq-ok (raise e) next same = cc
>>=-eq-ok (ok found) next same = (found, refl, same)

pub list_of-items_of : (vs : List Value) → list_of (items_of vs) ≡ vs
list_of-items_of [] = refl
list_of-items_of (v ∷ vs) = ap (λ ws. v ∷ ws) (list_of-items_of vs)

-- A number in a product, or in a call of `range`.
unfoldable pub as_number : Value → Result ℤ
as_number (num n) = ok n
as_number (bool true) = ok (pos 1)
as_number (bool false) = ok (pos 0)
as_number v = raise type_error
