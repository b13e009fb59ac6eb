-- ===== src/Serial/Adapters.antt =====
-- infracstructure/serial_manager.py, `find_arduino_port`: which port is taken.
use smart_locker_iot.Prelude.{
  ℕ, suc, String, Bool, true, false, Option, none, some, List, [], ◌∷◌, ◌≡◌, refl, subst, ◌⊎◌, inl,
  inr, Bool-cases,
}
use smart_locker_iot.Prelude.Lists.{All, take, get_elem?}
use smart_locker_iot.Serial.Port.{
  Device, is_adapter, is_usb, first_device, find_arduino_port, or_search,
}

-- The path is that of the first port which passes the test.
abbrev pub FirstAt : (Device → Bool) → List Device → String → Type 0
FirstAt test ports path =
    (i : ℕ) × (p : Device) × (get_elem? ports i ≡ some p)
    × (p.device ≡ path)
    × (test p ≡ true)
    × All (λ q. test q ≡ false) (take i ports)

abbrev pub NonePasses : (Device → Bool) → List Device → Type 0
NonePasses test ports = All (λ p. test p ≡ false) ports

first_device-cases :
    (test : Device → Bool) (ports : List Device)
    → ((first_device test ports ≡ none) × NonePasses test ports)
      ⊎ ((path : String) × (first_device test ports ≡ some path) × FirstAt test ports path)
unfolding first_device
first_device-cases test [] = inl (refl, tt)
first_device-cases test (p ∷ ps) = elim (Bool-cases (test p)) [
  | inl e ↦ rw e (inr (p.device, refl, (0, p, refl, refl, e, tt)))
  | inr e ↦ rw e (elim (first_device-cases test ps) [
    | inl (n, none_passes) ↦ inl (n, (refl, none_passes))
    | inr (path, f, (i, q, at, same, passes, before)) ↦
        inr (path, f, (suc i, q, at, same, passes, (e, before)))
  ])
]

-- What the search gives for a list of ports: none only of an empty list.
abbrev pub Found : List Device → Option String → Type 0
Found ports none = ports ≡ []
Found ports (some path) =
    FirstAt is_adapter ports path
    ⊎ (NonePasses is_adapter ports
        × (FirstAt is_usb ports path ⊎ (NonePasses is_usb ports × FirstAt (λ p. true) ports path)))

module _ (ports : List Device) where
  by_adapter :
      (path : String)
      → first_device is_adapter ports ≡ some path
      → some path ≡ find_arduino_port (some ports)
  unfolding find_arduino_port
  by_adapter path a = rw a refl

  by_name :
      (found : Option String)
      → first_device is_adapter ports ≡ none
      → first_device is_usb ports ≡ found
      → or_search found (first_device (λ p. true) ports) ≡ find_arduino_port (some ports)
  unfolding find_arduino_port
  by_name found a u = rw (a, u) refl

nothing_there : (ports : List Device) → NonePasses (λ p. true) ports → ports ≡ []
nothing_there [] empty = refl
nothing_there (p ∷ ps) (bad, empty) = absurd (let impossible : true ≡ false = bad in cc)

-- The search takes the first port with an adapter's keyword; if there is none, the first USB port;
-- if there is none either, the first port. It finds nothing only where there is no port.
pub find_arduino_port_lem : (ports : List Device) → Found ports (find_arduino_port (some ports))
find_arduino_port_lem ports = elim (first_device-cases is_adapter ports) [
  | inr (path, a, first) ↦ subst (Found ports) (by_adapter ports path a) (inl first)
  | inl (a, no_adapter) ↦ elim (first_device-cases is_usb ports) [
    | inr (path, u, first) ↦
        subst (Found ports) (by_name ports (some path) a u) (inr (no_adapter, inl first))
    | inl (u, no_usb) ↦
        subst (Found ports) (by_name ports none a u) (elim (first_device-cases (λ p. true) ports) [
          | inr (path, f, first) ↦ rw f (inr (no_adapter, inr (no_usb, first)))
          | inl (f, empty) ↦ rw f (nothing_there ports empty)
        ])
  ]
]
