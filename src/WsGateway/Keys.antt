-- ===== src/WsGateway/Keys.antt =====
-- Which connections get the same session key.
use tiny_chat_microservices.Prelude.{
  ℕ, ◌<◌, ◌≡◌, sym, ◌∙◌, String, some, if◌then◌else◌, str_eq, eq_iff, arith, inl, inr, Bool-cases,
  ap, ◌==◌,
}
use tiny_chat_microservices.WsGateway.Manager.{session_key}
use tiny_chat_microservices.WsGateway.Session.{device_mapping}

-- The name and the number of a device.
data Device (x : String) (d : ℕ) : Type 0 where
  terminal : x ≡ "TERMINAL" → d ≡ 0 → Device x d
  pc : x ≡ "PC" → d ≡ 2 → Device x d
  web : x ≡ "WEB" → d ≡ 1 → Device x d
  android : x ≡ "ANDROID" → d ≡ 3 → Device x d
  ios : x ≡ "IOS" → d ≡ 4 → Device x d

device_mapping-Device : (x : String) (d : ℕ) → device_mapping x ≡ some d → Device x d
unfolding device_mapping
device_mapping-Device x d h = elim (Bool-cases (str_eq x "TERMINAL")) [
  | inl t ↦ terminal ((eq_iff x "TERMINAL").0 t) (ground (arith, h, t))
  | inr f ↦ elim (Bool-cases (str_eq x "WEB")) [
    | inl t ↦ web ((eq_iff x "WEB").0 t) (ground (arith, h, f, t))
    | inr g ↦ elim (Bool-cases (str_eq x "PC")) [
      | inl t ↦ pc ((eq_iff x "PC").0 t) (ground (arith, h, f, g, t))
      | inr p ↦ elim (Bool-cases (str_eq x "ANDROID")) [
        | inl t ↦ android ((eq_iff x "ANDROID").0 t) (ground (arith, h, f, g, p, t))
        | inr q ↦ elim (Bool-cases (str_eq x "IOS")) [
          | inl t ↦ ios ((eq_iff x "IOS").0 t) (ground (arith, h, f, g, p, q, t))
          | inr r ↦ absurd (ground (arith, h, f, g, p, q, r))
        ]
      ]
    ]
  ]
]

Device-bound : (x : String) (d : ℕ) → Device x d → d < 5
Device-bound x d (terminal a b) = omega arith
Device-bound x d (pc a b) = omega arith
Device-bound x d (web a b) = omega arith
Device-bound x d (android a b) = omega arith
Device-bound x d (ios a b) = omega arith

name : ℕ → String
name d =
    if d == 0
    then "TERMINAL"
    else if d == 1
    then "WEB"
    else if d == 2
    then "PC"
    else if d == 3
    then "ANDROID"
    else "IOS"

Device-name : (x : String) (d : ℕ) → Device x d → x ≡ name d
unfolding name
Device-name x d (terminal a b) = rw b a
Device-name x d (pc a b) = rw b a
Device-name x d (web a b) = rw b a
Device-name x d (android a b) = rw b a
Device-name x d (ios a b) = rw b a

-- Two connections with the names of kinds of devices have the same session key only if they are of the
-- same user and give the same name.
pub session_key-device_mapping :
    (u v : ℕ) (x y : String) (d e : ℕ)
    → device_mapping x ≡ some d
    → device_mapping y ≡ some e
    → session_key u d ≡ session_key v e
    → (u ≡ v) × (x ≡ y)
unfolding session_key
session_key-device_mapping u v x y d e hx hy same =
    let dx = device_mapping-Device x d hx in
    let dy = device_mapping-Device y e hy in
    let bd = Device-bound x d dx in
    let be = Device-bound y e dy in
    let de : d ≡ e = omega arith in
    (omega arith, Device-name x d dx ∙ ap name de ∙ sym (Device-name y e dy))
