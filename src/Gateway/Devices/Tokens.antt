-- ===== src/Gateway/Devices/Tokens.antt =====
-- Whose token is accepted: revoking a device ends its token and no other.
use aiman.Base.{
  ℕ, ◌-◌, ◌≡◌, ◌⊎◌, inl, inr, refl, Bool, true, false, ◌||◌, List, [], ◌∷◌, none, some, String,
  str_eq, str_eq_iff, str_eq_refl, leb, arith, Bool-cases, Option-cases,
}
use aiman.Gateway.Files.{File, absent, unreadable, stored, Io, ok, items}
use aiman.Gateway.Devices.{Device, last_with, seen, authenticate, remove_first, revoke}

abbrev pub holds_id : String → List Device → Bool
holds_id id [] = false
holds_id id (d ∷ devs) = str_eq d.id id || holds_id id devs

abbrev pub holds_hash : String → List Device → Bool
holds_hash h [] = false
holds_hash h (d ∷ devs) = str_eq d.token_hash h || holds_hash h devs

-- No id and no token hash stands twice.
abbrev pub IsDistinct : List Device → Type 0
IsDistinct [] = Unit
IsDistinct (d ∷ devs) =
    (holds_id d.id devs ≡ false) × (holds_hash d.token_hash devs ≡ false) × IsDistinct devs

pub last_with-none :
    (h : String) (devs : List Device) → holds_hash h devs ≡ false → last_with h devs ≡ none
unfolding last_with
last_with-none h [] e = refl
last_with-none h (d ∷ devs) e = ground (arith, last_with-none h devs)

last_with-some :
    (h : String) (devs : List Device) {dev : Device}
    → last_with h devs ≡ some dev
    → (str_eq dev.token_hash h ≡ true) × (holds_hash h devs ≡ true) × (holds_id dev.id devs ≡ true)
unfolding last_with
last_with-some h [] e = cc
last_with-some h (d ∷ devs) {dev} e = elim (Option-cases (last_with h devs)) [
  | inl f ↦ ground (arith, str_eq_refl d.id)
  | inr (x, f) ↦ let (a, b, c) = last_with-some h devs {dev = x} f in ground (arith, a, b, c)
]

last_with-eq-none :
    (h : String) (devs : List Device) → last_with h devs ≡ none → holds_hash h devs ≡ false
unfolding last_with
last_with-eq-none h [] e = refl
last_with-eq-none h (d ∷ devs) e = ground (arith, last_with-eq-none h devs)

ne_of_held :
    (test : String → Bool) (a b : String) → test a ≡ false → test b ≡ true → str_eq a b ≡ false
ne_of_held test a b f t = elim (Bool-cases (str_eq a b)) [
  | inl e ↦ ground (arith, str_eq_iff a b)
  | inr e ↦ e
]

ne_of_eq : (a b c : String) → str_eq b c ≡ false → str_eq a b ≡ true → str_eq a c ≡ false
ne_of_eq a b c ne e = ground (arith, str_eq_iff a b)

-- Of distinct devices, the one that is removed is the one whose token it was.
pub removed-last_with :
    (h : String) (devs : List Device) {dev : Device} {after : List Device}
    → IsDistinct devs
    → last_with h devs ≡ some dev
    → remove_first dev.id devs ≡ some after
    → holds_hash h after ≡ false
unfolding last_with remove_first
removed-last_with h [] u e r = cc
removed-last_with h (d ∷ devs) {dev} {after} (i, t, u) e r =
    elim (Option-cases (last_with h devs)) [
      | inl f ↦ ground (arith, last_with-eq-none h devs f, str_eq_refl d.id)
      | inr (x, f) ↦
          let (a, held, known) = last_with-some h devs {dev = x} f in
          let other_id = ne_of_held (λ k. holds_id k devs) d.id x.id i known in
          let other_hash = ne_of_held (λ k. holds_hash k devs) d.token_hash h t held in
          elim (Option-cases (remove_first x.id devs)) [
            | inl g ↦ ground arith
            | inr (rest, g) ↦
                ground (arith, removed-last_with h devs {dev = x} {after = rest} u f g)
          ]
    ]

removed-others :
    (h other : String) (devs : List Device) {dev : Device} {after : List Device}
    → IsDistinct devs
    → last_with h devs ≡ some dev
    → remove_first dev.id devs ≡ some after
    → str_eq h other ≡ false
    → last_with other after ≡ last_with other devs
unfolding last_with remove_first
removed-others h other [] u e r ne = cc
removed-others h other (d ∷ devs) {dev} {after} (i, t, u) e r ne =
    elim (Option-cases (last_with h devs)) [
      | inl f ↦
          let (same, _, _) = last_with-some h (d ∷ devs) {dev = dev} e in
          let apart = ne_of_eq d.token_hash h other ne in
          elim (Option-cases (last_with other devs)) [
            | inl g ↦ ground (arith, str_eq_refl d.id)
            | inr (y, g) ↦ ground (arith, str_eq_refl d.id)
          ]
      | inr (x, f) ↦
          let (_, _, known) = last_with-some h devs {dev = x} f in
          let other_id = ne_of_held (λ k. holds_id k devs) d.id x.id i known in
          elim (Option-cases (remove_first x.id devs)) [
            | inl g ↦ ground arith
            | inr (rest, g) ↦
                ground (arith, removed-others h other devs {dev = x} {after = rest} u f g ne)
          ]
    ]

pub revoke-items :
    (io : Io) (id : String) (file : File Device)
    → (revoke io id file).0 ≡ ok tt
    → (after : List Device) × (remove_first id (items file) ≡ some after)
      × (items (revoke io id file).1 ≡ after)
unfolding revoke remove_first
revoke-items io id absent e = ground arith
revoke-items io id unreadable e = ground arith
revoke-items io id (stored devs) e = elim (Option-cases (remove_first id devs)) [
  | inl f ↦ ground arith
  | inr (after, f) ↦ (after, f, ground arith)
]

pub authenticate-none :
    (io : Io) (now : ℕ) (h : String) (file : File Device)
    → last_with h (items file) ≡ none
    → authenticate io now h file ≡ (none, file)
unfolding authenticate
authenticate-none io now h file e = rw (e, authenticate) refl

-- The ids and the token hashes on file are distinct: once the device of a token is revoked, that
-- token authenticates nobody and the file stays as it is; every other token finds the device that it
-- found before.
pub revoke-authenticate :
    (io : Io) (h : String) (file : File Device) {dev : Device}
    → IsDistinct (items file)
    → last_with h (items file) ≡ some dev
    → (revoke io dev.id file).0 ≡ ok tt
    → ((io' : Io) (now : ℕ)
        → authenticate io' now h (revoke io dev.id file).1 ≡ (none, (revoke io dev.id file).1))
      × ((other : String)
          → str_eq h other ≡ false
          → last_with other (items (revoke io dev.id file).1) ≡ last_with other (items file))
revoke-authenticate io h file {dev} u e r =
    let (after, removed, kept) = revoke-items io dev.id file r in
    let gone = removed-last_with h (items file) {dev = dev} {after = after} u e removed in
    (
      λ io' now.
          authenticate-none io' now h (revoke io dev.id file).1
            (rw kept (last_with-none h after gone)),
      λ other ne.
          rw kept (removed-others h other (items file) {dev = dev} {after = after} u e removed ne),
    )

-- Of `authenticate`: the device is one on file whose hash is that of the token, seen now or before.
pub authenticate-some :
    (io : Io) (now : ℕ) (h : String) (file : File Device) {out : Device}
    → (authenticate io now h file).0 ≡ some out
    → (dev : Device) × (last_with h (items file) ≡ some dev)
      × (str_eq dev.token_hash h ≡ true)
      × ((out ≡ dev) ⊎ (out ≡ record dev { last_seen = now }))
unfolding authenticate seen
authenticate-some io now h file {out} e = elim (Option-cases (last_with h (items file))) [
  | inl f ↦ ground arith
  | inr (dev, f) ↦ (
    dev,
    f,
    (last_with-some h (items file) {dev = dev} f).0,
    elim (Bool-cases (leb 60 (now - dev.last_seen))) [
      | inl g ↦ inr (ground arith)
      | inr g ↦ inl (ground arith)
    ],
  )
]
