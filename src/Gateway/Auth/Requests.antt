-- ===== src/Gateway/Auth/Requests.antt =====
-- What a request that is let in has shown.
use aiman.Base.{
  ℕ, ◌≡◌, ◌≢◌, ◌⊎◌, inl, inr, refl, true, false, List, [], ◌∷◌, Option, none, some, arith,
  Bool-cases, Option-cases,
}
use aiman.Base.Text.{Bytes, bytes_eq_iff}
use aiman.Base.Fields.{trim}
use aiman.Gateway.Files.{File, Io, items}
use aiman.Gateway.Devices.{Device, last_with, authenticate}
use aiman.Gateway.Devices.Tokens.{authenticate-some}
use aiman.Gateway.Auth.{
  Auth, Principal, host, device, ok, allowed, login_ok, tailnet_login, match_token, authorize,
}

-- The token is the host's, or that of a device on file, as which the request is let in.
abbrev pub Proves : Auth → Bytes → Option (File Device) → Principal → Type 0
Proves a token devices host = token ≡ a.token
Proves a token devices (device out) =
    (file : File Device) × (dev : Device) × (devices ≡ some file)
    × (last_with (a.hash_hex token) (items file) ≡ some dev)
    × (out.id ≡ dev.id)
    × (out.allow_destructive ≡ dev.allow_destructive)

-- One of the logins that the settings allow, up to letter case.
abbrev pub IsAllowed : Auth → List Bytes → Bytes → Type 0
IsAllowed a [] login = ⊥
IsAllowed a (want ∷ wants) login = (a.equal_fold (trim want) login ≡ true) ⊎ IsAllowed a wants login

-- `WhoIs` answered, with a login that is not blank; and the settings name no login, or that one.
abbrev pub HasLogin : Auth → Type 0
HasLogin a =
    (login : Bytes) × (a.who_is ≡ some (some login))
    × (trim login ≢ [])
    × ((a.allow ≡ []) ⊎ IsAllowed a a.allow (trim login))

module _ (a : Auth) (io : Io) (now : ℕ) (token : Bytes) where
  allowed-IsAllowed :
      (wants : List Bytes) (login : Bytes)
      → allowed a io now wants login ≡ true
      → IsAllowed a wants login
  unfolding allowed
  allowed-IsAllowed [] login e = ground arith
  allowed-IsAllowed (want ∷ wants) login e = elim (Bool-cases (a.equal_fold (trim want) login)) [
    | inl f ↦ inl f
    | inr f ↦ inr (allowed-IsAllowed wants login (ground arith))
  ]

  login_ok-HasLogin :
      (login : Bytes)
      → a.who_is ≡ some (some login)
      → login_ok a io now (trim login) ≡ true
      → HasLogin a
  login_ok-HasLogin login w e = (
    login,
    w,
    ground arith,
    elim a.allow
          as (λ l.
            a.allow ≡ l
            → elim l [ [] ↦ true | w ∷ ws ↦ allowed a io now a.allow (trim login) ] ≡ true
            → (a.allow ≡ []) ⊎ IsAllowed a a.allow (trim login)) [
              | [] ↦ λ q _. inl q
              | w ∷ ws ↦ λ q f. inr (allowed-IsAllowed a.allow (trim login) f)
            ]
        refl (ground arith),
  )

  tailnet_login-HasLogin : tailnet_login a io now ≡ true → HasLogin a
  unfolding tailnet_login
  tailnet_login-HasLogin e =
      elim a.who_is
          as (λ o.
            a.who_is ≡ o
            → elim o [
              | none ↦ false
              | some none ↦ false
              | some (some login) ↦ login_ok a io now (trim login)
            ]
              ≡ true
            → HasLogin a) [
              | none ↦ λ _ f. absurd (ground arith)
              | some none ↦ λ _ f. absurd (ground arith)
              | some (some login) ↦ λ q f. login_ok-HasLogin login q f
            ]
        refl e

  match_token-Proves :
      (devices : Option (File Device)) {p : Principal}
      → (match_token a io now token devices).0 ≡ some p
      → (token ≢ []) × Proves a token devices p
  unfolding match_token
  match_token-Proves none {p = host} e = (ground arith, ground (arith, bytes_eq_iff token a.token))
  match_token-Proves none {p = device out} e = ground arith
  match_token-Proves (some file) {p = host} e =
      (ground arith, ground (arith, bytes_eq_iff token a.token))
  match_token-Proves (some file) {p = device out} e =
      elim (Option-cases (authenticate io now (a.hash_hex token) file).0) [
        | inl f ↦ ground arith
        | inr (found, f) ↦
            let (dev, known, _, same) =
              authenticate-some io now (a.hash_hex token) file {out = found} f in
            (ground arith, (file, dev, refl, known, ground arith, ground arith))
      ]

-- A request that is let in has a token that is not empty. The token is the host's, or its hash is
-- that of a device on file, as which the request is let in, with that device's permission. And it
-- came over the funnel, or `WhoIs` named its login: one that is not blank, and that the settings
-- list, up to letter case, if they list any.
pub authorize-Proves :
    (a : Auth) (io : Io) (now : ℕ) (token : Bytes) (devices : Option (File Device)) {p : Principal}
    → authorize a io now token devices ≡ ok p
    → (token ≢ []) × Proves a token devices p × ((a.funnel ≡ true) ⊎ HasLogin a)
unfolding authorize
authorize-Proves a io now token devices {p} e =
    elim (Option-cases (match_token a io now token devices).0) [
      | inl f ↦ ground arith
      | inr (q, f) ↦
          let (ne, proved) = match_token-Proves a io now token devices {p = p} (ground arith) in
          (
            ne,
            proved,
            elim (Bool-cases a.funnel) [
              | inl g ↦ inl g
              | inr g ↦ inr (tailnet_login-HasLogin a io now token (ground arith))
            ],
          )
    ]
