-- ===== src/Gateway/Auth.antt =====
-- internal/gateway/auth.go: who a request authenticates as. The identity of a tailnet connection is
-- the answer of `WhoIs`, which may fail.
pub mod Requests
use aiman.Base.{
  ℕ, Bool, true, false, ◌&&◌, ◌||◌, List, [], ◌∷◌, Option, none, some, String, str_eq,
  if◌then◌else◌,
}
use aiman.Base.Text.{Bytes, codes, bytes_eq}
use aiman.Base.Fields.{trim}
use aiman.Gateway.Files.{File, Io}
use aiman.Gateway.Devices.{Device, authenticate}

pub data AuthError : Type 0 where
  unauthorized forbidden : AuthError

pub data Principal : Type 0 where
  host : Principal
  device : Device → Principal

pub data Answer : Type 0 where
  ok : Principal → Answer
  err : AuthError → Answer

-- `equal_fold` is `strings.EqualFold`, `hash_hex` the hex of SHA-256. Without a device store,
-- `devices` is `none`.
pub record Auth : Type 0 where
  pub token : Bytes
  pub who_is : Option (Option Bytes)
  pub allow : List Bytes
  pub funnel : Bool
  pub equal_fold : Bytes → Bytes → Bool
  pub hash_hex : Bytes → String

abbrev pub is_nil : Bytes → Bool
is_nil [] = true
is_nil (c ∷ cs) = false

module _ (a : Auth) (io : Io) (now : ℕ) where
  unfoldable pub allowed : List Bytes → Bytes → Bool
  allowed [] login = false
  allowed (want ∷ wants) login = a.equal_fold (trim want) login || allowed wants login

  abbrev pub login_ok : Bytes → Bool
  login_ok login =
      if is_nil login then false else elim a.allow [ [] ↦ true | w ∷ ws ↦ allowed a.allow login ]

  -- `tailnetLogin` without an error; a `WhoIs` that is nil or fails is forbidden.
  unfoldable pub tailnet_login : Bool
  unfolding allowed
  tailnet_login = elim a.who_is [
    | none ↦ false
    | some none ↦ false
    | some (some login) ↦ login_ok (trim login)
  ]

  -- `match`, with the device file that it leaves.
  unfoldable pub match_token :
      Bytes → Option (File Device) → Option Principal × Option (File Device)
  match_token token devices =
      if is_nil token
      then (none, devices)
      else if bytes_eq token a.token
      then (some host, devices)
      else elim devices [
        | none ↦ (none, none)
        | some file ↦
            (let (found, after) = authenticate io now (a.hash_hex token) file in
              (elim found [ none ↦ none | some dev ↦ some (device dev) ], some after))
      ]

  unfoldable pub authorize : Bytes → Option (File Device) → Answer
  unfolding match_token tailnet_login
  authorize token devices = elim (match_token token devices).0 [
    | none ↦ err unauthorized
    | some p ↦ if a.funnel || tailnet_login then ok p else err forbidden
  ]
