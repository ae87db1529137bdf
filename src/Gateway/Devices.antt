-- ===== src/Gateway/Devices.antt =====
-- internal/gateway/devices.go: the paired devices, whose file is the state. A read after another
-- process wrote finds the new file, so the cache of `refreshLocked` is the file itself.
pub mod Tokens
pub mod Revoked
use aiman.Base.{
  ℕ, ◌-◌, Bool, true, false, List, [], ◌∷◌, ◌++◌, Option, none, some, String, str_eq, leb,
  if◌then◌else◌,
}
use aiman.Base.Text.{Bytes}
use aiman.Base.Fields.{trim}
use aiman.Gateway.Files.{
  File, absent, unreadable, stored, Io, Result, Edit, save, refuse, not_found, edit, items,
}

-- Seconds. `last_seen` is 0 before the first request.
abbrev pub last_seen_every : ℕ
last_seen_every = 60

pub record Device : Type 0 where
  pub id : String
  pub name : Bytes
  pub token_hash : String
  pub created_at : ℕ
  pub last_seen : ℕ
  pub login : Bytes
  pub allow_destructive : Bool

-- `Create`, once the id and the token are drawn.
unfoldable pub create :
    Io → ℕ → String → String → Bytes → Bytes → File Device → Result Device × File Device
create io now id token_hash name login file = edit io file λ devs.
    let dev : Device = record {
      id = id;
      name = trim name;
      token_hash = token_hash;
      created_at = now;
      last_seen = 0;
      login = trim login;
      allow_destructive = false;
    } in
    save dev (devs ++ dev ∷ [])

-- The loop of `Authenticate`: the last device with the hash.
unfoldable pub last_with : String → List Device → Option Device
last_with want [] = none
last_with want (d ∷ devs) = elim (last_with want devs) [
  | some e ↦ some e
  | none ↦ if str_eq d.token_hash want then some d else none
]

-- The devices with the id, seen at `now`.
unfoldable pub touch : String → ℕ → List Device → List Device
touch id now [] = []
touch id now (d ∷ devs) =
    (if str_eq d.id id then record d { last_seen = now } else d) ∷ touch id now devs

-- `Authenticate`, for a token that is not empty; the last-seen write may fail.
unfoldable pub seen : Io → ℕ → Device → File Device → Option Device × File Device
unfolding touch
seen io now dev file =
    if leb last_seen_every (now - dev.last_seen)
    then (
      some (record dev { last_seen = now }),
      (edit {R = Unit {0}} io file λ devs. save tt (touch dev.id now devs)).1,
    )
    else (some dev, file)

unfoldable pub authenticate : Io → ℕ → String → File Device → Option Device × File Device
unfolding last_with seen
authenticate io now want file = elim (last_with want (items file)) [
  | none ↦ (none, file)
  | some dev ↦ seen io now dev file
]

unfoldable pub remove_first : String → List Device → Option (List Device)
remove_first id [] = none
remove_first id (d ∷ devs) =
    let rest = remove_first id devs in
    if str_eq d.id id then some devs else elim rest [ none ↦ none | some ds ↦ some (d ∷ ds) ]

abbrev pub saved : Option (List Device) → Edit (Unit {0}) Device
saved none = refuse not_found
saved (some devs) = save tt devs

unfoldable pub revoke : Io → String → File Device → Result (Unit {0}) × File Device
unfolding remove_first
revoke io id file = edit io file λ devs. saved (remove_first id devs)

unfoldable pub allow_first : String → Bool → List Device → Option (List Device)
allow_first id on [] = none
allow_first id on (d ∷ devs) =
    let rest = allow_first id on devs in
    if str_eq d.id id
    then some (record d { allow_destructive = on } ∷ devs)
    else elim rest [ none ↦ none | some ds ↦ some (d ∷ ds) ]

unfoldable pub set_allow_destructive :
    Io → String → Bool → File Device → Result (Unit {0}) × File Device
unfolding allow_first
set_allow_destructive io id on file = edit io file λ devs. saved (allow_first id on devs)
