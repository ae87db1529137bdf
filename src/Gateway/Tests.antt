-- ===== src/Gateway/Tests.antt =====
-- Two paired phones, and a pairing code.
use aiman.Base.{
  ℕ, ◌≡◌, ◌≢◌, ◌⊎◌, refl, Bool, true, false, [], ◌∷◌, Option, none, some, String, str_eq, ◌==◌,
}
use aiman.Base.Text.{Bytes, codes, bytes_eq}
use aiman.Base.Fields.{trim, trim_left, trim_right}
use aiman.Base.Space.{is_space}
use aiman.Gateway.Files.{File, stored, Io, ok, items}
use aiman.Gateway.Allowlist.{device_may_call, contains}
use aiman.Gateway.Pairing.{PairCode, Library, consume, utf8_len, normalize_pair_code}
use aiman.Gateway.Pairing.SingleUse.{Consumes, consume-Consumes}
use aiman.Gateway.Devices.{create, Device, last_with, authenticate, revoke, remove_first, seen}
use aiman.Gateway.Devices.{create}
use aiman.Gateway.Devices.Revoked.{DeviceSteps, done, creates, authenticates, revoke-DeviceSteps}
use aiman.Gateway.Devices.Tokens.{revoke-authenticate}
use aiman.Gateway.Auth.{ok as let_in, Auth, device, authorize, tailnet_login, match_token}
use aiman.Gateway.Auth.Requests.{Proves, authorize-Proves, HasLogin}

kill_needs_permission : device_may_call "pty.kill" false ≡ false
unfolding device_may_call contains
kill_needs_permission = refl

kill_permitted : device_may_call "pty.kill" true ≡ true
unfolding device_may_call contains
kill_permitted = refl

mirror_never : device_may_call "todo.mirror" true ≡ false
unfolding device_may_call contains
mirror_never = refl

abbrev works : Io
works = record { lock_ok = true; save_ok = true }

-- A hash that keeps the first letter.
abbrev first_letter : Bytes → String
first_letter [] = ""
first_letter (c ∷ cs) = if_b (c == b'B')
  where
    if_b : Bool → String
    if_b true = "hb"
    if_b false = "ha"

abbrev lib : Library
lib = record { to_upper = λ c. c; hash_hex = first_letter }

abbrev code_file : File PairCode
code_file = stored (record { hash = "ha"; name = codes "phone"; expires_at = 100 } ∷ [])

abbrev typed : Bytes
typed = codes "ABCDE-FGHIJ"

typed_len : utf8_len (normalize_pair_code lib typed) ≡ 10
unfolding utf8_len normalize_pair_code
typed_len = refl

consume-Consumes_example :
    (name : Option Bytes) × ((consume lib works 50 typed code_file).0 ≡ ok name)
    × Consumes
        (lib.hash_hex (normalize_pair_code lib typed))
        50
        (items code_file)
        name
        (items (consume lib works 50 typed code_file).1)
consume-Consumes_example =
    consume-Consumes lib works 50 typed code_file refl refl (λ e. cc) typed_len

abbrev phone : Device
phone = record {
  id = "d1";
  name = codes "phone";
  token_hash = "ha";
  created_at = 1;
  last_seen = 0;
  login = [];
  allow_destructive = false;
}

abbrev tablet : Device
tablet = record phone { id = "d2"; token_hash = "hb" }

abbrev device_file : File Device
device_file = stored (phone ∷ tablet ∷ [])

phone_found : last_with "ha" (items device_file) ≡ some phone
unfolding last_with
phone_found = refl

phone_revoked : (revoke works "d1" device_file).0 ≡ ok tt
unfolding revoke remove_first
phone_revoked = refl

revoke-authenticate_example :
    ((io' : Io) (now : ℕ)
      → authenticate io' now "ha" (revoke works "d1" device_file).1
        ≡ (none, (revoke works "d1" device_file).1))
    × ((other : String)
        → str_eq "ha" other ≡ false
        → last_with other (items (revoke works "d1" device_file).1)
          ≡ last_with other (items device_file))
revoke-authenticate_example =
    revoke-authenticate works "ha" device_file {dev = phone} (refl, refl, (refl, refl, tt))
      phone_found phone_revoked

abbrev auth : Auth
auth = record {
  token = codes "host";
  who_is = some (some (codes "me"));
  allow = [];
  funnel = false;
  equal_fold = bytes_eq;
  hash_hex = first_letter;
}

abbrev phone_seen : Device
phone_seen = record phone { last_seen = 200 }

phone_let_in : authorize auth works 200 (codes "A") (some device_file) ≡ let_in (device phone_seen)
unfolding authorize match_token tailnet_login authenticate last_with seen trim trim_left trim_right
    is_space
phone_let_in = refl

authorize-Proves_example :
    (codes "A" ≢ [])
    × Proves auth (codes "A") (some device_file) (device phone_seen)
    × ((auth.funnel ≡ true) ⊎ HasLogin auth)
authorize-Proves_example =
    authorize-Proves auth works 200 (codes "A") (some device_file) {p = device phone_seen}
      phone_let_in

-- A new device, and a request of the other one on file.
abbrev used_later : File Device
used_later =
    (authenticate works 300 "hb"
      (create works 250 "d3" "hc" (codes "watch") [] (revoke works "d1" device_file).1).1).1

used_later_steps : DeviceSteps "ha" (revoke works "d1" device_file).1 used_later
used_later_steps =
    creates _ works 250 "d3" "hc" (codes "watch") [] refl
      (authenticates _ works 300 "hb" (done used_later))

revoke-DeviceSteps_example : authenticate works 400 "ha" used_later ≡ (none, used_later)
revoke-DeviceSteps_example =
    revoke-DeviceSteps works "ha" device_file {dev = phone} {later = used_later}
      (refl, refl, (refl, refl, tt)) phone_found phone_revoked used_later_steps works 400
