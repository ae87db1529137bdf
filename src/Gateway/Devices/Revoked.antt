-- ===== src/Gateway/Devices/Revoked.antt =====
-- A revoked token stays revoked, whatever is done with the device file afterwards.
use aiman.Base.{
  ℕ, ◌≡◌, inl, inr, refl, Bool, false, ◌||◌, List, [], ◌∷◌, ◌++◌, Option, none, some, String,
  str_eq, leb, ◌-◌, arith, Option-cases, if-elim,
}
use aiman.Base.Text.{Bytes}
use aiman.Gateway.Files.{
  File, absent, unreadable, stored, Io, Edit, Result, ok, keep, save, refuse, finish, edit, items,
}
use aiman.Gateway.Devices.{
  Device, create, last_with, touch, seen, authenticate, remove_first, saved, revoke, allow_first,
  set_allow_destructive,
}
use aiman.Gateway.Devices.Tokens.{
  IsDistinct, holds_hash, last_with-none, removed-last_with, revoke-items, authenticate-none,
}

-- What the edit would save.
abbrev Saves : {R : Type 0} → (List Device → Type 0) → Edit R Device → Type 0
Saves P (save r devs) = P devs
Saves P _ = Unit

module _ {R : Type 0} (P : List Device → Type 0) (io : Io) where
  finish-items :
      (file : File Device) (e : Edit R Device)
      → P (items file)
      → Saves P e
      → P (items (finish io file e).1)
  finish-items file (keep r) p s = p
  finish-items file (refuse e) p s = p
  finish-items file (save r devs) p s =
      if-elim (λ (x : Result R × File Device). P (items x.1)) io.save_ok (λ _. s) (λ _. p)

  edit-items :
      (file : File Device) (f : List Device → Edit R Device)
      → P (items file)
      → Saves P (f (items file))
      → P (items (edit io file f).1)
  edit-items absent f p s =
      if-elim (λ (x : Result R × File Device). P (items x.1)) io.lock_ok
        (λ _. finish-items absent (f []) p s) (λ _. p)
  edit-items unreadable f p s =
      if-elim (λ (x : Result R × File Device). P (items x.1)) io.lock_ok (λ _. p) (λ _. p)
  edit-items (stored devs) f p s =
      if-elim (λ (x : Result R × File Device). P (items x.1)) io.lock_ok
        (λ _. finish-items (stored devs) (f devs) p s) (λ _. p)

-- No device on file has the hash.
abbrev Lacks : String → List Device → Type 0
Lacks k devs = holds_hash k devs ≡ false

holds_hash-touch :
    (k id : String) (now : ℕ) (devs : List Device)
    → holds_hash k (touch id now devs) ≡ holds_hash k devs
unfolding touch
holds_hash-touch k id now [] = refl
holds_hash-touch k id now (d ∷ devs) = ground (arith, holds_hash-touch k id now devs)

holds_hash-append :
    (k : String) (devs : List Device) (d : Device)
    → holds_hash k (devs ++ d ∷ []) ≡ (holds_hash k devs || str_eq d.token_hash k)
holds_hash-append k [] d = ground arith
holds_hash-append k (x ∷ devs) d = ground (arith, holds_hash-append k devs d)

append-Lacks :
    (k : String) (devs : List Device) (d : Device)
    → str_eq d.token_hash k ≡ false
    → Lacks k devs
    → Lacks k (devs ++ d ∷ [])
append-Lacks k devs d ne u = ground (arith, holds_hash-append k devs d)

remove_first-Lacks :
    (k id : String) (devs after : List Device)
    → remove_first id devs ≡ some after
    → Lacks k devs
    → Lacks k after
unfolding remove_first
remove_first-Lacks k id [] after e = ground arith
remove_first-Lacks k id (d ∷ devs) after e = elim (Option-cases (remove_first id devs)) [
  | inl f ↦ ground arith
  | inr (rest, f) ↦ ground (arith, remove_first-Lacks k id devs rest f)
]

allow_first-Lacks :
    (k id : String) (on : Bool) (devs after : List Device)
    → allow_first id on devs ≡ some after
    → Lacks k devs
    → Lacks k after
unfolding allow_first
allow_first-Lacks k id on [] after e = ground arith
allow_first-Lacks k id on (d ∷ devs) after e = elim (Option-cases (allow_first id on devs)) [
  | inl f ↦ ground arith
  | inr (rest, f) ↦ ground (arith, allow_first-Lacks k id on devs rest f)
]

saved-Saves :
    (P : List Device → Type 0) (o : Option (List Device))
    → ((devs : List Device) → o ≡ some devs → P devs)
    → Saves P (saved o)
saved-Saves P none h = tt
saved-Saves P (some devs) h = h devs refl

-- What is done with the device file, one operation after the other, while no device is given the
-- token hash `k`. Each may fail at the lock, at the read or at the write.
pub data DeviceSteps (k : String) : File Device → File Device → Type 0 where
  done : (file : File Device) → DeviceSteps k file file
  creates :
      (file : File Device) {last : File Device} (io : Io) (now : ℕ) (id hash : String)
      (name login : Bytes)
      → str_eq hash k ≡ false
      → DeviceSteps k (create io now id hash name login file).1 last
      → DeviceSteps k file last
  authenticates :
      (file : File Device) {last : File Device} (io : Io) (now : ℕ) (hash : String)
      → DeviceSteps k (authenticate io now hash file).1 last
      → DeviceSteps k file last
  revokes :
      (file : File Device) {last : File Device} (io : Io) (id : String)
      → DeviceSteps k (revoke io id file).1 last
      → DeviceSteps k file last
  allows :
      (file : File Device) {last : File Device} (io : Io) (id : String) (on : Bool)
      → DeviceSteps k (set_allow_destructive io id on file).1 last
      → DeviceSteps k file last

authenticate-Lacks :
    (k : String) (file : File Device) (io : Io) (now : ℕ) (hash : String)
    → Lacks k (items file)
    → Lacks k (items (authenticate io now hash file).1)
unfolding authenticate seen
authenticate-Lacks k file io now hash u = elim (Option-cases (last_with hash (items file))) [
  | inl e ↦ rw (e, authenticate) u
  | inr (dev, e) ↦
      rw (e, authenticate)
        (if-elim (λ (x : Option Device × File Device). Lacks k (items x.1))
          (leb 60 (now - dev.last_seen))
          (λ _.
            edit-items (Lacks k) io file (λ devs. save tt (touch dev.id now devs)) u
              (ground (arith, holds_hash-touch k dev.id now (items file))))
          (λ _. u))
]

DeviceSteps-Lacks :
    (k : String) {before after : File Device}
    → DeviceSteps k before after
    → Lacks k (items before)
    → Lacks k (items after)
unfolding create revoke set_allow_destructive
DeviceSteps-Lacks k (done file) u = u
DeviceSteps-Lacks k (creates file io now id hash name login ne steps) u =
    DeviceSteps-Lacks k steps
      (edit-items (Lacks k) io file _ u (append-Lacks k (items file) _ ne u))
DeviceSteps-Lacks k (authenticates file io now hash steps) u =
    DeviceSteps-Lacks k steps (authenticate-Lacks k file io now hash u)
DeviceSteps-Lacks k (revokes file io id steps) u = DeviceSteps-Lacks k steps (
    edit-items (Lacks k) io file (λ devs. saved (remove_first id devs)) u
      (saved-Saves (Lacks k) (remove_first id (items file))
        λ devs e. remove_first-Lacks k id (items file) devs e u))
DeviceSteps-Lacks k (allows file io id on steps) u = DeviceSteps-Lacks k steps (
    edit-items (Lacks k) io file (λ devs. saved (allow_first id on devs)) u
      (saved-Saves (Lacks k) (allow_first id on (items file))
        λ devs e. allow_first-Lacks k id on (items file) devs e u))

-- The ids and the token hashes on file are distinct, and the device of a token is revoked. Whatever is
-- done with the file from then on, failing or not, the token authenticates nobody and changes nothing,
-- as long as no new device draws the hash of the same token.
pub revoke-DeviceSteps :
    (io : Io) (h : String) (file : File Device) {dev : Device} {later : File Device}
    → IsDistinct (items file)
    → last_with h (items file) ≡ some dev
    → (revoke io dev.id file).0 ≡ ok tt
    → DeviceSteps h (revoke io dev.id file).1 later
    → (io' : Io) (now : ℕ) → authenticate io' now h later ≡ (none, later)
revoke-DeviceSteps io h file {dev} {later} u e r steps io' now =
    let (after, removed, kept) = revoke-items io dev.id file r in
    let gone = removed-last_with h (items file) {dev = dev} {after = after} u e removed in
    authenticate-none io' now h later
      (last_with-none h (items later) (DeviceSteps-Lacks h steps (rw kept gone)))
