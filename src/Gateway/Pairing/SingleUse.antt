-- ===== src/Gateway/Pairing/SingleUse.antt =====
-- Redeeming a pairing code takes out that one code.
use aiman.Base.{
  ℕ, ◌≡◌, inl, inr, refl, true, false, List, [], ◌∷◌, Option, none, some, String, str_eq,
  str_eq_iff, ltb, if◌then◌else◌, All, arith, Bool-cases, Option-cases, if-elim, ◌≢◌,
}
use aiman.Base.Text.{Bytes}
use aiman.Gateway.Files.{
  File, absent, unreadable, stored, Io, ok, Edit, keep, save, refuse, FileError, finish, edit,
  items,
}
use aiman.Gateway.Pairing.{
  PairCode, Library, utf8_len, normalize_pair_code, live, redeem, length_eq, consume_codes, consume,
}

-- The codes with a hash, in their order.
abbrev pub with_hash : String → List PairCode → List PairCode
with_hash h [] = []
with_hash h (c ∷ codes) = if str_eq c.hash h then c ∷ with_hash h codes else with_hash h codes

abbrev IsLive : ℕ → List PairCode → Type 0
IsLive now = All (λ c. ltb now c.expires_at ≡ true)

live-IsLive : (now : ℕ) (codes : List PairCode) → IsLive now (live now codes)
unfolding live
live-IsLive now [] = tt
live-IsLive now (c ∷ codes) = elim (Bool-cases (ltb now c.expires_at)) [
  | inl e ↦ rw (e, live) (e, live-IsLive now codes)
  | inr e ↦ rw (e, live) (live-IsLive now codes)
]

IsLive-eq : (now : ℕ) (codes : List PairCode) → IsLive now codes → live now codes ≡ codes
unfolding live
IsLive-eq now [] h = refl
IsLive-eq now (c ∷ codes) h = ground (arith, IsLive-eq now codes h.1)

IsLive-redeem :
    (now : ℕ) (want : String) (codes : List PairCode)
    → IsLive now codes
    → IsLive now (redeem want codes).1
unfolding redeem
IsLive-redeem now want [] h = tt
IsLive-redeem now want (c ∷ codes) h = elim (Bool-cases (str_eq c.hash want)) [
  | inl e ↦ rw (e, redeem) h.1
  | inr e ↦ rw (e, redeem) (h.0, IsLive-redeem now want codes h.1)
]

-- What the loop of `Consume` takes out.
abbrev pub Redeems : String → List PairCode → Option Bytes → List PairCode → Type 0
Redeems want before none after = (with_hash want before ≡ []) × (with_hash want after ≡ [])
Redeems want before (some name) after =
    (c : PairCode) × (name ≡ c.name) × (with_hash want before ≡ c ∷ with_hash want after)

redeem-Redeems :
    (want : String) (codes : List PairCode)
    → Redeems want codes (redeem want codes).0 (redeem want codes).1
unfolding redeem
redeem-Redeems want [] = (refl, refl)
redeem-Redeems want (c ∷ codes) = elim (Bool-cases (str_eq c.hash want)) [
  | inl e ↦ rw (e, redeem) (c, refl, rw e refl)
  | inr e ↦
      rw (e, redeem)
        (Redeems-cons (redeem want codes).1 (redeem want codes).0 (redeem-Redeems want codes) e)
]
  where
    Redeems-cons :
        (after : List PairCode) (name : Option Bytes)
        → Redeems want codes name after
        → str_eq c.hash want ≡ false
        → Redeems want (c ∷ codes) name (c ∷ after)
    Redeems-cons after none (a, b) e = (rw e a, rw e b)
    Redeems-cons after (some name) (d, eq, a) e = (d, eq, rw e a)

redeem-others :
    (want other : String) (codes : List PairCode)
    → str_eq want other ≡ false
    → with_hash other (redeem want codes).1 ≡ with_hash other codes
unfolding redeem
redeem-others want other [] ne = refl
redeem-others want other (c ∷ codes) ne =
    ground (arith, redeem-others want other codes ne, str_eq_iff c.hash want)

redeem-none :
    (want : String) (codes : List PairCode)
    → (redeem want codes).0 ≡ none
    → (redeem want codes).1 ≡ codes
unfolding redeem
redeem-none want [] e = refl
redeem-none want (c ∷ codes) e = ground (arith, redeem-none want codes)

-- What a redemption did to the codes that are live at `now`: it took out one code with the hash, and
-- answered with its name, or there was none and it answered so; no other hash is concerned.
abbrev pub Consumes : String → ℕ → List PairCode → Option Bytes → List PairCode → Type 0
Consumes want now before name after =
    Redeems want (live now before) name (live now after)
    × ((other : String)
        → str_eq want other ≡ false
        → with_hash other (live now after) ≡ with_hash other (live now before))

-- What the edit answers and leaves in a file that can be read.
abbrev edited : List PairCode → Edit (Option Bytes) PairCode → Option Bytes × List PairCode
edited codes (keep name) = (name, codes)
edited codes (save name kept) = (name, kept)
edited codes (refuse e) = (none, codes)

Redeems-eq :
    (want : String) (before after : List PairCode) {m n : Option Bytes}
    → m ≡ n
    → Redeems want before m after
    → Redeems want before n after
Redeems-eq want before after e r = rw⁻¹ e r

module _ (want : String) (now : ℕ) (codes : List PairCode) where
  abbrev l : List PairCode
  l = live now codes

  redeemed-Consumes :
      {name : Option Bytes}
      → (redeem want l).0 ≡ name
      → Consumes want now codes name (redeem want l).1
  redeemed-Consumes e =
      rw (IsLive-eq now (redeem want l).1 (IsLive-redeem now want l (live-IsLive now codes))) (
        Redeems-eq want l (redeem want l).1 e (redeem-Redeems want l),
        λ other ne. redeem-others want other l ne,
      )

  consume_codes-Consumes :
      Consumes want now codes
        (edited codes (consume_codes want now codes)).0
        (edited codes (consume_codes want now codes)).1
  unfolding consume_codes
  consume_codes-Consumes = elim (Option-cases (redeem want l).0) [
    | inr (name, e) ↦ rw (e, consume_codes) (redeemed-Consumes e)
    | inl e ↦
        let missing = (Redeems-eq want l (redeem want l).1 e (redeem-Redeems want l)).0 in
        rw (e, consume_codes)
          (if-elim (λ c. Consumes want now codes (edited codes c).0 (edited codes c).1)
            {x = keep none} {y = save none (redeem want l).1} (length_eq (redeem want l).1 codes)
            (λ _. ((missing, missing), λ other ne. refl)) (λ _. redeemed-Consumes e))
  ]

consume_codes-ne-refuse :
    (want : String) (now : ℕ) (codes : List PairCode) (e : FileError)
    → consume_codes want now codes ≢ refuse e
unfolding consume_codes
consume_codes-ne-refuse want now codes e = ground arith

module _ (io : Io) (f : List PairCode → Edit (Option Bytes) PairCode) where
  finish-edited :
      (file : File PairCode) (c : Edit (Option Bytes) PairCode)
      → io.save_ok ≡ true
      → ((e : FileError) → c ≢ refuse e)
      → ((finish io file c).0 ≡ ok (edited (items file) c).0)
        × (items (finish io file c).1 ≡ (edited (items file) c).1)
  finish-edited file (keep name) s ne = (refl, refl)
  finish-edited file (save name kept) s ne = rw s (refl, refl)
  finish-edited file (refuse e) s ne = absurd (ne e refl)

  edit-edited :
      (file : File PairCode)
      → io.lock_ok ≡ true
      → io.save_ok ≡ true
      → file ≢ unreadable
      → ((codes : List PairCode) (e : FileError) → f codes ≢ refuse e)
      → ((edit io file f).0 ≡ ok (edited (items file) (f (items file))).0)
        × (items (edit io file f).1 ≡ (edited (items file) (f (items file))).1)
  edit-edited absent l s r ne = rw l (finish-edited absent (f []) s (ne []))
  edit-edited unreadable l s r ne = absurd (r refl)
  edit-edited (stored codes) l s r ne = rw l (finish-edited (stored codes) (f codes) s (ne codes))

-- While the file can be read, locked and written, a code of the right length: the answer is the name
-- of a live code with its hash, and that one code is gone; or no live code has its hash, and the
-- answer is that there is none. The live codes with any other hash stay.
pub consume-Consumes :
    (lib : Library) (io : Io) (now : ℕ) (typed : Bytes) (file : File PairCode)
    → io.lock_ok ≡ true
    → io.save_ok ≡ true
    → file ≢ unreadable
    → utf8_len (normalize_pair_code lib typed) ≡ 10
    → (name : Option Bytes) × ((consume lib io now typed file).0 ≡ ok name)
      × Consumes
          (lib.hash_hex (normalize_pair_code lib typed))
          now
          (items file)
          name
          (items (consume lib io now typed file).1)
unfolding consume
consume-Consumes lib io now typed file lock writes readable len =
    let want = lib.hash_hex (normalize_pair_code lib typed) in
    let codes = items file in
    let (answer, kept) =
      edit-edited io (consume_codes want now) file lock writes readable
        (λ l e. consume_codes-ne-refuse want now l e) in
    rw (len, consume)
      (
        (edited codes (consume_codes want now codes)).0,
        answer,
        rw kept (consume_codes-Consumes want now codes),
      )
