-- ===== src/Gateway/Pairing.antt =====
-- internal/gateway/paircode.go: codes that pair a device, each good for one redemption.
pub mod SingleUse
use aiman.Base.{
  ℕ, ◌+◌, Bool, true, false, ◌||◌, List, [], ◌∷◌, ◌++◌, Option, none, some, String, str_eq, ltb,
  ◌==◌, if◌then◌else◌,
}
use aiman.Base.Text.{Bytes}
use aiman.Base.Fields.{trim}
use aiman.Gateway.Files.{File, Io, Result, ok, Edit, keep, save, edit}

-- Seconds; `PairCodeTTL` is five minutes.
abbrev pub pair_code_ttl : ℕ
pair_code_ttl = 300

abbrev pub pair_code_len : ℕ
pair_code_len = 10

pub record PairCode : Type 0 where
  pub hash : String
  pub name : Bytes
  pub expires_at : ℕ

-- `strings.ToUpper` on one code point, and the hex of SHA-256.
pub record Library : Type 0 where
  pub to_upper : ℕ → ℕ
  pub hash_hex : Bytes → String

-- The bytes of a code point in UTF-8, and of a text.
unfoldable pub utf8_len : Bytes → ℕ
utf8_len [] = 0
utf8_len (c ∷ cs) =
    (if ltb c 0x80 then 1 else if ltb c 0x800 then 2 else if ltb c 0x10000 then 3 else 4)
    + utf8_len cs

unfoldable pub live : ℕ → List PairCode → List PairCode
live now [] = []
live now (c ∷ codes) = let rest = live now codes in if ltb now c.expires_at then c ∷ rest else rest

-- The loop of `Consume`: the first code with the hash is taken out.
unfoldable pub redeem : String → List PairCode → Option Bytes × List PairCode
redeem want [] = (none, [])
redeem want (c ∷ codes) =
    let (name, kept) = redeem want codes in
    if str_eq c.hash want then (some c.name, codes) else (name, c ∷ kept)

unfoldable pub length_eq : List PairCode → List PairCode → Bool
length_eq [] [] = true
length_eq (x ∷ xs) (y ∷ ys) = length_eq xs ys
length_eq _ _ = false

-- The change that `Consume` makes: the file is left alone where nothing was found or dropped.
unfoldable pub consume_codes : String → ℕ → List PairCode → Edit (Option Bytes) PairCode
unfolding live redeem length_eq
consume_codes want now codes =
    let (name, kept) = redeem want (live now codes) in
    elim name [
      | some n ↦ save (some n) kept
      | none ↦ if length_eq kept codes then keep none else save none kept
    ]

module _ (lib : Library) where
  open lib use {to_upper, hash_hex}

  unfoldable pub normalize_pair_code : Bytes → Bytes
  normalize_pair_code [] = []
  normalize_pair_code (c ∷ cs) =
      let rest = normalize_pair_code cs in
      if to_upper c == b' ' || to_upper c == b'-' then rest else to_upper c ∷ rest

  -- `Mint`, once the code is drawn.
  unfoldable pub mint : Io → ℕ → Bytes → Bytes → File PairCode → Result ℕ × File PairCode
  unfolding live
  mint io now code name file = edit io file λ codes. save (now + pair_code_ttl) (
      live now codes
      ++ record { hash = hash_hex code; name = trim name; expires_at = now + pair_code_ttl } ∷ [])

  unfoldable pub consume : Io → ℕ → Bytes → File PairCode → Result (Option Bytes) × File PairCode
  unfolding normalize_pair_code utf8_len consume_codes
  consume io now typed file =
      let code = normalize_pair_code typed in
      if utf8_len code == pair_code_len
      then edit io file (consume_codes (hash_hex code) now)
      else (ok none, file)
