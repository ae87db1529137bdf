-- ===== src/Pane/Hash.antt =====
-- `ScreenHash` of internal/pane/delta.go: FNV-1a over 64 bits (hash/fnv), printed in hex.
use aiman.Base.{
  ℕ, zero, suc, ◌+◌, ◌*◌, ◌/◌, ◌%◌, ◌^◌, bit_xor, [], ◌∷◌, ◌++◌, ◌-◌, ◌≡◌, ◌≢◌, refl, ap, arith,
  ltb, if◌then◌else◌, length, length-append,
}
use aiman.Base.Text.{Bytes}

-- `hash.Hash64.Write` of the FNV-1a state.
unfoldable pub fnv_write : ℕ → Bytes → ℕ
fnv_write h [] = h
fnv_write h (c ∷ cs) = fnv_write (bit_xor h c * 1099511628211 % 2 ^ 64) cs

-- A lower-case hex digit.
abbrev hex_digit : ℕ → ℕ
hex_digit d = if ltb d 10 then d + b'0' else d - 10 + b'a'

-- The last `k` hex digits of `n`, the highest first.
unfoldable pub hex_digits : ℕ → ℕ → Bytes
hex_digits zero n = []
hex_digits (suc k) n = hex_digits k (n / 16) ++ hex_digit (n % 16) ∷ []

unfoldable pub screen_hash : Bytes → Bytes
unfolding fnv_write hex_digits
screen_hash text = hex_digits 16 (fnv_write 14695981039346656037 text)

length-hex_digits : (k n : ℕ) → length (hex_digits k n) ≡ k
unfolding hex_digits
length-hex_digits zero n = refl
length-hex_digits (suc k) n = omega (
  arith,
  length-append (hex_digits k (n / 16)) (hex_digit (n % 16) ∷ []),
  length-hex_digits k (n / 16),
)

pub screen_hash-ne-nil : (text : Bytes) → screen_hash text ≢ []
unfolding screen_hash
screen_hash-ne-nil text e =
    absurd (omega (arith, length-hex_digits 16 (fnv_write 14695981039346656037 text), ap length e))
