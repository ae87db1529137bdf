-- ===== src/Ci/Text/Cut.antt =====
-- Where the body of a comment is cut.
use aiman.Base.{
  ℕ, zero, suc, ◌≤◌, ◌<◌, ◌≡◌, refl, true, false, Bool-cases, inl, inr, if-elim, arith, ◌⊎◌, ◌==◌,
}
use aiman.Base.Text.{Bytes}
use aiman.Ci.Text.{starts_at, cut_back}

-- `k` is the last place up to `n` at which a rune starts, or 0 where there is none.
pub record IsCut (body : Bytes) (n k : ℕ) : Type 0 where
  pub within : k ≤ n
  pub boundary : (starts_at body k ≡ true) ⊎ (k ≡ 0)
  pub last : (j : ℕ) → k < j → j ≤ n → starts_at body j ≡ false

IsCut-step :
    (body : Bytes) (n k : ℕ)
    → starts_at body (suc n) ≡ false
    → IsCut body n k
    → IsCut body (suc n) k
IsCut-step body n k off cut = record {
  within = omega (arith, cut.within);
  boundary = cut.boundary;
  last = λ j l r. elim (Bool-cases (j == suc n)) [
    | inl e ↦ let same : j ≡ suc n = ground arith in rw same off
    | inr e ↦ cut.last j l (ground arith)
  ];
}

-- The cut of a long body falls between two runes, keeps as many bytes as it may, and no more.
pub cut_back-IsCut : (body : Bytes) (n : ℕ) → IsCut body n (cut_back body n)
unfolding cut_back
cut_back-IsCut body zero = record {
  within = omega arith;
  boundary = inr refl;
  last = λ j l r. absurd (omega arith);
}
cut_back-IsCut body (suc n) =
    if-elim (IsCut body (suc n)) (starts_at body (suc n))
      (λ e. record { within = omega arith; boundary = inl e; last = λ j l r. absurd (omega arith) })
      (λ e. IsCut-step body n (cut_back body n) e (cut_back-IsCut body n))
