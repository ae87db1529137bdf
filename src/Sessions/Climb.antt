-- ===== src/Sessions/Climb.antt =====
-- The loop ends: each round adds the id of a session that has not been seen.
use aiman.Base.{
  ℕ, zero, suc, ◌≤◌, ◌<◌, ◌≡◌, ◌≢◌, refl, sym, ap, ◌∙◌, true, false, List, [], ◌∷◌, Option, none,
  some, String, str_eq, str_eq_iff, if◌then◌else◌, if-elim, length, arith, inl, inr, ◌⊎◌,
}
use aiman.Base.Space.{trim_space}
use aiman.Sessions.{SessionLink, ParentVerdict, legal, by_id, has_seen, climb}

-- How many of the sessions have not been seen.
unfoldable pub unseen : List String → List SessionLink → ℕ
unseen seen [] = 0
unseen seen (s ∷ sessions) =
    let rest = unseen seen sessions in if has_seen seen s.id then rest else suc rest

pub unseen-le :
    (seen : List String) (sessions : List SessionLink) → unseen seen sessions ≤ length sessions
unfolding unseen
unseen-le seen [] = omega arith
unseen-le seen (s ∷ sessions) = ground (arith, unseen-le seen sessions)

unseen-cons_le :
    (seen : List String) (cur : String) (sessions : List SessionLink)
    → unseen (cur ∷ seen) sessions ≤ unseen seen sessions
unfolding unseen has_seen
unseen-cons_le seen cur [] = omega arith
unseen-cons_le seen cur (s ∷ sessions) = ground (arith, unseen-cons_le seen cur sessions)

unseen-cons_lt :
    (seen : List String) (cur : String) (sessions : List SessionLink) (p : SessionLink)
    → has_seen seen cur ≡ false
    → by_id sessions cur ≡ some p
    → unseen (cur ∷ seen) sessions < unseen seen sessions
unfolding unseen has_seen by_id
unseen-cons_lt seen cur [] p new e = cc
unseen-cons_lt seen cur (s ∷ sessions) p new e = ground (
  arith,
  unseen-cons_lt seen cur sessions p new,
  unseen-cons_le seen cur sessions,
  str_eq_iff s.id cur,
  str_eq_iff cur s.id,
)

pub climb-ends :
    (sessions : List SessionLink) (fuel : ℕ) (seen : List String) (cur : String)
    → unseen seen sessions < fuel
    → climb sessions fuel seen cur ≢ none
unfolding climb
climb-ends sessions zero seen cur lt = λ _. omega (arith, lt)
climb-ends sessions (suc fuel) seen cur lt =
    let G = λ (v : Option ParentVerdict). v ≢ none in
    let next = λ (p : SessionLink). climb sessions fuel (cur ∷ seen) (trim_space p.parent_id) in
    if-elim G (str_eq cur "") (λ _. ground arith)
      (λ _.
        if-elim G (has_seen seen cur) (λ _. ground arith)
          (λ new.
            elim (by_id sessions cur)
                as (λ o.
                  by_id sessions cur ≡ o → G (elim o [ none ↦ some legal | some p ↦ next p ])) [
                    | none ↦ λ _. ground arith
                    | some p ↦ λ e.
                        climb-ends sessions fuel (cur ∷ seen) (trim_space p.parent_id)
                          (omega (arith, lt, unseen-cons_lt seen cur sessions p new e))
                  ]
              refl))

absurd_blank : (cur : String) → cur ≡ "" → str_eq cur "" ≢ false
absurd_blank cur z e = ground (arith, str_eq_iff cur "", z)

-- From `cur` the parents lead to a root, or to a session that is not known, and `child` is not among them.
pub data Ends (sessions : List SessionLink) (child : String) : String → Type 0 where
  at_root : {cur : String} → cur ≡ "" → Ends sessions child cur
  at_unknown :
      {cur : String} → cur ≢ "" → cur ≢ child → by_id sessions cur ≡ none → Ends sessions child cur
  climbs :
      {cur : String} {p : SessionLink}
      → cur ≢ ""
      → cur ≢ child
      → by_id sessions cur ≡ some p
      → Ends sessions child (trim_space p.parent_id)
      → Ends sessions child cur

module _ (sessions : List SessionLink) (child : String) where
  abbrev pub height : {cur : String} → Ends sessions child cur → ℕ
  height (at_root e) = 0
  height (at_unknown r c e) = 0
  height (climbs r c e rest) = suc (height rest)

  height_unique :
      {c d : String}
      → c ≡ d
      → (a : Ends sessions child c) (b : Ends sessions child d) → height a ≡ height b
  height_unique q (at_root e) (at_root e2) = refl
  height_unique q (at_root e) (at_unknown r c e2) = refl
  height_unique q (at_root e) (climbs r c e2 rest) = ground (arith, r (sym q ∙ e))
  height_unique q (at_unknown r c e) (at_root e2) = refl
  height_unique q (at_unknown r c e) (at_unknown r2 c2 e2) = refl
  height_unique q (at_unknown r c e) (climbs r2 c2 e2 rest) = cc
  height_unique q (climbs r c e rest) (at_root e2) = ground (arith, r (q ∙ e2))
  height_unique q (climbs r c e rest) (at_unknown r2 c2 e2) = cc
  height_unique q (climbs {p = p} r c e rest) (climbs {p = p2} r2 c2 e2 rest2) =
      let same : p ≡ p2 = cc in
      ap suc (height_unique (ap (λ (s : SessionLink). trim_space s.parent_id) same) rest rest2)

  pub climb-Ends :
      (fuel : ℕ) (seen : List String) (cur : String)
      → (child ≢ "" → has_seen seen child ≡ true)
      → climb sessions fuel seen cur ≡ some legal
      → Ends sessions child cur
  unfolding climb has_seen
  climb-Ends zero seen cur h e = cc
  climb-Ends (suc fuel) seen cur h e =
      let next = λ (p : SessionLink). climb sessions fuel (cur ∷ seen) (trim_space p.parent_id) in
      let G = λ (v : Option ParentVerdict). v ≡ some legal → Ends sessions child cur in
      if-elim G (str_eq cur "") (λ r _. at_root (ground (arith, str_eq_iff cur "")))
        (λ r.
          if-elim G (has_seen seen cur) (λ _ bad. cc)
            (λ new.
              elim (by_id sessions cur)
                  as (λ o.
                    by_id sessions cur ≡ o → G (elim o [ none ↦ some legal | some p ↦ next p ])) [
                      | none ↦
                          λ k _. at_unknown (ground (arith, str_eq_iff cur "")) (other h r new) k
                      | some p ↦ λ k go.
                          climbs (ground (arith, str_eq_iff cur "")) (other h r new) k (
                            climb-Ends fuel (cur ∷ seen) (trim_space p.parent_id) (λ c. later (h c))
                              go)
                    ]
                refl))
        e
    where
      other :
          (child ≢ "" → has_seen seen child ≡ true)
          → str_eq cur "" ≡ false
          → has_seen seen cur ≡ false
          → cur ≢ child
      other h r new q =
          let blank : child ≢ "" = λ z. absurd_blank cur (q ∙ z) r in
          let seen_child : has_seen seen child ≡ true = h blank in cc (ap (has_seen seen) q)

      later : has_seen seen child ≡ true → has_seen (cur ∷ seen) child ≡ true
      later k = ground arith

  -- The sessions that were passed are above `cur`.
  abbrev pub Passed : {cur : String} → Ends sessions child cur → List String → Type 0
  Passed e [] = Unit
  Passed e (s ∷ seen) =
      ((s ≡ child) ⊎ ((f : Ends sessions child s) × (height e < height f))) × Passed e seen

  Passed-fresh :
      (cur : String) (e : Ends sessions child cur) (seen : List String)
      → cur ≢ child
      → Passed e seen
      → has_seen seen cur ≡ false
  unfolding has_seen
  Passed-fresh cur e [] c h = refl
  Passed-fresh cur e (s ∷ seen) c h =
      let other : s ≢ cur = λ q. elim h.0 [
        | inl k ↦ c (sym q ∙ k)
        | inr f ↦ omega (arith, f.1, height_unique q f.0 e)
      ] in
      ground (arith, str_eq_iff s cur, other, Passed-fresh cur e seen c h.1)

  Passed-up :
      {cur up : String} (e : Ends sessions child cur) (f : Ends sessions child up)
      (seen : List String)
      → height f < height e
      → Passed e seen
      → Passed f seen
  Passed-up e f [] lt h = tt
  Passed-up e f (s ∷ seen) lt h = (
    elim h.0 [ inl k ↦ inl k | inr g ↦ inr (g.0, omega (arith, lt, g.1)) ],
    Passed-up e f seen lt h.1,
  )

  pub climb-legal :
      (cur : String) (e : Ends sessions child cur) (fuel : ℕ) (seen : List String)
      → unseen seen sessions < fuel
      → Passed e seen
      → climb sessions fuel seen cur ≡ some legal
  unfolding climb
  climb-legal cur e zero seen lt h = ground (arith, lt)
  climb-legal cur (at_root z) (suc fuel) seen lt h = ground (arith, str_eq_iff cur "")
  climb-legal cur (at_unknown r c k) (suc fuel) seen lt h =
      ground (arith, str_eq_iff cur "", Passed-fresh cur (at_unknown r c k) seen c h)
  climb-legal cur (climbs {p = p} r c k rest) (suc fuel) seen lt h =
      let blank : str_eq cur "" ≡ false = ground (arith, str_eq_iff cur "") in
      let fresh : has_seen seen cur ≡ false = Passed-fresh cur (climbs r c k rest) seen c h in
      rw (blank, fresh, k)
        (climb-legal (trim_space p.parent_id) rest fuel (cur ∷ seen)
          (omega (arith, lt, unseen-cons_lt seen cur sessions p fresh k))
          (
            inr (climbs r c k rest, omega arith),
            Passed-up (climbs r c k rest) rest seen (omega arith) h,
          ))
