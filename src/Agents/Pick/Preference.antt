-- ===== src/Agents/Pick/Preference.antt =====
-- The first installed agent of the preferred list is picked, and the other tier only stands in.
use aiman.Base.{
  ◌≡◌, ◌⊎◌, inl, inr, refl, ap, Bool, true, false, not, ◌&&◌, ◌||◌, List, [], ◌∷◌, ◌++◌, Option,
  none, some, All, Bool-cases, if◌then◌else◌,
}
use aiman.Base.Text.{Bytes}
use aiman.Agents.Pick.{
  PreferredAgent, AgentsConfig, command, is_nil, contains, pick_from, Tier, tier_entries,
  other_tier, no_preferred_agent, PickResult, picked, failed, pick_tiers,
}

-- The entry names an agent, and one that is installed.
abbrev pub is_usable : List Bytes → PreferredAgent → Bool
is_usable installed p = not (is_nil (command p)) && contains installed (command p)

-- The list's first usable entry with its command trimmed, or none where it has no such entry.
abbrev pub IsFirst : List Bytes → List PreferredAgent → Option PreferredAgent → Type 0
IsFirst installed list none = All (λ q. is_usable installed q ≡ false) list
IsFirst installed list (some e) =
    (before : List PreferredAgent) × (p : PreferredAgent) × (after : List PreferredAgent) × (list
      ≡ before ++ p ∷ after)
    × All (λ q. is_usable installed q ≡ false) before
    × (is_usable installed p ≡ true)
    × (e ≡ record p { agent = command p })

IsFirst-cons :
    (installed : List Bytes) (p : PreferredAgent) (list : List PreferredAgent)
    (found : Option PreferredAgent)
    → is_usable installed p ≡ false
    → IsFirst installed list found
    → IsFirst installed (p ∷ list) found
IsFirst-cons installed p list none u h = (u, h)
IsFirst-cons installed p list (some e) u (before, q, after, eq, none_before, usable, same) =
    (p ∷ before, q, after, ap (λ l. p ∷ l) eq, (u, none_before), usable, same)

pick_from-IsFirst :
    (list : List PreferredAgent) (installed tried : List Bytes)
    → IsFirst installed list (pick_from list installed tried).0
unfolding pick_from
pick_from-IsFirst [] installed tried = tt
pick_from-IsFirst (p ∷ list) installed tried = elim (Bool-cases (is_usable installed p)) [
  | inl u ↦ rw (u, pick_from) ([], p, list, refl, tt, u, refl)
  | inr u ↦
      let more =
        if is_nil (command p) || contains tried (command p)
        then tried
        else tried ++ command p ∷ [] in
      rw (u, pick_from)
        (IsFirst-cons installed p list (pick_from list installed more).0 u
          (pick_from-IsFirst list installed more))
]

-- What a choice between the tiers means: the first usable entry of the wanted tier; where it has
-- none, the first of the other tier, marked as a fallback; and where neither has one, the error.
abbrev pub IsChoice : AgentsConfig → Tier → List Bytes → PickResult → Type 0
IsChoice a want installed (picked p) =
    (p.requested ≡ want)
    × (((p.tier ≡ want)
          × (p.fell_back ≡ false)
          × IsFirst installed (tier_entries a want) (some p.entry))
        ⊎ ((p.tier ≡ other_tier want)
            × (p.fell_back ≡ true)
            × IsFirst installed (tier_entries a want) none
            × IsFirst installed (tier_entries a (other_tier want)) (some p.entry)))
IsChoice a want installed (failed e) =
    IsFirst installed (tier_entries a want) none
    × IsFirst installed (tier_entries a (other_tier want)) none

-- For each of the two tiers, whatever the lists and the host have: the first entry of the wanted
-- tier that names an installed agent is picked; only where that tier has none, the first of the
-- other, marked as a fallback; and the choice fails only where neither tier has one.
pub pick_tiers-IsChoice :
    (a : AgentsConfig) (want : Tier) (installed : List Bytes)
    → IsChoice a want installed (pick_tiers a want installed)
unfolding pick_tiers
pick_tiers-IsChoice a want installed =
    choose (pick_from (tier_entries a want) installed []).0
      (pick_from (tier_entries a (other_tier want)) installed []).0
      (pick_from-IsFirst (tier_entries a want) installed [])
      (pick_from-IsFirst (tier_entries a (other_tier want)) installed [])
      (pick_from (tier_entries a want) installed []).1
      (pick_from (tier_entries a (other_tier want)) installed []).1
  where
    choose :
        (first second : Option PreferredAgent)
        → IsFirst installed (tier_entries a want) first
        → IsFirst installed (tier_entries a (other_tier want)) second
        → (t t' : List Bytes)
        → IsChoice a want installed (elim first [
          | some e ↦ picked (record { entry = e; tier = want; requested = want; fell_back = false })
          | none ↦ elim second [
            | some e ↦
                picked
                  (record { entry = e; tier = other_tier want; requested = want; fell_back = true })
            | none ↦ failed (no_preferred_agent t t')
          ]
        ])
    choose (some x) second f s t t' = (refl, inl (refl, refl, f))
    choose none (some x) f s t t' = (refl, inr (refl, refl, f, s))
    choose none none f s t t' = (f, s)
