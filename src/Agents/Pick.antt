-- ===== src/Agents/Pick.antt =====
-- internal/coordinator/pick.go: which agent a new session gets, with the tiers of
-- internal/infra/config/tiers.go. Texts are code points.
pub mod Preference
use aiman.Base.{
  ℕ, Bool, true, false, not, ◌&&◌, ◌||◌, List, [], ◌∷◌, ◌++◌, Option, none, some, if◌then◌else◌,
}
use aiman.Base.Text.{Bytes, codes, bytes_eq}
use aiman.Base.Fields.{trim}

pub record PreferredAgent : Type 0 where
  pub agent : Bytes
  pub model : Bytes
  pub effort : Bytes

pub record AgentsConfig : Type 0 where
  pub smart : List PreferredAgent
  pub preferred : List PreferredAgent

unfoldable pub command : PreferredAgent → Bytes
command p = trim p.agent

abbrev pub is_nil : Bytes → Bool
is_nil [] = true
is_nil (c ∷ cs) = false

-- `slices.Contains`
abbrev pub contains : List Bytes → Bytes → Bool
contains [] name = false
contains (x ∷ xs) name = bytes_eq x name || contains xs name

-- `pickFrom`: the entry, or the commands that were tried.
unfoldable pub pick_from :
    List PreferredAgent → List Bytes → List Bytes → Option PreferredAgent × List Bytes
pick_from [] installed tried = (none, tried)
pick_from (p ∷ list) installed tried =
    let name = command p in
    let again = is_nil name || contains tried name in
    let rest = pick_from list installed (if again then tried else tried ++ name ∷ []) in
    if not (is_nil name) && contains installed name
    then (some (record p { agent = name }), [])
    else rest

-- The names of the tiers; any other name is not valid.
pub data Tier : Type 0 where
  smart_tier worker_tier : Tier

abbrev pub parse_tier : Bytes → Option Tier
parse_tier name =
    if bytes_eq name (codes "smart")
    then some smart_tier
    else if bytes_eq name (codes "worker")
    then some worker_tier
    else none

unfoldable pub tier_entries : AgentsConfig → Tier → List PreferredAgent
tier_entries a smart_tier = a.smart
tier_entries a worker_tier = a.preferred

abbrev pub other_tier : Tier → Tier
other_tier smart_tier = worker_tier
other_tier worker_tier = smart_tier

pub record Pick : Type 0 where
  pub entry : PreferredAgent
  pub tier : Tier
  pub requested : Tier
  pub fell_back : Bool

-- The two errors; the commands that each tier tried.
pub data PickError : Type 0 where
  unknown_tier : Bytes → PickError
  no_preferred_agent : List Bytes → List Bytes → PickError

pub data PickResult : Type 0 where
  picked : Pick → PickResult
  failed : PickError → PickResult

unfoldable pub pick_tiers : AgentsConfig → Tier → List Bytes → PickResult
unfolding pick_from tier_entries
pick_tiers a want installed =
    let first = pick_from (tier_entries a want) installed [] in
    let second = pick_from (tier_entries a (other_tier want)) installed [] in
    elim first.0 [
      | some e ↦ picked (record { entry = e; tier = want; requested = want; fell_back = false })
      | none ↦ elim second.0 [
        | some e ↦
            picked
              (record { entry = e; tier = other_tier want; requested = want; fell_back = true })
        | none ↦ failed (no_preferred_agent first.1 second.1)
      ]
    ]

-- The empty name is the worker tier.
unfoldable pub pick_tier : AgentsConfig → Bytes → List Bytes → PickResult
unfolding pick_tiers
pick_tier a want installed = elim (parse_tier (if is_nil want then codes "worker" else want)) [
  | none ↦ failed (unknown_tier want)
  | some tier ↦ pick_tiers a tier installed
]

-- `PickAgent` picks from agents.preferred alone.
unfoldable pub pick_agent : List PreferredAgent → List Bytes → Option PreferredAgent × List Bytes
unfolding pick_from
pick_agent preferred installed = pick_from preferred installed []
