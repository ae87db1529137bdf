-- ===== src/Sessions/Tests.antt =====
-- Two sessions that are each other's parents, and a root with a child.
use aiman.Base.{◌≡◌, ◌≢◌, ◌↔◌, ◌⊎◌, refl, false, List, [], ◌∷◌, none, some}
use aiman.Base.Space.{trim_space, trim_left, trim_right, is_space, is_blank}
use aiman.Sessions.{
  SessionLink, legal, refused, err_parent_cycle, by_id, has_seen, climb, validate_known,
  validate_parent, resolve_create_parent,
}
use aiman.Sessions.Climb.{Ends}
use aiman.Sessions.Forest.{
  IsSound, validate_parent-ne_none, validate_parent-legal_iff, resolve_create_parent-IsSound,
}

abbrev ring : List SessionLink
ring = record { id = "a"; parent_id = "b" } ∷ record { id = "b"; parent_id = "a" } ∷ []

abbrev tree : List SessionLink
tree = record { id = "root"; parent_id = "" } ∷ record { id = "child"; parent_id = "root" } ∷ []

ring-refused : validate_parent "c" " a " ring ≡ some (refused err_parent_cycle)
unfolding validate_parent validate_known climb has_seen by_id trim_space trim_left trim_right
    is_space is_blank
ring-refused = refl

tree-legal : validate_parent "new" "child" tree ≡ some legal
unfolding validate_parent validate_known climb has_seen by_id trim_space trim_left trim_right
    is_space is_blank
tree-legal = refl

validate_parent-ne_none_example : validate_parent "c" " a " ring ≢ none
validate_parent-ne_none_example = validate_parent-ne_none "c" " a " ring

validate_parent-legal_iff_example : (validate_parent "root" "child" tree ≡ some legal) ↔ (
    (trim_space "child" ≡ "")
    ⊎ ((by_id tree (trim_space "child") ≢ none)
        × Ends tree (trim_space "root") (trim_space "child")))
validate_parent-legal_iff_example = validate_parent-legal_iff "root" "child" tree

resolve_create_parent-IsSound_example :
    IsSound "root" "child" tree (resolve_create_parent false "child" "a" "root" tree)
resolve_create_parent-IsSound_example = resolve_create_parent-IsSound "root" "child" tree false "a"
