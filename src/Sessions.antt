-- ===== src/Sessions.antt =====
-- internal/domain/session_parent.go: the parent of a session. `id` and `parent_id` are the two fields of
-- `Session` that it reads.
mod Climb
pub mod Forest
mod Tests
use aiman.Base.{
  ℕ, zero, suc, Bool, true, false, not, ◌&&◌, ◌||◌, List, [], ◌∷◌, Option, none, some, String,
  str_eq, if◌then◌else◌, length,
}
use aiman.Base.Space.{trim_space}

pub record SessionLink : Type 0 where
  pub id : String
  pub parent_id : String

pub data ParentError : Type 0 where
  err_parent_self : ParentError
  err_parent_unknown : ParentError
  err_parent_cycle : ParentError

pub data ParentVerdict : Type 0 where
  legal : ParentVerdict
  refused : ParentError → ParentVerdict

-- `byID[id]`: the last session with the id; a session without an id is not in the map.
unfoldable pub by_id : List SessionLink → String → Option SessionLink
by_id [] id = none
by_id (s ∷ sessions) id = elim (by_id sessions id) [
  | some found ↦ some found
  | none ↦ if not (str_eq s.id "") && str_eq s.id id then some s else none
]

unfoldable pub has_seen : List String → String → Bool
has_seen [] id = false
has_seen (s ∷ seen) id = str_eq s id || has_seen seen id

-- The loop of `ValidateParent`, on fuel: `none` is a loop that has not come to an end.
unfoldable pub climb : List SessionLink → ℕ → List String → String → Option ParentVerdict
unfolding has_seen by_id
climb sessions zero seen cur = none
climb sessions (suc fuel) seen cur =
    let rest = λ (p : String). climb sessions fuel (cur ∷ seen) p in
    if str_eq cur ""
    then some legal
    else if has_seen seen cur
    then some (refused err_parent_cycle)
    else elim (by_id sessions cur) [ none ↦ some legal | some p ↦ rest (trim_space p.parent_id) ]

-- A session at most once, and the round that ends the loop.
abbrev pub rounds : List SessionLink → ℕ
rounds sessions = suc (length sessions)

unfoldable pub validate_known : List SessionLink → String → String → Option ParentVerdict
unfolding climb by_id
validate_known sessions id parent_id = elim (by_id sessions parent_id) [
  | none ↦ some (refused err_parent_unknown)
  | some p ↦ climb sessions (rounds sessions) (if str_eq id "" then [] else id ∷ []) parent_id
]

unfoldable pub validate_parent : String → String → List SessionLink → Option ParentVerdict
unfolding validate_known
validate_parent id parent_id sessions =
    let parent = trim_space parent_id in
    let child = trim_space id in
    if str_eq parent ""
    then some legal
    else if not (str_eq child "") && str_eq parent child
    then some (refused err_parent_self)
    else validate_known sessions child parent

-- What `ResolveCreateParent` gives: a parent, or an error.
pub data Resolved : Type 0 where
  with_parent : String → Resolved
  failed : ParentError → Resolved

abbrev pub resolve_explicit : String → ParentVerdict → Resolved
resolve_explicit explicit legal = with_parent explicit
resolve_explicit explicit (refused e) = failed e

abbrev pub resolve_caller : String → ParentVerdict → Resolved
resolve_caller caller legal = with_parent caller
resolve_caller caller (refused e) = with_parent ""

abbrev pub then_resolved : (ParentVerdict → Resolved) → Option ParentVerdict → Option Resolved
then_resolved f none = none
then_resolved f (some v) = some (f v)

unfoldable pub resolve_create_parent :
    Bool → String → String → String → List SessionLink → Option Resolved
unfolding validate_parent
resolve_create_parent orphan explicit caller new_id sessions =
    let wanted = trim_space explicit in
    let calling = trim_space caller in
    if orphan
    then some (with_parent "")
    else if not (str_eq wanted "")
    then then_resolved (resolve_explicit wanted) (validate_parent new_id wanted sessions)
    else if str_eq calling ""
    then some (with_parent "")
    else then_resolved (resolve_caller calling) (validate_parent new_id calling sessions)
