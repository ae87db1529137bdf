-- ===== src/Todo/Ids.antt =====
-- Item ids within a list: which are there, and that none stands twice.
use aiman.Base.{◌≡◌, Bool, false, ◌||◌, List, [], ◌∷◌, String, str_eq}
use aiman.Todo.Types.{TodoItem}

abbrev pub ids : List TodoItem → List String
ids [] = []
ids (it ∷ items) = it.id ∷ ids items

-- Some id of the list is `id`.
abbrev pub holds : String → List String → Bool
holds id [] = false
holds id (x ∷ xs) = str_eq x id || holds id xs

-- No id stands twice.
abbrev pub Distinct : List String → Type 0
Distinct [] = Unit
Distinct (x ∷ xs) = (holds x xs ≡ false) × Distinct xs
