-- ===== src/Todo/Gate/Add.antt =====
-- `AddGate` and `EnsureDoneItem` add their item once.
use aiman.Base.{
  ◌≡◌, ◌⊎◌, refl, true, false, ◌&&◌, ◌||◌, List, [], ◌∷◌, none, some, arith, String, ◌∙◌, str_eq,
  str_eq_refl, if◌then◌else◌, length, ◌+◌,
}
use aiman.Todo.Types.{TodoItem, new_item, pending}
use aiman.Todo.Done.{has_ref}
use aiman.Todo.Gate.{gate_text, is_gate, gate_is_open, gate_open, insert_before_done, add_gate}

module _ (gate : TodoItem) where
  has_ref-insert_before_done :
      (ref : String) (items : List TodoItem)
      → has_ref ref (insert_before_done gate items) ≡ (str_eq gate.ref ref || has_ref ref items)
  unfolding has_ref insert_before_done
  has_ref-insert_before_done ref [] = refl
  has_ref-insert_before_done ref (it ∷ items) = ground (arith, has_ref-insert_before_done ref items)

  gate_open-insert_before_done :
      (ref : String) (items : List TodoItem)
      → gate_open (insert_before_done gate items) ref
        ≡ (str_eq gate.ref ref && gate_is_open gate || gate_open items ref)
  unfolding gate_open insert_before_done
  gate_open-insert_before_done ref [] = refl
  gate_open-insert_before_done ref (it ∷ items) =
      ground (arith, gate_open-insert_before_done ref items)

  length-insert_before_done :
      (items : List TodoItem) → length (insert_before_done gate items) ≡ length items + 1
  unfolding insert_before_done
  length-insert_before_done [] = omega arith
  length-insert_before_done (it ∷ items) = ground (arith, length-insert_before_done items)

-- The new item is an open gate of its link.
new_gate-is_open :
    (ref text : String)
    → gate_text ref ≡ some text
    → gate_is_open (new_item text pending ref) ≡ true
unfolding gate_is_open is_gate
new_gate-is_open ref text t = rw t

add_gate_found :
    (items : List TodoItem) (ref : String) {text : String}
    → gate_text ref ≡ some text
    → add_gate items ref ≡ (
        if has_ref ref items
        then (items, false)
        else (insert_before_done (new_item text pending ref) items, true))
unfolding add_gate
add_gate_found items ref t = rw (t, add_gate)

-- A gate is added only under a known link that the list does not hold; it is then open, the list
-- is one item longer, and a second call adds nothing.
pub add_gate-gate_open :
    (items : List TodoItem) (ref : String) {text : String}
    → gate_text ref ≡ some text
    → has_ref ref items ≡ false
    → (out : List TodoItem) × (add_gate items ref ≡ (out, true))
      × (gate_open out ref ≡ true)
      × (length out ≡ length items + 1)
      × (add_gate out ref ≡ (out, false))
add_gate-gate_open items ref {text} t h =
    let gate = new_item text pending ref in
    let out = insert_before_done gate items in
    let opens = gate_open-insert_before_done gate ref items in
    let held = has_ref-insert_before_done gate ref items in
    (
      out,
      add_gate_found items ref t ∙ rw h,
      opens ∙ rw (str_eq_refl ref, new_gate-is_open ref text t),
      length-insert_before_done gate items,
      add_gate_found out ref t ∙ rw (held, str_eq_refl ref),
    )

-- Without a gate of that link, or with one that the list holds, nothing is added.
pub add_gate_unchanged :
    (items : List TodoItem) (ref : String)
    → (gate_text ref ≡ none) ⊎ (has_ref ref items ≡ true)
    → add_gate items ref ≡ (items, false)
unfolding add_gate
add_gate_unchanged items ref h = ground arith
