-- ===== src/Pane/Delta/Scroll.antt =====
-- `scrollPatch` and `ApplyScroll`: the patch, applied to the screen that it was made from.
use aiman.Base.{
  ℕ, zero, suc, ◌+◌, ◌<◌, ◌≡◌, ◌≢◌, ◌⊎◌, inl, inr, refl, sym, ap, ◌∙◌, true, false, not, List, [],
  ◌∷◌, ◌++◌, append-nil, some, arith, if◌then◌else◌, ◌==◌, ◌&&◌, Bool-cases, length, take, drop,
  take-append-drop, length-drop, All, All-drop,
}
use aiman.Base.Int.{pos}
use aiman.Base.Text.{
  Bytes, IsLine, lines_eq, lines_eq_iff, split, join, split-join, join-split, split-IsLine,
}
use aiman.Pane.Delta.{is_nil, is_blank_line, scroll_from, scroll_patch, apply_scroll}

-- What `ApplyScroll` puts behind the lines that it keeps.
abbrev tail_lines : Bytes → List Bytes
tail_lines append = if not (is_nil append) then split append else []

join-nil : (ls : List Bytes) → join ls ≡ [] → is_blank_line ls ≡ false → ls ≡ []
unfolding join
join-nil [] e b = refl
join-nil ([] ∷ []) e b = cc
join-nil ((c ∷ l) ∷ []) e b = cc
join-nil ([] ∷ m ∷ ls) e b = cc
join-nil ((c ∷ l) ∷ m ∷ ls) e b = cc

is_nil-join : (ls : List Bytes) → is_nil (join ls) ≡ false → ls ≢ []
unfolding join
is_nil-join [] e = cc
is_nil-join (l ∷ ls) e = ground arith

tail_lines-join :
    (ls : List Bytes) → All IsLine ls → is_blank_line ls ≡ false → tail_lines (join ls) ≡ ls
tail_lines-join ls h b = elim (Bool-cases (is_nil (join ls))) [
  | inl e ↦ rw (e, join-nil ls (ground arith) b)
  | inr e ↦ rw e (split-join ls (is_nil-join ls e) h)
]

drop-add_one :
    (k : ℕ) (l : Bytes) (suffix prev : List Bytes)
    → drop k prev ≡ l ∷ suffix
    → drop (k + 1) prev ≡ suffix
drop-add_one zero l suffix [] e = cc
drop-add_one zero l suffix (x ∷ prev) e = cc
drop-add_one (suc k) l suffix [] e = cc
drop-add_one (suc k) l suffix (x ∷ prev) e = ground (arith, drop-add_one k l suffix prev e)

join-ne-nil : (ls : List Bytes) → is_blank_line ls ≡ false → is_nil ls ≡ false → join ls ≢ []
join-ne-nil ls b c e = cc (ap is_nil (join-nil ls e b))

-- A patch names a line of the old screen, changes something, and gives the new screen.
pub record IsScroll (prev next : List Bytes) (n : ℕ) (append : Bytes) : Type 0 where
  pub within : n < length prev
  pub moves : (0 < n) ⊎ (append ≢ [])
  pub gives : drop n prev ++ tail_lines append ≡ next

module _ (k : ℕ) (l : Bytes) (suffix prev next : List Bytes) (d : drop k prev ≡ l ∷ suffix) where
  abbrev added : List Bytes
  added = drop (length (l ∷ suffix)) next

  IsScroll-found :
      All IsLine next
      → lines_eq (l ∷ suffix) (take (length (l ∷ suffix)) next) ≡ true
      → is_blank_line added ≡ false
      → (k == 0 && is_nil added) ≡ false
      → IsScroll prev next k (join added)
  IsScroll-found h e b c = record {
    within = omega (arith, length-drop k prev, ap length d);
    moves = ground (arith, join-ne-nil added b);
    gives =
        rw (d, tail_lines-join added (All-drop IsLine (length (l ∷ suffix)) next h) b)
          (ap (λ ls. ls ++ added)
              ((lines_eq_iff (l ∷ suffix) (take (length (l ∷ suffix)) next)).0 e)
            ∙ take-append-drop (length (l ∷ suffix)) next);
  }

scroll_from-IsScroll :
    (k : ℕ) (suffix prev next : List Bytes) {n : ℕ} {append : Bytes}
    → drop k prev ≡ suffix
    → All IsLine next
    → scroll_from k suffix next ≡ some (n, append)
    → IsScroll prev next n append
unfolding scroll_from
scroll_from-IsScroll k [] prev next d h e = cc
scroll_from-IsScroll k (l ∷ suffix) prev next {n} {append} d h e = ground (
  arith,
  IsScroll-found k l suffix prev next d h,
  scroll_from-IsScroll (k + 1) suffix prev next {n = n} {append = append}
      (drop-add_one k l suffix prev d) h,
)

if_tail_lines :
    (kept : List Bytes) (append : Bytes)
    → (if not (is_nil append) then kept ++ split append else kept) ≡ kept ++ tail_lines append
if_tail_lines kept [] = sym (append-nil kept)
if_tail_lines kept (c ∷ append) = refl

-- A scroll patch moves the window or adds a line, and applied to the screen it was made from it
-- gives the new screen.
pub scroll_patch-apply_scroll :
    (prev next : Bytes) {n : ℕ} {append : Bytes}
    → scroll_patch prev next ≡ some (n, append)
    → ((0 < n) ⊎ (append ≢ [])) × (apply_scroll prev (pos n) append ≡ some next)
unfolding scroll_patch apply_scroll
scroll_patch-apply_scroll prev next {n} {append} e =
    let s =
      scroll_from-IsScroll 0 (split prev) (split prev) (split next) {n = n} {append = append} refl
        (split-IsLine next) e in
    let joined = ap join (if_tail_lines (drop n (split prev)) append ∙ s.gives) ∙ join-split next in
    (s.moves, ground arith)
