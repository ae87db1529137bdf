-- ===== src/Agents/Budget.antt =====
-- internal/usage/budget.go. The quotient of two token counts is compared with 0.7 and with 1: for
-- counts below 2^50 the rounded quotient compares as the exact one does, which is used here. A budget
-- that is not positive is 0.
use aiman.Base.{
  ℕ, ◌*◌, ◌<◌, ◌≡◌, sym, ◌⊎◌, inl, inr, List, [], ◌∷◌, leb, ltb, ◌==◌, if◌then◌else◌, arith,
}

-- `""`, `"warn"` and `"over"`.
pub data BudgetState : Type 0 where
  fine warn over : BudgetState

-- The field `pct` is left out; the state is all that is read.
pub record Budget : Type 0 where
  pub tokens : ℕ
  pub used : ℕ
  pub state : BudgetState

unfoldable pub budget_state : ℕ → ℕ → BudgetState
budget_state budget used =
    if leb budget used then over else if leb (7 * budget) (10 * used) then warn else fine

unfoldable pub budget_for : ℕ → ℕ → Budget
unfolding budget_state
budget_for budget used =
    if budget == 0
    then record { tokens = 0; used = used; state = fine }
    else record { tokens = budget; used = used; state = budget_state budget used }

abbrev pub budget_rank : BudgetState → ℕ
budget_rank fine = 0
budget_rank warn = 1
budget_rank over = 2

-- What to announce, if anything, and what to store.
unfoldable pub next_budget_emit : BudgetState → ℕ → ℕ → BudgetState × BudgetState
unfolding budget_for
next_budget_emit last budget used =
    let current = (budget_for budget used).state in
    if ltb (budget_rank last) (budget_rank current)
    then (current, current)
    else if ltb (budget_rank current) (budget_rank last)
    then (fine, last)
    else (fine, current)

-- What is announced over a sequence of readings, each of a budget and of the tokens used.
abbrev pub announced : BudgetState → List (ℕ × ℕ) → List BudgetState
announced last [] = []
announced last ((budget, used) ∷ readings) =
    let (emit, next) = next_budget_emit last budget used in
    elim emit [ fine ↦ announced next readings | s ↦ s ∷ announced next readings ]

-- Each state is announced after those of a lower rank only, so none twice.
abbrev pub IsRising : ℕ → List BudgetState → Type 0
IsRising rank [] = Unit
IsRising rank (s ∷ states) = (rank < budget_rank s) × IsRising (budget_rank s) states

next_budget_emit-rank :
    (last : BudgetState) (budget used : ℕ)
    → (((next_budget_emit last budget used).0 ≡ fine)
        × ((next_budget_emit last budget used).1 ≡ last))
      ⊎ (((next_budget_emit last budget used).0 ≡ (next_budget_emit last budget used).1)
          × (budget_rank last < budget_rank (next_budget_emit last budget used).1))
unfolding next_budget_emit
next_budget_emit-rank last budget used = ground arith

IsRising-eq :
    (states : List BudgetState) {a b : BudgetState}
    → a ≡ b
    → IsRising (budget_rank b) states
    → IsRising (budget_rank a) states
IsRising-eq states e h = rw e h

IsRising-cons :
    (last emit next : BudgetState) (states : List BudgetState)
    → ((emit ≡ fine) × (next ≡ last)) ⊎ ((emit ≡ next) × (budget_rank last < budget_rank next))
    → IsRising (budget_rank next) states
    → IsRising (budget_rank last) (elim emit [ fine ↦ states | s ↦ s ∷ states ])
IsRising-cons last fine next states (inl (e, n)) h = IsRising-eq states (sym n) h
IsRising-cons last warn next states (inl (e, n)) h = ground arith
IsRising-cons last over next states (inl (e, n)) h = ground arith
IsRising-cons last fine next states (inr (e, l)) h = ground arith
IsRising-cons last warn next states (inr (e, l)) h = (ground arith, IsRising-eq states e h)
IsRising-cons last over next states (inr (e, l)) h = (ground arith, IsRising-eq states e h)

-- Over any sequence of readings, whatever the budgets and the counts do in between: every state
-- announced ranks above the one stored at the start and above all that were announced before it. So
-- each threshold is announced at most once, and the warning never after the end of the budget.
pub announced-IsRising :
    (last : BudgetState) (readings : List (ℕ × ℕ))
    → IsRising (budget_rank last) (announced last readings)
announced-IsRising last [] = tt
announced-IsRising last ((budget, used) ∷ readings) =
    let r = next_budget_emit last budget used in
    IsRising-cons last r.0 r.1 (announced r.1 readings) (next_budget_emit-rank last budget used)
      (announced-IsRising r.1 readings)
