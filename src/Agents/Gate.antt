-- ===== src/Agents/Gate.antt =====
-- internal/agentupdate/gate.go: whether an agent may be updated while its sessions run, with
-- `SwapSafe` of internal/agentupdate/catalog.go.
use aiman.Base.{
  ℕ, ◌+◌, ◌≡◌, ◌↔◌, refl, Bool, true, false, not, ◌&&◌, ◌||◌, List, [], ◌∷◌, String, str_eq, ◌==◌,
  if◌then◌else◌, All, arith,
}

-- How an agent was installed; `other_method` is any other text.
pub data Method : Type 0 where
  native standalone managed curl npm yarn pnpm bun other_method : Method

abbrev pub swap_safe : Method → Bool
swap_safe native = true
swap_safe standalone = true
swap_safe managed = true
swap_safe curl = true
swap_safe _ = false

pub record LiveSession : Type 0 where
  pub agent : String
  pub hook_state : String

-- The reason's two parts: the number of sessions, and whether they are busy or merely running.
pub data Verdict : Type 0 where
  go_ahead : Verdict
  deferred : ℕ → Bool → Verdict

unfoldable pub count_blocking : String → Bool → List LiveSession → ℕ
count_blocking agent swap [] = 0
count_blocking agent swap (s ∷ sessions) =
    (if not (str_eq s.agent agent)
      then 0
      else if swap && not (str_eq s.hook_state "working")
      then 0
      else 1)
    + count_blocking agent swap sessions

unfoldable pub gate : String → Method → List LiveSession → Verdict
unfolding count_blocking
gate agent method sessions =
    let swap = swap_safe method in
    let n = count_blocking agent swap sessions in if n == 0 then go_ahead else deferred n swap

-- The session holds the update back: any session of the agent does where its files are rewritten in
-- place, and only a working one where the new version is put beside the old.
abbrev pub blocks : String → Method → LiveSession → Bool
blocks agent method s =
    str_eq s.agent agent && (not (swap_safe method) || str_eq s.hook_state "working")

count_blocking-blocks :
    (agent : String) (method : Method) (s : LiveSession) (sessions : List LiveSession)
    → count_blocking agent (swap_safe method) (s ∷ sessions)
      ≡ (if blocks agent method s then 1 else 0) + count_blocking agent (swap_safe method) sessions
unfolding count_blocking
count_blocking-blocks agent method s sessions = ground arith

module _ (agent : String) (method : Method) where
  none-blocks :
      (sessions : List LiveSession)
      → count_blocking agent (swap_safe method) sessions ≡ 0
      → All (λ s. blocks agent method s ≡ false) sessions
  none-blocks [] e = tt
  none-blocks (s ∷ sessions) e =
      let eq = count_blocking-blocks agent method s sessions in
      (ground arith, none-blocks sessions (ground arith))

  count_blocking_zero :
      (sessions : List LiveSession)
      → All (λ s. blocks agent method s ≡ false) sessions
      → count_blocking agent (swap_safe method) sessions ≡ 0
  count_blocking_zero [] h = unfold count_blocking in refl
  count_blocking_zero (s ∷ sessions) (h, hs) =
      let eq = count_blocking-blocks agent method s sessions in
      let rest = count_blocking_zero sessions hs in ground arith

  -- The update may go ahead exactly where no session blocks it: none of the agent at all where the
  -- installation is rewritten in place, and none that works where it is not.
  pub gate_iff :
      (sessions : List LiveSession)
      → (gate agent method sessions ≡ go_ahead) ↔ All (λ s. blocks agent method s ≡ false) sessions
  unfolding gate
  gate_iff sessions = (
    λ e. none-blocks sessions (ground arith),
    λ h. (let zero_count = count_blocking_zero sessions h in ground arith),
  )
