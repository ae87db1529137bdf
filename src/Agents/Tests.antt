-- ===== src/Agents/Tests.antt =====
-- Windows, budgets, preferences and the gate at work.
use aiman.Base.{ℕ, some, ◌≡◌, ◌↔◌, refl, true, false, List, [], ◌∷◌, All, arith}
use aiman.Base.Text.{codes}
use aiman.Base.Fields.{trim, trim_left, trim_right}
use aiman.Base.Space.{is_space}
use aiman.Agents.Budget.{
  fine, warn, over, budget_rank, next_budget_emit, announced, IsRising, announced-IsRising,
}
use aiman.Agents.Pick.{AgentsConfig, worker_tier, pick_tiers}
use aiman.Agents.Pick.Preference.{IsChoice, pick_tiers-IsChoice}
use aiman.Agents.Policy.{
  Window, contains, parse_window, parse_trimmed, match_clock, clock, window_of, to_string, ok,
}
use aiman.Agents.Policy.Windows.{IsWindow, parse_window-to_string}
use aiman.Agents.Price.{Price, Row, find_key, longest, lookup}
use aiman.Agents.Gate.{LiveSession, native, gate, go_ahead, blocks, gate_iff}

abbrev night : Window
night = record { start = 1380; end = 120 }

night_text : parse_window (codes " 23:00-02:00") ≡ ok night
unfolding parse_window parse_trimmed match_clock clock window_of trim trim_left trim_right is_space
night_text = refl

midnight_inside : contains night 0 ≡ true
unfolding contains
midnight_inside = refl

night-IsWindow : IsWindow night
night-IsWindow = record { start_lt = omega arith; end_lt = omega arith; proper = λ e. ground arith }

parse_window-to_string_example : parse_window (to_string night) ≡ ok night
parse_window-to_string_example = parse_window-to_string night night-IsWindow

readings :
    announced fine ((100, 65) ∷ (100, 71) ∷ (100, 60) ∷ (100, 80) ∷ (100, 120) ∷ [])
    ≡ warn ∷ over ∷ []
unfolding next_budget_emit
readings = refl

announced-IsRising_example :
    IsRising (budget_rank fine) (announced fine ((100, 71) ∷ (100, 120) ∷ []))
announced-IsRising_example = announced-IsRising fine ((100, 71) ∷ (100, 120) ∷ [])

abbrev agents : AgentsConfig
agents = record {
  smart = record { agent = codes "claude"; model = []; effort = [] } ∷ [];
  preferred = record { agent = codes "codex"; model = []; effort = [] } ∷ [];
}

pick_tiers-IsChoice_example :
    IsChoice agents worker_tier
      (codes "claude" ∷ [])
      (pick_tiers agents worker_tier (codes "claude" ∷ []))
pick_tiers-IsChoice_example = pick_tiers-IsChoice agents worker_tier (codes "claude" ∷ [])

abbrev resting : List LiveSession
resting = record { agent = "claude"; hook_state = "idle" } ∷ []

gate_iff_example :
    (gate "claude" native resting ≡ go_ahead) ↔ All (λ s. blocks "claude" native s ≡ false) resting
gate_iff_example = gate_iff "claude" native resting

abbrev price : ℕ → Price ℕ
price n = record { rates = n; confirmed = true; estimated = false }

abbrev table : List (Row ℕ)
table =
    record { key = codes "gpt"; price = price 1 }
    ∷ record { key = codes "gpt-5"; price = price 2 }
    ∷ []

gpt_found : lookup table (codes "gpt-5-mini") ≡ some (price 2)
unfolding lookup find_key longest
gpt_found = refl
