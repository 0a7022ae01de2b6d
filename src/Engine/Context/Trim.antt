-- ===== src/Engine/Context/Trim.antt =====
-- Trimming drops the oldest turns, as few as the budget asks for.
use py_tui_kairo.Common.{
  ℕ, zero, suc, ◌*◌, ◌/◌, ◌≤◌, ◌<◌, min, max, ◌≡◌, ◌⊎◌, inl, inr, refl, List, [], ◌∷◌, ◌++◌, String,
  arith, ltb, leb, length, drop, if_both,
}
use py_tui_kairo.Contracts.Content.{Message}
use py_tui_kairo.Contracts.Tools.{ToolDescriptor}
use py_tui_kairo.Engine.Context.{
  ContextPacker, split_turns, join, estimate_context_tokens, trim_loop, trim_to_target,
}

module _ (message_json : Message → String) (tool_json : ToolDescriptor → String)
    (tools : List ToolDescriptor) where
  abbrev tokens : List Message → ℕ
  tokens ms = estimate_context_tokens message_json tool_json ms tools

  -- The history without its first `n` turns fits or is at the minimum, and with fewer of them dropped it does not fit.
  abbrev pub Trimmed : ℕ → ℕ → List Message → List (List Message) → List Message → Type 0
  Trimmed budget minimum prefix turns ms =
      (n : ℕ) × (ms ≡ prefix ++ join (drop n turns))
      × (minimum ≤ length (drop n turns))
      × ((tokens ms ≤ budget) ⊎ (length (drop n turns) ≤ minimum))
      × ((k : ℕ) → k < n → budget < tokens (prefix ++ join (drop k turns)))

  one_more :
      (budget : ℕ) (prefix t : List Message) (turns : List (List Message)) (n : ℕ)
      → budget < tokens (prefix ++ join (t ∷ turns))
      → ((k : ℕ) → k < n → budget < tokens (prefix ++ join (drop k turns)))
      → (k : ℕ) → k < suc n
      → budget < tokens (prefix ++ join (drop k (t ∷ turns)))
  one_more budget prefix t turns n h d zero l = h
  one_more budget prefix t turns n h d (suc k) l = d k (omega arith)

  trim_loop-Trimmed :
      (budget minimum : ℕ) (prefix : List Message) (turns : List (List Message))
      → minimum ≤ length turns
      → Trimmed budget minimum prefix turns
          (trim_loop message_json tool_json tools budget minimum prefix turns)
  unfolding trim_loop join
  trim_loop-Trimmed budget minimum prefix [] h =
      (0, refl, h, inr (omega arith), λ k l. ground arith)
  trim_loop-Trimmed budget minimum prefix (t ∷ turns) h =
      let Goal = Trimmed budget minimum prefix (t ∷ turns) in
      if_both Goal (ltb minimum (suc (length turns)))
        (λ more.
          if_both Goal (leb (tokens (prefix ++ join (t ∷ turns))) budget)
            (λ fits. (0, refl, h, inl (ground arith), λ k l. ground arith))
            (λ large.
              let (n, e, m, c, d) = trim_loop-Trimmed budget minimum prefix turns (ground arith) in
              (suc n, e, m, c, one_more budget prefix t turns n (ground arith) d)))
        (λ few. (0, refl, h, inr (ground arith), λ k l. ground arith))

  -- A history is trimmed to its prefix and its last turns: one turn at least and as many as asked for, if it has them;
  -- it then fits the budget or has no turn more than that, and dropping fewer turns would not have fitted.
  pub trim_to_target-Trimmed :
      (p : ContextPacker) (ms : List Message) (context_window minimum_turns : ℕ)
      → Trimmed
          (max 1 context_window * p.target_percent / 100)
          (min (length (split_turns ms).turns) (max 1 minimum_turns))
          (split_turns ms).prefix
          (split_turns ms).turns
          (trim_to_target message_json tool_json p ms tools context_window minimum_turns)
  unfolding trim_to_target
  trim_to_target-Trimmed p ms context_window minimum_turns =
      trim_loop-Trimmed _ _ (split_turns ms).prefix (split_turns ms).turns (omega arith)
