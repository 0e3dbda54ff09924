-- ===== src/Examples/Codex.antt =====
-- The turns of the codex runtime on concrete notifications.
use channel_plugin.Prelude.{ℕ, zero, suc, ◌≡◌, refl, false, none, some, List, [], ◌∷◌, ◌++◌, arith}
use channel_plugin.Agent.Codex.Defs.{
  CodexRuntime, initialized, Message, delta, turn_completed, TurnPiece, says,
}
use channel_plugin.Agent.Codex.Loop.{enter_turn, notified, takes, conclude, run_turn}
use channel_plugin.Agent.Codex.Text.{run_says_all, notifications, fed}
use channel_plugin.Agent.Codex.Full.{full_loses_end}

abbrev in_turn : CodexRuntime
in_turn = enter_turn "t" false initialized

abbrev deltas : List Message
deltas = delta "t" "fo" ∷ delta "other" "x" ∷ delta "t" "ur" ∷ []

run_says_all_example :
    run_turn
      (notifications deltas ++ notified (turn_completed "t") ∷ (takes ∷ takes ∷ takes ∷ []))
      ""
      in_turn
    ≡ conclude "four" (record (fed deltas in_turn) { active = some ("t", []) })
unfolding enter_turn
run_says_all_example = run_says_all deltas [] "t" in_turn refl refl (omega arith)

abbrev many : ℕ → List TurnPiece
many zero = []
many (suc n) = says "x" ∷ many n

abbrev flooded : CodexRuntime
flooded = record in_turn { active = some ("t", many 256) }

full_loses_end_example : (run_turn (notified (turn_completed "t") ∷ takes ∷ []) "" flooded).1 ≡ none
unfolding enter_turn
full_loses_end_example = full_loses_end 1 (many 256) "t" "" flooded refl refl (omega arith)
