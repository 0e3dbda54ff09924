-- ===== src/Agent/Codex/Full.antt =====
-- A buffer that is full when a turn ends.

use channel_plugin.Prelude.{
  ℕ, zero, suc, ◌≤◌, String, true, none, some, List, [], ◌∷◌, length, arith, ◌≡◌, refl,
}
use channel_plugin.Agent.Codex.Defs.{
  CodexRuntime, TurnPiece, says, completed, breaks, piece_cap, dispatch_piece, turn_completed,
  read_message,
}
use channel_plugin.Agent.Codex.Loop.{notified, take_piece, happen_codex, run_turn}
use channel_plugin.Agent.Codex.Text.{all_text, taking, ◌^^◌}

texts_only :
    (n : ℕ) (queue : List TurnPiece) (thread said : String) (r : CodexRuntime)
    → all_text queue ≡ true
    → r.active ≡ some (thread, queue)
    → (run_turn (taking n) said r).1 ≡ none
unfolding run_turn happen_codex take_piece
texts_only zero queue thread said r t a = refl
texts_only (suc n) [] thread said r t a = ground (arith, texts_only n [] thread said r t a)
texts_only (suc n) (says text ∷ queue) thread said r t a =
    let r' = record r { active = some (thread, queue) } in
    ground (arith, texts_only n queue thread (said ^^ text) r' t refl)
texts_only (suc n) (completed ∷ queue) thread said r t a = cc
texts_only (suc n) (breaks e ∷ queue) thread said r t a = cc

-- Where 256 pieces of text wait, the end of the turn is lost: `Run` takes the pieces and goes on
-- waiting, however often it asks.
pub full_loses_end :
    (n : ℕ) (queue : List TurnPiece) (thread said : String) (r : CodexRuntime)
    → all_text queue ≡ true
    → r.active ≡ some (thread, queue)
    → piece_cap ≤ length queue
    → (run_turn (notified (turn_completed thread) ∷ taking n) said r).1 ≡ none
unfolding run_turn happen_codex read_message dispatch_piece
full_loses_end n queue thread said r t a full = ground (arith, texts_only n queue thread said r t a)
