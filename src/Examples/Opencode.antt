-- ===== src/Examples/Opencode.antt =====
-- The turns of the opencode runtime on concrete updates.
use channel_plugin.Prelude.{
  ℕ, zero, suc, String, ◌≡◌, ◌≢◌, refl, true, false, Option, none, some, List, [], ◌∷◌, ◌++◌, arith,
}
use channel_plugin.Agent.Opencode.Defs.{
  OpencodeRuntime, opened, rpc_failed, PromptEvent, text_is, ContentItem, UpdateEnvelope,
  SessionUpdate, handle_session_update,
}
use channel_plugin.Agent.Opencode.Sender.{id_is, Turn}
use channel_plugin.Agent.Opencode.Loop.{
  TurnStep, updates, prompt_returns, session_returns, takes, turn_loop, turn_step, enter_prompt,
  give_text,
}
use channel_plugin.Agent.Opencode.Recovery.{prompt-Attempts, AnsweredIn}
use channel_plugin.Agent.Opencode.Attempts.{Attempts}
use channel_plugin.Agent.Opencode.Tools.{tool_told_once}
use channel_plugin.Agent.Opencode.Text.{prompt_says_all, end_kept, reading, take_all, text_of}

-- a runtime with a session that was adopted
abbrev adopted : OpencodeRuntime
adopted = record opened { session_id = "s"; session_adopted = true }

abbrev recovery : List TurnStep
recovery =
    prompt_returns (some (rpc_failed "gone")) false
    ∷ session_returns (id_is "n")
    ∷ prompt_returns none false
    ∷ []

prompt-Attempts_example :
    Attempts
      (AnsweredIn recovery)
      true
      "s"
      "/w"
      (turn_loop recovery (enter_prompt "/w" false adopted)).0.calls
prompt-Attempts_example = prompt-Attempts recovery "/w" false adopted

abbrev no_item : ContentItem
no_item = record { type = ""; text = ""; delta = ""; completed = false }

abbrev no_update : UpdateEnvelope
no_update = record {
  session_update = "";
  tool_call_id = "";
  status = "";
  title = "";
  kind = "";
  raw_input = [];
  content_text = "";
}

abbrev chunk : String → String → SessionUpdate
chunk session text = record {
  session_id = session;
  update = record no_update { session_update = "agent_message_chunk"; content_text = text };
  item = no_item;
  content_items = [];
}

abbrev running_tool : String → SessionUpdate
running_tool title = record {
  session_id = "s";
  update = record no_update {
    session_update = "tool_call_update";
    tool_call_id = "c1";
    status = "in_progress";
    title = title;
  };
  item = no_item;
  content_items = [];
}

abbrev in_turn : Turn
in_turn = enter_prompt "/w" true adopted

map_there : in_turn.runtime.seen_tool_calls ≢ none
unfolding enter_prompt
map_there e = cc (e)

still_runs :
    (turn_loop (updates (running_tool "Bash") ∷ updates (chunk "s" "x") ∷ []) in_turn).1 ≡ none
unfolding turn_loop turn_step
still_runs = refl

tool_told_once_example :
    (handle_session_update
      (running_tool "Edit")
      (turn_loop
        (updates (running_tool "Bash") ∷ updates (chunk "s" "x") ∷ [])
        in_turn).0.runtime).progress
    ≡ (turn_loop
        (updates (running_tool "Bash") ∷ updates (chunk "s" "x") ∷ [])
        in_turn).0.runtime.progress
tool_told_once_example =
    tool_told_once (running_tool "Bash") (running_tool "Edit") (updates (chunk "s" "x") ∷ [])
      in_turn map_there refl refl still_runs

abbrev chunks : List (Option SessionUpdate)
chunks = some (chunk "s" "fo") ∷ some (chunk "other" "x") ∷ none ∷ some (chunk "s" "ur") ∷ []

prompt_says_all_example :
    (turn_loop
      (reading chunks ++ prompt_returns none false ∷ (takes ∷ takes ∷ takes ∷ []))
      in_turn).1
    ≡ (give_text "four" in_turn.runtime).1
unfolding enter_prompt
prompt_says_all_example =
    prompt_says_all chunks [] "s" "s" false in_turn refl refl refl (omega arith)

abbrev many : ℕ → List PromptEvent
many zero = []
many (suc n) = text_is "x" ∷ many n

-- a turn whose buffer is full
abbrev flooded : Turn
flooded = record in_turn { runtime = record adopted { active = some ("s", many 256) } }

end_kept_example :
    (turn_loop (prompt_returns none false ∷ (take_all 257 ++ [])) flooded).1
    ≡ (give_text (text_of (many 256)) flooded.runtime).1
unfolding enter_prompt
end_kept_example = end_kept (many 256) [] "s" "s" false flooded refl refl refl
