-- ===== src/Examples/Runtimes.antt =====
-- The Claude runtime, the trace card, the HTTP channel and the resolver on concrete input.

use channel_plugin.Prelude.{
  suc, ◌+◌, ◌≤◌, String, ◌≡◌, refl, true, false, Option, none, some, List, [], ◌∷◌, ◌++◌, arith,
  if◌then◌else◌, ◌==◌, inr, length,
}
use channel_plugin.Prelude.Text.{is_blank, trim_space}
use channel_plugin.GoMap.{get, empty, get-put}
use channel_plugin.Bot.Messages.{RuntimeEvent}
use channel_plugin.Agent.Types.{Response}
use channel_plugin.Agent.Claude.Defs.{
  AcpRuntime, started, StreamEvent, is_closed, first_error, broken,
}
use channel_plugin.Agent.Claude.Loop.{
  Happening, line, ends, closes, takes, run, failure, begin_run, Outcome, happen, close,
}
use channel_plugin.Agent.Claude.Breaking.{rest, happens, broken_forever}
use channel_plugin.Agent.Claude.Turns.{run_answers_first}
use channel_plugin.Agent.Claude.Defs
use channel_plugin.Agent.Claude.Loop
use channel_plugin.Feishu.Card.{TraceStep, TraceState, card_lines, shown, card_bounded}
use channel_plugin.Feishu.Trace.{
  TraceSession, TraceTarget, ensure_loop, new_trace_session, step, finish, flush_loop, sees_closed,
  sees_wake, created_by_loop, exited, steps, call,
}
use channel_plugin.Feishu.Flushing.{begun, moved, calling, round, Reachable, Sound, Reachable-Sound}
use channel_plugin.Feishu.Finishing.{rounds, Shown, finish_shows}
use channel_plugin.HttpChannel.{
  new_receiver, IncomingMessage, register, chat_key, receive, register_chat, reply, delivered,
  active, reply_reaches_chat, metadata_of,
}

-- A decoder that knows one line, the result of a turn.
abbrev decode : String → Option StreamEvent
decode text =
    if text == "result"
    then some (record {
      type = "result";
      subtype = "";
      is_error = false;
      result = "four";
      session_id = "";
      message = none;
    })
    else none

broken_forever_example :
    (e : Defs.AcpError) × ((Loop.close started).read_err ≡ some e)
    × (run decode "2 + 2?" false none [] (Loop.close started)
        ≡ (Loop.close started, some (failure e)))
unfolding Loop.close Loop.happen is_blank trim_space
broken_forever_example =
    broken_forever decode {r = Loop.close started} {r' = Loop.close started} "2 + 2?" false none []
      (happens closes rest) refl rest refl

run_answers_first_example :
    (run decode "2 + 2?" false none (line "noise" ∷ line "result" ∷ takes ∷ []) started).1
    ≡ some (record {
      response = record {
        text = "four";
        runtime_type = "claude";
        exit_code = 0;
        raw_output = "four";
        session_id = "";
      };
      error = none;
    })
unfolding is_blank trim_space begin_run happen Defs.read_line Defs.handle_line Defs.handle_event
    Defs.route_result Defs.report_tools Defs.capture_session Defs.dispatch_turn_event
run_answers_first_example =
    run_answers_first decode "2 + 2?" false (line "noise" ∷ line "result" ∷ []) [] started
      (Defs.answered true "four" false) refl (λ e. cc (e)) refl refl refl

abbrev short : TraceState
short = record {
  steps = record { tool = "Bash"; target = "ls" } ∷ [];
  terminal = "done";
  reason = "";
  elapsed = 3;
}

card_bounded_example :
    (length (card_lines short) ≤ 27)
    × (length (shown short.steps) ≡ 1)
    × (length (card_lines short) ≡ suc (length (shown short.steps) + 0))
    × ((front : List TraceStep) × (short.steps ≡ front ++ shown short.steps))
card_bounded_example = card_bounded short

abbrev chat : TraceTarget
chat = record { chat_id = "chat"; reply_message_id = "" }

abbrev listing : TraceStep
listing = record { tool = "Bash"; target = "ls" }

abbrev plain : String → String
plain content = content

abbrev stepped : TraceSession
stepped = call (steps listing) (new_trace_session chat)

stepped_reached : Reachable plain 3 chat stepped
unfolding new_trace_session
stepped_reached = moved begun (calling (steps listing) (new_trace_session chat) refl refl)

-- a wake-up that is consumed by the flush that asks for the card
abbrev creating_card : TraceSession
creating_card = flush_loop plain 3 (sees_wake true) stepped

Reachable-Sound_example : Sound creating_card
Reachable-Sound_example =
    Reachable-Sound plain 3 {target = chat} (moved stepped_reached (round (sees_wake true) stepped))

finish_shows_example :
    let s' =
      rounds plain 3 (created_by_loop none ∷ sees_closed ∷ created_by_loop (some "card") ∷ []) (
        rounds plain 3
          (sees_wake true ∷ created_by_loop (some "card") ∷ [])
          (finish "done" "" stepped)) in
    (s'.loop ≡ exited) × (s'.terminal ≡ "done") × Shown plain 3 s'
unfolding call step ensure_loop new_trace_session
finish_shows_example =
    finish_shows plain 3 {target = chat} "done" "" stepped
      (sees_wake true ∷ created_by_loop (some "card") ∷ []) none (some "card") stepped_reached refl
      (λ e. cc (e)) refl (inr (omega arith))

abbrev incoming : IncomingMessage
incoming = record { user_id = "ann"; text = "hi"; message_id = "m"; callback_url = "" }

abbrev says : Response
says = record { text = "hello"; runtime_type = ""; exit_code = 0; raw_output = ""; session_id = "" }

abbrev event : RuntimeEvent
event = record {
  bot_id = "bot";
  channel_type = "http";
  message_id = "m";
  from = "ann";
  text = "hi";
  reply_target = record {
    channel_type = "http";
    recipient_id = "ann";
    metadata = metadata_of "bot" incoming;
  };
}

receives : receive (register "bot" new_receiver) "bot" incoming ≡ some event
unfolding receive register active
receives = ground (arith, get-put {V = Unit {0}} empty "bot" "bot" tt)

reply_reaches_chat_example :
    let (id, waiting) = register_chat "bot" "m" (register "bot" new_receiver) in
    let (answer, r') = reply event.reply_target says waiting in
    (answer ≡ delivered)
    × (get r'.waiters (chat_key "bot" "m") ≡ some (record { id = id; replies = says ∷ [] }))
unfolding is_blank trim_space
reply_reaches_chat_example =
    reply_reaches_chat "bot" incoming says (register "bot" new_receiver) {ev = event} receives
      (λ e. cc (e)) (λ e. cc (e)) refl
