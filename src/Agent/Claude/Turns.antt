-- ===== src/Agent/Claude/Turns.antt =====
-- What `Run` answers, by the lines that the process writes after the prompt.
use channel_plugin.Prelude.{
  String, Bool, true, false, Option, none, some, List, [], ◌∷◌, ◌++◌, length, ltb, arith, ◌≡◌, ◌≢◌,
  refl, ◌==◌, if◌then◌else◌, ◌&&◌, inl, inr, Option-cases, Bool-cases,
}
use channel_plugin.Prelude.Text.{trim_space, is_blank}
use channel_plugin.Agent.Claude.Defs.{
  AcpRuntime, broken, StreamEvent, read_line, handle_line, handle_event, capture_session,
  report_tools, route_result, dispatch_turn_event, mark_broken, read_ends, TurnEvent, answered,
  failed, turn_cap, read_failed, turn_failed, turn_error,
}
use channel_plugin.Agent.Claude.Loop.{
  Happening, happen, begin_run, run, run_turn, failure, line, ends, closes, context_done, takes,
  close, take_event, on_turn_event, answer, fail_run, Outcome, send,
}
use channel_plugin.Agent.Claude.Breaking.{dispatch_blocks_keeps}

-- Is it the reader's or a close, rather than a case of the `select`?
abbrev pub outside : Happening → Bool
outside (line text) = true
outside (ends cause stderr) = true
outside closes = true
outside (context_done e) = false
outside takes = false

abbrev pub all_outside : List Happening → Bool
all_outside [] = true
all_outside (h ∷ hs) = outside h && all_outside hs

module _ (decode : String → Option StreamEvent) where
  -- the result line, if the line is one
  abbrev pub result_line : Option StreamEvent → Option TurnEvent
  result_line none = none
  result_line (some evt) =
      if evt.type == "result" then some (answered true evt.result evt.is_error) else none

  -- what ends the turn, if it does
  abbrev pub result_of : Happening → Option TurnEvent
  result_of (line text) =
      if trim_space text == "" then none else result_line (decode (trim_space text))
  result_of (ends cause stderr) = some (failed (read_failed cause (trim_space stderr)))
  result_of closes = none
  result_of (context_done e) = none
  result_of takes = none

  abbrev pub first_result : List Happening → Option TurnEvent
  first_result [] = none
  first_result (h ∷ hs) =
      let later = first_result hs in elim (result_of h) [ none ↦ later | some evt ↦ some evt ]

  -- the outcome that a result means, with the session id that is known by then
  abbrev pub outcome_of : TurnEvent → String → Outcome
  outcome_of (failed e) id = failure (turn_failed e)
  outcome_of (answered done text false) id = record {
    response = record {
      text = trim_space text;
      runtime_type = "claude";
      exit_code = 0;
      raw_output = trim_space text;
      session_id = id;
    };
    error = none;
  }
  outcome_of (answered done text true) id =
      let said =
        if trim_space text == "" then "claude acp returned an error" else trim_space text in
      record {
        response = record {
          text = said;
          runtime_type = "claude";
          exit_code = 1;
          raw_output = said;
          session_id = id;
        };
        error = some (turn_error said);
      }

  -- the runtime after the reader and other goroutines alone
  abbrev pub feed : List Happening → AcpRuntime → AcpRuntime
  feed [] r = r
  feed (h ∷ hs) r = feed hs (happen decode h r).0

  -- the buffer after an event is dispatched
  abbrev pub buffered : List TurnEvent → Option TurnEvent → List TurnEvent
  buffered queue none = queue
  buffered queue (some evt) = if ltb (length queue) turn_cap then queue ++ evt ∷ [] else queue

  capture_active : (evt : StreamEvent) (r : AcpRuntime) → (capture_session evt r).active ≡ r.active
  unfolding capture_session
  capture_active evt r = ground arith

  handle_event_active :
      (evt : StreamEvent) (r : AcpRuntime) (queue : List TurnEvent)
      → r.active ≡ some queue
      → (handle_event evt r).active ≡ some (buffered queue (result_line (some evt)))
  unfolding handle_event route_result report_tools dispatch_turn_event
  handle_event_active evt r queue a = elim (Option-cases evt.message) [
    | inl e ↦ ground (arith, e, capture_active evt r)
    | inr (bs, e) ↦
        ground (arith, e, capture_active evt r, dispatch_blocks_keeps bs (capture_session evt r))
  ]

  happen_active :
      (h : Happening) (r : AcpRuntime) (queue : List TurnEvent)
      → outside h ≡ true
      → r.active ≡ some queue
      → ((happen decode h r).1 ≡ none)
        × ((happen decode h r).0.active ≡ some (buffered queue (result_of h)))
  unfolding happen read_line handle_line read_ends close mark_broken dispatch_turn_event
  happen_active (line text) r queue o a = elim (Option-cases (decode (trim_space text))) [
    | inl e ↦ ground (arith, e)
    | inr (evt, e) ↦ ground (arith, e, handle_event_active evt r queue a)
  ]
  happen_active (ends cause stderr) r queue o a = ground arith
  happen_active closes r queue o a = ground arith
  happen_active (context_done e) r queue o a = cc
  happen_active takes r queue o a = cc

  buffered_first :
      (evt : TurnEvent) (queue : List TurnEvent) (next : Option TurnEvent)
      → (more : List TurnEvent) × (buffered (evt ∷ queue) next ≡ evt ∷ more)
  buffered_first evt queue none = (queue, refl)
  buffered_first evt queue (some e) = elim (Bool-cases (ltb (length (evt ∷ queue)) turn_cap)) [
    | inl t ↦ (queue ++ e ∷ [], ground (arith, t))
    | inr f ↦ (queue, ground (arith, f))
  ]

  -- Every event that reaches the buffer ends the turn.
  abbrev pub final : TurnEvent → Bool
  final (failed e) = true
  final (answered done text is_error) = done

  result_of-final : (h : Happening) {evt : TurnEvent} → result_of h ≡ some evt → final evt ≡ true
  result_of-final (line text) {evt} e = elim (Option-cases (decode (trim_space text))) [
    | inl d ↦ ground (arith, d)
    | inr (found, d) ↦ ground (arith, d)
  ]
  result_of-final (ends cause stderr) e = ground arith
  result_of-final closes e = cc
  result_of-final (context_done c) e = cc
  result_of-final takes e = cc

  final_answers :
      (evt : TurnEvent) (r : AcpRuntime)
      → final evt ≡ true
      → (on_turn_event evt r).1 ≡ some (outcome_of evt r.session_id)
  unfolding on_turn_event fail_run answer
  final_answers (failed e) r f = refl
  final_answers (answered true text false) r f = refl
  final_answers (answered true text true) r f = refl
  final_answers (answered false text is_error) r f = cc

  -- The event that is first in the buffer is the one that is taken.
  taken :
      (hs later : List Happening) (r : AcpRuntime) (evt : TurnEvent) (queue : List TurnEvent)
      → final evt ≡ true
      → all_outside hs ≡ true
      → r.active ≡ some (evt ∷ queue)
      → (run_turn decode (hs ++ takes ∷ later) r).1 ≡ some (outcome_of evt (feed hs r).session_id)
  unfolding run_turn happen take_event
  taken [] later r evt queue f o a =
      ground (arith, final_answers evt (record r { active = some queue }) f)
  taken (h ∷ hs) later r evt queue f o a =
      let (more, same) = buffered_first evt queue (result_of h) in
      let (goes_on, next) = happen_active h r (evt ∷ queue) (ground arith) a in
      ground (
        arith,
        goes_on,
        taken hs later (happen decode h r).0 evt more f (ground arith) (ground (arith, next, same)),
      )

  first_taken :
      (hs later : List Happening) (r : AcpRuntime) (evt : TurnEvent)
      → all_outside hs ≡ true
      → first_result hs ≡ some evt
      → r.active ≡ some []
      → (run_turn decode (hs ++ takes ∷ later) r).1 ≡ some (outcome_of evt (feed hs r).session_id)
  unfolding run_turn
  first_taken [] later r evt o e a = cc
  first_taken (h ∷ hs) later r evt o e a =
      let (goes_on, next) = happen_active h r [] (ground arith) a in
      elim (Option-cases (result_of h)) [
        | inl n ↦ ground (
          arith,
          goes_on,
          first_taken hs later (happen decode h r).0 evt (ground arith) (ground (arith, n))
              (ground (arith, next, n)),
        )
        | inr (evt', n) ↦ ground (
          arith,
          goes_on,
          n,
          taken hs later (happen decode h r).0 evt' [] (result_of-final h n) (ground arith)
              (ground (arith, next, n)),
        )
      ]

  -- A `Run` whose prompt is sent answers what the first result line that is read after it has begun
  -- says, whichever prompt that line is for, or the end of the output if that comes first, as soon
  -- as it takes an event, whatever the process writes besides and whatever happens later.
  pub run_answers_first :
      (prompt : String) (traces : Bool) (hs later : List Happening) (r : AcpRuntime)
      (evt : TurnEvent)
      → is_blank prompt ≡ false
      → r.state ≢ broken
      → r.stdin ≡ true
      → all_outside hs ≡ true
      → first_result hs ≡ some evt
      → (run decode prompt traces none (hs ++ takes ∷ later) r).1
        ≡ some (outcome_of evt (feed hs (begin_run prompt traces r).1).session_id)
  unfolding run begin_run send
  run_answers_first prompt traces hs later r evt filled alive open_in o e =
      ground (arith, first_taken hs later (begin_run prompt traces r).1 evt o e (ground arith))
