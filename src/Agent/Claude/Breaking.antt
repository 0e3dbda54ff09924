-- ===== src/Agent/Claude/Breaking.antt =====
-- What a runtime keeps for good: that it is broken, its first error and its first session id.
use channel_plugin.Prelude.{
  String, Bool, true, false, Option, none, some, List, [], ◌∷◌, arith, ◌≡◌, ◌≢◌, ◌⊎◌, inl, inr,
  Option-cases, eq_iff,
}
use channel_plugin.Prelude.Text.{is_blank, trim_space}
use channel_plugin.Agent.Claude.Defs.{
  AcpRuntime, AcpError, broken, started, StreamEvent, Block, read_line, handle_line, handle_event,
  capture_session, report_tools, route_result, dispatch_blocks, dispatch_progress, tool_event,
  dispatch_turn_event, mark_broken, first_error, read_ends, TurnEvent, answered, failed,
}
use channel_plugin.Agent.Claude.Loop.{
  Happening, happen, begin_run, run, failure, line, ends, closes, context_done, takes, close,
  take_event, on_turn_event, answer, settle, leave, fail_run,
}

-- All that changes a runtime: what happens while a turn runs and between turns, the beginning of
-- `Run`, and its end where the prompt cannot be sent.
pub data Steps (decode : String → Option StreamEvent) : AcpRuntime → AcpRuntime → Type 0 where
  rest : {r : AcpRuntime} → Steps decode r r
  happens :
      {r r' : AcpRuntime} (h : Happening)
      → Steps decode (happen decode h r).0 r'
      → Steps decode r r'
  begins :
      {r r' : AcpRuntime} (prompt : String) (traces : Bool)
      → Steps decode (begin_run prompt traces r).1 r'
      → Steps decode r r'
  not_sent :
      {r r' : AcpRuntime} (e : AcpError) → Steps decode (fail_run e e r).0 r' → Steps decode r r'

-- What a tool call may change: the log of the callback.
pub dispatch_blocks_keeps :
    (bs : List Block) (r : AcpRuntime)
    → let r' = dispatch_blocks bs r in
      (r'.state ≡ r.state)
      × (r'.read_err ≡ r.read_err)
      × (r'.session_id ≡ r.session_id)
      × (r'.active ≡ r.active)
      × (r'.stdin ≡ r.stdin)
unfolding dispatch_blocks dispatch_progress
dispatch_blocks_keeps [] r = ground arith
dispatch_blocks_keeps (b ∷ bs) r = ground (
  arith,
  dispatch_blocks_keeps bs r,
  dispatch_blocks_keeps bs (dispatch_progress (tool_event b) r),
)

-- What one change does not undo: a broken state, an error and a session id stay, and a broken runtime
-- has an error.
pub record Lasts (r r' : AcpRuntime) : Type 0 where
  pub stays_broken : r.state ≡ broken → r'.state ≡ broken
  pub error : (r.read_err ≡ none) ⊎ (r'.read_err ≡ r.read_err)
  pub session : (r.session_id ≡ "") ⊎ (r'.session_id ≡ r.session_id)
  pub explained :
      (r.state ≢ broken) ⊎ (r.read_err ≢ none) → (r'.state ≢ broken) ⊎ (r'.read_err ≢ none)

handle_event-Lasts : (evt : StreamEvent) (r : AcpRuntime) → Lasts r (handle_event evt r)
unfolding handle_event route_result report_tools capture_session dispatch_turn_event
handle_event-Lasts evt r = elim (Option-cases evt.message) [
  | inl e ↦ ground (arith, e, eq_iff r.session_id "")
  | inr (bs, e) ↦
      ground (arith, e, eq_iff r.session_id "", dispatch_blocks_keeps bs (capture_session evt r))
]

on_turn_event-Lasts : (evt : TurnEvent) (r : AcpRuntime) → Lasts r (on_turn_event evt r).0
unfolding on_turn_event fail_run answer settle leave mark_broken first_error
on_turn_event-Lasts (failed e) r = ground arith
on_turn_event-Lasts (answered false text is_error) r = ground arith
on_turn_event-Lasts (answered true text false) r = ground arith
on_turn_event-Lasts (answered true text true) r = ground arith

read_line-Lasts :
    (decode : String → Option StreamEvent) (text : String) (r : AcpRuntime)
    → Lasts r (read_line decode text r)
unfolding read_line handle_line
read_line-Lasts decode text r = elim (Option-cases (decode (trim_space text))) [
  | inl e ↦ ground (arith, e)
  | inr (evt, e) ↦ ground (arith, e, handle_event-Lasts evt r)
]

take_event-Lasts : (r : AcpRuntime) → Lasts r (take_event r).0
unfolding take_event
take_event-Lasts r = elim (Option-cases r.active) [
  | inl e ↦ ground (arith, e)
  | inr ([], e) ↦ ground (arith, e)
  | inr (evt ∷ queue, e) ↦
      ground (arith, e, on_turn_event-Lasts evt (record r { active = some queue }))
]

happen-Lasts :
    (decode : String → Option StreamEvent) (h : Happening) (r : AcpRuntime)
    → Lasts r (happen decode h r).0
unfolding happen read_ends close fail_run leave mark_broken first_error dispatch_turn_event
happen-Lasts decode (line text) r = read_line-Lasts decode text r
happen-Lasts decode (ends cause stderr) r = ground arith
happen-Lasts decode closes r = ground arith
happen-Lasts decode (context_done e) r = ground arith
happen-Lasts decode takes r = take_event-Lasts r

begin_run-Lasts :
    (prompt : String) (traces : Bool) (r : AcpRuntime) → Lasts r (begin_run prompt traces r).1
unfolding begin_run
begin_run-Lasts prompt traces r = ground arith

fail_run-Lasts : (e : AcpError) (r : AcpRuntime) → Lasts r (fail_run e e r).0
unfolding fail_run leave mark_broken first_error
fail_run-Lasts e r = ground arith

Lasts-trans : (r r' r'' : AcpRuntime) → Lasts r r' → Lasts r' r'' → Lasts r r''
Lasts-trans r r' r'' a b = ground arith

module _ (decode : String → Option StreamEvent) where
  Steps-Lasts : {r r' : AcpRuntime} → Steps decode r r' → Lasts r r'
  Steps-Lasts {r} {r'} rest = ground arith
  Steps-Lasts {r} {r'} (happens h s) = Lasts-trans r _ r' (happen-Lasts decode h r) (Steps-Lasts s)
  Steps-Lasts {r} {r'} (begins prompt traces s) =
      Lasts-trans r _ r' (begin_run-Lasts prompt traces r) (Steps-Lasts s)
  Steps-Lasts {r} {r'} (not_sent e s) = Lasts-trans r _ r' (fail_run-Lasts e r) (Steps-Lasts s)

  -- A runtime that is broken at some time refuses every later `Run` with the error that it broke with
  -- first, whatever happens in between; such a call changes nothing.
  pub broken_forever :
      {r r' : AcpRuntime} (prompt : String) (traces : Bool) (written : Option String)
      (hs : List Happening)
      → Steps decode started r
      → r.state ≡ broken
      → Steps decode r r'
      → is_blank prompt ≡ false
      → (e : AcpError) × (r.read_err ≡ some e)
        × (run decode prompt traces written hs r' ≡ (r', some (failure e)))
  unfolding run begin_run
  broken_forever {r} {r'} prompt traces written hs before b after filled =
      let l = Steps-Lasts before in
      let k = Steps-Lasts after in
      elim (Option-cases r.read_err) [
        | inl e ↦ ground arith
        | inr (err, e) ↦ (err, e, ground arith)
      ]

  -- The first session id that the process tells is that of the runtime for good.
  pub session_kept :
      {r r' : AcpRuntime} → Steps decode r r' → r.session_id ≢ "" → r'.session_id ≡ r.session_id
  session_kept {r} {r'} s h = let k = Steps-Lasts s in ground arith
