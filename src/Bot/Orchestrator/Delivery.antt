-- ===== src/Bot/Orchestrator/Delivery.antt =====
-- What the accept and deliver goroutines do with one message: `accept`, `executeAndDeliver` and the
-- ways out that `StopBot` opens. The resolver's and the executor's answers are arguments, and what
-- is sent to others comes out as a list of effects, in order.
use Prim.Native.String
use channel_plugin.Prelude.{
  ℕ, String, Bool, true, false, not, ◌&&◌, Option, none, some, List, [], ◌∷◌, ◌++◌, is_some, ◌==◌,
  if◌then◌else◌,
}
use channel_plugin.Prelude.Int.{ℤ, lt_ℤ, not_positive}
use channel_plugin.Prelude.Text.{trim_space, is_blank}
use channel_plugin.GoMap
use channel_plugin.Agent.Types.{
  Spec, Request, Response, PushResponse, RunError, deadline_exceeded, canceled, other,
}
use channel_plugin.Agent.Session.Defs.{RunResult}
use channel_plugin.Bot.Messages.{
  InboundMessage, ReplyTarget, target_of, RuntimeEvent, message_of, busy_reply, timeout_reply,
  failed_reply, ack_reply,
}
use channel_plugin.Bot.Orchestrator.Defs.{
  Orchestrator, Admission, Ensured, duplicate, rejected, admitted, admit_message, left_alone,
  started, ensure_worker, send_pending, remember_reply_target, resize_worker_queue,
  mark_message_started, finish_message,
}

pub data Effect : Type 0 where
  -- `replies.Reply`
  reply : ReplyTarget → Response → Effect
  -- `executor.SetPushSink` and the start of the two goroutines
  start_goroutines : String → Effect
  -- the calls of a `ProgressSession`
  session_ack session_done : Effect
  session_fail : String → Effect
  -- `executor.Send`
  send : String → Spec → Request → Effect
  -- `sessions.Upsert`: bot, CLI type, session id, working directory
  upsert_session : String → String → String → String → Effect

abbrev pub text_response : String → Response
text_response text = record {
  text = text;
  runtime_type = "";
  exit_code = 0;
  raw_output = "";
  session_id = "";
}

-- `reply`, with `replyWithTimeout` around it: what is sent; how long it may take is left out.
abbrev pub reply_to : InboundMessage → Response → Effect
reply_to msg resp = reply (target_of msg) resp

-- The end of `ensureWorker`: the goroutines, and the send of the pending message. `none` in place of
-- the state is a send that waits.
unfoldable pub after_ensured : String → Orchestrator → Ensured → Option Orchestrator × List Effect
after_ensured bot o left_alone = (some o, [])
after_ensured bot o (started pending) = (
  elim pending [ none ↦ some o | some first ↦ send_pending o bot first ],
  start_goroutines bot ∷ [],
)

-- `HandleMessage` behind `admitMessage`.
unfoldable pub after_admission :
    InboundMessage → Orchestrator → Admission → Option Orchestrator × List Effect
unfolding after_ensured
after_admission msg o duplicate = (some o, [])
after_admission msg o rejected = (some o, reply_to msg (text_response busy_reply) ∷ [])
after_admission msg o (admitted id) =
    let (o', ensured) = ensure_worker o msg.bot_id id in after_ensured msg.bot_id o' ensured

-- `HandleMessage` where no other goroutine comes between its sections.
unfoldable pub handle_message :
    Orchestrator → ℕ → InboundMessage → Option Orchestrator × List Effect
unfolding after_admission
handle_message o now msg =
    let (o', admission) = admit_message o now msg in
    if msg.text == "" then (some o, []) else after_admission msg o' admission

-- `HandleEvent`
unfoldable pub handle_event : Orchestrator → ℕ → RuntimeEvent → Option Orchestrator × List Effect
unfolding handle_message message_of
handle_event o now ev = handle_message o now (message_of ev)

-- `deliverPush`: a push for a bot without a target is dropped.
unfoldable pub deliver_push : Orchestrator → String → PushResponse → List Effect
deliver_push o bot pr = elim (GoMap.get o.bots bot) [
  | none ↦ []
  | some st ↦
      if st.last_reply_target.recipient_id == ""
      then []
      else reply st.last_reply_target pr.response ∷ []
]

-- `sess` tells whether the turn has a progress session.
pub record DeliveryItem : Type 0 where
  pub msg : InboundMessage
  pub spec : Spec
  pub sess : Bool

-- What `beginProgress` gives: no session, or one and whether its `Ack` succeeds.
pub data Progress : Type 0 where
  no_session : Progress
  session : Bool → Progress

-- The acknowledgement of `accept`: whether a session is left, and the effects.
unfoldable pub acknowledge : InboundMessage → Spec → Progress → Bool × List Effect
acknowledge msg spec no_session =
    (false, if spec.orchestrator then reply_to msg (text_response ack_reply) ∷ [] else [])
acknowledge msg spec (session acked) =
    if not spec.orchestrator
    then (true, [])
    else if acked
    then (true, session_ack ∷ [])
    else (false, session_ack ∷ reply_to msg (text_response ack_reply) ∷ [])

-- `accept`; `resolved` is the resolver's answer, `none` for its error.
unfoldable pub accept :
    Orchestrator
    → ℕ
    → InboundMessage
    → Option Spec
    → Progress
    → Orchestrator × Option DeliveryItem × List Effect
unfolding acknowledge
accept o now msg resolved progress =
    let o' = remember_reply_target (mark_message_started o msg) msg in
    elim resolved [
      | none ↦
          (finish_message o' now msg false, none, reply_to msg (text_response failed_reply) ∷ [])
      | some spec ↦
          let (sess, effects) = acknowledge msg spec progress in
          (
            resize_worker_queue o' msg.bot_id spec.queue_size,
            some (record { msg = msg; spec = spec; sess = sess }),
            effects,
          )
    ]

-- The end of an item that `StopBot` meets on its way: `finalizeSessionOnStop`, `finishMessage`.
unfoldable pub abandon : Orchestrator → ℕ → DeliveryItem → Orchestrator × List Effect
abandon o now item =
    (finish_message o now item.msg false, if item.sess then session_fail failed_reply ∷ [] else [])

-- What a failed turn answers.
unfoldable pub failure_text : RunResult → RunError → String
failure_text r deadline_exceeded = timeout_reply
failure_text r canceled = timeout_reply
failure_text r (other message) =
    if not (r.response.runtime_type == "") && not (is_blank r.response.text)
    then String.◌++◌ r.response.runtime_type (String.◌++◌ ": " (trim_space r.response.text))
    else failed_reply

abbrev pub turn_request : InboundMessage → Request
turn_request msg = record {
  bot_id = msg.bot_id;
  user_id = msg.from;
  message_id = msg.message_id;
  prompt = msg.text;
}

-- Is the CLI's session id kept for a later resume? `stores` tells whether there is a repository.
unfoldable pub keeps_session : Bool → Spec → Response → Bool
keeps_session stores spec resp =
    stores && not (is_blank resp.session_id) && not (resp.session_id == spec.resume_session_id)

-- The effects of `executeAndDeliver` behind `executor.Send`, where `stopping` is `isStopping` then.
unfoldable pub outcome : Bool → Bool → DeliveryItem → RunResult → List Effect
unfolding failure_text keeps_session
outcome stores stopping item r = elim r.error [
  | some e ↦
      if stopping
      then (if item.sess then session_fail failed_reply ∷ [] else [])
      else (if item.sess then session_fail (failure_text r e) ∷ [] else [])
        ++ reply_to item.msg (text_response (failure_text r e)) ∷ []
  | none ↦
      (if keeps_session stores item.spec r.response
        then upsert_session item.msg.bot_id r.response.runtime_type r.response.session_id
            item.spec.work_dir
          ∷ []
        else [])
      ++ ((if item.sess then session_done ∷ [] else []) ++ reply_to item.msg r.response ∷ [])
]

-- `executeAndDeliver`
unfoldable pub execute_and_deliver :
    Bool → Bool → Orchestrator → ℕ → DeliveryItem → RunResult → Orchestrator × List Effect
unfolding outcome
execute_and_deliver stores stopping o now item r = (
  finish_message o now item.msg (not (is_some r.error)),
  send item.msg.bot_id item.spec (turn_request item.msg) ∷ outcome stores stopping item r,
)

-- The deadline of a turn, `none` for no deadline: `deliverContext`, `processingContext` with the
-- bot's timeout for the minimum, and `replyContext` with 0.
unfoldable pub turn_timeout : ℤ → ℤ → Option ℤ
turn_timeout configured wanted =
    let timeout = if lt_ℤ configured wanted then wanted else configured in
    if not_positive timeout then none else some timeout
