-- ===== src/Wechat/Runtime.antt =====
-- The runtime of an account: what it tells the bot of its state and of messages. The polls of the
-- service are a sequence of their outcomes.

use channel_plugin.Prelude.{
  ℕ, zero, suc, String, Bool, true, false, ◌||◌, Option, none, some, List, [], ◌∷◌, ◌++◌, ◌==◌,
  if◌then◌else◌,
}
use channel_plugin.Prelude.Int.{ℤ, pos, negsuc}
use channel_plugin.GoMap
use channel_plugin.GoMap.{GoMap}
use channel_plugin.Bot.Messages.{ReplyTarget, RuntimeEvent}
use channel_plugin.Channel.{StartRuntimeRequest}
use channel_plugin.Mcps.Lines.{contains}
use channel_plugin.Wechat.Client.{Message, GetUpdatesResult}
use channel_plugin.Wechat.Reply.{Payload, undecodable, null_payload, fields, text_field}

-- `errors.Is(classifyRuntimePollError(err), ErrSessionExpired)`, by the text of the error
unfoldable pub is_expired : (to_lower : String → String) → String → Bool
is_expired to_lower text =
    contains (to_lower text) "errcode=-14"
    || contains (to_lower text) "session timeout"
    || contains (to_lower text) "session expired"

-- 35 seconds in milliseconds
abbrev pub default_poll : ℤ
default_poll = pos 35000

unfoldable pub next_poll_timeout : ℤ → ℤ → ℤ
next_poll_timeout current (pos (suc n)) = pos (suc n)
next_poll_timeout (pos (suc m)) (pos zero) = pos (suc m)
next_poll_timeout (pos (suc m)) (negsuc n) = pos (suc m)
next_poll_timeout (pos zero) (pos zero) = default_poll
next_poll_timeout (pos zero) (negsuc n) = default_poll
next_poll_timeout (negsuc m) (pos zero) = default_poll
next_poll_timeout (negsuc m) (negsuc n) = default_poll

-- `RuntimeState`, as far as this runtime tells one
pub data ToldState : Type 0 where
  connected : ToldState
  stopped : (reason : String) → ToldState
  expired : (text : String) → ToldState

-- What the callbacks are called with. `OnState` and `OnEvent` may be nil.
pub data Told : Type 0 where
  state_is : ToldState → Told
  event_is : RuntimeEvent → Told

pub record Account : Type 0 where
  pub bot_id : String
  pub channel_type : String
  pub account_uid : String
  pub base_url : String
  pub bot_token : String
  pub wechat_uin : String
  pub has_on_state : Bool
  pub has_on_event : Bool

unfoldable pub tell_state : Account → ToldState → List Told
tell_state a s = if a.has_on_state then state_is s ∷ [] else []

-- the target of a message
unfoldable pub message_target : Account → Message → ReplyTarget
message_target a m =
    let metadata =
      GoMap.put
        (GoMap.put
          (GoMap.put (GoMap.put GoMap.empty "account_uid" a.account_uid) "base_url" a.base_url)
          "token" a.bot_token)
        "wechat_uin" a.wechat_uin in
    record {
      channel_type = a.channel_type;
      recipient_id = m.from;
      metadata =
          if m.context_token == ""
          then metadata
          else GoMap.put metadata "context_token" m.context_token;
    }

unfoldable pub message_event : Account → Message → RuntimeEvent
message_event a m = record {
  bot_id = a.bot_id;
  channel_type = a.channel_type;
  message_id = m.msg_id;
  from = m.from;
  text = m.text;
  reply_target = message_target a m;
}

unfoldable pub tell_messages : Account → List Message → List Told
tell_messages a [] = []
tell_messages a (m ∷ ms) =
    if a.has_on_event then event_is (message_event a m) ∷ tell_messages a ms else []

-- `poll_timeout` is in milliseconds.
pub record Poller : Type 0 where
  pub cursor : String
  pub poll_timeout : ℤ

abbrev pub first_poll : Poller
first_poll = record { cursor = ""; poll_timeout = default_poll }

-- A round of the loop: the context is found done, or a poll answers, fails, or fails with the context
-- done by then.
pub data Round : Type 0 where
  found_done : (reason : String) → Round
  answered : GetUpdatesResult → Round
  poll_failed : (text : String) → (ctx_done : Bool) → Round

unfoldable pub advance : GetUpdatesResult → Poller → Poller
advance u p = record {
  cursor = if u.cursor == "" then p.cursor else u.cursor;
  poll_timeout = next_poll_timeout p.poll_timeout u.next_timeout;
}

module _ (to_lower : String → String) (a : Account) where
  -- What a round tells, and the poller that goes on, if it does.
  unfoldable pub poll_round : Round → Poller → List Told × Option Poller
  poll_round (found_done reason) p = (tell_state a (stopped reason), none)
  poll_round (answered u) p = (tell_messages a u.messages, some (advance u p))
  poll_round (poll_failed text true) p = ([], none)
  poll_round (poll_failed text false) p =
      if is_expired to_lower text then (tell_state a (expired text), none) else ([], some p)

  unfoldable pub poll_loop : List Round → Poller → List Told × Option Poller
  poll_loop [] p = ([], some p)
  poll_loop (r ∷ rs) p =
      let (told, next) = poll_round r p in
      elim next [
        | none ↦ (told, none)
        | some p' ↦ let (later, end) = poll_loop rs p' in (told ++ later, end)
      ]

pub data StartedRuntime : Type 0 where
  start_failed panics : StartedRuntime
  started : Account → List Told → StartedRuntime

unfoldable pub account_of :
    String → (has_on_state has_on_event : Bool) → StartRuntimeRequest → GoMap String → Account
account_of random_uin has_on_state has_on_event req m =
    let uin = text_field m "wechat_uin" in
    record {
      bot_id = req.bot_id;
      channel_type = req.channel_type;
      account_uid = req.account_uid;
      base_url = text_field m "baseurl";
      bot_token = text_field m "bot_token";
      wechat_uin = if uin == "" then random_uin else uin;
      has_on_state = has_on_state;
      has_on_event = has_on_event;
    }

-- `StartRuntime` up to its goroutine. The map of a payload `null` is nil, and to write to it panics.
unfoldable pub start_wechat_runtime :
    (List ℕ → Payload)
    → String
    → (has_on_state has_on_event : Bool) → StartRuntimeRequest
    → StartedRuntime
start_wechat_runtime decode random_uin has_on_state has_on_event req =
    elim (decode req.credential_payload) [
      | undecodable ↦ start_failed
      | null_payload ↦ panics
      | fields m ↦
          let a = account_of random_uin has_on_state has_on_event req m in
          started a (tell_state a connected)
    ]
