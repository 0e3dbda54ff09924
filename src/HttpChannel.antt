-- ===== src/HttpChannel.antt =====
-- internal/channel/httpchan: receiver.go, and `Reply` of reply_gateway.go. A bot's callbacks are taken
-- to have an `OnEvent`, and the gateway to have a receiver; a waiter is its number and the
-- replies that nobody has read yet.
use Prim.Native.String
use Prim.Native.String.{[], ◌∷◌}
use channel_plugin.Prelude.{
  ℕ, suc, String, Bool, true, false, ◌&&◌, ◌||◌, Option, none, some, List, ◌++◌, length, ltb, arith,
  ◌==◌, if◌then◌else◌, ◌≡◌, ◌≢◌, refl, sym, ◌∙◌, nat_eq, eq_refl, eq_iff, is_some,
}
use text.Mathlib.TextLemmas.{
  cons-append, nil-append, append_assoc, append-eq-nil_iff, append-nil, append_cancel_left,
}
use channel_plugin.Prelude.Text.{trim_space, is_blank}
use channel_plugin.GoMap
use channel_plugin.GoMap.{
  GoMap, get, put, delete, delete_if, get-put, get-delete, get-delete_if, unless,
}
use channel_plugin.Bot.Messages.{ReplyTarget, RuntimeEvent, metadata_value}
use channel_plugin.Agent.Types.{Response}

pub record IncomingMessage : Type 0 where
  pub user_id : String
  pub text : String
  pub message_id : String
  pub callback_url : String

pub record Waiter : Type 0 where
  pub id : ℕ
  pub replies : List Response

-- `bots` has the active ones; `next` is the number of the next waiter.
pub record Receiver : Type 0 where
  pub bots : GoMap (Unit {0})
  pub waiters : GoMap Waiter
  pub next : ℕ

abbrev pub new_receiver : Receiver
new_receiver = record { bots = GoMap.empty; waiters = GoMap.empty; next = 0 }

-- `bot_id:message_id`
unfoldable pub chat_key : String → String → String
chat_key bot_id message_id = Prim.Native.String.◌++◌ bot_id (Prim.Native.String.◌++◌ ":" message_id)

-- `len(key) > len(prefix) && key[:len(prefix)] == prefix`
unfoldable pub extends_text : String → String → Bool
extends_text [] [] = false
extends_text [] (d ∷ key) = true
extends_text (c ∷ prefix) [] = false
extends_text (c ∷ prefix) (d ∷ key) =
    let rest = extends_text prefix key in (c ∷ []) == (d ∷ []) && rest

unfoldable pub register : String → Receiver → Receiver
register bot_id r = record r { bots = GoMap.put r.bots bot_id tt }

unfoldable pub unregister : String → Receiver → Receiver
unregister bot_id r = record r {
  bots = GoMap.delete r.bots bot_id;
  waiters = GoMap.delete_if (λ key w. extends_text bot_id key) r.waiters;
}

-- `Active`
unfoldable pub active : Receiver → String → Bool
active r bot_id = is_some (GoMap.get r.bots bot_id)

abbrev pub metadata_of : String → IncomingMessage → GoMap String
metadata_of bot_id msg =
    GoMap.put (GoMap.put (GoMap.put GoMap.empty "bot_id" bot_id) "message_id" msg.message_id)
      "callback_url" msg.callback_url

-- `Receive`: the event that is handed on, or `none` for an error.
unfoldable pub receive : Receiver → String → IncomingMessage → Option RuntimeEvent
receive r bot_id msg =
    if active r bot_id
    then some (record {
      bot_id = bot_id;
      channel_type = "http";
      message_id = msg.message_id;
      from = msg.user_id;
      text = msg.text;
      reply_target = record {
        channel_type = "http";
        recipient_id = msg.user_id;
        metadata = metadata_of bot_id msg;
      };
    })
    else none

-- `RegisterChat`: the waiter's number and the receiver.
unfoldable pub register_chat : String → String → Receiver → ℕ × Receiver
register_chat bot_id message_id r = (
  r.next,
  record r {
    waiters =
        GoMap.put r.waiters (chat_key bot_id message_id)
          (record { id = r.next; replies = List.[] });
    next = suc r.next;
  },
)

-- the function that `RegisterChat` returns
unfoldable pub unregister_chat : String → String → ℕ → Receiver → Receiver
unregister_chat bot_id message_id id r =
    let key = chat_key bot_id message_id in
    elim (GoMap.get r.waiters key) [
      | none ↦ r
      | some w ↦ if nat_eq w.id id then record r { waiters = GoMap.delete r.waiters key } else r
    ]

-- `DeliverChatReply`; the channel of a waiter has five places.
unfoldable pub deliver_chat_reply : String → String → Response → Receiver → Bool × Receiver
deliver_chat_reply bot_id message_id resp r =
    let key = chat_key bot_id message_id in
    elim (GoMap.get r.waiters key) [
      | none ↦ (false, r)
      | some w ↦ (
        true,
        if ltb (length w.replies) 5
            then record r {
              waiters =
                  GoMap.put r.waiters key
                    (record w { replies = w.replies ++ List.◌∷◌ resp List.[] });
            }
            else r,
      )
    ]

-- What `Reply` does with an answer.
pub data Reply : Type 0 where
  nothing_to_say delivered no_callback : Reply
  posts : (url user_id text : String) → Reply

-- `Reply` up to the request, which it makes for `posts`.
unfoldable pub reply : ReplyTarget → Response → Receiver → Reply × Receiver
reply target resp r =
    let bot_id = metadata_value target "bot_id" in
    let message_id = metadata_value target "message_id" in
    let url = trim_space (metadata_value target "callback_url") in
    let posted =
      if url == ""
      then no_callback
      else posts url (trim_space target.recipient_id) (trim_space resp.text) in
    if is_blank resp.text
    then (nothing_to_say, r)
    else if bot_id == "" || message_id == ""
    then (posted, r)
    else (let (taken, r') = deliver_chat_reply bot_id message_id resp r in
        if taken then (delivered, r') else (posted, r'))

extends_text-append :
    (prefix rest : String)
    → rest ≢ ""
    → extends_text prefix (Prim.Native.String.◌++◌ prefix rest) ≡ true
unfolding extends_text
extends_text-append [] [] h = absurd (h refl)
extends_text-append [] (d ∷ rest) h = rw (nil-append (d ∷ rest)) refl
extends_text-append (c ∷ prefix) rest h =
    rw (cons-append c prefix rest)
      (ground (arith, extends_text-append prefix rest h, eq_refl (c ∷ [])))

-- `Unregister` of a bot also drops the chats that wait for a bot whose id begins with the bot's id,
-- while it leaves that bot registered if it was.
pub unregister_takes_others :
    (bot_id suffix message_id : String) (r : Receiver)
    → suffix ≢ ""
    → let other = Prim.Native.String.◌++◌ bot_id suffix in
      (get (unregister bot_id r).waiters (chat_key other message_id) ≡ none)
      × (active (unregister bot_id r) other ≡ active r other)
unfolding unregister chat_key active
unregister_takes_others bot_id suffix message_id r h =
    let other = Prim.Native.String.◌++◌ bot_id suffix in
    let tail = Prim.Native.String.◌++◌ ":" message_id in
    let key = Prim.Native.String.◌++◌ other tail in
    let rest = Prim.Native.String.◌++◌ suffix tail in
    let extends : extends_text bot_id key ≡ true = rw (append_assoc bot_id suffix tail) (
      extends_text-append bot_id rest
        (λ e. h ((append-eq-nil_iff {p = suffix} {q = tail}).0 e).0)) in
    let apart : bot_id ≢ other =
      λ e. h (append_cancel_left bot_id suffix "" (sym e ∙ sym (append-nil bot_id))) in
    ground (
      arith,
      extends,
      get-delete_if (λ k w. extends_text bot_id k) r.waiters key,
      get-delete r.bots bot_id other,
      eq_iff bot_id other,
      apart,
    )

metadata_lem :
    (bot_id : String) (msg : IncomingMessage)
    → (get (metadata_of bot_id msg) "bot_id" ≡ some bot_id)
      × (get (metadata_of bot_id msg) "message_id" ≡ some msg.message_id)
metadata_lem bot_id msg =
    let m0 : GoMap String = GoMap.empty in
    let m1 = put m0 "bot_id" bot_id in
    let m2 = put m1 "message_id" msg.message_id in
    (
      rw (get-put m2 "callback_url" "bot_id" msg.callback_url) (
          rw (get-put m1 "message_id" "bot_id" msg.message_id)
            (get-put m0 "bot_id" "bot_id" bot_id)),
      rw (get-put m2 "callback_url" "message_id" msg.callback_url)
          (get-put m1 "message_id" "message_id" msg.message_id),
    )

-- The answer to a message that a chat waits for reaches the chat: a reply to the target of the event
-- that `Receive` makes is the first of the waiter that `RegisterChat` made for the message.
pub reply_reaches_chat :
    (bot_id : String) (msg : IncomingMessage) (resp : Response) (r : Receiver) {ev : RuntimeEvent}
    → receive r bot_id msg ≡ some ev
    → bot_id ≢ ""
    → msg.message_id ≢ ""
    → is_blank resp.text ≡ false
    → let (id, waiting) = register_chat bot_id msg.message_id r in
      let (answer, r') = reply ev.reply_target resp waiting in
      (answer ≡ delivered)
      × (get r'.waiters (chat_key bot_id msg.message_id)
          ≡ some (record { id = id; replies = List.◌∷◌ resp List.[] }))
unfolding receive register_chat reply deliver_chat_reply metadata_value
reply_reaches_chat bot_id msg resp r h b m said =
    let key = chat_key bot_id msg.message_id in
    let w : Waiter = record { id = r.next; replies = List.[] } in
    let w' : Waiter = record { id = r.next; replies = List.◌∷◌ resp List.[] } in
    ground (
      arith,
      metadata_lem bot_id msg,
      eq_refl key,
      eq_iff bot_id "",
      eq_iff msg.message_id "",
      get-put r.waiters key key w,
      get-put (put r.waiters key w) key key w',
    )
