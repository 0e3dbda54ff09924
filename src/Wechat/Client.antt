-- ===== src/Wechat/Client.antt =====
-- The messages that the client reads and sends.
use Prim.Native.String
use channel_plugin.Prelude.{
  ℕ, suc, String, Bool, false, not, ◌&&◌, ◌||◌, Option, none, some, List, [], ◌∷◌, ◌==◌, nat_eq,
  if◌then◌else◌,
}
use channel_plugin.Prelude.Int.{ℤ, pos, negsuc}
use channel_plugin.Prelude.Text.{is_blank}
use channel_plugin.Agent.Session.Defs.{decimal}
use channel_plugin.Wechat.Login.{or_text}

-- `messageItem`, with the text of its text item, "" where there is none
pub record MessageItem : Type 0 where
  pub msg_id : String
  pub text : String

-- `weixinMessage`
pub record WeixinMessage : Type 0 where
  pub message_id : ℤ
  pub from_user_id : String
  pub context_token : String
  pub item_list : List MessageItem

-- `Raw`, `MsgType` and `Created` are left out: nothing reads them.
pub record Message : Type 0 where
  pub msg_id : String
  pub from : String
  pub text : String
  pub context_token : String

-- `fmt.Sprintf("%d", n)`
unfoldable pub signed_decimal : ℤ → String
signed_decimal (pos n) = decimal n
signed_decimal (negsuc n) = String.◌++◌ "-" (decimal (suc n))

unfoldable pub add_text : String → String → String
add_text text more = if text == "" then more else String.◌++◌ text (String.◌++◌ "\n" more)

-- a round of the loop over the items of a message
unfoldable pub add_item : MessageItem → Message → Message
add_item item m = record m {
  msg_id = if item.msg_id == "" then m.msg_id else item.msg_id;
  text = if item.text == "" then m.text else add_text m.text item.text;
}

unfoldable pub add_items : List MessageItem → Message → Message
add_items [] m = m
add_items (item ∷ items) m = add_items items (add_item item m)

unfoldable pub parse_message : WeixinMessage → Message
parse_message w = add_items w.item_list (record {
  msg_id = signed_decimal w.message_id;
  from = w.from_user_id;
  text = "";
  context_token = w.context_token;
})

-- the messages of an answer that have an id and a text
unfoldable pub parse_messages : List WeixinMessage → List Message
parse_messages [] = []
parse_messages (w ∷ ws) =
    let m = parse_message w in
    let rest = parse_messages ws in
    if not (m.msg_id == "") && not (m.text == "") then m ∷ rest else rest

-- `getUpdatesResponse`
pub record UpdatesResponse : Type 0 where
  pub ret : ℤ
  pub err_code : ℤ
  pub messages : List WeixinMessage
  pub get_updates_buf : String
  pub sync_buf : String
  pub long_polling_ms : ℤ

-- `NextTimeout` is in milliseconds here.
pub record GetUpdatesResult : Type 0 where
  pub messages : List Message
  pub cursor : String
  pub next_timeout : ℤ

abbrev pub is_zero : ℤ → Bool
is_zero (pos n) = nat_eq n 0
is_zero (negsuc n) = false

-- What comes of a request: an error of the transport, or the status and the decoded body.
pub data Reached {ℓ} (A : Type ℓ) : Type ℓ where
  transport_error : String → Reached A
  replied : (status : ℕ) → (body : Option A) → Reached A

-- an error of a call, with its text
pub data Called {ℓ} (A : Type ℓ) : Type ℓ where
  done : A → Called A
  failed : String → Called A

-- The texts of the errors that are made of an answer.
pub record ErrorTexts : Type 0 where
  pub status_text : (status : ℕ) → String
  pub code_text : (status : ℕ) → (ret err_code : ℤ) → String

unfoldable pub updates_of : UpdatesResponse → GetUpdatesResult
updates_of raw = record {
  messages = parse_messages raw.messages;
  cursor = or_text raw.get_updates_buf raw.sync_buf;
  next_timeout = raw.long_polling_ms;
}

-- `GetMessagesLongPoll` after its request
unfoldable pub on_updates : ErrorTexts → Reached UpdatesResponse → Called GetUpdatesResult
on_updates texts (transport_error e) = failed e
on_updates texts (replied status none) = failed (texts.status_text status)
on_updates texts (replied status (some raw)) =
    if not (nat_eq status 200) || not (is_zero raw.ret) || not (is_zero raw.err_code)
    then failed (texts.code_text status raw.ret raw.err_code)
    else done (updates_of raw)

pub record SendMessageOptions : Type 0 where
  pub base_url : String
  pub token : String
  pub wechat_uin : String
  pub to_user_id : String
  pub text : String
  pub context_token : String

pub record SendMessageResponse : Type 0 where
  pub ret : ℤ
  pub err_code : ℤ

-- `decodeSendMessageResponse`
unfoldable pub on_sent : ErrorTexts → Reached SendMessageResponse → Called (Unit {0})
on_sent texts (transport_error e) = failed e
on_sent texts (replied status none) = failed (texts.status_text status)
on_sent texts (replied status (some r)) =
    if not (nat_eq status 200) || not (is_zero r.ret) || not (is_zero r.err_code)
    then failed (texts.code_text status r.ret r.err_code)
    else done tt

-- the client's own address and token stand in for those that are empty
unfoldable pub with_defaults :
    (base_url auth_token : String) → SendMessageOptions → SendMessageOptions
with_defaults base_url auth_token opts = record opts {
  base_url = or_text opts.base_url base_url;
  token = or_text opts.token auth_token;
}

abbrev pub token_required : String
token_required = "sendmsg context token is required"

-- `SendTextMessage`
unfoldable pub send_text_message :
    {W : Type 0}
    → ErrorTexts
    → (SendMessageOptions → W → Reached SendMessageResponse × W)
    → (base_url auth_token : String) → SendMessageOptions
    → W
    → Called (Unit {0}) × W
send_text_message texts post base_url auth_token opts w =
    if is_blank opts.context_token
    then (failed token_required, w)
    else (let (r, w') = post (with_defaults base_url auth_token opts) w in (on_sent texts r, w'))
