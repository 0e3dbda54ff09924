-- ===== src/Feishu/Api.antt =====
-- internal/channel/feishu/api.go: the texts, the cards and how they are sent, and the gateway of
-- reply_gateway.go over them. The client of the service, JSON and the parser of Markdown are parameters.
use Prim.Native.String
use channel_plugin.Prelude.{String, Bool, Option, none, some, List, [], ◌∷◌, ◌==◌, if◌then◌else◌}
use channel_plugin.Prelude.Int.{ℤ}
use channel_plugin.Prelude.Text.{trim_space}
use channel_plugin.GoMap
use channel_plugin.GoMap.{GoMap}
use channel_plugin.Bot.Messages.{ReplyTarget, metadata_value}
use channel_plugin.Agent.Types.{Response}
use channel_plugin.Feishu.Runtime.{Credentials, Registry, lookup_credentials}

pub record SendParams : Type 0 where
  pub chat_id : String
  pub text : String
  pub reply_message_id : String
  pub mentions : List String

pub record LarkClient : Type 0 where
  pub app_id : String
  pub app_secret : String

-- `msg_type` of a message
pub data MsgType : Type 0 where
  text_message interactive_message : MsgType

-- A request to the service: a reply to a message, or a new message in a chat.
pub data LarkRequest : Type 0 where
  reply_to : (message_id : String) → MsgType → (content : String) → LarkRequest
  create_in : (chat_id : String) → MsgType → (content : String) → LarkRequest

pub data Posted : Type 0 where
  accepted : Posted
  refused : (code : ℤ) (msg : String) → Posted
  unreachable : String → Posted

-- the error of `send`
pub data LarkError : Type 0 where
  refusal : (code : ℤ) (msg : String) → LarkError
  transport : String → LarkError

unfoldable pub error_of : Posted → Option LarkError
error_of accepted = none
error_of (refused code msg) = some (refusal code msg)
error_of (unreachable e) = some (transport e)

-- `larkClient`: the client that is kept under the id of the app, or a new one.
unfoldable pub lark_client : String → String → GoMap LarkClient → LarkClient × GoMap LarkClient
lark_client app_id app_secret clients = elim (GoMap.get clients app_id) [
  | some c ↦ (c, clients)
  | none ↦
      let c : LarkClient = record { app_id = app_id; app_secret = app_secret } in
      (c, GoMap.put clients app_id c)
]

-- `opening`, the id and `"></at>`, one after another
unfoldable pub at_tags : (opening : String) → List String → String
at_tags opening [] = ""
at_tags opening (id ∷ ids) =
    String.◌++◌ opening (String.◌++◌ id (String.◌++◌ "\"></at>" (at_tags opening ids)))

unfoldable pub with_mentions : (opening : String) → SendParams → String
with_mentions opening p = elim p.mentions [
  | [] ↦ p.text
  | id ∷ ids ↦ String.◌++◌ (at_tags opening (id ∷ ids)) (String.◌++◌ " " p.text)
]

unfoldable pub build_text_content : (encode : String → String) → SendParams → String
build_text_content encode p = encode (with_mentions "<at user_id=\"" p)

unfoldable pub build_card_content : (encode : String → String) → SendParams → String
build_card_content encode p = encode (with_mentions "<at id=\"" p)

-- the request that `send` makes
unfoldable pub request_of : MsgType → (content : String) → SendParams → LarkRequest
request_of msg_type content p =
    if p.reply_message_id == ""
    then create_in p.chat_id msg_type content
    else reply_to p.reply_message_id msg_type content

-- What the code uses of other libraries; `post` is the state of the service and its answers.
pub record Lark (W : Type 0) : Type 0 where
  pub encode_text : String → String
  pub encode_card : String → String
  pub is_rich_markdown : String → Bool
  pub post : LarkClient → LarkRequest → W → Posted × W

module _ {W : Type 0} (api : Lark W) where
  unfoldable pub send_lark :
      LarkClient → MsgType → (content : String) → SendParams → W → Option LarkError × W
  send_lark client msg_type content p w =
      let (answer, w') = api.post client (request_of msg_type content p) w in (error_of answer, w')

  unfoldable pub send_as_text : LarkClient → SendParams → W → Option LarkError × W
  send_as_text client p w = send_lark client text_message (build_text_content api.encode_text p) p w

  -- a text where the card has failed
  unfoldable pub after_card : LarkClient → SendParams → Option LarkError × W → Option LarkError × W
  after_card client p (none, w) = (none, w)
  after_card client p (some e, w) = send_as_text client p w

  -- `SendText` after `larkClient`
  unfoldable pub send_by : LarkClient → SendParams → W → Option LarkError × W
  send_by client p w =
      if api.is_rich_markdown p.text
      then after_card client p
          (send_lark client interactive_message (build_card_content api.encode_card p) p w)
      else send_as_text client p w

  unfoldable pub send_text :
      Credentials → SendParams → GoMap LarkClient → W → Option LarkError × (GoMap LarkClient × W)
  send_text creds p clients w =
      let (client, clients') = lark_client creds.app_id creds.app_secret clients in
      let (err, w') = send_by client p w in (err, (clients', w'))

-- What a reply comes to: nothing to say, an error before anything is sent, or what was sent for
-- whom, and its error.
pub data FeishuReplied : Type 0 where
  says_nothing no_bot_id not_active : FeishuReplied
  sends : Credentials → SendParams → Option LarkError → FeishuReplied

unfoldable pub sender_mention : String → List String
sender_mention id = if id == "" then [] else id ∷ []

unfoldable pub reply_chat : ReplyTarget → String
reply_chat t =
    let chat_id = trim_space (metadata_value t "chat_id") in
    if chat_id == "" then trim_space t.recipient_id else chat_id

unfoldable pub reply_params : ReplyTarget → String → SendParams
reply_params t text =
    if metadata_value t "chat_type" == "group"
    then record {
      chat_id = reply_chat t;
      text = text;
      reply_message_id = trim_space (metadata_value t "message_id");
      mentions = sender_mention (trim_space (metadata_value t "sender_open_id"));
    }
    else record { chat_id = reply_chat t; text = text; reply_message_id = ""; mentions = [] }

module _ {W : Type 0} (api : Lark W) (r : Registry) where
  unfoldable pub reply_by :
      Option Credentials
      → SendParams
      → GoMap LarkClient
      → W
      → FeishuReplied × (GoMap LarkClient × W)
  reply_by none p clients w = (not_active, (clients, w))
  reply_by (some creds) p clients w =
      let (err, after) = send_text api creds p clients w in (sends creds p err, after)

  -- `Reply`
  unfoldable pub feishu_reply :
      ReplyTarget → Response → GoMap LarkClient → W → FeishuReplied × (GoMap LarkClient × W)
  feishu_reply t resp clients w =
      let text = trim_space resp.text in
      let bot_id = trim_space (metadata_value t "bot_id") in
      if text == ""
      then (says_nothing, (clients, w))
      else if bot_id == ""
      then (no_bot_id, (clients, w))
      else reply_by (lookup_credentials r bot_id) (reply_params t text) clients w
