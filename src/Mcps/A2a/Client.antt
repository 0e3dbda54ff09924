-- ===== src/Mcps/A2a/Client.antt =====
-- The client of an A2A endpoint: `send`, and the text of its answer. HTTP and JSON are parameters.
use Prim.Native.String
use channel_plugin.Prelude.{
  ℕ, String, ◌&&◌, Option, none, some, List, [], ◌∷◌, ◌==◌, leb, ltb, if◌then◌else◌,
}
use channel_plugin.Prelude.Int.{ℤ}

-- `a2aPart`
pub record Part : Type 0 where
  pub kind : String
  pub text : String

-- The parts of a task: those of the message of its status, and those of each artifact.
pub record TaskResult : Type 0 where
  pub status_parts : List Part
  pub artifacts : List (List Part)

-- `a2aResponse`: an error, or a result, which is JSON itself
pub data RpcReply : Type 0 where
  rpc_error : ℤ → String → RpcReply
  rpc_result : (raw : String) → RpcReply

-- What comes of a request: it cannot be made, it is not answered, or the status and the body.
pub data HttpReply : Type 0 where
  bad_request unreachable : String → HttpReply
  replied : ℕ → (body : String) → HttpReply

pub data SendError : Type 0 where
  no_request no_reply : String → SendError
  bad_status : ℕ → SendError
  undecodable : SendError
  agent_error : ℤ → String → SendError
  unrecognized : SendError

-- the decoders of JSON
pub record Decoders : Type 0 where
  pub as_reply : String → Option RpcReply
  pub as_message : String → Option (List Part)
  pub as_task : String → Option TaskResult

pub data Sent : Type 0 where
  text_is : String → Sent
  failed : SendError → Sent

-- what is posted
pub record Post : Type 0 where
  pub endpoint : String
  pub authorization : String
  pub prompt : String

unfoldable pub join_text : List Part → String
join_text [] = ""
join_text (p ∷ ps) =
    let rest = join_text ps in if p.kind == "text" then String.◌++◌ p.text rest else rest

-- the first artifact that has parts
unfoldable pub first_artifact : List (List Part) → String
first_artifact [] = ""
first_artifact ([] ∷ artifacts) = first_artifact artifacts
first_artifact ((p ∷ ps) ∷ artifacts) = join_text (p ∷ ps)

-- the text of a task
unfoldable pub task_text : TaskResult → String
task_text t = elim t.status_parts [ [] ↦ first_artifact t.artifacts | p ∷ ps ↦ join_text (p ∷ ps) ]

unfoldable pub task_or_error : Option TaskResult → Sent
task_or_error none = failed unrecognized
task_or_error (some t) = text_is (task_text t)

unfoldable pub message_or_task : Option (List Part) → Option TaskResult → Sent
message_or_task none task = task_or_error task
message_or_task (some []) task = task_or_error task
message_or_task (some (p ∷ ps)) task = text_is (join_text (p ∷ ps))

unfoldable pub extract_text : Decoders → String → Sent
extract_text d raw = message_or_task (d.as_message raw) (d.as_task raw)

unfoldable pub on_rpc_reply : Decoders → Option RpcReply → Sent
on_rpc_reply d none = failed undecodable
on_rpc_reply d (some (rpc_error code message)) = failed (agent_error code message)
on_rpc_reply d (some (rpc_result raw)) = extract_text d raw

unfoldable pub on_http_reply : Decoders → HttpReply → Sent
on_http_reply d (bad_request e) = failed (no_request e)
on_http_reply d (unreachable e) = failed (no_reply e)
on_http_reply d (replied status body) =
    if leb 200 status && ltb status 300
    then on_rpc_reply d (d.as_reply body)
    else failed (bad_status status)

unfoldable pub post_of : String → String → String → Post
post_of endpoint auth_token prompt = record {
  endpoint = endpoint;
  authorization = if auth_token == "" then "" else String.◌++◌ "Bearer " auth_token;
  prompt = prompt;
}

-- `a2aClient.send`
unfoldable pub send_prompt :
    {W : Type 0} → Decoders → (Post → W → HttpReply × W) → String → String → String → W → Sent × W
send_prompt d post endpoint auth_token prompt w =
    let (reply, w') = post (post_of endpoint auth_token prompt) w in (on_http_reply d reply, w')
