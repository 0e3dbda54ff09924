-- ===== src/Mcps/A2a/Dispatch.antt =====
-- `runDispatch`: the server of a name, and the prompt sent to it.
use channel_plugin.Prelude.{String, Option, none, some, List, [], ◌∷◌, ◌==◌, if◌then◌else◌}
use channel_plugin.Mcps.A2a.Defs.{
  Source, ResolvedServer, BooRun, Files, kind_http, kind_boo, resolve_sources,
}
use channel_plugin.Mcps.A2a.Client.{
  SendError, Decoders, Post, HttpReply, Sent, text_is, failed, send_prompt,
}
use channel_plugin.Mcps.A2a.Boo.{BooError, BooAnswer, output, boo_failed, dispatch_boo}

pub data DispatchError : Type 0 where
  prompt_required : DispatchError
  no_server : String → DispatchError
  unknown_kind : String → DispatchError
  send_failed : SendError → DispatchError
  terminal_failed : BooError → DispatchError

pub data Dispatched : Type 0 where
  result_is : String → Dispatched
  refused : DispatchError → Dispatched

-- the first server of a name
unfoldable pub find_server : String → List ResolvedServer → Option ResolvedServer
find_server name [] = none
find_server name (s ∷ ss) =
    let later = find_server name ss in if s.name == name then some s else later

unfoldable pub of_sent : Sent → Dispatched
of_sent (text_is t) = result_is t
of_sent (failed e) = refused (send_failed e)

unfoldable pub of_boo : BooAnswer → Dispatched
of_boo (output t) = result_is t
of_boo (boo_failed e) = refused (terminal_failed e)

module _ {W : Type 0} (files : Files) (decoders : Decoders) (run_boo : List String → W → BooRun × W)
    (post : Post → W → HttpReply × W) where
  -- the `switch` over the kind of a server
  unfoldable pub dispatch_to : ResolvedServer → String → W → Dispatched × W
  dispatch_to s prompt w =
      if s.kind == kind_http
      then (let (r, w') = send_prompt decoders post s.endpoint s.auth_token prompt w in
          (of_sent r, w'))
      else if s.kind == kind_boo
      then (let (r, w') = dispatch_boo run_boo s.session prompt s.wait_timeout w in (of_boo r, w'))
      else (refused (unknown_kind s.kind), w)

  unfoldable pub dispatch_found : Option ResolvedServer → String → String → W → Dispatched × W
  dispatch_found none name prompt w = (refused (no_server name), w)
  dispatch_found (some s) name prompt w = dispatch_to s prompt w

  -- `runDispatch`
  unfoldable pub run_dispatch : List Source → (agent_name prompt : String) → W → Dispatched × W
  run_dispatch sources agent_name prompt w =
      if prompt == ""
      then (refused prompt_required, w)
      else (let (servers, w') = resolve_sources files run_boo sources w in
          dispatch_found (find_server agent_name servers) agent_name prompt w')
