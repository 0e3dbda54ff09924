-- ===== src/Channel.antt =====
-- internal/channel: the requests of provider.go, and `MultiProvider` of multi_provider.go,
-- `MultiReplyGateway` of reply_gateway.go and `MultiProgressReporter` of progress.go, which route a
-- call by its channel type. What providers, starters, gateways and reporters do is a parameter.
use channel_plugin.Prelude.{
  ℕ, String, ◌≡◌, Bool, Option, none, some, List, arith, ◌==◌, Option-cases, inl, inr,
  if◌then◌else◌,
}
use channel_plugin.GoMap
use channel_plugin.GoMap.{GoMap, get-put}
use channel_plugin.Bot.Messages.{ReplyTarget}

pub record CreateBindingRequest : Type 0 where
  pub binding_id : String
  pub channel_type : String
  pub config : GoMap String

-- Times are nanoseconds, and a `[]byte` the list of its bytes.
pub record CreateBindingResult : Type 0 where
  pub provider_binding_ref : String
  pub qr_code_payload : String
  pub qr_share_url : String
  pub expires_at : ℕ

pub record RefreshBindingRequest : Type 0 where
  pub provider_binding_ref : String
  pub channel_type : String
  pub config : GoMap String

pub record RefreshBindingResult : Type 0 where
  pub provider_status : String
  pub qr_code_payload : String
  pub expires_at : ℕ
  pub account_uid : String
  pub display_name : String
  pub avatar_url : String
  pub credential_payload : List ℕ
  pub credential_version : ℕ
  pub error_message : String

pub record BuildRuntimeConfigRequest : Type 0 where
  pub account_uid : String
  pub channel_type : String
  pub credential_payload : List ℕ
  pub credential_version : ℕ

-- The callbacks are left out: what a runtime calls is modelled at its receivers.
pub record StartRuntimeRequest : Type 0 where
  pub bot_id : String
  pub channel_type : String
  pub account_uid : String
  pub credential_payload : List ℕ
  pub credential_version : ℕ

-- A `RuntimeStarter`: the handle of the runtime, or `none` for an error.
abbrev pub RuntimeStarter : Type 0
RuntimeStarter = StartRuntimeRequest → Option ℕ

-- A `Provider`, over the type `C` of runtime configurations; `none` is an error. `as_starter` is the
-- provider's own `StartRuntime`, if it has one.
pub record Provider (C : Type 0) : Type 0 where
  pub creates : CreateBindingRequest → Option CreateBindingResult
  pub refreshes : RefreshBindingRequest → Option RefreshBindingResult
  pub builds : BuildRuntimeConfigRequest → Option C
  pub as_starter : Option RuntimeStarter

-- The result of a routed call: an error of the routing, or what the provider answers.
pub data Routed (A : Type 0) : Type 0 where
  type_required unsupported : Routed A
  routed : Option A → Routed A

pub record MultiProvider (C : Type 0) : Type 0 where
  pub providers : GoMap (Provider C)
  pub starters : GoMap RuntimeStarter

-- `NewMultiProvider`
abbrev pub new_multi_provider : (C : Type 0) → MultiProvider C
new_multi_provider C = record { providers = GoMap.empty; starters = GoMap.empty }

-- `if v != nil { m[k] = v }`
abbrev pub put_some : {A : Type 0} → GoMap A → String → Option A → GoMap A
put_some m k none = m
put_some m k (some v) = GoMap.put m k v

-- The starter of a registration: the given one, or the provider if it is one.
abbrev pub starter_of :
    {C : Type 0} → Option (Provider C) → Option RuntimeStarter → Option RuntimeStarter
starter_of p (some s) = some s
starter_of none none = none
starter_of (some p) none = p.as_starter

-- `Register`; `none` is a nil argument.
unfoldable pub register :
    {C : Type 0}
    → MultiProvider C
    → String
    → Option (Provider C)
    → Option RuntimeStarter
    → MultiProvider C
register mp channel_type p s = record {
  providers = put_some mp.providers channel_type p;
  starters = put_some mp.starters channel_type (starter_of p s);
}

-- `CreateBinding`
unfoldable pub create_binding :
    {C : Type 0} → MultiProvider C → CreateBindingRequest → Routed CreateBindingResult
create_binding mp req = elim (GoMap.get mp.providers req.channel_type) [
  | none ↦ unsupported
  | some p ↦ routed (p.creates req)
]

-- `RefreshBinding`
unfoldable pub refresh_binding :
    {C : Type 0} → MultiProvider C → RefreshBindingRequest → Routed RefreshBindingResult
refresh_binding mp req =
    if req.channel_type == ""
    then type_required
    else elim (GoMap.get mp.providers req.channel_type) [
      | none ↦ unsupported
      | some p ↦ routed (p.refreshes req)
    ]

-- `BuildRuntimeConfig`
unfoldable pub build_runtime_config :
    {C : Type 0} → MultiProvider C → BuildRuntimeConfigRequest → Routed C
build_runtime_config mp req =
    if req.channel_type == ""
    then type_required
    else elim (GoMap.get mp.providers req.channel_type) [
      | none ↦ unsupported
      | some p ↦ routed (p.builds req)
    ]

-- `StartRuntime`
unfoldable pub start_runtime : {C : Type 0} → MultiProvider C → StartRuntimeRequest → Routed ℕ
start_runtime mp req = elim (GoMap.get mp.starters req.channel_type) [
  | none ↦ unsupported
  | some s ↦ routed (s req)
]

-- A provider that is registered answers the bindings of its channel type. A runtime of that type is
-- started by the given starter, else by the provider if it can, else as before. The calls for every
-- other channel type are answered as before.
pub register_lem :
    {C : Type 0} (mp : MultiProvider C) (channel_type : String) (p : Provider C)
    (s : Option RuntimeStarter) (create : CreateBindingRequest) (start : StartRuntimeRequest)
    → let mp' = register mp channel_type (some p) s in
      (create_binding mp' create ≡ (
        if channel_type == create.channel_type
        then routed (p.creates create)
        else create_binding mp create))
      × (start_runtime mp' start ≡ (
          if channel_type == start.channel_type
          then (elim (starter_of (some p) s) [
            | none ↦ start_runtime mp start
            | some f ↦ routed (f start)
          ])
          else start_runtime mp start))
unfolding register create_binding start_runtime
register_lem mp channel_type p s create start = (
  ground (arith, get-put mp.providers channel_type create.channel_type p),
  elim (Option-cases (starter_of (some p) s)) [
    | inl e ↦ rw e (ground arith)
    | inr (f, e) ↦ rw e (ground (arith, get-put mp.starters channel_type start.channel_type f))
  ],
)

-- `MultiReplyGateway`: a gateway tells whether it succeeds, for a target and a response.
pub data Replied : Type 0 where
  no_gateway : Replied
  replied : Bool → Replied

-- `Register` of the reply gateways
unfoldable pub register_gateway : {G : Type 0} → GoMap G → String → G → GoMap G
register_gateway gateways channel_type gateway = GoMap.put gateways channel_type gateway

-- `Reply`
unfoldable pub reply : {R : Type 0} → GoMap (ReplyTarget → R → Bool) → ReplyTarget → R → Replied
reply gateways target resp = elim (GoMap.get gateways target.channel_type) [
  | none ↦ no_gateway
  | some g ↦ replied (g target resp)
]

-- `Begin` of `MultiProgressReporter`: a reporter gives a session, or nil.
unfoldable pub begin : {S : Type 0} → GoMap (ReplyTarget → Option S) → ReplyTarget → Option S
begin reporters target = elim (GoMap.get reporters target.channel_type) [
  | none ↦ none
  | some r ↦ r target
]
