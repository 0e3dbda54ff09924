-- ===== src/Hook.antt =====
-- internal/hook/manager.go: webhooks, which send a prompt to a bot and answer with the bot's text. The
-- hooks, the repository, the resolver and the executor are parameters; a `string` beside an error is
-- its message.
use Prim.Native.String
use channel_plugin.Prelude.{String, ◌≡◌, ◌≢◌, ◌⊎◌, ◌∙◌, inl, inr, refl, Option-cases, none, some}
use channel_plugin.GoMap
use channel_plugin.GoMap.{GoMap}
use channel_plugin.Domain.{Bot, Fetched, got, missed, StoreError, not_found, failure}
use channel_plugin.Agent.Types.{Spec, Request}

-- What a fallible call returns: its value, or its error's message.
pub data Answer {ℓ} (A : Type ℓ) : Type ℓ where
  value : A → Answer A
  error : String → Answer A

-- What is written: an error's code and message, or the text of a success.
pub data Written : Type 0 where
  wrote_error : String → String → Written
  wrote_text : String → Written

-- `Manager` with what it is made of; a hook makes a prompt of a request, over the type `R` of requests.
pub record HookManager (R : Type 0) : Type 0 where
  pub hooks : GoMap (R → Answer String)
  pub read_body : R → Answer String
  pub get_by_name : String → Fetched Bot
  pub resolve : String → Answer Spec
  -- the text of the response
  pub send : String → Spec → Request → Answer String

Fetched-cases :
    {A : Type 0} (f : Fetched A) → ((a : A) × (f ≡ got a)) ⊎ ((e : StoreError) × (f ≡ missed e))
Fetched-cases (got a) = inl (a, refl)
Fetched-cases (missed e) = inr (e, refl)

Answer-cases :
    {A : Type 0} (x : Answer A) → ((a : A) × (x ≡ value a)) ⊎ ((e : String) × (x ≡ error e))
Answer-cases (value a) = inl (a, refl)
Answer-cases (error e) = inr (e, refl)

module _ {R : Type 0} (s : HookManager R) where
  unfoldable pub send_spec : Bot → String → Answer Spec → Written
  send_spec bot prompt (error e) =
      wrote_error "INTERNAL_ERROR" (String.◌++◌ "failed to resolve agent spec: " e)
  send_spec bot prompt (value spec) =
      elim (s.send bot.id spec
        (record { bot_id = ""; user_id = ""; message_id = ""; prompt = prompt })) [
          | error e ↦ wrote_error "INTERNAL_ERROR" (String.◌++◌ "agent execution failed: " e)
          | value text ↦ wrote_text text
        ]

  -- `sendToAgent`
  unfoldable pub send_to_agent : Bot → String → Written
  unfolding send_spec
  send_to_agent bot prompt = send_spec bot prompt (s.resolve bot.id)

  -- What a failed lookup of the bot writes.
  unfoldable pub lookup_failed : String → StoreError → Written
  lookup_failed name not_found =
      wrote_error "NOT_FOUND" (String.◌++◌ "no bot found with name: " name)
  lookup_failed name (failure e) = wrote_error "INTERNAL_ERROR" e

  -- `handleWithHook`
  unfoldable pub handle_with_hook : R → String → (R → Answer String) → Written
  unfolding send_to_agent lookup_failed
  handle_with_hook r name hook = elim (hook r) [
    | error e ↦ wrote_error "INVALID_ARGUMENT" e
    | value prompt ↦ elim (s.get_by_name name) [
      | missed e ↦ lookup_failed name e
      | got bot ↦ send_to_agent bot prompt
    ]
  ]

  -- `handlePassthrough`
  unfoldable pub handle_passthrough : R → String → Written
  unfolding send_to_agent lookup_failed
  handle_passthrough r name = elim (s.get_by_name name) [
    | missed e ↦ lookup_failed name e
    | got bot ↦ elim (s.read_body r) [
      | error e ↦ wrote_error "INVALID_ARGUMENT" "failed to read request body"
      | value body ↦ send_to_agent bot body
    ]
  ]

  -- `HandleHook`
  unfoldable pub handle_hook : R → String → String → Written
  unfolding handle_with_hook handle_passthrough
  handle_hook r platform name = elim (GoMap.get s.hooks platform) [
    | some hook ↦ handle_with_hook r name hook
    | none ↦ handle_passthrough r name
  ]

  -- the prompt of a request: that of the platform's hook, or the body where there is none
  abbrev pub prompt_of : R → String → Answer String
  prompt_of r platform = elim (GoMap.get s.hooks platform) [
    | some hook ↦ hook r
    | none ↦ s.read_body r
  ]

  lookup_failed-text :
      (name text : String) (e : StoreError) → lookup_failed name e ≢ wrote_text text
  unfolding lookup_failed
  lookup_failed-text name text not_found h = cc
  lookup_failed-text name text (failure e) h = cc

  -- What the agent was sent where a text comes back.
  abbrev pub Sent : Bot → String → String → Type 0
  Sent bot prompt text =
      (spec : Spec) × (s.resolve bot.id ≡ value spec)
      × (s.send bot.id spec (record { bot_id = ""; user_id = ""; message_id = ""; prompt = prompt })
          ≡ value text)

  send_to_agent-text :
      (bot : Bot) (prompt text : String)
      → send_to_agent bot prompt ≡ wrote_text text
      → Sent bot prompt text
  unfolding send_to_agent send_spec
  send_to_agent-text bot prompt text h = elim (Answer-cases (s.resolve bot.id)) [
    | inr (e, p) ↦ absurd (cc (rw (p, send_to_agent) at h))
    | inl (spec, p) ↦
        elim (Answer-cases (
          s.send bot.id spec
            (record { bot_id = ""; user_id = ""; message_id = ""; prompt = prompt }))) [
              | inr (e, q) ↦ absurd (cc (rw (p, q, send_to_agent, send_spec) at h))
              | inl (t, q) ↦ (spec, p, q ∙ cc (rw (p, q, send_to_agent, send_spec) at h))
            ]
  ]

  -- A text came back for the prompt of the answer `x`.
  abbrev pub Answered : String → Answer String → String → Type 0
  Answered name x text =
      (bot : Bot) × (prompt : String) × (s.get_by_name name ≡ got bot)
      × (x ≡ value prompt)
      × Sent bot prompt text

  handle_with_hook-text :
      (r : R) (name text : String) (hook : R → Answer String)
      → handle_with_hook r name hook ≡ wrote_text text
      → Answered name (hook r) text
  unfolding handle_with_hook
  handle_with_hook-text r name text hook h = elim (Answer-cases (hook r)) [
    | inr (e, p) ↦ absurd (cc (rw (p, handle_with_hook) at h))
    | inl (prompt, p) ↦ elim (Fetched-cases (s.get_by_name name)) [
      | inr (e, q) ↦ absurd (lookup_failed-text name text e (rw (p, q, handle_with_hook) at h))
      | inl (bot, q) ↦
          (bot, prompt, q, p, send_to_agent-text bot prompt text (rw (p, q, handle_with_hook) at h))
    ]
  ]

  handle_passthrough-text :
      (r : R) (name text : String)
      → handle_passthrough r name ≡ wrote_text text
      → Answered name (s.read_body r) text
  unfolding handle_passthrough
  handle_passthrough-text r name text h = elim (Fetched-cases (s.get_by_name name)) [
    | inr (e, q) ↦ absurd (lookup_failed-text name text e (rw (q, handle_passthrough) at h))
    | inl (bot, q) ↦ elim (Answer-cases (s.read_body r)) [
      | inr (e, p) ↦ absurd (cc (rw (q, p, handle_passthrough) at h))
      | inl (prompt, p) ↦ (
        bot,
        prompt,
        q,
        p,
        send_to_agent-text bot prompt text (rw (q, p, handle_passthrough) at h),
      )
    ]
  ]

  -- A webhook that answers with a text has sent the request's prompt to the bot of that name, under
  -- the spec that is resolved for it, and the text is the agent's. The prompt is that of the platform's
  -- hook, or the whole body where the platform has none.
  pub handle_hook_text :
      (r : R) (platform name text : String)
      → handle_hook r platform name ≡ wrote_text text
      → Answered name (prompt_of r platform) text
  unfolding handle_hook
  handle_hook_text r platform name text h = elim (Option-cases (GoMap.get s.hooks platform)) [
    | inl p ↦ rw (p, prompt_of) (handle_passthrough-text r name text (rw (p, handle_hook) at h))
    | inr (hook, p) ↦
        rw (p, prompt_of) (handle_with_hook-text r name text hook (rw (p, handle_hook) at h))
  ]
