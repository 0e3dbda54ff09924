-- ===== src/Bot/Resolver/Resolving.antt =====
-- What a specification that is resolved tells of the rows, and what the workspace holds then.
use channel_plugin.Prelude.{
  String, true, false, Option, none, some, List, [], ◌∷◌, ◌==◌, arith, if◌then◌else◌, ◌≡◌, ◌≢◌,
  refl, ◌↔◌, ◌⊎◌, inl, inr, eq_iff, eq_refl, Option-cases,
}
use channel_plugin.Prelude.Text.{is_blank, trim_space}
use channel_plugin.GoMap
use channel_plugin.GoMap.{GoMap, get, put, delete, get-put, get-delete, get-empty}
use channel_plugin.Domain.{
  Bot, AgentCapability, Fetched, got, missed, not_found, failure, role_orchestrator,
}
use channel_plugin.Agent.Types.{Spec}
use channel_plugin.Bot.Resolver.Defs.{
  Platform, Config, Lookups, resolved, McpEntry, ServerConfig, config_of, fill_config,
  prepare_work_dir, write_system_prompt_doc, doc_file, builtin_entry, collect_mcp_servers,
  server_entries, http_config,
}
use channel_plugin.Bot.Resolver.Rows.{
  resolve, resolve_rows, check_rows, spec_of, work_dir_of, contains,
}

-- What holds of the rows of a bot that has a specification.
pub record Runnable (bot : Bot) (capability : AgentCapability) : Type 0 where
  pub configured : (bot.agent_capability_id ≢ "") × (bot.agent_mode ≢ "")
  pub supported : contains bot.agent_mode capability.supported_modes ≡ true
  pub runs :
      (is_blank bot.cli_alias ≡ false) ⊎ ((capability.available ≡ true) × (capability.command ≢ ""))

module _ (p : Platform) (c : Config) (l : Lookups) (files : GoMap String) (bot_id : String) where
  resolve_known :
      (bot : Bot) (capability : AgentCapability) {spec : Spec}
      → l.bot_by_id bot_id ≡ got bot
      → l.capability_by_id bot.agent_capability_id ≡ got capability
      → (resolve p c l files bot_id).0 ≡ resolved spec
      → Runnable bot capability
        × (spec ≡ spec_of p c l bot_id bot capability)
        × ((spec.work_dir ≡ "")
            ⊎ (get (resolve p c l files bot_id).1 (p.join spec.work_dir (doc_file capability.key))
                ≡ (if is_blank bot.system_prompt then none else some bot.system_prompt)))
  unfolding resolve resolve_rows check_rows prepare_work_dir write_system_prompt_doc spec_of
  resolve_known bot capability b k h =
      let path = p.join (work_dir_of c bot_id bot) (doc_file capability.key) in
      ground (
        arith,
        eq_iff bot.agent_capability_id "",
        eq_iff bot.agent_mode "",
        eq_iff capability.command "",
        eq_iff (work_dir_of c bot_id bot) "",
        eq_refl path,
        get-put files path path bot.system_prompt,
        get-delete files path path,
      )

  -- what a specification tells of the rows that it is made of
  abbrev pub Specifies : Bot → AgentCapability → Spec → Type 0
  Specifies bot capability spec =
      (spec.bot_id ≡ bot_id)
      × (spec.bot_name ≡ bot.name)
      × (spec.type ≡ bot.agent_mode)
      × (spec.command ≢ "")
      × ((is_blank bot.cli_alias ≡ false) ⊎ (spec.command ≡ capability.command))
      × ((spec.orchestrator ≡ true) ↔ (bot.role ≡ role_orchestrator))

  spec_of-Specifies :
      (bot : Bot) (capability : AgentCapability)
      → Runnable bot capability
      → Specifies bot capability (spec_of p c l bot_id bot capability)
  unfolding spec_of is_blank
  spec_of-Specifies bot capability r = (
    refl,
    refl,
    refl,
    ground (arith, r.runs, eq_iff (trim_space bot.cli_alias) "", eq_iff capability.command ""),
    ground arith,
    eq_iff bot.role role_orchestrator,
  )

  -- the rows that a specification was resolved for
  abbrev pub ResolvedFor : Bot → AgentCapability → Spec → Type 0
  ResolvedFor bot capability spec =
      (l.bot_by_id bot_id ≡ got bot)
      × (l.capability_by_id bot.agent_capability_id ≡ got capability)
      × Runnable bot capability
      × Specifies bot capability spec
      × ((spec.work_dir ≡ "")
          ⊎ (get (resolve p c l files bot_id).1 (p.join spec.work_dir (doc_file capability.key))
              ≡ (if is_blank bot.system_prompt then none else some bot.system_prompt)))

  with_capability :
      {spec : Spec} (bot : Bot) (f : Fetched AgentCapability)
      → (resolve p c l files bot_id).0 ≡ resolved spec
      → l.bot_by_id bot_id ≡ got bot
      → l.capability_by_id bot.agent_capability_id ≡ f
      → (capability : AgentCapability) × ResolvedFor bot capability spec
  unfolding resolve
  with_capability bot (got capability) h b k =
      let (r, e, file) = resolve_known bot capability b k h in
      (capability, (b, k, r, rw e (spec_of-Specifies bot capability r), file))
  with_capability bot (missed not_found) h b k = ground arith
  with_capability bot (missed (failure m)) h b k = ground arith

  with_bot :
      {spec : Spec} (f : Fetched Bot)
      → (resolve p c l files bot_id).0 ≡ resolved spec
      → l.bot_by_id bot_id ≡ f
      → (bot : Bot) × ((capability : AgentCapability) × ResolvedFor bot capability spec)
  unfolding resolve
  with_bot (missed e) h b = ground arith
  with_bot (got bot) h b =
      (bot, with_capability bot (l.capability_by_id bot.agent_capability_id) h b refl)

  -- Where a specification is resolved, the rows of the bot and of its capability are there and runnable.
  -- It has the bot's id, name and mode, a command that is not empty, the capability's where the bot has
  -- no alias, and is orchestrating just for a bot of that role; the file of the system prompt in the
  -- working directory, if there is one, then holds the prompt, and is gone where the prompt is blank.
  pub resolve_lem :
      {spec : Spec}
      → (resolve p c l files bot_id).0 ≡ resolved spec
      → (bot : Bot) × ((capability : AgentCapability) × ResolvedFor bot capability spec)
  resolve_lem h = with_bot (l.bot_by_id bot_id) h refl

-- the last configuration under a name
abbrev pub last_config : String → List McpEntry → Option ServerConfig
last_config name [] = none
last_config name (e ∷ es) =
    let later = last_config name es in
    elim later [ some c ↦ some c | none ↦ if e.name == name then config_of e else none ]

fill_config_lem :
    (name : String) (es : List McpEntry) (m : GoMap ServerConfig)
    → get (fill_config es m) name
      ≡ elim (last_config name es) [ some c ↦ some c | none ↦ get m name ]
unfolding fill_config
fill_config_lem name [] m = refl
fill_config_lem name (e ∷ es) m = elim (Option-cases (config_of e)) [
  | inl n ↦ ground (arith, n, fill_config_lem name es m)
  | inr (c, s) ↦
      ground (arith, s, fill_config_lem name es (put m e.name c), get-put m e.name name c)
]

-- Of the servers of a bot that have one name the JSON of `--mcp-config` has the last; the server of
-- myclaw itself is the first of the entries, so that an attached server of its name replaces it.
pub mcp_config_last :
    (p : Platform) (c : Config) (l : Lookups) (bot_id name : String)
    → c.mcp_url ≢ ""
    → let m = fill_config (collect_mcp_servers p c l bot_id) GoMap.empty in
      get m name ≡ elim (last_config name (server_entries l.servers bot_id)) [
        | some cfg ↦ some cfg
        | none ↦
            if "myclaw" == name then some (http_config (p.with_bot_id c.mcp_url bot_id)) else none
      ]
unfolding collect_mcp_servers builtin_entry config_of
mcp_config_last p c l bot_id name h = ground (
  arith,
  eq_iff c.mcp_url "",
  fill_config_lem name (collect_mcp_servers p c l bot_id) GoMap.empty,
  get-empty {V = ServerConfig} name,
)
