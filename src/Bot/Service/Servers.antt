-- ===== src/Bot/Service/Servers.antt =====
-- internal/store/repositories/mcp_server_repository.go and internal/app/mcpserver/service.go. The
-- arguments of a server, which the table keeps as JSON, are a list here.
use channel_plugin.Prelude.{
  String, Bool, true, not, none, some, List, [], ◌∷◌, ◌++◌, map, ◌==◌, ◌&&◌, ◌||◌, if◌then◌else◌,
  is_some,
}
use channel_plugin.Prelude.Text.{trim_space, is_blank}
use channel_plugin.Domain.{McpServer, not_found, failure}
use channel_plugin.Bot.Service.World.{
  World, Env, Action, ◌>>=◌, ◌>>◌, pure, raise_if, gets, invalid_arg, Result, ok, err, store, other,
  on_result, found, unique, first, select, statement,
}
use channel_plugin.Bot.Service.Bots

-- the ids that are neither empty nor in `seen`, each once
unfoldable pub new_ids : List String → List String → List String
new_ids seen [] = []
new_ids seen (id ∷ ids) =
    let skipped = new_ids seen ids in
    let taken = new_ids (id ∷ seen) ids in
    if id == "" || is_some (first (λ s. s == id) seen) then skipped else id ∷ taken

-- the servers of `JOIN ... WHERE bot_id`
abbrev pub joined : String → World → List McpServer
joined bot_id w =
    select (λ s. is_some (first (λ a. a.0 == bot_id && a.1 == s.id) w.attached)) w.servers

-- The duplicate check of `Create`: the name is free if the row is not found.
unfoldable pub taken_or_free : Result McpServer → Result (Unit {0})
taken_or_free (ok s) = err invalid_arg
taken_or_free (err (store not_found)) = ok tt
taken_or_free (err (store (failure e))) = err (store (failure e))
taken_or_free (err invalid_arg) = err invalid_arg
taken_or_free (err (other e)) = err (other e)

-- In `SetBotServers` a server that is not there is `ErrInvalidArg`.
unfoldable pub known : Result McpServer → Result (Unit {0})
known (ok s) = ok tt
known (err (store not_found)) = err invalid_arg
known (err (store (failure e))) = err (store (failure e))
known (err invalid_arg) = err invalid_arg
known (err (other e)) = err (other e)

-- `sorted` is the order of the database, `name asc`.
module _ (env : Env) (sorted : List McpServer → List McpServer) where
  -- The unique indexes are on the id and on the name.
  unfoldable pub insert_server : McpServer → Action McpServer
  insert_server s = statement env (λ w.
      elim (first (λ o. o.id == s.id || o.name == s.name) w.servers) [
        | none ↦ (ok s, record w { servers = s ∷ w.servers })
        | some old ↦ (err (store unique), w)
      ])

  unfoldable pub server_by_id : String → Action McpServer
  server_by_id id = statement env (λ w. (found (first (λ s. s.id == id) w.servers), w))

  unfoldable pub server_by_name : String → Action McpServer
  server_by_name name = statement env (λ w. (found (first (λ s. s.name == name) w.servers), w))

  unfoldable pub update_server : McpServer → Action McpServer
  update_server s = do
    statement env {A = Unit {0}} (λ w.
        elim (first (λ o. not (o.id == s.id) && o.name == s.name) w.servers) [
          | some o ↦ (err (store unique), w)
          | none ↦
              (ok tt, record w { servers = map (λ o. if o.id == s.id then s else o) w.servers })
        ])
    server_by_id s.id

  -- one transaction
  unfoldable pub delete_server : String → Action (Unit {0})
  delete_server id = statement env (λ w. elim (first (λ s. s.id == id) w.servers) [
    | none ↦ (err (store not_found), w)
    | some old ↦ (
      ok tt,
      record w {
        servers = select (λ s. not (s.id == id)) w.servers;
        attached = select (λ a. not (a.1 == id)) w.attached;
      },
    )
  ])

  unfoldable pub list_by_bot : String → Action (List McpServer)
  list_by_bot bot_id = statement env (λ w. (ok (sorted (joined bot_id w)), w))

  -- `ON CONFLICT DO NOTHING`
  unfoldable pub attach : String → String → Action (Unit {0})
  attach bot_id id = statement env (λ w. elim (first (λ a. a.0 == bot_id && a.1 == id) w.attached) [
    | some old ↦ (ok tt, w)
    | none ↦ (ok tt, record w { attached = (bot_id, id) ∷ w.attached })
  ])

  unfoldable pub detach : String → String → Action (Unit {0})
  detach bot_id id = statement env (λ w.
      (ok tt, record w { attached = select (λ a. not (a.0 == bot_id && a.1 == id)) w.attached }))

  -- one transaction
  unfoldable pub replace_servers : String → List String → Action (Unit {0})
  replace_servers bot_id ids = statement env (λ w. (
    ok tt,
    record w {
      attached =
          map (λ id. (bot_id, id)) (new_ids [] ids) ++ select (λ a. not (a.0 == bot_id)) w.attached;
    },
  ))

  -- `Create` of the service
  unfoldable pub create_server : String → String → String → String → List String → Action McpServer
  create_server name server_type url command args =
      let name' = trim_space name in
      let type = trim_space server_type in
      let type' = if type == "" then "http" else type in
      do
        raise_if (name' == "") invalid_arg
        raise_if (not (type' == "http") && not (type' == "stdio")) invalid_arg
        raise_if (type' == "http" && is_blank url) invalid_arg
        raise_if (type' == "stdio" && is_blank command) invalid_arg
        on_result taken_or_free (server_by_name name')
        id ← gets (λ w. env.new_id "mcp" w.calls)
        insert_server (record {
          id = id;
          name = name';
          server_type = type';
          url = trim_space url;
          command = trim_space command;
          args = args;
          enabled = true;
        })

  -- `Remove`
  unfoldable pub remove_server : String → Action (Unit {0})
  remove_server name = do s ← server_by_name (trim_space name); delete_server s.id

  -- `SetEnabled`
  unfoldable pub set_enabled : String → Bool → Action McpServer
  set_enabled name enabled = do
    s ← server_by_name (trim_space name)
    update_server (record s { enabled = enabled })

  -- `requireBot`: a missing bot stays `ErrNotFound`.
  unfoldable pub require_bot : String → Action (Unit {0})
  require_bot bot_id = do Bots.get_by_id env bot_id; pure tt

  -- `AttachToBot`
  unfoldable pub attach_to_bot : String → String → Action (Unit {0})
  attach_to_bot bot_id name = do
    require_bot bot_id
    s ← server_by_name (trim_space name)
    attach bot_id s.id

  -- `DetachFromBot`
  unfoldable pub detach_from_bot : String → String → Action (Unit {0})
  detach_from_bot bot_id name = do
    require_bot bot_id
    s ← server_by_name (trim_space name)
    detach bot_id s.id

  -- the loop of `SetBotServers`
  unfoldable pub all_known : List String → Action (Unit {0})
  all_known [] = pure tt
  all_known (id ∷ ids) = let rest = all_known ids in do on_result known (server_by_id id); rest

  -- `SetBotServers`
  unfoldable pub set_bot_servers : String → List String → Action (Unit {0})
  set_bot_servers bot_id ids = do require_bot bot_id; all_known ids; replace_servers bot_id ids
