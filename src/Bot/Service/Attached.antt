-- ===== src/Bot/Service/Attached.antt =====
-- `SetBotServers` of internal/app/mcpserver and its transaction: which servers a bot has afterwards.
use channel_plugin.Prelude.{
  ℕ, suc, String, ◌≡◌, ◌≢◌, refl, ap, Bool, arith, ◌==◌, not, if◌then◌else◌, eq_iff, List, [], ◌∷◌,
  ◌++◌, map, ◌||◌, ◌⊎◌, inl, inr, is_some,
}
use channel_plugin.Domain.{McpServer}
use channel_plugin.Bot.Service.World.{World, Env, ok, first, select, Result-cases}
use channel_plugin.Bot.Service.Bots
use channel_plugin.Bot.Service.Servers.{
  set_bot_servers, require_bot, all_known, replace_servers, known, server_by_id, new_ids,
}

-- the servers of the table of attachments for a bot
abbrev pub attached_to : String → List (String × String) → List String
attached_to bot_id rows = map (λ a. a.1) (select (λ a. a.0 == bot_id) rows)

pub attached_to-prefixed :
    (bot_id other : String) (ids : List String) (rows : List (String × String))
    → attached_to other (map (λ id. (bot_id, id)) ids ++ rows)
      ≡ (if bot_id == other then ids ++ attached_to other rows else attached_to other rows)
attached_to-prefixed bot_id other [] rows = ground arith
attached_to-prefixed bot_id other (id ∷ ids) rows =
    ground (arith, attached_to-prefixed bot_id other ids rows)

pub attached_to-others :
    (bot_id other : String) (rows : List (String × String))
    → attached_to other (select (λ a. not (a.0 == bot_id)) rows)
      ≡ (if bot_id == other then [] else attached_to other rows)
attached_to-others bot_id other [] = ground arith
attached_to-others bot_id other (r ∷ rows) = ground (
  arith,
  attached_to-others bot_id other rows,
  eq_iff r.0 bot_id,
  eq_iff r.0 other,
  eq_iff bot_id other,
)

-- how often a text stands in a list
abbrev pub times : String → List String → ℕ
times x [] = 0
times x (y ∷ ys) = let n = times x ys in if y == x then suc n else n

abbrev pub listed : String → List String → Bool
listed x ids = is_some (first (λ id. id == x) ids)

times-new_ids :
    (x : String) (seen ids : List String)
    → times x (new_ids seen ids)
      ≡ (if x == "" || listed x seen then 0 else if listed x ids then 1 else 0)
unfolding new_ids
times-new_ids x seen [] = ground arith
times-new_ids x seen (id ∷ ids) = ground (
  arith,
  times-new_ids x seen ids,
  times-new_ids x (id ∷ seen) ids,
  eq_iff id x,
  eq_iff id "",
  eq_iff x "",
)

append_nil {ℓ} : {A : Type ℓ} (xs : List A) → xs ++ [] ≡ xs
append_nil [] = refl
append_nil (x ∷ xs) = ap (λ t. x ∷ t) (append_nil xs)

-- the table that the transaction of `SetBotServers` leaves
times-replaced :
    (bot_id : String) (ids : List String) (rows : List (String × String)) (other x : String)
    → times x (
        attached_to other
          (map (λ id. (bot_id, id)) (new_ids [] ids) ++ select (λ a. not (a.0 == bot_id)) rows))
      ≡ (if bot_id == other
          then if x == "" then 0 else if listed x ids then 1 else 0
          else times x (attached_to other rows))
times-replaced bot_id ids rows other x = ground (
  arith,
  attached_to-prefixed bot_id other (new_ids [] ids) (select (λ a. not (a.0 == bot_id)) rows),
  attached_to-others bot_id other rows,
  append_nil (new_ids [] ids),
  times-new_ids x [] ids,
)

module _ (env : Env) (sorted : List McpServer → List McpServer) where
  all_known_keeps :
      (ids : List String) (w : World)
      → ((all_known env sorted ids w).1.bots ≡ w.bots)
        × ((all_known env sorted ids w).1.attached ≡ w.attached)
  unfolding all_known server_by_id
  all_known_keeps [] w = ground arith
  all_known_keeps (id ∷ ids) w = elim (Result-cases (known (server_by_id env sorted id w).0)) [
    | inl (u, e) ↦ ground (arith, e, all_known_keeps ids (server_by_id env sorted id w).1)
    | inr (f, e) ↦ ground (arith, e)
  ]

  -- `SetBotServers` keeps the table of bots. One that fails keeps the attachments. After one that
  -- succeeds the bot has each given id that is not empty once and no other, and another bot has
  -- what it had.
  pub set_bot_servers_lem :
      (bot_id : String) (ids : List String) (w : World) (other x : String)
      → let (r, w') = set_bot_servers env sorted bot_id ids w in
        (w'.bots ≡ w.bots)
        × (((r ≡ ok tt)
              × (times x (attached_to other w'.attached) ≡ (
                  if bot_id == other
                  then if x == "" then 0 else if listed x ids then 1 else 0
                  else times x (attached_to other w.attached))))
            ⊎ ((r ≢ ok tt) × (w'.attached ≡ w.attached)))
  unfolding set_bot_servers require_bot replace_servers Bots.get_by_id
  set_bot_servers_lem bot_id ids w other x =
      let w1 = (require_bot env sorted bot_id w).1 in
      let w2 = (all_known env sorted ids w1).1 in
      ground (arith, all_known_keeps ids w1, times-replaced bot_id ids w2.attached other x)
