-- ===== src/Bot/Service/Relation.antt =====
-- The table of attachments as what it stands for: a relation of bots and servers, which forgets the
-- rows and their order. The four statements that write it implement four changes of the relation.
use channel_plugin.Prelude.{
  String, ◌≡◌, ◌≢◌, Bool, arith, ◌==◌, not, ◌&&◌, ◌||◌, if◌then◌else◌, eq_iff, List, [], ◌∷◌, ◌++◌,
  map, ◌⊎◌, is_some,
}
use channel_plugin.Domain.{McpServer}
use channel_plugin.Bot.Service.World.{World, Env, Action, ok, first, select}
use channel_plugin.Bot.Service.Servers.{attach, detach, replace_servers, delete_server, new_ids}
use channel_plugin.Bot.Service.Attached.{listed}

abbrev pub Relation : Type 0
Relation = String → String → Bool

abbrev pub has_row : List (String × String) → Relation
has_row rows b s = is_some (first (λ a. a.0 == b && a.1 == s) rows)

pub data Change : Type 0 where
  attaches detaches : (bot_id id : String) → Change
  replaces : (bot_id : String) (ids : List String) → Change
  removes : (id : String) → Change

-- what a change makes of a relation
abbrev pub changed : Change → Relation → Relation
changed (attaches bot_id id) rel b s = bot_id == b && id == s || rel b s
changed (detaches bot_id id) rel b s = not (bot_id == b && id == s) && rel b s
changed (replaces bot_id ids) rel b s =
    if bot_id == b then not (s == "") && listed s ids else rel b s
changed (removes id) rel b s = not (id == s) && rel b s

-- the statement that makes it
abbrev pub implementation : Env → (List McpServer → List McpServer) → Change → Action (Unit {0})
implementation env sorted (attaches bot_id id) = attach env sorted bot_id id
implementation env sorted (detaches bot_id id) = detach env sorted bot_id id
implementation env sorted (replaces bot_id ids) = replace_servers env sorted bot_id ids
implementation env sorted (removes id) = delete_server env sorted id

has_row-detached :
    (bot_id id b s : String) (rows : List (String × String))
    → has_row (select (λ a. not (a.0 == bot_id && a.1 == id)) rows) b s
      ≡ (not (bot_id == b && id == s) && has_row rows b s)
has_row-detached bot_id id b s [] = ground arith
has_row-detached bot_id id b s (r ∷ rows) = ground (
  arith,
  has_row-detached bot_id id b s rows,
  eq_iff r.0 bot_id,
  eq_iff r.1 id,
  eq_iff r.0 b,
  eq_iff r.1 s,
  eq_iff bot_id b,
  eq_iff id s,
)

has_row-removed :
    (id b s : String) (rows : List (String × String))
    → has_row (select (λ a. not (a.1 == id)) rows) b s ≡ (not (id == s) && has_row rows b s)
has_row-removed id b s [] = ground arith
has_row-removed id b s (r ∷ rows) =
    ground (arith, has_row-removed id b s rows, eq_iff r.1 id, eq_iff r.1 s, eq_iff id s)

has_row-others :
    (bot_id b s : String) (rows : List (String × String))
    → has_row (select (λ a. not (a.0 == bot_id)) rows) b s ≡ (not (bot_id == b) && has_row rows b s)
has_row-others bot_id b s [] = ground arith
has_row-others bot_id b s (r ∷ rows) =
    ground (arith, has_row-others bot_id b s rows, eq_iff r.0 bot_id, eq_iff r.0 b, eq_iff bot_id b)

has_row-prefixed :
    (bot_id b s : String) (ids : List String) (rows : List (String × String))
    → has_row (map (λ id. (bot_id, id)) ids ++ rows) b s
      ≡ (bot_id == b && listed s ids || has_row rows b s)
has_row-prefixed bot_id b s [] rows = ground arith
has_row-prefixed bot_id b s (id ∷ ids) rows = ground (arith, has_row-prefixed bot_id b s ids rows)

listed-new_ids :
    (s : String) (seen ids : List String)
    → listed s (new_ids seen ids) ≡ (not (s == "") && not (listed s seen) && listed s ids)
unfolding new_ids
listed-new_ids s seen [] = ground arith
listed-new_ids s seen (id ∷ ids) = ground (
  arith,
  listed-new_ids s seen ids,
  listed-new_ids s (id ∷ seen) ids,
  eq_iff id s,
  eq_iff id "",
  eq_iff s "",
)

-- Each statement that succeeds leaves the rows of the changed relation; one that fails leaves those of
-- the relation as it was.
pub attachments_refine :
    (env : Env) (sorted : List McpServer → List McpServer) (c : Change) (w : World) (b s : String)
    → let (r, w') = implementation env sorted c w in
      ((r ≡ ok tt) × (has_row w'.attached b s ≡ changed c (has_row w.attached) b s))
      ⊎ ((r ≢ ok tt) × (has_row w'.attached b s ≡ has_row w.attached b s))
unfolding attach detach replace_servers delete_server
attachments_refine env sorted (attaches bot_id id) w b s =
    ground (arith, eq_iff bot_id b, eq_iff id s)
attachments_refine env sorted (detaches bot_id id) w b s =
    ground (arith, has_row-detached bot_id id b s w.attached)
attachments_refine env sorted (replaces bot_id ids) w b s =
    let others = select (λ a. not (a.0 == bot_id)) w.attached in
    ground (
      arith,
      has_row-prefixed bot_id b s (new_ids [] ids) others,
      has_row-others bot_id b s w.attached,
      listed-new_ids s [] ids,
    )
attachments_refine env sorted (removes id) w b s = ground (arith, has_row-removed id b s w.attached)
