-- ===== src/Mcps/A2a/Defs.antt =====
-- The sources, the sessions of boo, and the servers that `resolve` makes of them.
use Prim.Native.String
use mathlib.Core.Option
use channel_plugin.Prelude.{
  ℕ, zero, suc, String, Bool, false, not, ◌||◌, Option, none, some, List, [], ◌∷◌, ◌++◌, map, ◌==◌,
  if◌then◌else◌,
}
use channel_plugin.Prelude.Int.{ℤ, pos, negsuc}
use channel_plugin.Prelude.Text.{trim_space, is_blank}

abbrev pub kind_http : String
kind_http = "http"

abbrev pub kind_boo : String
kind_boo = "boo"

pub record Source : Type 0 where
  pub kind : String
  pub name : String
  pub description : String
  pub endpoint : String
  pub auth_token : String
  pub wait_timeout : String

-- `Source.kind`
unfoldable pub source_kind : Source → String
source_kind s = if s.kind == "" then kind_http else s.kind

pub record ResolvedServer : Type 0 where
  pub name : String
  pub description : String
  pub kind : String
  pub endpoint : String
  pub auth_token : String
  pub session : String
  pub wait_timeout : String

-- what `runBoo` returns: an error, or the exit code and the output
pub data BooRun : Type 0 where
  unavailable : String → BooRun
  exited : ℤ → (stdout : String) → BooRun

pub record BooSession : Type 0 where
  pub name : String
  pub title : String
  pub idle_ms : ℕ

-- The files by their paths, the decoders of JSON, and `filepath.Join`. The capabilities of a directory
-- are a description and skills.
pub record Files : Type 0 where
  pub read_file : String → Option String
  pub join : String → String → String
  pub config_dir : String
  pub decode_sessions : String → Option (List BooSession)
  pub decode_capabilities : String → Option (String × List String)

-- `booConfigDir`, by the environment and the home directory, if that is known
unfoldable pub boo_config_dir :
    (get_env : String → String) (dir : String → String) (join : String → String → String)
    → Option String
    → String
boo_config_dir get_env dir join home =
    if not (get_env "BOO_CONFIG" == "")
    then dir (get_env "BOO_CONFIG")
    else if not (get_env "XDG_CONFIG_HOME" == "")
    then join (get_env "XDG_CONFIG_HOME") "boo"
    else elim home [ none ↦ ".config/boo" | some h ↦ join (join h ".config") "boo" ]

-- `loadSources`: no path is no sources, and what cannot be read or decoded is an error, `none`.
unfoldable pub load_sources :
    (read_file : String → Option String) (decode : String → Option (List Source))
    → String
    → Option (List Source)
load_sources read_file decode path =
    if path == "" then some [] else elim (read_file path) [ none ↦ none | some text ↦ decode text ]

-- `strings.Join(skills, ", ")`
unfoldable pub join_skills : List String → String
join_skills [] = ""
join_skills (s ∷ []) = s
join_skills (s ∷ t ∷ ss) = String.◌++◌ s (String.◌++◌ ", " (join_skills (t ∷ ss)))

-- a description with the skills behind it
unfoldable pub describe : String → List String → String
describe description [] = description
describe description (s ∷ ss) =
    String.◌++◌ (if description == "" then "" else String.◌++◌ description " ")
      (String.◌++◌ "[skills: " (String.◌++◌ (join_skills (s ∷ ss)) "]"))

abbrev pub unless_empty : String → Option String
unless_empty s = if s == "" then none else some s

module _ (files : Files) where
  -- `booSessionCwd`
  unfoldable pub boo_session_cwd : String → Option String
  boo_session_cwd session =
      elim (files.read_file (files.join files.config_dir (String.◌++◌ session ".state"))) [
        | none ↦ none
        | some text ↦ unless_empty (trim_space text)
      ]

  -- `booCapabilitiesDescription`
  unfoldable pub boo_capabilities_description : String → Option String
  boo_capabilities_description cwd =
      elim (files.read_file (files.join cwd "boo.capabilities.json")) [
        | none ↦ none
        | some text ↦ elim (files.decode_capabilities text) [
          | none ↦ none
          | some (description, skills) ↦ unless_empty (describe (trim_space description) skills)
        ]
      ]

  -- the capability in the directory of a session
  unfoldable pub capability_of : String → Option String
  capability_of session = elim (boo_session_cwd session) [
    | none ↦ none
    | some cwd ↦ boo_capabilities_description cwd
  ]

-- the entries of `SessionDetail`
pub record SessionDetail : Type 0 where
  pub name : String
  pub title : String
  pub idle_ms : ℕ
  pub cwd : String
  pub capability : String

abbrev pub or_empty : Option String → String
or_empty none = ""
or_empty (some s) = s

unfoldable pub enrich_session : Files → BooSession → SessionDetail
enrich_session files s = record {
  name = s.name;
  title = s.title;
  idle_ms = s.idle_ms;
  cwd = or_empty (boo_session_cwd files s.name);
  capability = or_empty (capability_of files s.name);
}

-- the output of a call of boo that did not fail
unfoldable pub succeeded : BooRun → Option String
succeeded (unavailable e) = none
succeeded (exited (pos zero) stdout) = some stdout
succeeded (exited (pos (suc n)) stdout) = none
succeeded (exited (negsuc n) stdout) = none

abbrev pub or_no_sessions : Option (List BooSession) → List BooSession
or_no_sessions none = []
or_no_sessions (some ss) = ss

-- `booRoster` after its call
unfoldable pub roster_of : Files → BooRun → List BooSession
roster_of files out = elim (succeeded out) [
  | none ↦ []
  | some stdout ↦ or_no_sessions (files.decode_sessions stdout)
]

-- the sessions that `resolve` takes from a call; blank output is none
unfoldable pub listed : Files → BooRun → List BooSession
listed files out = elim (succeeded out) [
  | none ↦ []
  | some stdout ↦ if is_blank stdout then [] else or_no_sessions (files.decode_sessions stdout)
]

abbrev pub has_name : String → List ResolvedServer → Bool
has_name name [] = false
has_name name (s ∷ ss) = let later = has_name name ss in s.name == name || later

-- The function `add` of `resolve`; `seen` holds the names of what it added.
unfoldable pub add_server : List ResolvedServer → ResolvedServer → List ResolvedServer
add_server out s = if s.name == "" || has_name s.name out then out else out ++ s ∷ []

unfoldable pub add_servers : List ResolvedServer → List ResolvedServer → List ResolvedServer
add_servers out [] = out
add_servers out (s ∷ ss) = add_servers (add_server out s) ss

unfoldable pub http_server : Source → ResolvedServer
http_server s = record {
  name = s.name;
  description = s.description;
  kind = kind_http;
  endpoint = s.endpoint;
  auth_token = s.auth_token;
  session = "";
  wait_timeout = "";
}

-- the loop of `resolve` over the sources that are http
unfoldable pub http_servers : List Source → List ResolvedServer
http_servers [] = []
http_servers (s ∷ ss) =
    let later = http_servers ss in
    if source_kind s == kind_http then http_server s ∷ later else later

unfoldable pub wait_of : Source → String
wait_of s = if s.wait_timeout == "" then "60s" else s.wait_timeout

unfoldable pub boo_server : Files → Source → BooSession → ResolvedServer
boo_server files source s = record {
  name = s.name;
  description = elim (capability_of files s.name) [ none ↦ s.title | some cap ↦ cap ];
  kind = kind_boo;
  endpoint = "";
  auth_token = "";
  session = s.name;
  wait_timeout = wait_of source;
}

unfoldable pub find_detail : String → List BooSession → Option BooSession
find_detail name [] = none
find_detail name (s ∷ ss) =
    let later = find_detail name ss in if s.name == name then some s else later

module _ {W : Type 0} (files : Files) (run_boo : List String → W → BooRun × W) where
  -- `booRoster`
  unfoldable pub boo_roster : W → List BooSession × W
  boo_roster w = let (out, w') = run_boo ("ls" ∷ "--json" ∷ []) w in (roster_of files out, w')

  unfoldable pub boo_roster_detailed : W → List SessionDetail × W
  boo_roster_detailed w =
      let (sessions, w') = boo_roster w in (map (enrich_session files) sessions, w')

  unfoldable pub boo_session_detail : String → W → Option SessionDetail × W
  boo_session_detail name w =
      let (sessions, w') = boo_roster w in
      (Option.map (enrich_session files) (find_detail name sessions), w')

  -- The loop of `resolve` over the sources that are boo. What it adds in the end it adds one after the
  -- other, and the calls do not depend on that.
  unfoldable pub boo_servers : List Source → W → List ResolvedServer × W
  boo_servers [] w = ([], w)
  boo_servers (s ∷ ss) w =
      let rest : List ResolvedServer × W = boo_servers ss w in
      let called : List ResolvedServer × W =
        (let (out, w1) = run_boo ("ls" ∷ "--json" ∷ []) w in
          let (later, w2) = boo_servers ss w1 in
          (map (boo_server files s) (listed files out) ++ later, w2)) in
      if source_kind s == kind_boo then called else rest

  -- `resolve`
  unfoldable pub resolve_sources : List Source → W → List ResolvedServer × W
  resolve_sources sources w =
      let (boo, w') = boo_servers sources w in
      (add_servers (add_servers [] (http_servers sources)) boo, w')

-- an entry of `a2a_list`
pub record ServerView : Type 0 where
  pub name : String
  pub description : String
  pub endpoint : String
  pub kind : String

unfoldable pub run_list : List ResolvedServer → List ServerView
run_list [] = []
run_list (s ∷ ss) =
    record { name = s.name; description = s.description; endpoint = s.endpoint; kind = s.kind }
    ∷ run_list ss
