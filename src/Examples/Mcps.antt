-- ===== src/Examples/Mcps.antt =====
-- The tools over boo and A2A on concrete sources and sessions.
use Prim.Native.String
use channel_plugin.Prelude.{
  ℕ, zero, suc, String, true, false, none, some, List, [], ◌∷◌, ◌++◌, ◌≡◌, refl, if◌then◌else◌,
}
use channel_plugin.Prelude.Int.{pos}
use channel_plugin.Mcps.Lines.{last_line, split_lines}
use channel_plugin.Mcps.A2a.Defs.{
  Source, BooRun, exited, Files, http_servers, boo_servers, resolve_sources,
}
use channel_plugin.Mcps.A2a.Boo.{output, boo_dispatch_err, dispatch_boo, trim_delta}
use channel_plugin.Mcps.A2a.Dispatch.{find_server}
use channel_plugin.Mcps.A2a.Servers.{resolve_first_wins}
use channel_plugin.Mcps.A2a.Terminal.{dispatch_boo_lem}

-- files of which none is there, and a decoder that finds one session
abbrev files : Files
files = record {
  read_file = λ p. none;
  join = λ a b. String.◌++◌ a (String.◌++◌ "/" b);
  config_dir = "/c";
  decode_sessions = λ s. some (record { name = "dev"; title = "a shell"; idle_ms = 5 } ∷ []);
  decode_capabilities = λ s. none;
}

-- a terminal whose world is the number of calls so far
abbrev terminal : List String → ℕ → BooRun × ℕ
terminal args n = (
  exited (pos 0) (if (elim n [ zero ↦ true | suc _ ↦ false ]) then "$ " else "$ ls\nfile\n$ "),
  suc n,
)

abbrev an_http : Source
an_http = record {
  kind = "";
  name = "dev";
  description = "an agent";
  endpoint = "http://localhost:1";
  auth_token = "";
  wait_timeout = "";
}

abbrev sources : List Source
sources = record an_http { kind = "boo" } ∷ an_http ∷ []

resolve_first_wins_example :
    find_server "dev" (resolve_sources files terminal sources 0).0
    ≡ find_server "dev" (http_servers sources ++ (boo_servers files terminal sources 0).0)
resolve_first_wins_example = resolve_first_wins files terminal sources "dev" 0

dispatch_boo_lem_example :
    dispatch_boo terminal "dev" "ls" "60s" 0
    ≡ (output (trim_delta (split_lines (String.◌++◌ (last_line "$ ") "ls\nfile\n$ ")) "ls"), 4)
dispatch_boo_lem_example =
    dispatch_boo_lem terminal "dev" "ls" "60s" "$ " "ls\nfile\n$ " "$ ls\nfile\n$ " "$ ls\nfile\n$ "
      (pos 0) 0 1 2 3 4 refl refl refl (unfold boo_dispatch_err in refl) refl
