-- ===== src/Mcps/A2a/Servers.antt =====
-- Which servers a configuration stands for, and which one has a name.
use channel_plugin.Prelude.{
  String, true, false, ◌||◌, Option, none, some, List, [], ◌∷◌, ◌++◌, ◌==◌, arith, eq_iff, eq_refl,
  ◌≡◌, ◌≢◌, refl, sym, ap, ◌∙◌, is_some, if◌then◌else◌, Bool-cases, inl, inr,
}
use channel_plugin.Mcps.A2a.Defs.{
  Source, ResolvedServer, BooRun, Files, has_name, add_server, add_servers, http_servers,
  boo_servers, resolve_sources,
}
use channel_plugin.Mcps.A2a.Dispatch.{find_server}

abbrev or_else : Option ResolvedServer → Option ResolvedServer → Option ResolvedServer
or_else none b = b
or_else (some s) b = some s

or_else-none : (a : Option ResolvedServer) → or_else a none ≡ a
or_else-none none = refl
or_else-none (some s) = refl

or_else_assoc : (a b c : Option ResolvedServer) → or_else (or_else a b) c ≡ or_else a (or_else b c)
or_else_assoc none b c = refl
or_else_assoc (some s) b c = refl

find_server-append :
    (name : String) (xs ys : List ResolvedServer)
    → find_server name (xs ++ ys) ≡ or_else (find_server name xs) (find_server name ys)
unfolding find_server
find_server-append name [] ys = refl
find_server-append name (x ∷ xs) ys = ground (arith, find_server-append name xs ys)

has_name-find :
    (name : String) (ss : List ResolvedServer) → has_name name ss ≡ is_some (find_server name ss)
unfolding find_server
has_name-find name [] = refl
has_name-find name (s ∷ ss) = ground (arith, has_name-find name ss)

-- a server as the only one of a list, if it has a name
abbrev named : String → ResolvedServer → Option ResolvedServer
named name s = if name == "" then none else find_server name (s ∷ [])

find-single :
    (name : String) (s : ResolvedServer)
    → find_server name (s ∷ []) ≡ (if s.name == name then some s else none)
unfolding find_server
find-single name s = refl

is_some-or_else : (a b : Option ResolvedServer) → is_some a ≡ true → or_else a b ≡ a
is_some-or_else none b h = cc
is_some-or_else (some s) b h = refl

find-add_server :
    (name : String) (out : List ResolvedServer) (s : ResolvedServer)
    → find_server name (add_server out s) ≡ or_else (find_server name out) (named name s)
unfolding add_server
find-add_server name out s = elim (Bool-cases (s.name == "" || has_name s.name out)) [
  | inl kept ↦ ground (
    arith,
    kept,
    find-single name s,
    has_name-find s.name out,
    or_else-none (find_server name out),
    is_some-or_else (find_server name out) (some s),
    eq_iff s.name "",
    eq_iff name "",
    eq_iff s.name name,
  )
  | inr new ↦ ground (
    arith,
    new,
    find-single name s,
    find_server-append name out (s ∷ []),
    or_else-none (find_server name out),
    eq_iff s.name "",
    eq_iff name "",
    eq_iff s.name name,
  )
]

named-or_else :
    (name : String) (s : ResolvedServer) (ss : List ResolvedServer)
    → or_else (named name s) (if name == "" then none else find_server name ss)
      ≡ (if name == "" then none else find_server name (s ∷ ss))
named-or_else name s ss = elim (Bool-cases (name == "")) [
  | inl e ↦ rw e refl
  | inr e ↦ rw e (sym (find_server-append name (s ∷ []) ss))
]

-- With the servers of a list added one after the other, the first of a name counts.
find-add_servers :
    (name : String) (out ss : List ResolvedServer)
    → find_server name (add_servers out ss)
      ≡ or_else (find_server name out) (if name == "" then none else find_server name ss)
unfolding add_servers find_server
find-add_servers name out [] = elim (Bool-cases (name == "")) [
  | inl e ↦ rw e (sym (or_else-none (find_server name out)))
  | inr e ↦ rw e (sym (or_else-none (find_server name out)))
]
find-add_servers name out (s ∷ ss) =
    let later : Option ResolvedServer = if name == "" then none else find_server name ss in
    find-add_servers name (add_server out s) ss
    ∙ ap (λ o. or_else o later) (find-add_server name out s)
    ∙ or_else_assoc (find_server name out) (named name s) later
    ∙ ap (or_else (find_server name out)) (named-or_else name s ss)

find-both :
    (name : String) (xs ys : List ResolvedServer)
    → find_server name (add_servers (add_servers [] xs) ys)
      ≡ (if name == "" then none else find_server name (xs ++ ys))
unfolding find_server
find-both name xs ys = elim (Bool-cases (name == "")) [
  | inl e ↦
      ground (arith, e, find-add_servers name (add_servers [] xs) ys, find-add_servers name [] xs)
  | inr e ↦ ground (
    arith,
    e,
    find-add_servers name (add_servers [] xs) ys,
    find-add_servers name [] xs,
    find_server-append name xs ys,
  )
]

module _ {W : Type 0} (files : Files) (run_boo : List String → W → BooRun × W) where
  -- The server of a name that a dispatch finds is the first one of that name among the http sources
  -- and then the sessions of the boo sources, in the order of the configuration; no server is found
  -- under an empty name.
  pub resolve_first_wins :
      (sources : List Source) (name : String) (w : W)
      → find_server name (resolve_sources files run_boo sources w).0 ≡ (
          if name == ""
          then none
          else find_server name (http_servers sources ++ (boo_servers files run_boo sources w).0))
  unfolding resolve_sources
  resolve_first_wins sources name w =
      find-both name (http_servers sources) (boo_servers files run_boo sources w).0

-- Is every name there, and none twice?
abbrev pub Distinct : List ResolvedServer → Type 0
Distinct [] = Unit
Distinct (s ∷ ss) = (s.name ≢ "") × (has_name s.name ss ≡ false) × Distinct ss

has_name-append :
    (name : String) (ss : List ResolvedServer) (s : ResolvedServer)
    → has_name name (ss ++ s ∷ []) ≡ (has_name name ss || s.name == name)
has_name-append name [] s = ground arith
has_name-append name (x ∷ ss) s = ground (arith, has_name-append name ss s)

append-Distinct :
    (ss : List ResolvedServer) (s : ResolvedServer)
    → s.name ≢ ""
    → has_name s.name ss ≡ false
    → Distinct ss
    → Distinct (ss ++ s ∷ [])
append-Distinct [] s full new d = (full, refl, tt)
append-Distinct (x ∷ ss) s full new (f, n, d) = (
  f,
  ground (arith, has_name-append x.name ss s, eq_iff s.name x.name, eq_refl x.name),
  append-Distinct ss s full (ground arith) d,
)

add_server-Distinct :
    (out : List ResolvedServer) (s : ResolvedServer) → Distinct out → Distinct (add_server out s)
unfolding add_server
add_server-Distinct out s d = elim (Bool-cases (s.name == "" || has_name s.name out)) [
  | inl kept ↦ rw kept d
  | inr new ↦
      rw new (append-Distinct out s (ground (arith, new, eq_iff s.name "")) (ground (arith, new)) d)
]

add_servers-Distinct : (out ss : List ResolvedServer) → Distinct out → Distinct (add_servers out ss)
unfolding add_servers
add_servers-Distinct out [] d = d
add_servers-Distinct out (s ∷ ss) d =
    add_servers-Distinct (add_server out s) ss (add_server-Distinct out s d)

module _ {W : Type 0} (files : Files) (run_boo : List String → W → BooRun × W) where
  -- Every server that `resolve` returns has a name, and no two have the same.
  pub resolve-Distinct :
      (sources : List Source) (w : W) → Distinct (resolve_sources files run_boo sources w).0
  unfolding resolve_sources
  resolve-Distinct sources w =
      add_servers-Distinct _ (boo_servers files run_boo sources w).0
        (add_servers-Distinct [] (http_servers sources) tt)
