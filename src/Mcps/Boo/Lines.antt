-- ===== src/Mcps/Boo/Lines.antt =====
-- What the command lines and the answers of the tools tell of their inputs and of boo's exit code.
use channel_plugin.Prelude.{
  String, Bool, true, false, not, ◌&&◌, Option, none, some, List, [], ◌∷◌, ◌==◌, arith, eq_iff, ◌≡◌,
  ◌≢◌, ◌↔◌, refl, if◌then◌else◌, Bool-cases, inl, inr,
}
use channel_plugin.Prelude.Int.{pos, negsuc}
use channel_plugin.Agent.Types.{bool_eq}
use channel_plugin.Mcps.Boo.Args.{
  Args, argv, refused, SendInput, WaitInput, KillInput, send_args, args_for_send, args_for_wait,
  args_for_kill,
}
use channel_plugin.Mcps.Boo.Tools.{
  Ran, not_run, ran, answer, boo_error, run_tool, wait_end, run_wait,
}

-- the request to kill every session
abbrev pub kill_all : KillInput
kill_all = record { name = ""; all = true }

-- The command line for killing one session is that for killing every session just where the session's
-- name is `--all`.
pub kill_named_iff :
    (x : KillInput)
    → x.all ≡ false
    → x.name ≢ ""
    → (args_for_kill x ≡ args_for_kill kill_all) ↔ (x.name ≡ "--all")
unfolding args_for_kill bool_eq
kill_named_iff x a n =
    (λ h. ground (arith, eq_iff x.name ""), λ h. ground (arith, eq_iff x.name ""))

-- the input of a command line for `send`
abbrev pub read_send : List String → Option SendInput
read_send (_ ∷ name ∷ option ∷ value ∷ rest) = some (record {
  name = name;
  text = if option == "--text" then value else "";
  enter = elim rest [ [] ↦ false | _ ∷ _ ↦ true ];
  keys = if option == "--text" then "" else value;
})
read_send _ = none

read-send_args :
    (t k : Bool) (x : SendInput) (args : List String)
    → not (x.text == "") ≡ t
    → not (x.keys == "") ≡ k
    → send_args t k x ≡ argv args
    → read_send args ≡ some (record x { enter = x.enter && t })
unfolding send_args
read-send_args true true x args et ek h = cc
read-send_args true false x args et ek h = elim (Bool-cases x.enter) [
  | inl e ↦ ground (arith, e, eq_iff x.keys "")
  | inr e ↦ ground (arith, e, eq_iff x.keys "")
]
read-send_args false true x args et ek h = ground (arith, eq_iff x.text "")
read-send_args false false x args et ek h = cc

-- A command line for `send` tells the whole input again, but that `enter` is lost where keys are sent.
pub read-args_for_send :
    (x : SendInput) (args : List String)
    → args_for_send x ≡ argv args
    → read_send args ≡ some (record x { enter = x.enter && not (x.text == "") })
unfolding args_for_send
read-args_for_send x args h = elim (Bool-cases (x.name == "")) [
  | inl e ↦ ground (arith, e)
  | inr e ↦ read-send_args (not (x.text == "")) (not (x.keys == "")) x args refl refl (rw e at h)
]

false_of_timeout :
    (name : String) (r : Ran)
    → wait_end name r ≡ answer false
    → (stdout : String) × (stderr : String) × (r ≡ ran (pos 4) stdout stderr)
unfolding wait_end boo_error
false_of_timeout name (not_run e) h = cc
false_of_timeout name (ran (pos n) stdout stderr) h = (stdout, stderr, ground arith)
false_of_timeout name (ran (negsuc n) stdout stderr) h = cc

module _ {W : Type 0} (run_boo : List String → W → Ran × W) where
  abbrev pub TimedOut : WaitInput → W → Type 0
  TimedOut x w =
      (args : List String) × (stdout : String) × (stderr : String) × (args_for_wait x ≡ argv args)
      × ((run_boo args w).0 ≡ ran (pos 4) stdout stderr)

  timed_out :
      (a : Args) (x : WaitInput) (w : W)
      → args_for_wait x ≡ a
      → (run_tool run_boo a (wait_end x.name) w).0 ≡ answer false
      → TimedOut x w
  unfolding run_tool
  timed_out (argv args) x w e h =
      let (out, err, r) = false_of_timeout x.name (run_boo args w).0 h in (args, out, err, e, r)
  timed_out (refused why) x w e h = cc

  -- `Wait` answers that nothing matched just where boo has run for it and its exit code is 4.
  pub run_wait-TimedOut :
      (x : WaitInput) (w : W) → ((run_wait run_boo x w).0 ≡ answer false) ↔ TimedOut x w
  unfolding run_wait run_tool wait_end
  run_wait-TimedOut x w =
      (timed_out (args_for_wait x) x w refl, λ (args, out, err, a, r). rw (a, r) refl)
