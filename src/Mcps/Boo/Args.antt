-- ===== src/Mcps/Boo/Args.antt =====
-- The inputs of the tools and the command lines that are built of them.
use channel_plugin.Prelude.{
  zero, suc, String, Bool, true, false, not, List, [], ◌∷◌, ◌++◌, ◌==◌, if◌then◌else◌,
}
use channel_plugin.Prelude.Int.{ℤ, pos, negsuc}
use channel_plugin.Agent.Session.Defs.{decimal}
use channel_plugin.Agent.Types.{bool_eq}

pub data ArgsError : Type 0 where
  name_required text_or_keys_required text_required bad_mode name_or_all_required : ArgsError

pub data Args : Type 0 where
  argv : List String → Args
  refused : ArgsError → Args

pub record NewInput : Type 0 where
  pub name : String
  pub command : List String
  pub rows : ℤ
  pub cols : ℤ
  pub cwd : String

pub record SendInput : Type 0 where
  pub name : String
  pub text : String
  pub enter : Bool
  pub keys : String

pub record PeekInput : Type 0 where
  pub name : String
  pub scrollback : Bool

pub record WaitInput : Type 0 where
  pub name : String
  pub mode : String
  pub text : String
  pub timeout : String

pub record KillInput : Type 0 where
  pub name : String
  pub all : Bool

unfoldable pub args_for_ls : Args
args_for_ls = argv ("ls" ∷ "--json" ∷ [])

-- an option with its value, where that is not empty
unfoldable pub option_of : String → String → List String
option_of option value = if value == "" then [] else option ∷ value ∷ []

-- an option with a number, where that is positive
unfoldable pub size_of : String → ℤ → List String
size_of option (pos zero) = []
size_of option (pos (suc n)) = option ∷ decimal (suc n) ∷ []
size_of option (negsuc n) = []

unfoldable pub command_of : List String → List String
command_of [] = []
command_of (c ∷ cs) = "--" ∷ c ∷ cs

unfoldable pub name_of : String → List String
name_of name = if name == "" then [] else name ∷ []

unfoldable pub args_for_new : NewInput → Args
args_for_new x = argv (
    "new"
    ∷ (name_of x.name
        ++ "-d"
          ∷ (size_of "--rows" x.rows
              ++ (size_of "--cols" x.cols ++ (option_of "--cwd" x.cwd ++ command_of x.command)))))

-- the arguments of a send, by whether it has a text and whether it has keys
unfoldable pub send_args : (has_text has_keys : Bool) → SendInput → Args
send_args true true x = refused text_or_keys_required
send_args true false x =
    argv ("send" ∷ x.name ∷ "--text" ∷ x.text ∷ (if x.enter then "--enter" ∷ [] else []))
send_args false true x = argv ("send" ∷ x.name ∷ "--key" ∷ x.keys ∷ [])
send_args false false x = refused text_or_keys_required

unfoldable pub args_for_send : SendInput → Args
args_for_send x =
    if x.name == ""
    then refused name_required
    else send_args (not (x.text == "")) (not (x.keys == "")) x

unfoldable pub args_for_peek : PeekInput → Args
args_for_peek x =
    if x.name == ""
    then refused name_required
    else argv ("peek" ∷ x.name ∷ "--json" ∷ (if x.scrollback then "--scrollback" ∷ [] else []))

unfoldable pub args_for_wait : WaitInput → Args
args_for_wait x =
    if x.name == ""
    then refused name_required
    else if x.mode == "text"
    then (if x.text == ""
        then refused text_required
        else argv ("wait" ∷ x.name ∷ "--text" ∷ x.text ∷ option_of "--timeout" x.timeout))
    else if x.mode == "idle"
    then argv ("wait" ∷ x.name ∷ "--idle" ∷ option_of "--timeout" x.timeout)
    else refused bad_mode

unfoldable pub args_for_kill : KillInput → Args
args_for_kill x =
    if bool_eq (not (x.name == "")) x.all
    then refused name_or_all_required
    else if x.all
    then argv ("kill" ∷ "--all" ∷ [])
    else argv ("kill" ∷ x.name ∷ [])
