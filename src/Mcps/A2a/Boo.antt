-- ===== src/Mcps/A2a/Boo.antt =====
-- The dispatch to a session of boo, a terminal: what it shows after the prompt and did not before.

use channel_plugin.Prelude.{
  ℕ, String, Bool, true, ◌||◌, Option, none, some, List, [], ◌∷◌, length, nat_eq, ltb,
  if◌then◌else◌,
}
use channel_plugin.Prelude.Int.{ℤ, pos, negsuc}
use channel_plugin.Mcps.Lines.{
  contains, count_lines, split_lines, join_lines, trim_right_spaces, last_code, drop,
}
use channel_plugin.Mcps.A2a.Defs.{BooRun, unavailable, exited}

pub data BooError : Type 0 where
  not_available : String → BooError
  not_running : BooError
  exit_status : ℤ → BooError

-- `booDispatchErr`
unfoldable pub boo_dispatch_err : ℤ → Option BooError
boo_dispatch_err (pos n) =
    if nat_eq n 0 || nat_eq n 4
    then none
    else if nat_eq n 3
    then some not_running
    else some (exit_status (pos n))
boo_dispatch_err (negsuc n) = some (exit_status (negsuc n))

pub data BooAnswer : Type 0 where
  output : String → BooAnswer
  boo_failed : BooError → BooAnswer

abbrev pub or_output : Option BooError → String → BooAnswer
or_output none out = output out
or_output (some e) out = boo_failed e

-- the output of a call, or the error that it stands for
unfoldable pub checked : BooRun → BooAnswer
checked (unavailable e) = boo_failed (not_available e)
checked (exited code out) = or_output (boo_dispatch_err code) out

-- Is a line blank, or does it end like the prompt of a shell?
abbrev pub is_prompt_code : Option ℕ → Bool
is_prompt_code none = true
is_prompt_code (some c) = nat_eq c b'$' || nat_eq c b'#' || nat_eq c b'%' || nat_eq c b'>'

unfoldable pub is_left_out : String → Bool
is_left_out line = is_prompt_code (last_code (trim_right_spaces line))

-- A line in front of those that stay is left out only where none stays.
unfoldable pub keep_before : String → List String → List String
keep_before l [] = if is_left_out l then [] else l ∷ []
keep_before l (m ∷ ms) = l ∷ m ∷ ms

-- The loop drops from the end: a line goes if it is left out and nothing behind it stays.
unfoldable pub trim_tail : List String → List String
trim_tail [] = []
trim_tail (l ∷ ls) = keep_before l (trim_tail ls)

-- the line that repeats the prompt
unfoldable pub trim_echo : String → List String → List String
trim_echo prompt [] = []
trim_echo prompt (l ∷ ls) = if contains l prompt then ls else l ∷ ls

unfoldable pub trim_delta : List String → String → String
trim_delta lines prompt = join_lines (trim_tail (trim_echo prompt lines))

abbrev pub at_most : ℕ → ℕ → ℕ
at_most n limit = if ltb limit n then limit else n

-- the lines of a text behind those that were there before
unfoldable pub delta_of : (before after : String) → List String
delta_of before after =
    let lines = split_lines after in drop (at_most (count_lines before) (length lines)) lines

infixl 5 ◌>>=◌
abbrev pub ◌>>=◌ :
    {W : Type 0} → (W → BooAnswer × W) → (String → W → BooAnswer × W) → W → BooAnswer × W
◌>>=◌ m f w =
    let (a, w') = m w in elim a [ output out ↦ f out w' | boo_failed e ↦ (boo_failed e, w') ]

module _ {W : Type 0} (run_boo : List String → W → BooRun × W) where
  unfoldable pub boo_call : List String → W → BooAnswer × W
  boo_call args w = let (out, w') = run_boo args w in (checked out, w')

  -- `booPeek`
  unfoldable pub boo_peek : String → W → BooAnswer × W
  boo_peek session = boo_call ("peek" ∷ session ∷ "--scrollback" ∷ [])

  -- `dispatchBoo`
  unfoldable pub dispatch_boo : (session prompt wait_timeout : String) → W → BooAnswer × W
  unfolding boo_peek boo_call
  dispatch_boo session prompt wait_timeout = do
    before ← boo_peek session
    _ ← boo_call ("send" ∷ session ∷ "--text" ∷ prompt ∷ "--enter" ∷ [])
    _ ← boo_call ("wait" ∷ session ∷ "--idle" ∷ "--timeout" ∷ wait_timeout ∷ [])
    after ← boo_peek session
    λ w. (output (trim_delta (delta_of before after) prompt), w)
