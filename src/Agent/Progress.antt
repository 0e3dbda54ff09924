-- ===== src/Agent/Progress.antt =====
-- internal/agent/progress.go: the salient target of a tool call, cut to a length. A tool's input is the
-- list of its fields in key order, `none` for a value that is no text. A text is its runes.
use Prim.Native.String.{[], ◌∷◌}
use channel_plugin.Prelude.{
  ℕ, zero, suc, ◌≤◌, String, Option, none, some, List, arith, leb, ◌==◌, if◌then◌else◌,
}

abbrev pub max_target_len : ℕ
max_target_len = 60

-- the number of runes
unfoldable pub rune_count : String → ℕ
rune_count [] = 0
rune_count (c ∷ s) = suc (rune_count s)

-- the first `n` runes
unfoldable pub take_runes : ℕ → String → String
take_runes zero s = []
take_runes (suc n) [] = []
take_runes (suc n) (c ∷ s) = c ∷ take_runes n s

unfoldable pub truncate : String → ℕ → String
truncate s n = if leb (rune_count s) n then s else take_runes n s

target_key : String → Option String
target_key tool =
    if tool == "Bash"
    then some "command"
    else if tool == "Read"
    then some "file_path"
    else if tool == "Edit"
    then some "file_path"
    else if tool == "Write"
    then some "file_path"
    else if tool == "WebFetch"
    then some "url"
    else if tool == "WebSearch"
    then some "query"
    else if tool == "Grep"
    then some "pattern"
    else if tool == "Glob"
    then some "pattern"
    else if tool == "Task"
    then some "description"
    else none

-- the field of a key, "" where it is missing or no text
unfoldable pub field : String → List (String × Option String) → String
field key List.[] = ""
field key (List.◌∷◌ (k, v) fields) =
    if k == key then (elim v [ none ↦ "" | some t ↦ t ]) else field key fields

-- the first field that is a text and not empty
first_text : List (String × Option String) → String
first_text List.[] = ""
first_text (List.◌∷◌ (k, none) fields) = first_text fields
first_text (List.◌∷◌ (k, some t) fields) =
    let rest = first_text fields in if t == "" then rest else t

-- the field that the tool's key names, or the first text
pick_target : Option String → List (String × Option String) → String
unfolding field first_text truncate
pick_target (some key) input = truncate (field key input) max_target_len
pick_target none input = truncate (first_text input) max_target_len

-- `TargetFromInput`
unfoldable pub target_from_input : String → List (String × Option String) → String
unfolding target_key pick_target
target_from_input tool input = pick_target (target_key tool) input

rune_count-take_runes : (n : ℕ) (s : String) → rune_count (take_runes n s) ≤ n
unfolding rune_count take_runes
rune_count-take_runes zero s = omega arith
rune_count-take_runes (suc n) [] = omega arith
rune_count-take_runes (suc n) (c ∷ s) = omega (arith, rune_count-take_runes n s)

truncate_le : (s : String) (n : ℕ) → rune_count (truncate s n) ≤ n
unfolding truncate
truncate_le s n = ground (arith, rune_count-take_runes n s)

pick_target_le :
    (key : Option String) (input : List (String × Option String))
    → rune_count (pick_target key input) ≤ max_target_len
unfolding pick_target
pick_target_le (some key) input = truncate_le (field key input) max_target_len
pick_target_le none input = truncate_le (first_text input) max_target_len

-- A target has at most 60 runes, whatever the tool and its input.
pub target_bounded :
    (tool : String) (input : List (String × Option String))
    → rune_count (target_from_input tool input) ≤ max_target_len
unfolding target_from_input
target_bounded tool input = pick_target_le (target_key tool) input
