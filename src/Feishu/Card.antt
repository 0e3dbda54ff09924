-- ===== src/Feishu/Card.antt =====
-- The text of the card. Its JSON around it is a parameter of those that send it.
use Prim.Native.String
use Prim.Native.Nat.{◌-◌}
use channel_plugin.Prelude.{
  ℕ, zero, suc, ◌+◌, ◌≤◌, String, List, [], ◌∷◌, ◌++◌, map, length, arith, ltb, ◌==◌, ◌≡◌, refl,
  if◌then◌else◌, Bool-cases, inl, inr,
}
use channel_plugin.Prelude.Text.{is_blank}
use channel_plugin.Agent.Session.Defs.{decimal}

-- `maxTraceLines`
abbrev pub max_trace_lines : ℕ
max_trace_lines = 25

pub record TraceStep : Type 0 where
  pub tool : String
  pub target : String

-- `elapsed` is in seconds.
pub record TraceState : Type 0 where
  pub steps : List TraceStep
  pub terminal : String
  pub reason : String
  pub elapsed : ℕ

unfoldable pub concat : List String → String
concat [] = ""
concat (s ∷ ss) = Prim.Native.String.◌++◌ s (concat ss)

-- `toolEmojis`, and the fallback
unfoldable pub tool_emoji : String → String
tool_emoji tool =
    if tool == "Bash"
    then "🔧"
    else if tool == "Read"
    then "📖"
    else if tool == "Edit"
    then "✏\u{fe0f}"
    else if tool == "Write"
    then "✏\u{fe0f}"
    else if tool == "Grep"
    then "🔍"
    else if tool == "Glob"
    then "🔍"
    else if tool == "WebFetch"
    then "🌐"
    else if tool == "WebSearch"
    then "🌐"
    else if tool == "Task"
    then "🤖"
    else "▸"

unfoldable pub trace_header : TraceState → String
trace_header st =
    if st.terminal == "done"
    then concat ("✅ 完成 · " ∷ decimal (length st.steps) ∷ " 步 · " ∷ decimal st.elapsed ∷ "s" ∷ [])
    else if st.terminal == "fail"
    then if is_blank st.reason then "⚠\u{fe0f} 失败" else concat ("⚠\u{fe0f} 失败：" ∷ st.reason ∷ [])
    else "🤖 处理中…"

abbrev pub drop {ℓ} : {A : Type ℓ} → ℕ → List A → List A
drop zero xs = xs
drop (suc n) [] = []
drop (suc n) (x ∷ xs) = drop n xs

-- the steps that are shown
unfoldable pub shown : List TraceStep → List TraceStep
shown steps =
    if ltb max_trace_lines (length steps)
    then drop (length steps - max_trace_lines) steps
    else steps

-- the line on the steps that are not
unfoldable pub overflow : List TraceStep → List String
overflow steps =
    if ltb max_trace_lines (length steps)
    then concat ("…(+" ∷ decimal (length steps - max_trace_lines) ∷ " 步)" ∷ []) ∷ []
    else []

unfoldable pub step_line : TraceStep → String
step_line s = concat (
    tool_emoji s.tool
    ∷ " "
    ∷ s.tool
    ∷ (if s.target == "" then "" else concat ("  " ∷ s.target ∷ []))
    ∷ [])

unfoldable pub card_lines : TraceState → List String
card_lines st =
    concat ("**" ∷ trace_header st ∷ "**" ∷ []) ∷ overflow st.steps
    ++ map step_line (shown st.steps)

unfoldable pub join_lines : List String → String
join_lines [] = ""
join_lines (l ∷ ls) =
    let others = join_lines ls in elim ls [ [] ↦ l | next ∷ more ↦ concat (l ∷ "\n" ∷ others ∷ []) ]

-- The content of `buildProgressCard`.
unfoldable pub card_content : TraceState → String
card_content st = join_lines (card_lines st)

length-drop {ℓ} :
    {A : Type ℓ} (n : ℕ) (xs : List A) → n ≤ length xs → n + length (drop n xs) ≡ length xs
length-drop zero xs h = omega arith
length-drop (suc n) [] h = omega arith
length-drop (suc n) (x ∷ xs) h = omega (arith, length-drop n xs (omega arith))

length-map {ℓ κ} :
    {A : Type ℓ} {B : Type κ} (f : A → B) (xs : List A) → length (map f xs) ≡ length xs
length-map f [] = refl
length-map f (x ∷ xs) = omega (arith, length-map f xs)

drop-append {ℓ} : {A : Type ℓ} (n : ℕ) (xs : List A) → (front : List A) × (xs ≡ front ++ drop n xs)
drop-append zero xs = ([], refl)
drop-append (suc n) [] = ([], refl)
drop-append (suc n) (x ∷ xs) = let (front, e) = drop-append n xs in (x ∷ front, cc (e))

-- However long the turn, the card is put together from 27 texts at most: the header, a line on the
-- overflow just where steps are left out, and a text for each step that is shown. These are the last
-- steps of the turn: all of them where there are 25 at most, and else the last 25.
pub card_bounded :
    (st : TraceState)
    → (length (card_lines st) ≤ suc (suc max_trace_lines))
      × (length (shown st.steps)
          ≡ (if ltb max_trace_lines (length st.steps) then max_trace_lines else length st.steps))
      × (length (card_lines st)
          ≡ suc
              (length (shown st.steps) + (if ltb max_trace_lines (length st.steps) then 1 else 0)))
      × ((front : List TraceStep) × (st.steps ≡ front ++ shown st.steps))
unfolding card_lines overflow shown
card_bounded st =
    let n = length st.steps - max_trace_lines in
    let (front, e) = drop-append n st.steps in
    let size = length-map step_line (shown st.steps) in
    elim (Bool-cases (ltb max_trace_lines (length st.steps))) [
      | inl t ↦
          let left = length-drop n st.steps (omega arith) in
          (
            ground (arith, t, left, size),
            ground (arith, t, left),
            ground (arith, t, size),
            (front, ground (arith, t, e)),
          )
      | inr f ↦ (
        ground (arith, f, size),
        ground (arith, f),
        ground (arith, f, size),
        ([], ground (arith, f)),
      )
    ]
