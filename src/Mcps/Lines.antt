-- ===== src/Mcps/Lines.antt =====
-- The functions of Go's package strings that the programs use, on texts and their lines.
use Prim.Native.Char.{Char, code}
use Prim.Native.String
use text.Mathlib.Text.{find?}
use text.Mathlib.TextLemmas.{cons-append}
use channel_plugin.Prelude.{
  ℕ, zero, suc, String, Bool, true, false, ◌&&◌, Option, none, some, List, [], ◌∷◌, ◌==◌, ◌≡◌, ◌≢◌,
  refl, ◌∙◌, nat_eq, if◌then◌else◌, is_some, Bool-cases, inl, inr,
}

-- `strings.Contains`
unfoldable pub contains : String → String → Bool
contains s t = is_some (find? s t)

-- `strings.Count(s, "\n")`
unfoldable pub count_lines : String → ℕ
count_lines String.[] = 0
count_lines (String.◌∷◌ c s) = let n = count_lines s in if nat_eq (code c) 10 then suc n else n

abbrev pub on_head : String → List String → List String
on_head front [] = front ∷ []
on_head front (l ∷ ls) = String.◌++◌ front l ∷ ls

-- `strings.Split(s, "\n")`
unfoldable pub split_lines : String → List String
split_lines String.[] = "" ∷ []
split_lines (String.◌∷◌ c s) =
    let rest = split_lines s in
    if nat_eq (code c) 10 then "" ∷ rest else on_head (String.◌∷◌ c "") rest

-- `strings.Join(lines, "\n")`
unfoldable pub join_lines : List String → String
join_lines [] = ""
join_lines (l ∷ []) = l
join_lines (l ∷ m ∷ ls) = String.◌++◌ l (String.◌∷◌ "\n" (join_lines (m ∷ ls)))

-- `strings.TrimRight(s, " ")`: a space is dropped where nothing but spaces follows it.
unfoldable pub trim_right_spaces : String → String
trim_right_spaces String.[] = ""
trim_right_spaces (String.◌∷◌ c s) =
    let rest = trim_right_spaces s in
    if nat_eq (code c) 32 && rest == "" then "" else String.◌∷◌ c rest

-- the code of the last character
unfoldable pub last_code : String → Option ℕ
last_code String.[] = none
last_code (String.◌∷◌ c s) = elim (last_code s) [ none ↦ some (code c) | some d ↦ some d ]

module _ {ℓ} {A : Type ℓ} where
  abbrev pub drop : ℕ → List A → List A
  drop zero xs = xs
  drop (suc n) [] = []
  drop (suc n) (x ∷ xs) = drop n xs

-- What stands behind the last line break.
pub last_line : String → String
last_line String.[] = ""
last_line (String.◌∷◌ c s) =
    let rest = last_line s in
    if nat_eq (code c) 10
    then rest
    else elim (count_lines s) [ zero ↦ String.◌∷◌ c s | suc _ ↦ rest ]

splits : split_lines "ab\n\nc" ≡ "ab" ∷ "" ∷ "c" ∷ []
unfolding split_lines
splits = refl

trims : trim_right_spaces " a b  " ≡ " a b"
unfolding trim_right_spaces
trims = refl

finds : contains "hello" "ll" ≡ true
unfolding contains
finds = refl

behind : last_line "ab\nc$ " ≡ "c$ "
unfolding last_line count_lines
behind = refl

on_head_ne : (front : String) (ls : List String) → on_head front ls ≢ []
on_head_ne front [] = cc
on_head_ne front (l ∷ ls) = cc

-- A text has a line, an empty one at least.
pub split_lines_ne : (s : String) → split_lines s ≢ []
unfolding split_lines
split_lines_ne String.[] = cc
split_lines_ne (String.◌∷◌ c s) = elim (Bool-cases (nat_eq (code c) 10)) [
  | inl break ↦ rw break (cc)
  | inr more ↦ rw more (on_head_ne (String.◌∷◌ c "") (split_lines s))
]

drop-on_head :
    (n : ℕ) (front : String) (ls : List String)
    → ls ≢ []
    → drop (suc n) (on_head front ls) ≡ drop (suc n) ls
drop-on_head n front [] h = absurd (h refl)
drop-on_head n front (l ∷ ls) h = refl

count_in_line :
    (c : Char) (s : String)
    → nat_eq (code c) 10 ≡ false
    → count_lines (String.◌∷◌ c s) ≡ count_lines s
unfolding count_lines
count_in_line c s more = rw more refl

split_in_line :
    (c : Char) (s : String)
    → nat_eq (code c) 10 ≡ false
    → split_lines (String.◌∷◌ c s) ≡ on_head (String.◌∷◌ c "") (split_lines s)
unfolding split_lines
split_in_line c s more = rw more refl

-- the steps of the induction below
drops_line :
    (c : Char) (s t : String)
    → nat_eq (code c) 10 ≡ true
    → drop (count_lines s) (split_lines (String.◌++◌ s t))
      ≡ split_lines (String.◌++◌ (last_line s) t)
    → drop (count_lines (String.◌∷◌ c s)) (split_lines (String.◌∷◌ c (String.◌++◌ s t)))
      ≡ split_lines (String.◌++◌ (last_line (String.◌∷◌ c s)) t)
unfolding count_lines split_lines last_line
drops_line c s t break ih = rw break ih

drops_more :
    (c : Char) (s t : String) (n : ℕ)
    → count_lines s ≡ n
    → nat_eq (code c) 10 ≡ false
    → drop n (split_lines (String.◌++◌ s t)) ≡ split_lines (String.◌++◌ (last_line s) t)
    → drop n (split_lines (String.◌∷◌ c (String.◌++◌ s t)))
      ≡ split_lines (String.◌++◌ (last_line (String.◌∷◌ c s)) t)
drops_more c s t zero e more ih = unfold last_line in rw (more, e, cons-append c s t) refl
drops_more c s t (suc n) e more ih = rw (split_in_line c (String.◌++◌ s t) more) (
    drop-on_head n (String.◌∷◌ c "") (split_lines (String.◌++◌ s t))
      (split_lines_ne (String.◌++◌ s t))
    ∙ unfold last_line in rw (more, e) ih)

-- Behind as many lines as a text has line breaks stand its last line with what follows it, and the
-- further lines of that.
pub drop-split_lines :
    (s t : String)
    → drop (count_lines s) (split_lines (String.◌++◌ s t))
      ≡ split_lines (String.◌++◌ (last_line s) t)
drop-split_lines String.[] t = unfold count_lines last_line in refl
drop-split_lines (String.◌∷◌ c s) t =
    let ih = drop-split_lines s t in
    elim (Bool-cases (nat_eq (code c) 10)) [
      | inl break ↦ rw (cons-append c s t) (drops_line c s t break ih)
      | inr more ↦
          rw (cons-append c s t, count_in_line c s more)
            (drops_more c s t (count_lines s) refl more ih)
    ]
