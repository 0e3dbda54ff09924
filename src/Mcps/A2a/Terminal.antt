-- ===== src/Mcps/A2a/Terminal.antt =====
-- The answer of a dispatch to a session of boo.
use Prim.Native.Char.{Char, code}
use Prim.Native.String
use text.Mathlib.TextLemmas.{cons-append}
use channel_plugin.Prelude.{
  suc, ◌≤◌, String, true, false, none, List, [], ◌∷◌, ◌++◌, length, arith, ◌≡◌, ◌≢◌, refl, ap,
  Bool-cases, inl, inr,
}
use channel_plugin.Prelude.Int.{ℤ, pos}
use channel_plugin.Mcps.Lines.{
  count_lines, split_lines, on_head, last_line, drop-split_lines, split_lines_ne,
}
use channel_plugin.Mcps.A2a.Defs.{BooRun, exited}
use channel_plugin.Mcps.A2a.Boo.{
  output, checked, boo_dispatch_err, is_left_out, keep_before, trim_tail, trim_delta, delta_of,
  boo_call, boo_peek, dispatch_boo,
}

length-on_head :
    (front : String) (ls : List String) → ls ≢ [] → length (on_head front ls) ≡ length ls
length-on_head front [] h = absurd (h refl)
length-on_head front (l ∷ ls) h = refl

-- A text has a line more than line breaks.
length-split_lines : (s : String) → length (split_lines s) ≡ suc (count_lines s)
unfolding split_lines count_lines
length-split_lines String.[] = refl
length-split_lines (String.◌∷◌ c s) = ground (
  arith,
  length-split_lines s,
  length-on_head (String.◌∷◌ c "") (split_lines s) (split_lines_ne s),
)

count_lines-cons :
    (c : Char) (s t : String)
    → count_lines s ≤ count_lines t
    → count_lines (String.◌∷◌ c s) ≤ count_lines (String.◌∷◌ c t)
unfolding count_lines
count_lines-cons c s t h = ground arith

count_lines-append : (s t : String) → count_lines s ≤ count_lines (String.◌++◌ s t)
count_lines-append String.[] t = unfold count_lines in (omega arith)
count_lines-append (String.◌∷◌ c s) t =
    rw (cons-append c s t) (count_lines-cons c s (String.◌++◌ s t) (count_lines-append s t))

delta_lem :
    (before produced : String)
    → delta_of before (String.◌++◌ before produced)
      ≡ split_lines (String.◌++◌ (last_line before) produced)
unfolding delta_of
delta_lem before produced =
    let after = String.◌++◌ before produced in
    ground (
      arith,
      length-split_lines after,
      count_lines-append before produced,
      drop-split_lines before produced,
    )

-- The lines that are left out at the end, and the last one that stays.
abbrev pub AllLeftOut : List String → Type 0
AllLeftOut [] = Unit
AllLeftOut (l ∷ ls) = (is_left_out l ≡ true) × AllLeftOut ls

abbrev pub LastStays : List String → Type 0
LastStays [] = Unit
LastStays (l ∷ []) = is_left_out l ≡ false
LastStays (l ∷ m ∷ ls) = LastStays (m ∷ ls)

-- a way to cut lines in those that stay and those that are left out
abbrev pub Cut : List String → List String → Type 0
Cut ls kept = (ds : List String) × (ls ≡ kept ++ ds) × AllLeftOut ds × LastStays kept

keep_before-Cut :
    (l : String) (ls kept : List String) → Cut ls kept → Cut (l ∷ ls) (keep_before l kept)
unfolding keep_before
keep_before-Cut l ls [] (ds, e, out, stays) = elim (Bool-cases (is_left_out l)) [
  | inl gone ↦ rw gone (l ∷ ds, ap (λ xs. l ∷ xs) e, (gone, out), tt)
  | inr here ↦ rw here (ds, ap (λ xs. l ∷ xs) e, out, here)
]
keep_before-Cut l ls (m ∷ ms) (ds, e, out, stays) = (ds, ap (λ xs. l ∷ xs) e, out, stays)

-- What is cut off at the end are the lines that are blank or end like the prompt of a shell, up to the
-- last line that does not.
pub trim_tail-Cut : (ls : List String) → Cut ls (trim_tail ls)
unfolding trim_tail
trim_tail-Cut [] = ([], refl, tt, tt)
trim_tail-Cut (l ∷ ls) = keep_before-Cut l ls (trim_tail ls) (trim_tail-Cut ls)

module _ {W : Type 0} (run_boo : List String → W → BooRun × W) where
  -- A dispatch to a session whose four calls of boo succeed, the third perhaps by a timeout (exit 4),
  -- and to whose scrollback something was added meanwhile: the answer is what was added, behind what
  -- stood on the last line before, without the echo of the prompt and the prompts at the end.
  pub dispatch_boo_lem :
      (session prompt wait_timeout before produced typed waited : String) (code : ℤ)
      (w w1 w2 w3 w4 : W)
      → run_boo ("peek" ∷ session ∷ "--scrollback" ∷ []) w ≡ (exited (pos 0) before, w1)
      → run_boo ("send" ∷ session ∷ "--text" ∷ prompt ∷ "--enter" ∷ []) w1
        ≡ (exited (pos 0) typed, w2)
      → run_boo ("wait" ∷ session ∷ "--idle" ∷ "--timeout" ∷ wait_timeout ∷ []) w2
        ≡ (exited code waited, w3)
      → boo_dispatch_err code ≡ none
      → run_boo ("peek" ∷ session ∷ "--scrollback" ∷ []) w3
        ≡ (exited (pos 0) (String.◌++◌ before produced), w4)
      → dispatch_boo run_boo session prompt wait_timeout w
        ≡ (output (trim_delta (split_lines (String.◌++◌ (last_line before) produced)) prompt), w4)
  unfolding dispatch_boo boo_peek boo_call checked boo_dispatch_err
  dispatch_boo_lem session prompt wait_timeout before produced typed waited code w w1 w2 w3 w4 a b c
        d e =
      ground (arith, delta_lem before produced)
