-- ===== src/Agent/Opencode/Text.antt =====
-- What `Run` answers: the text that the session says for its turn, up to the answer to the prompt.
use Prim.Native.String
use text.Mathlib.TextLemmas.{append_assoc, append-nil, nil-append}
use mathlib.Core.List
use channel_plugin.Prelude.{
  ℕ, zero, suc, ◌+◌, ◌≤◌, ◌<◌, String, Bool, true, false, ◌&&◌, Option, none, some, List, [], ◌∷◌,
  ◌++◌, length, length-append, ltb, arith, ◌≡◌, refl, sym, ap, ◌∙◌, if◌then◌else◌, Bool-cases,
  Option-cases, inl, inr,
}
use channel_plugin.Agent.Opencode.Defs.{
  OpencodeRuntime, PromptEvent, text_is, ended, error_is, prompt_cap, routed, SessionUpdate,
  report_tool, handle_session_update,
}
use channel_plugin.Agent.Opencode.Updates.{
  dispatch_all-SameBeside, dispatch_all_own, dispatch_all_foreign, events_of_update,
  handle_session_update_lem, report_tool_lem,
}
use channel_plugin.Agent.Opencode.Sender.{
  asking, waiting, finished, Turn, signal_in, signal_completed, prompt_answered_at, prompt_answered,
  after_take,
}
use channel_plugin.Agent.Opencode.Loop.{
  TurnStep, updates, prompt_returns, takes, on_event, freed, pop_event, take_from, take_next,
  give_text, give_error, turn_step, turn_loop, PromptResult,
}

infixr 6 ◌^^◌
abbrev pub ◌^^◌ : String → String → String
a ^^ b = Prim.Native.String.◌++◌ a b

-- the text of events, and whether they are all text
abbrev pub text_of : List PromptEvent → String
text_of [] = ""
text_of (text_is t ∷ es) = t ^^ text_of es
text_of (ended ∷ es) = text_of es
text_of (error_is e ∷ es) = text_of es

abbrev pub only_text : List PromptEvent → Bool
only_text [] = true
only_text (text_is t ∷ es) = only_text es
only_text (ended ∷ es) = false
only_text (error_is e ∷ es) = false

abbrev pub take_all : ℕ → List TurnStep
take_all zero = []
take_all (suc n) = takes ∷ take_all n

-- the answer of a turn is its text and the id of its session
give_text_same :
    (said : String) (r r' : OpencodeRuntime)
    → r'.session_id ≡ r.session_id
    → (give_text said r').1 ≡ (give_text said r).1
unfolding give_text give_error
give_text_same said r r' h = ground arith

give_text-some :
    (said : String) (r : OpencodeRuntime) → (a : PromptResult) × ((give_text said r).1 ≡ some a)
unfolding give_text give_error
give_text-some said r = elim (Option-cases (give_text said r).1) [
  | inl n ↦ ground arith
  | inr (a, e) ↦ (a, e)
]

-- Text that waits before the end is taken, and then the end.
drain :
    (queue : List PromptEvent) (later : List TurnStep) (session : String) (t : Turn)
    → only_text queue ≡ true
    → t.sender ≡ finished
    → t.runtime.active ≡ some (session, queue ++ ended ∷ [])
    → (turn_loop (take_all (suc (length queue)) ++ later) t).1
      ≡ (give_text (t.said ^^ text_of queue) t.runtime).1
unfolding turn_loop turn_step take_next take_from pop_event on_event freed after_take
drain [] later session t o s a =
    let r' = record t.runtime { active = some (session, []) } in
    let (x, e) = give_text-some t.said r' in
    ground (arith, e, append-nil t.said, give_text_same t.said t.runtime r' refl)
drain (text_is text ∷ queue) later session t o s a =
    let r' = record t.runtime { active = some (session, queue ++ ended ∷ []) } in
    let t' = record t { runtime = r'; said = t.said ^^ text } in
    ground (
      arith,
      append_assoc t.said text (text_of queue),
      drain queue later session t' o s refl,
      give_text_same (t.said ^^ text_of (text_is text ∷ queue)) t.runtime r' refl,
    )
drain (ended ∷ queue) later session t o s a = cc
drain (error_is e ∷ queue) later session t o s a = cc

full_drain :
    (queue : List PromptEvent) (later : List TurnStep) (session : String) (t : Turn)
    → only_text queue ≡ true
    → 0 < length queue
    → t.sender ≡ waiting
    → t.runtime.active ≡ some (session, queue)
    → (turn_loop (take_all (suc (length queue)) ++ later) t).1
      ≡ (give_text (t.said ^^ text_of queue) t.runtime).1
unfolding turn_loop turn_step take_next take_from pop_event on_event freed after_take
full_drain [] later session t o n s a = absurd (omega arith)
full_drain (text_is text ∷ queue) later session t o n s a =
    let r' = record t.runtime { active = some (session, queue ++ ended ∷ []) } in
    let t' = record t { runtime = r'; sender = finished; said = t.said ^^ text } in
    ground (
      arith,
      append_assoc t.said text (text_of queue),
      drain queue later session t' o refl refl,
      give_text_same (t.said ^^ text_of (text_is text ∷ queue)) t.runtime r' refl,
    )
full_drain (ended ∷ queue) later session t o n s a = cc
full_drain (error_is e ∷ queue) later session t o n s a = cc

-- The end of a turn is never lost: where text waits in the buffer, however much, and the prompt is
-- then answered without an error, `Run` answers with all of that text, behind what it has taken, once
-- it has taken as many events and one more; whatever happens later.
pub end_kept :
    (queue : List PromptEvent) (later : List TurnStep) (session prompted : String) (done : Bool)
    (t : Turn)
    → only_text queue ≡ true
    → t.sender ≡ asking prompted
    → t.runtime.active ≡ some (session, queue)
    → (turn_loop (prompt_returns none done ∷ (take_all (suc (length queue)) ++ later)) t).1
      ≡ (give_text (t.said ^^ text_of queue) t.runtime).1
unfolding turn_loop turn_step prompt_answered prompt_answered_at signal_completed signal_in
end_kept queue later session prompted done t o s a =
    elim (Bool-cases (ltb (length queue) prompt_cap)) [
      | inl room ↦
          let r' = record t.runtime { active = some (session, queue ++ ended ∷ []) } in
          let t' = record t { runtime = r'; sender = finished } in
          ground (
            arith,
            room,
            drain queue later session t' o refl refl,
            give_text_same (t.said ^^ text_of queue) t.runtime r' refl,
          )
      | inr full ↦
          let t' = record t { sender = waiting } in
          ground (arith, full, full_drain queue later session t' o (ground (arith, full)) refl a)
    ]

-- the events that updates have for the turn on a session
abbrev pub events_for : String → List SessionUpdate → List PromptEvent
events_for session [] = []
events_for session (p ∷ ps) =
    (if routed session p.session_id then events_of_update p else []) ++ events_for session ps

-- What comes before the answer to the prompt: updates, and `none` where `Run` takes an event.
abbrev pub reading : List (Option SessionUpdate) → List TurnStep
reading [] = []
reading (some p ∷ xs) = updates p ∷ reading xs
reading (none ∷ xs) = takes ∷ reading xs

abbrev pub updates_of : List (Option SessionUpdate) → List SessionUpdate
updates_of [] = []
updates_of (some p ∷ xs) = p ∷ updates_of xs
updates_of (none ∷ xs) = updates_of xs

only_text-append : (es fs : List PromptEvent) → only_text (es ++ fs) ≡ only_text es && only_text fs
only_text-append [] fs = refl
only_text-append (text_is x ∷ es) fs = only_text-append es fs
only_text-append (ended ∷ es) fs = refl
only_text-append (error_is e ∷ es) fs = refl

text_of-append : (es fs : List PromptEvent) → text_of (es ++ fs) ≡ text_of es ^^ text_of fs
text_of-append [] fs = rw (nil-append (text_of fs)) refl
text_of-append (text_is x ∷ es) fs =
    ap (λ s. x ^^ s) (text_of-append es fs) ∙ sym (append_assoc x (text_of es) (text_of fs))
text_of-append (ended ∷ es) fs = text_of-append es fs
text_of-append (error_is e ∷ es) fs = text_of-append es fs

take_split : (m n : ℕ) → m ≤ n → (more : List TurnStep) × (take_all n ≡ take_all m ++ more)
take_split zero n h = (take_all n, refl)
take_split (suc m) zero h = absurd (omega arith)
take_split (suc m) (suc n) h =
    let (more, e) = take_split m n (omega arith) in (more, ap (λ l. takes ∷ l) e)

handle_session_update-active :
    (p : SessionUpdate) (session : String) (queue : List PromptEvent) (r : OpencodeRuntime)
    → r.active ≡ some (session, queue)
    → length queue + length (if routed session p.session_id then events_of_update p else [])
      ≤ prompt_cap
    → (handle_session_update p r).active
      ≡ some (session, queue ++ (if routed session p.session_id then events_of_update p else []))
handle_session_update-active p session queue r a fits =
    let told = report_tool p.update r in
    let kept : told.active ≡ some (session, queue) = (report_tool_lem p.update r).0 ∙ a in
    elim (Bool-cases (routed session p.session_id)) [
      | inl own ↦
          rw (handle_session_update_lem p r, own)
            (dispatch_all_own p.session_id session (events_of_update p) queue told kept own
              (rw own at fits))
      | inr foreign ↦
          rw (handle_session_update_lem p r, foreign, mathlib.Core.List.append-nil queue)
            (dispatch_all_foreign p.session_id session (events_of_update p) queue told kept foreign)
    ]

handle_session_update-id :
    (p : SessionUpdate) (r : OpencodeRuntime)
    → (handle_session_update p r).session_id ≡ r.session_id
handle_session_update-id p r =
    let told = report_tool p.update r in
    let same = dispatch_all-SameBeside p.session_id (events_of_update p) told in
    rw (handle_session_update_lem p r) (same.id_same ∙ (report_tool_lem p.update r).1)

-- Where a turn stands that has read `evts` besides the text that waited: what it has taken and what
-- waits is all of the text.
record Read (session prompted : String) (queue evts : List PromptEvent) (t t' : Turn) : Type 0 where
  left : List PromptEvent
  in_buffer : t'.runtime.active ≡ some (session, left)
  asks : t'.sender ≡ asking prompted
  texts : only_text left ≡ true
  short : length left ≤ length queue + length evts
  all_said : t'.said ^^ text_of left ≡ t.said ^^ (text_of queue ^^ text_of evts)
  same_id : t'.runtime.session_id ≡ t.runtime.session_id

module _ (session prompted : String) (rest : List TurnStep) where
  turn_loop-reading :
      (xs : List (Option SessionUpdate)) (queue : List PromptEvent) (t : Turn)
      → t.runtime.active ≡ some (session, queue)
      → t.sender ≡ asking prompted
      → only_text queue ≡ true
      → only_text (events_for session (updates_of xs)) ≡ true
      → length queue + length (events_for session (updates_of xs)) ≤ prompt_cap
      → (t' : Turn) × (turn_loop (reading xs ++ rest) t ≡ turn_loop rest t')
        × Read session prompted queue (events_for session (updates_of xs)) t t'
  unfolding turn_loop turn_step take_next take_from pop_event on_event freed after_take
  turn_loop-reading [] queue t a s o f fits = (
    t,
    refl,
    record {
      left = queue;
      in_buffer = a;
      asks = s;
      texts = o;
      short = omega arith;
      all_said = ap (λ x. t.said ^^ x) (sym (append-nil (text_of queue)));
      same_id = refl;
    },
  )
  turn_loop-reading (some p ∷ xs) queue t a s o f fits =
      let own : List PromptEvent = if routed session p.session_id then events_of_update p else [] in
      let later = events_for session (updates_of xs) in
      let split = length-append own later in
      let longer = length-append queue own in
      let t₁ = record t { runtime = handle_session_update p t.runtime } in
      let a₁ = handle_session_update-active p session queue t.runtime a (omega (arith, split)) in
      let both = only_text-append own later in
      let (t', e, r) =
        turn_loop-reading xs (queue ++ own) t₁ a₁ s
          (ground (arith, both, only_text-append queue own)) (ground (arith, both))
          (omega (arith, split, longer)) in
      (
        t',
        e,
        record {
          left = r.left;
          in_buffer = r.in_buffer;
          asks = r.asks;
          texts = r.texts;
          short = omega (arith, r.short, split, longer);
          all_said =
              r.all_said
              ∙ ap (λ x. t.said ^^ x)
                  (ap (λ x. x ^^ text_of later) (text_of-append queue own)
                    ∙ append_assoc (text_of queue) (text_of own) (text_of later)
                    ∙ ap (λ x. text_of queue ^^ x) (sym (text_of-append own later)));
          same_id = r.same_id ∙ handle_session_update-id p t.runtime;
        },
      )
  turn_loop-reading (none ∷ xs) [] t a s o f fits =
      let (t', e, r) = turn_loop-reading xs [] t a s o f fits in (t', ground (arith, e), r)
  turn_loop-reading (none ∷ xs) (text_is x ∷ queue) t a s o f fits =
      let r₁ = record t.runtime { active = some (session, queue) } in
      let t₁ = record t { runtime = r₁; said = t.said ^^ x } in
      let (t', e, r) = turn_loop-reading xs queue t₁ refl s o f (omega arith) in
      (
        t',
        ground (arith, e),
        record {
          left = r.left;
          in_buffer = r.in_buffer;
          asks = r.asks;
          texts = r.texts;
          short = omega (arith, r.short);
          all_said =
              r.all_said
              ∙ append_assoc t.said x
                  (text_of queue ^^ text_of (events_for session (updates_of xs)))
              ∙ ap (λ y. t.said ^^ y)
                  (sym (
                    append_assoc x (text_of queue) (text_of (events_for session (updates_of xs)))));
          same_id = r.same_id;
        },
      )
  turn_loop-reading (none ∷ xs) (ended ∷ queue) t a s o f fits = cc
  turn_loop-reading (none ∷ xs) (error_is e ∷ queue) t a s o f fits = cc

-- A turn whose updates come before its prompt is answered without an error, and have for its session
-- text alone, in 256 pieces at most: whenever `Run` takes events meanwhile, once it has then taken
-- those that are left and the end, it answers with all the text that the updates have for the
-- session, in their order, and with nothing of another session; whatever happens later.
pub prompt_says_all :
    (xs : List (Option SessionUpdate)) (later : List TurnStep) (session prompted : String)
    (done : Bool) (t : Turn)
    → t.runtime.active ≡ some (session, [])
    → t.sender ≡ asking prompted
    → only_text (events_for session (updates_of xs)) ≡ true
    → length (events_for session (updates_of xs)) ≤ prompt_cap
    → (turn_loop
        (reading xs
          ++ prompt_returns none done
            ∷ (take_all (suc (length (events_for session (updates_of xs)))) ++ later))
        t).1
      ≡ (give_text (t.said ^^ text_of (events_for session (updates_of xs))) t.runtime).1
prompt_says_all xs later session prompted done t a s o fits =
    let evts = events_for session (updates_of xs) in
    let rest = prompt_returns none done ∷ (take_all (suc (length evts)) ++ later) in
    let (t', e, r) =
      turn_loop-reading session prompted rest xs [] t a s refl o (omega (arith, fits)) in
    let (more, split) =
      take_split (suc (length r.left)) (suc (length evts)) (omega (arith, r.short)) in
    let takes_left : take_all (suc (length evts)) ++ later
        ≡ take_all (suc (length r.left)) ++ (more ++ later) =
      ap (λ l. l ++ later) split
      ∙ mathlib.Core.List.append_assoc (take_all (suc (length r.left))) more later in
    ap (λ x. x.1) e
    ∙ ap (λ l. (turn_loop (prompt_returns none done ∷ l) t').1) takes_left
    ∙ end_kept r.left (more ++ later) session prompted done t' r.texts r.asks r.in_buffer
    ∙ ap (λ x. (give_text x t'.runtime).1)
        (r.all_said ∙ ap (λ x. t.said ^^ x) (nil-append (text_of evts)))
    ∙ give_text_same (t.said ^^ text_of evts) t.runtime t'.runtime r.same_id
