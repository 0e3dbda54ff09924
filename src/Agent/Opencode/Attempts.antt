-- ===== src/Agent/Opencode/Attempts.antt =====
-- The calls that the goroutine of a turn may have made, and what keeps them.
use channel_plugin.Prelude.{
  String, Bool, true, none, List, [], ◌∷◌, arith, eq_iff, ◌==◌, Bool-cases, ◌≡◌, ◌≢◌, refl, ◌∙◌,
  ◌⊎◌, inl, inr,
}
use channel_plugin.Agent.Opencode.Defs.{
  OpencodeRuntime, SessionUpdate, report_tool, handle_session_update, output_ends, break_runtime,
  close_opencode, PromptEvent, text_is, ended, error_is,
}
use channel_plugin.Agent.Opencode.Updates.{
  dispatch_all-SameBeside, events_of_update, handle_session_update_lem, report_tool_lem,
}
use channel_plugin.Agent.Opencode.Sender.{
  NewAnswer, call_failed, garbled, id_is, SenderCall, session_prompt, session_new, Sender, asking,
  renewing, retrying, waiting, finished, Turn, new_session_answered, keep_session,
}
use channel_plugin.Agent.Opencode.Loop.{on_event, give_text, give_error, leave_prompt, ready_again}

-- `answered` tells which ids the calls of `session/new` have answered.
module _ (answered : String → Type 0) (adopted : Bool) (session work_dir : String) where
  abbrev pub PromptedOnce : List SenderCall → Type 0
  PromptedOnce calls = calls ≡ session_prompt session ∷ []

  abbrev pub Renewed : List SenderCall → Type 0
  Renewed calls = (adopted ≡ true) × (calls ≡ session_prompt session ∷ session_new work_dir ∷ [])

  abbrev pub PromptedTwice : List SenderCall → Type 0
  PromptedTwice calls =
      (adopted ≡ true)
      × ((id : String) × answered id
          × (id ≢ "")
          × (calls ≡ session_prompt session ∷ session_new work_dir ∷ session_prompt id ∷ []))

  -- the calls that the goroutine of a turn may have made
  abbrev pub Attempts : List SenderCall → Type 0
  Attempts calls = PromptedOnce calls ⊎ (Renewed calls ⊎ PromptedTwice calls)

  -- the calls where the goroutine stands at a place
  abbrev pub Made : Sender → Bool → List SenderCall → Type 0
  Made (asking s) b calls = (s ≡ session) × (b ≡ adopted) × PromptedOnce calls
  Made (renewing e) b calls = Renewed calls
  Made retrying b calls = Attempts calls
  Made waiting b calls = Attempts calls
  Made finished b calls = Attempts calls

  abbrev pub Stage : Turn → Type 0
  Stage t = (t.work_dir ≡ work_dir) × Made t.sender t.runtime.session_adopted t.calls

  pub Made-Attempts :
      (s : Sender) (b : Bool) (calls : List SenderCall) → Made s b calls → Attempts calls
  Made-Attempts (asking s) b calls (_, _, e) = inl e
  Made-Attempts (renewing e) b calls m = inr (inl m)
  Made-Attempts retrying b calls m = m
  Made-Attempts waiting b calls m = m
  Made-Attempts finished b calls m = m

  -- a step that keeps the goroutine, its calls and whether the session was adopted
  pub keeps :
      (t t' : Turn)
      → t'.work_dir ≡ t.work_dir
      → t'.sender ≡ t.sender
      → t'.calls ≡ t.calls
      → t'.runtime.session_adopted ≡ t.runtime.session_adopted
      → Stage t
      → Stage t'
  keeps t t' w s c a m = rw (w, s, c, a) m

  -- a step that ends the goroutine or lets it wait for room
  pub ends_at :
      (t t' : Turn)
      → t'.work_dir ≡ t.work_dir
      → (t'.sender ≡ finished) ⊎ (t'.sender ≡ waiting)
      → t'.calls ≡ t.calls
      → Attempts t.calls
      → Stage t
      → Stage t'
  ends_at t t' w (inl s) c m (d, _) = rw (w, s, c) (d, m)
  ends_at t t' w (inr s) c m (d, _) = rw (w, s, c) (d, m)

pub handle_keeps :
    (p : SessionUpdate) (r : OpencodeRuntime)
    → (handle_session_update p r).session_adopted ≡ r.session_adopted
handle_keeps p r =
    let told = report_tool p.update r in
    let same = dispatch_all-SameBeside p.session_id (events_of_update p) told in
    rw (handle_session_update_lem p r) (same.adopted_same ∙ (report_tool_lem p.update r).2)

pub output_ends_keeps :
    (cause : String) (r : OpencodeRuntime)
    → (output_ends cause r).session_adopted ≡ r.session_adopted
unfolding output_ends break_runtime
output_ends_keeps cause r = ground arith

pub close_keeps : (r : OpencodeRuntime) → (close_opencode r).session_adopted ≡ r.session_adopted
unfolding close_opencode
close_keeps r = ground arith

-- The session that is kept is the one of the answer.
pub new_session_answered_full :
    (answered : String → Type 0) (answer : NewAnswer) (work_dir : String) (r : OpencodeRuntime)
    → ((id : String) → answer ≡ id_is id → answered id)
    → (new_session_answered answer work_dir r).0 ≡ none
    → answered (new_session_answered answer work_dir r).1.session_id
      × ((new_session_answered answer work_dir r).1.session_id ≢ "")
unfolding new_session_answered keep_session
new_session_answered_full answered (call_failed e) work_dir r a h = cc
new_session_answered_full answered garbled work_dir r a h = cc
new_session_answered_full answered (id_is id) work_dir r a h = elim (Bool-cases (id == "")) [
  | inl e ↦ ground (arith, e)
  | inr e ↦ rw e (a id refl, ground (arith, e, eq_iff id ""))
]

pub give_text_keeps :
    (said : String) (r : OpencodeRuntime) → (give_text said r).0.session_adopted ≡ r.session_adopted
unfolding give_text give_error leave_prompt ready_again break_runtime
give_text_keeps said r = ground arith

pub on_event_lem :
    (evt : PromptEvent) (t : Turn)
    → ((on_event evt t).0.work_dir ≡ t.work_dir)
      × ((on_event evt t).0.sender ≡ t.sender)
      × ((on_event evt t).0.calls ≡ t.calls)
      × ((on_event evt t).0.runtime.session_adopted ≡ t.runtime.session_adopted)
unfolding on_event give_error leave_prompt break_runtime
on_event_lem (text_is text) t = ground arith
on_event_lem ended t = (refl, refl, refl, give_text_keeps t.said t.runtime)
on_event_lem (error_is e) t = ground arith
