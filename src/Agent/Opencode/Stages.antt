-- ===== src/Agent/Opencode/Stages.antt =====
-- The calls that a step of a turn makes.
use channel_plugin.Prelude.{
  String, Bool, true, false, not, ◌&&◌, ◌||◌, Option, none, some, List, [], ◌∷◌, arith, length, ltb,
  ◌==◌, ◌≡◌, ◌≢◌, refl, ap, inl, inr, if◌then◌else◌,
}
use channel_plugin.Agent.Opencode.Defs.{
  OpencodeError, OpencodeRuntime, break_runtime, prompt_cap, PromptEvent,
}
use channel_plugin.Agent.Opencode.Sender.{
  NewAnswer, id_is, SenderCall, Sender, asking, renewing, retrying, waiting, finished, Turn,
  new_session_answered, sender_fails, signal_completed, recover, signal_in, prompt_answered_at,
  prompt_answered, retry, on_new, session_answered_at, session_answered, give_up, after_take,
}
use channel_plugin.Agent.Opencode.Loop.{
  TurnStep, updates, reader_stops, prompt_returns, session_returns, gives_up, closes, takes,
  context_ends, on_event, freed, pop_event, take_from, take_next, give_error, leave_prompt,
  turn_step,
}
use channel_plugin.Agent.Opencode.Attempts.{
  Attempts, PromptedOnce, Renewed, Made, Stage, keeps, handle_keeps, output_ends_keeps, close_keeps,
  new_session_answered_full, on_event_lem,
}

module _ (answered : String → Type 0) (adopted : Bool) (session work_dir : String) where
  after_take-Made :
      (s : Sender) (rest : List PromptEvent) (b : Bool) (calls : List SenderCall)
      → Made answered adopted session work_dir s b calls
      → Made answered adopted session work_dir (after_take rest s).1 b calls
  unfolding after_take
  after_take-Made (asking x) rest b calls m = m
  after_take-Made (renewing x) rest b calls m = m
  after_take-Made retrying rest b calls m = m
  after_take-Made waiting rest b calls m = m
  after_take-Made finished rest b calls m = m

  give_up-Made :
      (s : Sender) (b : Bool) (calls : List SenderCall)
      → Made answered adopted session work_dir s b calls
      → Made answered adopted session work_dir (give_up s) b calls
  unfolding give_up
  give_up-Made (asking x) b calls m = m
  give_up-Made (renewing x) b calls m = m
  give_up-Made retrying b calls m = m
  give_up-Made waiting b calls m = m
  give_up-Made finished b calls m = m

  freed-Stage :
      (id : String) (rest : List PromptEvent) (t : Turn)
      → Stage answered adopted session work_dir t
      → Stage answered adopted session work_dir (freed id rest t)
  unfolding freed
  freed-Stage id rest t (w, m) =
      (w, after_take-Made t.sender rest t.runtime.session_adopted t.calls m)

  on_event-Stage :
      (evt : PromptEvent) (t : Turn)
      → Stage answered adopted session work_dir t
      → Stage answered adopted session work_dir (on_event evt t).0
  on_event-Stage evt t m =
      let (w, s, c, a) = on_event_lem evt t in
      keeps answered adopted session work_dir t (on_event evt t).0 w s c a m

  pop_event-Stage :
      (id : String) (queue : List PromptEvent) (t : Turn)
      → Stage answered adopted session work_dir t
      → Stage answered adopted session work_dir (pop_event id queue t).0
  unfolding pop_event
  pop_event-Stage id [] t m = m
  pop_event-Stage id (evt ∷ rest) t m =
      on_event-Stage evt (freed id rest t) (freed-Stage id rest t m)

  take_from-Stage :
      (active : Option (String × List PromptEvent)) (t : Turn)
      → Stage answered adopted session work_dir t
      → Stage answered adopted session work_dir (take_from active t).0
  unfolding take_from
  take_from-Stage none t m = m
  take_from-Stage (some (id, queue)) t m = pop_event-Stage id queue t m

  if-Stage :
      (b : Bool) (t t' : Turn)
      → (b ≡ true → Stage answered adopted session work_dir t)
      → (b ≡ false → Stage answered adopted session work_dir t')
      → Stage answered adopted session work_dir (if b then t else t')
  if-Stage true t t' f g = f refl
  if-Stage false t t' f g = g refl

  sender_fails-Stage :
      (e : OpencodeError) (t : Turn)
      → t.work_dir ≡ work_dir
      → Attempts answered adopted session work_dir t.calls
      → Stage answered adopted session work_dir (sender_fails e t)
  unfolding sender_fails
  sender_fails-Stage e t w a = (w, a)

  signal_in-Stage :
      (active : Option (String × List PromptEvent)) (t : Turn)
      → t.work_dir ≡ work_dir
      → Attempts answered adopted session work_dir t.calls
      → Stage answered adopted session work_dir (signal_in active t)
  unfolding signal_in
  signal_in-Stage none t w a = (w, a)
  signal_in-Stage (some (s, queue)) t w a =
      if-Stage (ltb (length queue) prompt_cap) _ _ (λ _. (w, a)) (λ _. (w, a))

  recover-Stage :
      (e : OpencodeError) (done : Bool) (t : Turn)
      → t.work_dir ≡ work_dir
      → t.runtime.session_adopted ≡ adopted
      → PromptedOnce answered adopted session work_dir t.calls
      → Stage answered adopted session work_dir (recover session e done t)
  unfolding recover
  recover-Stage e done t w a c =
      if-Stage (not (t.runtime.session_adopted && t.runtime.session_id == session) || done) _ _
        (λ _. sender_fails-Stage e t w (inl c))
        (λ on. (w, (ground (arith, on, a), ground (arith, c, w))))

  retry-Stage :
      (id : String) (t : Turn)
      → t.work_dir ≡ work_dir
      → answered id
      → id ≢ ""
      → Renewed answered adopted session work_dir t.calls
      → Stage answered adopted session work_dir (retry id t)
  unfolding retry
  retry-Stage id t w there full (a, c) = (w, inr (inr (a, (id, there, full, rw c refl))))

  prompt_answered-Stage :
      (s : Sender) (result : Option OpencodeError) (done : Bool) (t : Turn)
      → Made answered adopted session work_dir s t.runtime.session_adopted t.calls
      → Stage answered adopted session work_dir t
      → Stage answered adopted session work_dir (prompt_answered_at s result done t)
  unfolding prompt_answered_at signal_completed
  prompt_answered-Stage (asking x) none done t (i, a, c) (w, _) =
      signal_in-Stage t.runtime.active t w (inl c)
  prompt_answered-Stage (asking x) (some e) done t (i, a, c) (w, _) =
      rw i (recover-Stage e done t w a c)
  prompt_answered-Stage retrying none done t a (w, _) = signal_in-Stage t.runtime.active t w a
  prompt_answered-Stage retrying (some e) done t a (w, _) = sender_fails-Stage e t w a
  prompt_answered-Stage (renewing e) result done t _ m = m
  prompt_answered-Stage waiting result done t _ m = m
  prompt_answered-Stage finished result done t _ m = m

  on_new-Stage :
      (cause : OpencodeError) (failed : Option OpencodeError) (r : OpencodeRuntime) (t : Turn)
      → t.work_dir ≡ work_dir
      → Renewed answered adopted session work_dir t.calls
      → (failed ≡ none → answered r.session_id × (r.session_id ≢ ""))
      → Stage answered adopted session work_dir (on_new cause failed r t)
  unfolding on_new
  on_new-Stage cause (some e) r t w m full = sender_fails-Stage cause _ w (inr (inl m))
  on_new-Stage cause none r t w m full =
      let (there, filled) = full refl in
      retry-Stage r.session_id (record t { runtime = r }) w there filled m

  session_answered-Stage :
      (s : Sender) (answer : NewAnswer) (t : Turn)
      → ((id : String) → answer ≡ id_is id → answered id)
      → Made answered adopted session work_dir s t.runtime.session_adopted t.calls
      → Stage answered adopted session work_dir t
      → Stage answered adopted session work_dir (session_answered_at s answer t)
  unfolding session_answered_at
  session_answered-Stage (renewing cause) answer t ids m (w, _) =
      let (failed, r) = new_session_answered answer t.work_dir t.runtime in
      on_new-Stage cause failed r t w m
        (new_session_answered_full answered answer t.work_dir t.runtime ids)
  session_answered-Stage (asking x) answer t ids _ m = m
  session_answered-Stage retrying answer t ids _ m = m
  session_answered-Stage waiting answer t ids _ m = m
  session_answered-Stage finished answer t ids _ m = m

  pub step-Stage :
      (step : TurnStep) (t : Turn)
      → ((id : String) → step ≡ session_returns (id_is id) → answered id)
      → Stage answered adopted session work_dir t
      → Stage answered adopted session work_dir (turn_step step t).0
  unfolding turn_step prompt_answered session_answered take_next give_error leave_prompt
      break_runtime
  step-Stage (updates p) t ids (w, m) = (w, rw (handle_keeps p t.runtime) m)
  step-Stage (reader_stops cause) t ids (w, m) = (w, rw (output_ends_keeps cause t.runtime) m)
  step-Stage (prompt_returns result done) t ids (w, m) =
      prompt_answered-Stage t.sender result done t m (w, m)
  step-Stage (session_returns answer) t ids (w, m) =
      session_answered-Stage t.sender answer t (λ id e. ids id (ap session_returns e)) m (w, m)
  step-Stage gives_up t ids (w, m) = (w, give_up-Made t.sender t.runtime.session_adopted t.calls m)
  step-Stage closes t ids (w, m) = (w, rw (close_keeps t.runtime) m)
  step-Stage takes t ids m = take_from-Stage t.runtime.active t m
  step-Stage (context_ends e) t ids (w, m) = (w, m)
