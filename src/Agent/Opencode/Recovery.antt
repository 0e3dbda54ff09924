-- ===== src/Agent/Opencode/Recovery.antt =====
-- How often the prompt of a turn is sent.
use channel_plugin.Prelude.{
  String, Bool, Option, none, some, List, [], ◌∷◌, refl, sym, ◌≡◌, ◌⊎◌, inl, inr,
}
use channel_plugin.Agent.Opencode.Defs.{OpencodeRuntime}
use channel_plugin.Agent.Opencode.Sender.{Turn, id_is}
use channel_plugin.Agent.Opencode.Loop.{
  TurnStep, session_returns, turn_step, turn_loop, enter_prompt, or_later, PromptResult,
}
use channel_plugin.Agent.Opencode.Attempts.{Attempts, Stage, Made-Attempts}
use channel_plugin.Agent.Opencode.Stages.{step-Stage}

-- A step is one of those of the turn.
abbrev pub IsStep : TurnStep → List TurnStep → Type 0
IsStep step [] = ⊥
IsStep step (s ∷ ss) = (step ≡ s) ⊎ IsStep step ss

module _ (answered : String → Type 0) (adopted : Bool) (session work_dir : String) where
  or_later-Stage :
      (now later : Turn × Option PromptResult)
      → Stage answered adopted session work_dir now.0
      → Stage answered adopted session work_dir later.0
      → Stage answered adopted session work_dir (or_later now later).0
  or_later-Stage (t, none) later m n = n
  or_later-Stage (t, some answer) later m n = m

  loop-Stage :
      (steps : List TurnStep) (t : Turn)
      → ((id : String) → IsStep (session_returns (id_is id)) steps → answered id)
      → Stage answered adopted session work_dir t
      → Stage answered adopted session work_dir (turn_loop steps t).0
  unfolding turn_loop
  loop-Stage [] t ids m = m
  loop-Stage (s ∷ ss) t ids m =
      let m' = step-Stage answered adopted session work_dir s t (λ id e. ids id (inl (sym e))) m in
      or_later-Stage (turn_step s t) (turn_loop ss (turn_step s t).0) m'
        (loop-Stage ss (turn_step s t).0 (λ id e. ids id (inr e)) m')

-- `session/new` has answered with the id in one of the steps.
abbrev pub AnsweredIn : List TurnStep → String → Type 0
AnsweredIn steps id = IsStep (session_returns (id_is id)) steps

-- Whatever happens in a turn: the goroutine that sends its prompt has sent it once to the session that
-- the turn began with; only where that session was adopted from an id to resume has it then asked for
-- one new session, in the turn's directory, and sent the prompt once more, to a session whose id
-- `session/new` answered in the turn, and which is not empty.
pub prompt-Attempts :
    (steps : List TurnStep) (work_dir : String) (traces : Bool) (r : OpencodeRuntime)
    → Attempts
        (AnsweredIn steps)
        r.session_adopted
        r.session_id
        work_dir
        (turn_loop steps (enter_prompt work_dir traces r)).0.calls
unfolding enter_prompt
prompt-Attempts steps work_dir traces r =
    let t = enter_prompt work_dir traces r in
    let answered = AnsweredIn steps in
    let (_, m) =
      loop-Stage answered r.session_adopted r.session_id work_dir steps t (λ id e. e)
        (refl, (refl, refl, refl)) in
    Made-Attempts answered r.session_adopted r.session_id work_dir (turn_loop steps t).0.sender
      (turn_loop steps t).0.runtime.session_adopted (turn_loop steps t).0.calls m
