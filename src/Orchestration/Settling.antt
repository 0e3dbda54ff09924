-- ===== src/Orchestration/Settling.antt =====
-- Every run of a task ends it.

use channel_plugin.Prelude.{
  ℕ, String, ◌≡◌, refl, ◌∙◌, true, false, Option, none, some, List, [], ◌∷◌, arith, eq_iff, eq_refl,
  Bool-cases, inl, inr,
}
use channel_plugin.GoMap.{get, put, get-put}
use channel_plugin.Domain.{RegisteredAgent}
use channel_plugin.Orchestration.Tasks.{
  working, completed, failed, terminal, Task, TaskStore, new_task, create, get_task, set_working,
  complete, fail, moved,
}
use channel_plugin.Orchestration.Tasks.Lifecycle.{
  Call, works, calls, NoCreate, tasks_advance, transition-get, call,
}
use channel_plugin.Orchestration.Dispatch.{RunOutcome, answered, broke, record_outcome, dispatch}

terminal_after :
    (s : TaskStore) (id : String) (now : ℕ) (o : RunOutcome) (t : Task)
    → get s id ≡ some t
    → (t' : Task) × (get (record_outcome s id now (some o)) id ≡ some t')
      × (terminal t'.state ≡ true)
      × (t'.agent_name ≡ t.agent_name)
      × (t'.prompt ≡ t.prompt)
unfolding record_outcome complete fail
terminal_after s id now (answered text) t h = elim (Bool-cases (terminal t.state)) [
  | inl e ↦ (t, ground (arith, transition-get s id id now completed text ""), e, refl, refl)
  | inr e ↦ (
    moved t now completed text "",
    ground (arith, transition-get s id id now completed text "", eq_refl id),
    unfold moved terminal in refl,
    unfold moved in refl,
    unfold moved in refl,
  )
]
terminal_after s id now (broke message) t h = elim (Bool-cases (terminal t.state)) [
  | inl e ↦ (t, ground (arith, transition-get s id id now failed "" message), e, refl, refl)
  | inr e ↦ (
    moved t now failed "" message,
    ground (arith, transition-get s id id now failed "" message, eq_refl id),
    unfold moved terminal in refl,
    unfold moved in refl,
    unfold moved in refl,
  )
]

-- The store behind `Create` and `SetWorking`.
started-get :
    (s : TaskStore) (a : RegisteredAgent) (prompt id : String) (now : ℕ)
    → get (set_working (create s id now a.name prompt).0 id now) id
      ≡ some (moved (new_task id now a.name prompt) now working "" "")
unfolding set_working create
started-get s a prompt id now =
    let begins : terminal (new_task id now a.name prompt).state ≡ false =
      unfold terminal new_task in refl in
    ground (
      arith,
      transition-get (put s id (new_task id now a.name prompt)) id id now working "" "",
      get-put s id id (new_task id now a.name prompt),
      eq_refl id,
      begins,
    )

-- What an undisturbed run leaves of its task.
abbrev pub Ended : Task → RunOutcome → Type 0
Ended t (answered text) = (t.state ≡ completed) × (t.result ≡ text)
Ended t (broke message) = (t.state ≡ failed) × (t.error ≡ message) × (t.result ≡ "")

undisturbed :
    (s : TaskStore) (a : RegisteredAgent) (prompt id : String) (now : ℕ) (o : RunOutcome)
    → (t : Task) × (get
          (record_outcome (set_working (create s id now a.name prompt).0 id now) id now (some o))
          id
        ≡ some t)
      × Ended t o
unfolding record_outcome complete fail
undisturbed s a prompt id now (answered text) =
    let works = moved (new_task id now a.name prompt) now working "" "" in
    let running : terminal works.state ≡ false = unfold terminal moved in refl in
    (
      moved works now completed text "",
      ground (
        arith,
        started-get s a prompt id now,
        running,
        transition-get (set_working (create s id now a.name prompt).0 id now) id id now completed
            text "",
        eq_refl id,
      ),
      (unfold moved in refl, unfold moved new_task in ground (arith, eq_iff text "")),
    )
undisturbed s a prompt id now (broke message) =
    let works = moved (new_task id now a.name prompt) now working "" "" in
    let running : terminal works.state ≡ false = unfold terminal moved in refl in
    (
      moved works now failed "" message,
      ground (
        arith,
        started-get s a prompt id now,
        running,
        transition-get (set_working (create s id now a.name prompt).0 id now) id id now failed ""
            message,
        eq_refl id,
      ),
      (
        unfold moved in refl,
        unfold moved new_task in ground (arith, eq_iff message ""),
        unfold moved new_task in refl,
      ),
    )

module _ (runner : RegisteredAgent → String → Option RunOutcome) (s : TaskStore)
    (a : RegisteredAgent) (prompt id : String) (now : ℕ) where
  -- A dispatched task whose run returns is settled by it: whatever is called before its goroutine
  -- runs and while the agent works, but the creation of a task under its id, afterwards the task is
  -- there, settled, and that of the agent and the prompt.
  pub dispatch_settles :
      (others meanwhile : List Call) {o : RunOutcome}
      → runner a prompt ≡ some o
      → NoCreate id others
      → NoCreate id meanwhile
      → (t : Task) × (get_task (dispatch runner s a prompt id now others meanwhile) id ≡ some t)
        × (terminal t.state ≡ true)
        × (t.agent_name ≡ a.name)
        × (t.prompt ≡ prompt)
  unfolding dispatch get_task
  dispatch_settles others meanwhile {o} e n m =
      let s₀ = (create s id now a.name prompt).0 in
      let t₀ = new_task id now a.name prompt in
      let born : get s₀ id ≡ some t₀ =
        unfold create in
        ground (arith, get-put s id id (new_task id now a.name prompt), eq_refl id) in
      let (t₁, h₁, f₁) = tasks_advance s₀ others id t₀ n born in
      let (t₂, h₂, f₂) = tasks_advance (calls s₀ others) (works id now ∷ []) id t₁ tt h₁ in
      let (t₃, h₃, f₃) =
        tasks_advance (set_working (calls s₀ others) id now) meanwhile id t₂ m
          (unfold calls call in h₂) in
      let (t₄, h₄, e₄, a₄, p₄) = terminal_after _ id now o t₃ h₃ in
      (
        t₄,
        rw e h₄,
        e₄,
        a₄ ∙ f₃.same_agent ∙ f₂.same_agent ∙ f₁.same_agent ∙ unfold new_task in refl,
        p₄ ∙ f₃.same_prompt ∙ f₂.same_prompt ∙ f₁.same_prompt ∙ unfold new_task in refl,
      )

  -- A task whose run never returns stays in work, where nothing else is called.
  pub dispatch_hangs :
      runner a prompt ≡ none
      → (t : Task) × (get_task (dispatch runner s a prompt id now [] []) id ≡ some t)
        × (t.state ≡ working)
  unfolding dispatch get_task record_outcome calls
  dispatch_hangs e = (
    moved (new_task id now a.name prompt) now working "" "",
    rw e (started-get s a prompt id now),
    unfold moved in refl,
  )

  -- Undisturbed, a task whose agent answers is completed with the answer, and one whose agent breaks
  -- is failed with the message.
  pub dispatch_undisturbed :
      {o : RunOutcome}
      → runner a prompt ≡ some o
      → (t : Task) × (get_task (dispatch runner s a prompt id now [] []) id ≡ some t) × Ended t o
  unfolding dispatch get_task calls
  dispatch_undisturbed {o} e = rw e (undisturbed s a prompt id now o)
