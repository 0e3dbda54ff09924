-- ===== src/Orchestration/Tasks/Lifecycle.antt =====
-- The life of a task under any sequence of the store's methods.
use native.Mathlib.Nat.{le_refl, le_trans}
use channel_plugin.Prelude.{
  Bool-cases, ℕ, ◌≤◌, String, ◌≡◌, ◌≢◌, refl, ◌∙◌, true, not, ◌&&◌, none, some, List, [], ◌∷◌,
  arith, ◌==◌, eq_iff, eq_refl, Option-cases, inl, inr, if◌then◌else◌,
}
use channel_plugin.GoMap.{get, get-put}
use channel_plugin.Orchestration.Tasks.{
  TaskState, submitted, working, completed, failed, canceled, terminal, Task, TaskStore, new_task,
  create, transition, set_working, complete, fail, cancel, moved,
}

-- A call of a method that changes the store; a new task has a new id.
pub data Call : Type 0 where
  creates : String → ℕ → String → String → Call
  works : String → ℕ → Call
  completes : String → ℕ → String → Call
  fails : String → ℕ → String → Call
  cancels : String → ℕ → Call

unfoldable pub call : TaskStore → Call → TaskStore
call s (creates id now agent prompt) = (create s id now agent prompt).0
call s (works id now) = set_working s id now
call s (completes id now result) = complete s id now result
call s (fails id now message) = fail s id now message
call s (cancels id now) = (cancel s id now).0

unfoldable pub calls : TaskStore → List Call → TaskStore
unfolding call
calls s [] = s
calls s (c ∷ cs) = calls (call s c) cs

-- Ids are not drawn twice: no call creates the task `id` once more.
abbrev pub NoCreate : String → List Call → Type 0
NoCreate id [] = Unit
NoCreate id (creates j now agent prompt ∷ cs) = (j ≢ id) × NoCreate id cs
NoCreate id (_ ∷ cs) = NoCreate id cs

-- the order in which a task goes through its states
abbrev pub rank : TaskState → ℕ
rank submitted = 0
rank working = 1
rank _ = 2

pub transition-get :
    (s : TaskStore) (id j : String) (now : ℕ) (state : TaskState) (result error : String)
    → get (transition s id now state result error) j ≡ (elim (get s id) [
      | none ↦ get s j
      | some t ↦
          if terminal t.state
          then get s j
          else if id == j
          then some (moved t now state result error)
          else get s j
    ])
unfolding transition
transition-get s id j now state result error = elim (Option-cases (get s id)) [
  | inl e ↦ rw (e, transition)
  | inr (t, e) ↦ ground (arith, get-put s id j (moved t now state result error))
]

cancel-get :
    (s : TaskStore) (id j : String) (now : ℕ)
    → get (cancel s id now).0 j ≡ (elim (get s id) [
      | none ↦ get s j
      | some t ↦
          if terminal t.state
          then get s j
          else if id == j
          then some (record t { state = canceled; updated_at = now })
          else get s j
    ])
unfolding cancel
cancel-get s id j now = elim (Option-cases (get s id)) [
  | inl e ↦ rw (e, cancel)
  | inr (t, e) ↦ ground (arith, get-put s id j (record t { state = canceled; updated_at = now }))
]

settled-call :
    (s : TaskStore) (c : Call) (cs : List Call) (id : String) (t : Task)
    → NoCreate id (c ∷ cs)
    → get s id ≡ some t
    → terminal t.state ≡ true
    → (get (call s c) id ≡ some t) × NoCreate id cs
unfolding call create set_working complete fail cancel
settled-call s (creates j now agent prompt) cs id t n h f =
    (ground (arith, get-put s j id (new_task j now agent prompt), eq_iff j id), n.1)
settled-call s (works j now) cs id t n h f =
    (ground (arith, transition-get s j id now working "" "", eq_iff j id), n)
settled-call s (completes j now result) cs id t n h f =
    (ground (arith, transition-get s j id now completed result "", eq_iff j id), n)
settled-call s (fails j now message) cs id t n h f =
    (ground (arith, transition-get s j id now failed "" message, eq_iff j id), n)
settled-call s (cancels j now) cs id t n h f =
    (ground (arith, cancel-get s j id now, eq_iff j id), n)

-- A task that is completed, failed or canceled stays exactly as it is, whatever is called, if no
-- call creates a task under its id again.
pub settled_forever :
    (s : TaskStore) (cs : List Call) (id : String) (t : Task)
    → NoCreate id cs
    → get s id ≡ some t
    → terminal t.state ≡ true
    → get (calls s cs) id ≡ some t
unfolding calls
settled_forever s [] id t n h f = h
settled_forever s (c ∷ cs) id t n h f =
    let (kept, rest) = settled-call s c cs id t n h f in
    settled_forever (call s c) cs id t rest kept f

-- `Cancel` of a task in the store succeeds exactly if it is not settled, and then the task stays
-- canceled, with no result of its run, whatever is called later; a settled task stays as it is. No
-- call creates a task under its id again.
pub cancel_wins :
    (s : TaskStore) (id : String) (t : Task) (now : ℕ) (cs : List Call)
    → get s id ≡ some t
    → NoCreate id cs
    → let (s', done) = cancel s id now in
      (done ≡ not (terminal t.state))
      × (get (calls s' cs) id
          ≡ some (if terminal t.state then t else record t { state = canceled; updated_at = now }))
cancel_wins s id t now cs h n = (
  unfold cancel in ground arith,
  elim (Bool-cases (terminal t.state)) [
    | inl e ↦ unfold cancel in rw (h, e, cancel) (settled_forever s cs id t n h e)
    | inr e ↦ rw e (
        settled_forever _ cs id (record t { state = canceled; updated_at = now }) n
          (unfold cancel in
            ground (
              arith,
              get-put s id id (record t { state = canceled; updated_at = now }),
              eq_refl id,
            ))
          (unfold terminal in refl))
  ],
)

-- What a task keeps for life, and that it never goes back in its states.
pub record Follows (t t' : Task) : Type 0 where
  pub onward : rank t.state ≤ rank t'.state
  pub same_agent : t'.agent_name ≡ t.agent_name
  pub same_prompt : t'.prompt ≡ t.prompt
  pub same_birth : t'.created_at ≡ t.created_at

-- What a call does to the task `id`.
touched : Call → String → Task → Task
unfolding moved terminal
touched (creates j now agent prompt) id t = t
touched (works j now) id t =
    if j == id && not (terminal t.state) then moved t now working "" "" else t
touched (completes j now result) id t =
    if j == id && not (terminal t.state) then moved t now completed result "" else t
touched (fails j now message) id t =
    if j == id && not (terminal t.state) then moved t now failed "" message else t
touched (cancels j now) id t =
    if j == id && not (terminal t.state) then record t { state = canceled; updated_at = now } else t

touched-call :
    (s : TaskStore) (c : Call) (cs : List Call) (id : String) (t : Task)
    → NoCreate id (c ∷ cs)
    → get s id ≡ some t
    → (get (call s c) id ≡ some (touched c id t)) × NoCreate id cs
unfolding call create set_working complete fail touched
touched-call s (creates j now agent prompt) cs id t n h =
    (ground (arith, get-put s j id (new_task j now agent prompt), eq_iff j id), n.1)
touched-call s (works j now) cs id t n h =
    (ground (arith, transition-get s j id now working "" "", eq_iff j id), n)
touched-call s (completes j now result) cs id t n h =
    (ground (arith, transition-get s j id now completed result "", eq_iff j id), n)
touched-call s (fails j now message) cs id t n h =
    (ground (arith, transition-get s j id now failed "" message, eq_iff j id), n)
touched-call s (cancels j now) cs id t n h = (ground (arith, cancel-get s j id now, eq_iff j id), n)

Follows-touched : (c : Call) (id : String) (t : Task) → Follows t (touched c id t)
unfolding touched
Follows-touched (creates j now agent prompt) id t = ground arith
Follows-touched (works j now) id t = ground arith
Follows-touched (completes j now result) id t = ground arith
Follows-touched (fails j now message) id t = ground arith
Follows-touched (cancels j now) id t = ground arith

Follows-trans : {t u v : Task} → Follows t u → Follows u v → Follows t v
Follows-trans f g = record {
  onward = le_trans f.onward g.onward;
  same_agent = g.same_agent ∙ f.same_agent;
  same_prompt = g.same_prompt ∙ f.same_prompt;
  same_birth = g.same_birth ∙ f.same_birth;
}

-- Whatever is called but the creation of a task under its id, a task in the store is never lost,
-- never goes back from a later state to an earlier one, and keeps its agent, its prompt and its
-- time of creation.
pub tasks_advance :
    (s : TaskStore) (cs : List Call) (id : String) (t : Task)
    → NoCreate id cs
    → get s id ≡ some t
    → (t' : Task) × (get (calls s cs) id ≡ some t') × Follows t t'
unfolding calls
tasks_advance s [] id t n h =
    (t, h, record { onward = le_refl _; same_agent = refl; same_prompt = refl; same_birth = refl })
tasks_advance s (c ∷ cs) id t n h =
    let (kept, rest) = touched-call s c cs id t n h in
    let (t', found, follows) = tasks_advance (call s c) cs id (touched c id t) rest kept in
    (t', found, Follows-trans (Follows-touched c id t) follows)
