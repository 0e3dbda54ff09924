-- ===== src/Agent/Manager/Sharing.antt =====
-- No two bots share a session, whatever the operations and however they interleave.
use channel_plugin.Prelude.{ℕ, String, ◌≡◌, sym, ◌∙◌, Bool, Option, some, length}
use channel_plugin.GoMap.{GoMap, get-empty}
use channel_plugin.Agent.Types.{Spec, ScheduledTask}
use channel_plugin.Agent.Drivers.{Driver}
use channel_plugin.Agent.Manager.Defs.{
  Manager, Others, address, new_manager, set_push_sink, schedule, cancel_task, stop_bot,
  session_for,
}
use channel_plugin.Agent.Manager.Keeping.{
  IsOwned, set_push_sink-Keeps, schedule-Keeps, cancel_task-Keeps, stop_bot-Keeps, AreFair,
  session_for-IsOwned,
}

-- A call of one of the manager's methods, `sessionFor` for the part of `Send` that changes the map.
pub data Call : Type 0 where
  sets_sink : String → Option ℕ → Call
  schedules : String → ScheduledTask → Call
  cancels : String → String → Call
  stops : String → Call
  requests : String → Spec → Call

module _ (drivers : GoMap Driver) (closes : ℕ → Bool) (others : Others) where
  unfoldable pub call : Manager → Call → Manager
  call m (sets_sink bot k) = set_push_sink m bot k
  call m (schedules bot t) = (schedule m bot t).0
  call m (cancels bot id) = (cancel_task m bot id).0
  call m (stops bot) = stop_bot closes m bot
  call m (requests bot spec) = (session_for drivers closes others m bot spec).0

-- A session that a call makes, at the next address, is made for the bot of the call.
abbrev pub MakesFor : (ℕ → String) → Manager → Call → Type 0
MakesFor owner m (requests bot spec) = owner (length m.heap) ≡ bot
MakesFor owner m _ = Unit

module _ {owner : ℕ → String} (drivers : GoMap Driver) (closes : ℕ → Bool) (others : Others) where
  -- Each of these calls keeps the invariant, in the company of goroutines that do so.
  pub call-IsOwned :
      AreFair owner others
      → (m : Manager) (c : Call) → IsOwned owner m
      → MakesFor owner m c
      → IsOwned owner (call drivers closes others m c)
  unfolding call
  call-IsOwned fair m (sets_sink bot k) h o = (set_push_sink-Keeps m bot k).owned h
  call-IsOwned fair m (schedules bot t) h o = (schedule-Keeps m bot t).owned h
  call-IsOwned fair m (cancels bot id) h o = (cancel_task-Keeps m bot id).owned h
  call-IsOwned fair m (stops bot) h o = (stop_bot-Keeps closes m bot).owned h
  call-IsOwned fair m (requests bot spec) h o =
      session_for-IsOwned closes others fair drivers m bot spec h o

  -- Neither `sessionFor` nor `SetPushSink`, `Schedule`, `CancelTask` or `StopBot` leaves two bots with
  -- the same session, where the map led every bot to sessions made for it alone before, a session that
  -- the call makes is made for the bot of the call, and other goroutines keep this so.
  pub call_apart :
      AreFair owner others
      → (m : Manager) (c : Call) → IsOwned owner m
      → MakesFor owner m c
      → (b b' : String) (a : ℕ) → address (call drivers closes others m c) b ≡ some a
      → address (call drivers closes others m c) b' ≡ some a
      → b ≡ b'
  call_apart fair m c h o b b' a p q =
      let k = call-IsOwned fair m c h o in sym (k.own b a p).1 ∙ (k.own b' a q).1

-- A manager with no session satisfies the invariant.
pub new_manager-IsOwned : (owner : ℕ → String) → IsOwned owner new_manager
new_manager-IsOwned owner = record { own = λ b a p. cc (get-empty {V = ℕ} b) }
