-- ===== src/Agent/Manager/Keeping.antt =====
-- Every operation of the manager keeps the sessions with their bots.
use native.Mathlib.Nat.{le_trans, le_refl}
use channel_plugin.Prelude.{
  ℕ, ◌≤◌, ◌<◌, String, ◌≡◌, refl, Bool, Option, none, some, [], ◌∷◌, ◌++◌, arith, length,
  length-set, length-append, get_elem?, eq_iff, Bool-cases, Option-cases, inl, inr, nat_eq,
}
use channel_plugin.GoMap.{GoMap, get, put, delete, get-put, get-delete}
use channel_plugin.Agent.Types.{Spec, ScheduledTask}
use channel_plugin.Agent.Drivers.{Driver, driver_for_spec}
use channel_plugin.Agent.Session.Defs.{Session, new_session}
use channel_plugin.Agent.Manager.Defs.{
  Manager, Others, address, session_of, closes_at, update_at, close_at, set_push_sink, schedule,
  cancel_task, stop_bot, serves, install, restore, retire, take_over, yield_to, replace,
  make_session, session_for,
}

-- `owner a` is the bot that the session at address `a` is made for. The map leads a bot to its own
-- sessions only, and into the heap.
pub record IsOwned (owner : ℕ → String) (m : Manager) : Type 0 where
  pub own : (b : String) (a : ℕ) → address m b ≡ some a → (a < length m.heap) × (owner a ≡ b)

-- The heap only grows, and ownership is kept.
pub record Keeps (owner : ℕ → String) (m m' : Manager) : Type 0 where
  pub longer : length m.heap ≤ length m'.heap
  pub owned : IsOwned owner m → IsOwned owner m'

module _ {owner : ℕ → String} where
  Keeps-refl : (m : Manager) → Keeps owner m m
  Keeps-refl m = record { longer = le_refl _; owned = λ h. h }

  Keeps-trans : {l m n : Manager} → Keeps owner l m → Keeps owner m n → Keeps owner l n
  Keeps-trans f g = record { longer = le_trans f.longer g.longer; owned = λ h. g.owned (f.owned h) }

  update_at-Keeps :
      (f : Session → Session) (m : Manager) (a : Option ℕ) → Keeps owner m (update_at f m a)
  unfolding update_at
  update_at-Keeps f m none = Keeps-refl m
  update_at-Keeps f m (some a) = elim (Option-cases (get_elem? m.heap a)) [
    | inl e ↦ rw (e, update_at) (Keeps-refl m)
    | inr (s, e) ↦
        rw (e, update_at)
          (record {
            longer = rw length-set (le_refl _);
            owned = λ h. record { own = λ b c p. rw length-set (h.own b c p) };
          })
  ]

  delete-Keeps :
      (m : Manager) (bot : String) (k : GoMap (Option ℕ))
      → Keeps owner m (record m { sessions = delete m.sessions bot; sinks = k })
  delete-Keeps m bot k = record {
    longer = le_refl _;
    owned = λ h. record { own = λ b a p. h.own b a (ground (arith, get-delete m.sessions bot b)) };
  }

  -- An address may be put under the bot that owns it.
  put-IsOwned :
      (m : Manager) (bot : String) (a : ℕ)
      → a < length m.heap
      → owner a ≡ bot
      → IsOwned owner m
      → IsOwned owner (record m { sessions = put m.sessions bot a })
  put-IsOwned m bot a l o h = record {
    own = λ b c p. ground (arith, get-put m.sessions bot b a, eq_iff bot b, h.own b c);
  }

  pub set_push_sink-Keeps :
      (m : Manager) (bot : String) (k : Option ℕ) → Keeps owner m (set_push_sink m bot k)
  unfolding set_push_sink
  set_push_sink-Keeps m bot k =
      Keeps-trans (record { longer = le_refl _; owned = λ h. record { own = h.own } })
        (update_at-Keeps _ _ (address m bot))

  pub schedule-Keeps :
      (m : Manager) (bot : String) (t : ScheduledTask) → Keeps owner m (schedule m bot t).0
  unfolding schedule
  schedule-Keeps m bot t = elim (Option-cases (session_of m bot)) [
    | inl e ↦ rw (e, schedule) (Keeps-refl m)
    | inr (s, e) ↦ rw (e, schedule) (update_at-Keeps _ m (address m bot))
  ]

  pub cancel_task-Keeps : (m : Manager) (bot id : String) → Keeps owner m (cancel_task m bot id).0
  unfolding cancel_task
  cancel_task-Keeps m bot id = elim (Option-cases (session_of m bot)) [
    | inl e ↦ rw (e, cancel_task) (Keeps-refl m)
    | inr (s, e) ↦ rw (e, cancel_task) (update_at-Keeps _ m (address m bot))
  ]

  pub stop_bot-Keeps :
      (closes : ℕ → Bool) (m : Manager) (bot : String) → Keeps owner m (stop_bot closes m bot)
  unfolding stop_bot close_at
  stop_bot-Keeps closes m bot =
      Keeps-trans (delete-Keeps m bot _) (update_at-Keeps _ _ (address m bot))

  close_at-Keeps :
      (closes : ℕ → Bool) (m : Manager) (a : Option ℕ) → Keeps owner m (close_at closes m a)
  unfolding close_at
  close_at-Keeps closes m a = update_at-Keeps _ m a

  put-Keeps :
      (m : Manager) (bot : String) (a : ℕ)
      → a < length m.heap
      → owner a ≡ bot
      → Keeps owner m (record m { sessions = put m.sessions bot a })
  put-Keeps m bot a l o = record { longer = le_refl _; owned = put-IsOwned m bot a l o }

  install-Keeps :
      (m : Manager) (bot : String) (new : ℕ)
      → new < length m.heap
      → owner new ≡ bot
      → Keeps owner m (install m bot new)
  unfolding install
  install-Keeps m bot new l o = elim (Option-cases (get m.sinks bot)) [
    | inl e ↦ rw (e, install) (put-Keeps m bot new l o)
    | inr (none, e) ↦ rw (e, install) (put-Keeps m bot new l o)
    | inr (some k, e) ↦
        rw (e, install) (Keeps-trans (put-Keeps m bot new l o) (update_at-Keeps _ _ (some new)))
  ]

  restore-Keeps :
      (m : Manager) (bot : String) (new stale : ℕ)
      → stale < length m.heap
      → owner stale ≡ bot
      → Keeps owner m (restore m bot new stale)
  unfolding restore
  restore-Keeps m bot new stale l o = elim (Option-cases (address m bot)) [
    | inl e ↦ rw (e, restore) (Keeps-refl m)
    | inr (a, e) ↦ elim (Bool-cases (nat_eq a new)) [
      | inl p ↦ rw (e, p, restore) (put-Keeps m bot stale l o)
      | inr p ↦ rw (e, p, restore) (Keeps-refl m)
    ]
  ]

  retire-Keeps :
      (closes : ℕ → Bool) (m : Manager) (bot : String) (new : ℕ) (stale : Option ℕ)
      → ((a : ℕ) → stale ≡ some a → (a < length m.heap) × (owner a ≡ bot))
      → Keeps owner m (retire closes m bot new stale).0
  unfolding retire
  retire-Keeps closes m bot new none h = Keeps-refl m
  retire-Keeps closes m bot new (some a) h = elim (Bool-cases (closes_at closes m (some a))) [
    | inl p ↦ rw p (close_at-Keeps closes m (some a))
    | inr p ↦ rw p (
        let k = close_at-Keeps closes m (some a) in
        Keeps-trans k (
          Keeps-trans (restore-Keeps _ bot new a (le_trans (h a refl).0 k.longer) (h a refl).1)
            (close_at-Keeps closes _ (some new))))
  ]

-- What other goroutines do keeps ownership.
pub record AreFair (owner : ℕ → String) (others : Others) : Type 0 where
  pub starting : (m : Manager) → Keeps owner m (others.starting m)
  pub examining : (m : Manager) → Keeps owner m (others.examining m)
  pub retiring : (m : Manager) → Keeps owner m (others.retiring m)

module _ {owner : ℕ → String} (closes : ℕ → Bool) (others : Others)
    (fair : AreFair owner others) where
  take_over-Keeps :
      (m : Manager) (bot : String) (new : ℕ)
      → IsOwned owner m
      → new < length m.heap
      → owner new ≡ bot
      → Keeps owner m (take_over closes others m bot new).0
  unfolding take_over
  take_over-Keeps m bot new h l o =
      let e = fair.examining m in
      let i = install-Keeps _ bot new (le_trans l e.longer) o in
      let r = fair.retiring (install (others.examining m) bot new) in
      let ir = Keeps-trans i r in
      Keeps-trans e (
        Keeps-trans ir (
          retire-Keeps closes _ bot new _
            λ a p. let q = (e.owned h).own bot a p in (le_trans q.0 ir.longer, q.1)))

  replace-Keeps :
      (m : Manager) (bot : String) (spec : Spec) (new : ℕ)
      → IsOwned owner m
      → new < length m.heap
      → owner new ≡ bot
      → Keeps owner m (replace closes others m bot spec new).0
  unfolding replace
  replace-Keeps m bot spec new h l o = elim (Option-cases (address m bot)) [
    | inl e ↦ rw (e, replace) (take_over-Keeps m bot new h l o)
    | inr (a, e) ↦ elim (Bool-cases (serves spec (get_elem? m.heap a))) [
      | inl p ↦ rw (e, p, replace) (unfold yield_to in close_at-Keeps closes m (some new))
      | inr p ↦ rw (e, p, replace) (take_over-Keeps m bot new h l o)
    ]
  ]

  module _ (drivers : GoMap Driver) (m : Manager) (bot : String) (spec : Spec) where
    make_session-IsOwned :
        IsOwned owner m
        → owner (length m.heap) ≡ bot
        → IsOwned owner (make_session drivers closes others m bot spec).0
    unfolding make_session
    make_session-IsOwned h o = elim (Option-cases (driver_for_spec drivers spec)) [
      | inl e ↦ rw (e, make_session) h
      | inr (driver, e) ↦ elim (Option-cases (new_session driver spec)) [
        | inl f ↦ rw (e, f, make_session) h
        | inr (s, f) ↦
            rw (e, f, make_session)
              (let n = record m { heap = m.heap ++ s ∷ [] } in
                let more : length m.heap < length n.heap =
                  omega (arith, length-append m.heap (s ∷ [])) in
                let grown : Keeps owner m n = record {
                  longer = omega arith;
                  owned = λ g. record {
                    own = λ b a p. let q = g.own b a p in (le_trans q.0 (omega arith), q.1);
                  };
                } in
                let st = fair.starting n in
                let owned = st.owned (grown.owned h) in
                (replace-Keeps (others.starting n) bot spec (length m.heap) owned
                    (le_trans more st.longer) o).owned
                  owned)
      ]
    ]

    pub session_for-IsOwned :
        IsOwned owner m
        → owner (length m.heap) ≡ bot
        → IsOwned owner (session_for drivers closes others m bot spec).0
    unfolding session_for
    session_for-IsOwned h o = elim (Option-cases (address m bot)) [
      | inl e ↦ rw (e, session_for) (make_session-IsOwned h o)
      | inr (a, e) ↦ elim (Bool-cases (serves spec (get_elem? m.heap a))) [
        | inl p ↦ rw (e, p, session_for) h
        | inr p ↦ rw (e, p, session_for) (make_session-IsOwned h o)
      ]
    ]
