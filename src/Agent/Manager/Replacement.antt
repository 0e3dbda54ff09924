-- ===== src/Agent/Manager/Replacement.antt =====
-- `sessionFor` where no other goroutine interferes: when a session is reused, replaced or put back.
use channel_plugin.Prelude.{
  ℕ, ◌<◌, String, ◌≡◌, ◌≢◌, refl, sym, ap, ◌∙◌, Bool, true, false, Option, none, some, [], ◌∷◌,
  ◌++◌, arith, length, get_elem?, get_elem?-set_self, get_elem?-set_ne, get_elem?-append_last,
  get_elem?-append_left, lt_of_get_elem?, ◌==◌, eq_iff, eq_refl, Option-cases, inl, inr,
  nat_eq_refl, if◌then◌else◌,
}
use channel_plugin.GoMap.{GoMap, get, put, get-put}
use channel_plugin.Agent.Types.{Spec, ScheduledTask}
use channel_plugin.Agent.Drivers.{Driver, driver_for_spec}
use channel_plugin.Agent.Session
use channel_plugin.Agent.Session.Defs.{Session, new_session, close, session_closed}
use channel_plugin.Agent.Session.Closing.{schedule_closed}
use channel_plugin.Agent.Manager.Defs.{
  Manager, Others, SessionFor, address, session_of, closes_at, close_session, update_at, write,
  close_at, schedule, replied, serves, install, restore, retire, take_over, replace, make_session,
  session_for, ok, err, close_failed,
}

abbrev pub quiet : Others
quiet = record { starting = λ m. m; examining = λ m. m; retiring = λ m. m }

pub sessions-update_at :
    (f : Session → Session) (m : Manager) (o : Option ℕ) → (update_at f m o).sessions ≡ m.sessions
unfolding update_at write
sessions-update_at f m none = refl
sessions-update_at f m (some a) = ground arith

get_elem?-update_at_ne :
    (f : Session → Session) (m : Manager) (a b : ℕ)
    → a ≢ b
    → get_elem? (update_at f m (some a)).heap b ≡ get_elem? m.heap b
unfolding update_at write
get_elem?-update_at_ne f m a b h = elim (Option-cases (get_elem? m.heap a)) [
  | inl e ↦ rw (e, update_at)
  | inr (s, e) ↦ rw (e, update_at) (get_elem?-set_ne m.heap a b (f s) h)
]

pub get_elem?-update_at_self :
    (f : Session → Session) (m : Manager) (a : ℕ) (s : Session)
    → get_elem? m.heap a ≡ some s
    → get_elem? (update_at f m (some a)).heap a ≡ some (f s)
unfolding update_at write
get_elem?-update_at_self f m a s e =
    rw (e, update_at) (get_elem?-set_self m.heap a (f s) (lt_of_get_elem? m.heap a s e))

-- What installation does to the session at the new address.
abbrev pub with_sink : Option (Option ℕ) → Session → Session
with_sink (some (some k)) s = Session.Defs.set_push_sink s (some k)
with_sink _ s = s

module _ (m : Manager) (bot : String) (new : ℕ) where
  address-install :
      (b : String) → address (install m bot new) b ≡ (if bot == b then some new else address m b)
  unfolding install
  address-install b = elim (Option-cases (get m.sinks bot)) [
    | inl e ↦ rw (e, install) (get-put m.sessions bot b new)
    | inr (none, e) ↦ rw (e, install) (get-put m.sessions bot b new)
    | inr (some k, e) ↦ rw (e, install) (rw sessions-update_at (get-put m.sessions bot b new))
  ]

  get_elem?-install_ne :
      (a : ℕ) → new ≢ a → get_elem? (install m bot new).heap a ≡ get_elem? m.heap a
  unfolding install
  get_elem?-install_ne a h = elim (Option-cases (get m.sinks bot)) [
    | inl e ↦ rw (e, install)
    | inr (none, e) ↦ rw (e, install)
    | inr (some k, e) ↦ rw (e, install) (get_elem?-update_at_ne _ _ new a h)
  ]

  get_elem?-install_self :
      (s : Session)
      → get_elem? m.heap new ≡ some s
      → get_elem? (install m bot new).heap new ≡ some (with_sink (get m.sinks bot) s)
  unfolding install
  get_elem?-install_self s h = elim (Option-cases (get m.sinks bot)) [
    | inl e ↦ rw (e, install) h
    | inr (none, e) ↦ rw (e, install) h
    | inr (some k, e) ↦ rw (e, install) (get_elem?-update_at_self _ _ new s h)
  ]

-- The retirement of `stale` in favour of `new`, which is installed.
module _ (closes : ℕ → Bool) (m : Manager) (bot : String) (new stale : ℕ) (old : Session)
    (held : get_elem? m.heap stale ≡ some old) (at : address m bot ≡ some new) where
  abbrev retired : Manager
  retired = close_at closes m (some stale)

  closes_held : closes_at closes m (some stale) ≡ (close closes (λ t. t) (λ t. t) old).1
  unfolding closes_at close
  closes_held = rw (held, closes_at)

  retire_done :
      (close closes (λ t. t) (λ t. t) old).1 ≡ true
      → retire closes m bot new (some stale) ≡ (retired, ok new)
  unfolding retire
  retire_done h = rw (closes_held ∙ h, retire)

  held_retired : get_elem? retired.heap stale ≡ some (close_session closes old)
  unfolding close_at
  held_retired = get_elem?-update_at_self _ m stale old held

  sessions_retired : retired.sessions ≡ m.sessions
  unfolding close_at
  sessions_retired = sessions-update_at _ m (some stale)

  at_retired : address retired bot ≡ some new
  at_retired = rw sessions_retired at

  abbrev put_back : Manager
  put_back = record retired { sessions = put retired.sessions bot stale }

  restored : restore retired bot new stale ≡ put_back
  unfolding restore
  restored = rw (at_retired, restore) (rw (nat_eq_refl new))

  at_put_back : address (close_at closes put_back (some new)) bot ≡ some stale
  unfolding close_at
  at_put_back =
      ap (λ g. get g bot) (sessions-update_at _ put_back (some new)) ∙ simp (get-put, eq_refl)

  held_put_back :
      new ≢ stale
      → session_of (close_at closes put_back (some new)) bot ≡ some (close_session closes old)
  unfolding close_at
  held_put_back ne =
      rw at_put_back (rw (get_elem?-update_at_ne _ put_back new stale ne) held_retired)

  retire_stuck :
      (close closes (λ t. t) (λ t. t) old).1 ≡ false
      → retire closes m bot new (some stale)
        ≡ (close_at closes put_back (some new), err close_failed)
  unfolding retire
  retire_stuck h =
      rw (closes_held ∙ h, retire)
        (ap (λ n. (close_at closes n (some new), err close_failed)) restored)

closed_session : (closes : ℕ → Bool) (s : Session) → (close_session closes s).sched_closed ≡ true
unfolding close
closed_session closes s = ground arith

schedule_refused :
    (m : Manager) (bot : String) (s : Session)
    → session_of m bot ≡ some s
    → s.sched_closed ≡ true
    → (task : ScheduledTask) (id : String) → (schedule m bot task).1 ≢ replied (Session.Defs.ok id)
unfolding schedule
schedule_refused m bot s e c task id h =
    let reply : (schedule m bot task).1 ≡ replied (Session.Defs.schedule s task).1 =
      rw (e, schedule) in
    schedule_closed s task c id (cc (reply, h))

-- The replacement `s` for a session `old` that does not serve, up to the retirement of `old`.
module _ (closes : ℕ → Bool) (m : Manager) (bot : String) (spec : Spec) (s old : Session)
    (stale : ℕ) (at : address m bot ≡ some stale) (held : get_elem? m.heap stale ≡ some old) where
  abbrev grown : Manager
  grown = record m { heap = m.heap ++ s ∷ [] }

  abbrev new : ℕ
  new = length m.heap

  abbrev installed : Manager
  installed = install grown bot new

  inside : stale < new
  inside = lt_of_get_elem? m.heap stale old held

  apart : stale ≢ new
  apart e = omega (arith, inside)

  held_grown : get_elem? grown.heap stale ≡ some old
  held_grown = rw (get_elem?-append_left m.heap (s ∷ []) stale inside) held

  held_installed : get_elem? installed.heap stale ≡ some old
  held_installed =
      rw (get_elem?-install_ne grown bot new stale (λ e. omega (arith, inside))) held_grown

  new_installed : get_elem? installed.heap new ≡ some (with_sink (get m.sinks bot) s)
  new_installed = get_elem?-install_self grown bot new s (get_elem?-append_last m.heap s)

  at_installed : address installed bot ≡ some new
  at_installed = ground (arith, address-install grown bot new bot, eq_iff bot bot)

  module _ (drivers : GoMap Driver) (driver : Driver) (unfit : serves spec (some old) ≡ false)
      (known : driver_for_spec drivers spec ≡ some driver)
      (made : new_session driver spec ≡ some s) where
    abbrev result : Manager × SessionFor
    result = session_for drivers closes quiet m bot spec

    at_grown : address grown bot ≡ some stale
    at_grown = at

    session_for-retire : result ≡ retire closes installed bot new (some stale)
    unfolding session_for
    session_for-retire =
        rw (at, session_for)
          (rw (held, unfit, session_for)
            (rw (known, make_session)
              (rw (made, make_session)
                (rw (at, replace) (rw (held_grown, unfit, replace) (rw (at, take_over)))))))

    -- Where no other goroutine interferes, the bot has a session that does not serve the spec, the
    -- spec has a driver that makes a new session, and the old one closes without an error: the bot
    -- gets the new session, which has the bot's push sink, the old one has been closed, and the
    -- other bots keep what they have.
    pub session_for_replaces :
        (close closes (λ t. t) (λ t. t) old).1 ≡ true
        → (result.1 ≡ ok new)
          × (session_of result.0 bot ≡ some (with_sink (get m.sinks bot) s))
          × (get_elem? result.0.heap stale ≡ some (close_session closes old))
          × ((b : String) → address result.0 b ≡ (if bot == b then some new else address m b))
    session_for_replaces shut =
        let done =
          session_for-retire
          ∙ retire_done closes installed bot new stale old held_installed at_installed shut in
        let same =
          sessions_retired closes installed bot new stale old held_installed at_installed in
        rw done (
          refl,
          rw (same, at_installed)
              (unfold close_at in
                rw (get_elem?-update_at_ne _ installed stale new apart) new_installed),
          held_retired closes installed bot new stale old held_installed at_installed,
          λ b. rw same (address-install grown bot new b),
        )

    -- Where no other goroutine interferes, the bot has a session that does not serve the spec, the
    -- spec has a driver that makes a new session, and the old one fails to close: the bot keeps
    -- the old session, and it accepts no scheduled task any more.
    pub session_for_puts_back :
        (close closes (λ t. t) (λ t. t) old).1 ≡ false
        → (result.1 ≡ err close_failed)
          × (session_of result.0 bot ≡ some (close_session closes old))
          × ((task : ScheduledTask) (id : String)
              → (schedule result.0 bot task).1 ≢ replied (Session.Defs.ok id))
    session_for_puts_back stuck =
        let done =
          session_for-retire
          ∙ retire_stuck closes installed bot new stale old held_installed at_installed stuck in
        let back =
          held_put_back closes installed bot new stale old held_installed at_installed
            (λ e. apart (sym e)) in
        rw done
          (refl, back, λ task id. schedule_refused _ bot _ back (closed_session closes old) task id)
