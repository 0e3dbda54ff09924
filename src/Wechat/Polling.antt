-- ===== src/Wechat/Polling.antt =====
-- What the runtime tells over many polls.
use channel_plugin.Prelude.{
  String, true, false, none, some, List, [], ◌∷◌, ◌++◌, map, ◌==◌, arith, ◌≡◌, refl, sym, ap, ◌∙◌,
  if◌then◌else◌, Bool-cases, inl, inr,
}
use mathlib.Core.List.{map-append}
use channel_plugin.Bot.Messages.{RuntimeEvent}
use channel_plugin.Wechat.Client.{Message}
use channel_plugin.Wechat.Runtime.{
  ToldState, stopped, Told, state_is, event_is, Account, tell_state, message_event, tell_messages,
  Poller, Round, found_done, answered, poll_failed, advance, is_expired, poll_round, poll_loop,
}

abbrev pub states_of : List Told → List ToldState
states_of [] = []
states_of (state_is s ∷ ts) = s ∷ states_of ts
states_of (event_is e ∷ ts) = states_of ts

abbrev pub events_of : List Told → List RuntimeEvent
events_of [] = []
events_of (state_is s ∷ ts) = events_of ts
events_of (event_is e ∷ ts) = e ∷ events_of ts

-- the messages that polls answered, and the last cursor that was not empty
abbrev pub messages_of : List Round → List Message
messages_of [] = []
messages_of (answered u ∷ rs) = u.messages ++ messages_of rs
messages_of (found_done reason ∷ rs) = messages_of rs
messages_of (poll_failed text ctx_done ∷ rs) = messages_of rs

abbrev pub last_cursor : String → List Round → String
last_cursor c [] = c
last_cursor c (answered u ∷ rs) = last_cursor (if u.cursor == "" then c else u.cursor) rs
last_cursor c (found_done reason ∷ rs) = last_cursor c rs
last_cursor c (poll_failed text ctx_done ∷ rs) = last_cursor c rs

states_of-append : (xs ys : List Told) → states_of (xs ++ ys) ≡ states_of xs ++ states_of ys
states_of-append [] ys = refl
states_of-append (state_is s ∷ xs) ys = ap (λ t. s ∷ t) (states_of-append xs ys)
states_of-append (event_is e ∷ xs) ys = states_of-append xs ys

events_of-append : (xs ys : List Told) → events_of (xs ++ ys) ≡ events_of xs ++ events_of ys
events_of-append [] ys = refl
events_of-append (state_is s ∷ xs) ys = events_of-append xs ys
events_of-append (event_is e ∷ xs) ys = ap (λ t. e ∷ t) (events_of-append xs ys)

told_events :
    (a : Account) (ms : List Message)
    → a.has_on_event ≡ true
    → events_of (tell_messages a ms) ≡ map (message_event a) ms
unfolding tell_messages
told_events a [] h = refl
told_events a (m ∷ ms) h = simp h (ap (λ t. message_event a m ∷ t) (told_events a ms h))

told_states : (a : Account) (ms : List Message) → states_of (tell_messages a ms) ≡ []
unfolding tell_messages
told_states a [] = refl
told_states a (m ∷ ms) = elim (Bool-cases a.has_on_event) [
  | inl h ↦ rw h (told_states a ms)
  | inr h ↦ rw h refl
]

module _ (to_lower : String → String) (a : Account) where
  -- Polls that end nothing: each of the messages is told as an event, once and in the order in which
  -- they came, no state is told, and the next poll goes on from the last cursor that was given.
  pub polls_tell :
      (rounds : List Round) (p p' : Poller)
      → a.has_on_event ≡ true
      → (poll_loop to_lower a rounds p).1 ≡ some p'
      → (events_of (poll_loop to_lower a rounds p).0 ≡ map (message_event a) (messages_of rounds))
        × (states_of (poll_loop to_lower a rounds p).0 ≡ [])
        × (p'.cursor ≡ last_cursor p.cursor rounds)
  unfolding poll_loop poll_round advance
  polls_tell [] p p' on h = ground arith
  polls_tell (found_done reason ∷ rs) p p' on h = cc
  polls_tell (poll_failed text true ∷ rs) p p' on h = cc
  polls_tell (poll_failed text false ∷ rs) p p' on h =
      elim (Bool-cases (is_expired to_lower text)) [
        | inl e ↦ ground (arith, e)
        | inr e ↦ ground (arith, e, polls_tell rs p p' on)
      ]
  polls_tell (answered u ∷ rs) p p' on h =
      let (es, ss, c) = polls_tell rs (advance u p) p' on h in
      let now = tell_messages a u.messages in
      let later = (poll_loop to_lower a rs (advance u p)).0 in
      (
        events_of-append now later
            ∙ rw (told_events a u.messages on, es)
                (sym (map-append (message_event a) u.messages (messages_of rs))),
        states_of-append now later ∙ rw (told_states a u.messages, ss) refl,
        c,
      )

  loop-append :
      (rounds rest : List Round) (p p' : Poller)
      → (poll_loop to_lower a rounds p).1 ≡ some p'
      → (states_of (poll_loop to_lower a (rounds ++ rest) p).0
          ≡ states_of (poll_loop to_lower a rest p').0)
        × ((poll_loop to_lower a (rounds ++ rest) p).1 ≡ (poll_loop to_lower a rest p').1)
  unfolding poll_loop poll_round
  loop-append [] rest p p' h = ground arith
  loop-append (found_done reason ∷ rs) rest p p' h = cc
  loop-append (poll_failed text true ∷ rs) rest p p' h = cc
  loop-append (poll_failed text false ∷ rs) rest p p' h =
      elim (Bool-cases (is_expired to_lower text)) [
        | inl e ↦ ground (arith, e)
        | inr e ↦ ground (arith, e, loop-append rs rest p p')
      ]
  loop-append (answered u ∷ rs) rest p p' h =
      let (s, e) = loop-append rs rest (advance u p) p' h in
      let later = (poll_loop to_lower a (rs ++ rest) (advance u p)).0 in
      (states_of-append (tell_messages a u.messages) later ∙ rw (told_states a u.messages) s, e)

  -- A runtime that is stopped: where its loop finds that between two polls, `OnState` is told that it
  -- stopped; where a poll fails by it, the loop ends as well, but no state is told at all.
  pub stop_in_poll_untold :
      (rounds later : List Round) (p p' : Poller) (reason text : String)
      → a.has_on_state ≡ true
      → (poll_loop to_lower a rounds p).1 ≡ some p'
      → (states_of (poll_loop to_lower a (rounds ++ found_done reason ∷ later) p).0
          ≡ stopped reason ∷ [])
        × (states_of (poll_loop to_lower a (rounds ++ poll_failed text true ∷ later) p).0 ≡ [])
        × ((poll_loop to_lower a (rounds ++ poll_failed text true ∷ later) p).1 ≡ none)
  unfolding poll_loop poll_round tell_state
  stop_in_poll_untold rounds later p p' reason text on h = ground (
    arith,
    loop-append rounds (found_done reason ∷ later) p p' h,
    loop-append rounds (poll_failed text true ∷ later) p p' h,
  )
