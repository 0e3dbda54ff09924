-- ===== src/Agent/Codex/Text.antt =====
-- What `Run` says: the pieces of its thread, all of them and in their order.
use Prim.Native.String
use text.Mathlib.TextLemmas.{append_assoc, append-nil, nil-append}
use channel_plugin.Prelude.{
  ℕ, zero, suc, ◌+◌, ◌≤◌, ◌<◌, String, Bool, true, false, not, ◌&&◌, ◌||◌, some, List, [], ◌∷◌,
  ◌++◌, length, length-append, arith, ◌==◌, ◌≡◌, refl, ap, if◌then◌else◌, Option-cases, inl, inr,
  Bool-cases, eq_refl,
}
use channel_plugin.Agent.Codex.Defs.{
  CodexRuntime, TurnPiece, says, completed, breaks, piece_cap, concerns, dispatch_piece,
  report_progress, agent_message, item_of, Message, delta, item_started, turn_completed, ignored,
  dispatch_contents, handle_item_started, read_message,
}
use channel_plugin.Agent.Codex.Loop.{
  CodexHappening, notified, takes, take_piece, happen_codex, run_turn, conclude, fail_turn, Result,
}

append_nil {ℓ} : {A : Type ℓ} (xs : List A) → xs ++ [] ≡ xs
append_nil [] = refl
append_nil (x ∷ xs) = ap (λ t. x ∷ t) (append_nil xs)

append_cons {ℓ} :
    {A : Type ℓ} (xs : List A) (y : A) (ys : List A) → (xs ++ y ∷ []) ++ ys ≡ xs ++ y ∷ ys
append_cons [] y ys = refl
append_cons (x ∷ xs) y ys = ap (λ t. x ∷ t) (append_cons xs y ys)

infixr 6 ◌^^◌
abbrev pub ◌^^◌ : String → String → String
a ^^ b = Prim.Native.String.◌++◌ a b

-- the text of pieces, and whether they are all text
abbrev pub said_by : List TurnPiece → String
said_by [] = ""
said_by (says t ∷ ps) = Prim.Native.String.◌++◌ t (said_by ps)
said_by (completed ∷ ps) = said_by ps
said_by (breaks e ∷ ps) = said_by ps

abbrev pub all_text : List TurnPiece → Bool
all_text [] = true
all_text (says t ∷ ps) = all_text ps
all_text (completed ∷ ps) = false
all_text (breaks e ∷ ps) = false

abbrev pub pieces_of_contents : List (String × String) → List TurnPiece
pieces_of_contents [] = []
pieces_of_contents ((type, text) ∷ cs) =
    let later = pieces_of_contents cs in
    if type == "text" && not (text == "") then says text ∷ later else later

-- the pieces that a notification has for the turn on a thread
abbrev pub pieces_of : String → Message → List TurnPiece
pieces_of active_thread (delta thread text) =
    if text == "" || not (concerns active_thread thread) then [] else says text ∷ []
pieces_of active_thread (item_started thread (agent_message cs)) =
    if concerns active_thread thread then pieces_of_contents cs else []
pieces_of active_thread (item_started thread (item_of type fields)) = []
pieces_of active_thread (turn_completed thread) =
    if concerns active_thread thread then completed ∷ [] else []
pieces_of active_thread ignored = []

dispatch_foreign :
    (thread active_thread : String) (cs : List (String × String)) (r : CodexRuntime)
    (queue : List TurnPiece)
    → r.active ≡ some (active_thread, queue)
    → concerns active_thread thread ≡ false
    → (dispatch_contents thread cs r).active ≡ some (active_thread, queue)
unfolding dispatch_contents dispatch_piece
dispatch_foreign thread active_thread [] r queue a foreign = a
dispatch_foreign thread active_thread ((type, text) ∷ cs) r queue a foreign =
    let r' = dispatch_piece thread (says text) r in
    ground (
      arith,
      dispatch_foreign thread active_thread cs r queue a foreign,
      dispatch_foreign thread active_thread cs r' queue (ground (arith, foreign)) foreign,
    )

dispatch_own :
    (thread active_thread : String) (cs : List (String × String)) (r : CodexRuntime)
    (queue : List TurnPiece)
    → r.active ≡ some (active_thread, queue)
    → concerns active_thread thread ≡ true
    → length queue + length (pieces_of_contents cs) ≤ piece_cap
    → (dispatch_contents thread cs r).active ≡ some (active_thread, queue ++ pieces_of_contents cs)
unfolding dispatch_contents dispatch_piece
dispatch_own thread active_thread [] r queue a own fits = ground (arith, append_nil queue)
dispatch_own thread active_thread ((type, text) ∷ cs) r queue a own fits =
    elim (Bool-cases (type == "text" && not (text == ""))) [
      | inr skipped ↦ ground (
        arith,
        skipped,
        dispatch_own thread active_thread cs r queue a own (ground (arith, skipped)),
      )
      | inl shown ↦
          let r' = dispatch_piece thread (says text) r in
          let next = queue ++ says text ∷ [] in
          let longer = length-append queue (says text ∷ []) in
          ground (
            arith,
            shown,
            append_cons queue (says text) (pieces_of_contents cs),
            dispatch_own thread active_thread cs r' next (ground (arith, shown, own)) own
                (ground (arith, shown, longer)),
          )
    ]

read_message_lem :
    (m : Message) (active_thread : String) (r : CodexRuntime) (queue : List TurnPiece)
    → r.active ≡ some (active_thread, queue)
    → length queue + length (pieces_of active_thread m) ≤ piece_cap
    → (read_message m r).active ≡ some (active_thread, queue ++ pieces_of active_thread m)
unfolding read_message dispatch_piece handle_item_started report_progress
read_message_lem (delta thread text) active_thread r queue a fits = ground (arith, append_nil queue)
read_message_lem (item_started thread (agent_message cs)) active_thread r queue a fits =
    elim (Bool-cases (concerns active_thread thread)) [
      | inl own ↦
          ground
            (arith, own, dispatch_own thread active_thread cs r queue a own (ground (arith, own)))
      | inr foreign ↦ ground (
        arith,
        foreign,
        append_nil queue,
        dispatch_foreign thread active_thread cs r queue a foreign,
      )
    ]
read_message_lem (item_started thread (item_of type fields)) active_thread r queue a fits =
    ground (arith, append_nil queue)
read_message_lem (turn_completed thread) active_thread r queue a fits =
    ground (arith, append_nil queue)
read_message_lem ignored active_thread r queue a fits = ground (arith, append_nil queue)

-- the pieces of notifications
abbrev pub pieces : String → List Message → List TurnPiece
pieces active_thread [] = []
pieces active_thread (m ∷ ms) = pieces_of active_thread m ++ pieces active_thread ms

abbrev pub notifications : List Message → List CodexHappening
notifications [] = []
notifications (m ∷ ms) = notified m ∷ notifications ms

abbrev pub taking : ℕ → List CodexHappening
taking zero = []
taking (suc n) = takes ∷ taking n

abbrev pub fed : List Message → CodexRuntime → CodexRuntime
fed [] r = r
fed (m ∷ ms) r = fed ms (read_message m r)

append_assoc_list {ℓ} : {A : Type ℓ} (xs ys zs : List A) → (xs ++ ys) ++ zs ≡ xs ++ (ys ++ zs)
append_assoc_list [] ys zs = refl
append_assoc_list (x ∷ xs) ys zs = ap (λ t. x ∷ t) (append_assoc_list xs ys zs)

fed_lem :
    (ms : List Message) (active_thread : String) (r : CodexRuntime) (queue : List TurnPiece)
    → r.active ≡ some (active_thread, queue)
    → length queue + length (pieces active_thread ms) ≤ piece_cap
    → (fed ms r).active ≡ some (active_thread, queue ++ pieces active_thread ms)
fed_lem [] active_thread r queue a fits = ground (arith, append_nil queue)
fed_lem (m ∷ ms) active_thread r queue a fits =
    let own = pieces_of active_thread m in
    let later = pieces active_thread ms in
    let split = length-append own later in
    let longer = length-append queue own in
    ground (
      arith,
      append_assoc_list queue own later,
      fed_lem ms active_thread (read_message m r) (queue ++ own)
          (read_message_lem m active_thread r queue a (omega (arith, split)))
          (omega (arith, split, longer)),
    )

run_notifications :
    (ms : List Message) (later : List CodexHappening) (said : String) (r : CodexRuntime)
    → run_turn (notifications ms ++ later) said r ≡ run_turn later said (fed ms r)
unfolding run_turn happen_codex
run_notifications [] later said r = refl
run_notifications (m ∷ ms) later said r = run_notifications ms later said (read_message m r)

conclude_returns :
    (said : String) (r : CodexRuntime) → (o : Result) × ((conclude said r).1 ≡ some o)
unfolding conclude fail_turn
conclude_returns said r = elim (Option-cases (conclude said r).1) [
  | inl n ↦ ground arith
  | inr (o, e) ↦ (o, e)
]

-- The pieces of text that wait are taken one after the other, up to the end of the turn.
drained :
    (queue rest : List TurnPiece) (later : List CodexHappening) (thread said : String)
    (r : CodexRuntime)
    → all_text queue ≡ true
    → r.active ≡ some (thread, queue ++ completed ∷ rest)
    → run_turn (taking (suc (length queue)) ++ later) said r
      ≡ conclude (said ^^ said_by queue) (record r { active = some (thread, rest) })
unfolding run_turn happen_codex take_piece
drained [] rest later thread said r t a =
    let r' = record r { active = some (thread, rest) } in
    let (o, e) = conclude_returns said r' in ground (arith, e, append-nil said)
drained (says text ∷ queue) rest later thread said r t a =
    let r' = record r { active = some (thread, queue ++ completed ∷ rest) } in
    ground (
      arith,
      append_assoc said text (said_by queue),
      drained queue rest later thread (said ^^ text) r' t refl,
    )
drained (completed ∷ queue) rest later thread said r t a = cc
drained (breaks e ∷ queue) rest later thread said r t a = cc

-- A turn whose notifications, 255 pieces of text at most, come before their end is concluded with all
-- the text that they have for its thread, in their order and with nothing of other threads, once `Run`
-- has taken the pieces; whatever happens later.
pub run_says_all :
    (ms : List Message) (later : List CodexHappening) (thread : String) (r : CodexRuntime)
    → r.active ≡ some (thread, [])
    → all_text (pieces thread ms) ≡ true
    → length (pieces thread ms) < piece_cap
    → run_turn
        (notifications ms
          ++ notified (turn_completed thread) ∷ (taking (suc (length (pieces thread ms))) ++ later))
        ""
        r
      ≡ conclude (said_by (pieces thread ms)) (record (fed ms r) { active = some (thread, []) })
unfolding run_turn happen_codex read_message dispatch_piece
run_says_all ms later thread r a t fits =
    let r1 = fed ms r in
    let full : r1.active ≡ some (thread, pieces thread ms) =
      fed_lem ms thread r [] a (omega (arith)) in
    let r2 = dispatch_piece thread completed r1 in
    let ended : r2.active ≡ some (thread, pieces thread ms ++ completed ∷ []) =
      ground (arith, full, eq_refl thread) in
    let tail = taking (suc (length (pieces thread ms))) ++ later in
    let text = said_by (pieces thread ms) in
    ground (
      arith,
      full,
      eq_refl thread,
      nil-append text,
      run_notifications ms (notified (turn_completed thread) ∷ tail) "" r,
      drained (pieces thread ms) [] later thread "" r2 t ended,
    )
