-- ===== src/Bot/Service/World.antt =====
-- The tables of internal/store/repositories that the services of internal/app read and write, and a
-- call of a service as an action over them: the answer or the error, and the tables that are left.
use channel_plugin.Prelude.{
  ℕ, suc, String, Bool, Option, none, some, List, [], ◌∷◌, if◌then◌else◌, ◌≡◌, refl, ◌⊎◌, inl, inr,
}
use channel_plugin.GoMap.{GoMap}
use channel_plugin.Domain.{
  Bot, ChannelBinding, ChannelAccount, McpServer, StoreError, not_found, failure,
}
use channel_plugin.Bot.Connections.Defs.{Handles}

-- `calls` counts the statements that the database was sent, and `handles` is the table of runtimes.
pub record World : Type 0 where
  pub users : GoMap String
  pub bots : GoMap Bot
  pub bindings : GoMap ChannelBinding
  pub accounts : List ChannelAccount
  pub servers : List McpServer
  -- bot and server
  pub attached : List (String × String)
  pub handles : Handles
  pub calls : ℕ

-- An error: `ErrInvalidArg` perhaps wrapped, one of a repository, or the text of another.
pub data Failure : Type 0 where
  invalid_arg : Failure
  store : StoreError → Failure
  other : String → Failure

pub data Result {ℓ} (A : Type ℓ) : Type ℓ where
  ok : A → Result A
  err : Failure → Result A

pub Result-cases {ℓ} :
    {A : Type ℓ} (r : Result A) → ((a : A) × (r ≡ ok a)) ⊎ ((e : Failure) × (r ≡ err e))
Result-cases (ok a) = inl (a, refl)
Result-cases (err e) = inr (e, refl)

-- What the database and the library of identifiers answer: with which error the n-th statement fails,
-- if it does, and the identifier and the time that are drawn at it.
pub record Env : Type 0 where
  pub fault : ℕ → Option String
  pub new_id : String → ℕ → String
  pub now : ℕ → ℕ

abbrev pub Action {ℓ} : Type ℓ → Type ℓ
Action A = World → Result A × World

infixl 5 ◌>>=◌ ◌>>◌
abbrev pub ◌>>=◌ {ℓ κ} : {A : Type ℓ} {B : Type κ} → Action A → (A → Action B) → Action B
◌>>=◌ m f w = let (r, w') = m w in elim r [ ok a ↦ f a w' | err e ↦ (err e, w') ]

abbrev pub ◌>>◌ {ℓ κ} : {A : Type ℓ} {B : Type κ} → Action A → Action B → Action B
m >> k = m >>= λ _. k

module _ {ℓ} {A : Type ℓ} where
  abbrev pub pure : A → Action A
  pure a w = (ok a, w)

  abbrev pub raise : Failure → Action A
  raise e w = (err e, w)

  abbrev pub gets : (World → A) → Action A
  gets f w = (ok (f w), w)

  -- `_, _ = m`
  abbrev pub ignore : Action A → Action (Unit {0})
  ignore m w = (ok tt, (m w).1)

  abbrev pub try_with : (Failure → Action A) → Action A → Action A
  try_with f m w = let (r, w') = m w in elim r [ ok a ↦ (ok a, w') | err e ↦ f e w' ]

-- goes on with the answer or the error that `f` makes of it
abbrev pub on_result {ℓ κ} : {A : Type ℓ} {B : Type κ} → (Result A → Result B) → Action A → Action B
on_result f m w = (f (m w).0, (m w).1)

abbrev pub raise_if : Bool → Failure → Action (Unit {0})
raise_if c e w = (if c then err e else ok tt, w)

-- `ErrNotFound` for a row that is not there.
abbrev pub found : {A : Type 0} → Option A → Result A
found none = err (store not_found)
found (some a) = ok a

abbrev pub select : {A : Type 0} → (A → Bool) → List A → List A
select p [] = []
select p (x ∷ xs) = let rest = select p xs in if p x then x ∷ rest else rest

abbrev pub first : {A : Type 0} → (A → Bool) → List A → Option A
first p [] = none
first p (x ∷ xs) = let rest = first p xs in if p x then some x else rest

abbrev pub traverse : {A B : Type 0} → (A → Action B) → List A → Action (List B)
traverse f [] = pure []
traverse f (x ∷ xs) = do y ← f x; ys ← traverse f xs; pure (y ∷ ys)

module _ (env : Env) where
  -- One statement: it fails as a whole, or it answers and writes.
  abbrev pub statement : {A : Type 0} → (World → Result A × World) → Action A
  statement f w =
      let w' = record w { calls = suc w.calls } in
      elim (env.fault w.calls) [ none ↦ f w' | some e ↦ (err (store (failure e)), w') ]

-- the database's answer to a primary key that is taken
abbrev pub unique : StoreError
unique = failure "UNIQUE constraint failed"
