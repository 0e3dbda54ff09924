-- ===== src/GoMap.antt =====
-- Go's `map[string]V`. Iteration order, which Go leaves open, is the order of the entries here.
-- The representation is private to this file: clients have the laws.
use channel_plugin.Prelude.{
  String, ◌≡◌, refl, Bool, Option, none, some, List, [], ◌∷◌, map, arith, ◌==◌, eq_iff,
  if◌then◌else◌,
}

pub record GoMap {ℓ} (V : Type ℓ) : Type ℓ where
  entries : List (String × V)

module _ {ℓ} {V : Type ℓ} where
  -- the value of the first entry under the key
  find : String → List (String × V) → Option V
  find key [] = none
  find key (e ∷ es) = if e.0 == key then some e.1 else find key es

  -- the entries under other keys
  erase : String → List (String × V) → List (String × V)
  erase key [] = []
  erase key (e ∷ es) = let others = erase key es in if e.0 == key then others else e ∷ others

  -- `for k, v := range m { if p(k, v) { delete(m, k) } }`
  erase_if : (String → V → Bool) → List (String × V) → List (String × V)
  unfolding erase
  erase_if p [] = []
  erase_if p (e ∷ es) =
      let others = erase_if p es in if p e.0 e.1 then erase e.0 others else e ∷ others

  find-erase :
      (key other : String) (es : List (String × V))
      → find other (erase key es) ≡ (if key == other then none else find other es)
  unfolding find erase
  find-erase key other [] = ground arith
  find-erase key other (e ∷ es) =
      let ih = find-erase key other es in
      ground (arith, ih, eq_iff key other, eq_iff e.0 key, eq_iff e.0 other)

  -- What is left of an entry when those with `p` are deleted.
  abbrev pub unless : (String → V → Bool) → String → Option V → Option V
  unless p key none = none
  unless p key (some v) = if p key v then none else some v

  find-erase_if :
      (p : String → V → Bool) (key : String) (es : List (String × V))
      → find key (erase_if p es) ≡ unless p key (find key es)
  unfolding find erase_if
  find-erase_if p key [] = refl
  find-erase_if p key (e ∷ es) =
      let ih = find-erase_if p key es in
      ground (arith, ih, find-erase e.0 key (erase_if p es), eq_iff e.0 key)

module _ {ℓ} {V : Type ℓ} where
  -- make(map[string]V)
  pub empty : GoMap V
  empty = record { entries = [] }

  -- v, ok := m[k]
  pub get : GoMap V → String → Option V
  unfolding find
  get m k = find k m.entries

  -- m[k] = v
  pub put : GoMap V → String → V → GoMap V
  unfolding erase
  put m k v = record { entries = (k, v) ∷ erase k m.entries }

  -- delete(m, k)
  pub delete : GoMap V → String → GoMap V
  unfolding erase
  delete m k = record { entries = erase k m.entries }

  pub delete_if : (String → V → Bool) → GoMap V → GoMap V
  unfolding erase_if
  delete_if p m = record { entries = erase_if p m.entries }

  -- the values that `for _, v := range m` meets
  pub values : GoMap V → List V
  values m = map (λ e. e.1) m.entries

  pub get-put :
      (m : GoMap V) (k j : String) (v : V)
      → get (put m k v) j ≡ (if k == j then some v else get m j)
  unfolding get put
  get-put m k j v = ground (arith, find-erase k j m.entries)

  pub get-delete :
      (m : GoMap V) (k j : String) → get (delete m k) j ≡ (if k == j then none else get m j)
  unfolding get delete
  get-delete m k j = find-erase k j m.entries

  pub get-delete_if :
      (p : String → V → Bool) (m : GoMap V) (j : String)
      → get (delete_if p m) j ≡ unless p j (get m j)
  unfolding get delete_if
  get-delete_if p m j = find-erase_if p j m.entries

  pub values-empty : values empty ≡ []
  unfolding values empty
  values-empty = refl

pub get-empty {ℓ} : {V : Type ℓ} (k : String) → get (empty {V = V}) k ≡ none
unfolding get empty
get-empty k = refl

pub ruleset map_laws = (get-empty, get-put, get-delete, get-delete_if)
