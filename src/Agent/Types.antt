-- ===== src/Agent/Types.antt =====
-- internal/agent/types.go, and the comparison of specs that `Session.Matches` makes.
-- A nil slice or map is `none`. A Go map is the list of its entries in key order, so that maps with
-- the same entries are the same list.
use channel_plugin.Prelude.{
  ℕ, String, ◌≡◌, refl, Bool, true, false, not, ◌&&◌, Option, none, some, List, [], ◌∷◌, arith,
  ◌==◌, nat_eq, eq_refl,
}
use channel_plugin.Prelude.Int.{ℤ, pos, negsuc}

pub data SessionState : Type 0 where
  starting ready busy broken stopped : SessionState

-- `Timeout` is in nanoseconds.
pub record Spec : Type 0 where
  pub bot_id : String
  pub bot_name : String
  pub type : String
  pub command : String
  pub args : Option (List String)
  pub work_dir : String
  pub sqlite_path : String
  pub env : Option (List (String × String))
  pub timeout : ℤ
  pub queue_size : ℤ
  pub orchestrator : Bool
  pub real_cli : Bool
  pub resume_session_id : String

pub record ScheduledTask : Type 0 where
  pub id : String
  pub interval : ℤ
  pub prompt : String

-- `Metadata` and `OnProgress` are left out: nothing that is modelled reads them.
pub record Request : Type 0 where
  pub bot_id : String
  pub user_id : String
  pub message_id : String
  pub prompt : String

-- `Duration` is left out.
pub record Response : Type 0 where
  pub text : String
  pub runtime_type : String
  pub exit_code : ℕ
  pub raw_output : String
  pub session_id : String

pub record PushResponse : Type 0 where
  pub response : Response
  pub task_id : String

-- What an error of the runtime or the executor is, as far as the program asks (`errors.Is`).
pub data RunError : Type 0 where
  deadline_exceeded canceled : RunError
  other : String → RunError

unfoldable pub bool_eq : Bool → Bool → Bool
bool_eq true b = b
bool_eq false true = false
bool_eq false false = true

int_eq : ℤ → ℤ → Bool
int_eq (pos a) (pos b) = nat_eq a b
int_eq (negsuc a) (negsuc b) = nat_eq a b
int_eq _ _ = false

strings_eq : List String → List String → Bool
strings_eq [] [] = true
strings_eq (x ∷ xs) (y ∷ ys) = x == y && strings_eq xs ys
strings_eq _ _ = false

entries_eq : List (String × String) → List (String × String) → Bool
entries_eq [] [] = true
entries_eq ((k, v) ∷ xs) ((j, w) ∷ ys) = k == j && v == w && entries_eq xs ys
entries_eq _ _ = false

-- A nil slice or map is not equal to an empty one.
option_eq {ℓ} : {A : Type ℓ} → (A → A → Bool) → Option A → Option A → Bool
option_eq eq none none = true
option_eq eq (some a) (some b) = eq a b
option_eq eq _ _ = false

-- `reflect.DeepEqual` at two specs.
pub deep_equal : Spec → Spec → Bool
unfolding bool_eq int_eq strings_eq entries_eq option_eq
deep_equal a b =
    a.bot_id == b.bot_id
    && a.bot_name == b.bot_name
    && a.type == b.type
    && a.command == b.command
    && option_eq strings_eq a.args b.args
    && a.work_dir == b.work_dir
    && a.sqlite_path == b.sqlite_path
    && option_eq entries_eq a.env b.env
    && int_eq a.timeout b.timeout
    && int_eq a.queue_size b.queue_size
    && bool_eq a.orchestrator b.orchestrator
    && bool_eq a.real_cli b.real_cli
    && a.resume_session_id == b.resume_session_id

-- `append([]string(nil), args...)` is nil where `args` is empty.
abbrev pub copy_slice : List String → Option (List String)
copy_slice [] = none
copy_slice (x ∷ xs) = some (x ∷ xs)

clone_args : Option (List String) → Option (List String)
clone_args none = none
clone_args (some xs) = copy_slice xs

-- `cloneSpec`; the copied map has the same entries.
unfoldable pub clone_spec : Spec → Spec
unfolding clone_args
clone_spec spec = record spec { args = clone_args spec.args }

bool_eq_refl : (b : Bool) → bool_eq b b ≡ true
unfolding bool_eq
bool_eq_refl true = refl
bool_eq_refl false = refl

int_eq_refl : (a : ℤ) → int_eq a a ≡ true
unfolding int_eq
int_eq_refl (pos n) = ground arith
int_eq_refl (negsuc n) = ground arith

strings_eq_refl : (xs : List String) → strings_eq xs xs ≡ true
unfolding strings_eq
strings_eq_refl [] = refl
strings_eq_refl (x ∷ xs) = simp (eq_refl, strings_eq_refl xs)

entries_eq_refl : (xs : List (String × String)) → entries_eq xs xs ≡ true
unfolding entries_eq
entries_eq_refl [] = refl
entries_eq_refl ((k, v) ∷ xs) = simp (eq_refl, entries_eq_refl xs)

env_eq_refl : (e : Option (List (String × String))) → option_eq entries_eq e e ≡ true
unfolding option_eq
env_eq_refl none = refl
env_eq_refl (some xs) = entries_eq_refl xs

-- Has the spec a slice of arguments that is neither nil nor filled?
abbrev pub has_empty_args : Spec → Bool
has_empty_args spec = elim spec.args [
  | none ↦ false
  | some xs ↦ elim xs [ [] ↦ true | _ ∷ _ ↦ false ]
]

clone_args_eq :
    (a : Option (List String))
    → option_eq strings_eq (clone_args a) a
      ≡ elim a [ none ↦ true | some xs ↦ elim xs [ [] ↦ false | _ ∷ _ ↦ true ] ]
unfolding option_eq clone_args
clone_args_eq none = refl
clone_args_eq (some []) = refl
clone_args_eq (some (x ∷ xs)) = strings_eq_refl (x ∷ xs)

-- A cloned spec is equal to the spec that it was cloned from, unless the arguments of that are
-- empty and not nil.
pub deep_equal-clone_spec :
    (spec : Spec) → deep_equal (clone_spec spec) spec ≡ not (has_empty_args spec)
unfolding clone_spec deep_equal
deep_equal-clone_spec spec =
    simp (eq_refl, bool_eq_refl, int_eq_refl, env_eq_refl) (ground (arith, clone_args_eq spec.args))
