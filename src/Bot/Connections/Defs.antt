-- ===== src/Bot/Connections/Defs.antt =====
-- The table of handles, `Start` and `handleState`.
use channel_plugin.Prelude.{ℕ, String, Bool, true, false, Option, none, some, List, []}
use channel_plugin.GoMap
use channel_plugin.GoMap.{GoMap}
use channel_plugin.Channel.{StartRuntimeRequest}
use channel_plugin.Domain.{
  Bot, ChannelAccount, StoreError, Fetched, got, missed, status_connected, status_login_required,
  status_error,
}

abbrev pub Handles : Type 0
Handles = GoMap (Option ℕ)

-- What the manager was made with. `repositories` is `none` where one of the two is nil; `decrypt` is
-- `none` where there is no cipher, and its answer is `none` for an error, as that of `start_runtime` is.
pub record Services : Type 0 where
  pub repositories : Option ((String → Fetched Bot) × (String → Fetched ChannelAccount))
  pub decrypt : Option (List ℕ → Option (List ℕ))
  pub start_runtime : StartRuntimeRequest → Option ℕ

pub data StartError : Type 0 where
  already_started decrypt_failed runtime_failed : StartError
  store_failed : StoreError → StartError

pub data Prepared : Type 0 where
  ready : StartRuntimeRequest → Prepared
  refused : StartError → Prepared

payload : Option (List ℕ → Option (List ℕ)) → List ℕ → Option (List ℕ)
payload none c = some c
payload (some decrypt) c = decrypt c

prepare_account : Services → Bot → ChannelAccount → Prepared
unfolding payload
prepare_account s bot account = elim (payload s.decrypt account.credential_ciphertext) [
  | none ↦ refused decrypt_failed
  | some p ↦ ready (record {
    bot_id = bot.id;
    channel_type = bot.channel_type;
    account_uid = account.account_uid;
    credential_payload = p;
    credential_version = account.credential_version;
  })
]

-- The request of `Start`.
unfoldable pub prepare : Services → String → Prepared
unfolding prepare_account
prepare s bot_id = elim s.repositories [
  | none ↦ ready (record {
    bot_id = bot_id;
    channel_type = "";
    account_uid = "";
    credential_payload = [];
    credential_version = 0;
  })
  | some (get_bot, get_account) ↦ elim (get_bot bot_id) [
    | missed e ↦ refused (store_failed e)
    | got bot ↦ elim (get_account bot.channel_account_id) [
      | missed e ↦ refused (store_failed e)
      | got account ↦ prepare_account s bot account
    ]
  ]
]

-- The deferred cleanup: a reservation that is still there is taken back.
unfoldable pub release : Handles → String → Handles
release h bot_id = elim (GoMap.get h bot_id) [
  | none ↦ h
  | some none ↦ GoMap.delete h bot_id
  | some (some k) ↦ h
]

-- What `Start` leaves: the table, its error if any, and the runtime that it started and stopped again.
pub record Started : Type 0 where
  pub handles : Handles
  pub error : Option StartError
  pub stopped : Option ℕ

-- `Start` behind `StartRuntime`.
unfoldable pub commit : Handles → String → ℕ → Started
commit h bot_id k = elim (GoMap.get h bot_id) [
  | none ↦ record { handles = release h bot_id; error = some already_started; stopped = some k }
  | some (some other) ↦ record {
    handles = release h bot_id;
    error = some already_started;
    stopped = some k;
  }
  | some none ↦ record { handles = GoMap.put h bot_id (some k); error = none; stopped = none }
]

-- `Start`; `others` is what other goroutines do to the table while the request is prepared and the
-- runtime starts, its own callbacks among them.
unfoldable pub start : Services → (Handles → Handles) → Handles → String → Started
start s others h bot_id = elim (GoMap.get h bot_id) [
  | some k ↦ record { handles = h; error = some already_started; stopped = none }
  | none ↦
      let h' = others (GoMap.put h bot_id none) in
      elim (prepare s bot_id) [
        | refused e ↦ record { handles = release h' bot_id; error = some e; stopped = none }
        | ready req ↦ elim (s.start_runtime req) [
          | none ↦ record {
            handles = release h' bot_id;
            error = some runtime_failed;
            stopped = none;
          }
          | some k ↦ commit h' bot_id k
        ]
      ]
]

-- A `RuntimeStateEvent`: an error event may carry an error, of which the program asks whether the
-- session has expired.
pub record RuntimeError : Type 0 where
  pub expired : Bool
  pub message : String

pub data StateEvent : Type 0 where
  connected stopped : StateEvent
  failed : Option RuntimeError → StateEvent
  -- any other state
  unknown : StateEvent

error_status : Option RuntimeError → String
error_status none = status_error
error_status (some e) = elim e.expired [ true ↦ status_login_required | false ↦ status_error ]

with_error : Option RuntimeError → Bot → Bot
with_error none bot = bot
with_error (some e) bot = record bot { connection_error = e.message }

-- `handleState`: the table, the row that is written, and whether `onStop` is called.
unfoldable pub handle_state : Handles → Bot → StateEvent → Handles × Option Bot × Bool
unfolding error_status with_error
handle_state h bot connected =
    (h, some (record bot { connection_status = status_connected; connection_error = "" }), false)
handle_state h bot (failed err) = (
  GoMap.delete h bot.id,
  some (with_error err (record bot { connection_status = error_status err })),
  true,
)
handle_state h bot stopped = (GoMap.delete h bot.id, none, true)
handle_state h bot unknown = (h, none, false)

-- `Active`
unfoldable pub active : Handles → String → Bool
active h bot_id = elim (GoMap.get h bot_id) [ none ↦ false | some k ↦ true ]
