-- ===== src/Feishu/Secrets.antt =====
-- The clients that the texts of a bot are sent by.
use channel_plugin.Prelude.{
  String, some, arith, ◌≡◌, refl, sym, ◌∙◌, eq_refl, Option-cases, inl, inr,
}
use channel_plugin.GoMap
use channel_plugin.GoMap.{GoMap, get-put, get-delete}
use channel_plugin.Feishu.Runtime.{Credentials}
use channel_plugin.Feishu.Api.{Lark, LarkClient, SendParams, lark_client, send_text}

-- a client that is kept is taken
lark_client_hit :
    (id secret : String) (clients : GoMap LarkClient) {k : LarkClient}
    → GoMap.get clients id ≡ some k
    → lark_client id secret clients ≡ (k, clients)
unfolding lark_client
lark_client_hit id secret clients h = rw (h, lark_client) refl

lark_client_there :
    (id secret : String) (clients : GoMap LarkClient)
    → GoMap.get (lark_client id secret clients).1 id ≡ some (lark_client id secret clients).0
unfolding lark_client
lark_client_there id secret clients = elim (Option-cases (GoMap.get clients id)) [
  | inl n ↦
      let k : LarkClient = record { app_id = id; app_secret = secret } in
      rw (n, lark_client) (ground (arith, get-put clients id id k, eq_refl id))
  | inr (k, e) ↦ rw (e, lark_client) e
]

lark_client_kept :
    (id first second : String) (clients : GoMap LarkClient)
    → lark_client id second (lark_client id first clients).1
      ≡ lark_client id first (lark_client id first clients).1
lark_client_kept id first second clients =
    let kept = (lark_client id first clients).1 in
    let there = lark_client_there id first clients in
    lark_client_hit id second kept there ∙ sym (lark_client_hit id first kept there)

-- Once a text has been sent with the credentials of an app, the sending of a text with other
-- credentials of the same app does what it does with the first ones.
pub first_secret_kept :
    {W : Type 0} (api : Lark W) (first second : Credentials) (sent p : SendParams)
    (clients : GoMap LarkClient) (before w : W)
    → second.app_id ≡ first.app_id
    → let (err, (clients', after)) = send_text api first sent clients before in
      send_text api second p clients' w ≡ send_text api first p clients' w
unfolding send_text
first_secret_kept api first second sent p clients before w same =
    let id = first.app_id in
    let secret = first.app_secret in
    rw same (rw (lark_client_kept id secret second.app_secret clients) refl)
