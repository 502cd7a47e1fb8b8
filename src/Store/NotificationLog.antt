-- ===== src/Store/NotificationLog.antt =====
-- The tables `notification_log` and `push_subscriptions` of internal/store/store.go. The schedule
-- `fails` says which statements the driver refuses. A subscription is its endpoint; its keys are
-- not modelled.
use loomwatch.Prelude.{
  ℕ, suc, String, Bool, not, ◌&&◌, Option, none, some, List, [], ◌∷◌, ◌++◌, ok, err, Action, ◌==◌,
  string_eq, if◌then◌else◌, keep_if, find_if,
}
use loomwatch.Store.Cycles.{DbError, db_error}

pub record NotificationRow : Type 0 where
  pub provider : String
  pub quota_key : String
  pub notification_type : String
  pub sent_at : ℕ
  pub utilization : ℕ

pub record NotificationDb : Type 0 where
  pub log : List NotificationRow
  pub subscriptions : List String
  pub calls : ℕ
  pub fails : ℕ → Bool

-- `if provider == "" { provider = "legacy" }`
abbrev pub or_legacy : String → String
or_legacy provider = if provider == "" then "legacy" else provider

-- `WHERE provider = ? AND quota_key = ?`
abbrev pub is_about : String → String → NotificationRow → Bool
is_about provider key r = r.provider == provider && r.quota_key == key

-- `WHERE provider = ? AND quota_key = ? AND notification_type = ?`
abbrev pub is_entry : String → String → String → NotificationRow → Bool
is_entry provider key kind r =
    r.provider == provider && r.quota_key == key && r.notification_type == kind

-- `UpsertNotificationLog`: `INSERT OR REPLACE` over the unique key.
unfoldable pub upsert_notification_log :
    String → String → String → ℕ → ℕ → Action DbError NotificationDb (Unit {0})
upsert_notification_log provider key kind util now d =
    let p = or_legacy provider in
    let d' = record d { calls = suc d.calls } in
    let row : NotificationRow = record {
      provider = p;
      quota_key = key;
      notification_type = kind;
      sent_at = now;
      utilization = util;
    } in
    if d.fails d.calls
    then (err db_error, d')
    else (ok tt, record d' { log = keep_if (λ r. not (is_entry p key kind r)) d.log ++ row ∷ [] })

-- The time and utilization of a row, both 0 if there is none; the time 0 is Go's zero time.
abbrev pub sent_of : Option NotificationRow → ℕ × ℕ
sent_of none = (0, 0)
sent_of (some r) = (r.sent_at, r.utilization)

-- `GetLastNotification`
unfoldable pub get_last_notification :
    String → String → String → Action DbError NotificationDb (ℕ × ℕ)
get_last_notification provider key kind d =
    let d' = record d { calls = suc d.calls } in
    if d.fails d.calls
    then (err db_error, d')
    else (ok (sent_of (find_if (is_entry (or_legacy provider) key kind) d.log)), d')

-- `ClearNotificationLog`
unfoldable pub clear_notification_log : String → String → Action DbError NotificationDb (Unit {0})
clear_notification_log provider key d =
    let d' = record d { calls = suc d.calls } in
    if d.fails d.calls
    then (err db_error, d')
    else (ok tt, record d' { log = keep_if (λ r. not (is_about (or_legacy provider) key r)) d.log })

-- `GetPushSubscriptions`
unfoldable pub get_push_subscriptions : Action DbError NotificationDb (List String)
get_push_subscriptions d =
    let d' = record d { calls = suc d.calls } in
    if d.fails d.calls then (err db_error, d') else (ok d.subscriptions, d')

-- `DeletePushSubscription`
unfoldable pub delete_push_subscription : String → Action DbError NotificationDb (Unit {0})
delete_push_subscription endpoint d =
    let d' = record d { calls = suc d.calls } in
    if d.fails d.calls
    then (err db_error, d')
    else (ok tt, record d' { subscriptions = keep_if (λ e. not (e == endpoint)) d.subscriptions })
