-- ===== src/Notify/Engine.antt =====
-- `Check` and `sendNotification` of internal/notify/notify.go. The mailer and the push sender are
-- the schedule `delivers` of the messages that get through and `says_gone` of the errors that
-- mention 410, read at the number of messages tried so far; `attempts` lists the messages tried,
-- newest first. The texts of messages are not modelled.
use loomwatch.Prelude.{
  ℕ, suc, String, Bool, true, false, not, ◌&&◌, Option, none, some, List, [], ◌∷◌, Result, ok, err,
  ◌==◌, nat_eq, string_eq, if◌then◌else◌,
}
use loomwatch.Store.Cycles.{DbError}
use loomwatch.Store.NotificationLog.{
  NotificationDb, upsert_notification_log, get_last_notification, clear_notification_log,
  get_push_subscriptions, delete_push_subscription,
}
use loomwatch.Notify.Settings.{
  NotificationConfig, QuotaStatus, ThresholdOverride, normalize_notification_provider,
  notification_quota_key, find_override, disabled, alert_for,
}

-- A message by mail, or to a subscription's endpoint.
pub record Attempt : Type 0 where
  pub endpoint : Option String
  pub status : QuotaStatus
  pub kind : String

pub record Transport : Type 0 where
  pub sends : ℕ
  pub delivers : ℕ → Bool
  pub says_gone : ℕ → Bool
  pub attempts : List Attempt

-- `type NotificationEngine struct`; the two senders only say whether they are configured.
pub record NotificationEngine : Type 0 where
  pub cfg : NotificationConfig
  pub mailer : Bool
  pub push_sender : Bool
  pub db : NotificationDb
  pub transport : Transport

-- `mailer.Send` and `pushSender.Send`
unfoldable pub send :
    Option String → QuotaStatus → String → NotificationEngine → NotificationEngine × Bool
send endpoint status kind e =
    let t = e.transport in
    (
      record e {
        transport = record t {
          sends = suc t.sends;
          attempts = (record { endpoint = endpoint; status = status; kind = kind }) ∷ t.attempts;
        };
      },
      t.delivers t.sends,
    )

-- The email branch of `sendNotification`.
unfoldable pub send_email : QuotaStatus → String → NotificationEngine → NotificationEngine × Bool
send_email status kind e =
    if e.cfg.channels.email && e.mailer then send none status kind e else (e, false)

-- An endpoint that is gone is deleted; that statement's error is ignored.
unfoldable pub drop_if_gone : Bool → String → NotificationEngine → NotificationEngine
drop_if_gone gone endpoint e =
    if gone then record e { db = (delete_push_subscription endpoint e.db).1 } else e

-- One round of the loop over the subscriptions.
unfoldable pub push_one :
    String → QuotaStatus → String → NotificationEngine × Bool → NotificationEngine × Bool
push_one endpoint status kind (e, sent) =
    let gone = e.transport.says_gone e.transport.sends in
    let (e', delivered) = send (some endpoint) status kind e in
    if delivered then (e', true) else (drop_if_gone gone endpoint e', sent)

unfoldable pub send_pushes :
    List String → QuotaStatus → String → NotificationEngine × Bool → NotificationEngine × Bool
send_pushes [] status kind r = r
send_pushes (endpoint ∷ rest) status kind r =
    send_pushes rest status kind (push_one endpoint status kind r)

unfoldable pub with_subscriptions :
    QuotaStatus
    → String
    → NotificationEngine × Bool
    → Result DbError (List String)
    → NotificationEngine × Bool
with_subscriptions status kind r (err _) = r
with_subscriptions status kind r (ok subs) = send_pushes subs status kind r

-- The push branch of `sendNotification`.
unfoldable pub send_push :
    QuotaStatus → String → NotificationEngine × Bool → NotificationEngine × Bool
send_push status kind (e, sent) =
    if e.cfg.channels.push && e.push_sender
    then (let (r, db') = get_push_subscriptions e.db in
        with_subscriptions status kind (record e { db = db' }, sent) r)
    else (e, sent)

-- The message is logged if a channel succeeded; that statement's error is only logged.
unfoldable pub log_sent : QuotaStatus → String → ℕ → NotificationEngine × Bool → NotificationEngine
log_sent status kind now (e, sent) =
    let provider = normalize_notification_provider status.provider in
    let key = notification_quota_key status in
    if sent
    then record e { db = (upsert_notification_log provider key kind status.utilization now e.db).1 }
    else e

-- `sendNotification` once the log has been read.
unfoldable pub unless_sent :
    QuotaStatus → String → ℕ → NotificationEngine → Result DbError (ℕ × ℕ) → NotificationEngine
unless_sent status kind now e (err _) = e
unless_sent status kind now e (ok (sent_at, _)) =
    if not (sent_at == 0)
    then e
    else log_sent status kind now (send_push status kind (send_email status kind e))

-- `sendNotification`
unfoldable pub send_notification :
    QuotaStatus → String → ℕ → NotificationEngine → NotificationEngine
send_notification status kind now e =
    let provider = normalize_notification_provider status.provider in
    let key = notification_quota_key status in
    let (r, db') = get_last_notification provider key kind e.db in
    unless_sent status kind now (record e { db = db' }) r

-- The reset branch of `Check`.
unfoldable pub check_reset :
    Option ThresholdOverride → QuotaStatus → ℕ → NotificationEngine → NotificationEngine
check_reset override status now e =
    let provider = normalize_notification_provider status.provider in
    let key = notification_quota_key status in
    let cleared = record e { db = (clear_notification_log provider key e.db).1 } in
    if e.cfg.types.reset && not (disabled (λ o. o.disable_reset) override)
    then send_notification status "reset" now cleared
    else cleared

unfoldable pub send_alert :
    Option String → QuotaStatus → ℕ → NotificationEngine → NotificationEngine
send_alert none status now e = e
send_alert (some kind) status now e = send_notification status kind now e

-- `Check`
unfoldable pub check : QuotaStatus → ℕ → NotificationEngine → NotificationEngine
check status now e =
    let override = find_override e.cfg status in
    if not e.mailer && not e.push_sender
    then e
    else if status.reset_occurred
    then check_reset override status now e
    else send_alert (alert_for e.cfg override status) status now e
