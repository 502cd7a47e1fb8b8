-- ===== src/Notify/Once.antt =====
-- An alert that got through is not sent again before the quota's reset, whatever the channels and
-- the database do.
use loomwatch.Prelude.{
  ℕ, suc, ◌≡◌, refl, ◌∙◌, inl, inr, Bool-cases, String, Bool, true, false, not, ◌&&◌, Option, none,
  some, List, [], ◌∷◌, ◌++◌, arith, Result, ok, err, ◌==◌, nat_eq, string_eq, count_if, find_if,
  keep_if,
}
use loomwatch.Store.Cycles.{DbError}
use loomwatch.Store.NotificationLog.{
  NotificationDb, NotificationRow, or_legacy, is_about, is_entry, sent_of, upsert_notification_log,
  get_last_notification, clear_notification_log, get_push_subscriptions, delete_push_subscription,
}
use loomwatch.Notify.Settings.{
  QuotaStatus, ThresholdOverride, normalize_notification_provider, notification_quota_key,
  find_override, alert_for,
}
use loomwatch.Notify.Engine.{
  Attempt, NotificationEngine, send, send_email, drop_if_gone, push_one, send_pushes,
  with_subscriptions, send_push, log_sent, unless_sent, send_notification, check_reset, send_alert,
  check,
}

-- A status of the quota that the log knows under a provider and a key.
abbrev pub is_quota : String → String → QuotaStatus → Bool
is_quota p key status =
    normalize_notification_provider status.provider == p && notification_quota_key status == key

abbrev pub is_message : String → String → String → Attempt → Bool
is_message p key kind a = is_quota p key a.status && a.kind == kind

-- How often a message was tried.
abbrev pub tries : String → String → String → NotificationEngine → ℕ
tries p key kind e = count_if (is_message p key kind) e.transport.attempts

abbrev pub entry : String → String → String → NotificationEngine → Option NotificationRow
entry p key kind e = find_if (is_entry p key kind) e.db.log

-- The log has a message at a time that is not the zero time.
abbrev pub is_logged : String → String → String → NotificationEngine → Bool
is_logged p key kind e = not ((sent_of (entry p key kind e)).0 == 0)

pub normalized :
    (provider : String)
    → or_legacy (normalize_notification_provider provider)
      ≡ normalize_notification_provider provider
unfolding normalize_notification_provider
normalized provider = ground arith

module _ (p key kind : String) where
  -- No such message was tried, and the log says of it what it said.
  abbrev pub Quiet : NotificationEngine → NotificationEngine → Type 0
  Quiet e e' =
      (tries p key kind e' ≡ tries p key kind e) × (entry p key kind e' ≡ entry p key kind e)

  both : (a b c : NotificationEngine) → Quiet a b → Quiet b c → Quiet a c
  both a b c p q = (q.0 ∙ p.0, q.1 ∙ p.1)

  entry-append :
      (log : List NotificationRow) (row : NotificationRow)
      → is_entry p key kind row ≡ false
      → find_if (is_entry p key kind) (log ++ row ∷ []) ≡ find_if (is_entry p key kind) log
  entry-append [] row other = rw other refl
  entry-append (r ∷ log) row other = ground (arith, entry-append log row other)

  entry-keep_if :
      (keep : NotificationRow → Bool) (log : List NotificationRow)
      → ((r : NotificationRow) → is_entry p key kind r ≡ true → keep r ≡ true)
      → find_if (is_entry p key kind) (keep_if keep log) ≡ find_if (is_entry p key kind) log
  entry-keep_if keep [] kept = refl
  entry-keep_if keep (r ∷ log) kept = ground (arith, entry-keep_if keep log kept, kept r)

  module _ (status : QuotaStatus) (kind' : String)
      (other : (is_quota p key status && kind' == kind) ≡ false) where
    send-Quiet :
        (endpoint : Option String) (e : NotificationEngine)
        → Quiet e (send endpoint status kind' e).0
    unfolding send
    send-Quiet endpoint e = (rw other refl, refl)

    send_email-Quiet : (e : NotificationEngine) → Quiet e (send_email status kind' e).0
    unfolding send_email
    send_email-Quiet e = ground (arith, send-Quiet none e)

    drop_if_gone-Quiet :
        (gone : Bool) (endpoint : String) (e : NotificationEngine)
        → Quiet e (drop_if_gone gone endpoint e)
    unfolding drop_if_gone delete_push_subscription
    drop_if_gone-Quiet gone endpoint e = ground arith

    push_one-Quiet :
        (endpoint : String) (e : NotificationEngine) (sent : Bool)
        → Quiet e (push_one endpoint status kind' (e, sent)).0
    unfolding push_one
    push_one-Quiet endpoint e sent =
        let one = send-Quiet (some endpoint) e in
        let gone = e.transport.says_gone e.transport.sends in
        let two = drop_if_gone-Quiet gone endpoint (send (some endpoint) status kind' e).0 in
        ground (arith, one, two)

    send_pushes-Quiet :
        (subs : List String) (e : NotificationEngine) (sent : Bool)
        → Quiet e (send_pushes subs status kind' (e, sent)).0
    unfolding send_pushes
    send_pushes-Quiet [] e sent = (refl, refl)
    send_pushes-Quiet (endpoint ∷ rest) e sent =
        let r = push_one endpoint status kind' (e, sent) in
        both e r.0 (send_pushes rest status kind' r).0 (push_one-Quiet endpoint e sent)
          (send_pushes-Quiet rest r.0 r.1)

    send_push-Quiet :
        (e : NotificationEngine) (sent : Bool) → Quiet e (send_push status kind' (e, sent)).0
    unfolding send_push get_push_subscriptions with_subscriptions
    send_push-Quiet e sent =
        let db' : NotificationDb = record e.db { calls = suc e.db.calls } in
        let pushed = send_pushes-Quiet e.db.subscriptions (record e { db = db' }) sent in
        ground (arith, pushed)

    entry_other :
        (r : NotificationRow)
        → is_entry p key kind r ≡ true
        → not (
            is_entry
              (normalize_notification_provider status.provider)
              (notification_quota_key status)
              kind'
              r)
          ≡ true
    entry_other r h =
        let p' = normalize_notification_provider status.provider in
        let key' = notification_quota_key status in
        ground (
          arith,
          string_eq.matches_iff r.provider p,
          string_eq.matches_iff r.quota_key key,
          string_eq.matches_iff r.notification_type kind,
          string_eq.matches_iff r.provider p',
          string_eq.matches_iff r.quota_key key',
          string_eq.matches_iff r.notification_type kind',
          string_eq.matches_iff p' p,
          string_eq.matches_iff key' key,
          string_eq.matches_iff kind' kind,
        )

    log_sent-Quiet :
        (now : ℕ) (e : NotificationEngine) (sent : Bool)
        → Quiet e (log_sent status kind' now (e, sent))
    unfolding log_sent upsert_notification_log
    log_sent-Quiet now e sent =
        let p' = normalize_notification_provider status.provider in
        let key' = notification_quota_key status in
        let row : NotificationRow = record {
          provider = p';
          quota_key = key';
          notification_type = kind';
          sent_at = now;
          utilization = status.utilization;
        } in
        let keep = λ (r : NotificationRow). not (is_entry p' key' kind' r) in
        let kept = entry-keep_if keep e.db.log entry_other in
        let added = entry-append (keep_if keep e.db.log) row (ground arith) in
        ground (arith, normalized status.provider, kept, added)

    unless_sent-Quiet :
        (now : ℕ) (e : NotificationEngine) (r : Result DbError (ℕ × ℕ))
        → Quiet e (unless_sent status kind' now e r)
    unfolding unless_sent
    unless_sent-Quiet now e (err _) = (refl, refl)
    unless_sent-Quiet now e (ok (sent_at, util)) =
        let mailed = send_email status kind' e in
        let pushed = send_push status kind' mailed in
        let all =
          both e pushed.0 (log_sent status kind' now pushed)
            (both e mailed.0 pushed.0 (send_email-Quiet e) (send_push-Quiet mailed.0 mailed.1))
            (log_sent-Quiet now pushed.0 pushed.1) in
        ground (arith, all)

  -- A message that the log has is not tried, and every other message is another one.
  send_notification-Quiet :
      (status : QuotaStatus) (kind' : String) (now : ℕ) (e : NotificationEngine)
      → is_logged p key kind e ≡ true
      → Quiet e (send_notification status kind' now e)
  unfolding send_notification get_last_notification unless_sent
  send_notification-Quiet status kind' now e logged =
      elim (Bool-cases (is_quota p key status && kind' == kind)) [
        | inr other ↦
            let p' = normalize_notification_provider status.provider in
            let db' : NotificationDb = record e.db { calls = suc e.db.calls } in
            let r = get_last_notification p' (notification_quota_key status) kind' e.db in
            let quiet = unless_sent-Quiet status kind' other now (record e { db = db' }) r.0 in
            ground (arith, quiet)
        | inl same ↦
            let p' = normalize_notification_provider status.provider in
            let key' = notification_quota_key status in
            let e1 : p' ≡ p = ground (arith, string_eq.matches_iff p' p) in
            let e2 : key' ≡ key = ground (arith, string_eq.matches_iff key' key) in
            let e3 : kind' ≡ kind = ground (arith, string_eq.matches_iff kind' kind) in
            let found : find_if (is_entry (or_legacy p') key' kind') e.db.log ≡ entry p key kind e =
              rw (normalized status.provider, e1, e2, e3) refl in
            ground (arith, found)
      ]

  send_alert-Quiet :
      (alert : Option String) (status : QuotaStatus) (now : ℕ) (e : NotificationEngine)
      → is_logged p key kind e ≡ true
      → Quiet e (send_alert alert status now e)
  unfolding send_alert
  send_alert-Quiet none status now e logged = (refl, refl)
  send_alert-Quiet (some kind') status now e logged =
      send_notification-Quiet status kind' now e logged

  about_other :
      (status : QuotaStatus)
      → is_quota p key status ≡ false
      → (r : NotificationRow) → is_entry p key kind r ≡ true
      → not (
          is_about
            (or_legacy (normalize_notification_provider status.provider))
            (notification_quota_key status)
            r)
        ≡ true
  about_other status other r h =
      let p' = normalize_notification_provider status.provider in
      let key' = notification_quota_key status in
      rw (normalized status.provider) (
        ground (
          arith,
          string_eq.matches_iff r.provider p,
          string_eq.matches_iff r.quota_key key,
          string_eq.matches_iff r.provider p',
          string_eq.matches_iff r.quota_key key',
          string_eq.matches_iff p' p,
          string_eq.matches_iff key' key,
        ))

  -- The reset of another quota.
  check_reset-Quiet :
      (override : Option ThresholdOverride) (status : QuotaStatus) (now : ℕ)
      (e : NotificationEngine)
      → is_quota p key status ≡ false
      → is_logged p key kind e ≡ true
      → Quiet e (check_reset override status now e)
  unfolding check_reset clear_notification_log
  check_reset-Quiet override status now e other logged =
      let p' = normalize_notification_provider status.provider in
      let key' = notification_quota_key status in
      let keep = λ (r : NotificationRow). not (is_about (or_legacy p') key' r) in
      let kept = entry-keep_if keep e.db.log (about_other status other) in
      let cleared : NotificationEngine = record e {
        db = (clear_notification_log p' key' e.db).1;
      } in
      let same : Quiet e cleared = ground (arith, kept) in
      let next = send_notification-Quiet status "reset" now cleared (ground (arith, same)) in
      ground (arith, same, next)

  -- A check that is not about a reset of the quota.
  check-Quiet :
      (status : QuotaStatus) (now : ℕ) (e : NotificationEngine)
      → (status.reset_occurred && is_quota p key status) ≡ false
      → is_logged p key kind e ≡ true
      → Quiet e (check status now e)
  unfolding check
  check-Quiet status now e unreset logged =
      let override = find_override e.cfg status in
      let alert = send_alert-Quiet (alert_for e.cfg override status) status now e logged in
      elim (Bool-cases (is_quota p key status)) [
        | inl same ↦ ground (arith, alert)
        | inr other ↦ ground (arith, alert, check_reset-Quiet override status now e other logged)
      ]

-- Checks in order, each with its time.
unfoldable pub check_all : List (QuotaStatus × ℕ) → NotificationEngine → NotificationEngine
check_all [] e = e
check_all ((status, now) ∷ cs) e = check_all cs (check status now e)

-- No check reports a reset of the quota.
abbrev pub NoReset : String → String → List (QuotaStatus × ℕ) → Type 0
NoReset p key [] = Unit
NoReset p key ((status, now) ∷ cs) =
    ((status.reset_occurred && is_quota p key status) ≡ false) × NoReset p key cs

-- Once the log has a message of some kind about a quota, no checks try it again until one reports
-- a reset of that quota, whatever the other checks are about, whichever messages get through, and
-- whichever statements of the database fail; and the log still has it.
pub check_all_once :
    (p key kind : String) (checks : List (QuotaStatus × ℕ)) (e : NotificationEngine)
    → is_logged p key kind e ≡ true
    → NoReset p key checks
    → (tries p key kind (check_all checks e) ≡ tries p key kind e)
      × (is_logged p key kind (check_all checks e) ≡ true)
unfolding check_all
check_all_once p key kind [] e logged quiet = (refl, logged)
check_all_once p key kind ((status, now) ∷ cs) e logged quiet =
    let one = check-Quiet p key kind status now e quiet.0 logged in
    let rest = check_all_once p key kind cs (check status now e) (ground (arith, one)) quiet.1 in
    (rest.0 ∙ one.0, rest.1)
