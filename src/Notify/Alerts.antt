-- ===== src/Notify/Alerts.antt =====
-- What a check does: an alert that is due is sent and logged, a reset forgets the quota's messages
-- and no others, and more use never lowers the severity.
use native.Mathlib.Nat.{mul-le-mul_right}
use Prim.Native.String.{◌++◌ as str_append}
use text.Mathlib.TextLemmas.{
  append_cancel_right, append_assoc, nil-append, append-ne-nil_of_right_ne-nil,
}
use loomwatch.Prelude.{
  ℕ, suc, ◌≤◌, ◌<◌, ◌≡◌, ◌≢◌, ◌⊎◌, refl, sym, ◌∙◌, ap, String, Bool, true, false, not, ◌&&◌, Option,
  none, some, List, [], ◌∷◌, ◌++◌, arith, ok, ◌==◌, nat_eq, string_eq, if◌then◌else◌, find_if,
  keep_if,
}
use loomwatch.Store.NotificationLog.{
  NotificationDb, NotificationRow, is_about, is_entry, sent_of, upsert_notification_log,
  get_last_notification, clear_notification_log, get_push_subscriptions, delete_push_subscription,
}
use loomwatch.Notify.Settings.{
  NotificationConfig, QuotaStatus, ThresholdOverride, normalize_notification_provider,
  notification_quota_key, find_override, alert_for, Threshold, resolve, reaches,
}
use loomwatch.Notify.Engine.{
  NotificationEngine, send, send_email, drop_if_gone, push_one, send_pushes, with_subscriptions,
  send_push, log_sent, unless_sent, send_notification, check_reset, send_alert, check,
}
use loomwatch.Notify.Once.{tries, entry, is_logged, normalized}

abbrev pub severity : Option String → ℕ
severity none = 0
severity (some kind) = if kind == "critical" then 2 else 1

reaches_mono : (u v : ℕ) (t : Threshold) → u ≤ v → reaches u t ≡ true → reaches v t ≡ true
unfolding reaches
reaches_mono u v t h r = ground (arith, mul-le-mul_right t.den h)

-- Of two statuses of a quota with the same settings and limit, the one with more use gets an alert
-- that is at least as severe.
pub alert_for_mono :
    (cfg : NotificationConfig) (override : Option ThresholdOverride) (status : QuotaStatus)
    (more : ℕ)
    → status.utilization ≤ more
    → severity (alert_for cfg override status)
      ≤ severity (alert_for cfg override (record status { utilization = more }))
unfolding alert_for
alert_for_mono cfg override status more h =
    let critical = resolve cfg.critical (λ o. o.critical) override status.limit in
    let warning = resolve cfg.warning (λ o. o.warning) override status.limit in
    ground (
      arith,
      reaches_mono status.utilization more critical h,
      reaches_mono status.utilization more warning h,
    )

module _ (p key kind : String) where
  -- What sending does not undo.
  abbrev Grows : NotificationEngine × Bool → NotificationEngine × Bool → Type 0
  Grows r r' =
      (tries p key kind r.0 ≤ tries p key kind r'.0)
      × (r'.0.db.fails ≡ r.0.db.fails)
      × (r'.0.db.log ≡ r.0.db.log)
      × (r.1 ≡ true → r'.1 ≡ true)

  push_one-Grows :
      (endpoint : String) (status : QuotaStatus) (kind' : String) (e : NotificationEngine)
      (sent : Bool)
      → Grows (e, sent) (push_one endpoint status kind' (e, sent))
  unfolding push_one send drop_if_gone delete_push_subscription
  push_one-Grows endpoint status kind' e sent =
      (ground arith, ground arith, ground arith, λ h. ground arith)

  send_pushes-Grows :
      (subs : List String) (status : QuotaStatus) (kind' : String) (e : NotificationEngine)
      (sent : Bool)
      → Grows (e, sent) (send_pushes subs status kind' (e, sent))
  unfolding send_pushes
  send_pushes-Grows [] status kind' e sent = (omega arith, refl, refl, λ h. h)
  send_pushes-Grows (endpoint ∷ rest) status kind' e sent =
      let r = push_one endpoint status kind' (e, sent) in
      let one = push_one-Grows endpoint status kind' e sent in
      let more = send_pushes-Grows rest status kind' r.0 r.1 in
      (omega (arith, one.0, more.0), more.1 ∙ one.1, more.2 ∙ one.2, λ h. more.3 (one.3 h))

  send_push-Grows :
      (status : QuotaStatus) (kind' : String) (e : NotificationEngine) (sent : Bool)
      → Grows (e, sent) (send_push status kind' (e, sent))
  unfolding send_push get_push_subscriptions with_subscriptions
  send_push-Grows status kind' e sent =
      let db' : NotificationDb = record e.db { calls = suc e.db.calls } in
      let more = send_pushes-Grows e.db.subscriptions status kind' (record e { db = db' }) sent in
      (
        ground (arith, more.0),
        ground (arith, more.1),
        ground (arith, more.2),
        λ h. ground (arith, more.3 h),
      )

-- An entry that takes another's place is the one that is found.
find_if-replaced :
    (test : NotificationRow → Bool) (log : List NotificationRow) (row : NotificationRow)
    → test row ≡ true
    → find_if test (keep_if (λ r. not (test r)) log ++ row ∷ []) ≡ some row
find_if-replaced test [] row h = rw h refl
find_if-replaced test (r ∷ log) row h = ground (arith, find_if-replaced test log row h)

module _ (status : QuotaStatus) (kind : String) where
  abbrev own_provider : String
  own_provider = normalize_notification_provider status.provider

  abbrev own_key : String
  own_key = notification_quota_key status

  log_sent-logged :
      (now : ℕ) (e : NotificationEngine) (sent : Bool)
      → sent ≡ true
      → e.db.fails e.db.calls ≡ false
      → (now == 0) ≡ false
      → (tries own_provider own_key kind (log_sent status kind now (e, sent))
          ≡ tries own_provider own_key kind e)
        × (is_logged own_provider own_key kind (log_sent status kind now (e, sent)) ≡ true)
  unfolding log_sent upsert_notification_log
  log_sent-logged now e sent was_sent works later =
      let row : NotificationRow = record {
        provider = own_provider;
        quota_key = own_key;
        notification_type = kind;
        sent_at = now;
        utilization = status.utilization;
      } in
      let found = find_if-replaced (is_entry own_provider own_key kind) e.db.log row (
        ground (
          arith,
          string_eq.matches_iff own_provider own_provider,
          string_eq.matches_iff own_key own_key,
          string_eq.matches_iff kind kind,
        )) in
      rw (was_sent, works, normalized status.provider, found, later) (refl, refl)

  send-tries :
      (e : NotificationEngine)
      → tries own_provider own_key kind (send none status kind e).0
        ≡ suc (tries own_provider own_key kind e)
  unfolding send
  send-tries e = ground (
    arith,
    string_eq.matches_iff own_provider own_provider,
    string_eq.matches_iff own_key own_key,
    string_eq.matches_iff kind kind,
  )

  -- What follows the reading of the log.
  unless_sent-new :
      (now : ℕ) (e : NotificationEngine) (util : ℕ)
      → (e.cfg.channels.email && e.mailer) ≡ true
      → e.transport.delivers e.transport.sends ≡ true
      → ((n : ℕ) → e.db.fails n ≡ false)
      → (now == 0) ≡ false
      → (tries own_provider own_key kind e
          < tries own_provider own_key kind (unless_sent status kind now e (ok (0, util))))
        × (is_logged own_provider own_key kind (unless_sent status kind now e (ok (0, util)))
            ≡ true)
  unfolding unless_sent send_email send
  unless_sent-new now e util mails delivered fine later =
      let mailed = send none status kind e in
      let sent : mailed.1 ≡ true = delivered in
      let pushed = send_push status kind mailed in
      let grown = send_push-Grows own_provider own_key kind status kind mailed.0 mailed.1 in
      let works : pushed.0.db.fails pushed.0.db.calls ≡ false =
        ap (λ f. f pushed.0.db.calls) grown.1 ∙ fine pushed.0.db.calls in
      let logged = log_sent-logged now pushed.0 pushed.1 (grown.3 sent) works later in
      rw mails (omega (arith, send-tries e, grown.0, logged.0), logged.1)

  due-sent :
      (now : ℕ) (e : NotificationEngine)
      → (e.cfg.channels.email && e.mailer) ≡ true
      → e.transport.delivers e.transport.sends ≡ true
      → ((n : ℕ) → e.db.fails n ≡ false)
      → (now == 0) ≡ false
      → is_logged own_provider own_key kind e ≡ false
      → (tries own_provider own_key kind e
          < tries own_provider own_key kind (send_notification status kind now e))
        × (is_logged own_provider own_key kind (send_notification status kind now e) ≡ true)
  unfolding send_notification get_last_notification unless_sent
  due-sent now e mails delivered fine later unlogged =
      let db' : NotificationDb = record e.db { calls = suc e.db.calls } in
      let last = sent_of (entry own_provider own_key kind e) in
      let never : last.0 ≡ 0 = ground (arith, nat_eq.matches_iff last.0 0) in
      let new = unless_sent-new now (record e { db = db' }) last.1 mails delivered fine later in
      rw (fine e.db.calls, normalized status.provider, never) new

-- A check without a reset whose alert is due and not in the log, with mail configured and a
-- message that gets through, while no statement fails, at any but the zero time: the message is
-- tried and the log has it after the check.
pub check_sends :
    (status : QuotaStatus) (kind : String) (now : ℕ) (e : NotificationEngine)
    → status.reset_occurred ≡ false
    → alert_for e.cfg (find_override e.cfg status) status ≡ some kind
    → (e.cfg.channels.email && e.mailer) ≡ true
    → e.transport.delivers e.transport.sends ≡ true
    → ((n : ℕ) → e.db.fails n ≡ false)
    → (now == 0) ≡ false
    → is_logged
        (normalize_notification_provider status.provider)
        (notification_quota_key status)
        kind
        e
      ≡ false
    → (tries
          (normalize_notification_provider status.provider)
          (notification_quota_key status)
          kind
          e
        < tries
            (normalize_notification_provider status.provider)
            (notification_quota_key status)
            kind
            (check status now e))
      × (is_logged
            (normalize_notification_provider status.provider)
            (notification_quota_key status)
            kind
            (check status now e)
          ≡ true)
unfolding check send_alert
check_sends status kind now e unreset due mails delivered fine later unlogged =
    let sends : check status now e ≡ send_notification status kind now e = ground arith in
    rw sends (due-sent status kind now e mails delivered fine later unlogged)

module _ (p key : String) where
  keep_if-about :
      (log : List NotificationRow)
      → keep_if (λ r. not (is_about p key r)) (keep_if (λ r. not (is_about p key r)) log)
        ≡ keep_if (λ r. not (is_about p key r)) log
  keep_if-about [] = refl
  keep_if-about (r ∷ log) = ground (arith, keep_if-about log)

  find_if-cleared :
      (kind : String) (log : List NotificationRow)
      → find_if (is_entry p key kind) (keep_if (λ r. not (is_about p key r)) log) ≡ none
  find_if-cleared kind [] = refl
  find_if-cleared kind (r ∷ log) = ground (arith, find_if-cleared kind log)

  find_if-others :
      (kind key' : String) (log : List NotificationRow)
      → key' ≢ key
      → find_if (is_entry p key' kind) (keep_if (λ r. not (is_about p key r)) log)
        ≡ find_if (is_entry p key' kind) log
  find_if-others kind key' [] h = refl
  find_if-others kind key' (r ∷ log) h = ground (
    arith,
    string_eq.matches_iff r.quota_key key,
    string_eq.matches_iff r.quota_key key',
    find_if-others kind key' log h,
  )

-- Two accounts whose messages are kept apart: they differ, and are not both the default account,
-- which is "1" or no account.
abbrev pub IsOther : String → String → Type 0
IsOther a b = (a ≢ b) × ¬ (((a ≡ "") ⊎ (a ≡ "1")) × ((b ≡ "") ⊎ (b ≡ "1")))

prefixed-ne : (a q : String) → str_append a (str_append ":" q) ≢ q
prefixed-ne a q e =
    append-ne-nil_of_right_ne-nil a (λ f. cc)
      (append_cancel_right (str_append a ":") "" q (append_assoc a ":" q ∙ e ∙ sym (nil-append q)))

-- The messages of two accounts about one quota have different keys.
notification_quota_key-ne :
    (status : QuotaStatus) (other : String)
    → IsOther status.account_id other
    → notification_quota_key (record status { account_id = other }) ≢ notification_quota_key status
unfolding notification_quota_key
notification_quota_key-ne status other h =
    let own = status.account_id in
    let tail = str_append ":" status.quota_key in
    λ e. ground (
      arith,
      prefixed-ne own status.quota_key,
      prefixed-ne other status.quota_key,
      string_eq.matches_iff own "",
      string_eq.matches_iff own "1",
      string_eq.matches_iff other "",
      string_eq.matches_iff other "1",
      append_cancel_right other own tail,
    )

-- A check that reports a reset, in an engine with a sender and with reset messages switched off,
-- where the statement does not fail: the log has no message of any kind about the quota of this
-- account any more; what it has under every other key is what it had; and so it is for the same
-- quota of every other account, where no account and "1" are one.
pub check_resets :
    (status : QuotaStatus) (now : ℕ) (e : NotificationEngine)
    → status.reset_occurred ≡ true
    → (not e.mailer && not e.push_sender) ≡ false
    → e.cfg.types.reset ≡ false
    → e.db.fails e.db.calls ≡ false
    → ((kind : String)
        → entry
            (normalize_notification_provider status.provider)
            (notification_quota_key status)
            kind
            (check status now e)
          ≡ none)
      × (keep_if
            (λ r. not (
              is_about
                (normalize_notification_provider status.provider)
                (notification_quota_key status)
                r))
            (check status now e).db.log
          ≡ keep_if
              (λ r. not (
                is_about
                  (normalize_notification_provider status.provider)
                  (notification_quota_key status)
                  r))
              e.db.log)
      × ((other kind : String)
          → IsOther status.account_id other
          → entry
              (normalize_notification_provider status.provider)
              (notification_quota_key (record status { account_id = other }))
              kind
              (check status now e)
            ≡ entry
                (normalize_notification_provider status.provider)
                (notification_quota_key (record status { account_id = other }))
                kind
                e)
unfolding check check_reset clear_notification_log
check_resets status now e reset configured silent works =
    let p = normalize_notification_provider status.provider in
    let key = notification_quota_key status in
    let cleared : (check status now e).db.log ≡ keep_if (λ r. not (is_about p key r)) e.db.log =
      ground (arith, normalized status.provider) in
    rw cleared (
      λ kind. find_if-cleared p key kind e.db.log,
      keep_if-about p key e.db.log,
      λ other kind differ.
          find_if-others p key kind (notification_quota_key (record status { account_id = other }))
            e.db.log (notification_quota_key-ne status other differ),
    )
