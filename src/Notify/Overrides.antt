-- ===== src/Notify/Overrides.antt =====
-- Which of the saved overrides a check uses.
use Prim.Native.Char.{code}
use Prim.Native.String.{◌++◌ as str_append}
use text.Mathlib.TextLemmas.{nil-append, cons-append, append-ne-nil_of_right_ne-nil}
use loomwatch.Prelude.{
  ℕ, ◌≡◌, ◌≢◌, refl, sym, ap, ◌∙◌, String, Bool, false, not, ◌&&◌, Option, none, some, List, [],
  ◌∷◌, arith, ◌==◌, string_eq, if◌then◌else◌, inl, inr, Bool-cases, trim_space, to_lower,
  trim_space_idem, to_lower-trim_space_idem,
}
use loomwatch.Prelude.Dict.{Dict, lookup, lookup-insert}
use loomwatch.Notify.Settings.{
  NotificationConfig, QuotaStatus, ThresholdOverride, OverrideJson, NotificationSettingsJson,
  normalize_notification_provider, notification_override_key, stored_key, put_override,
  load_overrides, reload, find_override,
}

-- A text without a colon.
abbrev pub IsPlain : String → Type 0
IsPlain String.[] = Unit {0}
IsPlain (String.◌∷◌ c s) = (code c ≢ b':') × IsPlain s

abbrev first_code : String → ℕ
first_code String.[] = 0
first_code (String.◌∷◌ c s) = code c

abbrev rest : String → String
rest String.[] = String.[]
rest (String.◌∷◌ c s) = s

-- The equations by which the joined texts compute.
colon-append : (q : String) → str_append String.[] (str_append ":" q) ≡ String.◌∷◌ ":" q
colon-append q =
    nil-append (str_append ":" q)
    ∙ cons-append ":" String.[] q
    ∙ ap (λ t. String.◌∷◌ ":" t) (nil-append q)

plain-ne : (k p q : String) → IsPlain k → str_append p (str_append ":" q) ≢ k
plain-ne String.[] p q h e =
    append-ne-nil_of_right_ne-nil p
      (λ f. cc (sym (nil-append (str_append ":" q)) ∙ colon-append q, f)) e
plain-ne (String.◌∷◌ b k) String.[] q h e = h.0 (ap first_code (sym e ∙ colon-append q))
plain-ne (String.◌∷◌ b k) (String.◌∷◌ c p) q h e =
    plain-ne k p q h.1 (ap rest (sym (cons-append c p (str_append ":" q)) ∙ e))

-- What stands before the first colon, and what follows it.
split_inj :
    (p r q s : String)
    → IsPlain p
    → IsPlain r
    → str_append p (str_append ":" q) ≡ str_append r (str_append ":" s)
    → (p ≡ r) × (q ≡ s)
split_inj String.[] String.[] q s h k e =
    (refl, ap rest (sym (colon-append q) ∙ e ∙ colon-append s))
split_inj String.[] (String.◌∷◌ d r) q s h k e =
    absurd (k.0 (ap first_code (sym (cons-append d r (str_append ":" s)) ∙ sym e ∙ colon-append q)))
split_inj (String.◌∷◌ c p) String.[] q s h k e =
    absurd (h.0 (ap first_code (sym (cons-append c p (str_append ":" q)) ∙ e ∙ colon-append s)))
split_inj (String.◌∷◌ c p) (String.◌∷◌ d r) q s h k e =
    let e' : String.◌∷◌ c (str_append p (str_append ":" q))
        ≡ String.◌∷◌ d (str_append r (str_append ":" s)) =
      sym (cons-append c p (str_append ":" q)) ∙ e ∙ cons-append d r (str_append ":" s) in
    let later = split_inj p r q s h.1 k.1 (ap rest e') in (cc (e', later.0), later.1)

normalize_notification_provider_idem :
    (p : String)
    → normalize_notification_provider (normalize_notification_provider p)
      ≡ normalize_notification_provider p
unfolding normalize_notification_provider to_lower trim_space
normalize_notification_provider_idem p = elim (Bool-cases (to_lower (trim_space p) == "")) [
  | inl empty ↦ rw empty refl
  | inr named ↦ rw named (rw (to_lower-trim_space_idem p, named) refl)
]

abbrev pub is_key : String → Option String → Bool
is_key key none = false
is_key key (some k) = k == key

-- The first of two, if there is one.
abbrev pub or_else : Option ThresholdOverride → Option ThresholdOverride → Option ThresholdOverride
or_else none p = p
or_else (some o) p = some o

-- The last entry of a list that passes a test.
abbrev pub latest : (OverrideJson → Bool) → List OverrideJson → Option ThresholdOverride
latest test [] = none
latest test (o ∷ os) = or_else (latest test os) (if test o then some o.override else none)

-- An override for the provider and the quota of a status.
abbrev pub is_own : QuotaStatus → OverrideJson → Bool
is_own status o =
    let provider = normalize_notification_provider o.provider in
    let quota = trim_space o.quota_key in
    not (quota == "")
    && not (provider == "legacy")
    && provider == normalize_notification_provider status.provider
    && quota == trim_space status.quota_key

-- An override for the quota of a status with no provider.
abbrev pub is_shared : QuotaStatus → OverrideJson → Bool
is_shared status o =
    let quota = trim_space o.quota_key in
    not (quota == "")
    && normalize_notification_provider o.provider == "legacy"
    && quota == status.quota_key

-- No provider and no quota of the saved overrides has a colon in its name.
abbrev pub ArePlain : List OverrideJson → Type 0
ArePlain [] = Unit {0}
ArePlain (o ∷ os) =
    (IsPlain (normalize_notification_provider o.provider) × IsPlain (trim_space o.quota_key))
    × ArePlain os

own_key : QuotaStatus → String
own_key status =
    notification_override_key (normalize_notification_provider status.provider) status.quota_key

key_eq :
    (p q : String)
    → notification_override_key (normalize_notification_provider p) q
      ≡ str_append (normalize_notification_provider p) (str_append ":" (trim_space q))
unfolding notification_override_key
key_eq p q =
    ap (λ n. str_append n (str_append ":" (trim_space q))) (normalize_notification_provider_idem p)

stored_key-own :
    (status : QuotaStatus) (o : OverrideJson)
    → IsPlain (normalize_notification_provider status.provider)
    → IsPlain (normalize_notification_provider o.provider)
    → IsPlain (trim_space o.quota_key)
    → is_key (own_key status) (stored_key o) ≡ is_own status o
unfolding stored_key own_key
stored_key-own status o h k l =
    let p = normalize_notification_provider o.provider in
    let r = normalize_notification_provider status.provider in
    let q = trim_space o.quota_key in
    let s = trim_space status.quota_key in
    ground (
      arith,
      key_eq o.provider q,
      key_eq status.provider status.quota_key,
      trim_space_idem o.quota_key,
      string_eq.matches_iff (notification_override_key p q)
          (notification_override_key r status.quota_key),
      string_eq.matches_iff q (notification_override_key r status.quota_key),
      string_eq.matches_iff p r,
      string_eq.matches_iff q s,
      split_inj p r q s k h,
      plain-ne q r s l,
    )

stored_key-shared :
    (status : QuotaStatus) (o : OverrideJson)
    → IsPlain status.quota_key
    → is_key status.quota_key (stored_key o) ≡ is_shared status o
unfolding stored_key
stored_key-shared status o h =
    let p = normalize_notification_provider o.provider in
    let q = trim_space o.quota_key in
    ground (
      arith,
      key_eq o.provider q,
      trim_space_idem o.quota_key,
      string_eq.matches_iff (notification_override_key p q) status.quota_key,
      plain-ne status.quota_key p q h,
    )

lookup-put_override :
    (key : String) (stored : Option String) (o : ThresholdOverride)
    (m : Dict String ThresholdOverride)
    → lookup key (put_override stored o m) ≡ (if is_key key stored then some o else lookup key m)
lookup-put_override key none o m = refl
lookup-put_override key (some k) o m = lookup-insert k key o m

lookup-load_overrides :
    (key : String) (os : List OverrideJson) (m : Dict String ThresholdOverride)
    → lookup key (load_overrides os m)
      ≡ or_else (latest (λ o. is_key key (stored_key o)) os) (lookup key m)
unfolding load_overrides
lookup-load_overrides key [] m = refl
lookup-load_overrides key (o ∷ os) m = ground (
  arith,
  lookup-load_overrides key os (put_override (stored_key o) o.override m),
  lookup-put_override key (stored_key o) o.override m,
)

-- The overrides that pass two tests which agree.
latest-own :
    (status : QuotaStatus) (os : List OverrideJson)
    → IsPlain (normalize_notification_provider status.provider)
    → ArePlain os
    → latest (λ o. is_key (own_key status) (stored_key o)) os ≡ latest (is_own status) os
latest-own status [] h k = refl
latest-own status (o ∷ os) h k =
    rw (stored_key-own status o h k.0.0 k.0.1, latest-own status os h k.1) refl

latest-shared :
    (status : QuotaStatus) (os : List OverrideJson)
    → IsPlain status.quota_key
    → latest (λ o. is_key status.quota_key (stored_key o)) os ≡ latest (is_shared status) os
latest-shared status [] h = refl
latest-shared status (o ∷ os) h = rw (stored_key-shared status o h, latest-shared status os h) refl

-- After the settings have been reloaded, if no provider and no quota has a colon in its name: a
-- status gets the last saved override that names a quota, the status's, and its provider, in letters
-- of any case; or else the last one that names its quota and no provider, or "legacy". Spaces around
-- the saved names do not count, and what overrides there were before does not either.
pub find_override-reload :
    (saved : NotificationSettingsJson) (cfg : NotificationConfig) (status : QuotaStatus)
    → IsPlain (normalize_notification_provider status.provider)
    → IsPlain status.quota_key
    → ArePlain saved.overrides
    → find_override (reload (some saved) cfg) status
      ≡ or_else (latest (is_own status) saved.overrides) (latest (is_shared status) saved.overrides)
unfolding find_override reload own_key
find_override-reload saved cfg status plain plain_quota all_plain =
    let key =
      notification_override_key (normalize_notification_provider status.provider)
        status.quota_key in
    ground (
      arith,
      lookup-load_overrides key saved.overrides [],
      lookup-load_overrides status.quota_key saved.overrides [],
      latest-own status saved.overrides plain all_plain,
      latest-shared status saved.overrides plain_quota,
    )
