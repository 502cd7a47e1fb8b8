-- ===== src/Store/AccountCycles.antt =====
-- The cycle tables `grok_reset_cycles` (internal/store/grok_store.go) and `kimi_reset_cycles`
-- (internal/store/kimi_store.go): rows are inserted whole, looked up by account and quota, and ended
-- by id. Times are compared as numbers. The schedule `fails` says which statements fail.
use loomwatch.Prelude.{
  ℕ, suc, ◌≡◌, Bool, not, ◌&&◌, Option, none, some, List, [], ◌∷◌, ◌++◌, String, ok, err, Action,
  ◌==◌, nat_eq, string_eq, ltb, if◌then◌else◌, is_some, update_if, keep_if, arith, Option-cases,
  inl, inr,
}
use loomwatch.Store.Cycles.{DbError, db_error}

-- `GrokResetCycle` and `KimiResetCycle`
pub record AccountCycle : Type 0 where
  pub id : ℕ
  pub account_id : ℕ
  pub quota_name : String
  pub cycle_start : ℕ
  pub cycle_end : Option ℕ
  pub resets_at : Option ℕ
  pub peak_utilization : ℕ
  pub total_delta : ℕ

pub record AccountDb : Type 0 where
  pub rows : List AccountCycle
  pub next_id : ℕ
  pub calls : ℕ
  pub fails : ℕ → Bool

-- The default account of both providers.
abbrev pub default_account_id : ℕ
default_account_id = 1

abbrev pub account_or_default : ℕ → ℕ
account_or_default account = if account == 0 then default_account_id else account

abbrev pub is_open : ℕ → String → AccountCycle → Bool
is_open account quota c =
    c.account_id == account && c.quota_name == quota && not (is_some c.cycle_end)

-- `ORDER BY cycle_start DESC LIMIT 1`
unfoldable pub latest : List AccountCycle → Option AccountCycle
latest [] = none
latest (c ∷ cs) = elim (latest cs) [
  | none ↦ some c
  | some d ↦ if ltb c.cycle_start d.cycle_start then some d else some c
]

-- `QueryActiveGrokResetCycle`
unfoldable pub query_active_grok_reset_cycle :
    ℕ → String → Action DbError AccountDb (Option AccountCycle)
unfolding latest
query_active_grok_reset_cycle account quota d =
    let d' : AccountDb = record d { calls = suc d.calls } in
    if d.fails d.calls
    then (err db_error, d')
    else (ok (latest (keep_if (is_open (account_or_default account) quota) d.rows)), d')

-- `InsertGrokResetCycle`; the id is the table's next.
unfoldable pub insert_grok_reset_cycle : AccountCycle → Action DbError AccountDb (Unit {0})
insert_grok_reset_cycle cycle d =
    let d' : AccountDb = record d { calls = suc d.calls } in
    if d.fails d.calls then (err db_error, d') else (
      ok tt,
      record d' {
        rows =
            d.rows
            ++ record cycle { id = d.next_id; account_id = account_or_default cycle.account_id }
              ∷ [];
        next_id = suc d.next_id;
      },
    )

abbrev pub ended_with : ℕ → ℕ → ℕ → AccountCycle → AccountCycle
ended_with end peak delta c = record c {
  cycle_end = some end;
  peak_utilization = peak;
  total_delta = delta;
}

-- `UpdateGrokResetCycleEnd`
unfoldable pub update_grok_reset_cycle_end : ℕ → ℕ → ℕ → ℕ → Action DbError AccountDb (Unit {0})
update_grok_reset_cycle_end id end peak delta d =
    let d' : AccountDb = record d { calls = suc d.calls } in
    if d.fails d.calls then (err db_error, d') else (
      ok tt,
      record d' { rows = update_if (λ c. c.id == id) (ended_with end peak delta) d.rows },
    )

-- `QueryActiveKimiResetCycle`
unfoldable pub query_active_kimi_reset_cycle :
    ℕ → String → Action DbError AccountDb (Option AccountCycle)
unfolding latest
query_active_kimi_reset_cycle account quota d =
    let d' : AccountDb = record d { calls = suc d.calls } in
    if d.fails d.calls
    then (err db_error, d')
    else (ok (latest (keep_if (is_open (account_or_default account) quota) d.rows)), d')

-- `InsertKimiResetCycle`
unfoldable pub insert_kimi_reset_cycle : AccountCycle → Action DbError AccountDb (Unit {0})
unfolding insert_grok_reset_cycle
insert_kimi_reset_cycle cycle = insert_grok_reset_cycle cycle

-- `UpdateKimiResetCycleEnd`
unfoldable pub update_kimi_reset_cycle_end : ℕ → ℕ → ℕ → ℕ → Action DbError AccountDb (Unit {0})
unfolding update_grok_reset_cycle_end
update_kimi_reset_cycle_end id end peak delta = update_grok_reset_cycle_end id end peak delta

-- No row has recorded any usage.
abbrev pub IsUntracked : List AccountCycle → Type 0
IsUntracked [] = Unit {0}
IsUntracked (c ∷ cs) = (c.total_delta ≡ 0) × IsUntracked cs

pub IsUntracked-append :
    (cs : List AccountCycle) (c : AccountCycle)
    → IsUntracked cs
    → c.total_delta ≡ 0
    → IsUntracked (cs ++ c ∷ [])
IsUntracked-append [] c h z = (z, tt)
IsUntracked-append (d ∷ cs) c h z = (h.0, IsUntracked-append cs c h.1 z)

pub IsUntracked-keep_if :
    (p : AccountCycle → Bool) (cs : List AccountCycle) → IsUntracked cs → IsUntracked (keep_if p cs)
IsUntracked-keep_if p [] h = tt
IsUntracked-keep_if p (c ∷ cs) h = ground (arith, IsUntracked-keep_if p cs h.1)

pub IsUntracked-update_if :
    (p : AccountCycle → Bool) (end peak : ℕ) (cs : List AccountCycle)
    → IsUntracked cs
    → IsUntracked (update_if p (ended_with end peak 0) cs)
IsUntracked-update_if p end peak [] h = tt
IsUntracked-update_if p end peak (c ∷ cs) h =
    ground (arith, IsUntracked-update_if p end peak cs h.1)

pub latest-IsUntracked :
    (cs : List AccountCycle) (c : AccountCycle)
    → IsUntracked cs
    → latest cs ≡ some c
    → c.total_delta ≡ 0
unfolding latest
latest-IsUntracked [] c h e = cc
latest-IsUntracked (d ∷ cs) c h e = elim (Option-cases (latest cs)) [
  | inl empty ↦ ground arith
  | inr (x, found) ↦ ground (arith, latest-IsUntracked cs x h.1 found)
]
