-- ===== src/Agent/AgentManager/Leak.antt =====
-- A stop, a start and then the late end of the stopped goroutine: the key that it deletes is the
-- new agent's, which no call can stop any more.
use loomwatch.Prelude.{
  ℕ, ◌<◌, ◌≡◌, inl, inr, Bool-cases, String, true, false, some, arith, ◌==◌, nat_eq, string_eq,
}
use loomwatch.Prelude.Dict.{lookup, erase, lookup-insert, lookup-erase, erase-IsMap}
use loomwatch.Agent.AgentManager.{Run, AgentManager, is_running, ended, end_run}
use loomwatch.Agent.AgentManager.Soundness.{Steps, is_live, Sound, one_key}
use loomwatch.Agent.AgentManager.Abandoned.{
  Abandoned, Steps-Abandoned, cmp_cases, names, names-lookup, was_cancelled,
}

module _ (m : AgentManager) (key : String) (i j : ℕ) (old : Run) (s : Sound m)
    (named : lookup key m.running ≡ some i) (found : lookup j m.runs ≡ some old)
    (same_key : old.key ≡ key) (other : (j == i) ≡ false) where
  ended_kept : lookup i (end_run j m).runs ≡ lookup i m.runs
  unfolding end_run
  ended_kept = rw found (ground (arith, lookup-insert j i (ended old) m.runs))

  unnamed_after : names i (erase key m.running) ≡ false
  unnamed_after = elim (Bool-cases (names i (erase key m.running))) [
    | inr out ↦ out
    | inl in_map ↦
        let (k, e) =
          names-lookup i (erase key m.running) (erase-IsMap key m.running s.keys) in_map in
        let kept : lookup k m.running ≡ some i = ground (arith, lookup-erase key k m.running) in
        let apart : (key == k) ≡ false = ground (arith, lookup-erase key k m.running) in
        let both = one_key key k (lookup i m.runs) (s.live key i named) (s.live k i kept) in
        ground arith
  ]

  live_before : is_live key (lookup i m.runs) ≡ true
  live_before = s.live key i named

  is_old : i < m.next
  is_old = elim (cmp_cases i m.next) [
    | inl below ↦ below
    | inr above ↦ let none_at = s.fresh i above in ground (arith, live_before)
  ]

  ended-Abandoned : Abandoned i (end_run j m)
  unfolding end_run
  ended-Abandoned =
      rw (found, same_key)
        (record {
          unnamed = unnamed_after;
          old = is_old;
          uncancelled = ground (arith, lookup-insert j i (ended old) m.runs, live_before);
        })

  ended-unnamed : is_running key (end_run j m) ≡ false
  unfolding is_running end_run
  ended-unnamed =
      rw (found, same_key)
        (ground (arith, lookup-erase key key m.running, string_eq.matches_iff key key))

-- When the goroutine of an agent ends that is not its provider's current one: the provider is not
-- running any more for the manager, its current agent is live all the same, and no further calls
-- and ends of goroutines ever cancel it.
pub end_run-leaks :
    (m m' : AgentManager) (key : String) (i j : ℕ) (old : Run)
    → Sound m
    → lookup key m.running ≡ some i
    → lookup j m.runs ≡ some old
    → old.key ≡ key
    → (j == i) ≡ false
    → Steps (end_run j m) m'
    → (is_running key (end_run j m) ≡ false)
      × (is_live key (lookup i (end_run j m).runs) ≡ true)
      × (was_cancelled (lookup i m'.runs) ≡ false)
end_run-leaks m m' key i j old s named found same_key other steps =
    let kept = ended_kept m key i j old s named found same_key other in
    (
      ended-unnamed m key i j old s named found same_key other,
      rw kept (s.live key i named),
      (Steps-Abandoned i steps
          (ended-Abandoned m key i j old s named found same_key other)).uncancelled,
    )
