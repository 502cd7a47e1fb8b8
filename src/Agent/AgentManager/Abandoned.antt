-- ===== src/Agent/AgentManager/Abandoned.antt =====
-- A run that the running map does not name and that was not cancelled stays so, under every step.
use loomwatch.Prelude.{
  ℕ, ◌≤◌, ◌<◌, ◌≡◌, refl, ◌⊎◌, inl, inr, Bool-cases, String, Bool, true, false, ◌||◌, Option, none,
  some, [], ◌∷◌, arith, ◌==◌, nat_eq, string_eq, is_some,
}
use loomwatch.Prelude.Dict.{Dict, lookup, insert, erase, lookup-insert, IsMap}
use loomwatch.Agent.AgentManager.{
  FactoryResult, factory_error, nil_runner, new_runner, Run, AgentManager, register_factory,
  finish_start, cancel, cancel_if, stop, cancel_all, stop_all, ended, end_of, end_run,
}
use loomwatch.Agent.AgentManager.Soundness.{
  Step, registers, finishes, stops, stops_all, ends, Steps, nothing, more, lookup-cancel,
}

pub cmp_cases : (a b : ℕ) → (a < b) ⊎ (b ≤ a)
cmp_cases a b = omega arith

-- The running map names a run.
abbrev pub names : ℕ → Dict String ℕ → Bool
names i [] = false
names i ((key, j) ∷ rest) = j == i || names i rest

pub names-lookup :
    (i : ℕ) (running : Dict String ℕ)
    → IsMap running
    → names i running ≡ true
    → (key : String) × (lookup key running ≡ some i)
names-lookup i [] keys h = cc
names-lookup i ((key, j) ∷ rest) keys h = elim (Bool-cases (j == i)) [
  | inl same ↦ (key, ground (arith, nat_eq.matches_iff j i, string_eq.matches_iff key key))
  | inr other ↦
      let (k, e) = names-lookup i rest keys.1 (ground arith) in
      (k, ground (arith, string_eq.matches_iff key k, keys.0))
]

abbrev pub was_cancelled : Option Run → Bool
was_cancelled none = false
was_cancelled (some r) = r.cancelled

-- A run that was started, was not cancelled and is not named.
pub record Abandoned (i : ℕ) (m : AgentManager) : Type 0 where
  pub unnamed : names i m.running ≡ false
  pub old : i < m.next
  pub uncancelled : was_cancelled (lookup i m.runs) ≡ false

names-erase :
    (i : ℕ) (key : String) (running : Dict String ℕ)
    → names i running ≡ false
    → names i (erase key running) ≡ false
names-erase i key [] h = refl
names-erase i key ((k, j) ∷ rest) h = ground (arith, names-erase i key rest)

names-insert :
    (i j : ℕ) (key : String) (running : Dict String ℕ)
    → names i running ≡ false
    → (j == i) ≡ false
    → names i (insert key j running) ≡ false
names-insert i j key [] h other = ground arith
names-insert i j key ((k, l) ∷ rest) h other = ground (arith, names-insert i j key rest)

lookup-unnamed :
    (i j : ℕ) (key : String) (running : Dict String ℕ)
    → names i running ≡ false
    → lookup key running ≡ some j
    → (j == i) ≡ false
lookup-unnamed i j key [] h e = cc
lookup-unnamed i j key ((k, l) ∷ rest) h e = ground (arith, lookup-unnamed i j key rest)

cancel-other :
    (i j : ℕ) (runs : Dict ℕ Run) → (j == i) ≡ false → lookup i (cancel j runs) ≡ lookup i runs
cancel-other i j runs other = ground (arith, lookup-cancel j i runs)

cancel_all-other :
    (i : ℕ) (running : Dict String ℕ) (runs : Dict ℕ Run)
    → names i running ≡ false
    → lookup i (cancel_all running runs) ≡ lookup i runs
unfolding cancel_all
cancel_all-other i [] runs h = refl
cancel_all-other i ((key, j) ∷ rest) runs h =
    ground (arith, cancel_all-other i rest (cancel j runs), cancel-other i j runs)

stop-Abandoned :
    (i : ℕ) (key : String) (m : AgentManager) (o : Option ℕ)
    → lookup key m.running ≡ o
    → Abandoned i m
    → Abandoned i (record m { running = erase key m.running; runs = cancel_if o m.runs })
stop-Abandoned i key m none e a = record {
  unnamed = names-erase i key m.running a.unnamed;
  old = a.old;
  uncancelled = a.uncancelled;
}
stop-Abandoned i key m (some j) e a =
    let other = lookup-unnamed i j key m.running a.unnamed e in
    let same = cancel-other i j m.runs other in
    record {
      unnamed = names-erase i key m.running a.unnamed;
      old = a.old;
      uncancelled = rw same a.uncancelled;
    }

end_run-Abandoned :
    (i j : ℕ) (m : AgentManager) (o : Option Run)
    → lookup j m.runs ≡ o
    → Abandoned i m
    → Abandoned i (end_of j m o)
end_run-Abandoned i j m none e a = a
end_run-Abandoned i j m (some r) e a = record {
  unnamed = names-erase i r.key m.running a.unnamed;
  old = a.old;
  uncancelled = elim (Bool-cases (j == i)) [
    | inr apart ↦ ground (arith, lookup-insert j i (ended r) m.runs, a.uncancelled)
    | inl same ↦
        let at : j ≡ i = ground (arith, nat_eq.matches_iff j i) in
        let e' : lookup i m.runs ≡ some r = rw (← at) e in
        ground (arith, lookup-insert j i (ended r) m.runs, a.uncancelled)
  ];
}

finish_start-Abandoned :
    (i : ℕ) (key : String) (result : FactoryResult) (m : AgentManager)
    → Abandoned i m
    → Abandoned i (finish_start key result m).0
unfolding finish_start
finish_start-Abandoned i key factory_error m a = a
finish_start-Abandoned i key nil_runner m a = a
finish_start-Abandoned i key new_runner m a = elim (Bool-cases (is_some (lookup key m.running))) [
  | inl busy ↦ rw busy a
  | inr free ↦
      let other : (m.next == i) ≡ false = ground (arith, a.old, nat_eq.matches_iff m.next i) in
      let fresh =
        lookup-insert m.next i (record { key = key; cancelled = false; ended = false }) m.runs in
      rw free (record {
        unnamed = names-insert i m.next key m.running a.unnamed other;
        old = omega (arith, a.old);
        uncancelled = rw (fresh, other) a.uncancelled;
      })
]

Step-Abandoned : {m m' : AgentManager} (i : ℕ) → Step m m' → Abandoned i m → Abandoned i m'
unfolding register_factory stop stop_all end_run
Step-Abandoned {m = m} i (registers key factory) a = record {
  unnamed = a.unnamed;
  old = a.old;
  uncancelled = a.uncancelled;
}
Step-Abandoned {m = m} i (finishes key result) a = finish_start-Abandoned i key result m a
Step-Abandoned {m = m} i (stops key) a = stop-Abandoned i key m (lookup key m.running) refl a
Step-Abandoned {m = m} i stops_all a = record {
  unnamed = refl;
  old = a.old;
  uncancelled = rw (cancel_all-other i m.running m.runs a.unnamed) a.uncancelled;
}
Step-Abandoned {m = m} i (ends j r e alive) a = end_run-Abandoned i j m (lookup j m.runs) refl a

pub Steps-Abandoned : {m m' : AgentManager} (i : ℕ) → Steps m m' → Abandoned i m → Abandoned i m'
Steps-Abandoned i nothing a = a
Steps-Abandoned i (more t ts) a = Steps-Abandoned i ts (Step-Abandoned i t a)
