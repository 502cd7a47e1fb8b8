-- ===== src/Agent/AgentManager/Soundness.antt =====
-- What the running map promises: an agent that it names is alive and not cancelled, under any
-- interleaving of the calls and the goroutines.
use loomwatch.Prelude.{
  ℕ, ◌≤◌, ◌≡◌, refl, inl, inr, Bool-cases, Option-cases, String, Bool, true, false, not, ◌&&◌,
  Option, none, some, [], ◌∷◌, arith, ◌==◌, nat_eq, string_eq, if◌then◌else◌, is_some,
}
use loomwatch.Prelude.Dict.{
  Dict, lookup, erase, lookup-insert, lookup-erase, IsMap, insert-IsMap, erase-IsMap,
}
use loomwatch.Agent.AgentManager.{
  FactoryResult, factory_error, nil_runner, new_runner, Run, AgentManager, new_agent_manager,
  is_running, register_factory, finish_start, cancelled, set_run, cancel, cancel_if, stop,
  cancel_all, stop_all, ended, end_of, end_run,
}

-- The calls' sections and the goroutines' ends, in any order.
pub data Step : AgentManager → AgentManager → Type 0 where
  registers :
      {m : AgentManager} (key : String) (factory : ℕ) → Step m (register_factory key factory m)
  finishes :
      {m : AgentManager} (key : String) (result : FactoryResult)
      → Step m (finish_start key result m).0
  stops : {m : AgentManager} (key : String) → Step m (stop key m)
  stops_all : {m : AgentManager} → Step m (stop_all m)
  ends :
      {m : AgentManager} (i : ℕ) (r : Run)
      → lookup i m.runs ≡ some r
      → r.ended ≡ false
      → Step m (end_run i m)

pub data Steps : AgentManager → AgentManager → Type 0 where
  nothing : {m : AgentManager} → Steps m m
  more : {m m' m'' : AgentManager} → Step m m' → Steps m' m'' → Steps m m''

-- A run of a key that is alive and not cancelled.
abbrev pub is_live : String → Option Run → Bool
is_live key none = false
is_live key (some r) = r.key == key && not r.cancelled && not r.ended

-- What the running map names is live, and run numbers are new.
pub record Sound (m : AgentManager) : Type 0 where
  pub live :
      (key : String) (i : ℕ) → lookup key m.running ≡ some i → is_live key (lookup i m.runs) ≡ true
  pub fresh : (i : ℕ) → m.next ≤ i → lookup i m.runs ≡ none
  pub keys : IsMap m.running

finish_start-Sound :
    (key : String) (result : FactoryResult) (m : AgentManager)
    → Sound m
    → Sound (finish_start key result m).0
unfolding finish_start
finish_start-Sound key factory_error m s = s
finish_start-Sound key nil_runner m s = s
finish_start-Sound key new_runner m s = elim (Bool-cases (is_some (lookup key m.running))) [
  | inl busy ↦ rw busy s
  | inr free ↦ rw free (record {
    live = λ k i h. ground (
      arith,
      string_eq.matches_iff key k,
      nat_eq.matches_iff m.next i,
      lookup-insert key k m.next m.running,
      lookup-insert m.next i (record { key = key; cancelled = false; ended = false }) m.runs,
      s.live k i,
      s.fresh i,
    );
    fresh = λ i h. ground (
      arith,
      nat_eq.matches_iff m.next i,
      lookup-insert m.next i (record { key = key; cancelled = false; ended = false }) m.runs,
      s.fresh i,
    );
    keys = insert-IsMap key m.next m.running s.keys;
  })
]

abbrev pub map_run : (Run → Run) → Option Run → Option Run
map_run f none = none
map_run f (some r) = some (f r)

lookup-set_run :
    (f : Run → Run) (i j : ℕ) (o : Option Run) (runs : Dict ℕ Run)
    → lookup i runs ≡ o
    → lookup j (set_run f i o runs) ≡ (if i == j then map_run f (lookup j runs) else lookup j runs)
lookup-set_run f i j none runs e = elim (Bool-cases (i == j)) [
  | inl same ↦
      let at : i ≡ j = ground (arith, nat_eq.matches_iff i j) in
      let e' : lookup j runs ≡ none = rw (← at) e in rw (same, e') refl
  | inr other ↦ rw other refl
]
lookup-set_run f i j (some r) runs e = elim (Bool-cases (i == j)) [
  | inl same ↦
      let at : i ≡ j = ground (arith, nat_eq.matches_iff i j) in
      let e' : lookup j runs ≡ some r = rw (← at) e in
      rw (lookup-insert i j (f r) runs, same, e') refl
  | inr other ↦ rw (lookup-insert i j (f r) runs, other) refl
]

-- Cancelling a run changes no other.
pub lookup-cancel :
    (i j : ℕ) (runs : Dict ℕ Run)
    → lookup j (cancel i runs)
      ≡ (if i == j then map_run cancelled (lookup j runs) else lookup j runs)
unfolding cancel
lookup-cancel i j runs = lookup-set_run cancelled i j (lookup i runs) runs refl

-- A run that two keys name is live for at most one of them.
pub one_key :
    (j k : String) (o : Option Run) → is_live j o ≡ true → is_live k o ≡ true → (j == k) ≡ true
one_key j k none h h' = cc
one_key j k (some r) h h' =
    ground (
      arith,
      string_eq.matches_iff r.key j,
      string_eq.matches_iff r.key k,
      string_eq.matches_iff j k,
    )

stop-Sound :
    (key : String) (m : AgentManager) (o : Option ℕ)
    → lookup key m.running ≡ o
    → Sound m
    → Sound (record m { running = erase key m.running; runs = cancel_if o m.runs })
stop-Sound key m none e s = record {
  live = λ k i h. ground (arith, lookup-erase key k m.running, s.live k i);
  fresh = s.fresh;
  keys = erase-IsMap key m.running s.keys;
}
stop-Sound key m (some i) e s = record {
  live = λ k j h.
      let kept : lookup k m.running ≡ some j = ground (arith, lookup-erase key k m.running) in
      let other : (key == k) ≡ false = ground (arith, lookup-erase key k m.running) in
      let was : is_live k (lookup j m.runs) ≡ true = s.live k j kept in
      let apart : (i == j) ≡ false = elim (Bool-cases (i == j)) [
        | inr apart ↦ apart
        | inl same ↦
            let at : i ≡ j = ground (arith, nat_eq.matches_iff i j) in
            let was_key : is_live key (lookup j m.runs) ≡ true = rw (← at) (s.live key i e) in
            let both = one_key key k (lookup j m.runs) was_key was in ground arith
      ] in
      ground (arith, lookup-cancel i j m.runs);
  fresh = λ j h. ground (arith, lookup-cancel i j m.runs, s.fresh j);
  keys = erase-IsMap key m.running s.keys;
}

cancel_all-none :
    (i : ℕ) (running : Dict String ℕ) (runs : Dict ℕ Run)
    → lookup i runs ≡ none
    → lookup i (cancel_all running runs) ≡ none
unfolding cancel_all
cancel_all-none i [] runs h = h
cancel_all-none i ((key, j) ∷ rest) runs h =
    cancel_all-none i rest (cancel j runs) (ground (arith, lookup-cancel j i runs))

stop_all-Sound : (m : AgentManager) → Sound m → Sound (stop_all m)
unfolding stop_all
stop_all-Sound m s = record {
  live = λ k i h. cc;
  fresh = λ i h. cancel_all-none i m.running m.runs (s.fresh i h);
  keys = tt;
}

end_run-Sound :
    (i : ℕ) (m : AgentManager) (o : Option Run)
    → lookup i m.runs ≡ o
    → Sound m
    → Sound (end_of i m o)
end_run-Sound i m none e s = s
end_run-Sound i m (some r) e s = record {
  live = λ k j h.
      let kept : lookup k m.running ≡ some j = ground (arith, lookup-erase r.key k m.running) in
      let other : (r.key == k) ≡ false = ground (arith, lookup-erase r.key k m.running) in
      let was : is_live k (lookup j m.runs) ≡ true = s.live k j kept in
      let apart : (i == j) ≡ false = elim (Bool-cases (i == j)) [
        | inr apart ↦ apart
        | inl same ↦
            let at : i ≡ j = ground (arith, nat_eq.matches_iff i j) in
            let e' : lookup j m.runs ≡ some r = rw (← at) e in ground arith
      ] in
      ground (arith, lookup-insert i j (ended r) m.runs);
  fresh = λ j h. elim (Bool-cases (i == j)) [
    | inr apart ↦ ground (arith, lookup-insert i j (ended r) m.runs, s.fresh j)
    | inl same ↦
        let at : i ≡ j = ground (arith, nat_eq.matches_iff i j) in
        let e' : lookup j m.runs ≡ some r = rw (← at) e in ground (arith, s.fresh j)
  ];
  keys = erase-IsMap r.key m.running s.keys;
}

Step-Sound : {m m' : AgentManager} → Step m m' → Sound m → Sound m'
unfolding register_factory stop end_run
Step-Sound {m = m} (registers key factory) s = record {
  live = s.live;
  fresh = s.fresh;
  keys = s.keys;
}
Step-Sound {m = m} (finishes key result) s = finish_start-Sound key result m s
Step-Sound {m = m} (stops key) s = stop-Sound key m (lookup key m.running) refl s
Step-Sound {m = m} stops_all s = stop_all-Sound m s
Step-Sound {m = m} (ends i r e alive) s = end_run-Sound i m (lookup i m.runs) refl s

pub Steps-Sound : {m m' : AgentManager} → Steps m m' → Sound m → Sound m'
Steps-Sound nothing s = s
Steps-Sound (more t ts) s = Steps-Sound ts (Step-Sound t s)

pub new-Sound : Sound new_agent_manager
new-Sound = record { live = λ key i h. cc; fresh = λ i h. refl; keys = tt }

-- Under any interleaving of registrations, starts, stops and ends of goroutines from a new
-- manager: a provider that is said to be running has an agent that was started for it, is alive
-- and has not been cancelled.
pub is_running-live :
    (m : AgentManager) (key : String)
    → Steps new_agent_manager m
    → is_running key m ≡ true
    → (i : ℕ) × (lookup key m.running ≡ some i) × (is_live key (lookup i m.runs) ≡ true)
unfolding is_running
is_running-live m key steps running = elim (Option-cases (lookup key m.running)) [
  | inl absent ↦ ground arith
  | inr (i, e) ↦ (i, e, (Steps-Sound steps new-Sound).live key i e)
]
