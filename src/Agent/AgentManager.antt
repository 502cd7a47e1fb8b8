-- ===== src/Agent/AgentManager.antt =====
-- internal/agent/manager.go: starting and stopping the providers' agents. Each function below is
-- one section under the mutex. A started goroutine is a run: `ctx` is its cancelled flag, and it
-- ends when `runner.Run` returns, which deletes the key from the running map. What a factory
-- returns is an argument.
pub mod Soundness
pub mod Abandoned
pub mod Leak
mod Tests
use loomwatch.Prelude.{
  ℕ, suc, ◌+◌, ◌≡◌, String, Bool, true, false, not, ◌&&◌, Option, none, some, List, [], ◌∷◌, ◌==◌,
  nat_eq, string_eq, if◌then◌else◌, is_some,
}
use loomwatch.Prelude.Dict.{Dict, lookup, insert, erase}

-- What a factory returns: an error, a nil runner or a runner.
pub data FactoryResult : Type 0 where
  factory_error nil_runner new_runner : FactoryResult

pub data StartError : Type 0 where
  not_registered factory_failed returned_nil : StartError

pub record Run : Type 0 where
  pub key : String
  pub cancelled : Bool
  pub ended : Bool

-- `type AgentManager struct` with the goroutines it has started. A factory and a cancel function
-- are numbers, the latter that of its run.
pub record AgentManager : Type 0 where
  pub factories : Dict String ℕ
  pub running : Dict String ℕ
  pub runs : Dict ℕ Run
  pub next : ℕ

-- `NewAgentManager`
abbrev pub new_agent_manager : AgentManager
new_agent_manager = record { factories = []; running = []; runs = []; next = 0 }

-- `RegisterFactory`
unfoldable pub register_factory : String → ℕ → AgentManager → AgentManager
register_factory key factory m = record m { factories = insert key factory m.factories }

-- `IsRunning`
unfoldable pub is_running : String → AgentManager → Bool
is_running key m = is_some (lookup key m.running)

-- The end of the first section of `Start`.
pub data Begun : Type 0 where
  already : Begun
  failed : StartError → Begun
  calls_factory : ℕ → Begun

abbrev pub factory_of : Option ℕ → Begun
factory_of none = failed not_registered
factory_of (some factory) = calls_factory factory

-- The first section of `Start`, which changes nothing.
unfoldable pub begin_start : String → AgentManager → Begun
begin_start key m =
    if is_some (lookup key m.running) then already else factory_of (lookup key m.factories)

-- The second section of `Start`, with the goroutine that it starts.
unfoldable pub finish_start :
    String → FactoryResult → AgentManager → AgentManager × Option StartError
finish_start key factory_error m = (m, some factory_failed)
finish_start key nil_runner m = (m, some returned_nil)
finish_start key new_runner m = if is_some (lookup key m.running) then (m, none) else (
  record m {
    running = insert key m.next m.running;
    runs = insert m.next (record { key = key; cancelled = false; ended = false }) m.runs;
    next = suc m.next;
  },
  none,
)

abbrev pub after_begin :
    String → FactoryResult → AgentManager → Begun → AgentManager × Option StartError
after_begin key result m already = (m, none)
after_begin key result m (failed e) = (m, some e)
after_begin key result m (calls_factory _) = finish_start key result m

-- `Start`, where nothing else runs between its sections.
unfoldable pub start : String → FactoryResult → AgentManager → AgentManager × Option StartError
start key result m = after_begin key result m (begin_start key m)

-- `cancel()`
abbrev pub cancelled : Run → Run
cancelled r = record r { cancelled = true }

abbrev pub set_run : (Run → Run) → ℕ → Option Run → Dict ℕ Run → Dict ℕ Run
set_run f i none runs = runs
set_run f i (some r) runs = insert i (f r) runs

unfoldable pub cancel : ℕ → Dict ℕ Run → Dict ℕ Run
cancel i runs = set_run cancelled i (lookup i runs) runs

abbrev pub cancel_if : Option ℕ → Dict ℕ Run → Dict ℕ Run
cancel_if none runs = runs
cancel_if (some i) runs = cancel i runs

-- `Stop`
unfoldable pub stop : String → AgentManager → AgentManager
stop key m = record m {
  running = erase key m.running;
  runs = cancel_if (lookup key m.running) m.runs;
}

-- The second loop of `StopAll`.
unfoldable pub cancel_all : Dict String ℕ → Dict ℕ Run → Dict ℕ Run
cancel_all [] runs = runs
cancel_all ((key, i) ∷ rest) runs = cancel_all rest (cancel i runs)

-- `StopAll`
unfoldable pub stop_all : AgentManager → AgentManager
stop_all m = record m { running = []; runs = cancel_all m.running m.runs }

abbrev pub ended : Run → Run
ended r = record r { ended = true }

abbrev pub end_of : ℕ → AgentManager → Option Run → AgentManager
end_of i m none = m
end_of i m (some r) = record m { running = erase r.key m.running; runs = insert i (ended r) m.runs }

-- The end of a goroutine: its runner has returned, and the key is deleted. A run has not ended
-- before that deletion, though its runner has returned by then.
unfoldable pub end_run : ℕ → AgentManager → AgentManager
end_run i m = end_of i m (lookup i m.runs)
