-- ===== src/Agent/AgentManager/Tests.antt =====
-- The manager on concrete calls, and its theorems there.
use loomwatch.Prelude.{ℕ, ◌≡◌, refl, true, false, some, string_eq, nat_eq}
use loomwatch.Prelude.Dict.{lookup}
use loomwatch.Agent.AgentManager.{
  AgentManager, new_agent_manager, new_runner, is_running, register_factory, start, finish_start,
  begin_start, stop, stop_all, end_run, cancel,
}
use loomwatch.Agent.AgentManager.Soundness.{
  Steps, nothing, more, registers, finishes, stops, stops_all, is_live, Steps-Sound, new-Sound,
  is_running-live,
}
use loomwatch.Agent.AgentManager.Leak.{end_run-leaks}
use loomwatch.Agent.AgentManager.Abandoned.{was_cancelled}

-- An agent is started, stopped and started again.
abbrev restarted : AgentManager
restarted =
    (finish_start "zai" new_runner
      (stop "zai" (finish_start "zai" new_runner (register_factory "zai" 0 new_agent_manager)).0)).0

restart : Steps new_agent_manager restarted
restart = more (registers "zai" 0) (
    more (finishes "zai" new_runner)
      (more (stops "zai") (more (finishes "zai" new_runner) nothing)))

is_running-live_example :
    (i : ℕ) × (lookup "zai" restarted.running ≡ some i)
    × (is_live "zai" (lookup i restarted.runs) ≡ true)
unfolding finish_start stop register_factory is_running cancel
is_running-live_example = is_running-live restarted "zai" restart refl

-- Start's two sections in a row are those of the steps.
start_finishes :
    (start "zai" new_runner (register_factory "zai" 0 new_agent_manager)).0
    ≡ (finish_start "zai" new_runner (register_factory "zai" 0 new_agent_manager)).0
unfolding start begin_start register_factory
start_finishes = refl

end_run-leaks_example :
    (is_running "zai" (end_run 0 restarted) ≡ false)
    × (is_live "zai" (lookup 1 (end_run 0 restarted).runs) ≡ true)
    × (was_cancelled (lookup 1 (stop_all (stop "zai" (end_run 0 restarted))).runs) ≡ false)
unfolding finish_start stop register_factory cancel
end_run-leaks_example =
    end_run-leaks restarted (stop_all (stop "zai" (end_run 0 restarted))) "zai" 1 0
      (record { key = "zai"; cancelled = true; ended = false }) (Steps-Sound restart new-Sound) refl
      refl refl refl (more (stops "zai") (more stops_all nothing))
