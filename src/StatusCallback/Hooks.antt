-- ===== src/StatusCallback/Hooks.antt =====
-- The callbacks that ansible makes during a playbook, and what `CallbackModule`
-- (deploy/ansible_plugins/callback/status_callback.py) does in each.
use compass4nfv.Base.{Option, some}
use compass4nfv.Result.{or_raise, attribute_error}
use compass4nfv.Value.{Value}
use compass4nfv.Effects.{Trace, Environment, Action, pure, modify, ◌>>=◌}
use compass4nfv.StatusCallback.{Stats, report_stats}

-- The callbacks, by the methods of the class. A play is what its variables are.
pub data Hook : Type 0 where
  on_any runner_on_failed runner_on_ok runner_on_skipped runner_on_unreachable : Hook
  runner_on_no_hosts runner_on_async_poll runner_on_async_ok runner_on_async_failed : Hook
  playbook_on_start playbook_on_notify playbook_on_no_hosts_matched : Hook
  playbook_on_no_hosts_remaining playbook_on_task_start playbook_on_vars_prompt : Hook
  playbook_on_setup playbook_on_import_for_host playbook_on_not_import_for_host : Hook
  playbook_on_play_start : Value → Hook
  playbook_on_stats : Stats → Hook

pub record CallbackModule : Type 0 where
  -- the play of the last `v2_playbook_on_play_start`
  pub play : Option Value
  pub trace : Trace

module _ (E : Environment) where
  -- What stands on the trace.
  abbrev on_trace : Action Trace (Unit {0}) → Action CallbackModule (Unit {0})
  on_trace m c = let (r, t) = m c.trace in (r, record c { trace = t })

  unfoldable pub handle : Hook → Action CallbackModule (Unit {0})
  unfolding report_stats
  handle (playbook_on_play_start play) = modify (λ c. record c { play = some play })
  handle (playbook_on_stats stats) = do
    all_vars ← (λ c. (or_raise c.play attribute_error, c))
    on_trace (report_stats E all_vars stats)
  handle other = pure tt
