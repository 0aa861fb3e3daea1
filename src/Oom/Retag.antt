-- ===== src/Oom/Retag.antt =====
-- The re-banding of processes: `sweep_once` of libs/browser/src/browser/oom_retag.py, and
-- `raise_pids_to_band` with its caller of scripts/oom_tag_backstop.py. A process table maps each
-- readable pid to its `oom_score_adj`; which pids can be written is an argument.
pub mod Settled
use forever_claude_template.Base.{
  ℕ, String, Bool, true, false, ◌||◌, Option, none, some, List, [], ◌∷◌, leb, if◌then◌else◌, Dict,
  get, put, nat_eq, ℤ, pos, leb_pos, str_eq,
}
use forever_claude_template.Oom.Bands.{
  protected, shared_browser_floor, shared_browser_oom_score_adj, supervisord_program_band,
}

abbrev pub Procs : Type 0
Procs = Dict ℕ ℤ

-- The new value that a process in the given state gets, or none to skip it.
unfoldable pub browser_value : Option ℤ → Option ℕ
browser_value none = none
browser_value (some current) =
    if leb_pos shared_browser_floor current
    then none
    else some (shared_browser_oom_score_adj current)

unfoldable pub raised_value : ℕ → Option ℤ → Option ℕ
raised_value band none = none
raised_value band (some current) = if leb_pos band current then none else some band

-- `write_adj` where the loop body calls it.
unfoldable pub write_adj : (ℕ → Bool) → ℕ → Option ℕ → Procs → Procs
write_adj writable pid none procs = procs
write_adj writable pid (some adj) procs = if writable pid then put procs pid (pos adj) else procs

unfoldable pub retag_all : (ℕ → Bool) → (Option ℤ → Option ℕ) → List ℕ → Procs → Procs
unfolding write_adj
retag_all writable value [] procs = procs
retag_all writable value (pid ∷ pids) procs =
    retag_all writable value pids (write_adj writable pid (value (get procs pid)) procs)

unfoldable pub sweep_once : (ℕ → Bool) → List ℕ → Procs → Procs
unfolding retag_all browser_value
sweep_once writable descendants procs = retag_all writable browser_value descendants procs

unfoldable pub raise_pids_to_band : (ℕ → Bool) → List ℕ → ℕ → Procs → Procs
unfolding retag_all raised_value
raise_pids_to_band writable pids band procs = retag_all writable (raised_value band) pids procs

-- `handle_running_event` after its fields are parsed; `none` is a pid text that is no number.
unfoldable pub handle_running_event : (ℕ → Bool) → (ℕ → List ℕ) → String → Option ℕ → Procs → Procs
unfolding raise_pids_to_band
handle_running_event writable descendants program_name none procs = procs
handle_running_event writable descendants program_name (some pid) procs =
    if str_eq program_name "" || leb (supervisord_program_band program_name) protected
    then procs
    else raise_pids_to_band writable (pid ∷ descendants pid) (supervisord_program_band program_name)
        procs
