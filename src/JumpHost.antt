-- ===== src/JumpHost.antt =====
-- The scripts that the launchers run on the jump host: deploy/reset_compute.py, deploy/bonding.py,
-- deploy/rename_nics.py and deploy/setup_vnic.py. Each reads a yaml file and runs shell commands, whose
-- exit status it does not look at. What is printed is left out.
pub mod ResetCompute
pub mod Bonding
pub mod RenameNics
pub mod SetupVnic
pub mod Resets
mod Tests
use compass4nfv.Base.{Text, List, [], ◌∷◌, ◌++◌}
use compass4nfv.Result.{Result, or_raise, io_error}
use compass4nfv.Value.{Value}
use compass4nfv.Effects.{Environment, Trace, Action, lift}
use compass4nfv.Effects.Emits.{run_command}

-- `exec_cmd(cmd)`
abbrev pub exec_cmd : Text → Action Trace (Unit {0})
exec_cmd cmd = run_command cmd

-- `yaml.safe_load(open(path))`
abbrev pub load : Environment → Text → Action Trace Value
load E path = lift (or_raise (E.yaml path) io_error)

-- A format with its values put in: the text between them, and each value as `%s` shows it.
unfoldable pub with_values : List Text → List Text → Text
with_values [] values = []
with_values (piece ∷ pieces) [] = piece ++ with_values pieces []
with_values (piece ∷ pieces) (value ∷ values) = piece ++ (value ++ with_values pieces values)
