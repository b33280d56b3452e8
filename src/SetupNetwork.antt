-- ===== src/SetupNetwork.antt =====
-- The network of the hosts, deploy/adapters/ansible/kubernetes/roles/setup-k8s-network/files/setup_networks:
-- setup_networks.py runs on each host, check_network.py pings the others. What they log is left out.
pub mod Commands
pub mod Check
pub mod Outcome
mod Tests
use compass4nfv.Base.{List, Text}
use compass4nfv.Base.Dict.{Dict}
use compass4nfv.Result.{Result, ok, err, attribute_error}
use compass4nfv.Value.{Value, dict, entries}

-- `d.items()`, in the order of the hash table.
unfoldable pub named_items : Value → Result (Dict Text Value)
named_items (dict fs) = ok (entries fs)
named_items v = err attribute_error
