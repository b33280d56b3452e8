-- ===== src/Compass.antt =====
-- `class CompassClient` of deploy/client.py: the state of a deployment. `CONF` is a parameter of the
-- methods. The dicts are keyed by values; Python's hash order is `Environment.order`.
pub mod Config
pub mod Documents
pub mod Login
pub mod Subnets
pub mod Cluster
pub mod Roles
pub mod Networking
pub mod OsConfig
pub mod Progress
pub mod Dashboard
pub mod Package
pub mod Deploy
mod Tests
mod OptionTests
mod RunTests
mod SubnetTests
use compass4nfv.Base.{ℕ, Bool, ◌&&◌, List, [], ◌∷◌, Text, leb, ltb, keep, not}
use compass4nfv.Base.Dict.{Dict}
use compass4nfv.Result.{Result, ok, err, type_error}
use compass4nfv.Value.{Value, str}
use compass4nfv.Effects.{Event, clock, Environment, Action}
use compass4nfv.Restful.{Session}

pub record Compass : Type 0 where
  pub session : Session
  pub subnet_mapping : Dict Value Value
  pub role_mapping : Dict Value Bool
  pub host_mapping : Dict Value Value
  pub host_ips : Dict Value (List Text)
  pub host_roles : Dict Value (List Value)

-- The object that `__init__` makes around `Client(CONF.compass_server)`, before it logs in.
unfoldable pub init : Session → Compass
init session = record {
  session = session;
  subnet_mapping = [];
  role_mapping = [];
  host_mapping = [];
  host_ips = [];
  host_roles = [];
}

-- `self.client.call(…)`
abbrev pub on_client : {A : Type 0} → Action Session A → Action Compass A
on_client m s = let (r, session) = m s.session in (r, record s { session = session })
