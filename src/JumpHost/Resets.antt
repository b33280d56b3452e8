-- ===== src/JumpHost/Resets.antt =====
-- Which hosts deploy/reset_compute.py resets.
use compass4nfv.Base.{
  ◌≡◌, refl, inl, inr, Bool, true, List, [], ◌∷◌, some, Text, codes, text_eq, Bool-cases,
  if◌then◌else◌,
}
use compass4nfv.Result.{ok}
use compass4nfv.Value.{Value, str, array}
use compass4nfv.Value.Access.{getitem, get, is_in, iterate}
use compass4nfv.Effects.{Environment, show, Trace}
use compass4nfv.Effects.Emits.{concat_map}
use compass4nfv.Effects.Runs.{ran, Runs, Runs-for_each, Each}
use compass4nfv.JumpHost.ResetCompute.{
  power_reset, virsh_destroy, virsh_start, reset_by_ipmi, restart_host, reset_baremetal,
  reset_virtual, main,
}

-- A host of the DHA file. The credentials are the host's own or those of the file.
pub record Host : Type 0 where
  pub is_compute : Bool
  pub name : Value
  pub ip : Value
  pub user : Value
  pub pass : Value

-- What the file says of a host; the name or the address of its controller must be there where the host
-- is a compute host.
pub record IsVirtual (value : Value) (h : Host) : Type 0 where
  pub roles : Value
  pub has_roles : getitem value (codes "roles") ≡ ok roles
  pub knows_role : is_in (codes "compute") roles ≡ ok h.is_compute
  pub has_name : h.is_compute ≡ true → getitem value (codes "name") ≡ ok h.name

pub record IsBaremetal (user_default pass_default value : Value) (h : Host) : Type 0 where
  pub roles : Value
  pub has_roles : getitem value (codes "roles") ≡ ok roles
  pub knows_role : is_in (codes "compute") roles ≡ ok h.is_compute
  pub has_ip : h.is_compute ≡ true → getitem value (codes "ipmiIp") ≡ ok h.ip
  pub user_given : get value (codes "ipmiUser") user_default ≡ ok h.user
  pub pass_given : get value (codes "ipmiPass") pass_default ≡ ok h.pass

-- The type of a deployment, and the word for it.
pub data Mode : Type 0 where
  virtual baremetal : Mode

abbrev pub word : Mode → Text
word virtual = codes "virtual"
word baremetal = codes "baremetal"

abbrev pub IsHost : Mode → Value → Value → Value → Host → Type 0
IsHost virtual user_default pass_default = IsVirtual
IsHost baremetal user_default pass_default = IsBaremetal user_default pass_default

-- A file, its list of hosts, and the credentials that hold for all of them.
pub record IsDha (E : Environment) (path : Text) (values : List Value) (user pass : Value)
    : Type 0 where
  pub document : Value
  pub listed : Value
  pub parsed : E.yaml path ≡ some document
  pub has_user : get document (codes "ipmiUser") (str (codes "root")) ≡ ok user
  pub has_pass : get document (codes "ipmiPass") (str (codes "Huawei@123")) ≡ ok pass
  pub has_hosts : get document (codes "hosts") (array []) ≡ ok listed
  pub are_hosts : iterate listed ≡ ok values

module _ (E : Environment) where
  abbrev pub restarts : Host → List Text
  restarts h =
      if h.is_compute then virsh_destroy (show E h.name) ∷ virsh_start (show E h.name) ∷ [] else []

  abbrev pub power_resets : Host → List Text
  power_resets h =
      if h.is_compute then power_reset (show E h.ip) (show E h.user) (show E h.pass) ∷ [] else []

  restart_host-restarts :
      (value : Value) (h : Host) → IsVirtual value h → Runs (restart_host E value) tt (restarts h)
  unfolding restart_host ran
  restart_host-restarts value h is = elim (Bool-cases h.is_compute) [
    | inl compute ↦ record {
      runs = λ t. rw (is.has_roles, is.knows_role, compute, is.has_name compute) refl;
    }
    | inr other ↦ record { runs = λ t. rw (is.has_roles, is.knows_role, other) refl }
  ]

  reset_by_ipmi-power_resets :
      (user pass value : Value) (h : Host)
      → IsBaremetal user pass value h
      → Runs (reset_by_ipmi E user pass value) tt (power_resets h)
  unfolding reset_by_ipmi ran
  reset_by_ipmi-power_resets user pass value h is = elim (Bool-cases h.is_compute) [
    | inl compute ↦ record {
      runs = λ t.
          rw (is.has_roles, is.knows_role, compute, is.user_given, is.pass_given, is.has_ip compute)
            refl;
    }
    | inr other ↦ record { runs = λ t. rw (is.has_roles, is.knows_role, other) refl }
  ]

  -- The commands that a host is due in this mode.
  abbrev pub resets : Mode → Host → List Text
  resets virtual h = restarts h
  resets baremetal h = power_resets h

  -- On a file whose hosts can be read in this mode, the script returns from every trace, and the commands
  -- are all that it does: in the mode "virtual" each compute host, in the order of the file, is destroyed
  -- and then started; in the mode "baremetal" the controller of each compute host resets it, with the
  -- credentials of the host or else of the file. No other host is touched.
  pub main-resets :
      (mode : Mode) (path : Text) (more : List Text) (values : List Value) (user pass : Value)
      (hosts : List Host) (t : Trace)
      → IsDha E path values user pass
      → Each (IsHost mode user pass) values hosts
      → main E (word mode ∷ path ∷ more) t ≡ (ok tt, ran (concat_map (resets mode) hosts) t)
  unfolding main reset_virtual reset_baremetal text_eq
  main-resets virtual path more values user pass hosts t dha each =
      rw (dha.parsed, dha.has_hosts, dha.are_hosts)
        ((Runs-for_each restart_host-restarts each).runs t)
  main-resets baremetal path more values user pass hosts t dha each =
      rw (dha.parsed, dha.has_user, dha.has_pass, dha.has_hosts, dha.are_hosts)
        ((Runs-for_each (reset_by_ipmi-power_resets user pass) each).runs t)
