-- ===== src/KeystoneEndpoint/Tests.antt =====
-- A cloud in memory for the ansible module deploy/adapters/ansible/ansible_modules/keystone_endpoint.py.
use compass4nfv.Base.{
  ◌≡◌, refl, Bool, true, false, List, [], ◌∷◌, Option, none, some, Text, codes, ◌==◌, text_eq,
  if◌then◌else◌,
}
use compass4nfv.Result.{ok, err, exception}
use compass4nfv.Value.{Value, str}
use compass4nfv.Effects.{Action}
use compass4nfv.KeystoneEndpoint.Parts.{as_list}
use compass4nfv.KeystoneEndpoint.CheckMode.{check_mode_predicts}
use compass4nfv.KeystoneEndpoint.Outcome.{Outcome, main-Outcome}
use compass4nfv.KeystoneEndpoint.{
  not_shown, one_shown, new_shown, Endpoint, State, present, absent, Params, Shade, main,
}

-- A cloud with one service and room for one endpoint.
abbrev create : Text → Bool → Value → Value → Value → Action (Option Endpoint) (List Endpoint)
create service enabled region interface url none =
    let e : Endpoint = record {
      id = codes "1";
      service_id = service;
      interface = interface;
      region = region;
      url = url;
      enabled = enabled;
    } in
    (ok (e ∷ []), some e)
create service enabled region interface url (some e) = (err (exception (codes "quota")), some e)

abbrev update : Text → Text → Bool → Value → Value → Value → Action (Option Endpoint) Endpoint
update id service enabled region interface url none = (err (exception (codes "no endpoint")), none)
update id service enabled region interface url (some old) =
    let e : Endpoint = record {
      id = old.id;
      service_id = service;
      interface = interface;
      region = region;
      url = url;
      enabled = enabled;
    } in
    if old.id == id then (ok e, some e) else (err (exception (codes "no endpoint")), some old)

abbrev delete : Text → Action (Option Endpoint) (Unit {0})
delete id none = (err (exception (codes "no endpoint")), none)
delete id (some old) =
    if old.id == id then (ok tt, none) else (err (exception (codes "no endpoint")), some old)

abbrev memory : Shade (Option Endpoint)
memory = record {
  installed = true;
  recent = true;
  search_services = λ name type_ s. ok (codes "nova" ∷ []);
  list_endpoints = λ s. ok (as_list s);
  operator_cloud = λ params. ok tt;
  create_endpoint = create;
  update_endpoint = update;
  delete_endpoint = delete;
}

abbrev wanted : State → Params
wanted state = record {
  enabled = true;
  name = codes "nova";
  service_type = codes "compute";
  state = state;
  region = str (codes "RegionOne");
  interface = str (codes "public");
  url = str (codes "http://10.1.0.1");
}

-- What is there after the endpoint has been created, and one with an old url.
abbrev there : Endpoint
there = record {
  id = codes "1";
  service_id = codes "nova";
  interface = str (codes "public");
  region = str (codes "RegionOne");
  url = str (codes "http://10.1.0.1");
  enabled = true;
}

abbrev outdated : Endpoint
outdated = record {
  id = codes "7";
  service_id = codes "nova";
  interface = str (codes "public");
  region = str (codes "RegionOne");
  url = str (codes "http://10.9.9.9");
  enabled = true;
}

abbrev renewed : Endpoint
renewed = record {
  id = codes "7";
  service_id = codes "nova";
  interface = str (codes "public");
  region = str (codes "RegionOne");
  url = str (codes "http://10.1.0.1");
  enabled = true;
}

run_creates :
    main memory false (wanted present) none ≡ (ok (true, new_shown (there ∷ [])), some there)
unfolding main
run_creates = refl

run_updates :
    main memory false (wanted present) (some outdated)
    ≡ (ok (true, one_shown renewed), some renewed)
unfolding main
run_updates = refl

run_deletes : main memory false (wanted absent) (some outdated) ≡ (ok (true, not_shown), none)
unfolding main
run_deletes = refl

check_mode_predicts_example :
    main memory true (wanted present) (some outdated) ≡ (ok (true, not_shown), some outdated)
check_mode_predicts_example =
    check_mode_predicts memory (wanted present) (some outdated) run_updates

main-Outcome_example :
    Outcome memory (wanted present) (some outdated) (true, one_shown renewed) (some renewed)
main-Outcome_example = main-Outcome memory (wanted present) (some outdated) run_updates
