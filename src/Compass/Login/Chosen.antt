-- ===== src/Compass/Login/Chosen.antt =====
-- The machines that `CompassClient.get_machines` (deploy/client.py) chooses.
use compass4nfv.Base.{◌≡◌, true, not, arith, List, some, Text, codes, contains, text_eq}
use compass4nfv.Result.{ok, each, runtime_error, io_error, or_raise}
use compass4nfv.Value.{Value, null, value_eq}
use compass4nfv.Value.Access.{getitem, iterate}
use compass4nfv.Effects.{Environment, Action, lift, raise_if, ◌>>=◌, ◌>>◌}
use compass4nfv.Effects.Bind.{>>=-eq-ok}
use compass4nfv.Restful.{Session, Reply}
use compass4nfv.Restful.Machines.{list_machines}
use compass4nfv.Compass.{Compass, on_client}
use compass4nfv.Compass.Config.{Config}
use compass4nfv.Compass.Documents.{mac_of, ids_of, is_subset}
use compass4nfv.Compass.Documents.Machines.{
  HasMac, Wanted, is_subset-contains, each-mac_of, ids_of-Wanted, ids_of_all,
}
use compass4nfv.Compass.Login.{is_ok, get_machines}

module _ (E : Environment) (conf : Config) where
  -- The documents that a call of `get_machines` has read: the addresses of the machine file, and the
  -- machines of a reply with a good status.
  pub record Read (c : Compass) (macs : List Text) (machines : List Value) : Type 0 where
    pub file : Value
    pub listed : List Value
    pub reply : Reply
    pub next : Session
    pub opened : E.yaml conf.machine_file ≡ some file
    pub entries : iterate file ≡ ok listed
    pub addresses : each (mac_of E) listed ≡ ok macs
    pub answered : list_machines E null null null c.session ≡ (ok reply, next)
    pub accepted : is_ok reply.0 ≡ true
    pub items : iterate reply.1 ≡ ok machines

  -- The rest of `get_machines` after the addresses are known.
  abbrev choose : Reply → List Text → Action Compass (List Value)
  choose reply macs = lift (iterate reply.1) >>= λ machines.
      lift (each (mac_of E) machines) >>= λ db.
      raise_if (not (is_subset macs db)) (runtime_error (codes "unidentify machine to add"))
      >> lift (ids_of E macs machines)

  -- And before that.
  abbrev read_file : Reply → Action Compass (List Value)
  read_file reply = lift (or_raise (E.yaml conf.machine_file) io_error) >>= λ file.
      lift (iterate file) >>= λ listed. lift (each (mac_of E) listed) >>= choose reply

  -- Every machine that is to be added is in the database.
  abbrev pub AllKnown : List Text → List Value → Type 0
  AllKnown macs machines =
      (db : List Text) × (each (mac_of E) machines ≡ ok db) × (is_subset macs db ≡ true)

  choose-ok :
      (reply : Reply) (macs : List Text) (c : Compass) {ids : List Value} {c' : Compass}
      → choose reply macs c ≡ (ok ids, c')
      → (machines : List Value) × (iterate reply.1 ≡ ok machines)
        × AllKnown macs machines
        × (ids_of E macs machines ≡ ok ids)
  choose-ok reply macs c e =
      let unknown = runtime_error (codes "unidentify machine to add") in
      let pick = λ (machines : List Value). lift (ids_of E macs machines) in
      let test = λ (machines : List Value) (db : List Text).
        raise_if (not (is_subset macs db)) unknown >> pick machines in
      let compare = λ (machines : List Value). lift (each (mac_of E) machines) >>= test machines in
      let (machines, c1, items, e1) = >>=-eq-ok (lift (iterate reply.1)) compare c e in
      let (db, c2, known, e2) = >>=-eq-ok (lift (each (mac_of E) machines)) (test machines) c1 e1 in
      let (_, c3, all, e3) =
        >>=-eq-ok (raise_if (not (is_subset macs db)) unknown) (λ _. pick machines) c2 e2 in
      (machines, cc items, (db, cc known, ground (arith, all)), cc e3)

  get_machines-Read :
      (c : Compass) {ids : List Value} {c' : Compass}
      → get_machines E conf c ≡ (ok ids, c')
      → (macs : List Text) × (machines : List Value) × Read c macs machines
        × AllKnown macs machines
        × (ids_of E macs machines ≡ ok ids)
  unfolding get_machines
  get_machines-Read c e =
      let refused = λ (reply : Reply).
        raise_if {S = Compass} (not (is_ok reply.0))
          (runtime_error (codes "failed to get machines")) in
      let found =
        λ (listed : List Value) (reply : Reply). lift (each (mac_of E) listed) >>= choose reply in
      let opened =
        λ (reply : Reply) (file : Value). lift (iterate file) >>= λ listed. found listed reply in
      let (reply, c1, sent, e1) =
        >>=-eq-ok (on_client (list_machines E null null null)) (λ r. refused r >> read_file r) c
          e in
      let (_, c2, good, e2) = >>=-eq-ok (refused reply) (λ _. read_file reply) c1 e1 in
      let (file, c3, read, e3) =
        >>=-eq-ok (lift (or_raise (E.yaml conf.machine_file) io_error)) (opened reply) c2 e2 in
      let (listed, c4, entries, e4) = >>=-eq-ok (lift (iterate file)) (λ l. found l reply) c3 e3 in
      let (macs, c5, addresses, e5) =
        >>=-eq-ok (lift (each (mac_of E) listed)) (choose reply) c4 e4 in
      let (machines, items, known, picked) = choose-ok reply macs c5 e5 in
      (
        macs,
        machines,
        record {
          file = file;
          listed = listed;
          reply = reply;
          next = c1.session;
          opened = ground (arith, read);
          entries = cc entries;
          addresses = cc addresses;
          answered = cc sent;
          accepted = ground (arith, good);
          items = items;
        },
        known,
        picked,
      )

  -- If `get_machines` returns, then it has read addresses from the machine file and machines from a
  -- reply with a good status. Each address is that of one of these machines. The ids that it returns
  -- are ids of machines with such an address, and a machine with such an address has its id among them.
  pub get_machines_correct :
      (c : Compass) (ids : List Value) (c' : Compass)
      → get_machines E conf c ≡ (ok ids, c')
      → (macs : List Text) × (machines : List Value) × Read c macs machines
        × ((mac : Text)
            → contains mac macs ≡ true
            → (m : Value) × (contains m machines ≡ true) × HasMac E mac m)
        × ((i : Value) → contains i ids ≡ true → Wanted E macs machines i)
        × ((m : Value) (mac : Text)
            → contains m machines ≡ true
            → HasMac E mac m
            → contains mac macs ≡ true
            → (i : Value) × (getitem m (codes "id") ≡ ok i) × (contains i ids ≡ true))
  get_machines_correct c ids c' e =
      let (macs, machines, read, (db, known, subset), picked) = get_machines-Read c e in
      (
        macs,
        machines,
        read,
        λ mac h. each-mac_of E machines mac known (is_subset-contains macs db mac subset h),
        λ i h. ids_of-Wanted E macs machines i picked h,
        λ m mac listed has wanted. ids_of_all E macs machines m mac picked listed has wanted,
      )
