-- ===== src/ConfigParse/Networks.antt =====
-- The variable HOST_NETWORKS as deploy/config_parse.py writes it, and what deploy/client.py does on it.
use compass4nfv.Base.{
  ℕ, suc, ◌≡◌, refl, ap, ◌∙◌, inl, inr, true, false, not, ◌||◌, arith, List, [], ◌∷◌, ◌++◌, map,
  some, Text, codes, All, contains, number_eq, text_eq, Option-cases,
}
use compass4nfv.Base.Members.{contains-append}
use compass4nfv.Base.Dict.{lookup}
use compass4nfv.Result.{Result, ok, or_raise, runtime_error, value_error, assertion_error}
use compass4nfv.Value.{Value, null, bool, str, value_eq}
use compass4nfv.Value.Access.{getitem}
use compass4nfv.Text.{split, strip, join}
use compass4nfv.Text.Laws.{IsFree, split-free, split-append, split_once-append, split-join}
use compass4nfv.Text.Blanks.{has_blank, has_blank-append, strip-free}
use compass4nfv.Effects.{
  Environment, show, Action, gets, lift, raise_if, modify, for_each, ◌>>=◌, ◌>>◌,
}
use compass4nfv.Effects.Bind.{>>=-first, >>=-pure_tt, >>=-congr}
use compass4nfv.Restful.HostNetworks.{add_host_network}
use compass4nfv.Compass.{Compass, on_client}
use compass4nfv.Compass.Config.{Config}
use compass4nfv.Compass.Login.{is_ok}
use compass4nfv.Compass.Networking.{
  get_subnet, append_ip, add_network, add_networks, set_host_networking,
}
use compass4nfv.ConfigParse.{host_networks}

-- A host of the DHA file, with the address that netaddr yields for it.
pub record Placed : Type 0 where
  pub value : Value
  pub name : Text
  pub ip : Text

-- A text that is kept when the entries are taken apart: it has no blank and none of `:`, `;`, `,`, `=`, `|`.
pub record IsWord (s : Text) : Type 0 where
  pub colon : contains b':' s ≡ false
  pub semicolon : contains b';' s ≡ false
  pub comma : contains b',' s ≡ false
  pub equals : contains b'=' s ≡ false
  pub bar : contains b'|' s ≡ false
  pub blank : has_blank s ≡ false

abbrev pub AllWords : List Placed → Type 0
AllWords hs = All (λ (h : Placed). IsWord h.name × IsWord h.ip) hs

module _ (E : Environment) (nic : Text) where
  abbrev interface_text : Placed → Text
  interface_text h = nic ++ (b'=' ∷ h.ip ++ codes "|is_mgmt")

  abbrev entry : Placed → Text
  entry h = h.name ++ (b':' ∷ interface_text h)

  -- What a host is due: its interface with its address, in the subnet of the address, for management.
  unfoldable pub connect : Placed → Action Compass (Unit {0})
  unfolding lookup value_eq get_subnet add_host_network append_ip
  connect h = do
    known ← gets (λ c. lookup (str h.name) c.host_mapping)
    host_id ← lift (or_raise known assertion_error)
    found ← gets (λ c. get_subnet E h.ip c.subnet_mapping)
    subnet_id ← lift (or_raise found (runtime_error (codes "ip addr %s is invalid")))
    (status, response) ←
        on_client (add_host_network E host_id (str nic) (str h.ip) subnet_id (bool true) null null)
    raise_if (not (is_ok status)) (runtime_error (codes "add host network failed"))
    modify (λ c. record c { host_ips = append_ip h.name h.ip c.host_ips })

  -- The interface of an entry.
  interface-IsFree :
      (h : Placed) (sep : ℕ)
      → IsWord nic
      → IsWord h.ip
      → contains sep nic ≡ false
      → contains sep h.ip ≡ false
      → contains sep (b'=' ∷ []) ≡ false
      → contains sep (codes "|is_mgmt") ≡ false
      → IsFree sep (interface_text h)
  interface-IsFree h sep plain_nic plain_ip in_nic in_ip at_equals in_mgmt =
      let first = contains-append sep nic (b'=' ∷ h.ip ++ codes "|is_mgmt") in
      let second = contains-append sep h.ip (codes "|is_mgmt") in
      ground (arith, first, second, in_nic, in_ip, at_equals, in_mgmt)

  add_network-connect :
      (h : Placed) (host_id : Value) (c : Compass)
      → IsWord nic
      → IsWord h.ip
      → lookup (str h.name) c.host_mapping ≡ some host_id
      → add_network E h.name host_id (interface_text h) c ≡ connect h c
  unfolding add_network connect text_eq has_blank split number_eq
  add_network-connect h host_id c plain_nic plain_ip known =
      let parts = split_once-append b'=' nic (h.ip ++ codes "|is_mgmt") plain_nic.equals in
      let free : has_blank (h.ip ++ codes "|is_mgmt") ≡ false =
        has_blank-append h.ip (codes "|is_mgmt") ∙ ap (λ b. b || false) plain_ip.blank in
      let stays = strip-free (h.ip ++ codes "|is_mgmt") free in
      let pieces = split-append b'|' h.ip (codes "is_mgmt") plain_ip.bar in
      rw (parts, stays, pieces, known) refl

  -- The rest of a host's part of the option, after its name.
  abbrev of_words : Text → Text → Action Compass (Unit {0})
  unfolding lookup value_eq split for_each add_network
  of_words name networks_str = do
    known ← gets (λ c. lookup (str name) c.host_mapping)
    host_id ← lift (or_raise known assertion_error)
    for_each (add_network E name host_id) (split b',' networks_str)

  of_words-connect :
      (h : Placed) (c : Compass)
      → IsWord nic
      → IsWord h.ip
      → of_words h.name (interface_text h) c ≡ connect h c
  unfolding connect for_each of_words
  of_words-connect h c plain_nic plain_ip =
      let one_interface =
        split-free b',' (interface_text h)
          (interface-IsFree h b',' plain_nic plain_ip plain_nic.comma plain_ip.comma refl refl) in
      elim (Option-cases (lookup (str h.name) c.host_mapping)) [
        | inl unknown ↦ rw unknown refl
        | inr (host_id, known) ↦
            let body = add_network E h.name host_id in
            let found : of_words h.name (interface_text h) c
                ≡ for_each body (split b',' (interface_text h)) c =
              rw known refl in
            found
            ∙ ap (λ xs. for_each body xs c) one_interface
            ∙ >>=-pure_tt (body (interface_text h)) c
            ∙ add_network-connect h host_id c plain_nic plain_ip known
      ]

  -- An entry of the variable, as the client takes it apart.
  add_networks-connect :
      (h : Placed) (c : Compass)
      → IsWord nic
      → IsWord h.name
      → IsWord h.ip
      → add_networks E (entry h) c ≡ connect h c
  unfolding add_networks has_blank of_words
  add_networks-connect h c plain_nic plain_name plain_ip =
      let text = interface_text h in
      let free : has_blank text ≡ false =
        has_blank-append nic (b'=' ∷ h.ip ++ codes "|is_mgmt")
        ∙ ap (λ b. b || has_blank (h.ip ++ codes "|is_mgmt")) plain_nic.blank
        ∙ has_blank-append h.ip (codes "|is_mgmt")
        ∙ ap (λ b. b || false) plain_ip.blank in
      let parts = split_once-append b':' h.name text plain_name.colon in
      ap
        (λ r.
          (lift {S = Compass} (or_raise r value_error) >>= λ (p : Text × Text).
          of_words (strip p.0) (strip p.1))
            c)
        parts
      ∙ ap (λ n. of_words n (strip text) c) (strip-free h.name plain_name.blank)
      ∙ ap (λ z. of_words h.name z c) (strip-free text free)
      ∙ of_words-connect h c plain_nic plain_ip

  entry-IsFree : (h : Placed) → IsWord nic → IsWord h.name → IsWord h.ip → IsFree b';' (entry h)
  unfolding number_eq
  entry-IsFree h plain_nic plain_name plain_ip =
      let both = contains-append b';' h.name (b':' ∷ interface_text h) in
      let rest =
        interface-IsFree h b';' plain_nic plain_ip plain_nic.semicolon plain_ip.semicolon refl
          refl in
      ground (arith, both, rest, plain_name.semicolon)

  entries-IsFree : (hs : List Placed) → IsWord nic → AllWords hs → All (IsFree b';') (map entry hs)
  entries-IsFree [] plain_nic words = tt
  entries-IsFree (h ∷ hs) plain_nic ((name, ip), more) =
      (entry-IsFree h plain_nic name ip, entries-IsFree hs plain_nic more)

  for_each-connect :
      (hs : List Placed) (c : Compass)
      → IsWord nic
      → AllWords hs
      → for_each (add_networks E) (map entry hs) c ≡ for_each connect hs c
  unfolding for_each
  for_each-connect [] c plain_nic words = refl
  for_each-connect (h ∷ hs) c plain_nic ((name, ip), more) =
      >>=-first (add_networks E (entry h)) (connect h)
        (λ _. for_each (add_networks E) (map entry hs)) c
        (add_networks-connect h c plain_nic name ip)
      ∙ >>=-congr (connect h) (λ _. for_each (add_networks E) (map entry hs))
          (λ _. for_each connect hs) c (λ a d e. for_each-connect hs d plain_nic more)

module _ (E : Environment) (next_ip : Value → Value → ℕ → Result Text) (nic : Text)
    (start end : Value) where
  -- The hosts of the file from the n-th on.
  abbrev pub IsPlaced : ℕ → List Placed → Type 0
  IsPlaced n [] = Unit
  IsPlaced n (h ∷ hs) =
      (getitem h.value (codes "name") ≡ ok (str h.name))
      × (next_ip start end n ≡ ok h.ip)
      × IsPlaced (suc n) hs

  host_networks-entry :
      (n : ℕ) (hs : List Placed)
      → IsPlaced n hs
      → host_networks E next_ip nic start end n (map (λ (h : Placed). h.value) hs)
        ≡ ok (map (entry E nic) hs)
  unfolding host_networks show
  host_networks-entry n [] placed = refl
  host_networks-entry n (h ∷ hs) (named, given, more) =
      rw (named, given, host_networks-entry (suc n) hs more)

  -- If the names of the hosts, the name of the network interface and the addresses have neither blanks nor
  -- any of the characters that separate: `host_networks` writes an entry for each host, and on a
  -- configuration whose option is these entries, as `export_network_file` joins them, `set_host_networking`
  -- of deploy/client.py does for each host, in order, just this: it adds the interface, with the host's
  -- address in the subnet of that address and for management, to the host of that name. A host or a
  -- subnet that it does not know ends the loop as it does there.
  pub host_networks-connect :
      (conf : Config) (h : Placed) (hs : List Placed) (c : Compass)
      → IsPlaced 0 (h ∷ hs)
      → IsWord nic
      → AllWords (h ∷ hs)
      → (entries : List Text) × (host_networks E next_ip nic start end 0
            (map (λ (h : Placed). h.value) (h ∷ hs))
          ≡ ok entries)
        × (set_host_networking E (record conf { host_networks = join (codes ";") entries }) c
            ≡ for_each (connect E nic) (h ∷ hs) c)
  unfolding set_host_networking
  host_networks-connect conf h hs c placed plain_nic words = (
    map (entry E nic) (h ∷ hs),
    host_networks-entry 0 (h ∷ hs) placed,
    ap (λ xs. for_each (add_networks E) xs c)
          (split-join b';' (entry E nic h) (map (entry E nic) hs)
            (entries-IsFree E nic (h ∷ hs) plain_nic words))
        ∙ for_each-connect E nic (h ∷ hs) c plain_nic words,
  )
