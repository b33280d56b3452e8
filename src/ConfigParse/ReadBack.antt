-- ===== src/ConfigParse/ReadBack.antt =====
-- The variable HOST_ROLES as deploy/config_parse.py writes it and deploy/client.py reads it.
use compass4nfv.Base.{
  ℕ, ◌≡◌, refl, ap, ◌∙◌, true, false, arith, List, [], ◌∷◌, ◌++◌, map, Option, some, Text, codes,
  All, contains, number_eq, keep,
}
use compass4nfv.Base.Members.{contains-append}
use compass4nfv.Result.{ok, each, or_raise, value_error}
use compass4nfv.Value.{Value, str, array, value_eq}
use compass4nfv.Value.Access.{truthy, get, iterate}
use compass4nfv.Text.{split_once, strip, join}
use compass4nfv.Text.Laws.{IsFree, split-join, split_once-append}
use compass4nfv.Text.Blanks.{has_blank, has_blank-append, strip-free}
use compass4nfv.Base.Dict.{has_key}
use compass4nfv.Effects.{Environment, show, Action, lift, gets, assert, for_each, ◌>>=◌, ◌>>◌}
use compass4nfv.Effects.Bind.{>>=-first, >>=-congr}
use compass4nfv.Compass.{Compass}
use compass4nfv.Compass.Config.{Config}
use compass4nfv.Compass.Roles.{
  give_roles, set_listed, set_waiting, set_defaults, set_all_hosts_roles,
}
use compass4nfv.Compass.Documents.{pieces}
use compass4nfv.Compass.Documents.Pieces.{IsItem, pieces-join}
use compass4nfv.ConfigParse.{all_texts, join_values, joined, decorator, hostrole, hostroles}

-- A host of the file: its name, and its roles.
pub record Host : Type 0 where
  pub value : Value
  pub name : Text
  pub roles : List Text
  pub listed : Value
  pub named : get value (codes "name") (str []) ≡ ok (str name)
  pub roles_given : get value (codes "roles") (array []) ≡ ok listed
  pub texts_only : iterate listed ≡ ok (map (λ r. str r) roles)

-- A text without blanks.
abbrev pub HasNoBlank : Text → Type 0
HasNoBlank s = has_blank s ≡ false

-- The name has neither `=` nor `;`, the roles are not empty and have neither `,` nor `;`, and there are no
-- blanks.
pub record IsPlain (h : Host) : Type 0 where
  pub name_blank : HasNoBlank h.name
  pub roles_blank : All HasNoBlank h.roles
  pub name_plain : contains b'=' h.name ≡ false
  pub name_free : contains b';' h.name ≡ false
  pub roles_plain : All (IsItem b',') h.roles
  pub roles_free : All (IsFree b';') h.roles

abbrev entry : Host → Text
entry h = h.name ++ (b'=' ∷ join (b',' ∷ []) h.roles)

join-IsFree : (parts : List Text) → All (IsFree b';') parts → IsFree b';' (join (b',' ∷ []) parts)
unfolding join
join-IsFree [] h = refl
join-IsFree (p ∷ []) (h, _) = h
join-IsFree (p ∷ q ∷ ps) (h, more) =
    let rest = join-IsFree (q ∷ ps) more in
    let both = contains-append b';' p (b',' ∷ join (b',' ∷ []) (q ∷ ps)) in
    ground (arith, h, rest, both)

entry-IsFree : (h : Host) → IsPlain h → IsFree b';' (entry h)
entry-IsFree h plain =
    let both = contains-append b';' h.name (b'=' ∷ join (b',' ∷ []) h.roles) in
    let free = join-IsFree h.roles plain.roles_free in ground (arith, both, plain.name_free, free)

all_texts-map : (ts : List Text) → all_texts (map (λ t. str t) ts) ≡ ok ts
unfolding all_texts
all_texts-map [] = refl
all_texts-map (t ∷ ts) = rw (all_texts-map ts)

hostrole-entry : (E : Environment) (h : Host) → hostrole E h.value ≡ ok (str (entry h))
unfolding hostrole join_values show
hostrole-entry E h = rw (h.named, h.roles_given, h.texts_only, all_texts-map h.roles)

each-entry :
    (E : Environment) (hs : List Host)
    → each (hostrole E) (map (λ (h : Host). h.value) hs) ≡ ok (map (λ h. str (entry h)) hs)
unfolding each
each-entry E [] = refl
each-entry E (h ∷ hs) = rw (hostrole-entry E h, each-entry E hs)

-- No entry is empty.
append-truthy : (s : Text) (c : ℕ) (t : Text) → truthy (str (s ++ (c ∷ t))) ≡ true
append-truthy [] c t = refl
append-truthy (d ∷ s) c t = refl

keep-entry :
    (hs : List Host) → keep truthy (map (λ h. str (entry h)) hs) ≡ map (λ t. str t) (map entry hs)
unfolding keep
keep-entry [] = refl
keep-entry (h ∷ hs) = rw (append-truthy h.name b'=' (join (b',' ∷ []) h.roles), keep-entry hs)

join-HasNoBlank : (parts : List Text) → All HasNoBlank parts → HasNoBlank (join (b',' ∷ []) parts)
unfolding join has_blank number_eq
join-HasNoBlank [] h = refl
join-HasNoBlank (p ∷ []) (h, _) = h
join-HasNoBlank (p ∷ q ∷ ps) (h, more) =
    let rest = join-HasNoBlank (q ∷ ps) more in
    has_blank-append p (b',' ∷ join (b',' ∷ []) (q ∷ ps)) ∙ ground (arith, h, rest)

entry-HasNoBlank : (h : Host) → IsPlain h → HasNoBlank (entry h)
unfolding has_blank number_eq
entry-HasNoBlank h plain =
    let roles = join-HasNoBlank h.roles plain.roles_blank in
    has_blank-append h.name (b'=' ∷ join (b',' ∷ []) h.roles)
    ∙ ground (arith, plain.name_blank, roles)

stripped :
    (roles : List Text)
    → All HasNoBlank roles
    → map (λ role. str (strip role)) roles ≡ map (λ role. str role) roles
stripped [] h = refl
stripped (r ∷ roles) (plain, more) =
    ap (λ z. str z ∷ map (λ role. str (strip role)) roles) (strip-free r plain)
    ∙ ap (λ z. str r ∷ z) (stripped roles more)

module _ (E : Environment) (cluster_id : Value) where
  -- A host that is known gets its roles; one that is not known ends the loop.
  unfoldable pub hand : Host → Action Compass (Unit {0})
  unfolding has_key value_eq give_roles
  hand h = do
    known ← gets (λ c. has_key (str h.name) c.host_mapping)
    assert known
    give_roles E cluster_id (str h.name) (map (λ role. str role) h.roles)

  -- An entry, from its two parts on.
  abbrev of_parts : Option (Text × Text) → Action Compass (Unit {0})
  unfolding has_key value_eq strip pieces give_roles
  of_parts parts = do
    (hostname, roles_str) ← lift (or_raise parts value_error)
    known ← gets (λ c. has_key (str hostname) c.host_mapping)
    assert known
    let roles = map (λ role. str (strip role)) (pieces b',' roles_str)
    give_roles E cluster_id (str hostname) roles

  abbrev of_roles : Text → List Value → Action Compass (Unit {0})
  unfolding has_key value_eq give_roles
  of_roles hostname roles = do
    known ← gets (λ c. has_key (str hostname) c.host_mapping)
    assert known
    give_roles E cluster_id (str hostname) roles

  set_listed-hand :
      (h : Host) (c : Compass) → IsPlain h → set_listed E cluster_id (entry h) c ≡ hand h c
  unfolding set_listed hand of_parts of_roles
  set_listed-hand h c plain =
      let text = join (b',' ∷ []) h.roles in
      ap (λ t. of_parts (split_once b'=' t) c) (strip-free (entry h) (entry-HasNoBlank h plain))
      ∙ ap (λ p. of_parts p c) (split_once-append b'=' h.name text plain.name_plain)
      ∙ ap (λ rs. of_roles h.name (map (λ role. str (strip role)) rs) c)
          (pieces-join b',' h.roles plain.roles_plain)
      ∙ ap (λ rs. of_roles h.name rs c) (stripped h.roles plain.roles_blank)

  for_each-hand :
      (hs : List Host) (c : Compass)
      → All IsPlain hs
      → for_each (set_listed E cluster_id) (map entry hs) c ≡ for_each hand hs c
  unfolding for_each
  for_each-hand [] c plain = refl
  for_each-hand (h ∷ hs) c (plain, more) =
      >>=-first (set_listed E cluster_id (entry h)) (hand h)
        (λ _. for_each (set_listed E cluster_id) (map entry hs)) c (set_listed-hand h c plain)
      ∙ >>=-congr (hand h) (λ _. for_each (set_listed E cluster_id) (map entry hs))
          (λ _. for_each hand hs) c (λ a d e. for_each-hand hs d more)

entries-IsFree : (hs : List Host) → All IsPlain hs → All (IsFree b';') (map entry hs)
entries-IsFree [] h = tt
entries-IsFree (h ∷ hs) (plain, more) = (entry-IsFree h plain, entries-IsFree hs more)

join_values-all_texts :
    (sep : Text) (ts : List Text) → join_values sep (map (λ t. str t) ts) ≡ ok (join sep ts)
unfolding join_values
join_values-all_texts sep ts = rw (all_texts-map ts)

joined-all_texts :
    (sep t : Text) (ts : List Text)
    → joined (map (λ t. str t) (t ∷ ts)) (some sep)
      ≡ ok (str (b'"' ∷ join sep (t ∷ ts) ++ (b'"' ∷ [])))
unfolding joined
joined-all_texts sep t ts = rw (join_values-all_texts sep (t ∷ ts))

-- For at least one host, if no name and no role has a blank or a character that separates, and no role is
-- empty: `hostroles` puts a text between quotation marks, and on a configuration whose option is that text
-- `set_all_hosts_roles` of deploy/client.py does for each host, in order, just this before it goes on to the
-- roles that wait: a host that it knows gets the roles that the file has for it, and one that it does not
-- know ends the run.
pub hostroles-hand :
    (E : Environment) (dha : Value) (listed : Value) (h : Host) (hs : List Host) (conf : Config)
    (cluster_id : Value) (c : Compass)
    → get dha (codes "hosts") (array []) ≡ ok listed
    → iterate listed ≡ ok (map (λ (h : Host). h.value) (h ∷ hs))
    → All IsPlain (h ∷ hs)
    → (text : Text) × (hostroles E dha (some (codes ";")) ≡ ok (str (b'"' ∷ text ++ (b'"' ∷ []))))
      × (set_all_hosts_roles E (record conf { host_roles = text }) cluster_id c
          ≡ (for_each (hand E cluster_id) (h ∷ hs)
                >> (set_waiting E cluster_id
                    >> set_defaults E (record conf { host_roles = text }) cluster_id))
              c)
unfolding hostroles decorator set_all_hosts_roles
hostroles-hand E dha listed h hs conf cluster_id c have are plain =
    let text = join (b';' ∷ []) (map entry (h ∷ hs)) in
    let others = λ (_ : Unit {0}).
      set_waiting E cluster_id >> set_defaults E (record conf { host_roles = text }) cluster_id in
    (
      text,
      rw (have, are, each-entry E (h ∷ hs))
          (ap (λ vs. joined vs (some (codes ";"))) (keep-entry (h ∷ hs))
            ∙ joined-all_texts (codes ";") (entry h) (map entry hs)),
      ap (λ ts. (for_each (set_listed E cluster_id) ts >>= others) c)
            (split-join b';' (entry h) (map entry hs) (entries-IsFree (h ∷ hs) plain))
          ∙ >>=-first (for_each (set_listed E cluster_id) (map entry (h ∷ hs)))
              (for_each (hand E cluster_id) (h ∷ hs)) others c
              (for_each-hand E cluster_id (h ∷ hs) c plain),
    )
