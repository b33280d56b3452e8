-- ===== src/Compass/Roles/Waiting.antt =====
-- The tables after `CompassClient.set_all_hosts_roles` (deploy/client.py): hosts without roles, waiting
-- roles, and the option `default_roles`.
use compass4nfv.Base.{
  ◌≡◌, true, false, not, arith, [], leb, length, Bool-cases, inl, inr, Text, ◌∙◌, sym, subst, keep,
}
use compass4nfv.Base.Dict.{keys, has_key, has_key-lookup}
use compass4nfv.Base.Members.{contains-keep, eq-nil_of_contains}
use compass4nfv.Value.{Value, value_eq}
use compass4nfv.Result.{ok}
use compass4nfv.Text.{split}
use compass4nfv.Effects.{Environment, KeepsKeys, for_each, ◌>>◌}
use compass4nfv.Effects.Bind.{>>=-eq-ok, >>=-congr}
use compass4nfv.Compass.{Compass}
use compass4nfv.Compass.Config.{Config}
use compass4nfv.Compass.Roles.{
  unassigned_hosts, unassigned_roles, is_waiting, pair_roles, set_waiting, set_defaults, set_listed,
  set_all_hosts_roles,
}
use compass4nfv.Compass.Roles.Hosts.{
  give_pair, give_pairs-hosts, give_pairs-roles, give_pairs-mapping, contains-pair_roles_hosts,
  contains-pair_roles_roles,
}

module _ (E : Environment) (cluster_id : Value) where
  -- The loop that a call which returns has run through.
  set_waiting-loop :
      (c : Compass) {c' : Compass}
      → set_waiting E cluster_id c ≡ (ok tt, c')
      → for_each
          (give_pair E cluster_id)
          (pair_roles (unassigned_hosts E c) (unassigned_roles E c))
          c
        ≡ (ok tt, c')
  unfolding set_waiting
  set_waiting-loop c e =
      elim (Bool-cases (leb (length (unassigned_roles E c)) (length (unassigned_hosts E c)))) [
        | inl fits ↦ rw fits at e
        | inr short ↦ cc (rw short at e)
      ]

module _ (E : Environment) (order : KeepsKeys E) (cluster_id : Value) where
  -- After the waiting roles are given out, every host of `host_mapping` has roles.
  set_waiting-hosts :
      (c : Compass) {c' : Compass}
      → set_waiting E cluster_id c ≡ (ok tt, c')
      → (h : Value) → has_key h c'.host_mapping ≡ true
      → has_key h c'.host_roles ≡ true
  unfolding unassigned_hosts has_key
  set_waiting-hosts c e h known =
      let loop = set_waiting-loop E cluster_id c e in
      let ps = pair_roles (unassigned_hosts E c) (unassigned_roles E c) in
      ground (
        arith,
        give_pairs-hosts E cluster_id ps h c loop,
        give_pairs-mapping E cluster_id ps c loop,
        contains-pair_roles_hosts h (unassigned_hosts E c) (unassigned_roles E c),
        order h (keep (λ k. not (has_key k c.host_roles)) (keys c.host_mapping)),
        contains-keep (λ k. not (has_key k c.host_roles)) h (keys c.host_mapping),
      )

  -- And no role waits.
  set_waiting-roles :
      (c : Compass) {c' : Compass}
      → set_waiting E cluster_id c ≡ (ok tt, c')
      → (r : Value) → is_waiting c'.role_mapping r ≡ false
  unfolding unassigned_roles has_key
  set_waiting-roles c e r =
      let loop = set_waiting-loop E cluster_id c e in
      let ps = pair_roles (unassigned_hosts E c) (unassigned_roles E c) in
      ground (
        arith,
        give_pairs-roles E cluster_id ps r c loop,
        contains-pair_roles_roles r (unassigned_hosts E c) (unassigned_roles E c),
        order r (keys c.role_mapping),
        has_key-lookup r c.role_mapping,
        contains-keep (is_waiting c.role_mapping) r (E.order (keys c.role_mapping)),
      )

  set_waiting-none_left :
      (c : Compass) {c' : Compass}
      → set_waiting E cluster_id c ≡ (ok tt, c')
      → unassigned_hosts E c' ≡ []
  unfolding unassigned_hosts has_key
  set_waiting-none_left c {c'} e = eq-nil_of_contains _ λ h. ground (
    arith,
    set_waiting-hosts c e h,
    order h (keep (λ k. not (has_key k c'.host_roles)) (keys c'.host_mapping)),
    contains-keep (λ k. not (has_key k c'.host_roles)) h (keys c'.host_mapping),
  )

  -- `set_defaults` after `set_waiting` finds no host to serve.
  set_defaults-idle :
      (conf : Config) (c : Compass) {c' : Compass}
      → set_waiting E cluster_id c ≡ (ok tt, c')
      → set_defaults E conf cluster_id c' ≡ (ok tt, c')
  unfolding set_defaults
  set_defaults-idle conf c {c'} e = rw (set_waiting-none_left c e)

  -- If hash tables list their keys, `set_all_hosts_roles` does the same whatever the option
  -- `default_roles` holds.
  pub set_all_hosts_roles_ignores_defaults :
      (conf : Config) (default_roles : Text) (c : Compass)
      → set_all_hosts_roles E (record conf { default_roles = default_roles }) cluster_id c
        ≡ set_all_hosts_roles E conf cluster_id c
  unfolding set_all_hosts_roles
  set_all_hosts_roles_ignores_defaults conf default_roles c =
      >>=-congr (for_each (set_listed E cluster_id) (split b';' conf.host_roles)) _ _ c λ _ t _.
        >>=-congr (set_waiting E cluster_id) _ _ t λ _ u e.
          set_defaults-idle (record conf { default_roles = default_roles }) t e
          ∙ sym (set_defaults-idle conf t e)

  -- If hash tables list their keys and `set_all_hosts_roles` returns, every host of `host_mapping` has
  -- an entry in `host_roles` and no role of `role_mapping` is marked as unassigned.
  pub set_all_hosts_roles_complete :
      (conf : Config) (c c' : Compass)
      → set_all_hosts_roles E conf cluster_id c ≡ (ok tt, c')
      → ((h : Value) → has_key h c'.host_mapping ≡ true → has_key h c'.host_roles ≡ true)
        × ((r : Value) → is_waiting c'.role_mapping r ≡ false)
  unfolding set_all_hosts_roles
  set_all_hosts_roles_complete conf c c' e =
      let listed = for_each (set_listed E cluster_id) (split b';' conf.host_roles) in
      let finish = set_defaults E conf cluster_id in
      let (_, t, _, rest) = >>=-eq-ok listed (λ _. set_waiting E cluster_id >> finish) c e in
      let (_, u, waited, last) = >>=-eq-ok (set_waiting E cluster_id) (λ _. finish) t rest in
      let same : u ≡ c' = cc (sym (set_defaults-idle conf t waited) ∙ last) in
      subst
        (λ (x : Compass).
          ((h : Value) → has_key h x.host_mapping ≡ true → has_key h x.host_roles ≡ true)
          × ((r : Value) → is_waiting x.role_mapping r ≡ false))
        same (set_waiting-hosts t waited, set_waiting-roles t waited)
