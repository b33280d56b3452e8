-- ===== src/SetupNetwork/Outcome.antt =====
-- How a run of check_network.py ends, from the addresses of the hosts.
use compass4nfv.Base.{
  ◌≡◌, refl, sym, ap, ◌∙◌, ◌⊎◌, inl, inr, arith, Bool, true, false, not, List, [], ◌∷◌, ◌++◌,
  append_assoc, Text, codes, Bool-cases, if◌then◌else◌,
}
use compass4nfv.Base.Dict.{Dict}
use compass4nfv.Result.{Result, ok, err, system_exit}
use compass4nfv.Value.{Value}
use compass4nfv.Value.Access.{getitem, is_infix}
use compass4nfv.Text.{join}
use compass4nfv.Effects.{Environment, Trace, command, Action, pure, raise_if, ◌>>=◌}
use compass4nfv.Effects.Bind.{>>=-of_ok}
use compass4nfv.Effects.Emits.{concat_map}
use compass4nfv.Effects.Runs.{Each, done, next}
use compass4nfv.SetupNetwork.{named_items}
use compass4nfv.SetupNetwork.Check.{
  ping, all_lost, is_ip_reachable, and_then, is_host_ips_reachable, all_reachable, main,
}

-- The addresses of a host that are checked.
pub record Addresses : Type 0 where
  pub external : Value
  pub gateway : Value
  pub mgmt : Value

-- An entry of the configuration, and its addresses.
pub record HasAddresses (entry : Text × Value) (a : Addresses) : Type 0 where
  pub external_net : Value
  pub mgmt_net : Value
  pub has_external : getitem entry.1 (codes "external") ≡ ok external_net
  pub has_mgmt : getitem entry.1 (codes "mgmt") ≡ ok mgmt_net
  pub external_ip : getitem external_net (codes "ip") ≡ ok a.external
  pub external_gw : getitem external_net (codes "gw") ≡ ok a.gateway
  pub mgmt_ip : getitem mgmt_net (codes "ip") ≡ ok a.mgmt

abbrev pub checked : Addresses → List Value
checked a = a.external ∷ a.gateway ∷ a.mgmt ∷ []

module _ (E : Environment) where
  -- The trace after these pings.
  unfoldable pub pinged : List Value → Trace → Trace
  pinged [] t = t
  pinged (ip ∷ ips) t = pinged ips (command (ping E ip) ∷ t)

  pinged-append : (xs ys : List Value) (t : Trace) → pinged (xs ++ ys) t ≡ pinged ys (pinged xs t)
  unfolding pinged
  pinged-append [] ys t = refl
  pinged-append (ip ∷ xs) ys t = pinged-append xs ys (command (ping E ip) ∷ t)

  -- What the newest command has printed says "100% packet loss", and not " 0% packet loss".
  abbrev pub AllLost : Trace → Type 0
  AllLost t =
      (is_infix (codes "100% packet loss") (join [] (E.output t)) ≡ true)
      × (is_infix (codes " 0% packet loss") (join [] (E.output t)) ≡ false)

  -- It says " 0% packet loss", or does not say "100% packet loss".
  abbrev pub NotLost : Trace → Type 0
  NotLost t =
      (is_infix (codes " 0% packet loss") (join [] (E.output t)) ≡ true)
      ⊎ (is_infix (codes "100% packet loss") (join [] (E.output t)) ≡ false)

  all_lost-AllLost : (t : Trace) → all_lost E t ≡ true → AllLost t
  unfolding all_lost
  all_lost-AllLost t h = ground (arith, h)

  all_lost-NotLost : (t : Trace) → all_lost E t ≡ false → NotLost t
  unfolding all_lost
  all_lost-NotLost t h =
      elim (Bool-cases (is_infix (codes " 0% packet loss") (join [] (E.output t)))) [
        | inl some_back ↦ inl some_back
        | inr none_back ↦ inr (ground (arith, h, none_back))
      ]

  -- None of these addresses has lost every packet when they are pinged in turn from this trace on.
  pub data Reached : List Value → Trace → Type 0 where
    all_done : {t : Trace} → Reached [] t
    answers :
        {ip : Value} {ips : List Value} {t : Trace}
        → NotLost (command (ping E ip) ∷ t)
        → Reached ips (command (ping E ip) ∷ t)
        → Reached (ip ∷ ips) t

  Reached-append :
      {xs ys : List Value} {t : Trace}
      → Reached xs t
      → Reached ys (pinged xs t)
      → Reached (xs ++ ys) t
  unfolding pinged
  Reached-append all_done more = more
  Reached-append (answers here rest) more = answers here (Reached-append rest more)

  -- Some address has lost every packet, and none before it has; the run ends there.
  pub record Stops (ips : List Value) (t t' : Trace) : Type 0 where
    pub before : List Value
    pub silent : Value
    pub after : List Value
    pub parts : ips ≡ before ++ (silent ∷ after)
    pub reached : Reached before t
    pub lost : AllLost t'
    pub ended : t' ≡ command (ping E silent) ∷ pinged before t

  abbrev Outcome : List Value → Trace → Result Bool × Trace → Type 0
  Outcome ips t out =
      ((out ≡ (ok true, pinged ips t)) × Reached ips t)
      ⊎ ((t' : Trace) × (out ≡ (ok false, t')) × Stops ips t t')

  -- A check of these addresses in turn, up to the first that does not answer.
  record Checks (m : Action Trace Bool) (ips : List Value) : Type 0 where
    outcome : (t : Trace) → Outcome ips t (m t)

  Checks-bind :
      {m : Action Trace Bool} {xs ys : List Value} (f : Bool → Action Trace Bool)
      → Checks m xs
      → ((t : Trace) → f false t ≡ (ok false, t))
      → Checks (f true) ys
      → Checks (m >>= f) (xs ++ ys)
  Checks-bind {m} {xs} {ys} f first stays later = record {
    outcome = λ t. elim (first.outcome t) [
      | inr (t', e, s) ↦ inr (
        t',
        >>=-of_ok m f t e ∙ stays t',
        record {
          before = s.before;
          silent = s.silent;
          after = s.after ++ ys;
          parts = ap (λ z. z ++ ys) s.parts ∙ append_assoc s.before (s.silent ∷ s.after) ys;
          reached = s.reached;
          lost = s.lost;
          ended = s.ended;
        },
      )
      | inl (e, r) ↦ elim (later.outcome (pinged xs t)) [
        | inl (e2, r2) ↦ inl (
          >>=-of_ok m f t e ∙ e2 ∙ ap (λ u. (ok true, u)) (sym (pinged-append xs ys t)),
          Reached-append r r2,
        )
        | inr (t', e2, s) ↦ inr (
          t',
          >>=-of_ok m f t e ∙ e2,
          record {
            before = xs ++ s.before;
            silent = s.silent;
            after = s.after;
            parts = ap (λ z. xs ++ z) s.parts ∙ sym (append_assoc xs s.before (s.silent ∷ s.after));
            reached = Reached-append r s.reached;
            lost = s.lost;
            ended =
                s.ended
                ∙ ap (λ u. command (ping E s.silent) ∷ u) (sym (pinged-append xs s.before t));
          },
        )
      ]
    ];
  }

  Checks-and :
      {m n : Action Trace Bool} {xs ys : List Value}
      → Checks m xs
      → Checks n ys
      → Checks (and_then m n) (xs ++ ys)
  Checks-and {n = n} first later =
      Checks-bind (λ reached. if reached then n else pure false) first (λ t. refl) later

  Checks-pure : Checks (pure true) []
  unfolding pinged
  Checks-pure = record { outcome = λ t. inl (refl, all_done) }

  Checks-ping : (ip : Value) → Checks (is_ip_reachable E ip) (ip ∷ [])
  unfolding is_ip_reachable pinged
  Checks-ping ip = record {
    outcome = λ t. elim (Bool-cases (all_lost E (command (ping E ip) ∷ t))) [
      | inr fine ↦ inl (
        ap (λ b. (ok (not b), command (ping E ip) ∷ t)) fine,
        answers (all_lost-NotLost (command (ping E ip) ∷ t) fine) all_done,
      )
      | inl bad ↦ inr (
        command (ping E ip) ∷ t,
        ap (λ b. (ok (not b), command (ping E ip) ∷ t)) bad,
        record {
          before = [];
          silent = ip;
          after = [];
          parts = refl;
          reached = all_done;
          lost = all_lost-AllLost (command (ping E ip) ∷ t) bad;
          ended = refl;
        },
      )
    ];
  }

  Checks-host :
      (host : Text) (settings : Value) (a : Addresses)
      → HasAddresses (host, settings) a
      → Checks (is_host_ips_reachable E settings) (checked a)
  unfolding is_host_ips_reachable
  Checks-host host settings a has =
      let all =
        Checks-and (Checks-ping a.external)
          (Checks-and (Checks-ping a.gateway) (Checks-ping a.mgmt)) in
      record {
        outcome = λ t.
            rw (has.has_external, has.external_ip, has.external_gw, has.has_mgmt, has.mgmt_ip)
              (all.outcome t);
      }

  all_reachable-false :
      (hosts : Dict Text Value) (t : Trace) → all_reachable E hosts false t ≡ (ok false, t)
  unfolding all_reachable
  all_reachable-false [] t = refl
  all_reachable-false ((host, settings) ∷ more) t = all_reachable-false more t

  Checks-hosts :
      {hosts : Dict Text Value} {addresses : List Addresses}
      → Each HasAddresses hosts addresses
      → Checks (all_reachable E hosts true) (concat_map checked addresses)
  unfolding all_reachable
  Checks-hosts done = Checks-pure
  Checks-hosts (next {x = entry} {y = a} {xs = more} has rest) =
      Checks-bind (λ reached. all_reachable E more reached) (Checks-host entry.0 entry.1 a has)
        (all_reachable-false more) (Checks-hosts rest)

  -- On a configuration whose hosts have their addresses, the addresses of the hosts are pinged in turn:
  -- the external one, its gateway and the one for management, host by host. Either `main` returns, has
  -- pinged all of them, and what each ping has printed says " 0% packet loss" or does not say "100% packet
  -- loss"; or one ping says "100% packet loss" and not " 0% packet loss", none of the pings before it does,
  -- it was the last, and `main` exits with 255.
  pub main-outcome :
      (config : Value) (hosts : Dict Text Value) (addresses : List Addresses) (t : Trace)
      → named_items config ≡ ok hosts
      → Each HasAddresses hosts addresses
      → ((main E config t ≡ (ok tt, pinged (concat_map checked addresses) t))
          × Reached (concat_map checked addresses) t)
        ⊎ ((t' : Trace) × (main E config t ≡ (err (system_exit 255), t'))
            × Stops (concat_map checked addresses) t t')
  unfolding main
  main-outcome config hosts addresses t named each =
      let exit_if = λ (result : Bool). raise_if {S = Trace} (not result) (system_exit 255) in
      elim ((Checks-hosts each).outcome t) [
        | inl (e, r) ↦ inl (rw named (>>=-of_ok (all_reachable E hosts true) exit_if t e), r)
        | inr (t', e, s) ↦
            inr (t', rw named (>>=-of_ok (all_reachable E hosts true) exit_if t e), s)
      ]
