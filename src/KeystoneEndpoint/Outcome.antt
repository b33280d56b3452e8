-- ===== src/KeystoneEndpoint/Outcome.antt =====
-- The calls that a run of keystone_endpoint.py makes, and what it returns.
use compass4nfv.Base.{
  ◌≡◌, ◌≢◌, sym, ap, ◌∙◌, ◌⊎◌, inl, inr, arith, true, false, List, [], ◌∷◌, ◌++◌, Option, none,
  some, Text, keep, All, text_eq, Bool-cases,
}
use compass4nfv.Result.{Result, ok}
use compass4nfv.Value.{value_eq}
use compass4nfv.Effects.{pure}
use compass4nfv.Effects.Bind.{>>=-eq-ok}
use compass4nfv.KeystoneEndpoint.{
  Endpoint, State, present, absent, Params, Shade, Exit, not_shown, one_shown, new_shown,
  needs_update, is_target, apply_state, main,
}
use compass4nfv.KeystoneEndpoint.Parts.{Found, as_list, main-parts}

-- The endpoint is of the service, the interface and the region.
abbrev pub IsMeant : Params → Text → Endpoint → Type 0
IsMeant params service e =
    (e.service_id ≡ service) × (e.interface ≡ params.interface) × (e.region ≡ params.region)

abbrev pub IsNotMeant : Params → Text → Endpoint → Type 0
IsNotMeant params service e = IsMeant params service e → ⊥

-- The only endpoint of the list that is meant.
pub record IsOnly (params : Params) (service : Text) (all : List Endpoint) (e : Endpoint)
    : Type 0 where
  pub before : List Endpoint
  pub after : List Endpoint
  pub parts : all ≡ before ++ (e ∷ after)
  pub meant : IsMeant params service e
  pub none_before : All (IsNotMeant params service) before
  pub none_after : All (IsNotMeant params service) after

is_target-IsMeant :
    (params : Params) (service : Text) (e : Endpoint)
    → is_target params service e ≡ true
    → IsMeant params service e
unfolding is_target
is_target-IsMeant params service e h = (ground (arith, h), ground (arith, h), ground (arith, h))

is_target-IsNotMeant :
    (params : Params) (service : Text) (e : Endpoint)
    → is_target params service e ≡ false
    → IsNotMeant params service e
unfolding is_target
is_target-IsNotMeant params service e h (a, b, c) = ground (arith, h, a, b, c)

keep-IsNotMeant :
    (params : Params) (service : Text) (l : List Endpoint)
    → keep (is_target params service) l ≡ []
    → All (IsNotMeant params service) l
unfolding keep
keep-IsNotMeant params service [] h = tt
keep-IsNotMeant params service (x ∷ l) h = elim (Bool-cases (is_target params service x)) [
  | inl target ↦ cc (rw target at h)
  | inr other ↦ (
    is_target-IsNotMeant params service x other,
    keep-IsNotMeant params service l (rw other at h),
  )
]

keep-IsOnly :
    (params : Params) (service : Text) (l : List Endpoint) (e : Endpoint)
    → keep (is_target params service) l ≡ e ∷ []
    → IsOnly params service l e
unfolding keep
keep-IsOnly params service [] e h = cc h
keep-IsOnly params service (x ∷ l) e h = elim (Bool-cases (is_target params service x)) [
  | inl target ↦
      let k : x ∷ keep (is_target params service) l ≡ e ∷ [] = rw target at h in
      let same : x ≡ e = cc k in
      let nothing : keep (is_target params service) l ≡ [] = cc k in
      record {
        before = [];
        after = l;
        parts = ap (λ z. z ∷ l) same;
        meant =
            is_target-IsMeant params service e (ap (is_target params service) (sym same) ∙ target);
        none_before = tt;
        none_after = keep-IsNotMeant params service l nothing;
      }
  | inr other ↦
      let rest = keep-IsOnly params service l e (rw other at h) in
      record {
        before = x ∷ rest.before;
        after = rest.after;
        parts = ap (λ z. x ∷ z) rest.parts;
        meant = rest.meant;
        none_before = (is_target-IsNotMeant params service x other, rest.none_before);
        none_after = rest.none_after;
      }
]

module _ {S : Type 0} (cloud : Shade S) (params : Params) where
  -- What is done where no endpoint is meant.
  abbrev pub WithNone : State → Text → S → Exit → S → Type 0
  WithNone present service s exit s' =
      (created : List Endpoint) × (cloud.create_endpoint service params.enabled params.region
          params.interface params.url s
        ≡ (ok created, s'))
      × (exit ≡ (true, new_shown created))
  WithNone absent service s exit s' = (exit ≡ (false, not_shown)) × (s' ≡ s)

  -- And where this one is.
  abbrev pub WithOne : State → Text → Endpoint → S → Exit → S → Type 0
  WithOne present service e s exit s' =
      ((e.url ≡ params.url) × (exit ≡ (false, one_shown e)) × (s' ≡ s))
      ⊎ ((e.url ≢ params.url)
          × (updated : Endpoint) × (cloud.update_endpoint e.id service params.enabled params.region
                params.interface params.url s
              ≡ (ok updated, s'))
          × (exit ≡ (true, one_shown updated)))
  WithOne absent service e s exit s' =
      (cloud.delete_endpoint e.id s ≡ (ok tt, s')) × (exit ≡ (true, not_shown))

  -- The run as a whole.
  pub record Outcome (s : S) (exit : Exit) (s' : S) : Type 0 where
    pub service : Text
    pub all : List Endpoint
    pub only_service : cloud.search_services params.name params.service_type s ≡ ok (service ∷ [])
    pub listed : cloud.list_endpoints s ≡ ok all
    pub done :
        (All (IsNotMeant params service) all × WithNone params.state service s exit s')
        ⊎ ((e : Endpoint) × IsOnly params service all e × WithOne params.state service e s exit s')

  -- The parts of an outcome of `pure`.
  exit_of :
      {exit exit' : Exit} {s s' : S}
      → ◌≡◌ {A = Result Exit × S} (ok exit, s) (ok exit', s')
      → (exit' ≡ exit) × (s' ≡ s)
  exit_of e = (cc e, cc e)

  apply_state-WithNone :
      (service : Text) (state : State) (s : S) {exit : Exit} {s' : S}
      → apply_state cloud params service state none s ≡ (ok exit, s')
      → WithNone state service s exit s'
  unfolding apply_state
  apply_state-WithNone service absent s e = exit_of e
  apply_state-WithNone service present s {exit} {s'} e =
      let (created, s1, done, rest) =
        >>=-eq-ok
          (cloud.create_endpoint service params.enabled params.region params.interface params.url)
          (λ endpoint. pure {S = S} {A = Exit} (true, new_shown endpoint)) s e in
      let (shown, last) = exit_of rest in
      (created, done ∙ ap (λ z. (ok created, z)) (sym last), shown)

  apply_state-WithOne :
      (service : Text) (state : State) (old : Endpoint) (s : S) {exit : Exit} {s' : S}
      → IsMeant params service old
      → apply_state cloud params service state (some old) s ≡ (ok exit, s')
      → WithOne state service old s exit s'
  unfolding apply_state needs_update
  apply_state-WithOne service absent old s meant e =
      let (_, s1, done, rest) =
        >>=-eq-ok (cloud.delete_endpoint old.id) (λ _. pure {S = S} {A = Exit} (true, not_shown)) s
          e in
      let (shown, last) = exit_of rest in (done ∙ ap (λ z. (ok tt, z)) (sym last), shown)
  apply_state-WithOne service present old s meant e = elim (Bool-cases (needs_update params old)) [
    | inr fresh ↦
        let (_, same, _) = meant in
        let (shown, last) = exit_of (rw fresh at e) in
        inl (ground (arith, fresh, same), shown, last)
    | inl stale ↦
        let (updated, s1, done, rest) =
          >>=-eq-ok
            (cloud.update_endpoint old.id service params.enabled params.region params.interface
              params.url)
            (λ updated. pure {S = S} {A = Exit} (true, one_shown updated)) s (rw stale at e) in
        let (shown, last) = exit_of rest in
        inr (ground (arith, stale), updated, done ∙ ap (λ z. (ok updated, z)) (sym last), shown)
  ]

  -- When a run of `main` outside check mode returns, there was one service of the name and the type, and at
  -- most one endpoint of that service with the interface and the region. If there was none, one has been
  -- created with the url for the state `present`, and nothing has been done for `absent`. If there was one,
  -- nothing has been done for `present` if it had the url, and else it has been updated; for `absent` it has
  -- been deleted. No other call has changed the cloud, and `changed` says whether one has.
  pub main-Outcome :
      (s : S) {exit : Exit} {s' : S} → main cloud false params s ≡ (ok exit, s') → Outcome s exit s'
  main-Outcome s {exit} {s'} e =
      let (service, endpoint, found, applied, _) = main-parts cloud params s e in
      record {
        service = service;
        all = found.all;
        only_service = found.services;
        listed = found.listed;
        done = of_found service endpoint found applied;
      }
    where
      of_found :
          (service : Text) (endpoint : Option Endpoint)
          (found : Found cloud params service (as_list endpoint) s)
          → apply_state cloud params service params.state endpoint s ≡ (ok exit, s')
          → (All (IsNotMeant params service) found.all × WithNone params.state service s exit s')
            ⊎ ((e : Endpoint) × IsOnly params service found.all e
                × WithOne params.state service e s exit s')
      of_found service none found applied = inl (
        keep-IsNotMeant params service found.all found.targets,
        apply_state-WithNone service params.state s applied,
      )
      of_found service (some old) found applied =
          let only = keep-IsOnly params service found.all old found.targets in
          inr (old, only, apply_state-WithOne service params.state old s only.meant applied)
