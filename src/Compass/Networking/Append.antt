-- ===== src/Compass/Networking/Append.antt =====
-- The table of addresses after `self.host_ips[hostname].append(ip)` (deploy/client.py).
use compass4nfv.Base.{
  ◌≡◌, true, arith, List, [], ◌∷◌, ◌++◌, some, Text, contains, ◌==◌, text_eq, Bool-cases,
  Option-cases, inl, inr, ◌⊎◌,
}
use compass4nfv.Base.Members.{contains-append}
use compass4nfv.Base.Dict.{Dict, lookup, lookup-insert}
use compass4nfv.Value.{Value, str, value_eq}
use compass4nfv.Compass.Networking.{append_ip}

-- An address of the new table is the one that is appended, or one of the old table.
pub append_ip-lookup :
    (hostname ip : Text) (d : Dict Value (List Text)) (host : Value) (ips : List Text) (a : Text)
    → lookup host (append_ip hostname ip d) ≡ some ips
    → contains a ips ≡ true
    → (a ≡ ip) ⊎ ((old : List Text) × (lookup host d ≡ some old) × (contains a old ≡ true))
unfolding append_ip
append_ip-lookup hostname ip d host ips a e h = elim (Option-cases (lookup (str hostname) d)) [
  | inl new ↦ elim (Bool-cases (host == str hostname)) [
    | inl here ↦ inl (
        ground
          (arith, rw (new, append_ip) at e, h, here, lookup-insert host (str hostname) (ip ∷ []) d))
    | inr away ↦ inr (
      ips,
      ground (arith, rw (new, append_ip) at e, away, lookup-insert host (str hostname) (ip ∷ []) d),
      h,
    )
  ]
  | inr (old, has) ↦
      let new = old ++ (ip ∷ []) in
      elim (Bool-cases (host == str hostname)) [
        | inr away ↦ inr (
          ips,
          ground (arith, rw (has, append_ip) at e, away, lookup-insert host (str hostname) new d),
          h,
        )
        | inl here ↦ elim (Bool-cases (contains a old)) [
          | inl before ↦ inr (old, ground (arith, has, here), before)
          | inr added ↦ inl (
              ground (
                arith,
                rw (has, append_ip) at e,
                here,
                lookup-insert host (str hostname) new d,
                contains-append a old (ip ∷ []),
                h,
                added,
              ))
        ]
      ]
]
