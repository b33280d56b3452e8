-- ===== src/InsPackages/Listed.antt =====
-- Which packages `get_packages_name_list` (repo/gen_ins_pkg_script.py) names.
use compass4nfv.Base.{
  ◌≡◌, refl, sym, ap, ◌∙◌, subst, ◌↔◌, ◌⊎◌, inl, inr, true, false, not, ◌&&◌, ◌||◌, arith, List, [],
  ◌∷◌, ◌++◌, map, Text, text_eq, ◌==◌, contains, Bool-cases,
}
use compass4nfv.Base.{some, Option-cases}
use compass4nfv.Result.{ok, >>=-returns}
use compass4nfv.Value.{Value, Fields, str, dict, entries, value_eq}
use compass4nfv.Effects.{Environment}
use compass4nfv.InsPackages.Named.{Names, of_document}
use compass4nfv.InsPackages.{add_packages, file_packages, add_files, get_packages_name_list}

-- No value stands twice in the list.
abbrev pub IsUnique : List Value → Type 0
IsUnique [] = Unit
IsUnique (v ∷ vs) = (contains v vs ≡ false) × IsUnique vs

abbrev pub specials : List Text → List Value
specials special = map (λ s. str s) special

contains-snoc :
    (v i : Value) (names : List Value)
    → contains v (names ++ (i ∷ [])) ≡ (contains v names || v == i)
contains-snoc v i [] = ground arith
contains-snoc v i (n ∷ names) = ground (arith, contains-snoc v i names)

IsUnique-snoc :
    (i : Value) (names : List Value)
    → IsUnique names
    → contains i names ≡ false
    → IsUnique (names ++ (i ∷ []))
IsUnique-snoc i [] h new = (refl, tt)
IsUnique-snoc i (n ∷ names) (fresh, h) new =
    let other = contains-snoc n i names in
    (ground (arith, other, fresh, new), IsUnique-snoc i names h (ground (arith, new)))

add_packages-IsUnique :
    (special : List Text) (l names : List Value)
    → IsUnique names
    → IsUnique (add_packages special l names)
unfolding add_packages
add_packages-IsUnique special [] names h = h
add_packages-IsUnique special (i ∷ l) names h = elim (Bool-cases (contains i (specials special))) [
  | inl skipped ↦ rw skipped (add_packages-IsUnique special l names h)
  | inr wanted ↦ elim (Bool-cases (contains i names)) [
    | inl known ↦ rw (wanted, known) (add_packages-IsUnique special l names h)
    | inr new ↦
        rw (wanted, new)
          (add_packages-IsUnique special l (names ++ (i ∷ [])) (IsUnique-snoc i names h new))
  ]
]

contains-add_packages :
    (special : List Text) (v : Value) (l names : List Value)
    → contains v (add_packages special l names)
      ≡ (contains v names || (contains v l && not (contains v (specials special))))
unfolding add_packages
contains-add_packages special v [] names = ground arith
contains-add_packages special v (i ∷ l) names = elim (Bool-cases (contains i (specials special))) [
  | inl skipped ↦
      let rest = contains-add_packages special v l names in ground (arith, skipped, rest)
  | inr wanted ↦ elim (Bool-cases (contains i names)) [
    | inl known ↦
        let rest = contains-add_packages special v l names in ground (arith, wanted, known, rest)
    | inr new ↦
        let rest = contains-add_packages special v l (names ++ (i ∷ [])) in
        let snoc = contains-snoc v i names in ground (arith, wanted, new, rest, snoc)
  ]
]

module _ (E : Environment) where
  -- The file holds a dict, one of whose entries names the value.
  abbrev pub Describes : Value → Text → Type 0
  Describes v file = (fs : Fields) × (E.yaml file ≡ some (dict fs)) × Names v (entries fs)

  -- One of the files does.
  abbrev pub IsListed : Value → List Text → Type 0
  IsListed v [] = ⊥
  IsListed v (file ∷ files) = Describes v file ⊎ IsListed v files

  file_packages-Describes :
      (file : Text) (v : Value) {packages : List Value}
      → file_packages E file ≡ ok packages
      → (contains v packages ≡ true) ↔ Describes v file
  unfolding file_packages
  file_packages-Describes file v {packages} e = elim (Option-cases (E.yaml file)) [
    | inl missing ↦ cc (rw missing at e)
    | inr (doc, parsed) ↦
        let (to, from) = of_document v doc packages (rw parsed at e) in
        (
          λ h. let (fs, same, names) = to h in (fs, parsed ∙ ap (λ z. some z) same, names),
          λ (fs, same, names). let at : doc ≡ dict fs = cc (parsed, same) in from (fs, at, names),
        )
  ]

  add_files-IsUnique :
      (special files : List Text) (names : List Value) {out : List Value}
      → add_files E special files names ≡ ok out
      → IsUnique names
      → IsUnique out
  unfolding add_files
  add_files-IsUnique special [] names {out} e h =
      let same : names ≡ out = cc in subst IsUnique same h
  add_files-IsUnique special (file ∷ files) names e h =
      let (packages, _, rest) =
        >>=-returns (file_packages E file)
          (λ packages. add_files E special files (add_packages special packages names)) e in
      add_files-IsUnique special files (add_packages special packages names) rest
        (add_packages-IsUnique special packages names h)

  add_files-IsListed :
      (special files : List Text) (names : List Value) {out : List Value} (v : Value)
      → add_files E special files names ≡ ok out
      → (contains v out ≡ true)
        ↔ ((contains v names ≡ true) ⊎ ((contains v (specials special) ≡ false) × IsListed v files))
  unfolding add_files
  add_files-IsListed special [] names {out} v e =
      let same : names ≡ out = cc in
      (
        λ h. inl (ap (contains v) same ∙ h),
        λ h. elim h [ inl k ↦ sym (ap (contains v) same) ∙ k | inr (_, nowhere) ↦ absurd nowhere ],
      )
  add_files-IsListed special (file ∷ files) names v e =
      let (packages, read, rest) =
        >>=-returns (file_packages E file)
          (λ packages. add_files E special files (add_packages special packages names)) e in
      let (to, from) =
        add_files-IsListed special files (add_packages special packages names) v rest in
      let here = contains-add_packages special v packages names in
      (
        λ h. elim (to h) [
          | inr (wanted, later) ↦ inr (wanted, inr later)
          | inl added ↦ elim (Bool-cases (contains v names)) [
            | inl before ↦ inl before
            | inr new ↦ inr (
              ground (arith, here, added, new),
              inl ((file_packages-Describes file v read).0 (ground (arith, here, added, new))),
            )
          ]
        ],
        λ h. elim h [
          | inl before ↦ from (inl (ground (arith, here, before)))
          | inr (wanted, inr later) ↦ from (inr (wanted, later))
          | inr (wanted, inl described) ↦
              let found = (file_packages-Describes file v read).1 described in
              from (inl (ground (arith, here, wanted, found)))
        ],
      )

  -- When `get_packages_name_list` returns, no name stands twice in its list.
  pub get_packages_name_list-IsUnique :
      (files special : List Text) {names : List Value}
      → get_packages_name_list E files special ≡ ok names
      → IsUnique names
  unfolding get_packages_name_list
  get_packages_name_list-IsUnique files special e = add_files-IsUnique special files [] e tt

  -- When `get_packages_name_list` returns, a value is in its list exactly if it is not one of the special
  -- packages and one of the files names it: under a key that ends in "packages" or "packages_noarch" and is
  -- not "pip_packages" there is a list with it, or it stands there itself.
  pub get_packages_name_list-IsListed :
      (files special : List Text) {names : List Value} (v : Value)
      → get_packages_name_list E files special ≡ ok names
      → (contains v names ≡ true) ↔ ((contains v (specials special) ≡ false) × IsListed v files)
  unfolding get_packages_name_list
  get_packages_name_list-IsListed files special v e =
      let (to, from) = add_files-IsListed special files [] v e in
      (λ h. elim (to h) [ inl nowhere ↦ cc nowhere | inr listed ↦ listed ], λ h. from (inr h))
