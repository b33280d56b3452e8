-- ===== src/InsPackages/Named.antt =====
-- Which values a file names as packages, for repo/gen_ins_pkg_script.py.
use compass4nfv.Base.{
  ◌≡◌, ◌≢◌, refl, sym, ap, ◌∙◌, subst, ◌↔◌, ◌⊎◌, inl, inr, true, false, not, arith, List, [], ◌∷◌,
  ◌++◌, Text, text_eq, ◌==◌, contains, Bool-cases,
}
use compass4nfv.Base.{codes, if◌then◌else◌}
use compass4nfv.Base.Dict.{Dict}
use compass4nfv.Base.Members.{contains-append}
use compass4nfv.Text.Paths.{ends_with}
use compass4nfv.Value.Access.{truthy}
use compass4nfv.Result.{ok, ◌>>=◌}
use compass4nfv.Value.{
  Value, Fields, end, field, null, bool, int, str, list, dict, elements, entries, value_eq,
}
use compass4nfv.InsPackages.{is_package_key, as_packages, listed_in, items_of}

-- `front` is what stands before the suffix.
abbrev pub EndsWith : Text → Text → Type 0
EndsWith suffix s = (front : Text) × (s ≡ front ++ suffix)

-- A key of a role's variables that names packages, but not those of pip.
abbrev pub IsPackageKey : Text → Type 0
IsPackageKey key =
    (key ≢ codes "pip_packages")
    × (EndsWith (codes "packages") key ⊎ EndsWith (codes "packages_noarch") key)

-- The value is an element of a list, or is itself what stands there, if that is true and no list.
abbrev pub Holds : Value → Value → Type 0
Holds v (list vs) = contains v (elements vs) ≡ true
Holds v null = ⊥
Holds v (bool b) = (b ≡ true) × (v ≡ bool b)
Holds v (int n) = (truthy (int n) ≡ true) × (v ≡ int n)
Holds v (str s) = (truthy (str s) ≡ true) × (v ≡ str s)
Holds v (dict fs) = (truthy (dict fs) ≡ true) × (v ≡ dict fs)

-- One of the entries names the value.
abbrev pub Names : Value → Dict Text Value → Type 0
Names v [] = ⊥
Names v ((key, value) ∷ more) = (IsPackageKey key × Holds v value) ⊎ Names v more

ends_with-EndsWith : (suffix s : Text) → ends_with suffix s ≡ true → EndsWith suffix s
unfolding ends_with
ends_with-EndsWith suffix [] h = ([], ground (arith, h))
ends_with-EndsWith suffix (c ∷ s) h = elim (Bool-cases (suffix == (c ∷ s))) [
  | inl here ↦ ([], ground (arith, here))
  | inr away ↦
      let (front, same) = ends_with-EndsWith suffix s (ground (arith, h, away)) in
      (c ∷ front, ap (λ z. c ∷ z) same)
]

ends_with-append : (front suffix : Text) → ends_with suffix (front ++ suffix) ≡ true
unfolding ends_with
ends_with-append [] [] = ground arith
ends_with-append [] (c ∷ s) = ground arith
ends_with-append (c ∷ front) suffix = ground (arith, ends_with-append front suffix)

is_package_key_iff : (key : Text) → (is_package_key key ≡ true) ↔ IsPackageKey key
unfolding is_package_key
is_package_key_iff key = (
  λ h. (
    ground (arith, h),
    elim (Bool-cases (ends_with (codes "packages") key)) [
      | inl plain ↦ inl (ends_with-EndsWith (codes "packages") key plain)
      | inr other ↦
          inr (ends_with-EndsWith (codes "packages_noarch") key (ground (arith, h, other)))
    ],
  ),
  λ (other, ends). elim ends [
    | inl (front, same) ↦
        let at : ends_with (codes "packages") key ≡ true =
          ap (ends_with (codes "packages")) same ∙ ends_with-append front (codes "packages") in
        ground (arith, other, at)
    | inr (front, same) ↦
        let at : ends_with (codes "packages_noarch") key ≡ true =
          ap (ends_with (codes "packages_noarch")) same
          ∙ ends_with-append front (codes "packages_noarch") in
        ground (arith, other, at)
  ],
)

single :
    (v w : Value)
    → (contains v (if truthy w then w ∷ [] else []) ≡ true) ↔ ((truthy w ≡ true) × (v ≡ w))
single v w = elim (Bool-cases (truthy w)) [
  | inl full ↦ rw full (λ h. (refl, ground (arith, h)), λ (_, same). ground (arith, same))
  | inr empty ↦ rw empty (λ h. cc h, λ (bad, _). cc bad)
]

as_packages-Holds : (v value : Value) → (contains v (as_packages value) ≡ true) ↔ Holds v value
unfolding as_packages
as_packages-Holds v (list vs) = (λ h. h, λ h. h)
as_packages-Holds v null = (λ h. cc h, λ h. absurd h)
as_packages-Holds v (bool b) = single v (bool b)
as_packages-Holds v (int n) = single v (int n)
as_packages-Holds v (str s) = single v (str s)
as_packages-Holds v (dict fs) = single v (dict fs)

listed_in-Names : (v : Value) (d : Dict Text Value) → (contains v (listed_in d) ≡ true) ↔ Names v d
unfolding listed_in
listed_in-Names v [] = (λ h. cc h, λ h. absurd h)
listed_in-Names v ((key, value) ∷ more) =
    let rest = listed_in-Names v more in
    let here = as_packages-Holds v value in
    let is_key = is_package_key_iff key in
    let both = contains-append v (as_packages value) (listed_in more) in
    elim (Bool-cases (is_package_key key)) [
      | inr other ↦ rw other (
        λ h. inr (rest.0 h),
        λ h. elim h [ inl (k, _) ↦ cc (other, is_key.1 k) | inr later ↦ rest.1 later ],
      )
      | inl packages ↦
          rw (packages, both)
            (
              λ h. elim (Bool-cases (contains v (as_packages value))) [
                | inl at ↦ inl (is_key.0 packages, here.0 at)
                | inr nowhere ↦ inr (rest.0 (ground (arith, h, nowhere)))
              ],
              λ h. elim h [
                | inl (_, held) ↦ ground (arith, here.1 held)
                | inr later ↦ ground (arith, rest.1 later)
              ],
            )
    ]

abbrev fields : Value → Dict Text Value
fields (dict fs) = entries fs
fields v = []

no_dict :
    (v doc : Value) → fields doc ≡ [] → ((fs : Fields) × (doc ≡ dict fs) × Names v (entries fs)) → ⊥
no_dict v doc empty (fs, same, names) = subst (Names v) (ap fields (sym same) ∙ empty) names

falsy_fields : (doc : Value) → truthy doc ≡ false → fields doc ≡ []
falsy_fields (dict end) h = refl
falsy_fields (dict (field k w fs)) h = cc h
falsy_fields null h = refl
falsy_fields (bool b) h = refl
falsy_fields (int n) h = refl
falsy_fields (str s) h = refl
falsy_fields (list vs) h = refl

of_items :
    (v doc : Value) (packages : List Value)
    → (items_of doc >>= λ fields. ok (listed_in fields)) ≡ ok packages
    → (contains v packages ≡ true) ↔ ((fs : Fields) × (doc ≡ dict fs) × Names v (entries fs))
unfolding items_of
of_items v (dict fs) packages e =
    let same : listed_in (entries fs) ≡ packages = cc e in
    let names = listed_in-Names v (entries fs) in
    (
      λ h. (fs, refl, names.0 (ap (contains v) same ∙ h)),
      λ (fs', at, named).
          sym (ap (contains v) same) ∙ names.1 (subst (λ z. Names v (fields z)) (sym at) named),
    )
of_items v null packages e = cc e
of_items v (bool b) packages e = cc e
of_items v (int n) packages e = cc e
of_items v (str s) packages e = cc e
of_items v (list vs) packages e = cc e

-- What a file that has been parsed lists.
pub of_document :
    (v doc : Value) (packages : List Value)
    → (if not (truthy doc) then ok [] else (items_of doc >>= λ fields. ok (listed_in fields)))
      ≡ ok packages
    → (contains v packages ≡ true) ↔ ((fs : Fields) × (doc ≡ dict fs) × Names v (entries fs))
of_document v doc packages e = elim (Bool-cases (truthy doc)) [
  | inl full ↦ of_items v doc packages (rw full at e)
  | inr empty ↦
      let nothing : [] ≡ packages = cc (rw empty at e) in
      (
        λ h. cc (ap (contains v) nothing ∙ h),
        λ h. absurd (no_dict v doc (falsy_fields doc empty) h),
      )
]
