-- ===== src/Compass/Package/Address.antt =====
-- `re.findall('\d{1,3}\.\d{1,3}\.\d{1,3}\.\d{1,3}', text)[0]` in
-- `CompassClient.set_cluster_package_config` (deploy/client.py). A dot must follow the first three
-- runs of digits, so a run of more than three digits fits in no way, and no backtracking is needed.
use compass4nfv.Base.{
  ℕ, zero, suc, [], ◌∷◌, ◌++◌, Option, none, some, Text, number_eq, ◌==◌, if◌then◌else◌,
}
use compass4nfv.Text.{is_digit}

-- At most `n` digits at the front, and what follows them.
take_digits : ℕ → Text → Text × Text
take_digits zero s = ([], s)
take_digits (suc n) [] = ([], [])
take_digits (suc n) (c ∷ s) =
    let (a, rest) = take_digits n s in if is_digit c then (c ∷ a, rest) else ([], c ∷ s)

-- The text of `k` more runs, each behind a dot, after the run `a`; `rest` follows that run.
runs_after : ℕ → Text → Text → Option Text
unfolding take_digits number_eq
runs_after k [] rest = none
runs_after zero (d ∷ a) rest = some (d ∷ a)
runs_after (suc k) (d ∷ a) [] = none
runs_after (suc k) (d ∷ a) (c ∷ s) =
    let (b, rest) = take_digits 3 s in
    let more = runs_after k b rest in
    if c == b'.' then elim more [ none ↦ none | some t ↦ some ((d ∷ a) ++ c ∷ t) ] else none

-- The first place where the pattern matches.
unfoldable pub find_address : Text → Option Text
unfolding take_digits runs_after
find_address [] = none
find_address (c ∷ s) =
    let later = find_address s in
    let (a, rest) = take_digits 3 (c ∷ s) in
    elim (runs_after 3 a rest) [ some t ↦ some t | none ↦ later ]
