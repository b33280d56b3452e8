-- ===== src/ConfigParse/Shell.antt =====
-- What deploy/config_parse.py does to its surroundings: commands, files and draws of random numbers.
use compass4nfv.Base.{
  ℕ, zero, suc, ◌%◌, Bool, not, [], ◌∷◌, ◌++◌, none, some, Text, codes, get_elem?, number_eq,
  if◌then◌else◌,
}
use compass4nfv.Base.Dict.{Dict}
use compass4nfv.Result.{ok, io_error}
use compass4nfv.Value.{Value}
use compass4nfv.Effects.{
  Event, command, Trace, Environment, show, Action, pure, modify, raise_if, for_each, ◌>>=◌, ◌>>◌,
}

pub record World : Type 0 where
  pub trace : Trace
  -- how many random numbers have been drawn
  pub drawn : ℕ

-- An event of the world, newest first.
abbrev pub happen : Event → Action World (Unit {0})
happen e = modify (λ w. record w { trace = e ∷ w.trace })

-- `os.system(text)`, whose exit status is not looked at
abbrev pub system : Text → Action World (Unit {0})
system text = happen (command text)

-- What the random numbers are, by the count of those before.
module _ (choice : ℕ → ℕ) where
  -- `random.choice("0123456789ABCDEF")`
  unfoldable pub random_hex : Action World ℕ
  random_hex w = (
    ok (elim (get_elem? (codes "0123456789ABCDEF") (choice w.drawn % 16)) [
      | none ↦ 0
      | some c ↦ c
    ]),
    record w { drawn = suc w.drawn },
  )

  -- The rounds of the loop that are left, with the text so far.
  unfoldable pub mac_rounds : ℕ → Text → Action World Text
  unfolding random_hex
  mac_rounds zero mac = pure mac
  mac_rounds (suc n) mac = do
    first ← random_hex
    second ← random_hex
    mac_rounds n (mac ++ (b':' ∷ first ∷ second ∷ []))

  unfoldable pub mac_generator : Action World Text
  unfolding mac_rounds
  mac_generator = mac_rounds 4 (codes "00:00")

-- `items` lists the entries of a dict in the order of the hash table.
module _ (E : Environment) (items : Dict Text Value → Dict Text Value) where
  -- The command for one variable.
  unfoldable pub export_command : Bool → Text → Text → Value → Text
  unfolding show
  export_command direct output_path k v =
      if direct
      then codes "echo 'export "
        ++ (k ++ (codes "=\"" ++ (show E v ++ (codes "\"' >> " ++ output_path))))
      else codes "echo 'export "
        ++ (k
            ++ (codes "=${"
                ++ (k ++ (codes ":-" ++ (show E v ++ (codes "}' >> " ++ output_path))))))

  -- `direct` says which of the two loops runs.
  unfoldable pub export_env_dict : Dict Text Value → Text → Bool → Action World (Unit {0})
  unfolding for_each export_command
  export_env_dict env_dict output_path direct = do
    there ← (λ w. (ok (E.exists w.trace output_path), w))
    raise_if (not there) io_error
    for_each (λ (k, v). system (export_command direct output_path k v)) (items env_dict)
