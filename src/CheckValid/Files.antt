-- ===== src/CheckValid/Files.antt =====
-- When the script util/check_valid.py ends with the exit status 0.
use compass4nfv.Base.{
  ◌≡◌, ap, ◌∙◌, ◌↔◌, inl, inr, Bool, true, false, ◌||◌, arith, [], ◌∷◌, ◌++◌, Text, codes,
  Bool-cases, if◌then◌else◌,
}
use compass4nfv.Result.{Result, ok, system_exit, Result-cases}
use compass4nfv.Value.{Value, str}
use compass4nfv.Value.Access.{truthy}
use compass4nfv.Effects.{Action, pure, raise_if, ◌>>=◌, ◌>>◌}
use compass4nfv.Effects.Bind.{>>=-eq-ok, >>=-of_ok}
use compass4nfv.CheckValid.{
  Printed, err_print, load_file, check_file, main, check_dha_file, check_network_file,
}
use compass4nfv.CheckValid.Accepted.{IsGoodNetwork, check_network_file_lem}
use compass4nfv.CheckValid.Dha.{IsGoodDha, check_dha_file_lem}

module _ (exists : Text → Bool) (read : Text → Result Text) (safe_load : Text → Result Value) where
  -- The file is there, and holds something that the predicate accepts.
  pub record Holds (P : Value → Type 0) (file : Text) : Type 0 where
    pub content : Value
    pub there : exists file ≡ true
    pub loaded : load_file exists read safe_load file ≡ ok content
    pub full : truthy content ≡ true
    pub good : P content

  module _ (kind : Text) (check : Value → Action Printed Bool) (P : Value → Type 0)
      (correct : (v : Value) (s : Printed) → ((s' : Printed) × (check v s ≡ (ok true, s'))) ↔ P v)
      (file : Text) where
    -- The last message.
    judge : Bool → Action Printed Bool
    unfolding err_print
    judge valid =
        if valid
        then pure false
        else (err_print (codes "in " ++ (kind ++ codes ": %s")) (str file ∷ []) >> pure true)

    check_file-Holds :
        (s s' : Printed)
        → check_file exists read safe_load kind check file s ≡ (ok false, s')
        → Holds P file
    unfolding check_file err_print judge
    check_file-Holds s s' e = elim (Bool-cases (exists file)) [
      | inr missing ↦ cc (rw missing at e)
      | inl there ↦ elim (Result-cases (load_file exists read safe_load file)) [
        | inr (x, bad) ↦ cc (rw (there, bad) at e)
        | inl (v, loaded) ↦ elim (Bool-cases (truthy v)) [
          | inr empty ↦ cc (rw (there, loaded, empty) at e)
          | inl full ↦
              let (valid, s1, e1, e2) =
                >>=-eq-ok (check v) judge s (rw (there, loaded, full) at e) in
              let fine : valid ≡ true = ground (arith, e2) in
              record {
                content = v;
                there = there;
                loaded = loaded;
                full = full;
                good = (correct v s).0 (s1, e1 ∙ ap (λ z. (ok z, s1)) fine);
              }
        ]
      ]
    ]

    Holds-check_file :
        (s : Printed)
        → Holds P file
        → (s' : Printed) × (check_file exists read safe_load kind check file s ≡ (ok false, s'))
    unfolding check_file judge
    Holds-check_file s h =
        let (s', e) = (correct h.content s).1 h.good in
        (s', rw (h.there, h.loaded, h.full) (>>=-of_ok (check h.content) judge s e))

  -- The script ends with the exit status 0 exactly if both files are there and hold what is well
  -- formed.
  pub main_lem :
      (program dha_file network_file : Text) (s : Printed)
      → ((s' : Printed) × (main exists read safe_load (program ∷ dha_file ∷ network_file ∷ []) s
            ≡ (ok tt, s')))
        ↔ (Holds IsGoodDha dha_file × Holds IsGoodNetwork network_file)
  unfolding main
  main_lem program dha_file network_file s =
      let dha = check_file exists read safe_load (codes "DHA") check_dha_file dha_file in
      let network =
        check_file exists read safe_load (codes "NETWORK") check_network_file network_file in
      let finish = λ (b c : Bool). raise_if (b || c) (system_exit 1) in
      (
        λ (s', e).
            let (b, s1, e1, rest) = >>=-eq-ok dha (λ b. network >>= finish b) s e in
            let (c, s2, e2, last) = >>=-eq-ok network (finish b) s1 rest in
            let (fine, fine') : (b ≡ false) × (c ≡ false) = ground (arith, last) in
            (
              check_file-Holds (codes "DHA") check_dha_file IsGoodDha check_dha_file_lem dha_file s
                  s1 (e1 ∙ ap (λ z. (ok z, s1)) fine),
              check_file-Holds (codes "NETWORK") check_network_file IsGoodNetwork
                  check_network_file_lem network_file s1 s2 (e2 ∙ ap (λ z. (ok z, s2)) fine'),
            ),
        λ (good, good').
            let (s1, e1) =
              Holds-check_file (codes "DHA") check_dha_file IsGoodDha check_dha_file_lem dha_file s
                good in
            let (s2, e2) =
              Holds-check_file (codes "NETWORK") check_network_file IsGoodNetwork
                check_network_file_lem network_file s1 good' in
            (
              s2,
              >>=-of_ok dha (λ b. network >>= finish b) s e1
                  ∙ >>=-of_ok network (finish false) s1 e2,
            ),
      )
