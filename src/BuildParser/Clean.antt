-- ===== src/BuildParser/Clean.antt =====
-- What has gone well in a run of build/parser.py that returns.
use compass4nfv.Base.{
  ℕ, ◌≡◌, refl, subst, ◌⊎◌, inl, inr, Bool, true, false, arith, List, [], ◌∷◌, ◌++◌, Option, Text,
  codes, ◌==◌, number_eq, if◌then◌else◌,
}
use compass4nfv.Result.{Result, ok, or_raise, type_error, io_error}
use compass4nfv.Value.{Value, null, str, value_eq}
use compass4nfv.Value.Access.{get, iterate}
use compass4nfv.ConfigParse.{all_texts}
use compass4nfv.Effects.{
  Environment, Trace, request, sleep, clock, command, start, is_alive, terminate, write, Action,
  pure, lift, for_each, ◌>>=◌,
}
use compass4nfv.Effects.Bind.{>>=-eq-ok}
use compass4nfv.BuildParser.{
  md5_download, local_sum, remote_sum, popen, exec_command, same_sum, is_current, file_download,
  get_from_cache, get_from_git, get_from_docker, get_from_curl, get_package, fetch_all,
  build_parser, main, text_at, text_of, same_lines,
}

-- The commands of the checksums, whose exit status does not count.
abbrev pub IsIgnored : Text → Type 0
IsIgnored c =
    ((localfile : Text) × (remote : Text) × (c ≡ md5_download localfile remote))
    ⊎ (((localfile : Text) × (c ≡ local_sum localfile))
        ⊎ ((localfile : Text) × (c ≡ remote_sum localfile)))

module _ (E : Environment) where
  -- Each command has ended with the exit status 0, or its exit status does not count.
  abbrev pub IsClean : Trace → Type 0
  IsClean [] = Unit
  IsClean (command c ∷ t) = ((E.exit_status (command c ∷ t) ≡ 0) ⊎ IsIgnored c) × IsClean t
  IsClean (request r ∷ t) = IsClean t
  IsClean (sleep n ∷ t) = IsClean t
  IsClean (clock ∷ t) = IsClean t
  IsClean (start ∷ t) = IsClean t
  IsClean (is_alive ∷ t) = IsClean t
  IsClean (terminate ∷ t) = IsClean t
  IsClean (write path v ∷ t) = IsClean t

  -- An action that leaves a clean trace where it returns.
  pub record Keeps {A : Type 0} (m : Action Trace A) : Type 0 where
    pub keeps : (t t' : Trace) (a : A) → m t ≡ (ok a, t') → IsClean t → IsClean t'

  Keeps-pure : {A : Type 0} (a : A) → Keeps (pure a)
  Keeps-pure a = record { keeps = λ t t' b e h. let same : t ≡ t' = cc in subst IsClean same h }

  Keeps-lift : {A : Type 0} (r : Result A) → Keeps (lift r)
  Keeps-lift r = record { keeps = λ t t' b e h. let same : t ≡ t' = cc in subst IsClean same h }

  Keeps-bind :
      {A B : Type 0} {m : Action Trace A} {f : A → Action Trace B}
      → Keeps m
      → ((a : A) → Keeps (f a))
      → Keeps (m >>= f)
  Keeps-bind {A} {B} {m} {f} hm hf = record {
    keeps = λ t t' b e h.
        let (a, t1, e1, e2) = >>=-eq-ok m f t e in (hf a).keeps t1 t' b e2 (hm.keeps t t1 a e1 h);
  }

  Keeps-branch :
      {A : Type 0} (c : Bool) {m n : Action Trace A}
      → Keeps m
      → Keeps n
      → Keeps (if c then m else n)
  Keeps-branch true hm hn = hm
  Keeps-branch false hm hn = hn

  Keeps-for_each :
      {A : Type 0} {body : A → Action Trace (Unit {0})}
      → ((a : A) → Keeps (body a))
      → (xs : List A) → Keeps (for_each body xs)
  unfolding for_each
  Keeps-for_each h [] = Keeps-pure tt
  Keeps-for_each h (x ∷ xs) = Keeps-bind (h x) (λ _. Keeps-for_each h xs)

  -- A command of a checksum.
  Keeps-popen : (c : Text) → IsIgnored c → Keeps (popen E c)
  Keeps-popen c ignored = record {
    keeps = λ t t' a e h. let same : command c ∷ t ≡ t' = cc in subst IsClean same (inr ignored, h);
  }

  exec_command-ignored : (c : Text) → IsIgnored c → Keeps (exec_command E c true)
  unfolding exec_command
  exec_command-ignored c ignored = record {
    keeps = λ t t' a e h. let same : command c ∷ t ≡ t' = cc in subst IsClean same (inr ignored, h);
  }

  exec_command-Keeps : (c : Text) → Keeps (exec_command E c false)
  unfolding exec_command
  exec_command-Keeps c = record {
    keeps = λ t t' a e h.
        let status : E.exit_status (command c ∷ t) ≡ 0 = ground (arith, e) in
        let same : command c ∷ t ≡ t' = cc (rw status at e) in subst IsClean same (inl status, h);
  }

  text_at-Keeps : (pkg : Value) (key : Text) → Keeps (text_at pkg key)
  unfolding text_at
  text_at-Keeps pkg key = Keeps-bind (Keeps-lift (get pkg key null)) (λ v. Keeps-lift (text_of v))

  -- A read of the trace.
  Keeps-gets : {A : Type 0} (f : Trace → A) → Keeps (λ t. (ok (f t), t))
  Keeps-gets f = record { keeps = λ t t' b e h. let same : t ≡ t' = cc in subst IsClean same h }

  same_sum-Keeps : (localfile : Text) → Keeps (same_sum E localfile)
  unfolding same_sum
  same_sum-Keeps localfile =
      let compared = λ (mine : List Text).
        Keeps-bind (Keeps-popen (remote_sum localfile) (inr (inr (localfile, refl))))
          (λ theirs. Keeps-pure (same_lines theirs mine)) in
      let summed =
        Keeps-bind (Keeps-popen (local_sum localfile) (inr (inl (localfile, refl)))) compared in
      Keeps-bind (Keeps-gets (λ t. E.exists t localfile))
        (λ there. Keeps-branch there summed (Keeps-pure false))

  is_current-Keeps : (localfile : Text) (files : List Value) → Keeps (is_current E localfile files)
  unfolding is_current
  is_current-Keeps localfile [] = Keeps-pure false
  is_current-Keeps localfile (v ∷ more) =
      let rest = is_current-Keeps localfile more in
      let judged = λ (rc : ℕ) (same : Bool).
        Keeps-branch same (Keeps-pure true) (Keeps-branch (rc == 0) (Keeps-pure false) rest) in
      let fetched = λ (file : Text).
        Keeps-bind
          (exec_command-ignored (md5_download localfile file) (inl (localfile, file, refl)))
          (λ rc. Keeps-bind (same_sum-Keeps localfile) (judged rc)) in
      Keeps-bind (Keeps-lift (text_of v)) fetched

  -- A command, and then nothing.
  last-Keeps : (c : Text) → Keeps (exec_command E c false >>= λ _. pure tt)
  last-Keeps c = Keeps-bind (exec_command-Keeps c) (λ _. Keeps-pure tt)

  get_from_cache-Keeps : (cache : Option Text) (pkg : Value) → Keeps (get_from_cache E cache pkg)
  unfolding get_from_cache
  get_from_cache-Keeps cache_dir pkg =
      let download = λ (cache filename : Text) (listed : List Value).
        Keeps-bind (Keeps-lift (all_texts listed))
          (λ remotefile. last-Keeps (file_download E cache filename remotefile)) in
      let checked = λ (cache filename : Text) (listed : List Value).
        Keeps-bind (is_current-Keeps (cache ++ (b'/' ∷ filename)) listed)
          (λ current. Keeps-branch current (Keeps-pure tt) (download cache filename listed)) in
      let removed = λ (cache filename : Text) (listed : List Value).
        Keeps-bind
          (exec_command-Keeps (codes "rm -f " ++ ((cache ++ (b'/' ∷ filename)) ++ codes ".md5")))
          (λ _. checked cache filename listed) in
      let located = λ (cache filename : Text).
        Keeps-bind (Keeps-lift (get pkg (codes "url") null))
          (λ url. Keeps-bind (Keeps-lift (iterate url)) (removed cache filename)) in
      Keeps-bind (Keeps-lift (or_raise cache_dir type_error))
        (λ cache. Keeps-bind (text_at-Keeps pkg (codes "name")) (located cache))

  get_from_git-Keeps : (cache : Option Text) (pkg : Value) → Keeps (get_from_git E cache pkg)
  unfolding get_from_git
  get_from_git-Keeps cache_dir pkg =
      let cloned = λ (localfile : Text).
        Keeps-bind (text_at-Keeps pkg (codes "url"))
          (λ url. last-Keeps (codes "git clone " ++ (url ++ (b' ' ∷ localfile)))) in
      let removed = λ (cache name : Text).
        Keeps-bind (exec_command-Keeps (codes "rm -rf " ++ (cache ++ (b'/' ∷ name))))
          (λ _. cloned (cache ++ (b'/' ∷ name))) in
      Keeps-bind (Keeps-lift (or_raise cache_dir type_error))
        (λ cache. Keeps-bind (text_at-Keeps pkg (codes "name")) (removed cache))

  get_from_docker-Keeps : (cache : Option Text) (pkg : Value) → Keeps (get_from_docker E cache pkg)
  unfolding get_from_docker
  get_from_docker-Keeps cache_dir pkg =
      let saved = λ (output url : Text).
        Keeps-bind
          (exec_command-Keeps (codes "sudo docker save " ++ (url ++ (codes " -o " ++ output))))
          (λ _. last-Keeps (codes "user=$(whoami); sudo chown -R $user:$user " ++ output)) in
      let pulled = λ (output url : Text).
        Keeps-bind (exec_command-Keeps (codes "sudo docker pull " ++ url))
          (λ _. saved output url) in
      let named = λ (cache name : Text).
        Keeps-bind (text_at-Keeps pkg (codes "url"))
          (pulled (cache ++ (b'/' ∷ name ++ codes ".tar"))) in
      Keeps-bind (Keeps-lift (or_raise cache_dir type_error))
        (λ cache. Keeps-bind (text_at-Keeps pkg (codes "name")) (named cache))

  get_from_curl-Keeps : (cache : Option Text) (pkg : Value) → Keeps (get_from_curl E cache pkg)
  unfolding get_from_curl
  get_from_curl-Keeps cache_dir pkg =
      let fetched = λ (cache name : Text). Keeps-bind (text_at-Keeps pkg (codes "url")) (λ url.
        last-Keeps
          (codes "curl --connect-timeout 10 -o " ++ (cache ++ (b'/' ∷ name ++ (b' ' ∷ url))))) in
      Keeps-bind (Keeps-lift (or_raise cache_dir type_error))
        (λ cache. Keeps-bind (text_at-Keeps pkg (codes "name")) (fetched cache))

  get_package-Keeps : (cache : Option Text) (pkg : Value) → Keeps (get_package E cache pkg)
  unfolding get_package
  get_package-Keeps cache pkg =
      Keeps-bind (Keeps-lift (get pkg (codes "get_method") null)) (λ method.
        Keeps-branch (method == str (codes "cached")) (get_from_cache-Keeps cache pkg) (
          Keeps-branch (method == str (codes "git")) (get_from_git-Keeps cache pkg) (
            Keeps-branch (method == str (codes "docker")) (get_from_docker-Keeps cache pkg) (
              Keeps-branch (method == str (codes "curl")) (get_from_curl-Keeps cache pkg)
                (Keeps-pure tt)))))

  build_parser-Keeps : (file : Text) → Keeps (build_parser E file)
  unfolding build_parser fetch_all
  build_parser-Keeps file =
      let cache = E.getenv (codes "CACHE_DIR") in
      Keeps-bind (Keeps-lift (or_raise (E.yaml file) io_error)) (λ cfg.
        Keeps-bind (Keeps-lift (get cfg (codes "packages") null)) (λ listed.
          Keeps-bind (Keeps-lift (iterate listed))
            (λ pkgs. Keeps-for_each (get_package-Keeps cache) pkgs)))

  -- When the script returns, every command that it has run has ended with the exit status 0, except for
  -- the fetching and the comparison of checksums.
  pub main-IsClean : (argv : List Text) {t : Trace} → main E argv [] ≡ (ok tt, t) → IsClean t
  unfolding main
  main-IsClean [] e = cc e
  main-IsClean (program ∷ []) e = cc e
  main-IsClean (program ∷ file ∷ []) {t} e = (build_parser-Keeps file).keeps [] t tt e tt
  main-IsClean (program ∷ file ∷ other ∷ more) e = cc e
