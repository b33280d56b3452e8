-- ===== src/BuildParser.antt =====
-- build/parser.py: the packages of the build are fetched by shell commands. What is printed is left
-- out. A command's exit status and output are the environment's; `os.popen` is a command too.
pub mod Clean
mod Tests
use compass4nfv.Base.{
  ℕ, zero, suc, Bool, true, false, not, ◌&&◌, List, [], ◌∷◌, ◌++◌, Option, none, some, Text, codes,
  text_eq, number_eq, ◌==◌, if◌then◌else◌,
}
use compass4nfv.Result.{Result, ok, err, or_raise, type_error, io_error, system_exit}
use compass4nfv.Value.{Value, null, str, value_eq}
use compass4nfv.Value.Access.{get, iterate}
use compass4nfv.Text.{join}
use compass4nfv.Effects.{
  Environment, Trace, command, Action, pure, lift, raise, for_each, ◌>>=◌, ◌>>◌,
}
use compass4nfv.ConfigParse.{join_values, all_texts}

-- A value that is added to texts.
unfoldable pub text_of : Value → Result Text
text_of (str s) = ok s
text_of v = err type_error

-- `package.get(key)` where a text is needed
unfoldable pub text_at : Value → Text → Action Trace Text
unfolding get text_of
text_at pkg key = do v ← lift (get pkg key null); lift (text_of v)

-- The two commands that compare checksums, and the one that fetches the checksum.
abbrev pub md5_download : Text → Text → Text
md5_download localfile remote =
    codes "curl --connect-timeout 10 -o "
    ++ (localfile ++ codes ".md5" ++ (codes " " ++ (remote ++ codes ".md5")))

abbrev pub local_sum : Text → Text
local_sum localfile = codes "md5sum " ++ (localfile ++ codes "|cut -d ' ' -f 1")

abbrev pub remote_sum : Text → Text
remote_sum localfile = codes "cat " ++ (localfile ++ codes ".md5" ++ codes "|cut -d ' ' -f 1")

-- `==` on the lines of two outputs
unfoldable pub same_lines : List Text → List Text → Bool
unfolding text_eq
same_lines [] [] = true
same_lines [] (l ∷ ls) = false
same_lines (k ∷ ks) [] = false
same_lines (k ∷ ks) (l ∷ ls) = k == l && same_lines ks ls

module _ (E : Environment) where
  -- `os.system(cmd)`
  abbrev pub system : Text → Action Trace ℕ
  system cmd t = (ok (E.exit_status (command cmd ∷ t)), command cmd ∷ t)

  -- `os.popen(cmd).readlines()`
  abbrev pub popen : Text → Action Trace (List Text)
  popen cmd t = (ok (E.output (command cmd ∷ t)), command cmd ∷ t)

  unfoldable pub exec_command : Text → Bool → Action Trace ℕ
  unfolding number_eq
  exec_command cmd ignore_error = do
    rc ← system cmd
    if not ignore_error && not (rc == 0) then raise (system_exit 1) else pure rc

  -- `os.path.exists(path)`
  abbrev exists_now : Text → Action Trace Bool
  exists_now path t = (ok (E.exists t path), t)

  -- Has the file that is there the checksum that has been fetched?
  unfoldable pub same_sum : Text → Action Trace Bool
  unfolding same_lines
  same_sum localfile = do
    there ← exists_now localfile
    if there
        then (do
          localmd5sum ← popen (local_sum localfile)
          remotemd5sum ← popen (remote_sum localfile)
          pure (same_lines remotemd5sum localmd5sum))
        else pure false

  -- The loop over the addresses: does the function return in it?
  unfoldable pub is_current : Text → List Value → Action Trace Bool
  unfolding text_of exec_command same_sum number_eq
  is_current localfile [] = pure false
  is_current localfile (v ∷ more) =
      let later = is_current localfile more in
      do
        file ← lift (text_of v)
        rc ← exec_command (md5_download localfile file) true
        same ← same_sum localfile
        if same then pure true else if rc == 0 then pure false else later

  -- `" ".join(remotefile)`
  abbrev pub file_download : Text → Text → List Text → Text
  file_download cache filename remotefile =
      codes
        "aria2c --max-tries 1 --max-connection-per-server=4           --allow-overwrite=true --dir="
      ++ (cache ++ (codes " --out=" ++ (filename ++ (codes " " ++ join (codes " ") remotefile))))

  unfoldable pub get_from_cache : Option Text → Value → Action Trace (Unit {0})
  unfolding text_at get iterate all_texts exec_command is_current join
  get_from_cache cache_dir pkg = do
    cache ← lift (or_raise cache_dir type_error)
    filename ← text_at pkg (codes "name")
    url ← lift (get pkg (codes "url") null)
    listed ← lift (iterate url)
    let localfile = cache ++ (b'/' ∷ filename)
    exec_command (codes "rm -f " ++ (localfile ++ codes ".md5")) false
    current ← is_current localfile listed
    if current then pure tt else (do
      remotefile ← lift (all_texts listed)
      exec_command (file_download cache filename remotefile) false
      pure tt)

  unfoldable pub get_from_git : Option Text → Value → Action Trace (Unit {0})
  unfolding text_at exec_command
  get_from_git cache_dir pkg = do
    cache ← lift (or_raise cache_dir type_error)
    name ← text_at pkg (codes "name")
    let localfile = cache ++ (b'/' ∷ name)
    exec_command (codes "rm -rf " ++ localfile) false
    url ← text_at pkg (codes "url")
    exec_command (codes "git clone " ++ (url ++ (b' ' ∷ localfile))) false
    pure tt

  unfoldable pub get_from_docker : Option Text → Value → Action Trace (Unit {0})
  unfolding text_at exec_command
  get_from_docker cache_dir pkg = do
    cache ← lift (or_raise cache_dir type_error)
    name ← text_at pkg (codes "name")
    let package_output = cache ++ (b'/' ∷ name ++ codes ".tar")
    url ← text_at pkg (codes "url")
    exec_command (codes "sudo docker pull " ++ url) false
    exec_command (codes "sudo docker save " ++ (url ++ (codes " -o " ++ package_output))) false
    exec_command (codes "user=$(whoami); sudo chown -R $user:$user " ++ package_output) false
    pure tt

  unfoldable pub get_from_curl : Option Text → Value → Action Trace (Unit {0})
  unfolding text_at exec_command
  get_from_curl cache_dir pkg = do
    cache ← lift (or_raise cache_dir type_error)
    name ← text_at pkg (codes "name")
    url ← text_at pkg (codes "url")
    exec_command (codes "curl --connect-timeout 10 -o " ++ (cache ++ (b'/' ∷ name ++ (b' ' ∷ url))))
        false
    pure tt

  -- One package of the list; `load_env` may have found no directory. Of an unknown method the code names `usage` without calling it.
  unfoldable pub get_package : Option Text → Value → Action Trace (Unit {0})
  unfolding get value_eq text_eq get_from_cache get_from_git get_from_docker get_from_curl
  get_package cache pkg = do
    method ← lift (get pkg (codes "get_method") null)
    if method == str (codes "cached")
        then get_from_cache cache pkg
        else if method == str (codes "git")
        then get_from_git cache pkg
        else if method == str (codes "docker")
        then get_from_docker cache pkg
        else if method == str (codes "curl")
        then get_from_curl cache pkg
        else pure tt

  unfoldable fetch_all : Option Text → List Value → Action Trace (Unit {0})
  unfolding for_each get_package
  fetch_all cache pkgs = for_each (get_package cache) pkgs

  unfoldable pub build_parser : Text → Action Trace (Unit {0})
  unfolding fetch_all get iterate
  build_parser build_file_name = do
    let cache = E.getenv (codes "CACHE_DIR")
    cfg ← lift (or_raise (E.yaml build_file_name) io_error)
    listed ← lift (get cfg (codes "packages") null)
    pkgs ← lift (iterate listed)
    fetch_all cache pkgs

  unfoldable pub main : List Text → Action Trace (Unit {0})
  unfolding build_parser
  main (program ∷ build_file_name ∷ []) = build_parser build_file_name
  main argv = raise (system_exit 1)
