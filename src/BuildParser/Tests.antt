-- ===== src/BuildParser/Tests.antt =====
-- A list of packages for build/parser.py.
use compass4nfv.Base.{◌≡◌, refl, [], ◌∷◌, codes, text_eq, some}
use compass4nfv.Result.{ok}
use compass4nfv.Value.{Value, str, array, object}
use compass4nfv.Effects.{Environment, Trace, command}
use compass4nfv.Effects.Sample.{sample}
use compass4nfv.BuildParser.{main}
use compass4nfv.BuildParser.Clean.{IsClean, main-IsClean}

abbrev git_pkg : Value
git_pkg = object (
    (codes "name", str (codes "compass-deck"))
    ∷ (codes "get_method", str (codes "git"))
    ∷ (codes "url", str (codes "u"))
    ∷ [])

-- A build whose cache directory is "/c".
abbrev build : Environment
build = record sample {
  yaml = λ path. some (object ((codes "packages", array (git_pkg ∷ [])) ∷ []));
  getenv = λ name. some (codes "/c");
}

abbrev done : Trace
done = command (codes "git clone u /c/compass-deck") ∷ command (codes "rm -rf /c/compass-deck") ∷ []

git_run : main build (codes "parser.py" ∷ codes "build.yaml" ∷ []) [] ≡ (ok tt, done)
unfolding main text_eq
git_run = refl

main-IsClean_example : IsClean build done
main-IsClean_example = main-IsClean build (codes "parser.py" ∷ codes "build.yaml" ∷ []) git_run
