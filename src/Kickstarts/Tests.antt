-- ===== src/Kickstarts/Tests.antt =====
-- A system whose kickstart cannot be generated ends the run, after those before it.
use compass4nfv.Base.{◌≡◌, refl, true, [], ◌∷◌, Text, codes, text_eq, ◌==◌, if◌then◌else◌}
use compass4nfv.Result.{Result, ok, err, key_error}
use compass4nfv.Value.{str}
use compass4nfv.Effects.{write}
use compass4nfv.Kickstarts.{main}

abbrev kickstart : Text → Result Text
unfolding text_eq
kickstart name = if name == codes "host1" then ok (codes "install") else err key_error

second_fails : main (codes "host1" ∷ codes "host2" ∷ []) kickstart (λ path. true) [] ≡ (
  err key_error,
  write (codes "/var/www/cblr_ks/host1") (str (codes "install"))
      ∷ write (codes "/var/www/cblr_ks/host1") (str [])
      ∷ [],
)
unfolding main text_eq
second_fails = refl
