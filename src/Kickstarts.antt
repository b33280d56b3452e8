-- ===== src/Kickstarts.antt =====
-- deploy/adapters/cobbler/triggers/sync/post/migrate_ks.py: cobbler's kickstart files are written out.
-- The api of cobbler is a parameter: the names of its systems, and the kickstart of a system or the
-- exception that it raises. So is whether a file can be opened.
mod Tests
use compass4nfv.Base.{Bool, not, List, [], ◌∷◌, ◌++◌, Text, codes}
use compass4nfv.Result.{Result, ok, io_error}
use compass4nfv.Value.{str}
use compass4nfv.Effects.{Trace, write, Action, lift, raise_if, for_each, ◌>>=◌, ◌>>◌}

abbrev pub kickstart_path : Text → Text
kickstart_path name = codes "/var/www/cblr_ks/" ++ name

-- A text goes into a file.
abbrev pub put_text : Text → Text → Action Trace (Unit {0})
put_text path text t = (ok tt, write path (str text) ∷ t)

module _ (systems : List Text) (generate : Text → Result Text) (opens : Text → Bool) where
  -- To open the file empties it; an exception is logged and raised again.
  unfoldable pub migrate : Text → Action Trace (Unit {0})
  migrate name = do
    first ← lift (generate name)
    raise_if (not (opens (kickstart_path name))) io_error
    put_text (kickstart_path name) []
    data_text ← lift (generate name)
    put_text (kickstart_path name) data_text

  unfoldable pub main : Action Trace (Unit {0})
  unfolding for_each migrate
  main = for_each migrate systems
