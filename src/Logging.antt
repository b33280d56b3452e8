-- ===== src/Logging.antt =====
-- deploy/log.py and the log.py of the role setup-k8s-network: loggers are made once and kept. The library
-- logging keeps one logger for each name; a logger is its name here, and its handlers are in the state.
mod Tests
use compass4nfv.Base.{
  ℕ, Bool, true, false, List, [], ◌∷◌, ◌++◌, Option, none, some, Text, codes, contains, text_eq,
  if◌then◌else◌,
}
use compass4nfv.Base.Dict.{Dict, lookup, insert}
use compass4nfv.Result.{Result, ok, io_error}
use compass4nfv.Effects.{Action, pure, gets, modify, raise_if, ◌>>=◌, ◌>>◌}

pub data Level : Type 0 where
  debug error : Level

pub data Handler : Type 0 where
  file_handler : Text → Level → Handler
  stream_handler : Level → Handler

-- The table `loggers`, the handlers of the library's loggers, and the files that have been removed.
pub record Logs : Type 0 where
  pub loggers : Dict Text Text
  pub handlers : Dict Text (List Handler)
  pub removed : List Text

-- `name` in the working directory, or in the directory of the log files
abbrev pub log_file : Option Text → Text → Text
log_file none name = name ++ codes ".log"
log_file (some log_dir) name = log_dir ++ (b'/' ∷ name ++ codes ".log")

-- `logger.addHandler(h)`
unfoldable pub add_handler : Text → Handler → Logs → Logs
unfolding lookup insert text_eq
add_handler name h logs = elim (lookup name logs.handlers) [
  | none ↦ record logs { handlers = insert name (h ∷ []) logs.handlers }
  | some old ↦ record logs { handlers = insert name (old ++ (h ∷ [])) logs.handlers }
]

module _ (log_dir : Option Text) (opens : Text → Bool) where
  -- The file is opened when its handler is made, before the handlers are added.
  unfoldable pub get_logger : Text → Action Logs Text
  unfolding lookup insert text_eq add_handler
  get_logger name = do
    known ← gets (λ logs. lookup name logs.loggers)
    elim known [
      | some logger ↦ pure logger
      | none ↦ do
        modify (λ logs. record logs { removed = log_file log_dir name ∷ logs.removed })
        raise_if (if opens (log_file log_dir name) then false else true) io_error
        modify (add_handler name (stream_handler error))
        modify (add_handler name (file_handler (log_file log_dir name) debug))
        modify (λ logs. record logs { loggers = insert name name logs.loggers })
        pure name
    ]
