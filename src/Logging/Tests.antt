-- ===== src/Logging/Tests.antt =====
-- A logger that is asked for twice, and one whose file cannot be opened.
use compass4nfv.Base.{◌≡◌, refl, true, false, [], ◌∷◌, none, some, codes, text_eq}
use compass4nfv.Result.{ok, err, io_error}
use compass4nfv.Effects.{◌>>◌}
use compass4nfv.Logging.{debug, error, file_handler, stream_handler, Logs, get_logger}

abbrev fresh : Logs
fresh = record { loggers = []; handlers = []; removed = [] }

asked_twice :
    (get_logger none (λ path. true) (codes "client")
        >> get_logger none (λ path. true) (codes "client"))
      fresh
    ≡ (
      ok (codes "client"),
      record {
        loggers = (codes "client", codes "client") ∷ [];
        handlers =
            (codes "client", stream_handler error ∷ file_handler (codes "client.log") debug ∷ [])
            ∷ [];
        removed = codes "client.log" ∷ [];
      },
    )
unfolding get_logger text_eq
asked_twice = refl

-- It has lost its old file.
cannot_open :
    get_logger (some (codes "/var/log/setup_network")) (λ path. false) (codes "net-init") fresh ≡ (
      err io_error,
      record {
        loggers = [];
        handlers = [];
        removed = codes "/var/log/setup_network/net-init.log" ∷ [];
      },
    )
unfolding get_logger text_eq
cannot_open = refl
