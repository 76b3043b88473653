-- ===== src/Logging/Configured.antt =====
-- What comes of a record after configure_logging of aggregator_proxy/logging_config.py.
use nsi_aggregator_proxy.Common.{arith, leb, if◌then◌else◌, String, not, ◌&&◌, ◌≡◌, [], ◌∷◌, ◌++◌}
use nsi_aggregator_proxy.Logging.{
  LogRecord, stream_handler, Logging, numeric_level, formatter, is_within, suppress_health_check,
  configure_logging, passes, written,
}

module _ (log_level : String) (l : Logging) where
  configured_twice :
      (earlier : String) (name : String)
      → (configure_logging log_level (configure_logging earlier l)).logger_at name
        ≡ (configure_logging log_level l).logger_at name
  unfolding configure_logging
  configured_twice earlier name = ground arith

  access_written :
      (r : LogRecord)
      → (l.logger_at "uvicorn").level ≡ 0
      → (l.logger_at "uvicorn.access").level ≡ 0
      → written (configure_logging log_level l) "uvicorn.access" r ≡ (
          if not (is_within " /health " r.message) && leb (numeric_level log_level) r.level
          then stream_handler formatter ∷ []
          else [])
  unfolding written configure_logging suppress_health_check
  access_written r p q = ground arith

  server_written :
      (r : LogRecord)
      → (l.logger_at "uvicorn").level ≡ 0
      → (l.logger_at "uvicorn.error").level ≡ 0
      → written (configure_logging log_level l) "uvicorn.error" r ≡ (
          if passes (l.logger_at "uvicorn.error").filters r && leb (numeric_level log_level) r.level
          then stream_handler formatter ∷ []
          else [])
  unfolding written configure_logging
  server_written r p q = ground arith

  httpx_written :
      (r : LogRecord)
      → written (configure_logging log_level l) "httpx" r ≡ (
          if passes (l.logger_at "httpx").filters r && leb 30 r.level
          then (l.logger_at "httpx").handlers
            ++ (if (l.logger_at "httpx").propagate then stream_handler formatter ∷ [] else [])
          else [])
  unfolding written configure_logging
  httpx_written r = ground arith

  -- Whatever was configured before, an earlier call of configure_logging with another level included:
  -- if uvicorn's loggers have no level of their own, a record of the server is written if its level is
  -- at least the configured one and its logger's filters let it pass, and a record of the access log
  -- if its level is at least the configured one and it is not one of the health probe; each by one
  -- handler, the proxy's. httpx writes only warnings and above. An earlier call has left nothing.
  pub configure_logging_lem :
      (earlier : String) (r : LogRecord)
      → (l.logger_at "uvicorn").level ≡ 0
      → (l.logger_at "uvicorn.error").level ≡ 0
      → (l.logger_at "uvicorn.access").level ≡ 0
      → (written (configure_logging log_level l) "uvicorn.error" r ≡ (
          if passes (l.logger_at "uvicorn.error").filters r && leb (numeric_level log_level) r.level
          then stream_handler formatter ∷ []
          else []))
        × (written (configure_logging log_level l) "uvicorn.access" r ≡ (
            if not (is_within " /health " r.message) && leb (numeric_level log_level) r.level
            then stream_handler formatter ∷ []
            else []))
        × (written (configure_logging log_level l) "httpx" r ≡ (
            if passes (l.logger_at "httpx").filters r && leb 30 r.level
            then (l.logger_at "httpx").handlers
              ++ (if (l.logger_at "httpx").propagate then stream_handler formatter ∷ [] else [])
            else []))
        × ((name : String)
            → (configure_logging log_level (configure_logging earlier l)).logger_at name
              ≡ (configure_logging log_level l).logger_at name)
  configure_logging_lem earlier r p q q' =
      (server_written r p q, access_written r p q', httpx_written r, configured_twice earlier)
