-- ===== src/Logging/Tests.antt =====
-- configure_logging on the loggers of a server with handlers of its own.
use nsi_aggregator_proxy.Common.{leb, if◌then◌else◌, ◌==◌, String, not, ◌&&◌, ◌≡◌, refl, [], ◌∷◌}
use nsi_aggregator_proxy.Logging.{
  LogRecord, stream_handler, other_handler, Logging, numeric_level, formatter, is_within,
  configure_logging, passes, written, lineage, suppress_health_check,
}
use nsi_aggregator_proxy.Logging.Configured.{configure_logging_lem}

-- uvicorn's handlers, a root logger with two, and httpx as the library leaves it.
abbrev before : Logging
before = record {
  logger_at = λ name. record {
    level = if name == "" then 30 else 0;
    handlers =
        if name == ""
        then other_handler 0 ∷ other_handler 1 ∷ []
        else if name == "uvicorn"
        then other_handler 2 ∷ []
        else [];
    filters = [];
    propagate = not (name == "uvicorn");
  };
  structlog = record { processors = []; min_level = 0 };
}

abbrev probe : LogRecord
probe = record { level = 20; message = "10.0.0.1:4711 - \"GET /health HTTP/1.1\" 200" }

abbrev served : LogRecord
served = record { level = 20; message = "10.0.0.1:4711 - \"GET /reservations HTTP/1.1\" 200" }

abbrev fetched : LogRecord
fetched = record {
  level = 20;
  message = "HTTP Request: POST https://aggregator \"HTTP/1.1 200 OK\"";
}

levels : (numeric_level "info" ≡ 20) × (numeric_level "Warn" ≡ 30) × (numeric_level "loud" ≡ 20)
unfolding numeric_level
levels = (refl, refl, refl)

lineage_example : lineage "uvicorn.access" ≡ "uvicorn.access" ∷ "uvicorn" ∷ "" ∷ []
unfolding lineage
lineage_example = refl

probe_unwritten : written (configure_logging "info" before) "uvicorn.access" probe ≡ []
unfolding written lineage configure_logging numeric_level suppress_health_check is_within
probe_unwritten = refl

served_once :
    written (configure_logging "info" before) "uvicorn.access" served
    ≡ stream_handler formatter ∷ []
unfolding written lineage configure_logging numeric_level suppress_health_check is_within
served_once = refl

fetched_unwritten : written (configure_logging "debug" before) "httpx" fetched ≡ []
unfolding written lineage configure_logging numeric_level
fetched_unwritten = refl

abbrev after : Logging
after = configure_logging "info" before

configure_logging_lem_example :
    (written after "uvicorn.error" probe ≡ (
      if passes [] probe && leb (numeric_level "info") 20
      then stream_handler formatter ∷ []
      else []))
    × (written after "uvicorn.access" probe ≡ (
        if not (is_within " /health " probe.message) && leb (numeric_level "info") 20
        then stream_handler formatter ∷ []
        else []))
    × (written after "httpx" probe
        ≡ (if passes [] probe && leb 30 20 then stream_handler formatter ∷ [] else []))
    × ((name : String)
        → (configure_logging "info" (configure_logging "debug" before)).logger_at name
          ≡ after.logger_at name)
configure_logging_lem_example = configure_logging_lem "info" before "debug" probe refl refl refl
