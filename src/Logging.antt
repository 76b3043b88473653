-- ===== src/Logging.antt =====
-- aggregator_proxy/logging_config.py: the loggers that `configure_logging` sets up, and what Python's
-- `logging` does with a record that is handed to one of them. The root logger has the empty name, and
-- a logger that was never configured is one without a level, handlers and filters that propagates.
pub mod Configured
mod Tests
use Prim.Native.Char.{Char, code}
use nsi_aggregator_proxy.Common.{
  leb, eqb, if◌then◌else◌, ◌==◌, ◌<>◌, ℕ, ◌-◌, String, Bool, true, false, not, ◌&&◌, ◌||◌, List, [],
  ◌∷◌, ◌++◌,
}

pub record LogRecord : Type 0 where
  pub level : ℕ
  pub message : String

pub data Processor : Type 0 where
  add_log_level add_logger_name time_stamper stack_info_renderer : Processor
  wrap_for_formatter remove_processors_meta console_renderer : Processor

-- structlog's ProcessorFormatter: `foreign_pre_chain` is for records that structlog did not make.
pub record Formatter : Type 0 where
  pub processors : List Processor
  pub foreign_pre_chain : List Processor

-- A StreamHandler of the proxy, or one that a library has installed before.
pub data Handler : Type 0 where
  stream_handler : Formatter → Handler
  other_handler : ℕ → Handler

abbrev pub Filter : Type 0
Filter = LogRecord → Bool

pub record Logger : Type 0 where
  pub level : ℕ
  pub handlers : List Handler
  pub filters : List Filter
  pub propagate : Bool

-- `structlog.configure`, with the level below which a bound logger drops its records.
pub record Structlog : Type 0 where
  pub processors : List Processor
  pub min_level : ℕ

pub record Logging : Type 0 where
  pub logger_at : String → Logger
  pub structlog : Structlog

-- The code of `c.upper()`, for the characters of Latin-1 and the two beyond whose capital is ASCII.
abbrev pub upper : ℕ → ℕ
upper c =
    if leb 97 c && leb c 122 then c - 32 else if eqb c 305 then 73 else if eqb c 383 then 83 else c

-- `log_level.upper() == name`
abbrev pub is_level : String → String → Bool
is_level String.[] String.[] = true
is_level (String.◌∷◌ c s) (String.◌∷◌ d t) = eqb (upper (code c)) (code d) && is_level s t
is_level _ _ = false

-- `getattr(logging, log_level.upper(), logging.INFO)`, for the attributes that are levels.
unfoldable pub numeric_level : String → ℕ
numeric_level log_level =
    if is_level log_level "CRITICAL" || is_level log_level "FATAL"
    then 50
    else if is_level log_level "ERROR"
    then 40
    else if is_level log_level "WARNING" || is_level log_level "WARN"
    then 30
    else if is_level log_level "DEBUG"
    then 10
    else if is_level log_level "NOTSET"
    then 0
    else 20

abbrev pub shared_processors : List Processor
shared_processors = add_log_level ∷ add_logger_name ∷ time_stamper ∷ stack_info_renderer ∷ []

abbrev pub formatter : Formatter
formatter = record {
  processors = remove_processors_meta ∷ console_renderer ∷ [];
  foreign_pre_chain = shared_processors;
}

abbrev pub modify_logger : String → (Logger → Logger) → Logging → Logging
modify_logger name change l = record l {
  logger_at = λ n. if n == name then change (l.logger_at n) else l.logger_at n;
}

-- `" /health " in message`
abbrev pub starts_with : String → String → Bool
starts_with String.[] s = true
starts_with (String.◌∷◌ c t) String.[] = false
starts_with (String.◌∷◌ c t) (String.◌∷◌ d s) = eqb (code c) (code d) && starts_with t s

unfoldable pub is_within : String → String → Bool
is_within t String.[] = starts_with t String.[]
is_within t (String.◌∷◌ c s) = starts_with t (String.◌∷◌ c s) || is_within t s

-- `_SuppressHealthCheck.filter`
unfoldable pub suppress_health_check : Filter
unfolding is_within
suppress_health_check r = not (is_within " /health " r.message)

abbrev pub in_turn : List (Logging → Logging) → Logging → Logging
in_turn [] l = l
in_turn (change ∷ changes) l = in_turn changes (change l)

-- The body of the loop over uvicorn's loggers.
abbrev pub through_root : String → Logging → Logging
through_root name = modify_logger name (λ u. record u { handlers = []; propagate = true })

unfoldable pub configure_logging : String → Logging → Logging
unfolding numeric_level
configure_logging log_level = in_turn (
    (λ l. record l {
      structlog = record {
        processors = shared_processors ++ wrap_for_formatter ∷ [];
        min_level = numeric_level log_level;
      };
    })
    ∷ modify_logger "" (λ r. record r {
      handlers = stream_handler formatter ∷ [];
      level = numeric_level log_level;
    })
    ∷ modify_logger "httpx" (λ r. record r { level = 30 })
    ∷ through_root "uvicorn"
    ∷ through_root "uvicorn.error"
    ∷ through_root "uvicorn.access"
    ∷ modify_logger "uvicorn.access" (λ r. record r { filters = suppress_health_check ∷ [] })
    ∷ [])

-- The names of a logger's ancestors below the root, the nearest first, before those given.
abbrev pub ancestors_below : String → String → List String → List String
ancestors_below prefix String.[] above = prefix ∷ above
ancestors_below prefix (String.◌∷◌ c s) above =
    let inner = ancestors_below (prefix <> String.◌∷◌ c String.[]) s in
    if eqb (code c) 46 then inner (prefix ∷ above) else inner above

-- A logger and its ancestors, up to the root.
unfoldable pub lineage : String → List String
lineage String.[] = "" ∷ []
lineage (String.◌∷◌ c s) = ancestors_below "" (String.◌∷◌ c s) ("" ∷ [])

-- `Logger.getEffectiveLevel`
abbrev pub effective_level : List Logger → ℕ
effective_level [] = 0
effective_level (l ∷ ls) = if eqb l.level 0 then effective_level ls else l.level

abbrev pub passes : List Filter → LogRecord → Bool
passes [] r = true
passes (f ∷ fs) r = f r && passes fs r

-- `Logger.callHandlers`; the handlers here have no level of their own.
abbrev pub call_handlers : List Logger → List Handler
call_handlers [] = []
call_handlers (l ∷ ls) = l.handlers ++ (if l.propagate then call_handlers ls else [])

abbrev pub loggers_at : Logging → List String → List Logger
loggers_at l [] = []
loggers_at l (n ∷ ns) = l.logger_at n ∷ loggers_at l ns

-- The handlers that write a record of a logger: only the logger's own filters are asked.
unfoldable pub written : Logging → String → LogRecord → List Handler
unfolding lineage
written l name r =
    let ls = loggers_at l (lineage name) in
    if leb (effective_level ls) r.level && passes (l.logger_at name).filters r
    then call_handlers ls
    else []
