-- ===== src/Main.antt =====
-- main.go: run, over what its parts answer.
pub mod Outcome
pub mod Revision
use spf5000es_server.Prelude.{
  Bool, true, false, not, ◌&&◌, ◌||◌, Option, none, some, List, [], ◌∷◌, ◌++◌, if◌then◌else◌,
}
use spf5000es_server.Error.{
  Error, Result, ok, err, message, canceled, deadline_exceeded, fatal_modbus, config_command, wrap,
  join,
}
use spf5000es_server.Config.{AppConfig}

-- errors.Is(err, context.Canceled)
unfoldable pub is_canceled : Error → Bool
is_canceled canceled = true
is_canceled (fatal_modbus e) = is_canceled e
is_canceled (config_command e) = is_canceled e
is_canceled (wrap s e) = is_canceled e
is_canceled (join a b) = is_canceled a || is_canceled b
is_canceled _ = false

-- errors.Join of an error that may be nil and one that is not.
abbrev pub joined : Option Error → Error → Error
joined none e = e
joined (some a) e = join a e

abbrev pub noted : Option Error → Option Error → Option Error
noted run_err none = run_err
noted run_err (some e) = if is_canceled e then run_err else some (joined run_err e)

-- The second loop of runServiceLoops, on what the services' Run return, in the order in which they do.
unfoldable pub collect_errors : Option Error → List (Option Error) → Option Error
collect_errors run_err [] = run_err
collect_errors run_err (e ∷ ended) = collect_errors (noted run_err e) ended

-- runServiceLoops
unfoldable pub run_service_loops : List (Option Error) → Option Error
unfolding collect_errors
run_service_loops ended = collect_errors none ended

-- What the parts answer: Connect of the inverter, Start of the two services, their loops and Close.
pub record Parts : Type 0 where
  pub read_config : Result AppConfig
  pub connect : Option Error
  pub start_polling : Option Error
  pub start_mqtt : Option Error
  pub loops : List (Option Error)
  pub close : Option Error

-- What run asks of them.
pub data Asked : Type 0 where
  connected polling_started mqtt_started loops_ran mqtt_stopped inverter_closed : Asked

-- The body of run after its parts are made.
unfoldable pub run_body : Parts → Option Error × List Asked
unfolding run_service_loops
run_body parts = elim parts.connect [
  | some e ↦ (some e, connected ∷ [])
  | none ↦ elim parts.start_polling [
    | some e ↦ (some e, connected ∷ polling_started ∷ [])
    | none ↦ elim parts.start_mqtt [
      | some e ↦ (some e, connected ∷ polling_started ∷ mqtt_started ∷ [])
      | none ↦ (
        run_service_loops parts.loops,
        connected ∷ polling_started ∷ mqtt_started ∷ loops_ran ∷ [],
      )
    ]
  ]
]

-- The deferred function, after the body.
abbrev pub clean_up : Option Error → Option Error × List Asked → Option Error × List Asked
clean_up none (run_err, asked) = (run_err, asked ++ mqtt_stopped ∷ inverter_closed ∷ [])
clean_up (some e) (run_err, asked) = (
  some (joined run_err (wrap "close inverter: %w" e)),
  asked ++ mqtt_stopped ∷ inverter_closed ∷ [],
)

-- run
unfoldable pub run : Parts → Option Error × List Asked
unfolding run_body
run parts = elim parts.read_config [
  | err e ↦ (some e, [])
  | ok config ↦ clean_up parts.close (run_body parts)
]
