-- ===== src/Lib.antt =====
-- A model of spf5000es-server, the bridge between a Growatt SPF 5000 ES inverter on a Modbus line and
-- MQTT, and of what makes its core correct.
--
-- Parts, from the line up. modbus_client.go speaks to the serial line, one call at a time, and keeps
-- writes apart. registers.go holds the tables of the inverter's registers and how each is shown and
-- written. inverter.go reads the tables in windows, decodes them, and writes single registers.
-- recovery.go wraps each call of the inverter in reconnecting and a privileged reset.
-- clock_watchdog.go notices that the wall clock was set. polling.go queues the commands that arrive
-- over MQTT and passes them to the inverter between its own reads. mqtt.go takes commands from the
-- broker to that queue and publishes what polling.go has read, with a discovery document for Home
-- Assistant; it enables polling while it is connected. config.go reads the configuration of all of
-- them, and main.go starts and stops them.
--
-- Files. Each names its Go file in its first comment.
--   Prelude: shared names, tests over the native numbers, integers, lists and texts of bytes.
--   Error, Exec: Go errors as values; methods that change a state and may fail, whose changes before
--     an error stay. errors.As and errors.Is are tests on the error's tree.
--   Float: float64, as whole numbers of 2 ^ -1074, with the rounding of a quotient or product,
--     and lemmas on its error. The sign of zero is not kept. At most 2046 doublings reach the largest
--     exponent.
--   Strings, Utf8, Decimal: the functions of strings, unicode/utf8 and strconv that are used, on bytes.
--   Value: the dynamic values and their conversions (registers.go: asInt64, asFloat64, parseBool).
--     strconv.ParseFloat is an argument.
--   Register: registers.go. Codecs are the Read and Write functions, Enums the maps, Inputs and
--     Holdings the tables, Windows buildRegisterWindows; its loop has the count of registers as fuel,
--     which is enough, since each round takes one at least. Register/Limits has the limits of
--     writable numbers and their check.
--   Modbus: modbus_client.go over a record Bus, which stands for the modbus package, the clock, the
--     timer and the context.
--   Inverter: the codecs of inverter.go; Inverter/Device its methods over the interface Client, which
--     modbus_client fills.
--   Recovery: recovery.go. The inverter, the timer, the clock, systemd and the context are functions
--     of the history of what was asked of them, so that their answers may change at each question.
--     Recovery/Calls has its public methods over an inverter that is a state machine, whose state is
--     found by replaying the history; Recovery/Calls/Wiring puts inverter.go under them and them
--     under polling.go, as main.go does.
--   Watchdog: clock_watchdog.go.
--   Polling: polling.go. A channel is the list of what it holds, so a send to a full one is a test.
--     Polling/Run is runPending as a step on the service's state, and Polling/Service the loop of
--     Run, over a list of the batches of requests that other goroutines make before each round; the
--     list bounds the rounds, and after its last batch the loop is left running.
--   Config: config.go. Config/Ini has the values and keys of the file, which is a record of what the
--     INI library answers; Config/Names the identifiers and topics; Config/Read readConfig, with its
--     conditions as a list; Config/Log what logConfig writes. A duration is an integer of nanoseconds.
--   Mqtt: mqtt.go. Mqtt/Topics has slugs, topics and the routing of handleCommand, Mqtt/Commands the
--     rest of it, with json.Unmarshal as an argument. Mqtt/Service is the service's state with one
--     function for each section under the lock, Mqtt/Service/Publisher what Run publishes, as a list
--     of actions that it still has to do. Rounds of Run's loop are counted, and running out of them is
--     `none`. Mqtt/System is the service among its goroutines, as a relation of steps: the client
--     library, whose reports of a connection and of its loss take turns, a setup for each connection,
--     the callers of the sinks, and Run. Mqtt/Discovery is the discovery document as a record,
--     with the metadata of the entities, and Mqtt/Client the durations that the client library is
--     given, with Start and its TLS configuration, Stop, and the retries of subscribeCommands, whose
--     attempts are counted: a loop that still goes on is `none`.
--   Main: run and runServiceLoops of main.go, over what the parts answer, and Main/Revision the
--     revision that it logs.
--   Witnesses: the theorems at concrete inputs.
--
-- A mutex held for a whole method makes the method one step. Numbers of an int that no code makes
-- negative are ℕ; an int64 is an integer; a uint16 is a number below 2 ^ 16; times are nanoseconds.
-- A map is an association list. Texts of errors lose their formatted arguments, and log lines are
-- left out, but for what the log says of a read-back and of the settings.
--
-- Not modelled: the signals of main.go, the log handler of config.go, the callbacks that mqtt.go
-- hands to the client library as such, and the systemd units. The encoding of the discovery document
-- as JSON belongs to Go's library. Publishing is one step and does not fail: the code only logs an
-- error of it.
pub mod Config
pub mod Decimal
pub mod Error
pub mod Exec
pub mod Float
pub mod Inverter
pub mod Main
pub mod Modbus
pub mod Mqtt
pub mod Polling
pub mod Prelude
pub mod Recovery
pub mod Register
pub mod Strings
pub mod Utf8
pub mod Value
pub mod Watchdog
pub mod Witnesses
