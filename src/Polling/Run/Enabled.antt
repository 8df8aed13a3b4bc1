-- ===== src/Polling/Run/Enabled.antt =====
-- polling.go: what SetPollingEnabled makes due.
use spf5000es_server.Prelude.{ℕ, ◌+◌, ◌%◌, ◌^◌, ◌<◌, ◌≡◌, true, false, ◌==◌, arith}
use spf5000es_server.Polling.{PollingService, set_polling_enabled}
use spf5000es_server.Polling.Run.{due_at}

-- Where polling was disabled, its version is a uint64 and was observed, enabling it makes the
-- reads of config and status due, at any time.
set_polling_enabled-due :
    {W : Type 0} (now : ℕ) (s : PollingService W)
    → s.polling_enabled ≡ false
    → s.polling_version < 2 ^ 64
    → s.observed_version ≡ s.polling_version
    → let due = due_at now (set_polling_enabled true s) in (due.config ≡ true) × (due.status ≡ true)
unfolding due_at set_polling_enabled
set_polling_enabled-due now s off small observed =
    let changed : ((s.polling_version + 1) % 2 ^ 64 == s.observed_version) ≡ false = ground arith in
    (ground (arith, changed), ground (arith, changed))
