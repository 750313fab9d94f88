-- ===== src/Provider/Matrix.antt =====
-- The retry table of docs/RETRY_POLICY.md, read as one decision per outcome of a call. The document has
-- no row for a network error, for another error of httpx, for other statuses and for an exception
-- from elsewhere: theirs are here.
use chatting.Common.{◌≡◌, Bool, true, false, ◌||◌, none, nat_eq, if◌then◌else◌}
use chatting.Provider.Http.{Failure, Reply, response, failed}

-- Whether a failure after this reply is retried, for a call that is idempotent or not.
abbrev pub retry_expected : Bool → Reply → Bool
retry_expected idempotent (failed Failure.connect_timeout) = true
retry_expected idempotent (failed Failure.read_timeout) = idempotent
retry_expected idempotent (failed Failure.other_timeout) = idempotent
retry_expected idempotent (failed Failure.network_error) = idempotent
retry_expected idempotent (failed Failure.other_http_error) = false
retry_expected idempotent (failed (Failure.unrelated e)) = false
retry_expected idempotent (response status body) =
    if nat_eq status 429
    then true
    else if nat_eq status 500 || nat_eq status 502 || nat_eq status 503 || nat_eq status 504
    then idempotent
    else false

-- An exception that is no httpx.HTTPError comes without a retry signal: only the clients attach one.
abbrev pub IsUnsigned : Reply → Type 0
IsUnsigned (failed (Failure.unrelated e)) = e.retry_signal ≡ none
IsUnsigned _ = Unit
