-- ===== src/Transport/Metrics/Endpoint.antt =====
-- crates/ussl-transport/src/metrics.rs: what `MetricsServer` answers.
use ussl.Prelude.{Bool, ◌||◌, [], ◌∷◌, ◌++◌, Option, none, some, length, take, if◌then◌else◌}
use ussl.Text.{Text, codes, starts_with}
use ussl.Text.Utf8.{from_utf8_lossy}
use ussl.Protocol.Response.{crlf}
use ussl.Protocol.Response.Decimal.{show}

unfoldable pub metrics_response : Text → Text
metrics_response body =
    codes "HTTP/1.1 200 OK"
    ++ crlf
    ++ codes "Content-Type: text/plain; version=0.0.4; charset=utf-8"
    ++ crlf
    ++ codes "Content-Length: "
    ++ show (length body)
    ++ crlf
    ++ crlf
    ++ body

abbrev pub health_response : Text
health_response =
    codes "HTTP/1.1 200 OK"
    ++ crlf
    ++ codes "Content-Type: text/plain"
    ++ crlf
    ++ codes "Content-Length: 2"
    ++ crlf
    ++ crlf
    ++ codes "OK"

abbrev pub not_found_response : Text
not_found_response =
    codes "HTTP/1.1 404 Not Found" ++ crlf ++ codes "Content-Length: 0" ++ crlf ++ crlf

abbrev pub wants_metrics : Text → Bool
wants_metrics request =
    starts_with (codes "GET /metrics") request || starts_with (codes "GET / ") request

-- The response to a request, where `exported` is what `export` gives.
unfoldable pub respond : Text → Text → Text
respond exported request =
    if wants_metrics request
    then metrics_response exported
    else if starts_with (codes "GET /health") request
    then health_response
    else not_found_response

-- The task of a connection: one `read` into 1024 bytes, none where it failed, and the response that is
-- written.
unfoldable pub serve_metrics : Text → Option Text → Option Text
serve_metrics exported none = none
serve_metrics exported (some []) = none
serve_metrics exported (some (c ∷ s)) =
    some (respond exported (from_utf8_lossy (take 1024 (c ∷ s))))
