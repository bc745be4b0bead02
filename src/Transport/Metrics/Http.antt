-- ===== src/Transport/Metrics/Http.antt =====
-- crates/ussl-transport/src/metrics.rs: a client of HTTP reads what `MetricsServer` answers.
use ussl.Prelude.{
  ℕ, zero, suc, ◌≡◌, ◌<◌, ◌^◌, refl, ap, sym, ◌∙◌, true, [], ◌∷◌, ◌++◌, Option, none, some, all,
  length, drop-length, take, drop, leb, arith, append_assoc, if◌then◌else◌, Bool-cases, inl, inr,
}
use ussl.Text.{Text, codes, starts_with, strip_prefix}
use ussl.Protocol.Parser.{split_line, without_return}
use ussl.Protocol.Parser.Framing.{in_line, split_line-append, in_line-return, without_return-append}
use ussl.Protocol.Response.{crlf}
use ussl.Protocol.Response.Bytes.{show-all}
use ussl.Protocol.Response.Decimal.{show, read_length, read_length-show}
use ussl.Transport.Metrics.Endpoint.{
  metrics_response, health_response, not_found_response, wants_metrics, respond,
}

-- A client's reader: the status line, the lines of the header with the length among them, an empty
-- line, and as many bytes.
abbrev or_length : Option (ℕ × Text) → ℕ → ℕ
or_length none n = n
or_length (some (m, s)) n = m

abbrev length_in : Text → ℕ → ℕ
length_in line n = elim (strip_prefix (codes "Content-Length: ") line) [
  | none ↦ n
  | some digits ↦ or_length (read_length 0 (digits ++ 13 ∷ 10 ∷ [])) n
]

abbrev after_line : (ℕ → Text → Option (ℕ × Text)) → ℕ → Text → Text → Option (ℕ × Text)
after_line further n [] r = some (n, r)
after_line further n (c ∷ l) r = further (length_in (c ∷ l) n) r

abbrev header_line : (ℕ → Text → Option (ℕ × Text)) → ℕ → Option (Text × Text) → Option (ℕ × Text)
header_line further n none = none
header_line further n (some (l, r)) = after_line further n (without_return l) r

-- a header of fewer lines than the first number
read_header : ℕ → ℕ → Text → Option (ℕ × Text)
read_header zero n s = none
read_header (suc f) n s = header_line (λ m r. read_header f m r) n (split_line s)

abbrev read_body : Text → Option (ℕ × Text) → Option (Text × Text × Text)
read_body status none = none
read_body status (some (n, r)) =
    if leb n (length r) then some (status, take n r, drop n r) else none

abbrev read_status : Option (Text × Text) → Option (Text × Text × Text)
read_status none = none
read_status (some (l, r)) = read_body (without_return l) (read_header 16 0 r)

-- the status line, the body, and what follows it
unfoldable pub read_http : Text → Option (Text × Text × Text)
unfolding read_header
read_http s = read_status (split_line s)

split_line-crlf :
    (l more : Text)
    → all in_line l ≡ true
    → split_line (l ++ 13 ∷ 10 ∷ more) ≡ some (l ++ 13 ∷ [], more)
split_line-crlf l more h =
    ap split_line (sym (append_assoc l (13 ∷ []) (10 ∷ more)))
    ∙ split_line-append (l ++ 13 ∷ []) more (in_line-return l h)

read_header-line :
    (f n c : ℕ) (l more : Text)
    → all in_line (c ∷ l) ≡ true
    → read_header (suc f) n ((c ∷ l) ++ 13 ∷ 10 ∷ more) ≡ read_header f (length_in (c ∷ l) n) more
unfolding read_header
read_header-line f n c l more h =
    ap (header_line (λ m r. read_header f m r) n) (split_line-crlf (c ∷ l) more h)
    ∙ ap (λ t. after_line (λ m r. read_header f m r) n t more) (without_return-append (c ∷ l))

read_header-end : (f n : ℕ) (more : Text) → read_header (suc f) n (13 ∷ 10 ∷ more) ≡ some (n, more)
unfolding read_header split_line without_return
read_header-end f n more = refl

length_line : (n : ℕ) → n < 2 ^ 64 → length_in (codes "Content-Length: " ++ show n) 0 ≡ n
unfolding strip_prefix
length_line n h = rw (read_length-show n [] h) refl

take-length : (s : Text) → take (length s) s ≡ s
take-length [] = refl
take-length (c ∷ s) = ap (λ t. c ∷ t) (take-length s)

read_body-all :
    (status body : Text) → read_body status (some (length body, body)) ≡ some (status, body, [])
read_body-all status body =
    let whole : leb (length body) (length body) ≡ true = ground arith in
    rw (whole, take-length body, drop-length body) refl

abbrev content_type : Text
content_type = codes "Content-Type: text/plain; version=0.0.4; charset=utf-8"

read_health : read_http health_response ≡ some (codes "HTTP/1.1 200 OK", codes "OK", [])
unfolding read_http read_header split_line without_return strip_prefix read_length
read_health = refl

read_not_found : read_http not_found_response ≡ some (codes "HTTP/1.1 404 Not Found", [], [])
unfolding read_http read_header split_line without_return strip_prefix read_length
read_not_found = refl

metrics_response-lines :
    (body : Text)
    → metrics_response body
      ≡ codes "HTTP/1.1 200 OK"
        ++ 13
          ∷ 10
          ∷ (content_type
              ++ 13
                ∷ 10
                ∷ ((codes "Content-Length: " ++ show (length body)) ++ 13 ∷ 10 ∷ 13 ∷ 10 ∷ body))
unfolding metrics_response
metrics_response-lines body =
    let digits = show (length body) in
    ap
      (λ t.
        codes "HTTP/1.1 200 OK"
        ++ 13 ∷ 10 ∷ (content_type ++ 13 ∷ 10 ∷ (codes "Content-Length: " ++ t)))
      (append_assoc (digits ++ crlf) crlf body ∙ append_assoc digits crlf (crlf ++ body))

read_http-metrics_response :
    (body : Text)
    → length body < 2 ^ 64
    → read_http (metrics_response body) ≡ some (codes "HTTP/1.1 200 OK", body, [])
unfolding read_http strip_prefix
read_http-metrics_response body h =
    let status = codes "HTTP/1.1 200 OK" in
    let len_line = codes "ontent-Length: " ++ show (length body) in
    let digits = show-all in_line (λ d k. ground arith) (length body) in
    let last = len_line ++ 13 ∷ 10 ∷ 13 ∷ 10 ∷ body in
    let header = content_type ++ 13 ∷ 10 ∷ (b'C' ∷ last) in
    ap read_http (metrics_response-lines body)
    ∙ ap read_status (split_line-crlf status header refl)
    ∙ ap (λ t. read_body t (read_header 16 0 header)) (without_return-append status)
    ∙ ap (read_body status) (
        read_header-line 15 0 b'C' (codes "ontent-Type: text/plain; version=0.0.4; charset=utf-8")
          (b'C' ∷ last) refl
        ∙ read_header-line 14 0 b'C' len_line (13 ∷ 10 ∷ body) digits
        ∙ ap (λ n. read_header 14 n (13 ∷ 10 ∷ body)) (length_line (length body) h)
        ∙ read_header-end 13 (length body) body)
    ∙ read_body-all status body

-- Whatever a client has sent, it gets a response that a reader of HTTP reads whole, by the length in its
-- header: what has been exported, below 2^64 bytes, `OK`, or nothing with the status 404, as the text
-- that was read begins.
pub read_http-respond :
    (exported request : Text)
    → length exported < 2 ^ 64
    → read_http (respond exported request)
      ≡ some (
          if wants_metrics request
          then (codes "HTTP/1.1 200 OK", exported, [])
          else if starts_with (codes "GET /health") request
          then (codes "HTTP/1.1 200 OK", codes "OK", [])
          else (codes "HTTP/1.1 404 Not Found", [], []))
unfolding respond
read_http-respond exported request h = elim (Bool-cases (wants_metrics request)) [
  | inl e ↦ rw e (read_http-metrics_response exported h)
  | inr e ↦ elim (Bool-cases (starts_with (codes "GET /health") request)) [
    | inl k ↦ rw (e, k) read_health
    | inr k ↦ rw (e, k) read_not_found
  ]
]
