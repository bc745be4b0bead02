-- ===== src/Samples/Monitoring.antt =====
-- A registry in place of `prometheus`, and requests to the metrics server.
use ussl.Prelude.{ℕ, ◌≡◌, refl, List, [], ◌∷◌, none, some, arith, if◌then◌else◌}
use ussl.Prelude.Int.{ℤ, pos, ◌+ℤ◌, ◌-ℤ◌}
use ussl.Text.{Text, codes, starts_with}
use ussl.TextMap.{holds_key}
use ussl.Transport.Metrics.{
  Prometheus, Metric, name_of, connections_active, connections_total, commands_total,
  commands_errors,
}
use ussl.Transport.Metrics.Counting.{
  is_value, ValueLaws, Recording, connection, disconnection, command, error, record_all,
  is_connection, is_disconnection, is_command, is_error, occurrences, record_all-value,
}
use ussl.Transport.Metrics.Endpoint.{respond}
use ussl.Transport.Metrics.Http.{read_http, read_http-respond}

record Table : Type 0 where
  names : List Text
  values : Text → List Text → ℤ

abbrev table : Prometheus
table = record {
  Float = ℕ;
  Registry = Table;
  new_registry = record { names = []; values = λ n ls. pos 0 };
  register = λ name help labels r.
      if holds_key name r.names then none else some (record r { names = name ∷ r.names });
  inc = λ m ks r. record r {
    values = λ n ls. if is_value n ls m ks then r.values n ls +ℤ pos 1 else r.values n ls;
  };
  dec = λ m ks r. record r {
    values = λ n ls. if is_value n ls m ks then r.values n ls -ℤ pos 1 else r.values n ls;
  };
  set = λ m v r. record r { values = λ n ls. if is_value n ls m [] then v else r.values n ls };
  inc_by = λ m k r. record r {
    values = λ n ls. if is_value n ls m [] then r.values n ls +ℤ pos k else r.values n ls;
  };
  observe = λ m ks v r. r;
  gather = λ r. codes "ussl_documents_total 0";
}

table_values : ValueLaws table
table_values = record {
  value = λ n ls r. r.values n ls;
  value-inc = λ n m ls ks r. refl;
  value-dec = λ n m ls ks r. refl;
  value-set = λ n m ls v r. refl;
  value-inc_by = λ n m ls k r. refl;
  value-observe = λ n m ls ks v r. refl;
}

abbrev recorded : List (Recording ℕ)
recorded =
    connection (codes "tcp")
    ∷ connection (codes "ws")
    ∷ command (codes "GET") 5
    ∷ error (codes "GET") (codes "NOT_FOUND")
    ∷ disconnection (codes "tcp")
    ∷ connection (codes "tcp")
    ∷ []

abbrev at_first : Table
at_first = table.new_registry

abbrev value_after : Metric → List Text → ℤ
value_after m ls = (record_all table recorded at_first).values (name_of m) ls

record_all-value_example :
    (value_after connections_active (codes "tcp" ∷ [])
      ≡ (pos 0 +ℤ pos (occurrences (is_connection (codes "tcp")) recorded))
        -ℤ pos (occurrences (is_disconnection (codes "tcp")) recorded))
    × (value_after connections_total (codes "tcp" ∷ [])
        ≡ pos 0 +ℤ pos (occurrences (is_connection (codes "tcp")) recorded))
    × (value_after commands_total (codes "GET" ∷ [])
        ≡ pos 0 +ℤ pos (occurrences (is_command (codes "GET")) recorded))
    × (value_after commands_errors (codes "GET" ∷ codes "NOT_FOUND" ∷ [])
        ≡ pos 0 +ℤ pos (occurrences (is_error (codes "GET") (codes "NOT_FOUND")) recorded))
unfolding table_values
record_all-value_example =
    record_all-value table table_values recorded at_first (codes "tcp") (codes "GET")
      (codes "NOT_FOUND")

read_http-respond_example :
    read_http (respond (codes "ussl_documents_total 0") (codes "GET / HTTP/1.1"))
    ≡ some (codes "HTTP/1.1 200 OK", codes "ussl_documents_total 0", [])
unfolding starts_with
read_http-respond_example =
    read_http-respond (codes "ussl_documents_total 0") (codes "GET / HTTP/1.1") (omega arith)
