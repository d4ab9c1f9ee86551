-- ===== src/Statistics.antt =====
-- cpp/include/kvikio/statistics/summary.hpp and counters.hpp, cpp/src/statistics/summary.cpp and
-- counters.cpp: what a monitor sums up, and the differences between readings. Times and durations are
-- nanoseconds, after the epoch of the clock and not negative.
pub mod Busy
pub mod Monitor
pub mod Serial
pub mod Interval
pub mod Examples
use kvikio.Base.{
  ℕ, zero, suc, ◌+◌, ◌-◌, ◌*◌, ◌/◌, Bool, true, false, ◌&&◌, List, [], ◌∷◌, ltb, leb, ◌==◌,
  if◌then◌else◌, add64, Result, ok, invalid_argument, expect, ◌>>◌,
}

pub record Counters : Type 0 where
  pub remote_size_probes : ℕ
  pub remote_size_probing : ℕ
  pub http_connections : ℕ
  pub http_dns : ℕ
  pub http_tcp : ℕ
  pub http_tls : ℕ
  pub http_retries : ℕ
  pub http_retry_backoff : ℕ

abbrev pub no_counters : Counters
no_counters = record {
  remote_size_probes = 0;
  remote_size_probing = 0;
  http_connections = 0;
  http_dns = 0;
  http_tcp = 0;
  http_tls = 0;
  http_retries = 0;
  http_retry_backoff = 0;
}

-- The counters of the process, each operation with its `fetch_add`s.
unfoldable pub count_remote_size_probe : ℕ → Counters → Counters
count_remote_size_probe probing c = record c {
  remote_size_probes = add64 c.remote_size_probes 1;
  remote_size_probing = add64 c.remote_size_probing probing;
}

unfoldable pub count_http_connection : ℕ → ℕ → ℕ → ℕ → Counters → Counters
count_http_connection connections dns tcp tls c = record c {
  http_connections = add64 c.http_connections connections;
  http_dns = add64 c.http_dns dns;
  http_tcp = add64 c.http_tcp tcp;
  http_tls = add64 c.http_tls tls;
}

unfoldable pub count_http_retry : ℕ → Counters → Counters
count_http_retry backoff c = record c {
  http_retries = add64 c.http_retries 1;
  http_retry_backoff = add64 c.http_retry_backoff backoff;
}

-- `spent`, and `subtract` of the summary: the difference, saturating at zero.
abbrev pub subtract : ℕ → ℕ → ℕ
subtract mine previous = if ltb previous mine then mine - previous else 0

unfoldable pub counters_since : Counters → Counters → Counters
counters_since c previous = record {
  remote_size_probes = subtract c.remote_size_probes previous.remote_size_probes;
  remote_size_probing = subtract c.remote_size_probing previous.remote_size_probing;
  http_connections = subtract c.http_connections previous.http_connections;
  http_dns = subtract c.http_dns previous.http_dns;
  http_tcp = subtract c.http_tcp previous.http_tcp;
  http_tls = subtract c.http_tls previous.http_tls;
  http_retries = subtract c.http_retries previous.http_retries;
  http_retry_backoff = subtract c.http_retry_backoff previous.http_retry_backoff;
}

unfoldable pub is_empty : Counters → Bool
is_empty c =
    c.remote_size_probes == 0
    && c.remote_size_probing == 0
    && c.http_connections == 0
    && c.http_dns == 0
    && c.http_tcp == 0
    && c.http_tls == 0
    && c.http_retries == 0
    && c.http_retry_backoff == 0

-- `ClockAnchor`.
pub record ClockAnchor : Type 0 where
  pub steady : ℕ
  pub wall : ℕ

pub record BackendTotals : Type 0 where
  pub num_ops : ℕ
  pub bytes_transferred : ℕ
  pub total_duration : ℕ
  pub num_errors : ℕ

abbrev pub no_totals : BackendTotals
no_totals = record { num_ops = 0; bytes_transferred = 0; total_duration = 0; num_errors = 0 }

-- `std::array<BackendTotals, num_io_backends>`, an entry for each `IoBackend`.
pub record ByBackend : Type 0 where
  pub posix : BackendTotals
  pub gds : BackendTotals
  pub mmap : BackendTotals
  pub remote_http : BackendTotals
  pub remote_hdfs : BackendTotals

-- `kind` and `reserved` are the last eight bytes of the object.
pub record Summary : Type 0 where
  pub start : ℕ
  pub end : ℕ
  pub anchor : ClockAnchor
  pub num_ops : ℕ
  pub num_reads : ℕ
  pub num_writes : ℕ
  pub bytes_requested : ℕ
  pub bytes_transferred : ℕ
  pub bytes_read : ℕ
  pub bytes_written : ℕ
  pub num_errors : ℕ
  pub by_backend : ByBackend
  pub counters : Counters
  pub total_duration : ℕ
  pub busy : ℕ
  pub kind : ℕ
  pub reserved : List ℕ

abbrev pub zeros : List ℕ
zeros = 0 ∷ 0 ∷ 0 ∷ 0 ∷ 0 ∷ 0 ∷ 0 ∷ []

-- `Summary{}`.
abbrev pub empty_summary : Summary
empty_summary = record {
  start = 0;
  end = 0;
  anchor = record { steady = 0; wall = 0 };
  num_ops = 0;
  num_reads = 0;
  num_writes = 0;
  bytes_requested = 0;
  bytes_transferred = 0;
  bytes_read = 0;
  bytes_written = 0;
  num_errors = 0;
  by_backend = record {
    posix = no_totals;
    gds = no_totals;
    mmap = no_totals;
    remote_http = no_totals;
    remote_hdfs = no_totals;
  };
  counters = no_counters;
  total_duration = 0;
  busy = 0;
  kind = 0;
  reserved = zeros;
}

unfoldable pub wall : Summary → ℕ
wall s = if ltb s.start s.end then s.end - s.start else 0

unfoldable pub mean_duration : Summary → ℕ
mean_duration s = if s.num_ops == 0 then 0 else s.total_duration / s.num_ops

abbrev pub totals_since : BackendTotals → BackendTotals → BackendTotals
totals_since now was = record {
  num_ops = subtract now.num_ops was.num_ops;
  bytes_transferred = subtract now.bytes_transferred was.bytes_transferred;
  total_duration = subtract now.total_duration was.total_duration;
  num_errors = subtract now.num_errors was.num_errors;
}

abbrev pub backends_since : ByBackend → ByBackend → ByBackend
backends_since now was = record {
  posix = totals_since now.posix was.posix;
  gds = totals_since now.gds was.gds;
  mmap = totals_since now.mmap was.mmap;
  remote_http = totals_since now.remote_http was.remote_http;
  remote_hdfs = totals_since now.remote_hdfs was.remote_hdfs;
}

-- The `Summary` that `since` returns.
abbrev pub interval : Summary → Summary → Summary
interval s previous = record {
  start = previous.end;
  end = s.end;
  anchor = s.anchor;
  num_ops = subtract s.num_ops previous.num_ops;
  num_reads = subtract s.num_reads previous.num_reads;
  num_writes = subtract s.num_writes previous.num_writes;
  bytes_requested = subtract s.bytes_requested previous.bytes_requested;
  bytes_transferred = subtract s.bytes_transferred previous.bytes_transferred;
  bytes_read = subtract s.bytes_read previous.bytes_read;
  bytes_written = subtract s.bytes_written previous.bytes_written;
  num_errors = subtract s.num_errors previous.num_errors;
  by_backend = backends_since s.by_backend previous.by_backend;
  counters = counters_since s.counters previous.counters;
  total_duration = subtract s.total_duration previous.total_duration;
  busy = subtract s.busy previous.busy;
  kind = s.kind;
  reserved = zeros;
}

unfoldable pub since : Summary → Summary → Result Summary
unfolding counters_since
since s previous = do
  expect (previous.start == s.start && leb previous.end s.end) invalid_argument
  ok (interval s previous)
