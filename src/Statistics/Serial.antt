-- ===== src/Statistics/Serial.antt =====
-- Summary::serialize and Summary::deserialize of cpp/src/statistics/summary.cpp: a header, and a copy of
-- the object in the byte order of the machine. Bytes are numbers below 256, and the first argument of
-- most functions says whether the machine is big-endian.
pub mod Words
pub mod Object
pub mod RoundTrip
use kvikio.Base.{
  ℕ, zero, suc, ◌+◌, ◌-◌, ◌*◌, ◌/◌, ◌%◌, ◌^◌, Bool, true, false, ◌&&◌, List, [], ◌∷◌, ◌++◌, ◌==◌,
  length, take, drop, get_or, replicate, Result, ok, invalid_argument, expect, ◌>>◌,
}
use kvikio.Statistics.{Counters, BackendTotals, Summary}
use mathlib.Core.List.{reverse}

-- The bytes of a word, the least significant first.
abbrev pub le_bytes : ℕ → ℕ → List ℕ
le_bytes zero v = []
le_bytes (suc n) v = v % 256 ∷ le_bytes n (v / 256)

abbrev pub of_le : List ℕ → ℕ
of_le [] = 0
of_le (b ∷ bs) = b + 256 * of_le bs

abbrev pub in_order : Bool → List ℕ → List ℕ
in_order true bs = reverse bs
in_order false bs = bs

-- A word in memory, and a word of memory.
unfoldable pub machine_bytes : Bool → ℕ → ℕ → List ℕ
machine_bytes big n v = in_order big (le_bytes n v)

unfoldable pub of_machine : Bool → List ℕ → ℕ
of_machine big bs = of_le (in_order big bs)

-- The members of the object of eight bytes each, in their order.
abbrev pub words_of : Summary → List ℕ
words_of s =
    let b = s.by_backend in
    let c = s.counters in
    s.start ∷ s.end ∷ s.anchor.steady ∷ s.anchor.wall ∷ s.num_ops ∷ s.num_reads ∷ s.num_writes
    ∷ s.bytes_requested ∷ s.bytes_transferred ∷ s.bytes_read ∷ s.bytes_written ∷ s.num_errors
    ∷ b.posix.num_ops ∷ b.posix.bytes_transferred ∷ b.posix.total_duration ∷ b.posix.num_errors
    ∷ b.gds.num_ops ∷ b.gds.bytes_transferred ∷ b.gds.total_duration ∷ b.gds.num_errors
    ∷ b.mmap.num_ops ∷ b.mmap.bytes_transferred ∷ b.mmap.total_duration ∷ b.mmap.num_errors
    ∷ b.remote_http.num_ops ∷ b.remote_http.bytes_transferred ∷ b.remote_http.total_duration
    ∷ b.remote_http.num_errors ∷ b.remote_hdfs.num_ops ∷ b.remote_hdfs.bytes_transferred
    ∷ b.remote_hdfs.total_duration ∷ b.remote_hdfs.num_errors ∷ c.remote_size_probes
    ∷ c.remote_size_probing ∷ c.http_connections ∷ c.http_dns ∷ c.http_tcp ∷ c.http_tls
    ∷ c.http_retries ∷ c.http_retry_backoff ∷ s.total_duration ∷ s.busy ∷ []

abbrev pub totals_of : List ℕ → ℕ → BackendTotals
totals_of ws i = record {
  num_ops = get_or ws i 0;
  bytes_transferred = get_or ws (i + 1) 0;
  total_duration = get_or ws (i + 2) 0;
  num_errors = get_or ws (i + 3) 0;
}

abbrev pub counters_of : List ℕ → ℕ → Counters
counters_of ws i = record {
  remote_size_probes = get_or ws i 0;
  remote_size_probing = get_or ws (i + 1) 0;
  http_connections = get_or ws (i + 2) 0;
  http_dns = get_or ws (i + 3) 0;
  http_tcp = get_or ws (i + 4) 0;
  http_tls = get_or ws (i + 5) 0;
  http_retries = get_or ws (i + 6) 0;
  http_retry_backoff = get_or ws (i + 7) 0;
}

-- The object that these words, and these last bytes, make up.
abbrev pub summary_of : List ℕ → List ℕ → Summary
summary_of ws last = record {
  start = get_or ws 0 0;
  end = get_or ws 1 0;
  anchor = record { steady = get_or ws 2 0; wall = get_or ws 3 0 };
  num_ops = get_or ws 4 0;
  num_reads = get_or ws 5 0;
  num_writes = get_or ws 6 0;
  bytes_requested = get_or ws 7 0;
  bytes_transferred = get_or ws 8 0;
  bytes_read = get_or ws 9 0;
  bytes_written = get_or ws 10 0;
  num_errors = get_or ws 11 0;
  by_backend = record {
    posix = totals_of ws 12;
    gds = totals_of ws 16;
    mmap = totals_of ws 20;
    remote_http = totals_of ws 24;
    remote_hdfs = totals_of ws 28;
  };
  counters = counters_of ws 32;
  total_duration = get_or ws 40 0;
  busy = get_or ws 41 0;
  kind = get_or last 0 0;
  reserved = drop 1 last;
}

unfoldable pub write_words : Bool → List ℕ → List ℕ
write_words big [] = []
write_words big (w ∷ ws) = machine_bytes big 8 w ++ write_words big ws

unfoldable pub read_words : Bool → ℕ → List ℕ → List ℕ
read_words big zero bytes = []
read_words big (suc n) bytes = of_machine big (take 8 bytes) ∷ read_words big n (drop 8 bytes)

-- The 344 bytes of the object, and the object of 344 bytes: what `std::memcpy` copies.
unfoldable pub object_bytes : Bool → Summary → List ℕ
object_bytes big s = write_words big (words_of s) ++ (s.kind ∷ s.reserved)

unfoldable pub object_of : Bool → List ℕ → Summary
object_of big bytes = summary_of (read_words big 42 bytes) (drop 336 bytes)

-- "KVSM".
abbrev pub serial_magic : List ℕ
serial_magic = 75 ∷ 86 ∷ 83 ∷ 77 ∷ []

abbrev pub serial_version : ℕ
serial_version = 3

abbrev pub summary_size : ℕ
summary_size = 344

abbrev pub serial_byte_order : ℕ
serial_byte_order = 16909060

abbrev pub serial_byte_order_offset : ℕ
serial_byte_order_offset = 12

abbrev pub serial_header_size : ℕ
serial_header_size = 16

abbrev pub serialized_size : ℕ
serialized_size = serial_header_size + summary_size

-- `static_cast<std::byte>((value >> (i * 8U)) & 0xFFU)`.
abbrev pub byte_of : ℕ → ℕ → ℕ
byte_of value i = value / 2 ^ (i * 8) % 256

unfoldable pub put_u32 : List ℕ → ℕ → List ℕ
put_u32 out value =
    out ++ (byte_of value 0 ∷ byte_of value 1 ∷ byte_of value 2 ∷ byte_of value 3 ∷ [])

-- The bits that `|=` joins do not overlap.
unfoldable pub get_u32 : List ℕ → ℕ → ℕ
get_u32 in_bytes at =
    get_or in_bytes at 0
    + get_or in_bytes (at + 1) 0 * 2 ^ 8
    + get_or in_bytes (at + 2) 0 * 2 ^ 16
    + get_or in_bytes (at + 3) 0 * 2 ^ 24

abbrev pub resize : ℕ → List ℕ → List ℕ
resize n out = take n out ++ replicate (n - length out) 0

-- `std::memcpy` of `bytes` to offset `at`.
abbrev pub overwrite : ℕ → List ℕ → List ℕ → List ℕ
overwrite at bytes out = take at out ++ bytes ++ drop (at + length bytes) out

-- The magic number, the version and the size, in a vector of the full length.
unfoldable pub begun : List ℕ
unfolding put_u32
begun = resize serialized_size (put_u32 (put_u32 serial_magic serial_version) summary_size)

unfoldable pub serialize : Bool → Summary → List ℕ
unfolding begun
serialize big s =
    overwrite serial_header_size (object_bytes big s)
      (overwrite serial_byte_order_offset (machine_bytes big 4 serial_byte_order) begun)

abbrev pub starts_with_magic : List ℕ → Bool
starts_with_magic bytes =
    get_or bytes 0 0 == 75
    && get_or bytes 1 0 == 86
    && get_or bytes 2 0 == 83
    && get_or bytes 3 0 == 77

unfoldable pub deserialize : Bool → List ℕ → Result Summary
unfolding get_u32
deserialize big bytes = do
  expect (length bytes == serialized_size) invalid_argument
  expect (starts_with_magic bytes) invalid_argument
  expect (get_u32 bytes 4 == serial_version && get_u32 bytes 8 == summary_size) invalid_argument
  expect (of_machine big (take 4 (drop serial_byte_order_offset bytes)) == serial_byte_order)
      invalid_argument
  ok (object_of big (drop serial_header_size bytes))
