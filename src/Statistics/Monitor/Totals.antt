-- ===== src/Statistics/Monitor/Totals.antt =====
-- The totals of a monitor agree with each other: every operation is counted once in its direction and
-- once in its backend.
use kvikio.Base.{
  inl, inr, ℕ, zero, suc, ◌+◌, ◌%◌, ◌<◌, ◌≡◌, refl, ◌∙◌, Bool, Bool-cases, true, false, ltb, ◌==◌,
  if◌then◌else◌, add64, u64_mod, arith,
}
use kvikio.Statistics.{Counters, ClockAnchor, BackendTotals, ByBackend, Summary, empty_summary}
use kvikio.Statistics.Monitor.{
  TransferDirection, read, write, Observation, duration, stamp, on_start, add_operation,
  count_backend, count_direction, count_operation, on_finish, after_get, get, reset, stop,
}
use kvikio.Statistics.Monitor.Calls.{World, Step, Reach}

abbrev pub over_backends : (BackendTotals → ℕ) → ByBackend → ℕ
over_backends f e = f e.posix + f e.gds + f e.mmap + f e.remote_http + f e.remote_hdfs

-- Every operation and every byte is counted in one direction, and in one backend.
pub record IsSplitByDirection (s : Summary) : Type 0 where
  pub ops : add64 s.num_reads s.num_writes ≡ s.num_ops
  pub bytes : add64 s.bytes_read s.bytes_written ≡ s.bytes_transferred

pub record IsSplitByBackend (s : Summary) : Type 0 where
  pub ops : over_backends (λ b. b.num_ops) s.by_backend % u64_mod ≡ s.num_ops
  pub bytes : over_backends (λ b. b.bytes_transferred) s.by_backend % u64_mod ≡ s.bytes_transferred
  pub time : over_backends (λ b. b.total_duration) s.by_backend ≡ s.total_duration
  pub errors : over_backends (λ b. b.num_errors) s.by_backend % u64_mod ≡ s.num_errors

abbrev pub IsConsistent : Summary → Type 0
IsConsistent s = IsSplitByDirection s × IsSplitByBackend s

-- What is summed over the backends grows by what one of them grows by.
record IsCounted (o : Observation) (before after : ByBackend) : Type 0 where
  ops :
      over_backends (λ b. b.num_ops) after % u64_mod
      ≡ (over_backends (λ b. b.num_ops) before + 1) % u64_mod
  bytes :
      over_backends (λ b. b.bytes_transferred) after % u64_mod
      ≡ (over_backends (λ b. b.bytes_transferred) before + o.bytes_transferred) % u64_mod
  time :
      over_backends (λ b. b.total_duration) after
      ≡ over_backends (λ b. b.total_duration) before + duration o
  errors :
      over_backends (λ b. b.num_errors) after % u64_mod
      ≡ (over_backends (λ b. b.num_errors) before + (if o.ok then 0 else 1)) % u64_mod

if_add64 :
    (b : Bool) (n rest : ℕ)
    → ((if b then n else add64 n 1) + rest) % u64_mod ≡ (n + rest + (if b then 0 else 1)) % u64_mod
unfolding add64
if_add64 true n rest = omega arith
if_add64 false n rest = omega arith

-- The entry `b` is the one that an operation is counted in.
entry-IsCounted :
    (o : Observation) (b : BackendTotals) (before after : ByBackend)
    (others : (BackendTotals → ℕ) → ℕ)
    → ((f : BackendTotals → ℕ) → over_backends f before ≡ f b + others f)
    → ((f : BackendTotals → ℕ) → over_backends f after ≡ f (add_operation o b) + others f)
    → IsCounted o before after
unfolding add_operation add64
entry-IsCounted o b before after others was is = record {
  ops = omega (arith, was (λ b. b.num_ops), is (λ b. b.num_ops));
  bytes = omega (arith, was (λ b. b.bytes_transferred), is (λ b. b.bytes_transferred));
  time = omega (arith, was (λ b. b.total_duration), is (λ b. b.total_duration));
  errors = omega (
    arith,
    was (λ b. b.num_errors),
    is (λ b. b.num_errors),
    if_add64 o.ok b.num_errors (others (λ b. b.num_errors)),
  );
}

count_backend-IsCounted :
    (n : ℕ) (o : Observation) (e : ByBackend) → n < 5 → IsCounted o e (count_backend n o e)
unfolding count_backend
count_backend-IsCounted zero o e h =
    entry-IsCounted o e.posix _ _ (λ f. f e.gds + f e.mmap + f e.remote_http + f e.remote_hdfs)
      (λ f. omega arith) (λ f. omega arith)
count_backend-IsCounted (suc zero) o e h =
    entry-IsCounted o e.gds _ _ (λ f. f e.posix + f e.mmap + f e.remote_http + f e.remote_hdfs)
      (λ f. omega arith) (λ f. omega arith)
count_backend-IsCounted (suc (suc zero)) o e h =
    entry-IsCounted o e.mmap _ _ (λ f. f e.posix + f e.gds + f e.remote_http + f e.remote_hdfs)
      (λ f. omega arith) (λ f. omega arith)
count_backend-IsCounted (suc (suc (suc zero))) o e h =
    entry-IsCounted o e.remote_http _ _ (λ f. f e.posix + f e.gds + f e.mmap + f e.remote_hdfs)
      (λ f. omega arith) (λ f. omega arith)
count_backend-IsCounted (suc (suc (suc (suc zero)))) o e h =
    entry-IsCounted o e.remote_hdfs _ _ (λ f. f e.posix + f e.gds + f e.mmap + f e.remote_http)
      (λ f. omega arith) (λ f. omega arith)
count_backend-IsCounted (suc (suc (suc (suc (suc n))))) o e h = absurd (omega arith)

count_error :
    (b : Bool) (n sum : ℕ)
    → sum % u64_mod ≡ n
    → (sum + (if b then 0 else 1)) % u64_mod ≡ (if b then n else add64 n 1)
unfolding add64
count_error true n sum h = omega (arith, h)
count_error false n sum h = omega (arith, h)

count_operation-IsSplitByDirection :
    (d : TransferDirection) (o : Observation) (s : Summary)
    → o.direction ≡ d
    → IsSplitByDirection s
    → IsSplitByDirection (count_operation o s)
unfolding count_operation count_direction add64
count_operation-IsSplitByDirection read o s h c =
    rw h (record { ops = omega (arith, c.ops); bytes = omega (arith, c.bytes) })
count_operation-IsSplitByDirection write o s h c =
    rw h (record { ops = omega (arith, c.ops); bytes = omega (arith, c.bytes) })

count_direction-IsSplitByBackend :
    (d : TransferDirection) (o : Observation) (s : Summary)
    → IsSplitByBackend s
    → IsSplitByBackend (count_direction d o s)
unfolding count_direction
count_direction-IsSplitByBackend read o s c = record {
  ops = c.ops;
  bytes = c.bytes;
  time = c.time;
  errors = c.errors;
}
count_direction-IsSplitByBackend write o s c = record {
  ops = c.ops;
  bytes = c.bytes;
  time = c.time;
  errors = c.errors;
}

count_operation-IsSplitByBackend :
    (o : Observation) (s : Summary)
    → o.backend < 5
    → IsSplitByBackend s
    → IsSplitByBackend (count_operation o s)
unfolding count_operation add64
count_operation-IsSplitByBackend o s known c =
    let counted = count_backend-IsCounted o.backend o s.by_backend known in
    count_direction-IsSplitByBackend o.direction o _ (record {
      ops = omega (arith, c.ops, counted.ops);
      bytes = omega (arith, c.bytes, counted.bytes);
      time = omega (arith, c.time, counted.time);
      errors = counted.errors ∙ count_error o.ok s.num_errors _ c.errors;
    })

empty-IsConsistent :
    (start : ℕ) (anchor : ClockAnchor) (kind : ℕ)
    → IsConsistent (record empty_summary { start = start; anchor = anchor; kind = kind })
unfolding add64
empty-IsConsistent start anchor kind = (
  record { ops = omega arith; bytes = omega arith },
  record { ops = omega arith; bytes = omega arith; time = omega arith; errors = omega arith },
)

if-IsConsistent :
    (b : Bool) (x y : Summary) → IsConsistent x → IsConsistent y → IsConsistent (if b then x else y)
if-IsConsistent true x y hx hy = hx
if-IsConsistent false x y hx hy = hy

Step-IsConsistent :
    {v w : World} → Step v w → IsConsistent v.monitor.totals → IsConsistent w.monitor.totals
unfolding on_start on_finish after_get reset stop
Step-IsConsistent (Step.passes t later) c = c
Step-IsConsistent {v} (Step.starts o r past) c =
    elim (Bool-cases (ltb o.start v.monitor.registered)) [ inl h ↦ rw h c | inr h ↦ rw h c ]
Step-IsConsistent {v} (Step.finishes o r past known) c =
    let counted : IsConsistent (count_operation o v.monitor.totals) = (
      count_operation-IsSplitByDirection o.direction o v.monitor.totals refl c.0,
      count_operation-IsSplitByBackend o v.monitor.totals known c.1,
    ) in
    elim (Bool-cases (ltb o.start v.monitor.registered)) [
      | inl h ↦ rw h c
      | inr h ↦ rw h (if-IsConsistent (ltb o.start v.monitor.totals.start) _ _ c counted)
    ]
Step-IsConsistent Step.gets c = c
Step-IsConsistent {v} (Step.resets current) c =
    empty-IsConsistent v.now v.monitor.totals.anchor v.monitor.totals.kind
Step-IsConsistent {v} (Step.stops current running) c =
    elim (Bool-cases (v.monitor.registration == 0)) [ inl h ↦ rw h c | inr h ↦ rw h c ]

Reach-IsConsistent : {w : World} → Reach w → IsConsistent w.monitor.totals
unfolding stamp
Reach-IsConsistent (Reach.constructed id t anchor kind current first) =
    empty-IsConsistent t anchor kind
Reach-IsConsistent (Reach.next r step) = Step-IsConsistent step (Reach-IsConsistent r)

-- Whatever a monitor is told since it was constructed, in whatever order and across resets, the totals
-- that it reads agree modulo 2^64: reads and writes make up the operations, the bytes read and written
-- make up the bytes transferred, and the backends' operations, bytes, errors and durations each add up
-- to those of the summary.
pub get-IsConsistent :
    {w : World} → Reach w → (current : Counters) → IsConsistent (get w.now current w.monitor)
unfolding get
get-IsConsistent r current =
    let c = Reach-IsConsistent r in
    (
      record { ops = c.0.ops; bytes = c.0.bytes },
      record { ops = c.1.ops; bytes = c.1.bytes; time = c.1.time; errors = c.1.errors },
    )
