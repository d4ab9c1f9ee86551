-- ===== src/Registry.antt =====
-- The registry of monitors of cpp/src/observation.cpp: who is told of an operation. A call
-- is one step under the registry's lock; a monitor that is not null is a number, `in_monitor` says whether
-- the calling thread is inside a callback, and ids are below 2^64.
pub mod Notified
pub mod Examples
use kvikio.Base.{
  ℕ, zero, suc, ◌+◌, ◌%◌, ◌^◌, Bool, true, false, not, ◌||◌, List, [], ◌∷◌, ◌++◌, map, keep, length,
  ◌==◌, if◌then◌else◌, Result, ok, err, runtime_error, expect, ◌>>◌,
}

pub data ObservationKind : Type 0 where
  logical physical : ObservationKind

abbrev pub is_kind : ObservationKind → ObservationKind → Bool
is_kind logical logical = true
is_kind logical physical = false
is_kind physical logical = false
is_kind physical physical = true

pub record Entry : Type 0 where
  pub id : ℕ
  pub kind : ObservationKind
  pub monitor : ℕ

-- The counts of monitors for each kind are what the gate reads.
pub record Registry : Type 0 where
  pub monitors : List Entry
  pub next_id : ℕ
  pub logical_count : ℕ
  pub physical_count : ℕ

abbrev pub new_registry : Registry
new_registry = record { monitors = []; next_id = 1; logical_count = 0; physical_count = 0 }

abbrev pub count_of : ObservationKind → List Entry → ℕ
count_of kind es = length (keep (λ e. is_kind e.kind kind) es)

-- The published counts are of 32 bits.
unfoldable pub publish_count : Registry → Registry
publish_count r = record r {
  logical_count = count_of logical r.monitors % 2 ^ 32;
  physical_count = count_of physical r.monitors % 2 ^ 32;
}

abbrev pub Added : Type 0
Added = ℕ × Registry

unfoldable pub add : Bool → ℕ → ObservationKind → Registry → Result Added
add in_monitor monitor kind r = do
  expect (not in_monitor) runtime_error
  ok (
    r.next_id,
    publish_count (record r {
      monitors = r.monitors ++ record { id = r.next_id; kind = kind; monitor = monitor } ∷ [];
      next_id = r.next_id + 1;
    }),
  )

-- `find_if` and `erase`: the first entry with this id.
abbrev pub erase : ℕ → List Entry → List Entry
erase id [] = []
erase id (e ∷ es) = if e.id == id then es else e ∷ erase id es

unfoldable pub remove : Bool → ℕ → Registry → Result Registry
remove in_monitor id r = do
  expect (not in_monitor) runtime_error
  ok (publish_count (record r { monitors = erase id r.monitors }))

unfoldable pub monitoring_enabled : ObservationKind → Registry → Bool
monitoring_enabled logical r = not (r.logical_count == 0)
monitoring_enabled physical r = not (r.physical_count == 0)

-- The entries whose monitors are called, in this order.
unfoldable pub notify : Bool → ObservationKind → Registry → List Entry
notify in_monitor kind r =
    if not (monitoring_enabled kind r) || in_monitor
    then []
    else keep (λ e. is_kind e.kind kind) r.monitors
