-- ===== src/Aggregate.antt =====
-- RemoteMultiAggregateContext of cpp/include/kvikio/detail/multi_poll_reactor.hpp and
-- cpp/src/detail/multi_poll_reactor.cpp: the promise of one `pread`, counted down by its sub-ranges
-- on any number of reactor threads. An exception is a number.
pub mod Invariant
pub mod Outcome
pub mod Examples
use kvikio.Base.{
  ℕ, zero, suc, ◌≡◌, ◌<◌, Bool, true, false, Option, none, some, List, [], ◌∷◌, ◌++◌, ltb, ◌==◌,
  if◌then◌else◌, update, add64, sub64, Result, ok, invalid_argument, expect, ◌>>◌,
}

-- What the aggregate does to the outside, in order.
pub data Event : Type 0 where
  observe_success : ℕ → Event
  observe_failure : Event
  promise_value : ℕ → Event
  promise_exception : Option ℕ → Event

pub record Aggregate : Type 0 where
  pub has_recorder : Bool
  pub subranges_left : ℕ
  pub total_bytes : ℕ
  pub first_exception : Option ℕ
  pub events : List Event

-- The constructor.
unfoldable pub make_aggregate : Bool → ℕ → Result Aggregate
make_aggregate has_recorder num_subranges = do
  expect (ltb 0 num_subranges) invalid_argument
  ok (record {
    has_recorder = has_recorder;
    subranges_left = num_subranges;
    total_bytes = 0;
    first_exception = none;
    events = [];
  })

abbrev pub observed : Aggregate → Event → List Event → List Event
observed a event events = if a.has_recorder then event ∷ events else events

-- `_total_bytes.fetch_add(bytes)`.
abbrev pub add_bytes : ℕ → Aggregate → Aggregate
add_bytes bytes a = record a { total_bytes = add64 a.total_bytes bytes }

-- `if (!_first_exception) { _first_exception = eptr; }`.
abbrev pub note_exception : ℕ → Aggregate → Aggregate
note_exception e a = record a {
  first_exception = elim a.first_exception [ none ↦ some e | some first ↦ some first ];
}

-- `_subranges_left.fetch_sub(1)`.
abbrev pub count_down : Aggregate → Aggregate
count_down a = record a { subranges_left = sub64 a.subranges_left 1 }

-- The last completion, under the lock: the observation, then the promise.
pub finish_complete : Aggregate → Aggregate
finish_complete a = record a {
  events = a.events ++ elim a.first_exception [
    | none ↦ observed a (observe_success a.total_bytes) (promise_value a.total_bytes ∷ [])
    | some e ↦ observed a observe_failure (promise_exception (some e) ∷ [])
  ];
}

-- The last failure, under the lock.
pub finish_failed : Aggregate → Aggregate
finish_failed a = record a {
  events = a.events ++ observed a observe_failure (promise_exception a.first_exception ∷ []);
}

-- Where a sub-range stands. `added` and `noted` have made the first access of
-- `on_subrange_complete` and `on_subrange_failed`; `last_` means that its decrement was the last.
pub data Pc : Type 0 where
  waiting : Pc
  added : ℕ → Pc
  noted : ℕ → Pc
  last_complete : ℕ → Pc
  last_failed : ℕ → Pc
  completed : ℕ → Pc
  failed : ℕ → Pc

pub record System : Type 0 where
  pub aggregate : Aggregate
  pub subranges : ℕ → Pc

abbrev pub put : System → Aggregate → ℕ → Pc → System
put s a i pc = record { aggregate = a; subranges = update s.subranges i pc }

-- One atomic access of the thread that reports sub-range `i`.
pub data Step (n : ℕ) (s : System) : System → Type 0 where
  add :
      (i bytes : ℕ)
      → i < n
      → s.subranges i ≡ waiting
      → Step n s (put s (add_bytes bytes s.aggregate) i (added bytes))
  note :
      (i e : ℕ)
      → i < n
      → s.subranges i ≡ waiting
      → Step n s (put s (note_exception e s.aggregate) i (noted e))
  count_complete :
      (i bytes : ℕ)
      → i < n
      → s.subranges i ≡ added bytes
      → Step n s (
          put s
            (count_down s.aggregate)
            i
            (if s.aggregate.subranges_left == 1 then last_complete bytes else completed bytes))
  count_failed :
      (i e : ℕ)
      → i < n
      → s.subranges i ≡ noted e
      → Step n s (
          put s
            (count_down s.aggregate)
            i
            (if s.aggregate.subranges_left == 1 then last_failed e else failed e))
  close_complete :
      (i bytes : ℕ)
      → i < n
      → s.subranges i ≡ last_complete bytes
      → Step n s (put s (finish_complete s.aggregate) i (completed bytes))
  close_failed :
      (i e : ℕ)
      → i < n
      → s.subranges i ≡ last_failed e
      → Step n s (put s (finish_failed s.aggregate) i (failed e))

-- From a fresh aggregate, any interleaving of the reports.
pub data Reach (n : ℕ) (fresh : Aggregate) : System → Type 0 where
  start : Reach n fresh (record { aggregate = fresh; subranges = λ _. waiting })
  next : {s t : System} → Reach n fresh s → Step n s t → Reach n fresh t
