-- ===== src/RemoteRead.antt =====
-- cpp/src/remote_handle.cpp: the checks of `RemoteHandle::pread` and how the call is cut, for the
-- thread pool by `parallel_io` and for the reactors by its own loop. `read_impl`, which runs one
-- request, is the argument `op`.
pub mod Bounds
pub mod Subranges
pub mod Examples
use kvikio.Base.{
  ℕ, zero, suc, ◌/◌, min, Bool, true, false, not, ◌||◌, none, List, [], ◌∷◌, ltb, leb, ◌==◌,
  if◌then◌else◌, add64, sub64, Result, ok, err, invalid_argument, runtime_error, cufile_exception,
  expect, ◌>>◌, ◌>>=◌,
}
use kvikio.Pieces.{Piece, cut, advance}
use kvikio.ParallelIo.{Completion, parallel_io}

pub data RemoteIoBackend : Type 0 where
  easy_threadpool multi_poll : RemoteIoBackend
  unknown : ℕ → RemoteIoBackend

-- What the call reads of the settings, of its arguments and of the handle.
pub record Setting : Type 0 where
  pub io_backend : RemoteIoBackend
  pub page_size : ℕ
  pub bounce_buffer_size : ℕ
  pub has_thread_pool : Bool
  pub is_host_mem : Bool
  pub is_observed : Bool
  pub nbytes : ℕ

-- What a call that is not rejected does: nothing, tasks, or sub-ranges for the reactors.
pub data Read : Type 0 where
  ready : Read
  tasks : Completion → Read
  subranges : List Piece → Read

pub is_read_out_of_bounds : ℕ → ℕ → ℕ → Bool
is_read_out_of_bounds file_offset size nbytes =
    ltb nbytes file_offset || ltb (sub64 nbytes file_offset) size

pub expect_read_in_bounds : ℕ → ℕ → ℕ → Result (Unit {0})
unfolding is_read_out_of_bounds
expect_read_in_bounds nbytes size file_offset =
    expect (not (is_read_out_of_bounds file_offset size nbytes)) invalid_argument

-- The checks of the backend.
pub expect_backend : Setting → ℕ → Result (Unit {0})
expect_backend s task_size = elim s.io_backend [
  | easy_threadpool ↦ expect s.has_thread_pool cufile_exception
  | multi_poll ↦ expect (s.is_host_mem || leb task_size s.bounce_buffer_size) invalid_argument
  | unknown _ ↦ err runtime_error
]

pub num_subranges : ℕ → ℕ → ℕ
num_subranges task_size size =
    if leb size task_size then 1 else sub64 (add64 size task_size) 1 / task_size

-- The loop over the sub-ranges: as many rounds as there are sub-ranges.
pub subrange_loop : ℕ → ℕ → Piece → List Piece
subrange_loop task_size zero p = []
subrange_loop task_size (suc n) p =
    cut p (min task_size p.size) ∷ subrange_loop task_size n (advance p (min task_size p.size))

pub pread : Setting → (Piece → Result ℕ) → ℕ → Piece → Result Read
unfolding expect_read_in_bounds expect_backend num_subranges subrange_loop
pread s op task_size p = if p.size == 0 then ok ready else do
  expect_read_in_bounds s.nbytes p.size p.file_offset
  expect (ltb 0 task_size) invalid_argument
  expect_backend s task_size
  elim s.io_backend [
    | easy_threadpool ↦ do
      c ←
          parallel_io s.page_size op
            (record {
              has_thread_pool = s.has_thread_pool;
              first_task_size = none;
              has_recorder = s.is_observed;
            })
            task_size (record p { place = 0 })
      ok (tasks c)
    | _ ↦ ok (subranges (subrange_loop task_size (num_subranges task_size p.size) p))
  ]
