-- ===== src/ParallelIo.antt =====
-- cpp/include/kvikio/detail/parallel_operation.hpp: `parallel_io` cuts one read or write into tasks
-- for the thread pool; the last task waits for the others and finishes the observation. What a task
-- does is the argument `op`.
pub mod Coverage
pub mod Outcome
pub mod Examples
use kvikio.Base.{
  ℕ, zero, suc, min, Bool, ◌||◌, Option, none, some, List, [], ◌∷◌, ltb, leb, if◌then◌else◌, add64,
  Result, ok, err, invalid_argument, cufile_exception, expect, ◌>>◌, ◌>>=◌, Error,
}
use kvikio.Pieces.{Piece, cut, advance}

pub record ParallelIoOptions : Type 0 where
  pub has_thread_pool : Bool
  pub first_task_size : Option ℕ
  pub has_recorder : Bool

-- What the recorder of the logical operation is told.
pub data Observation : Type 0 where
  finish : ℕ → Observation
  finish_with_failure : Observation

-- `std::optional::value_or`.
abbrev pub value_or : Option ℕ → ℕ → ℕ
value_or none d = d
value_or (some n) d = n

-- The loop that submits the tasks of `task_size`, on fuel, and what is left for the last task. A task
-- is not empty, so the size is enough fuel.
pub middle_tasks : ℕ → ℕ → Piece → List Piece × Piece
middle_tasks task_size zero p = ([], p)
middle_tasks task_size (suc fuel) p =
    let rest = middle_tasks task_size fuel (advance p task_size) in
    if ltb task_size p.size then (cut p task_size ∷ rest.0, rest.1) else ([], p)

-- The tasks that are submitted before the last one, and the last one.
pub tasks_of : ℕ → ParallelIoOptions → ℕ → Piece → List Piece × Piece
unfolding middle_tasks
tasks_of page_size opts task_size p =
    let cur_size = min (value_or opts.first_task_size task_size) p.size in
    let rest = middle_tasks task_size p.size (advance p cur_size) in
    if leb p.size task_size || leb p.size page_size
    then ([], p)
    else (cut p cur_size ∷ rest.0, rest.1)

-- `ret += task.get()` for each task in turn; the first that threw ends the loop.
pub get_all : (Piece → Result ℕ) → List Piece → ℕ → Result ℕ
get_all op [] ret = ok ret
get_all op (task ∷ tasks) ret = do n ← op task; get_all op tasks (add64 ret n)

abbrev pub observe : Bool → Result ℕ → List Observation
observe has_recorder (ok n) = if has_recorder then finish n ∷ [] else []
observe has_recorder (err e) = if has_recorder then finish_with_failure ∷ [] else []

-- What came of the call: the tasks in the order of their submission, what the recorder was told when
-- all of them were over, and what the future gives.
pub record Completion : Type 0 where
  pub tasks : List Piece
  pub observations : List Observation
  pub result : Result ℕ

-- The last task, or `single_task` if there are no others.
pub last_task : (Piece → Result ℕ) → List Piece → Piece → Result ℕ
unfolding get_all
last_task op tasks last = do ret ← op last; get_all op tasks ret

abbrev pub snoc : List Piece → Piece → List Piece
snoc [] p = p ∷ []
snoc (q ∷ qs) p = q ∷ snoc qs p

pub parallel_io : ℕ → (Piece → Result ℕ) → ParallelIoOptions → ℕ → Piece → Result Completion
unfolding tasks_of last_task
parallel_io page_size op opts task_size p = do
  expect (ltb 0 task_size) invalid_argument
  expect opts.has_thread_pool cufile_exception
  let plan = tasks_of page_size opts task_size p in
      ok (record {
        tasks = snoc plan.0 plan.1;
        observations = observe opts.has_recorder (last_task op plan.0 plan.1);
        result = last_task op plan.0 plan.1;
      })
