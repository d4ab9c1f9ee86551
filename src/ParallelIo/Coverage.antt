-- ===== src/ParallelIo/Coverage.antt =====
-- The tasks of `parallel_io` make up the range.
use kvikio.Base.{
  ℕ, zero, suc, ◌≤◌, ◌<◌, ◌≡◌, refl, inl, inr, min, max, ◌||◌, List, [], ◌∷◌, All, ltb, leb,
  Bool-cases, Result, ok, arith,
}
use kvikio.Pieces.{
  Piece, advance, IsBounded, IsCovered, advance-IsAdvanced, advance-IsBounded, cut-IsCovered,
}
use kvikio.ParallelIo.{
  ParallelIoOptions, value_or, middle_tasks, tasks_of, snoc, Completion, parallel_io,
}

IsCovered-self : (p : Piece) → IsCovered p (p ∷ [])
IsCovered-self p = (refl, refl, omega arith, omega arith)

abbrev pub IsAtMost : ℕ → Piece → Type 0
IsAtMost n p = p.size ≤ n

middle_tasks-IsCovered :
    (task_size fuel : ℕ) (p : Piece)
    → IsBounded p
    → 0 < task_size
    → p.size ≤ fuel
    → IsCovered p (snoc (middle_tasks task_size fuel p).0 (middle_tasks task_size fuel p).1)
      × All
          (IsAtMost task_size)
          (snoc (middle_tasks task_size fuel p).0 (middle_tasks task_size fuel p).1)
unfolding middle_tasks
middle_tasks-IsCovered task_size zero p b pos enough = (IsCovered-self p, (omega arith, tt))
middle_tasks-IsCovered task_size (suc fuel) p b pos enough =
    elim (Bool-cases (ltb task_size p.size)) [
      | inl more ↦
          let fits : task_size ≤ p.size = ground arith in
          let a = advance-IsAdvanced p task_size b fits in
          let rest =
            middle_tasks-IsCovered task_size fuel (advance p task_size)
              (advance-IsBounded p task_size b fits) pos (omega (arith, a.size)) in
          rw more (cut-IsCovered p task_size _ b fits rest.0, (omega arith, rest.1))
      | inr done ↦ rw done (IsCovered-self p, (ground arith, tt))
    ]

-- No task is larger than this: a page at least is one task, and the first task may have a size of its
-- own.
abbrev pub largest : ℕ → ParallelIoOptions → ℕ → ℕ
largest page_size opts task_size =
    max (max task_size page_size) (value_or opts.first_task_size task_size)

All-weaken : (m n : ℕ) (ps : List Piece) → m ≤ n → All (IsAtMost m) ps → All (IsAtMost n) ps
All-weaken m n [] h a = tt
All-weaken m n (p ∷ ps) h (a, more) = (omega arith, All-weaken m n ps h more)

tasks_of-IsCovered :
    (page_size : ℕ) (opts : ParallelIoOptions) (task_size : ℕ) (p : Piece)
    → IsBounded p
    → 0 < task_size
    → IsCovered p
        (snoc (tasks_of page_size opts task_size p).0 (tasks_of page_size opts task_size p).1)
      × All
          (IsAtMost (largest page_size opts task_size))
          (snoc (tasks_of page_size opts task_size p).0 (tasks_of page_size opts task_size p).1)
unfolding tasks_of
tasks_of-IsCovered page_size opts task_size p b pos =
    let first = value_or opts.first_task_size task_size in
    elim (Bool-cases (leb p.size task_size || leb p.size page_size)) [
      | inl single ↦ rw single (IsCovered-self p, (ground arith, tt))
      | inr several ↦
          let cur_size = min first p.size in
          let fits : cur_size ≤ p.size = omega arith in
          let a = advance-IsAdvanced p cur_size b fits in
          let rest =
            middle_tasks-IsCovered task_size p.size (advance p cur_size)
              (advance-IsBounded p cur_size b fits) pos (omega (arith, a.size)) in
          rw several (
            cut-IsCovered p cur_size _ b fits rest.0,
            (
              omega arith,
              All-weaken task_size (largest page_size opts task_size) _ (omega arith) rest.1,
            ),
          )
    ]

-- Unless the call is rejected, the tasks make up exactly the range of the call: they follow each other
-- in the file and in memory without a gap or an overlap, and none is larger than the task size, a
-- page and the size asked for the first task. The range ends below 2^64.
pub parallel_io-IsCovered :
    (page_size : ℕ) (op : Piece → Result ℕ) (opts : ParallelIoOptions) (task_size : ℕ) (p : Piece)
    (c : Completion)
    → IsBounded p
    → parallel_io page_size op opts task_size p ≡ ok c
    → IsCovered p c.tasks × All (IsAtMost (largest page_size opts task_size)) c.tasks
unfolding parallel_io
parallel_io-IsCovered page_size op opts task_size p c b made =
    let pos : 0 < task_size = ground arith in
    let plan = tasks_of page_size opts task_size p in
    let same : c.tasks ≡ snoc plan.0 plan.1 = ground arith in
    rw same (tasks_of-IsCovered page_size opts task_size p b pos)
