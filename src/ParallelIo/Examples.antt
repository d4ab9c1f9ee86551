-- ===== src/ParallelIo/Examples.antt =====
-- Ten bytes in tasks of four, the first of two bytes; one run where all goes well, one where the
-- second task throws.
use kvikio.Base.{
  ℕ, ◌+◌, ◌≡◌, refl, true, some, [], ◌∷◌, All, if◌then◌else◌, ◌==◌, Result, ok, err, runtime_error,
  add64, sub64, arith,
}
use kvikio.Pieces.{Piece, IsBounded, IsCovered}
use kvikio.ParallelIo.{
  ParallelIoOptions, finish, finish_with_failure, Completion, parallel_io, tasks_of, middle_tasks,
  last_task, get_all,
}
use kvikio.ParallelIo.Coverage.{IsAtMost, largest, parallel_io-IsCovered}
use kvikio.ParallelIo.Outcome.{HasFailed, parallel_io_complete, parallel_io_failed}

abbrev opts : ParallelIoOptions
opts = record { has_thread_pool = true; first_task_size = some 2; has_recorder = true }

abbrev piece : ℕ → ℕ → Piece
piece at n = record { file_offset = 100 + at; place = at; size = n }

abbrev whole : Piece
whole = piece 0 10

abbrev works : Piece → Result ℕ
works p = ok p.size

abbrev breaks : Piece → Result ℕ
breaks p = if p.place == 2 then err runtime_error else ok p.size

abbrev good : Completion
good = record {
  tasks = piece 0 2 ∷ piece 2 4 ∷ piece 6 4 ∷ [];
  observations = finish 10 ∷ [];
  result = ok 10;
}

abbrev bad : Completion
bad = record {
  tasks = piece 0 2 ∷ piece 2 4 ∷ piece 6 4 ∷ [];
  observations = finish_with_failure ∷ [];
  result = err runtime_error;
}

good_run : parallel_io 1 works opts 4 whole ≡ ok good
unfolding parallel_io tasks_of middle_tasks last_task get_all add64 sub64
good_run = refl

bad_run : parallel_io 1 breaks opts 4 whole ≡ ok bad
unfolding parallel_io tasks_of middle_tasks last_task get_all add64 sub64
bad_run = refl

bounded : IsBounded whole
bounded = (omega arith, omega arith)

parallel_io-IsCovered_example :
    IsCovered whole good.tasks × All (IsAtMost (largest 1 opts 4)) good.tasks
parallel_io-IsCovered_example = parallel_io-IsCovered 1 works opts 4 whole good bounded good_run

parallel_io_complete_example :
    (good.result ≡ ok whole.size)
    × (good.observations ≡ (if opts.has_recorder then finish whole.size ∷ [] else []))
parallel_io_complete_example =
    parallel_io_complete works 1 opts 4 whole good good_run bounded (refl, (refl, (refl, tt)))

parallel_io_failed_example :
    HasFailed breaks runtime_error bad.tasks
    × (bad.observations ≡ (if opts.has_recorder then finish_with_failure ∷ [] else []))
parallel_io_failed_example = parallel_io_failed breaks 1 opts 4 whole bad bad_run runtime_error refl
