-- ===== src/ParallelIo/Outcome.antt =====
-- What the future of `parallel_io` gives, and what the recorder is told.
use kvikio.Base.{
  ℕ, ◌+◌, ◌-◌, ◌≤◌, ◌<◌, ◌≡◌, refl, ◌∙◌, sym, inl, inr, ◌⊎◌, List, [], ◌∷◌, All, if◌then◌else◌,
  add64, add64_exact, Result, Result-cases, ok, err, Error, u64_mod, arith,
}
use kvikio.Pieces.{Piece, Covers, IsBounded, IsCovered}
use kvikio.ParallelIo.{
  ParallelIoOptions, finish, finish_with_failure, Completion, get_all, last_task, snoc, observe,
  tasks_of, parallel_io,
}
use kvikio.ParallelIo.Coverage.{parallel_io-IsCovered}

module _ (op : Piece → Result ℕ) where
  -- The task transfers all of its bytes.
  abbrev pub IsFull : Piece → Type 0
  IsFull p = op p ≡ ok p.size

  abbrev pub IsFailed : Error → Piece → Type 0
  IsFailed e p = op p ≡ err e

  -- `Covers` read from the end.
  Covers-snoc :
      (offset place size : ℕ) (ps : List Piece) (p : Piece)
      → Covers offset place size (snoc ps p)
      → p.size ≤ size
  Covers-snoc offset place size [] p c = c.2
  Covers-snoc offset place size (q ∷ ps) p c =
      omega (arith, Covers-snoc (offset + q.size) (place + q.size) (size - q.size) ps p c.3)

  get_all-full :
      (offset place size ret : ℕ) (ps : List Piece) (p : Piece)
      → size + ret < u64_mod + p.size
      → Covers offset place size (snoc ps p)
      → All IsFull (snoc ps p)
      → p.size ≤ ret
      → get_all op ps ret ≡ ok (size + ret - p.size)
  unfolding get_all
  get_all-full offset place size ret [] p b c f h = ground arith
  get_all-full offset place size ret (q ∷ ps) p b c f h =
      let left = Covers-snoc (offset + q.size) (place + q.size) (size - q.size) ps p c.3 in
      let sum : add64 ret q.size ≡ ret + q.size =
        add64_exact ret q.size (omega (arith, c.2, left)) in
      rw (f.0, sum)
        (get_all-full (offset + q.size) (place + q.size) (size - q.size) (ret + q.size) ps p
            (omega (arith, c.2)) c.3 f.1 (omega arith)
          ∙ ground (arith, c.2))

  All-snoc : (P : Piece → Type 0) (ps : List Piece) (p : Piece) → All P (snoc ps p) → P p
  All-snoc P [] p a = a.0
  All-snoc P (q ∷ ps) p a = All-snoc P ps p a.1

  last_task-full :
      (p : Piece) (ps : List Piece) (last : Piece)
      → IsBounded p
      → IsCovered p (snoc ps last)
      → All IsFull (snoc ps last)
      → last_task op ps last ≡ ok p.size
  unfolding last_task
  last_task-full p ps last b c f = rw (All-snoc IsFull ps last f) (
      get_all-full p.file_offset p.place p.size last.size ps last (omega (arith, b.0)) c f
        (omega arith)
      ∙ ground arith)

  -- One of the tasks failed with `e`.
  abbrev pub HasFailed : Error → List Piece → Type 0
  HasFailed e [] = ⊥
  HasFailed e (p ∷ ps) = IsFailed e p ⊎ HasFailed e ps

  HasFailed-last :
      (e : Error) (ps : List Piece) (p : Piece) → IsFailed e p → HasFailed e (snoc ps p)
  HasFailed-last e [] p f = inl f
  HasFailed-last e (q ∷ ps) p f = inr (HasFailed-last e ps p f)

  get_all-HasFailed :
      (e : Error) (ps : List Piece) (p : Piece) (ret : ℕ)
      → get_all op ps ret ≡ err e
      → HasFailed e (snoc ps p)
  unfolding get_all
  get_all-HasFailed e [] p ret h = absurd (ground arith)
  get_all-HasFailed e (q ∷ ps) p ret h = elim (Result-cases (op q)) [
    | inl (n, said) ↦ inr (get_all-HasFailed e ps p (add64 ret n) (ground arith))
    | inr (f, said) ↦ inl (ground arith)
  ]

  last_task-HasFailed :
      (e : Error) (ps : List Piece) (p : Piece)
      → last_task op ps p ≡ err e
      → HasFailed e (snoc ps p)
  unfolding last_task
  last_task-HasFailed e ps p h = elim (Result-cases (op p)) [
    | inl (n, said) ↦ get_all-HasFailed e ps p n (ground arith)
    | inr (f, said) ↦ HasFailed-last e ps p (ground arith)
  ]

  module _ (page_size : ℕ) (opts : ParallelIoOptions) (task_size : ℕ) (p : Piece) (c : Completion)
      (made : parallel_io page_size op opts task_size p ≡ ok c) where
    -- If every task transfers all of its bytes the future gives the size of the range, and that is what
    -- the recorder is told, once. The range ends below 2^64.
    pub parallel_io_complete :
        IsBounded p
        → All IsFull c.tasks
        → (c.result ≡ ok p.size)
          × (c.observations ≡ (if opts.has_recorder then finish p.size ∷ [] else []))
    unfolding parallel_io last_task
    parallel_io_complete b full =
        let plan = tasks_of page_size opts task_size p in
        let covered = (parallel_io-IsCovered page_size op opts task_size p c b made).0 in
        let same : c.tasks ≡ snoc plan.0 plan.1 = ground arith in
        let ran : c.result ≡ last_task op plan.0 plan.1 = ground arith in
        let seen : c.observations ≡ observe opts.has_recorder (last_task op plan.0 plan.1) =
          ground arith in
        let done : last_task op plan.0 plan.1 ≡ ok p.size =
          last_task-full p plan.0 plan.1 b (rw (← same) covered) (rw (← same) full) in
        (ran ∙ done, seen ∙ rw done refl)

    -- If the future throws, it throws what one of the tasks threw, and the recorder is told once that
    -- the operation failed.
    pub parallel_io_failed :
        (e : Error)
        → c.result ≡ err e
        → HasFailed e c.tasks
          × (c.observations ≡ (if opts.has_recorder then finish_with_failure ∷ [] else []))
    unfolding parallel_io
    parallel_io_failed e thrown =
        let plan = tasks_of page_size opts task_size p in
        let same : c.tasks ≡ snoc plan.0 plan.1 = ground arith in
        let ran : c.result ≡ last_task op plan.0 plan.1 = ground arith in
        let seen : c.observations ≡ observe opts.has_recorder (last_task op plan.0 plan.1) =
          ground arith in
        let failed : last_task op plan.0 plan.1 ≡ err e = sym ran ∙ thrown in
        (rw same (last_task-HasFailed e plan.0 plan.1 failed), seen ∙ rw failed refl)
