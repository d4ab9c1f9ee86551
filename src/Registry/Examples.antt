-- ===== src/Registry/Examples.antt =====
-- Two monitors of user-facing calls and one of transfers; the first is removed.
use kvikio.Base.{ℕ, ◌≡◌, ◌≢◌, refl, false, List, [], ◌∷◌, keep, ok, All, arith}
use kvikio.Registry.{
  ObservationKind, logical, physical, is_kind, Entry, Registry, add, remove, erase, notify,
  publish_count, count_of,
}
use kvikio.Registry.Notified.{Reach, fresh, next, adds, notify-remove}

abbrev an_entry : ℕ → ObservationKind → ℕ → Entry
an_entry id kind monitor = record { id = id; kind = kind; monitor = monitor }

abbrev holding : List Entry → ℕ → Registry
holding es n = record {
  monitors = es;
  next_id = n;
  logical_count = count_of logical es;
  physical_count = count_of physical es;
}

abbrev three : Registry
three = holding (an_entry 1 logical 70 ∷ an_entry 2 physical 80 ∷ an_entry 3 logical 90 ∷ []) 4

abbrev two : Registry
two = holding (an_entry 2 physical 80 ∷ an_entry 3 logical 90 ∷ []) 4

three_reached : Reach three
unfolding add publish_count
three_reached =
    next (next (next fresh (adds 70 1 logical _ refl)) (adds 80 2 physical _ refl))
      (adds 90 3 logical _ refl)

removed : remove false 1 three ≡ ok two
unfolding remove publish_count
removed = refl

notify-remove_example :
    (notify false logical two ≡ keep (λ e. is_kind e.kind logical) (erase 1 three.monitors))
    × All (λ e. e.id ≢ 1) (notify false logical two)
notify-remove_example = notify-remove 1 logical two three_reached removed (omega arith)
