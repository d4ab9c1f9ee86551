-- ===== src/Reactor/Shards/Cap.antt =====
-- The cap of a shard, over any sequence of gets and returns by the reactor's thread and by the
-- callbacks of the driver.
use kvikio.Base.{
  ℕ, ◌+◌, ◌-◌, ◌≤◌, ◌<◌, ◌≡◌, refl, inl, inr, Option, none, some, List, [], ◌∷◌, length, leb,
  Bool-cases, Option-cases, add64, add64_exact, sub64_exact, u64_mod, Result, ok, Error, arith,
}
use kvikio.Reactor.{Shard}
use kvikio.Reactor.Shards.{
  empty_shard, drop_stale, get_from, try_get, recycle_now, recycle_after, recycle_callback,
}

-- The shard, the buffers that its clients hold, and those that callbacks have still to return.
pub record Lending : Type 0 where
  pub shard : Shard
  pub held : ℕ
  pub copying : ℕ

abbrev pub lent : Result (Option ℕ) → ℕ
lent (ok (some size)) = 1
lent _ = 0

-- A buffer is given back by who holds it.
pub data Step (cap : ℕ) (s : Lending) : Lending → Type 0 where
  get :
      (current : ℕ) (failure : Option Error)
      → Step cap s (record s {
        shard = (try_get (some cap) current failure s.shard).0;
        held = s.held + lent (try_get (some cap) current failure s.shard).1;
      })
  give_back :
      (size : ℕ)
      → 0 < s.held
      → Step cap s (record s { shard = recycle_now size s.shard; held = s.held - 1 })
  copy :
      0 < s.held
      → Step cap s (record {
        shard = (recycle_after none s.shard).0;
        held = s.held - 1;
        copying = s.copying + 1;
      })
  copy_failed :
      (e : Error)
      → 0 < s.held
      → Step cap s (record s { shard = (recycle_after (some e) s.shard).0; held = s.held - 1 })
  copied :
      (size : ℕ)
      → 0 < s.copying
      → Step cap s (record s { shard = recycle_callback size s.shard; copying = s.copying - 1 })

pub data Reach (cap : ℕ) : Lending → Type 0 where
  fresh : Reach cap (record { shard = empty_shard; held = 0; copying = 0 })
  next : {s t : Lending} → Reach cap s → Step cap s t → Reach cap t

pub record Inv (cap : ℕ) (s : Lending) : Type 0 where
  pub lent_out : s.shard.checked_out ≡ s.held
  pub copied_out : s.shard.in_flight ≡ s.copying
  pub within : length s.shard.free + s.shard.checked_out + s.shard.in_flight ≤ cap

length-drop_stale : (current : ℕ) (free : List ℕ) → length (drop_stale current free) ≤ length free
unfolding drop_stale
length-drop_stale current [] = omega arith
length-drop_stale current (size ∷ free) = ground (arith, length-drop_stale current free)

get_from-Inv :
    (cap current : ℕ) (failure : Option Error) (s : Lending) (free : List ℕ)
    → cap < u64_mod
    → Inv cap s
    → length free ≤ length s.shard.free
    → Inv cap (record s {
      shard = (get_from (some cap) current failure s.shard free).0;
      held = s.held + lent (get_from (some cap) current failure s.shard free).1;
    })
unfolding get_from
get_from-Inv cap current failure s (size ∷ free) few inv short =
    let more = add64_exact s.shard.checked_out 1 (omega (arith, inv.within)) in
    record {
      lent_out = omega (arith, more, inv.lent_out);
      copied_out = inv.copied_out;
      within = omega (arith, more, inv.within);
    }
get_from-Inv cap current failure s [] few inv short =
    elim (Bool-cases (leb cap (0 + s.shard.checked_out + s.shard.in_flight))) [
      | inl full ↦ rw full (record {
        lent_out = omega (arith, inv.lent_out);
        copied_out = inv.copied_out;
        within = omega (arith, inv.within);
      })
      | inr room ↦
          let below : s.shard.checked_out + s.shard.in_flight < cap = ground arith in
          let more = add64_exact s.shard.checked_out 1 (omega (arith, below)) in
          rw room (elim (Option-cases failure) [
            | inl fine ↦ rw fine (record {
              lent_out = omega (arith, more, inv.lent_out);
              copied_out = inv.copied_out;
              within = omega (arith, more, below);
            })
            | inr (e, fails) ↦
                let again =
                  sub64_exact (add64 s.shard.checked_out 1) 1 (omega (arith, more, below))
                    (omega (arith, more)) in
                rw fails (record {
                  lent_out = omega (arith, more, again, inv.lent_out);
                  copied_out = inv.copied_out;
                  within = omega (arith, more, again, below);
                })
          ])
    ]

get-Inv :
    (cap current : ℕ) (failure : Option Error) (s : Lending)
    → cap < u64_mod
    → Inv cap s
    → Inv cap (record s {
      shard = (try_get (some cap) current failure s.shard).0;
      held = s.held + lent (try_get (some cap) current failure s.shard).1;
    })
unfolding try_get
get-Inv cap current failure s few inv =
    get_from-Inv cap current failure s (drop_stale current s.shard.free) few inv
      (length-drop_stale current s.shard.free)

Step-Inv : (cap : ℕ) {s t : Lending} → cap < u64_mod → Inv cap s → Step cap s t → Inv cap t
unfolding recycle_now recycle_after recycle_callback
Step-Inv cap {s} few inv (get current failure) = get-Inv cap current failure s few inv
Step-Inv cap {s} few inv (give_back size some_held) =
    let less =
      sub64_exact s.shard.checked_out 1 (omega (arith, inv.within)) (omega (arith, inv.lent_out)) in
    record {
      lent_out = omega (arith, less, inv.lent_out);
      copied_out = inv.copied_out;
      within = omega (arith, less, inv.within, inv.lent_out);
    }
Step-Inv cap {s} few inv (copy some_held) =
    let less =
      sub64_exact s.shard.checked_out 1 (omega (arith, inv.within)) (omega (arith, inv.lent_out)) in
    let more = add64_exact s.shard.in_flight 1 (omega (arith, inv.within, inv.lent_out)) in
    record {
      lent_out = omega (arith, less, inv.lent_out);
      copied_out = omega (arith, more, inv.copied_out);
      within = omega (arith, less, more, inv.within, inv.lent_out);
    }
Step-Inv cap {s} few inv (copy_failed e some_held) =
    let less =
      sub64_exact s.shard.checked_out 1 (omega (arith, inv.within)) (omega (arith, inv.lent_out)) in
    let more = add64_exact s.shard.in_flight 1 (omega (arith, inv.within, inv.lent_out)) in
    let again =
      sub64_exact (add64 s.shard.in_flight 1) 1 (omega (arith, more, inv.within, inv.lent_out))
        (omega (arith, more)) in
    record {
      lent_out = omega (arith, less, inv.lent_out);
      copied_out = omega (arith, more, again, inv.copied_out);
      within = omega (arith, less, more, again, inv.within, inv.lent_out);
    }
Step-Inv cap {s} few inv (copied size some_copying) =
    let less =
      sub64_exact s.shard.in_flight 1 (omega (arith, inv.within)) (omega (arith, inv.copied_out)) in
    record {
      lent_out = inv.lent_out;
      copied_out = omega (arith, less, inv.copied_out);
      within = omega (arith, less, inv.within, inv.copied_out);
    }

-- Over any sequence of gets and returns in which buffers are given back by who holds them, the free
-- buffers, those lent out and those being copied stay within the cap together, and the counters of the
-- shard are the numbers of buffers that its clients hold and that callbacks have still to return.
pub cap_holds : {cap : ℕ} {s : Lending} → cap < u64_mod → Reach cap s → Inv cap s
cap_holds few fresh = record { lent_out = refl; copied_out = refl; within = omega arith }
cap_holds {cap} few (next r step) = Step-Inv cap few (cap_holds few r) step
