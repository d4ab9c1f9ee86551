-- ===== src/TransferPlan/Build/Group.antt =====
-- Grouping and sorting keep every request that is not empty, once, in a group of its own key.
use kvikio.Base.{
  ℕ, zero, suc, ◌+◌, ◌<◌, ◌≡◌, refl, sym, ap, ◌∙◌, inl, inr, List, [], ◌∷◌, ◌++◌, length, get_or,
  modify, count, count-append, ◌==◌, if◌then◌else◌, Bool-cases, Option-cases, subst, arith,
}
use native.Mathlib.Nat.{add-zero}
use kvikio.TransferPlan.{TransferPlanRequest, null_request, request_at}
use kvikio.TransferPlan.Merge.{size_of}
use kvikio.TransferPlan.Build.{
  GroupKey, key_of, Groups, find_slot, try_emplace, add_request, group_from, group_requests,
}
use kvikio.TransferPlan.Build.Slots.{
  HasKey, Keyed, SlotOf, Sound, Keyed-length, Keyed-snoc, Keyed-modify, SlotOf-last, slots-snoc,
  find_slot-SlotOf,
}

suc_plus : (j k : ℕ) → suc j + k ≡ j + suc k
suc_plus j k = omega arith

abbrev pub concat : List (List ℕ) → List ℕ
concat [] = []
concat (group ∷ groups) = group ++ concat groups

module _ (requests : List TransferPlanRequest) where
  -- After `try_emplace` the key has a slot, and no group has changed but for a new empty one.
  record Emplaced (key : GroupKey) (g h : Groups) (slot : ℕ) : Type 0 where
    keys : List GroupKey
    sound : Sound requests keys h
    found : SlotOf keys key slot
    same : (i : ℕ) → count i (concat h.groups) ≡ count i (concat g.groups)

  concat-snoc : (groups : List (List ℕ)) → concat (groups ++ [] ∷ []) ≡ concat groups
  concat-snoc [] = refl
  concat-snoc (group ∷ groups) = ap (λ xs. group ++ xs) (concat-snoc groups)

  try_emplace-Emplaced :
      (keys : List GroupKey) (key : GroupKey) (g : Groups)
      → Sound requests keys g
      → Emplaced key g (try_emplace key g).0 (try_emplace key g).1
  unfolding try_emplace
  try_emplace-Emplaced keys key g sound = elim (Option-cases (find_slot key g.group_slot)) [
    | inl missing ↦
        rw (missing, try_emplace)
          (record {
            keys = keys ++ key ∷ [];
            sound = record {
              keyed = Keyed-snoc requests keys g.groups key sound.keyed;
              slots = (
                subst (SlotOf (keys ++ key ∷ []) key)
                    (Keyed-length requests keys g.groups sound.keyed)
                    (SlotOf-last requests keys key),
                slots-snoc requests keys key g.group_slot sound.slots,
              );
            };
            found =
                subst (SlotOf (keys ++ key ∷ []) key)
                  (Keyed-length requests keys g.groups sound.keyed) (SlotOf-last requests keys key);
            same = λ i. ap (count i) (concat-snoc g.groups);
          })
    | inr (slot, found) ↦
        rw (found, try_emplace)
          (record {
            keys = keys;
            sound = sound;
            found = find_slot-SlotOf requests keys key g.group_slot slot sound.slots found;
            same = λ i. refl;
          })
  ]

  count-modify :
      (i j : ℕ) (groups : List (List ℕ)) (slot : ℕ)
      → slot < length groups
      → count i (concat (modify groups slot (λ group. group ++ j ∷ [])))
        ≡ (if j == i then 1 else 0) + count i (concat groups)
  count-modify i j [] slot h = absurd (omega arith)
  count-modify i j (group ∷ groups) zero h = omega (
    arith,
    count-append i (group ++ j ∷ []) (concat groups),
    count-append i group (j ∷ []),
    count-append i group (concat groups),
  )
  count-modify i j (group ∷ groups) (suc slot) h = omega (
    arith,
    count-append i group (concat (modify groups slot (λ group. group ++ j ∷ []))),
    count-append i group (concat groups),
    count-modify i j groups slot (omega arith),
  )

  -- How often the loop adds `i` for the requests from index `j` on.
  abbrev added : ℕ → ℕ → List TransferPlanRequest → ℕ
  added i j [] = 0
  added i j (r ∷ rs) = (if r.size == 0 then 0 else if j == i then 1 else 0) + added i (suc j) rs

  add_request_lem :
      (keys : List GroupKey) (j : ℕ) (r : TransferPlanRequest) (g : Groups)
      → request_at requests j ≡ r
      → Sound requests keys g
      → (keys' : List GroupKey) × Sound requests keys' (add_request j r g)
        × ((i : ℕ)
            → count i (concat (add_request j r g).groups)
              ≡ (if r.size == 0 then 0 else if j == i then 1 else 0) + count i (concat g.groups))
  unfolding add_request
  add_request_lem keys j r g same sound = elim (Bool-cases (r.size == 0)) [
    | inl empty ↦ rw empty (keys, sound, λ i. omega arith)
    | inr filled ↦
        let e = try_emplace-Emplaced keys (key_of r) g sound in
        let slot = (try_emplace (key_of r) g).1 in
        let member : HasKey requests (key_of r) j = rw same (refl, refl, ground arith) in
        rw filled (
          e.keys,
          record {
            keyed =
                Keyed-modify requests e.keys (try_emplace (key_of r) g).0.groups slot j
                  e.sound.keyed e.found.0 (subst (λ k. HasKey requests k j) (sym e.found.1) member);
            slots = e.sound.slots;
          },
          λ i.
              count-modify i j (try_emplace (key_of r) g).0.groups slot
                (omega (arith, e.found.0, Keyed-length requests e.keys _ e.sound.keyed))
              ∙ ap (λ n. (if j == i then 1 else 0) + n) (e.same i),
        )
  ]

  group_from_lem :
      (keys : List GroupKey) (j : ℕ) (rs : List TransferPlanRequest) (g : Groups)
      → ((k : ℕ) → request_at requests (j + k) ≡ get_or rs k null_request)
      → Sound requests keys g
      → (keys' : List GroupKey) × Sound requests keys' (group_from j rs g)
        × ((i : ℕ)
            → count i (concat (group_from j rs g).groups)
              ≡ added i j rs + count i (concat g.groups))
  unfolding group_from
  group_from_lem keys j [] g link sound = (keys, sound, λ i. omega arith)
  group_from_lem keys j (r ∷ rs) g link sound =
      let here : request_at requests j ≡ r = ap (request_at requests) (sym (add-zero j)) ∙ link 0 in
      let step = add_request_lem keys j r g here sound in
      let rest =
        group_from_lem step.0 (suc j) rs (add_request j r g)
          (λ k. ap (request_at requests) (suc_plus j k) ∙ link (suc k)) step.1 in
      (rest.0, rest.1, λ i. omega (arith, rest.2 i, step.2 i))

  added_below : (i j : ℕ) (rs : List TransferPlanRequest) → i < j → added i j rs ≡ 0
  added_below i j [] h = refl
  added_below i j (r ∷ rs) h = ground (arith, added_below i (suc j) rs)

  added_lem :
      (k j : ℕ) (rs : List TransferPlanRequest)
      → added (j + k) j rs ≡ (if (get_or rs k null_request).size == 0 then 0 else 1)
  added_lem k j [] = refl
  added_lem zero j (r ∷ rs) = ground (arith, added_below (j + 0) (suc j) rs)
  added_lem (suc k) j (r ∷ rs) =
      let shift : added (j + suc k) (suc j) rs ≡ added (suc j + k) (suc j) rs =
        ap (λ n. added n (suc j) rs) (omega arith) in
      ground (arith, shift, added_lem k (suc j) rs)

  -- Each group holds requests of one key, and a request that is not empty is in the groups once.
  pub group_requests_lem :
      (keys : List GroupKey) × Keyed requests keys (group_requests requests)
      × ((i : ℕ)
          → count i (concat (group_requests requests)) ≡ (if size_of requests i == 0 then 0 else 1))
  unfolding group_requests
  group_requests_lem =
      let g : Groups = record { group_slot = []; groups = [] } in
      let (keys, sound, counts) =
        group_from_lem [] 0 requests g (λ k. ap (request_at requests) (omega arith))
          (record { keyed = tt; slots = tt }) in
      (
        keys,
        sound.keyed,
        λ i.
            let shift : added i 0 requests ≡ added (0 + i) 0 requests =
              ap (λ n. added n 0 requests) (omega arith) in
            counts i ∙ omega (arith, shift, added_lem i 0 requests),
      )
