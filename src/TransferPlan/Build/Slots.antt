-- ===== src/TransferPlan/Build/Slots.antt =====
-- The keys of the groups, and the slots of `group_slot`.
use kvikio.Base.{
  ℕ, zero, suc, ◌<◌, ◌≡◌, refl, ap, ◌∙◌, inl, inr, true, some, List, [], ◌∷◌, ◌++◌, length, get_or,
  modify, All, Bool-cases, subst, arith,
}
use kvikio.TransferPlan.{TransferPlanRequest}
use kvikio.TransferPlan.Merge.{IsMember}
use kvikio.TransferPlan.Build.{GroupKey, key_eq, Groups, find_slot}

key_eq→eq : (a b : GroupKey) → key_eq a b ≡ true → a ≡ b
key_eq→eq a b h = ground arith

abbrev pub no_key : GroupKey
no_key = record { handle = 0; cuda_context = 0 }

abbrev pub SlotOf : List GroupKey → GroupKey → ℕ → Type 0
SlotOf keys key slot = (slot < length keys) × (get_or keys slot no_key ≡ key)

module _ (requests : List TransferPlanRequest) where
  abbrev pub HasKey : GroupKey → ℕ → Type 0
  HasKey key = IsMember requests key.handle key.cuda_context

  -- `keys` lists the key of each group.
  abbrev pub Keyed : List GroupKey → List (List ℕ) → Type 0
  Keyed [] [] = Unit
  Keyed [] (group ∷ groups) = ⊥
  Keyed (key ∷ keys) [] = ⊥
  Keyed (key ∷ keys) (group ∷ groups) = All (HasKey key) group × Keyed keys groups

  pub record Sound (keys : List GroupKey) (g : Groups) : Type 0 where
    pub keyed : Keyed keys g.groups
    pub slots : All (λ entry. SlotOf keys entry.0 entry.1) g.group_slot

  pub Keyed-length :
      (keys : List GroupKey) (groups : List (List ℕ))
      → Keyed keys groups
      → length keys ≡ length groups
  Keyed-length [] [] h = refl
  Keyed-length [] (group ∷ groups) h = absurd h
  Keyed-length (key ∷ keys) [] h = absurd h
  Keyed-length (key ∷ keys) (group ∷ groups) h = ap suc (Keyed-length keys groups h.1)

  pub Keyed-snoc :
      (keys : List GroupKey) (groups : List (List ℕ)) (key : GroupKey)
      → Keyed keys groups
      → Keyed (keys ++ key ∷ []) (groups ++ [] ∷ [])
  Keyed-snoc [] [] key h = (tt, tt)
  Keyed-snoc [] (group ∷ groups) key h = absurd h
  Keyed-snoc (k ∷ keys) [] key h = absurd h
  Keyed-snoc (k ∷ keys) (group ∷ groups) key h = (h.0, Keyed-snoc keys groups key h.1)

  All-snoc : (P : ℕ → Type 0) (xs : List ℕ) (x : ℕ) → All P xs → P x → All P (xs ++ x ∷ [])
  All-snoc P [] x h p = (p, tt)
  All-snoc P (y ∷ xs) x h p = (h.0, All-snoc P xs x h.1 p)

  pub Keyed-modify :
      (keys : List GroupKey) (groups : List (List ℕ)) (slot i : ℕ)
      → Keyed keys groups
      → slot < length keys
      → HasKey (get_or keys slot no_key) i
      → Keyed keys (modify groups slot (λ group. group ++ i ∷ []))
  Keyed-modify [] groups slot i h lt k = absurd (omega arith)
  Keyed-modify (key ∷ keys) [] slot i h lt k = h
  Keyed-modify (key ∷ keys) (group ∷ groups) zero i h lt k =
      (All-snoc (HasKey key) group i h.0 k, h.1)
  Keyed-modify (key ∷ keys) (group ∷ groups) (suc slot) i h lt k =
      (h.0, Keyed-modify keys groups slot i h.1 (omega arith) k)

  SlotOf-snoc :
      (keys : List GroupKey) (last key : GroupKey) (slot : ℕ)
      → SlotOf keys key slot
      → SlotOf (keys ++ last ∷ []) key slot
  SlotOf-snoc [] last key slot h = absurd (omega arith)
  SlotOf-snoc (k ∷ keys) last key zero h = (omega arith, h.1)
  SlotOf-snoc (k ∷ keys) last key (suc slot) h =
      let rest = SlotOf-snoc keys last key slot (omega arith, h.1) in (omega arith, rest.1)

  pub SlotOf-last :
      (keys : List GroupKey) (key : GroupKey) → SlotOf (keys ++ key ∷ []) key (length keys)
  SlotOf-last [] key = (omega arith, refl)
  SlotOf-last (k ∷ keys) key = let rest = SlotOf-last keys key in (omega arith, rest.1)

  pub slots-snoc :
      (keys : List GroupKey) (last : GroupKey) (slots : List (GroupKey × ℕ))
      → All (λ entry. SlotOf keys entry.0 entry.1) slots
      → All (λ entry. SlotOf (keys ++ last ∷ []) entry.0 entry.1) slots
  slots-snoc keys last [] h = tt
  slots-snoc keys last (entry ∷ slots) h =
      (SlotOf-snoc keys last entry.0 entry.1 h.0, slots-snoc keys last slots h.1)

  pub find_slot-SlotOf :
      (keys : List GroupKey) (key : GroupKey) (slots : List (GroupKey × ℕ)) (slot : ℕ)
      → All (λ entry. SlotOf keys entry.0 entry.1) slots
      → find_slot key slots ≡ some slot
      → SlotOf keys key slot
  unfolding find_slot
  find_slot-SlotOf keys key [] slot h e = absurd (ground arith)
  find_slot-SlotOf keys key ((k, s) ∷ slots) slot h e = elim (Bool-cases (key_eq k key)) [
    | inl hit ↦
        let key_same = key_eq→eq k key hit in
        let slot_same : s ≡ slot = ground arith in
        subst (λ n. SlotOf keys key n) slot_same (h.0.0, h.0.1 ∙ key_same)
    | inr miss ↦ find_slot-SlotOf keys key slots slot h.1 (ground arith)
  ]
