-- ===== src/IdTable/Update.antt =====
-- user/include/bunix/id_table.h: `bunix_id_set` and `bunix_id_remove`.
use mathlib.Core.Path.{subst}
use bunix.Common.{
  ℕ, suc, ◌<◌, ◌≡◌, ◌∙◌, refl, ◌≢◌, ◌⊎◌, inl, inr, Bool, true, false, ◌||◌, Option, none, some,
  List, [], ◌∷◌, ◌==◌, length, arith, Bool-cases, Option-cases, ℕ_discrete,
}
use bunix.IdTable.{
  IdSlot, IdTable, empty_slot, get_from, bunix_id_get, replace, set_in, remove_in, bunix_id_set,
  bunix_id_remove,
}
use bunix.IdTable.Laws.{WellFormed, Apart, holds, used}

-- Overwriting the slot of an identifier.
replace-none :
    (id : ℕ) (new : IdSlot) (ss : List IdSlot) → replace id new ss ≡ none → holds id ss ≡ false
unfolding replace
replace-none id new [] e = refl
replace-none id new (s ∷ ss) e = elim (Option-cases (replace id new ss)) [
  | inl q ↦ ground (arith, e, q, replace-none id new ss q)
  | inr (r, q) ↦ ground (arith, e, q)
]

get_from_none : (id : ℕ) (ss : List IdSlot) → holds id ss ≡ false → get_from id ss ≡ 0
unfolding get_from
get_from_none id [] h = refl
get_from_none id (s ∷ ss) h = ground (arith, get_from_none id ss)

module _ (id : ℕ) (new : IdSlot) (set : id ≢ 0) where
  holds-replace :
      (j : ℕ) (ss ss' : List IdSlot)
      → replace id new ss ≡ some ss'
      → j ≢ id
      → j ≢ new.id
      → holds j ss' ≡ holds j ss
  unfolding replace
  holds-replace j [] ss' e h k = ground arith
  holds-replace j (s ∷ ss) ss' e h k = elim (Option-cases (replace id new ss)) [
    | inl q ↦ ground (arith, e, q)
    | inr (r, q) ↦ ground (arith, e, q, holds-replace j ss r q h k)
  ]

  get_from-replace_ne :
      (j : ℕ) (ss ss' : List IdSlot)
      → replace id new ss ≡ some ss'
      → j ≢ id
      → j ≢ new.id
      → get_from j ss' ≡ get_from j ss
  unfolding replace get_from
  get_from-replace_ne j [] ss' e h k = ground arith
  get_from-replace_ne j (s ∷ ss) ss' e h k = elim (Option-cases (replace id new ss)) [
    | inl q ↦ ground (arith, e, q)
    | inr (r, q) ↦ ground (arith, e, q, get_from-replace_ne j ss r q h k)
  ]

  replace_held :
      (ss ss' : List IdSlot)
      → replace id new ss ≡ some ss'
      → (holds id ss ≡ true) × (length ss' ≡ length ss)
  unfolding replace
  replace_held [] ss' e = ground arith
  replace_held (s ∷ ss) ss' e = elim (Option-cases (replace id new ss)) [
    | inl q ↦ ground (arith, e, q)
    | inr (r, q) ↦ ground (arith, e, q, replace_held ss r q)
  ]

  keep_apart :
      (i : ℕ) (ss r : List IdSlot)
      → replace id new ss ≡ some r
      → i ≢ id
      → (new.id ≡ 0) ⊎ (new.id ≡ id)
      → (i ≡ 0) ⊎ (holds i ss ≡ false)
      → (i ≡ 0) ⊎ (holds i r ≡ false)
  keep_apart i ss r q ne shape old = elim (ℕ_discrete i 0) [
    | yes z ↦ inl z
    | no nz ↦ ground (arith, old, nz, shape, ne, holds-replace i ss r q)
  ]

-- An emptied slot: the identifier was in that slot alone.
module _ (id : ℕ) (set : id ≢ 0) where
  emptied :
      (b : ℕ) (ss ss' : List IdSlot)
      → replace id empty_slot ss ≡ some ss'
      → 0 < b
      → Apart b ss
      → Apart b ss' × (holds id ss' ≡ false) × (suc (used ss') ≡ used ss)
  unfolding replace
  emptied b [] ss' e p a = ground arith
  emptied b (s ∷ ss) ss' e p a = elim (Bool-cases (s.id == id)) [
    | inl hit ↦
        let q : empty_slot ∷ ss ≡ ss' = ground (arith, e, hit) in
        subst (λ l. Apart b l × (holds id l ≡ false) × (suc (used l) ≡ used (s ∷ ss))) q
          ((p, inl refl, a.2), ground (arith, a, hit, set), ground (arith, hit, set))
    | inr miss ↦ elim (Option-cases (replace id empty_slot ss)) [
      | inl q ↦ ground (arith, e, q, miss)
      | inr (r, q) ↦
          let w : s ∷ r ≡ ss' = ground (arith, e, q, miss) in
          let (x, y, z) = emptied b ss r q p a.2 in
          subst (λ l. Apart b l × (holds id l ≡ false) × (suc (used l) ≡ used (s ∷ ss))) w
            (
              (
                a.0,
                keep_apart id empty_slot set s.id ss r q (ground (arith, miss)) (inl refl) a.1,
                x,
              ),
              ground (arith, y, miss),
              ground (arith, z),
            )
    ]
  ]

-- An overwritten value: the identifiers stay.
module _ (id value : ℕ) (set : id ≢ 0) where
  abbrev over : IdSlot
  over = record { id = id; value = value }

  overwritten :
      (b : ℕ) (ss ss' : List IdSlot)
      → replace id over ss ≡ some ss'
      → Apart b ss
      → Apart b ss'
        × ((j : ℕ) → holds j ss' ≡ holds j ss)
        × (used ss' ≡ used ss)
        × (get_from id ss' ≡ value)
  unfolding replace get_from
  overwritten b [] ss' e a = ground arith
  overwritten b (s ∷ ss) ss' e a = elim (Bool-cases (s.id == id)) [
    | inl hit ↦
        let q : over ∷ ss ≡ ss' = ground (arith, e, hit) in
        subst
          (λ l.
            Apart b l
            × ((j : ℕ) → holds j l ≡ holds j (s ∷ ss))
            × (used l ≡ used (s ∷ ss))
            × (get_from id l ≡ value))
          q
          (
            (ground (arith, a, hit), ground (arith, a, hit), a.2),
            (λ j. ground (arith, hit)),
            ground (arith, hit),
            ground arith,
          )
    | inr miss ↦ elim (Option-cases (replace id over ss)) [
      | inl q ↦ ground (arith, e, q, miss)
      | inr (r, q) ↦
          let w : s ∷ r ≡ ss' = ground (arith, e, q, miss) in
          let (x, y, z, g) = overwritten b ss r q a.2 in
          subst
            (λ l.
              Apart b l
              × ((j : ℕ) → holds j l ≡ holds j (s ∷ ss))
              × (used l ≡ used (s ∷ ss))
              × (get_from id l ≡ value))
            w
            (
              (a.0, ground (arith, a, y s.id), x),
              (λ j. ground (arith, y j)),
              ground (arith, z),
              ground (arith, g, miss),
            )
    ]
  ]

-- What a change of the table through one identifier did: it failed, since the identifier is not in
-- use, or the table now has `value` under it.
abbrev pub Changed : IdTable → ℕ → ℕ → Bool × IdTable → Type 0
Changed t id value (false, t') =
    (t' ≡ t) × (bunix_id_get t id ≡ 0) × ((id ≡ 0) ⊎ (holds id t.slots ≡ false))
Changed t id value (true, t') =
    WellFormed t'
    × (holds id t.slots ≡ true)
    × (bunix_id_get t' id ≡ value)
    × ((j : ℕ) → j ≢ id → bunix_id_get t' j ≡ bunix_id_get t j)

get_zero : (t : IdTable) (id : ℕ) → (id ≡ 0) ⊎ (holds id t.slots ≡ false) → bunix_id_get t id ≡ 0
unfolding bunix_id_get
get_zero t id (inl z) = ground arith
get_zero t id (inr h) = ground (arith, get_from_none id t.slots h)

get_slots : (t : IdTable) (id : ℕ) → id ≢ 0 → bunix_id_get t id ≡ get_from id t.slots
unfolding bunix_id_get
get_slots t id h = ground arith

get-others :
    (t t' : IdTable) (id j : ℕ)
    → (j ≢ 0 → get_from j t'.slots ≡ get_from j t.slots)
    → bunix_id_get t' j ≡ bunix_id_get t j
unfolding bunix_id_get
get-others t t' id j same = elim (ℕ_discrete j 0) [
  | yes z ↦ ground arith
  | no nz ↦ ground (arith, same nz)
]

-- What a call of `bunix_id_remove` did; where it succeeds, the identifier is free.
abbrev pub Taken : IdTable → ℕ → Bool × IdTable → Type 0
Taken t id (false, t') = Changed t id 0 (false, t')
Taken t id (true, t') =
    (holds id t'.slots ≡ false) × (suc t'.count ≡ t.count) × Changed t id 0 (true, t')

module _ (t : IdTable) (id : ℕ) (v : WellFormed t) where
  remove_in-Taken :
      id ≢ 0
      → (r : Option (List IdSlot)) → replace id empty_slot t.slots ≡ r
      → Taken t id (remove_in t r)
  unfolding remove_in
  remove_in-Taken nz none q =
      let h = replace-none id empty_slot t.slots q in (refl, get_zero t id (inr h), inr h)
  remove_in-Taken nz (some slots) q =
      let (a, gone, fewer) = emptied id nz t.next_id t.slots slots q v.started v.apart in
      let (held, len) = replace_held id empty_slot nz t.slots slots q in
      (
        gone,
        ground (arith, fewer, v.counted),
        (
          record {
            apart = a;
            counted = ground (arith, fewer, v.counted);
            started = v.started;
            small = omega (arith, v.small, len);
            below = v.below;
          },
          held,
          get_zero _ id (inr gone),
          λ j ne.
              get-others t _ id j
                (λ jz. get_from-replace_ne id empty_slot nz j t.slots slots q ne jz),
        ),
      )

  -- On a well-formed table bunix_id_remove fails exactly for an identifier that is not in use,
  -- changing nothing; otherwise no slot has that identifier any more, the count is one less, every
  -- other identifier has the value that it had, and the table stays well formed.
  pub bunix_id_remove-Taken : Taken t id (bunix_id_remove t id)
  unfolding bunix_id_remove
  bunix_id_remove-Taken = elim (ℕ_discrete id 0) [
    | yes z ↦ rw z (refl, get_zero t 0 (inl refl), inl refl)
    | no nz ↦
        let e : (id == 0) ≡ false = ground (arith, nz) in
        rw e (remove_in-Taken nz (replace id empty_slot t.slots) refl)
  ]

  set_in-Changed :
      (value : ℕ)
      → id ≢ 0
      → (r : Option (List IdSlot)) → replace id (record { id = id; value = value }) t.slots ≡ r
      → Changed t id value (set_in t r)
  unfolding set_in
  set_in-Changed value nz none q =
      let h = replace-none id (record { id = id; value = value }) t.slots q in
      (refl, get_zero t id (inr h), inr h)
  set_in-Changed value nz (some slots) q =
      let (a, same, count, now) = overwritten id value nz t.next_id t.slots slots q v.apart in
      let (held, len) = replace_held id (record { id = id; value = value }) nz t.slots slots q in
      (
        record {
          apart = a;
          counted = omega (arith, count, v.counted);
          started = v.started;
          small = omega (arith, v.small, len);
          below = v.below;
        },
        held,
        get_slots _ id nz ∙ now,
        λ j ne. get-others t _ id j (λ jz.
            get_from-replace_ne id (record { id = id; value = value }) nz j t.slots slots q ne ne),
      )

  -- On a well-formed table bunix_id_set to a value that is not 0 fails exactly for an identifier
  -- that is not in use, changing nothing; otherwise that identifier, and no other, has the new
  -- value.
  pub bunix_id_set-Changed : (value : ℕ) → value ≢ 0 → Changed t id value (bunix_id_set t id value)
  unfolding bunix_id_set
  bunix_id_set-Changed value vz = elim (ℕ_discrete id 0) [
    | yes z ↦ rw z (refl, get_zero t 0 (inl refl), inl refl)
    | no nz ↦
        let e : (id == 0 || value == 0) ≡ false = ground (arith, nz, vz) in
        rw e (set_in-Changed value nz (replace id (record { id = id; value = value }) t.slots) refl)
  ]
