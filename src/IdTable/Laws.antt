-- ===== src/IdTable/Laws.antt =====
-- user/include/bunix/id_table.h: identifiers are fresh, and the table is a map from them to values.
use bunix.Common.{
  ℕ, zero, suc, ◌+◌, ◌*◌, ◌-◌, ◌<◌, ◌≤◌, ◌^◌, ◌≡◌, refl, sym, ◌≢◌, ◌⊎◌, inl, inr, Bool, true, false,
  ◌||◌, Option, none, some, List, [], ◌∷◌, ◌++◌, ◌==◌, ltb, if◌then◌else◌, length, replicate, mul64,
  u64_mod, arith, Bool-cases, Option-cases,
}
use mathlib.Core.Path.{subst}
use bunix.IdTable.{
  IdSlot, IdTable, capacity, empty_slot, bunix_id_table_grow, bunix_id_table_ensure_space, fill,
  next_of, alloc_in, alloc_with, bunix_id_alloc, get_from, bunix_id_get,
}

-- Whether some slot has the identifier.
abbrev pub holds : ℕ → List IdSlot → Bool
holds id [] = false
holds id (s ∷ ss) = s.id == id || holds id ss

abbrev pub used : List IdSlot → ℕ
used [] = 0
used (s ∷ ss) = if s.id == 0 then used ss else suc (used ss)

-- No identifier but 0 is in two slots, and all are below a bound.
abbrev pub Apart : ℕ → List IdSlot → Type 0
Apart bound [] = Unit {0}
Apart bound (s ∷ ss) = (s.id < bound) × ((s.id ≡ 0) ⊎ (holds s.id ss ≡ false)) × Apart bound ss

-- `next_id` has not gone round, so it is above every identifier in use.
pub record WellFormed (t : IdTable) : Type 0 where
  pub apart : Apart t.next_id t.slots
  pub counted : t.count ≡ used t.slots
  pub started : 0 < t.next_id
  pub small : capacity t < 2 ^ 63
  pub below : t.next_id < u64_mod

pub used-le-length : (ss : List IdSlot) → used ss ≤ length ss
used-le-length [] = omega arith
used-le-length (s ∷ ss) = ground (arith, used-le-length ss)

-- A slot is free where fewer are used than there are.
fill_total :
    (id value : ℕ) (ss : List IdSlot)
    → used ss < length ss
    → (ss' : List IdSlot) × (fill id value ss ≡ some ss')
unfolding fill
fill_total id value [] h = absurd (omega arith)
fill_total id value (s ∷ ss) h = elim (Bool-cases (s.id == 0)) [
  | inl e ↦ (record { id = id; value = value } ∷ ss, rw e)
  | inr e ↦ let (ss', q) = fill_total id value ss (ground arith) in (s ∷ ss', rw (e, q))
]

holds_bound : (id bound : ℕ) (ss : List IdSlot) → Apart bound ss → bound ≤ id → holds id ss ≡ false
holds_bound id bound [] a h = refl
holds_bound id bound (s ∷ ss) a h = ground (arith, a, holds_bound id bound ss a.2 h)

Apart-mono : (b c : ℕ) (ss : List IdSlot) → b ≤ c → Apart b ss → Apart c ss
Apart-mono b c [] h a = tt
Apart-mono b c (s ∷ ss) h a = (omega (arith, a.0), a.1, Apart-mono b c ss h a.2)

holds-fill :
    (id value j : ℕ) (ss ss' : List IdSlot)
    → fill id value ss ≡ some ss'
    → j ≢ 0
    → holds j ss' ≡ (id == j || holds j ss)
unfolding fill
holds-fill id value j [] ss' e h = ground arith
holds-fill id value j (s ∷ ss) ss' e h = elim (Option-cases (fill id value ss)) [
  | inl q ↦ ground (arith, e, q)
  | inr (r, q) ↦ ground (arith, e, q, holds-fill id value j ss r q h)
]

fill-Apart :
    (id value : ℕ) (ss ss' : List IdSlot)
    → fill id value ss ≡ some ss'
    → Apart id ss
    → Apart (suc id) ss'
unfolding fill
fill-Apart id value [] ss' e a = ground arith
fill-Apart id value (s ∷ ss) ss' e a = elim (Bool-cases (s.id == 0)) [
  | inl z ↦
      let q : record { id = id; value = value } ∷ ss ≡ ss' = ground (arith, e, z) in
      subst (Apart (suc id)) q (
        omega arith,
        inr (holds_bound id id ss a.2 (omega arith)),
        Apart-mono id (suc id) ss (omega arith) a.2,
      )
  | inr z ↦ elim (Option-cases (fill id value ss)) [
    | inl q ↦ ground (arith, e, q, z)
    | inr (r, q) ↦
        let w : s ∷ r ≡ ss' = ground (arith, e, q, z) in
        subst (Apart (suc id)) w (
          omega (arith, a.0),
          ground (arith, a, z, holds-fill id value s.id ss r q),
          fill-Apart id value ss r q a.2,
        )
  ]
]

fill_counts :
    (id value : ℕ) (ss ss' : List IdSlot)
    → fill id value ss ≡ some ss'
    → id ≢ 0
    → (used ss' ≡ suc (used ss)) × (length ss' ≡ length ss)
unfolding fill
fill_counts id value [] ss' e h = ground arith
fill_counts id value (s ∷ ss) ss' e h = elim (Option-cases (fill id value ss)) [
  | inl q ↦ ground (arith, e, q)
  | inr (r, q) ↦ ground (arith, e, q, fill_counts id value ss r q h)
]

get_from-fill :
    (id value j : ℕ) (ss ss' : List IdSlot)
    → fill id value ss ≡ some ss'
    → holds id ss ≡ false
    → j ≢ 0
    → get_from j ss' ≡ (if id == j then value else get_from j ss)
unfolding fill get_from
get_from-fill id value j [] ss' e h n = ground arith
get_from-fill id value j (s ∷ ss) ss' e h n = elim (Option-cases (fill id value ss)) [
  | inl q ↦ ground (arith, e, q)
  | inr (r, q) ↦ ground (arith, e, q, h, n, get_from-fill id value j ss r q)
]

holds-grow :
    (k j : ℕ) (ss : List IdSlot) → j ≢ 0 → holds j (ss ++ replicate k empty_slot) ≡ holds j ss
holds-grow zero j [] h = refl
holds-grow (suc k) j [] h = ground (arith, holds-grow k j [])
holds-grow k j (s ∷ ss) h = ground (arith, holds-grow k j ss)

grow_keeps :
    (k b j : ℕ) (ss : List IdSlot)
    → Apart b ss
    → 0 < b
    → Apart b (ss ++ replicate k empty_slot)
      × (used (ss ++ replicate k empty_slot) ≡ used ss)
      × (length (ss ++ replicate k empty_slot) ≡ length ss + k)
grow_keeps zero b j [] a p = (tt, refl, omega arith)
grow_keeps (suc k) b j [] a p =
    let (x, y, z) = grow_keeps k b j [] a p in ((p, inl refl, x), y, omega (arith, z))
grow_keeps k b j (s ∷ ss) a p =
    let (x, y, z) = grow_keeps k b j ss a.2 p in
    ((a.0, ground (arith, a, holds-grow k s.id ss), x), ground (arith, y), omega (arith, z))

get_from-grow :
    (k j : ℕ) (ss : List IdSlot) → j ≢ 0 → get_from j (ss ++ replicate k empty_slot) ≡ get_from j ss
unfolding get_from
get_from-grow zero j [] h = refl
get_from-grow (suc k) j [] h = ground (arith, get_from-grow k j [])
get_from-grow k j (s ∷ ss) h = ground (arith, get_from-grow k j ss)

-- What `ensure_space` leaves: a table with the same contents and a slot to spare; or no memory.
abbrev Spacious : Bool → IdTable → Option IdTable → Type 0
Spacious memory t none = (memory ≡ false) × (t.count ≡ capacity t)
Spacious memory t (some g) =
    (g.next_id ≡ t.next_id)
    × (g.count ≡ t.count)
    × Apart g.next_id g.slots
    × (g.count ≡ used g.slots)
    × (used g.slots < capacity g)
    × (capacity g ≤ capacity t * 2 + 8)
    × ((j : ℕ) → j ≢ 0 → get_from j g.slots ≡ get_from j t.slots)

abbrev new_capacity : IdTable → ℕ
new_capacity t = if capacity t == 0 then 8 else mul64 (capacity t) 2

new_capacity_lem :
    (t : IdTable)
    → WellFormed t
    → (capacity t < new_capacity t) × (new_capacity t ≤ capacity t * 2 + 8)
new_capacity_lem t v = ground (arith, v.small)

ensure_space-Spacious :
    (memory : Bool) (t : IdTable)
    → WellFormed t
    → Spacious memory t (bunix_id_table_ensure_space memory t)
unfolding bunix_id_table_ensure_space
ensure_space-Spacious memory t v = elim (Bool-cases (ltb t.count (capacity t))) [
  | inl room ↦
      rw (room, bunix_id_table_ensure_space)
        (refl, refl, v.apart, v.counted, ground (arith, v.counted), omega arith, λ j h. refl)
  | inr full ↦
      rw (full, bunix_id_table_ensure_space)
        (grown memory (ground (arith, full, v.counted, used-le-length t.slots)))
]
  where
    grown :
        (memory : Bool) → t.count ≡ capacity t → Spacious memory t (bunix_id_table_grow memory t)
    grown false full = (refl, full)
    grown true full =
        let k = new_capacity t - capacity t in
        let (x, y, z) = grow_keeps k t.next_id 0 t.slots v.apart v.started in
        let (p, q) = new_capacity_lem t v in
        (
          refl,
          refl,
          x,
          omega (arith, y, v.counted),
          omega (arith, y, z, full, v.counted, p),
          omega (arith, z, p, q),
          λ j h. get_from-grow k j t.slots h,
        )

next_of_lem : (id : ℕ) → id + 1 < u64_mod → next_of id ≡ suc id
next_of_lem id h = ground arith

-- A new identifier: not in use before, it now has the value, and every other one is as it was.
pub record Allocated (t : IdTable) (value id : ℕ) (t' : IdTable) : Type 0 where
  pub fresh : id ≢ 0
  pub unused : holds id t.slots ≡ false
  pub stored : bunix_id_get t' id ≡ value
  pub others : (j : ℕ) → j ≢ id → bunix_id_get t' j ≡ bunix_id_get t j
  pub keeps : WellFormed t'

abbrev pub AllocResult : Bool → IdTable → ℕ → ℕ × IdTable → Type 0
AllocResult memory t value (id, t') =
    ((id ≡ 0) × (t' ≡ t) × (memory ≡ false) × (t.count ≡ capacity t)) ⊎ Allocated t value id t'

module _ (memory : Bool) (t : IdTable) (value : ℕ) (v : WellFormed t)
    (room : t.next_id + 1 < u64_mod) (small : capacity t < 2 ^ 61) where
  alloc_in-Allocated :
      (g : IdTable) (slots : List IdSlot)
      → Spacious memory t (some g)
      → fill g.next_id value g.slots ≡ some slots
      → let (id, t') = alloc_in g (some slots) in Allocated t value id t'
  unfolding alloc_in bunix_id_get
  alloc_in-Allocated g slots (n, c, a, u, s, k, same) e =
      let (x, y) = fill_counts g.next_id value g.slots slots e (omega (arith, n, v.started)) in
      let step : next_of g.next_id ≡ suc g.next_id =
        next_of_lem g.next_id (omega (arith, n, room)) in
      let free : holds g.next_id g.slots ≡ false =
        holds_bound g.next_id g.next_id g.slots a (omega arith) in
      record {
        fresh = omega (arith, n, v.started);
        unused = holds_bound g.next_id t.next_id t.slots v.apart (omega (arith, n));
        stored =
            ground
              (arith, n, v.started, get_from-fill g.next_id value g.next_id g.slots slots e free);
        others =
            λ j h. ground (arith, h, get_from-fill g.next_id value j g.slots slots e free, same j);
        keeps = record {
          apart =
              subst (λ b. Apart b slots) (sym step) (fill-Apart g.next_id value g.slots slots e a);
          counted = omega (arith, x, y, u, s, k, small);
          started = omega (arith, step);
          small = omega (arith, y, k, small);
          below = omega (arith, step, n, room);
        };
      }

  alloc_with-AllocResult :
      (r : Option IdTable) → Spacious memory t r → AllocResult memory t value (alloc_with value t r)
  unfolding alloc_with
  alloc_with-AllocResult none (m, full) = inl (refl, refl, m, full)
  alloc_with-AllocResult (some g) s =
      let (slots, e) = fill_total g.next_id value g.slots s.4 in
      rw e (inr (alloc_in-Allocated g slots s e))

  -- On a well-formed table with identifiers and room left, bunix_id_alloc of a value that is not 0
  -- fails only where the table is full and there is no memory; otherwise it hands out an identifier
  -- that is not in use and stores the value under it.
  pub bunix_id_alloc-AllocResult :
      value ≢ 0 → AllocResult memory t value (bunix_id_alloc memory t value)
  unfolding bunix_id_alloc
  bunix_id_alloc-AllocResult h =
      let e : (value == 0) ≡ false = ground (arith, h) in
      rw e (
        alloc_with-AllocResult (bunix_id_table_ensure_space memory t)
          (ensure_space-Spacious memory t v))
