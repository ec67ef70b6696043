-- ===== src/VmRegions/Count.antt =====
-- kernel/sched.c: what a table of regions says of an address. How many regions hold it is counted, so
-- that the order of the entries does not matter, and two that overlap would show.
use bunix.Common.{
  ℕ, ◌+◌, ◌<◌, ◌≡◌, refl, Bool, true, ◌&&◌, List, [], ◌∷◌, ◌++◌, ltb, leb, if◌then◌else◌, length,
  u64_mod, arith,
}
use bunix.VmRegions.{VmRegion, can_write, put_second, last_first}

-- What a region says of its addresses. `offset` is the offset as it is recorded, into the object, of the
-- region that holds the address; it belongs to the base of the region.
pub record Attributes : Type 0 where
  pub writable : Bool
  pub kind : ℕ
  pub prot : ℕ
  pub flags : ℕ
  pub object_type : ℕ
  pub object_id : ℕ
  pub offset : ℕ

abbrev pub attributes : VmRegion → Attributes
attributes r = record {
  writable = r.writable;
  kind = r.kind;
  prot = r.prot;
  flags = r.flags;
  object_type = r.object_type;
  object_id = r.object_id;
  offset = r.offset;
}

abbrev pub inside : ℕ → ℕ → ℕ → Bool
inside base len a = leb base a && ltb a (base + len)

abbrev pub covers : VmRegion → ℕ → Bool
covers r a = inside r.base r.len a

abbrev pub one_if : Bool → ℕ
one_if b = if b then 1 else 0

abbrev pub weight : (Attributes → Bool) → ℕ → VmRegion → ℕ
weight p a r = one_if (covers r a && p (attributes r))

-- The number of regions with attributes `p` that hold the address `a`.
abbrev pub count_at : (Attributes → Bool) → ℕ → List VmRegion → ℕ
count_at p a [] = 0
count_at p a (r ∷ rs) = weight p a r + count_at p a rs

abbrev pub anything : Attributes → Bool
anything x = true

-- A region that is not empty, ends below 2^64, and is writable as its protection says.
pub record Bounded (r : VmRegion) : Type 0 where
  pub not_empty : 0 < r.len
  pub in_space : r.base + r.len < u64_mod
  pub follows_prot : r.writable ≡ can_write r.prot

abbrev pub AllBounded : List VmRegion → Type 0
AllBounded [] = Unit {0}
AllBounded (r ∷ rs) = Bounded r × AllBounded rs

pub count_at-append :
    (p : Attributes → Bool) (a : ℕ) (xs ys : List VmRegion)
    → count_at p a (xs ++ ys) ≡ count_at p a xs + count_at p a ys
count_at-append p a [] ys = omega arith
count_at-append p a (x ∷ xs) ys = omega (arith, count_at-append p a xs ys)

count_at-put_second :
    (p : Attributes → Bool) (a : ℕ) (x : VmRegion) (xs : List VmRegion)
    → count_at p a (put_second x xs) ≡ weight p a x + count_at p a xs
count_at-put_second p a x [] = refl
count_at-put_second p a x (y ∷ ys) = omega arith

pub count_at-last_first :
    (p : Attributes → Bool) (a : ℕ) (xs : List VmRegion)
    → count_at p a (last_first xs) ≡ count_at p a xs
unfolding last_first
count_at-last_first p a [] = refl
count_at-last_first p a (x ∷ xs) =
    omega (arith, count_at-put_second p a x (last_first xs), count_at-last_first p a xs)

length-put_second : (x : VmRegion) (xs : List VmRegion) → length (put_second x xs) ≡ length xs + 1
length-put_second x [] = refl
length-put_second x (y ∷ ys) = omega arith

pub length-last_first : (xs : List VmRegion) → length (last_first xs) ≡ length xs
unfolding last_first
length-last_first [] = refl
length-last_first (x ∷ xs) =
    omega (arith, length-put_second x (last_first xs), length-last_first xs)

pub append-AllBounded :
    (xs ys : List VmRegion) → AllBounded xs → AllBounded ys → AllBounded (xs ++ ys)
append-AllBounded [] ys v w = w
append-AllBounded (x ∷ xs) ys v w = (v.0, append-AllBounded xs ys v.1 w)

put_second-AllBounded :
    (x : VmRegion) (xs : List VmRegion) → Bounded x → AllBounded xs → AllBounded (put_second x xs)
put_second-AllBounded x [] b v = (b, v)
put_second-AllBounded x (y ∷ ys) b v = (v.0, (b, v.1))

pub last_first-AllBounded : (xs : List VmRegion) → AllBounded xs → AllBounded (last_first xs)
unfolding last_first
last_first-AllBounded [] v = v
last_first-AllBounded (x ∷ xs) v =
    put_second-AllBounded x (last_first xs) v.0 (last_first-AllBounded xs v.1)

-- The attributes after a change of the protection.
abbrev pub protect : ℕ → Attributes → Attributes
protect prot x = record x { prot = prot; writable = can_write prot }

abbrev pub changed : ℕ → (Attributes → Bool) → ℕ → ℕ → ℕ → List VmRegion → ℕ
changed prot p base len a rs =
    if inside base len a then count_at (λ x. p (protect prot x)) a rs else count_at p a rs
