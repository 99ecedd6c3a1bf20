-- ===== src/Kva/Ranges.antt =====
-- rocinante/src/memory/kernel_va_allocator.h: what a list of free ranges says of each address, and
-- cutting one of its ranges.
use walden.Base.{Bool, Bool-cases, List, [], ap, arith, false, if◌then◌else◌, inl, inr, leb}
use walden.Base.{length, length-append, ltb, not, refl, suc, true, ℕ, ◌&&◌, ◌++◌, ◌+◌, ◌<◌, ◌||◌}
use walden.Base.{◌∷◌, ◌≡◌, ◌≤◌, ◌⊎◌}
use walden.Kva.{Range, count_if, insert_pieces, is_valid_non_empty, max_free_ranges}
use walden.Kva.{remove_free_range_at, shift_in}

abbrev pub within : ℕ → ℕ → ℕ → Bool
within base limit x = leb base x && ltb x limit

-- Is the address in one of the ranges?
unfoldable pub covers : List Range → ℕ → Bool
covers [] x = false
covers (r ∷ rs) x = within r.base r.limit x || covers rs x

-- Nonempty ranges in ascending order from `lo` to `hi`, with a gap between neighbours.
abbrev pub Canonical : ℕ → ℕ → List Range → Type 0
Canonical lo hi [] = Unit {0}
Canonical lo hi (r ∷ rs) =
    (lo ≤ r.base) × (r.base < r.limit) × (r.limit ≤ hi) × Canonical (suc r.limit) hi rs

pub Canonical-mono :
    (lo hi lo' : ℕ) (rs : List Range) → lo' ≤ lo → Canonical lo hi rs → Canonical lo' hi rs
Canonical-mono lo hi lo' [] h c = tt
Canonical-mono lo hi lo' (r ∷ rs) h c = (omega arith, c.1, c.2, c.3)

pub covers_below :
    (lo hi : ℕ) (rs : List Range) (x : ℕ) → Canonical lo hi rs → x < lo → covers rs x ≡ false
unfolding covers
covers_below lo hi [] x c h = refl
covers_below lo hi (r ∷ rs) x c h = ground (arith, covers_below (suc r.limit) hi rs x c.3)

pub covers_above :
    (lo hi : ℕ) (rs : List Range) (x : ℕ) → Canonical lo hi rs → hi ≤ x → covers rs x ≡ false
unfolding covers
covers_above lo hi [] x c h = refl
covers_above lo hi (r ∷ rs) x c h = ground (arith, covers_above (suc r.limit) hi rs x c.3)

-- The part of a canonical list from one of its ranges on.
pub Canonical-middle :
    (lo hi : ℕ) (pre : List Range) (r : Range) (rest : List Range)
    → Canonical lo hi (pre ++ (r ∷ rest))
    → (lo ≤ r.base) × (r.base < r.limit) × (r.limit ≤ hi) × Canonical (suc r.limit) hi rest
Canonical-middle lo hi [] r rest c = c
Canonical-middle lo hi (p ∷ pre) r rest c =
    let m = Canonical-middle (suc p.limit) hi pre r rest c.3 in (omega arith, m.1, m.2, m.3)

-- What stands in place of a range of the list once two pieces of it are put back before `rest`.
abbrev pub pieces : Range → Range → List Range → List Range
pieces left right rest =
    if is_valid_non_empty left
    then left ∷ (if is_valid_non_empty right then right ∷ rest else rest)
    else (if is_valid_non_empty right then right ∷ rest else rest)

pub remove_free_range_at-append :
    (pre : List Range) (r : Range) (rest : List Range)
    → remove_free_range_at (length pre) (pre ++ (r ∷ rest)) ≡ pre ++ rest
unfolding remove_free_range_at
remove_free_range_at-append [] r rest = refl
remove_free_range_at-append (p ∷ pre) r rest = ap (◌∷◌ p) (remove_free_range_at-append pre r rest)

pub shift_in-append :
    (pre : List Range) (r : Range) (rest : List Range)
    → shift_in (length pre) r (pre ++ rest) ≡ pre ++ (r ∷ rest)
unfolding shift_in
shift_in-append [] r rest = refl
shift_in-append (p ∷ pre) r rest = ap (◌∷◌ p) (shift_in-append pre r rest)

shift_in-append_next :
    (pre : List Range) (q r : Range) (rest : List Range)
    → shift_in (length pre + 1) r (pre ++ (q ∷ rest)) ≡ pre ++ (q ∷ r ∷ rest)
unfolding shift_in
shift_in-append_next [] q r rest = refl
shift_in-append_next (p ∷ pre) q r rest =
    let e : length (p ∷ pre) + 1 ≡ suc (length pre + 1) = omega arith in
    rw e (ap (◌∷◌ p) (shift_in-append_next pre q r rest))

-- With room in the array both pieces go in, at the place of the range that was removed.
pub insert_pieces_lem :
    (pre : List Range) (left right : Range) (rest : List Range)
    → length (pre ++ rest)
        + count_if (is_valid_non_empty left)
        + count_if (is_valid_non_empty right)
      ≤ max_free_ranges
    → insert_pieces (length pre) left right (pre ++ rest)
      ≡ (true, length pre + count_if (is_valid_non_empty left), pre ++ pieces left right rest)
unfolding insert_pieces
insert_pieces_lem pre left right rest room = ground (
  arith,
  shift_in-append pre left rest,
  shift_in-append pre right rest,
  shift_in-append_next pre left right rest,
  length-append pre rest,
  length-append pre (left ∷ rest),
)

-- What stands in place of the range `r` once [base, limit) is cut out of it.
abbrev pub cut : Range → ℕ → ℕ → List Range → List Range
cut r base limit rest =
    pieces (record { base = r.base; limit = base }) (record { base = limit; limit = r.limit }) rest

module _ (r : Range) (base limit : ℕ) (rest : List Range) (above : r.base ≤ base)
    (proper : base < limit) (below : limit ≤ r.limit) where
  covers-cut_head :
      (lo hi x : ℕ)
      → Canonical lo hi (r ∷ rest)
      → covers (cut r base limit rest) x ≡ (covers (r ∷ rest) x && not (within base limit x))
  unfolding covers
  covers-cut_head lo hi x c = ground (arith, covers_below (suc r.limit) hi rest x c.3)

  Canonical-cut_head :
      (lo hi : ℕ) → Canonical lo hi (r ∷ rest) → Canonical lo hi (cut r base limit rest)
  Canonical-cut_head lo hi c = ground (
    arith,
    Canonical-mono (suc r.limit) hi lo rest (omega arith) c.3,
    Canonical-mono (suc r.limit) hi (suc base) rest (omega arith) c.3,
  )

  -- A cut frees no address and takes away those of [base, limit) alone.
  pub covers-cut :
      (lo hi x : ℕ) (pre : List Range)
      → Canonical lo hi (pre ++ (r ∷ rest))
      → covers (pre ++ cut r base limit rest) x
        ≡ (covers (pre ++ (r ∷ rest)) x && not (within base limit x))
  unfolding covers
  covers-cut lo hi x [] c = covers-cut_head lo hi x c
  covers-cut lo hi x (p ∷ pre) c =
      let m = Canonical-middle (suc p.limit) hi pre r rest c.3 in
      ground (arith, covers-cut (suc p.limit) hi x pre c.3, m.0)

  pub Canonical-cut :
      (lo hi : ℕ) (pre : List Range)
      → Canonical lo hi (pre ++ (r ∷ rest))
      → Canonical lo hi (pre ++ cut r base limit rest)
  Canonical-cut lo hi [] c = Canonical-cut_head lo hi c
  Canonical-cut lo hi (p ∷ pre) c = (c.0, c.1, c.2, Canonical-cut (suc p.limit) hi pre c.3)

  pub length-cut :
      length (cut r base limit rest)
      ≡ length rest + count_if (ltb r.base base) + count_if (ltb limit r.limit)
  length-cut = ground arith

pub covers-middle :
    (pre : List Range) (r : Range) (rest : List Range) (x : ℕ)
    → within r.base r.limit x ≡ true
    → covers (pre ++ (r ∷ rest)) x ≡ true
unfolding covers
covers-middle [] r rest x h = ground arith
covers-middle (p ∷ pre) r rest x h = ground (arith, covers-middle pre r rest x h)

-- A block of free addresses lies in the first range or wholly in the others: ranges do not touch.
pub block_cases :
    (lo hi : ℕ) (r : Range) (rest : List Range) (c size : ℕ)
    → Canonical lo hi (r ∷ rest)
    → 0 < size
    → ((x : ℕ) → within c (c + size) x ≡ true → covers (r ∷ rest) x ≡ true)
    → (r.base ≤ c) × (c + size ≤ r.limit)
      ⊎ ((x : ℕ) → within c (c + size) x ≡ true → covers rest x ≡ true)
unfolding covers
block_cases lo hi r rest c size canon pos free = elim (Bool-cases (within r.base r.limit c)) [
  | inl inside ↦ elim (Bool-cases (ltb r.limit (c + size))) [
    | inl past ↦
        absurd (ground (arith, free r.limit, covers_below (suc r.limit) hi rest r.limit canon.3))
    | inr fits ↦ inl (ground arith)
  ]
  | inr outside ↦
      let later : r.limit < c =
        ground (arith, free c, covers_below (suc r.limit) hi rest c canon.3) in
      inr (λ x h. ground (arith, free x h))
]
