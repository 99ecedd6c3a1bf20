-- ===== src/Boot/Regions.antt =====
-- rocinante/src/memory/boot_memory_map.cpp, `AddRegion`: the addresses that the list describes, type
-- by type.
use walden.Base.{==→≡, Bool, Bool-cases, List, Option, [], ap, arith, false, inl, inr, leb}
use walden.Base.{length, length-append, ltb, ltb→le, ltb→lt, none, refl, some, suc, true, ℕ, ◌&&◌}
use walden.Base.{◌++◌, ◌+◌, ◌<◌, ◌==◌, ◌||◌, ◌∙◌, ◌∷◌, ◌≡◌, ◌≤◌, ◌⊎◌}
use walden.Base.Word.{add64, sub64, word}
use walden.Boot.{BootMemoryRegion, RegionType, add_region, max_regions, merge_adjacent, reserved}
use walden.Boot.{same_type, usable_ram}

-- An address that some region of the type holds.
pub described : RegionType → List BootMemoryRegion → ℕ → Bool
described t [] a = false
described t (r ∷ rest) a =
    (same_type r.region_type t && leb r.physical_base a && ltb a (r.physical_base + r.size_bytes))
    || described t rest a

-- Every region of the list has addresses, and none of them wraps.
unfoldable pub IsProper : List BootMemoryRegion → Type 0
IsProper [] = Unit
IsProper (r ∷ rest) = (0 < r.size_bytes) × (r.physical_base + r.size_bytes < word) × IsProper rest

same_type-cong : (a b t : RegionType) → same_type a b ≡ true → same_type b t ≡ same_type a t
same_type-cong usable_ram usable_ram t e = refl
same_type-cong usable_ram reserved t e = ground (arith, e)
same_type-cong reserved usable_ram t e = ground (arith, e)
same_type-cong reserved reserved t e = refl

module _ (region : BootMemoryRegion) (some_bytes : 0 < region.size_bytes)
    (fits : region.physical_base + region.size_bytes < word) where
  -- `ys` describes what `xs` describes and the new region.
  record Adds (xs ys : List BootMemoryRegion) : Type 0 where
    pub describes :
        (t : RegionType) (a : ℕ)
        → described t ys a ≡ (described t (region ∷ []) a || described t xs a)
    pub proper : IsProper ys

  abbrev Merges : List BootMemoryRegion → Option (List BootMemoryRegion) → Type 0
  Merges xs r =
      (r ≡ none)
      ⊎ (ys : List BootMemoryRegion) × (r ≡ some ys) × (length ys ≡ length xs) × Adds xs ys

  abbrev behind_first :
      BootMemoryRegion → Option (List BootMemoryRegion) → Option (List BootMemoryRegion)
  behind_first existing r = elim r [ none ↦ none | some ys ↦ some (existing ∷ ys) ]

  later :
      (existing : BootMemoryRegion) (rest : List BootMemoryRegion)
      → 0 < existing.size_bytes
      → existing.physical_base + existing.size_bytes < word
      → Merges rest (merge_adjacent region rest)
      → merge_adjacent region (existing ∷ rest) ≡ behind_first existing (merge_adjacent region rest)
      → Merges (existing ∷ rest) (merge_adjacent region (existing ∷ rest))
  unfolding described IsProper
  later existing rest h f (inl nothing) e = inl (e ∙ ap (behind_first existing) nothing)
  later existing rest h f (inr (ys, at, same, adds)) e = inr (
    existing ∷ ys,
    e ∙ ap (behind_first existing) at,
    ap suc same,
    record { describes = λ t a. ground (arith, adds.describes t a); proper = (h, f, adds.proper) },
  )

  merge_adjacent_lem :
      (xs : List BootMemoryRegion) → IsProper xs → Merges xs (merge_adjacent region xs)
  unfolding merge_adjacent IsProper described
  merge_adjacent_lem [] proper = inl refl
  merge_adjacent_lem (existing ∷ rest) (h, f, proper) =
      let above : BootMemoryRegion = record existing {
        size_bytes = sub64 (add64 region.physical_base region.size_bytes) existing.physical_base;
      } in
      let below : BootMemoryRegion = record existing {
        physical_base = region.physical_base;
        size_bytes = sub64 (add64 existing.physical_base existing.size_bytes) region.physical_base;
      } in
      elim (Bool-cases (same_type existing.region_type region.region_type)) [
        | inr differ ↦ later existing rest h f (merge_adjacent_lem rest proper) (rw differ refl)
        | inl alike ↦
            let kind =
              λ (t : RegionType). same_type-cong existing.region_type region.region_type t alike in
            elim (Bool-cases
              (add64 existing.physical_base existing.size_bytes == region.physical_base)) [
                | inl after ↦
                    let joined : above.size_bytes ≡ existing.size_bytes + region.size_bytes =
                      ground (arith, after, f, fits) in
                    inr (
                      above ∷ rest,
                      ground (arith, alike, after),
                      refl,
                      record {
                        describes = λ t a. ground (arith, kind t, joined, after, f, fits);
                        proper = (
                          omega (arith, joined, h),
                          ground (arith, joined, after, f, fits),
                          proper,
                        );
                      },
                    )
                | inr not_after ↦
                    elim (Bool-cases
                      (add64 region.physical_base region.size_bytes == existing.physical_base)) [
                        | inl before ↦
                            let joined : below.size_bytes
                                ≡ existing.size_bytes + region.size_bytes =
                              ground (arith, before, f, fits) in
                            inr (
                              below ∷ rest,
                              ground (arith, alike, not_after, before),
                              refl,
                              record {
                                describes = λ t a. ground (arith, kind t, joined, before, f, fits);
                                proper = (
                                  omega (arith, joined, h),
                                  ground (arith, joined, before, f, fits),
                                  proper,
                                );
                              },
                            )
                        | inr apart ↦
                            later existing rest h f (merge_adjacent_lem rest proper)
                              (ground (arith, alike, not_after, apart))
                      ]
              ]
      ]

described-append :
    (t : RegionType) (xs : List BootMemoryRegion) (r : BootMemoryRegion) (a : ℕ)
    → described t (xs ++ (r ∷ [])) a ≡ (described t (r ∷ []) a || described t xs a)
unfolding described
described-append t [] r a = ground arith
described-append t (x ∷ xs) r a = ground (arith, described-append t xs r a)

IsProper-append :
    (xs : List BootMemoryRegion) (r : BootMemoryRegion)
    → IsProper xs
    → 0 < r.size_bytes
    → r.physical_base + r.size_bytes < word
    → IsProper (xs ++ (r ∷ []))
unfolding IsProper
IsProper-append [] r proper h f = (h, f, tt)
IsProper-append (x ∷ xs) r (h', f', proper) h f = (h', f', IsProper-append xs r proper h f)

-- `AddRegion` of a region whose numbers are words, to a list of at most 64 regions that are neither empty
-- nor wrap: either it returns true, and the list, which has at most 64 regions that are neither empty nor
-- wrap, describes for each type the addresses that it described before and those of the new region; or it
-- returns false and the list is the same, and the region is empty or wraps or there are 64 regions.
pub add_region_cases :
    (xs : List BootMemoryRegion) (region : BootMemoryRegion)
    → IsProper xs
    → length xs ≤ max_regions
    → region.physical_base < word
    → region.size_bytes < word
    → ((ys : List BootMemoryRegion) × (add_region xs region ≡ (true, ys))
        × ((t : RegionType) (a : ℕ)
            → described t ys a ≡ (described t (region ∷ []) a || described t xs a))
        × IsProper ys
        × (length ys ≤ max_regions))
      ⊎ (add_region xs region ≡ (false, xs))
        × ((region.size_bytes ≡ 0)
            ⊎ (word ≤ region.physical_base + region.size_bytes)
            ⊎ (length xs ≡ max_regions))
unfolding add_region
add_region_cases xs region proper room p q = elim (Bool-cases (region.size_bytes == 0)) [
  | inl empty_region ↦
      inr (ground (arith, empty_region), inl (==→≡ region.size_bytes 0 empty_region))
  | inr some_bytes ↦ elim (Bool-cases (ltb (region.physical_base + region.size_bytes) word)) [
    | inr wraps ↦ inr (ground (arith, wraps, p, q, some_bytes), inr (inl (ltb→le _ word wraps)))
    | inl below ↦
        let h : 0 < region.size_bytes = ground (arith, some_bytes) in
        let f = ltb→lt (region.physical_base + region.size_bytes) word below in
        let valid : ((region.size_bytes == 0)
              || ltb (add64 region.physical_base region.size_bytes) region.physical_base)
            ≡ false =
          ground (arith, h, f) in
        elim (merge_adjacent_lem region h f xs proper) [
          | inr (ys, at, same, adds) ↦
              inl (ys, rw (valid, at) refl, adds.describes, adds.proper, omega (arith, same))
          | inl alone ↦ elim (Bool-cases (leb max_regions (length xs))) [
            | inl crowded ↦
                inr (rw (valid, alone, crowded) refl, inr (inr (ground (arith, crowded))))
            | inr fitting ↦ inl (
              xs ++ (region ∷ []),
              rw (valid, alone, fitting) refl,
              λ t a. described-append t xs region a,
              IsProper-append xs region proper h f,
              ground (arith, fitting, length-append xs (region ∷ [])),
            )
          ]
        ]
  ]
]
