-- ===== src/Paging/Tables/Mapping.antt =====
-- rocinante/src/memory/paging.cpp: `MapPage4KiB`.
use walden.Base.{==→≡, ==→≢, Bool, Bool-cases, List, Option, [], ap, arith, bit_and, false, inl}
use walden.Base.{inr, length, none, refl, some, some-injective, subst, sym, true, ℕ, ◌&&◌, ◌<◌}
use walden.Base.{◌==◌, ◌∙◌, ◌≡◌, ◌≢◌, ◌≤◌, ◌⊎◌}
use walden.Base.Word.{add64, word}
use walden.Paging.{AddressSpaceBits, PagePermissions, encode_leaf_entry, entry_is_present}
use walden.Paging.{entry_physical_page_base, index_from_virtual_address_at_level}
use walden.Paging.{is_phys_map_leaf_mapping, page_offset_mask}
use walden.Paging.Entries.{leaf_entry_of_base}
use walden.Paging.Tables.{Memory, count_mapping, leaf_table, map_leaf, translated, write_entry}
use walden.Paging.Tables.Leaves.{SamePages, SamePages-refl, resolve-at, resolve-elsewhere}
use walden.Paging.Tables.Leaves.{resolve-zero, written, written-Tree, written-twice}
use walden.Paging.Tables.Progress.{Progress}
use walden.Paging.Tables.Walks.{Setting, Tree, leaf_table-cong, leaf_table-placed, length-path}
use walden.Paging.Tables.Walks.{mask_of, path, path-injective, resolve}
use walden.Pmm.{Pmm, increment_map_count_for_physical, is_page_used}
use walden.Pmm.Bitmap.{is_page_used-cong}
use walden.Pmm.Counts.{increment_cases}
use walden.Pmm.Invariant.{IsWellFormed}

-- Two addresses have the same index at every level.
abbrev pub SamePage : Setting → ℕ → ℕ → Type 0
SamePage c w v =
    (l : ℕ)
    → l ≤ c.top_level
    → index_from_virtual_address_at_level w l ≡ index_from_virtual_address_at_level v l

-- What `IncrementMapCountForPhysical` leaves of the pages.
increment-SamePages :
    (pmm : Pmm)
    → IsWellFormed pmm
    → (p : ℕ)
    → ((pmm' : Pmm) × (increment_map_count_for_physical pmm p ≡ (true, pmm')) × SamePages pmm pmm')
      ⊎ (increment_map_count_for_physical pmm p ≡ (false, pmm))
increment-SamePages pmm v p = elim (increment_cases pmm v p) [
  | inl (i, found, small, e, after) ↦ inl (
    _,
    e,
    record {
      manager = after;
      base = refl;
      count = refl;
      used = λ n. is_page_used-cong _ _ n refl refl;
    },
  )
  | inr (inl (missing, aligned, e)) ↦ inl (pmm, e, SamePages-refl pmm v)
  | inr (inr (e, _, _)) ↦ inr e
]

module _ (c : Setting) (bits : AddressSpaceBits) (v p : ℕ) where
  -- What `MapPage4KiB` comes to from a state `s` with arguments that pass its tests.
  pub data Maps (spot : ℕ → Option (List ℕ)) (s : Memory) : Bool × Memory → Type 0 where
    no_page :
        (spot' : ℕ → Option (List ℕ)) (s' : Memory)
        → Progress c spot s spot' s'
        → ((n : ℕ) → n < c.count → is_page_used s'.pmm n ≡ true)
        → Maps spot s (false, s')
    occupied :
        (spot' : ℕ → Option (List ℕ)) (s' : Memory) (q : ℕ)
        → Progress c spot s spot' s'
        → resolve c s v c.top_level c.top ≡ some q
        → Maps spot s (false, s')
    uncounted :
        (spot' : ℕ → Option (List ℕ)) (s' : Memory)
        → Progress c spot s spot' s'
        → is_phys_map_leaf_mapping v p bits ≡ false
        → increment_map_count_for_physical s'.pmm p ≡ (false, s'.pmm)
        → Maps spot s (false, s')
    page_mapped :
        (spot' : ℕ → Option (List ℕ)) (s' : Memory)
        → Tree c spot' s'
        → resolve c s v c.top_level c.top ≡ none
        → ((w : ℕ)
            → SamePage c w v
            → resolve c s' w c.top_level c.top ≡ some (add64 p (bit_and w page_offset_mask)))
        → ((w : ℕ)
            → ¬ SamePage c w v
            → resolve c s' w c.top_level c.top ≡ resolve c s w c.top_level c.top)
        → Maps spot s (true, s')

  module _ (permissions : PagePermissions) (p_word : p < word) (fits : bit_and p (mask_of c) ≡ p)
      (spot : ℕ → Option (List ℕ)) (s : Memory) (spot' : ℕ → Option (List ℕ)) (s' : Memory)
      (tree : Tree c spot s) (progress : Progress c spot s spot' s') (u : ℕ)
      (found : leaf_table c.machine s' (mask_of c) v c.top_level c.top ≡ some u) where
    abbrev j : ℕ
    j = index_from_virtual_address_at_level v 0

    abbrev e : ℕ
    e = encode_leaf_entry p (mask_of c) permissions

    abbrev ρ : List ℕ
    ρ = path v c.top_level []

    placed : spot' u ≡ some ρ
    placed =
        leaf_table-placed c spot' s' progress.tree v c.top_level c.top [] u progress.tree.rooted
          (omega arith) found

    leaf : length ρ ≡ c.top_level
    leaf = length-path v c.top_level [] ∙ omega arith

    -- A walk comes to the entry exactly for the addresses of the page.
    same_walk :
        (w : ℕ) → SamePage c w v → leaf_table c.machine s' (mask_of c) w c.top_level c.top ≡ some u
    same_walk w same = leaf_table-cong c s' w v c.top_level c.top same ∙ found

    other_walk :
        (w : ℕ)
        → ¬ SamePage c w v
        → leaf_table c.machine s' (mask_of c) w c.top_level c.top ≡ some u
        → index_from_virtual_address_at_level w 0 ≢ j
    other_walk w other there index =
        let at =
          leaf_table-placed c spot' s' progress.tree w c.top_level c.top [] u progress.tree.rooted
            (omega arith) there in
        let (_, upper) =
          path-injective w v c.top_level [] [] (some-injective _ _ (sym at ∙ placed)) in
        other (λ l h. elim (Bool-cases (l == 0)) [
          | inl lowest ↦
              subst
                (λ k.
                  index_from_virtual_address_at_level w k ≡ index_from_virtual_address_at_level v k)
                (sym (==→≡ l 0 lowest)) index
          | inr above ↦ upper l (ground (arith, ==→≢ l 0 above)) h
        ])

    absent_read : entry_is_present (s'.tables u j) ≡ false → resolve c s' v c.top_level c.top ≡ none
    unfolding translated
    absent_read absent = ap (translated s' (mask_of c) v) found ∙ rw absent refl

    -- The entry, written.
    leaf_written :
        (pmm : Pmm)
        → SamePages s'.pmm pmm
        → entry_is_present (s'.tables u j) ≡ false
        → Maps spot s (true, written s' pmm u j e)
    leaf_written pmm same absent =
        let (there, base) =
          leaf_entry_of_base c.physical_bits c.least c.most p permissions p_word fits in
        page_mapped spot' (written s' pmm u j e)
          (written-Tree c spot' s' progress.tree pmm same u j e ρ placed leaf)
          (sym (progress.walks v c.top_level c.top [] tree.rooted (omega arith))
            ∙ absent_read absent)
          (λ w page.
            resolve-at c spot' s' progress.tree pmm same u j e ρ placed leaf w c.top_level c.top []
              progress.tree.rooted (omega arith) (same_walk w page) (page 0 (omega arith))
            ∙ rw (there, base) refl)
          (λ w other.
            resolve-elsewhere c spot' s' progress.tree pmm same u j e ρ placed leaf w c.top_level
              c.top [] progress.tree.rooted (omega arith) (other_walk w other)
            ∙ progress.walks w c.top_level c.top [] tree.rooted (omega arith))

    -- The entry, zeroed again.
    undone :
        (pmm : Pmm)
        → SamePages s'.pmm pmm
        → entry_is_present (s'.tables u j) ≡ false
        → Progress c spot s spot' (written s' pmm u j 0)
    unfolding write_entry
    undone pmm same absent = record {
      tree = written-Tree c spot' s' progress.tree pmm same u j 0 ρ placed leaf;
      extends = progress.extends;
      keeps = λ x y π known there.
          let kept = progress.keeps x y π known there in
          elim (Bool-cases ((u == x) && (j == y))) [
            | inr apart ↦ ground (arith, apart, kept)
            | inl this ↦
                let now =
                  subst (λ z. entry_is_present (s'.tables z j) ≡ false)
                    (==→≡ u x (ground (arith, this))) absent in
                let then_j =
                  subst (λ z. entry_is_present (s'.tables x z) ≡ false)
                    (==→≡ j y (ground (arith, this))) now in
                absurd (ground (arith, ap entry_is_present kept ∙ there, then_j))
          ];
      walks = λ w l x π known depth.
          resolve-zero c spot' s' progress.tree pmm same u j ρ placed leaf absent w l x π
            (progress.extends x π known) depth
          ∙ progress.walks w l x π known depth;
    }

    counted_leaf :
        entry_is_present (s'.tables u j) ≡ false
        → is_phys_map_leaf_mapping v p bits ≡ false
        → Maps spot s (
            count_mapping (written s' s'.pmm u j e) u j (increment_map_count_for_physical s'.pmm p))
    unfolding count_mapping
    counted_leaf absent counts = elim (increment-SamePages s'.pmm progress.tree.manager p) [
      | inl (pmm, done, same) ↦ rw done (leaf_written pmm same absent)
      | inr stopped ↦ rw stopped (
          subst (λ r. Maps spot s (false, r)) (sym (written-twice s' s'.pmm u j e))
            (uncounted spot' (written s' s'.pmm u j 0)
              (undone s'.pmm (SamePages-refl s'.pmm progress.tree.manager) absent) counts stopped))
    ]

    present_read :
        entry_is_present (s'.tables u j) ≡ true
        → resolve c s' v c.top_level c.top
          ≡ some (
              add64
                (entry_physical_page_base (s'.tables u j) (mask_of c))
                (bit_and v page_offset_mask))
    unfolding translated
    present_read there = ap (translated s' (mask_of c) v) found ∙ rw there refl

    pub map_leaf-Maps : Maps spot s (map_leaf (mask_of c) bits v p permissions (some u, s'))
    unfolding map_leaf
    map_leaf-Maps = elim (Bool-cases (entry_is_present (s'.tables u j))) [
      | inl there ↦ rw there (
          occupied spot' s' _ progress (
            sym (progress.walks v c.top_level c.top [] tree.rooted (omega arith))
            ∙ present_read there))
      | inr absent ↦ elim (Bool-cases (is_phys_map_leaf_mapping v p bits)) [
        | inl window ↦
            rw (absent, window)
              (leaf_written s'.pmm (SamePages-refl s'.pmm progress.tree.manager) absent)
        | inr counts ↦ rw (absent, counts) (counted_leaf absent counts)
      ]
    ]
