-- ===== src/Paging/Tables/Unmapping/Removal.antt =====
-- rocinante/src/memory/paging.cpp: `UnmapPage4KiB`.
use walden.Base.{==→≡, ==→≢, Bool, Bool-cases, List, Option, [], ap, arith, bit_and, false}
use walden.Base.{if◌then◌else◌, inl, inr, length, none, refl, some, some-injective, subst, suc}
use walden.Base.{sym, zero, ℕ, ◌+◌, ◌<◌, ◌==◌, ◌∙◌, ◌∷◌, ◌≡◌, ◌≢◌, ◌⊎◌}
use walden.Base.Bits.{bit_and-le_right}
use walden.Base.Word.{add64, word}
use walden.Paging.{AddressSpaceBits, entry_is_present, entry_physical_page_base}
use walden.Paging.{index_from_virtual_address_at_level, is_phys_map_leaf_mapping}
use walden.Paging.{page_offset_mask, page_table_page_from_physical}
use walden.Paging.Entries.{mask-lt_word}
use walden.Paging.Tables.{Memory, leaf_table, translated}
use walden.Paging.Tables.Leaves.{SamePages, SamePages-refl, read_entry, resolve-at}
use walden.Paging.Tables.Leaves.{resolve-elsewhere, written, written-Tree}
use walden.Paging.Tables.Mapping.{SamePage}
use walden.Paging.Tables.Unmapping.{Frame, reclaim, uncount_mapping, unmap_leaf, walk_tables}
use walden.Paging.Tables.Unmapping.Reclaim.{Chain, Chain-head, reclaim-Same}
use walden.Paging.Tables.Walks.{Setting, Tree, index-lt, leaf_table-absent, leaf_table-cong}
use walden.Paging.Tables.Walks.{leaf_table-placed, length-path, mask_of, path, path-injective}
use walden.Paging.Tables.Walks.{placed-nonnull, resolve}
use walden.Pmm.{Pmm, decrement_map_count_for_physical}
use walden.Pmm.Invariant.{IsWellFormed}
use walden.Pmm.Losing.{decrement-LosesOnly, decrement-refused}

decrement-SamePages :
    (pmm : Pmm) (v : IsWellFormed pmm) (p : ℕ)
    → SamePages pmm (decrement_map_count_for_physical pmm p).1
decrement-SamePages pmm v p =
    let any = decrement-LosesOnly pmm v p in
    record {
      manager = (any 0).manager;
      base = (any 0).base;
      count = (any 0).count;
      used = λ n. (any (suc n)).used n (ground arith);
    }

module _ (c : Setting) (spot : ℕ → Option (List ℕ)) (s : Memory) (tree : Tree c spot s)
    (v : ℕ) where
  -- The frames from a table to the root's, where there is a table at each level of the walk.
  abbrev Walked : ℕ → ℕ → List ℕ → Option (List Frame) → Type 0
  Walked l t π o =
      ((o ≡ none) × (leaf_table c.machine s (mask_of c) v l t ≡ none))
      ⊎ ((f : Frame) × (fs : List Frame) × (o ≡ some (f ∷ fs))
          × (leaf_table c.machine s (mask_of c) v l t ≡ some f.table)
          × Chain c spot (f ∷ fs) (path v l π))

  -- Frames that go on from a table at a place.
  abbrev Above : List Frame → List ℕ → Type 0
  Above above π =
      (f : Frame)
      → spot f.table ≡ some π
      → f.table ≡ page_table_page_from_physical c.machine f.physical
      → f.physical < word
      → Chain c spot (f ∷ above) π

  walk_tables-Walked :
      (l physical : ℕ) (above : List Frame) (π : List ℕ)
      → physical < word
      → spot (page_table_page_from_physical c.machine physical) ≡ some π
      → l + length π ≡ c.top_level
      → Above above π
      → Walked l
          (page_table_page_from_physical c.machine physical)
          π
          (walk_tables c.machine s (mask_of c) v l physical above)
  unfolding walk_tables leaf_table path
  walk_tables-Walked zero physical above π small at depth chain =
      let there = placed-nonnull c spot s _ π tree at in
      let this : Frame = record {
        table = page_table_page_from_physical c.machine physical;
        physical = physical;
        child_index = 0;
      } in
      rw there (inr (this, above, refl, refl, chain this at refl small))
  walk_tables-Walked (suc l) physical above π small at depth chain =
      let t = page_table_page_from_physical c.machine physical in
      let i = index_from_virtual_address_at_level v (suc l) in
      let some_table = placed-nonnull c spot s t π tree at in
      let this : Frame = record { table = t; physical = physical; child_index = i } in
      let higher : length π < c.top_level = omega (arith, depth) in
      elim (Bool-cases (entry_is_present (s.tables t i))) [
        | inr absent ↦ inl (ground (arith, some_table, absent), leaf_table-absent c s v l t absent)
        | inl there ↦
            let (no_global, placed) = tree.children t π i at higher (index-lt v (suc l)) there in
            let child = entry_physical_page_base (s.tables t i) (mask_of c) in
            let child_small : child < word = omega (
              arith,
              bit_and-le_right (s.tables t i) (s.tables t i) (mask_of c),
              mask-lt_word c.physical_bits c.least c.most,
            ) in
            rw (some_table, no_global, there)
              (walk_tables-Walked l child (this ∷ above) (i ∷ π) child_small placed
                (omega (arith, depth))
                (λ f place_f address f_small.
                  (place_f, address, f_small, refl, chain this at refl small)))
      ]

  -- The ways that `UnmapPage4KiB` ends where its tests of the address pass.
  pub data Unmaps (bits : AddressSpaceBits) : Bool × Memory → Type 0 where
    nothing_mapped : resolve c s v c.top_level c.top ≡ none → Unmaps bits (false, s)
    miscounted :
        (p : ℕ) → (decrement_map_count_for_physical s.pmm p).0 ≡ false → Unmaps bits (false, s)
    removed :
        (r : Bool × Memory) (q : ℕ) (spot' : ℕ → Option (List ℕ))
        → resolve c s v c.top_level c.top ≡ some q
        → Tree c spot' r.1
        → ((w : ℕ) → SamePage c w v → resolve c r.1 w c.top_level c.top ≡ none)
        → ((w : ℕ)
            → ¬ SamePage c w v
            → resolve c r.1 w c.top_level c.top ≡ resolve c s w c.top_level c.top)
        → Unmaps bits r

  module _ (f : Frame) (fs : List Frame)
      (found : leaf_table c.machine s (mask_of c) v c.top_level c.top ≡ some f.table)
      (chain : Chain c spot (f ∷ fs) (path v c.top_level [])) where
    abbrev j : ℕ
    j = index_from_virtual_address_at_level v 0

    placed_leaf : spot f.table ≡ some (path v c.top_level [])
    placed_leaf = Chain-head c spot f fs _ chain

    read_leaf : resolve c s v c.top_level c.top ≡ read_entry c v (s.tables f.table j)
    unfolding translated
    read_leaf = ap (translated s (mask_of c) v) found

    other_leaf :
        (w : ℕ)
        → ¬ SamePage c w v
        → leaf_table c.machine s (mask_of c) w c.top_level c.top ≡ some f.table
        → index_from_virtual_address_at_level w 0 ≢ j
    other_leaf w other there index =
        let at =
          leaf_table-placed c spot s tree w c.top_level c.top [] f.table tree.rooted (omega arith)
            there in
        let (_, upper) =
          path-injective w v c.top_level [] [] (some-injective _ _ (sym at ∙ placed_leaf)) in
        other (λ l h. elim (Bool-cases (l == 0)) [
          | inl lowest ↦
              subst
                (λ k.
                  index_from_virtual_address_at_level w k ≡ index_from_virtual_address_at_level v k)
                (sym (==→≡ l 0 lowest)) index
          | inr above ↦ upper l (ground (arith, ==→≢ l 0 above)) h
        ])

    -- The leaf entry is cleared, then empty tables are freed.
    cleared :
        (bits : AddressSpaceBits) (pmm : Pmm) (q : ℕ)
        → SamePages s.pmm pmm
        → resolve c s v c.top_level c.top ≡ some q
        → Unmaps bits (reclaim (f ∷ fs) (written s pmm f.table j 0))
    unfolding entry_is_present
    cleared bits pmm q same mapped_to =
        let leaf : length (path v c.top_level []) ≡ c.top_level =
          length-path v c.top_level [] ∙ omega arith in
        let after = written-Tree c spot s tree pmm same f.table j 0 _ placed_leaf leaf in
        let (trees, walks) =
          reclaim-Same c (f ∷ fs) _ spot (written s pmm f.table j 0) after chain in
        removed _ q trees.0 mapped_to trees.1
          (λ w page.
            walks w
            ∙ resolve-at c spot s tree pmm same f.table j 0 _ placed_leaf leaf w c.top_level c.top
                [] tree.rooted (omega arith)
                (leaf_table-cong c s w v c.top_level c.top page ∙ found) (page 0 (omega arith)))
          (λ w other.
            walks w
            ∙ resolve-elsewhere c spot s tree pmm same f.table j 0 _ placed_leaf leaf w c.top_level
                c.top [] tree.rooted (omega arith) (other_leaf w other))

    unmap_leaf-Unmaps :
        (bits : AddressSpaceBits) → Unmaps bits (unmap_leaf (mask_of c) bits v s (some (f ∷ fs)))
    unfolding unmap_leaf uncount_mapping
    unmap_leaf-Unmaps bits = elim (Bool-cases (entry_is_present (s.tables f.table j))) [
      | inr absent ↦ rw absent (nothing_mapped (read_leaf ∙ rw absent refl))
      | inl there ↦
          let p = entry_physical_page_base (s.tables f.table j) (mask_of c) in
          let mapped_to =
            read_leaf
            ∙ ap (λ b. if b then some (add64 p (bit_and v page_offset_mask)) else none) there in
          elim (Bool-cases (is_phys_map_leaf_mapping v p bits)) [
            | inl window ↦
                rw (there, window)
                  (cleared bits s.pmm _ (SamePages-refl s.pmm tree.manager) mapped_to)
            | inr counts ↦ elim (Bool-cases (decrement_map_count_for_physical s.pmm p).0) [
              | inl done ↦
                  rw (there, counts, done)
                    (cleared bits (decrement_map_count_for_physical s.pmm p).1 _
                      (decrement-SamePages s.pmm tree.manager p) mapped_to)
              | inr failed ↦
                  rw (there, counts, failed)
                    (subst (λ (pmm : Pmm). Unmaps bits (false, record s { pmm = pmm }))
                      (sym (decrement-refused s.pmm tree.manager p failed)) (miscounted p failed))
            ]
          ]
    ]

  found_or_not :
      (bits : AddressSpaceBits) (o : Option (List Frame))
      → Walked c.top_level c.top [] o
      → Unmaps bits (unmap_leaf (mask_of c) bits v s o)
  unfolding unmap_leaf translated
  found_or_not bits o (inl (e, nothing)) =
      rw e (nothing_mapped (ap (translated s (mask_of c) v) nothing))
  found_or_not bits o (inr (f, fs, e, found, chain)) =
      rw e (unmap_leaf-Unmaps f fs found chain bits)

  pub walk-Unmaps :
      (bits : AddressSpaceBits) (root : ℕ)
      → root < word
      → page_table_page_from_physical c.machine root ≡ c.top
      → Unmaps bits (
          unmap_leaf
            (mask_of c)
            bits
            v
            s
            (walk_tables c.machine s (mask_of c) v c.top_level root []))
  walk-Unmaps bits root small at = found_or_not bits _ (
      subst
        (λ t. Walked c.top_level t [] (walk_tables c.machine s (mask_of c) v c.top_level root []))
        at
        (walk_tables-Walked c.top_level root [] [] small (ap spot at ∙ tree.rooted) (omega arith)
          (λ f known address f_small. known)))
