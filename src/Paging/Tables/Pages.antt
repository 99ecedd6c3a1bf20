-- ===== src/Paging/Tables/Pages.antt =====
-- rocinante/src/memory/paging.cpp: `MapPage4KiB` and `Translate` for the table of a root.
use walden.Base.{Bool, Bool-cases, List, Option, [], ap, arith, bit_and, false, if◌then◌else◌}
use walden.Base.{inl, inr, none, not, refl, some, subst, suc, sym, true, ℕ, ◌&&◌, ◌-◌, ◌<◌, ◌==◌}
use walden.Base.{◌∙◌, ◌≡◌, ◌≢◌, ◌⊎◌}
use walden.Base.Word.{add64, not64, word}
use walden.Paging.{AddressSpaceBits, PagePermissions, PagingLayout, build_layout, is_page_aligned}
use walden.Paging.{mask_from_bits, page_offset_mask, page_table_page_from_physical}
use walden.Paging.{physical_page_base_mask_from_bits, validate_physical_address}
use walden.Paging.{validate_virtual_address}
use walden.Paging.Entries.{physical_fits}
use walden.Paging.Tables.{Memory, ensure_leaf_table, map_leaf, map_page, map_page_in, translate}
use walden.Paging.Tables.{translate_in}
use walden.Paging.Tables.Descent.{Descends, descended, ensure_leaf_table-Descends, ran_out}
use walden.Paging.Tables.Mapping.{Maps, SamePage, map_leaf-Maps, no_page, occupied, page_mapped}
use walden.Paging.Tables.Mapping.{uncounted}
use walden.Paging.Tables.Walks.{Setting, Tree, mask_of, placed-nonnull, resolve}
use walden.Pmm.Boot.Marks.{page}

-- The setting is that of the root and of the widths.
pub record Rooted (c : Setting) (root : ℕ) (bits : AddressSpaceBits) (l : PagingLayout)
    : Type 0 where
  pub layout : build_layout bits ≡ some l
  pub physical : bits.physical_address_bits ≡ c.physical_bits
  pub levels : l.level_count ≡ suc c.top_level
  pub at : page_table_page_from_physical c.machine root ≡ c.top
  pub nonzero : root ≢ 0

-- The tests that `MapPage4KiB` makes of its addresses.
abbrev pub accepts : PagingLayout → ℕ → ℕ → Bool
accepts l v p =
    validate_virtual_address v l
    && validate_physical_address p l
    && is_page_aligned v
    && is_page_aligned p

build_layout_lem :
    (bits : AddressSpaceBits) (l : PagingLayout)
    → build_layout bits ≡ some l
    → (l.physical_page_base_mask ≡ physical_page_base_mask_from_bits bits.physical_address_bits)
      × (l.physical_address_mask ≡ mask_from_bits bits.physical_address_bits)
unfolding build_layout
build_layout_lem bits l e = ground (arith, e)

tests :
    {A : Type 0} (v p a b : Bool) (failure success : A)
    → (if not v
        then failure
        else if not p
        then failure
        else if not a
        then failure
        else if not b
        then failure
        else success)
      ≡ (if v && p && a && b then success else failure)
tests v p a b failure success = ground arith

module _ (c : Setting) (root : ℕ) (bits : AddressSpaceBits) (l : PagingLayout)
    (rooted : Rooted c root bits l) where
  pub mask_lem : l.physical_page_base_mask ≡ mask_of c
  mask_lem =
      (build_layout_lem bits l rooted.layout).0
      ∙ ap physical_page_base_mask_from_bits rooted.physical

  pub root_test : (root == 0) ≡ false
  root_test = ground (arith, rooted.nonzero)

  pub level_lem : l.level_count - 1 ≡ c.top_level
  level_lem = omega (arith, rooted.levels)

  -- `Translate` of a valid address is a walk from the root's table.
  pub translate_lem :
      (s : Memory) (w : ℕ)
      → translate c.machine s root w bits
        ≡ (if validate_virtual_address w l then resolve c s w c.top_level c.top else none)
  unfolding translate translate_in
  translate_lem s w = rw (rooted.layout, root_test, rooted.at, mask_lem, level_lem) refl

  module _ (spot : ℕ → Option (List ℕ)) (s : Memory) (tree : Tree c spot s) (v p : ℕ)
      (permissions : PagePermissions) where
    abbrev leaf_mapped : Bool × Memory
    leaf_mapped =
        map_leaf (mask_of c) bits v p permissions
          (ensure_leaf_table c.machine (mask_of c) v c.top_level (some c.top, s))

    map_page_lem :
        map_page c.machine s root v p permissions bits
        ≡ (if accepts l v p then leaf_mapped else (false, s))
    unfolding map_page map_page_in
    map_page_lem =
        let top_test = placed-nonnull c spot s c.top [] tree tree.rooted in
        rw (rooted.layout, root_test, rooted.at, top_test, mask_lem, level_lem)
          (tests (validate_virtual_address v l) (validate_physical_address p l) (is_page_aligned v)
            (is_page_aligned p) (false, s) leaf_mapped)

    base_fits : p < word → accepts l v p ≡ true → bit_and p (mask_of c) ≡ p
    unfolding validate_physical_address
    base_fits h ok =
        let small : bit_and p (not64 l.physical_address_mask) ≡ 0 = ground (arith, ok) in
        let width = (build_layout_lem bits l rooted.layout).1 ∙ ap mask_from_bits rooted.physical in
        physical_fits c.physical_bits c.least c.most p h (ground (arith, ok))
          (subst (λ m. bit_and p (not64 m) ≡ 0) width small)

    descended-Maps :
        p < word
        → bit_and p (mask_of c) ≡ p
        → (r : Option ℕ × Memory) → Descends c spot s v c.top_level c.top r
        → Maps c bits v p spot s (map_leaf (mask_of c) bits v p permissions r)
    unfolding map_leaf
    descended-Maps h fits r (ran_out spot' s' progress used) = no_page spot' s' progress used
    descended-Maps h fits r (descended u spot' s' progress found) =
        map_leaf-Maps c bits v p permissions h fits spot s spot' s' tree progress u found

    -- For the root of a tree and a 64-bit physical address: if the addresses are not aligned or not of the
    -- layout's widths, the mapping is refused and nothing changes. Else it ends in one of four ways, and
    -- leaves a tree. It fails where every page of the manager is used, where the page has a mapping
    -- already, or where the frame's count of mappings is refused, and then every walk finds what it found
    -- before. Or it succeeds on a page without a mapping: then the addresses of the page lead to the frame
    -- at their offsets, and every other address to what it led to before.
    pub map_page-Maps :
        p < word
        → ((accepts l v p ≡ true)
            × Maps c bits v p spot s (map_page c.machine s root v p permissions bits))
          ⊎ (accepts l v p ≡ false) × (map_page c.machine s root v p permissions bits ≡ (false, s))
    map_page-Maps h = elim (Bool-cases (accepts l v p)) [
      | inr bad ↦ inr (bad, map_page_lem ∙ ap (λ b. if b then leaf_mapped else (false, s)) bad)
      | inl ok ↦ inl (
        ok,
        subst (Maps c bits v p spot s)
            (sym (map_page_lem ∙ ap (λ b. if b then leaf_mapped else (false, s)) ok))
            (descended-Maps h (base_fits h ok) _ (
              ensure_leaf_table-Descends c v c.top_level c.top [] spot s tree tree.rooted
                (omega arith))),
      )
    ]

    pub same_translations :
        (s' : Memory)
        → ((w : ℕ) → resolve c s' w c.top_level c.top ≡ resolve c s w c.top_level c.top)
        → (w : ℕ) → translate c.machine s' root w bits ≡ translate c.machine s root w bits
    same_translations s' same w =
        translate_lem s' w
        ∙ ap (λ o. if validate_virtual_address w l then o else none) (same w)
        ∙ sym (translate_lem s w)

    -- The map of pages after `MapPage4KiB`, by its result.
    abbrev pub Translations : Bool × Memory → Type 0
    Translations (true, s') =
        ((w : ℕ)
          → validate_virtual_address w l ≡ true
          → SamePage c w v
          → translate c.machine s' root w bits ≡ some (add64 p (bit_and w page_offset_mask)))
        × ((w : ℕ)
            → ¬ SamePage c w v
            → translate c.machine s' root w bits ≡ translate c.machine s root w bits)
    Translations (false, s') =
        (w : ℕ) → translate c.machine s' root w bits ≡ translate c.machine s root w bits

    translations : (r : Bool × Memory) → Maps c bits v p spot s r → Translations r
    translations r (no_page spot' s' progress used) =
        same_translations s' (λ w. progress.walks w c.top_level c.top [] tree.rooted (omega arith))
    translations r (occupied spot' s' q progress e) =
        same_translations s' (λ w. progress.walks w c.top_level c.top [] tree.rooted (omega arith))
    translations r (uncounted spot' s' progress counts e) =
        same_translations s' (λ w. progress.walks w c.top_level c.top [] tree.rooted (omega arith))
    translations r (page_mapped spot' s' after unmapped page rest) = (
      λ w valid same.
          translate_lem s' w
          ∙ ap (λ b. if b then resolve c s' w c.top_level c.top else none) valid
          ∙ page w same,
      λ w other.
          translate_lem s' w
          ∙ ap (λ o. if validate_virtual_address w l then o else none) (rest w other)
          ∙ sym (translate_lem s w),
    )

    -- For the root of a tree and a 64-bit physical address: if `MapPage4KiB` returns true, then
    -- `Translate` of a valid address of the page gives the frame's address plus the offset in the page,
    -- and of any other address what it gave before. If it returns false, every translation is what it was.
    pub translate-map_page :
        p < word → Translations (map_page c.machine s root v p permissions bits)
    translate-map_page h = elim (map_page-Maps h) [
      | inl (ok, maps) ↦ translations _ maps
      | inr (bad, e) ↦ subst Translations (sym e) (λ w. refl)
    ]
