-- ===== src/Paging/Tables/Unmapping/Pages.antt =====
-- rocinante/src/memory/paging.cpp: `UnmapPage4KiB` and `Translate` for the table of a root.
use walden.Base.{Bool, Bool-cases, List, Option, [], ap, arith, false, if◌then◌else◌, inl, inr}
use walden.Base.{ltb, none, not, refl, some, subst, sym, true, ℕ, ◌&&◌, ◌<◌, ◌∙◌, ◌≡◌, ◌⊎◌}
use walden.Base.Word.{word}
use walden.Paging.{AddressSpaceBits, PagingLayout, build_layout, is_page_aligned}
use walden.Paging.{level_count_from_virtual_address_bits, max_supported_level_count}
use walden.Paging.{validate_virtual_address}
use walden.Paging.Tables.{Memory, translate}
use walden.Paging.Tables.Mapping.{SamePage}
use walden.Paging.Tables.Pages.{Rooted, level_lem, mask_lem, root_test, translate_lem}
use walden.Paging.Tables.Unmapping.{unmap_leaf, unmap_page, unmap_page_in, walk_tables}
use walden.Paging.Tables.Unmapping.Removal.{Unmaps, miscounted, nothing_mapped, removed}
use walden.Paging.Tables.Unmapping.Removal.{walk-Unmaps}
use walden.Paging.Tables.Walks.{Setting, Tree, mask_of, resolve}

few_levels :
    (bits : AddressSpaceBits) (l : PagingLayout)
    → build_layout bits ≡ some l
    → ltb max_supported_level_count l.level_count ≡ false
unfolding build_layout level_count_from_virtual_address_bits
few_levels bits l e = ground (arith, e)

module _ (c : Setting) (root : ℕ) (bits : AddressSpaceBits) (l : PagingLayout)
    (rooted : Rooted c root bits l) (spot : ℕ → Option (List ℕ)) (s : Memory) (tree : Tree c spot s)
    (v : ℕ) where
  abbrev leaf_unmapped : Bool × Memory
  leaf_unmapped =
      unmap_leaf (mask_of c) bits v s (walk_tables c.machine s (mask_of c) v c.top_level root [])

  tests :
      {A : Type 0} (v a : Bool) (failure success : A)
      → (if not v then failure else if not a then failure else success)
        ≡ (if v && a then success else failure)
  tests v a failure success = ground arith

  unmap_page_lem :
      unmap_page c.machine s root v bits
      ≡ (if validate_virtual_address v l && is_page_aligned v then leaf_unmapped else (false, s))
  unfolding unmap_page unmap_page_in
  unmap_page_lem =
      rw
        (
          rooted.layout,
          root_test c root bits l rooted,
          few_levels bits l rooted.layout,
          mask_lem c root bits l rooted,
          level_lem c root bits l rooted,
        )
        (tests (validate_virtual_address v l) (is_page_aligned v) (false, s) leaf_unmapped)

  -- What `Translate` gives after the call, by its results before.
  abbrev pub Removes : Bool × Memory → Type 0
  Removes r =
      ((spot' : ℕ → Option (List ℕ)) × Tree c spot' r.1)
      × (((r.0 ≡ false)
            × ((w : ℕ) → translate c.machine r.1 root w bits ≡ translate c.machine s root w bits))
          ⊎ ((q : ℕ) × (translate c.machine s root v bits ≡ some q)
              × ((w : ℕ) → SamePage c w v → translate c.machine r.1 root w bits ≡ none)
              × ((w : ℕ)
                  → ¬ SamePage c w v
                  → translate c.machine r.1 root w bits ≡ translate c.machine s root w bits)))

  removes :
      (r : Bool × Memory)
      → validate_virtual_address v l ≡ true
      → Unmaps c spot s tree v bits r
      → Removes r
  removes r valid (nothing_mapped e) = ((spot, tree), inl (refl, λ w. refl))
  removes r valid (miscounted p e) = ((spot, tree), inl (refl, λ w. refl))
  removes _ valid (removed r q spot' mapped_to after gone rest) = (
    (spot', after),
    inr (
      q,
      translate_lem c root bits l rooted s v
          ∙ ap (λ b. if b then resolve c s v c.top_level c.top else none) valid
          ∙ mapped_to,
      λ w same.
          translate_lem c root bits l rooted r.1 w
          ∙ ap (λ o. if validate_virtual_address w l then o else none) (gone w same)
          ∙ ground arith,
      λ w other.
          translate_lem c root bits l rooted r.1 w
          ∙ ap (λ o. if validate_virtual_address w l then o else none) (rest w other)
          ∙ sym (translate_lem c root bits l rooted s w),
    ),
  )

  -- For the root of a tree, at a 64-bit address, `UnmapPage4KiB` leaves a tree. Either it returns false, and
  -- every translation is what it was. Or the page was mapped, and then, whatever it returns, no address of
  -- the page translates any more, and the other addresses translate to what they did.
  pub translate-unmap_page : root < word → Removes (unmap_page c.machine s root v bits)
  translate-unmap_page small =
      elim (Bool-cases (validate_virtual_address v l && is_page_aligned v)) [
        | inr bad ↦
            subst Removes
              (sym (unmap_page_lem ∙ ap (λ b. if b then leaf_unmapped else (false, s)) bad))
              ((spot, tree), inl (refl, λ w. refl))
        | inl ok ↦
            subst Removes
              (sym (unmap_page_lem ∙ ap (λ b. if b then leaf_unmapped else (false, s)) ok))
              (removes leaf_unmapped (ground (arith, ok))
                (walk-Unmaps c spot s tree v bits root small rooted.at))
      ]
