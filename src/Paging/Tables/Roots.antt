-- ===== src/Paging/Tables/Roots.antt =====
-- rocinante/src/memory/paging.cpp: `AllocateRootPageTable`.
use walden.Base.{Bool-cases, List, Option, [], ap, arith, false, inl, inr, none, refl, some}
use walden.Base.{subst, sym, true, update, ℕ, ◌<◌, ◌==◌, ◌∙◌, ◌≡◌, ◌≢◌, ◌⊎◌}
use walden.Paging.{is_page_aligned}
use walden.Paging.Flags.{is_page_aligned_lem, zero-absent}
use walden.Paging.Tables.{Memory, allocate_root_page_table, clear_table, root_table}
use walden.Paging.Tables.Walks.{Setting, Tree, frame, resolve, resolve-zeros, table_of}
use walden.Pmm.{Pmm, is_page_used, page_index_to_physical, take_page}
use walden.Pmm.Address.{page_index_to_physical_lem}
use walden.Pmm.Allocate.{Takes, allocate_page_cases, from_cursor}
use walden.Pmm.Invariant.{IsWellFormed}

module _ (c : Setting) (s : Memory) (manager : IsWellFormed s.pmm)
    (same_base : s.pmm.tracked_physical_base ≡ c.base) (same_count : s.pmm.page_count ≡ c.count)
    (free_nonnull : (n : ℕ) → n < c.count → is_page_used s.pmm n ≡ false → table_of c n ≢ 0) where
  -- The setting with the table in the page `n` for the root's.
  abbrev pub at_root : ℕ → Setting
  at_root n = record c { top = table_of c n }

  abbrev pub root_only : ℕ → ℕ → Option (List ℕ)
  root_only n = update (λ t. none) (table_of c n) (some [])

  abbrev pub emptied : ℕ → Pmm → Memory
  emptied n pmm = clear_table (record s { pmm = pmm }) (table_of c n)

  small : (n : ℕ) (pmm : Pmm) → Takes s.pmm n pmm → n < c.count
  small n pmm takes = subst (λ k. n < k) same_count takes.in_range

  root-Tree :
      (n : ℕ) (pmm : Pmm) → Takes s.pmm n pmm → Tree (at_root n) (root_only n) (emptied n pmm)
  unfolding clear_table
  root-Tree n pmm takes = record {
    manager = takes.well_formed;
    same_base = takes.same_span.0 ∙ same_base;
    same_count = takes.same_span.2 ∙ same_count;
    rooted = ground arith;
    owned = λ t π known.
        (n, small n pmm takes, ground (arith, known), ground (arith, takes.used_after n));
    nonnull = λ t π known.
        subst (λ x. x ≢ 0) {x = table_of c n} (ground (arith, known))
          (free_nonnull n (small n pmm takes) takes.was_free);
    free_nonnull = λ k h free. free_nonnull k h (elim (Bool-cases (n == k)) [
      | inl taken ↦ absurd (ground (arith, takes.used_after k, taken, free))
      | inr other ↦ ground (arith, takes.used_after k, other, free)
    ]);
    children = λ t π i known above index there. absurd (ground (arith, known, zero-absent, there));
    linked = λ u i π known. absurd (ground (arith, known));
    only_top = λ u known. ground (arith, known);
  }

  root-zeros : (n : ℕ) (pmm : Pmm) (j : ℕ) → (emptied n pmm).tables (table_of c n) j ≡ 0
  unfolding clear_table
  root-zeros n pmm j = ground arith

  -- For a well-formed manager whose span is the setting's: it ends below 2 ^ 64, addresses of physical
  -- memory have 12 to 61 bits, the kernel accesses the pages of the span at addresses that differ from one
  -- another, at which no free page is null, and each page's address fits an entry. So in direct address
  -- translation the page of address 0 is not free. `AllocateRootPageTable` returns the address of a page
  -- that was free, which then is a tree of its own, in which no address leads anywhere; or it returns
  -- none, changes nothing, and every page of the manager is used.
  pub allocate_root-Tree :
      ((n : ℕ) × (pmm : Pmm) × (n < c.count)
        × (is_page_used s.pmm n ≡ false)
        × (allocate_root_page_table c.machine s ≡ (some (frame c.base n), emptied n pmm))
        × Tree (at_root n) (root_only n) (emptied n pmm)
        × ((w : ℕ) → resolve c (emptied n pmm) w c.top_level (table_of c n) ≡ none))
      ⊎ (allocate_root_page_table c.machine s ≡ (none, s))
        × ((n : ℕ) → n < c.count → is_page_used s.pmm n ≡ true)
  unfolding allocate_root_page_table root_table
  allocate_root-Tree = elim (allocate_page_cases s.pmm manager) [
    | inr (e, used) ↦ inr (rw e refl, λ n h. used n (subst (λ k. n < k) (sym same_count) h))
    | inl (k, e, takes, earlier) ↦
        let n = from_cursor s.pmm manager k in
        let pmm = take_page s.pmm n in
        let address : page_index_to_physical s.pmm n ≡ frame c.base n =
          page_index_to_physical_lem s.pmm manager n takes.in_range
          ∙ ap (λ b. frame b n) same_base in
        let aligned : is_page_aligned (frame c.base n) ≡ true =
          ground (arith, is_page_aligned_lem (frame c.base n), manager.base_aligned, same_base) in
        inl (
          n,
          pmm,
          subst (λ m. n < m) same_count takes.in_range,
          takes.was_free,
          rw (e, address, aligned) refl,
          root-Tree n pmm takes,
          λ w. resolve-zeros c (emptied n pmm) w c.top_level (table_of c n) (root-zeros n pmm),
        )
  ]
