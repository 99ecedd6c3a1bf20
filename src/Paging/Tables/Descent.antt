-- ===== src/Paging/Tables/Descent.antt =====
-- rocinante/src/memory/paging.cpp, `MapPage4KiB`: the descent to the leaf table.
use walden.Base.{List, Option, ap, arith, false, length, none, some, subst, suc, sym, true, zero}
use walden.Base.{ℕ, ◌+◌, ◌<◌, ◌==◌, ◌∙◌, ◌∷◌, ◌≡◌}
use walden.Paging.{entry_is_present, index_from_virtual_address_at_level}
use walden.Paging.Tables.{Memory, ensure_leaf_table, ensure_next_level_table, leaf_table}
use walden.Paging.Tables.Progress.{Ensures, Progress, Progress-refl, Progress-trans}
use walden.Paging.Tables.Progress.{ensure_next_level_table-Ensures, ensured, exhausted}
use walden.Paging.Tables.Walks.{Setting, Tree, child_of, index-lt, leaf_table-present, mask_of}
use walden.Paging.Tables.Walks.{placed-nonnull}
use walden.Pmm.{is_page_used}

module _ (c : Setting) where
  -- What the descent from a table at a level comes to: the leaf table that a walk finds from then on; or
  -- none, where every page of the manager is used.
  pub data Descends (spot : ℕ → Option (List ℕ)) (s : Memory) (v l t : ℕ)
      : Option ℕ × Memory → Type 0 where
    ran_out :
        (spot' : ℕ → Option (List ℕ)) (s' : Memory)
        → Progress c spot s spot' s'
        → ((n : ℕ) → n < c.count → is_page_used s'.pmm n ≡ true)
        → Descends spot s v l t (none, s')
    descended :
        (u : ℕ) (spot' : ℕ → Option (List ℕ)) (s' : Memory)
        → Progress c spot s spot' s'
        → leaf_table c.machine s' (mask_of c) v l t ≡ some u
        → Descends spot s v l t (some u, s')

  one_level :
      (s : Memory) (v l t : ℕ)
      → (t == 0) ≡ false
      → ensure_leaf_table c.machine (mask_of c) v (suc l) (some t, s)
        ≡ ensure_leaf_table c.machine (mask_of c) v l (
            ensure_next_level_table c.machine
              (mask_of c)
              s
              t
              (index_from_virtual_address_at_level v (suc l)))
  unfolding ensure_leaf_table
  one_level s v l t some_table = ground (arith, some_table)

  -- Above a descent from the next table down.
  above_next :
      (spot : ℕ → Option (List ℕ)) (s : Memory) (v l t child : ℕ) (π : List ℕ)
      (spot' : ℕ → Option (List ℕ)) (s' : Memory) (r : Option ℕ × Memory)
      → spot t ≡ some π
      → length π < c.top_level
      → Progress c spot s spot' s'
      → entry_is_present (s'.tables t (index_from_virtual_address_at_level v (suc l))) ≡ true
      → child_of c (s'.tables t (index_from_virtual_address_at_level v (suc l))) ≡ child
      → Descends spot' s' v l child r
      → Descends spot s v (suc l) t r
  above_next spot s v l t child π spot' s' r at above progress there leads
        (ran_out p s₂ later used) =
      ran_out p s₂ (Progress-trans c spot s spot' s' p s₂ progress later) used
  above_next spot s v l t child π spot' s' r at above progress there leads
        (descended u p s₂ later found) =
      let i = index_from_virtual_address_at_level v (suc l) in
      let at' = progress.extends t π at in
      let kept = later.keeps t i π at' there in
      descended u p s₂ (Progress-trans c spot s spot' s' p s₂ progress later) (
        leaf_table-present c p s₂ v l t π later.tree (later.extends t π at') above
          (ap entry_is_present kept ∙ there)
        ∙ ap (leaf_table c.machine s₂ (mask_of c) v l) (ap (child_of c) kept ∙ leads)
        ∙ found)

  one_step :
      (spot : ℕ → Option (List ℕ)) (s : Memory) (tree : Tree c spot s) (v l t : ℕ) (π : List ℕ)
      → spot t ≡ some π
      → length π < c.top_level
      → (p : Option ℕ × Memory)
      → Ensures c spot s tree t (index_from_virtual_address_at_level v (suc l)) π p
      → ((child : ℕ) (spot' : ℕ → Option (List ℕ)) (s' : Memory)
          → Tree c spot' s'
          → spot' child ≡ some (index_from_virtual_address_at_level v (suc l) ∷ π)
          → Descends spot' s' v l child
              (ensure_leaf_table c.machine (mask_of c) v l (some child, s')))
      → Descends spot s v (suc l) t (ensure_leaf_table c.machine (mask_of c) v l p)
  unfolding ensure_leaf_table
  one_step spot s tree v l t π at above p (exhausted used) next =
      ran_out spot s (Progress-refl c spot s tree) used
  one_step spot s tree v l t π at above p (ensured child spot' s' progress placed there leads)
        next =
      above_next spot s v l t child π spot' s' _ at above progress there leads
        (next child spot' s' progress.tree placed)

  pub ensure_leaf_table-Descends :
      (v l t : ℕ) (π : List ℕ) (spot : ℕ → Option (List ℕ)) (s : Memory)
      → Tree c spot s
      → spot t ≡ some π
      → l + length π ≡ c.top_level
      → Descends spot s v l t (ensure_leaf_table c.machine (mask_of c) v l (some t, s))
  unfolding ensure_leaf_table leaf_table
  ensure_leaf_table-Descends v zero t π spot s tree at depth =
      rw (placed-nonnull c spot s t π tree at) (
        descended t spot s (Progress-refl c spot s tree)
          (ground (arith, placed-nonnull c spot s t π tree at)))
  ensure_leaf_table-Descends v (suc l) t π spot s tree at depth =
      subst (Descends spot s v (suc l) t)
        (sym (one_level s v l t (placed-nonnull c spot s t π tree at)))
        (one_step spot s tree v l t π at above _
          (ensure_next_level_table-Ensures c spot s tree t _ π at above (index-lt v (suc l)))
          (λ child spot' s' tree' placed.
            ensure_leaf_table-Descends v l child _ spot' s' tree' placed (omega (arith, depth))))
    where
      above : length π < c.top_level
      above = omega (arith, depth)
