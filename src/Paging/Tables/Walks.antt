-- ===== src/Paging/Tables/Walks.antt =====
-- rocinante/src/memory/paging.cpp: the tree that the tables of a root form, and walks in it.
use walden.Base.{==→≡, ==→≢, Bool-cases, List, Option, [], ap, arith, bit_and, false, inl, inr}
use walden.Base.{length, none, refl, some, some-injective, subst, suc, sym, true, zero, ℕ, ◌*◌}
use walden.Base.{◌+◌, ◌/◌, ◌<◌, ◌==◌, ◌^◌, ◌∙◌, ◌∷◌, ◌≡◌, ◌≢◌, ◌≤◌}
use walden.Base.Bits.{bit_and-le_right}
use walden.Base.Word.{word}
use walden.Paging.{Machine, entries_per_table, entry_is_present, entry_physical_page_base}
use walden.Paging.{global_bit, index_bits_per_level, index_from_virtual_address_at_level}
use walden.Paging.{index_mask_for_level, page_shift_bits, page_table_page_from_physical}
use walden.Paging.{physical_page_base_mask_from_bits}
use walden.Paging.Flags.{zero-absent}
use walden.Paging.Tables.{Memory, leaf_table, translated}
use walden.Pmm.{is_page_used, page_size_bytes}
use walden.Pmm.Invariant.{IsWellFormed}

abbrev pub frame : ℕ → ℕ → ℕ
frame base n = base + n * page_size_bytes

-- A root's table, at which address the kernel accesses it, the number of the level above the leaves at
-- which it stands, and the pages of the manager: the kernel reaches them at addresses that differ from one
-- another, and their addresses fit an entry.
pub record Setting : Type 0 where
  pub machine : Machine
  pub physical_bits : ℕ
  pub top_level : ℕ
  pub top : ℕ
  pub base : ℕ
  pub count : ℕ
  pub least : 12 ≤ physical_bits
  pub most : physical_bits ≤ 61
  pub limit : base + count * page_size_bytes < word
  pub apart :
      (n k : ℕ)
      → n < count
      → k < count
      → page_table_page_from_physical machine (frame base n)
        ≡ page_table_page_from_physical machine (frame base k)
      → n ≡ k
  pub fits :
      (n : ℕ)
      → n < count
      → bit_and (frame base n) (physical_page_base_mask_from_bits physical_bits) ≡ frame base n

abbrev pub mask_of : Setting → ℕ
mask_of c = physical_page_base_mask_from_bits c.physical_bits

abbrev pub table_of : Setting → ℕ → ℕ
table_of c n = page_table_page_from_physical c.machine (frame c.base n)

abbrev pub child_of : Setting → ℕ → ℕ
child_of c entry =
    page_table_page_from_physical c.machine (entry_physical_page_base entry (mask_of c))

-- `spot` gives each table of the root its indices, the last one first. A table is in a page that the
-- manager counts as used, no table and no free page is accessed at the null address, below the leaves'
-- level its present entries point to the tables of their places, and no other table has a place.
pub record Tree (c : Setting) (spot : ℕ → Option (List ℕ)) (s : Memory) : Type 0 where
  pub manager : IsWellFormed s.pmm
  pub same_base : s.pmm.tracked_physical_base ≡ c.base
  pub same_count : s.pmm.page_count ≡ c.count
  pub rooted : spot c.top ≡ some []
  pub owned :
      (t : ℕ) (π : List ℕ)
      → spot t ≡ some π
      → (n : ℕ) × (n < c.count) × (t ≡ table_of c n) × (is_page_used s.pmm n ≡ true)
  pub nonnull : (t : ℕ) (π : List ℕ) → spot t ≡ some π → t ≢ 0
  pub free_nonnull : (n : ℕ) → n < c.count → is_page_used s.pmm n ≡ false → table_of c n ≢ 0
  pub children :
      (t : ℕ) (π : List ℕ) (i : ℕ)
      → spot t ≡ some π
      → length π < c.top_level
      → i < entries_per_table
      → entry_is_present (s.tables t i) ≡ true
      → (bit_and (s.tables t i) global_bit ≡ 0) × (spot (child_of c (s.tables t i)) ≡ some (i ∷ π))
  pub linked :
      (u i : ℕ) (π : List ℕ)
      → spot u ≡ some (i ∷ π)
      → (t : ℕ) × (spot t ≡ some π)
        × (length π < c.top_level)
        × (i < entries_per_table)
        × (entry_is_present (s.tables t i) ≡ true)
        × (child_of c (s.tables t i) ≡ u)
  pub only_top : (u : ℕ) → spot u ≡ some [] → u ≡ c.top

-- The indices on the way from a level down to the leaf tables, before those that lead to it.
unfoldable pub path : ℕ → ℕ → List ℕ → List ℕ
path v zero π = π
path v (suc l) π = path v l (index_from_virtual_address_at_level v (suc l) ∷ π)

pub length-path : (v l : ℕ) (π : List ℕ) → length (path v l π) ≡ l + length π
unfolding path
length-path v zero π = omega arith
length-path v (suc l) π =
    length-path v l (index_from_virtual_address_at_level v (suc l) ∷ π) ∙ omega arith

pub path-cong :
    (w v l : ℕ) (π : List ℕ)
    → ((k : ℕ)
        → k ≤ l
        → index_from_virtual_address_at_level w k ≡ index_from_virtual_address_at_level v k)
    → path w l π ≡ path v l π
unfolding path
path-cong w v zero π same = refl
path-cong w v (suc l) π same =
    ap (λ i. path w l (i ∷ π)) (same (suc l) (omega arith))
    ∙ path-cong w v l (index_from_virtual_address_at_level v (suc l) ∷ π)
        (λ k h. same k (omega arith))

pub list-head : {i j : ℕ} {π ρ : List ℕ} → i ∷ π ≡ j ∷ ρ → i ≡ j
list-head e = ground (arith, e)

pub list-tail : {i j : ℕ} {π ρ : List ℕ} → i ∷ π ≡ j ∷ ρ → π ≡ ρ
list-tail e = ground (arith, e)

pub path-injective :
    (w v l : ℕ) (π ρ : List ℕ)
    → path w l π ≡ path v l ρ
    → (π ≡ ρ)
      × ((k : ℕ)
          → 0 < k
          → k ≤ l
          → index_from_virtual_address_at_level w k ≡ index_from_virtual_address_at_level v k)
unfolding path
path-injective w v zero π ρ e = (e, λ k p q. absurd (omega arith))
path-injective w v (suc l) π ρ e =
    let (heads, below) = path-injective w v l _ _ e in
    let tops = list-head heads in
    (
      list-tail heads,
      λ k p q. elim (Bool-cases (k == suc l)) [
        | inl now ↦
            subst
              (λ x.
                index_from_virtual_address_at_level w x ≡ index_from_virtual_address_at_level v x)
              (sym (==→≡ k (suc l) now)) tops
        | inr under ↦ below k p (ground (arith, ==→≢ k (suc l) under, q))
      ],
    )

pub index-lt : (v l : ℕ) → index_from_virtual_address_at_level v l < entries_per_table
unfolding index_from_virtual_address_at_level
index-lt v l =
    let x = v / 2 ^ (page_shift_bits + l * index_bits_per_level) in
    omega (arith, bit_and-le_right x x index_mask_for_level)

-- What a walk from a table at a level comes to.
abbrev pub resolve : Setting → Memory → ℕ → ℕ → ℕ → Option ℕ
resolve c s v l t = translated s (mask_of c) v (leaf_table c.machine s (mask_of c) v l t)

module _ (c : Setting) where
  pub placed-nonnull :
      (spot : ℕ → Option (List ℕ)) (s : Memory) (t : ℕ) (π : List ℕ)
      → Tree c spot s
      → spot t ≡ some π
      → (t == 0) ≡ false
  placed-nonnull spot s t π tree at =
      let some_address = tree.nonnull t π at in ground (arith, some_address)

  -- One step down, at a present entry of a table that is not a leaf.
  pub leaf_table-step :
      (s : Memory) (v l t : ℕ)
      → (t == 0) ≡ false
      → bit_and (s.tables t (index_from_virtual_address_at_level v (suc l))) global_bit ≡ 0
      → entry_is_present (s.tables t (index_from_virtual_address_at_level v (suc l))) ≡ true
      → leaf_table c.machine s (mask_of c) v (suc l) t
        ≡ leaf_table c.machine s
            (mask_of c)
            v
            l
            (child_of c (s.tables t (index_from_virtual_address_at_level v (suc l))))
  unfolding leaf_table
  leaf_table-step s v l t some_table small there = ground (arith, some_table, small, there)

  pub leaf_table-present :
      (spot : ℕ → Option (List ℕ)) (s : Memory) (v l t : ℕ) (π : List ℕ)
      → Tree c spot s
      → spot t ≡ some π
      → length π < c.top_level
      → entry_is_present (s.tables t (index_from_virtual_address_at_level v (suc l))) ≡ true
      → leaf_table c.machine s (mask_of c) v (suc l) t
        ≡ leaf_table c.machine s
            (mask_of c)
            v
            l
            (child_of c (s.tables t (index_from_virtual_address_at_level v (suc l))))
  leaf_table-present spot s v l t π tree at above there =
      let (small, placed) = tree.children t π _ at above (index-lt v (suc l)) there in
      leaf_table-step s v l t (placed-nonnull spot s t π tree at) small there

  pub leaf_table-absent :
      (s : Memory) (v l t : ℕ)
      → entry_is_present (s.tables t (index_from_virtual_address_at_level v (suc l))) ≡ false
      → leaf_table c.machine s (mask_of c) v (suc l) t ≡ none
  unfolding leaf_table
  leaf_table-absent s v l t absent = ground (arith, absent)

  -- A walk ends in the leaf table of its indices.
  pub leaf_table-placed :
      (spot : ℕ → Option (List ℕ)) (s : Memory)
      → Tree c spot s
      → (v l t : ℕ) (π : List ℕ) (u : ℕ) → spot t ≡ some π
      → l + length π ≡ c.top_level
      → leaf_table c.machine s (mask_of c) v l t ≡ some u
      → spot u ≡ some (path v l π)
  unfolding path leaf_table
  leaf_table-placed spot s tree v zero t π u at depth e =
      subst (λ x. spot x ≡ some π)
        (some-injective t u (ground (arith, placed-nonnull spot s t π tree at, e))) at
  leaf_table-placed spot s tree v (suc l) t π u at depth e =
      let i = index_from_virtual_address_at_level v (suc l) in
      let above : length π < c.top_level = omega (arith, depth) in
      elim (Bool-cases (entry_is_present (s.tables t i))) [
        | inr absent ↦ absurd (ground (arith, leaf_table-absent s v l t absent, e))
        | inl there ↦
            let (small, placed) = tree.children t π i at above (index-lt v (suc l)) there in
            leaf_table-placed spot s tree v l (child_of c (s.tables t i)) (i ∷ π) u placed
              (omega (arith, depth))
              (sym (leaf_table-present spot s v l t π tree at above there) ∙ e)
      ]

  -- A walk finds nothing in a table of zeros.
  pub resolve-zeros :
      (s : Memory) (v l t : ℕ) → ((j : ℕ) → s.tables t j ≡ 0) → resolve c s v l t ≡ none
  unfolding leaf_table translated
  resolve-zeros s v zero t zeros = elim (Bool-cases (t == 0)) [
    | inl null ↦ rw null refl
    | inr there ↦ rw (there, zeros (index_from_virtual_address_at_level v 0)) refl
  ]
  resolve-zeros s v (suc l) t zeros =
      let entry = zeros (index_from_virtual_address_at_level v (suc l)) in
      ap (translated s (mask_of c) v)
        (leaf_table-absent s v l t (ap entry_is_present entry ∙ zero-absent))

  -- Addresses with the same indices have the same walk.
  pub leaf_table-cong :
      (s : Memory) (w v l t : ℕ)
      → ((k : ℕ)
          → k ≤ l
          → index_from_virtual_address_at_level w k ≡ index_from_virtual_address_at_level v k)
      → leaf_table c.machine s (mask_of c) w l t ≡ leaf_table c.machine s (mask_of c) v l t
  unfolding leaf_table
  leaf_table-cong s w v zero t same = refl
  leaf_table-cong s w v (suc l) t same =
      let below =
        leaf_table-cong s w v l
          (child_of c (s.tables t (index_from_virtual_address_at_level v (suc l))))
          (λ k h. same k (omega arith)) in
      rw (same (suc l) (omega arith), below) refl
