-- ===== src/Paging/Tables/Leaves.antt =====
-- rocinante/src/memory/paging.cpp: writes of an entry in a leaf table.
use walden.Base.{==→≡, Bool-cases, List, Option, Option-cases, ap, arith, bit_and, false, fun_ext}
use walden.Base.{if◌then◌else◌, inl, inr, length, none, refl, some, some-injective, subst, suc}
use walden.Base.{sym, zero, ℕ, ◌&&◌, ◌+◌, ◌<◌, ◌==◌, ◌∙◌, ◌∷◌, ◌≡◌, ◌≢◌}
use walden.Base.Word.{add64}
use walden.Paging.{entry_is_present, entry_physical_page_base, global_bit}
use walden.Paging.{index_from_virtual_address_at_level, page_offset_mask}
use walden.Paging.Tables.{Memory, leaf_table, translated, write_entry}
use walden.Paging.Tables.Walks.{Setting, Tree, child_of, index-lt, leaf_table-absent}
use walden.Paging.Tables.Walks.{leaf_table-present, mask_of, resolve}
use walden.Pmm.{Pmm, is_page_used}
use walden.Pmm.Invariant.{IsWellFormed}

-- The manager has the same pages, and counts the same ones as used.
pub record SamePages (pmm pmm' : Pmm) : Type 0 where
  pub manager : IsWellFormed pmm'
  pub base : pmm'.tracked_physical_base ≡ pmm.tracked_physical_base
  pub count : pmm'.page_count ≡ pmm.page_count
  pub used : (n : ℕ) → is_page_used pmm' n ≡ is_page_used pmm n

pub SamePages-refl : (pmm : Pmm) → IsWellFormed pmm → SamePages pmm pmm
SamePages-refl pmm v = record { manager = v; base = refl; count = refl; used = λ n. refl }

-- What a lookup gives for an entry.
abbrev pub read_entry : Setting → ℕ → ℕ → Option ℕ
read_entry c v entry =
    if entry_is_present entry
    then some (add64 (entry_physical_page_base entry (mask_of c)) (bit_and v page_offset_mask))
    else none

abbrev pub written : Memory → Pmm → ℕ → ℕ → ℕ → Memory
written s pmm u j e = write_entry (record s { pmm = pmm }) u j e

-- Writing an entry and then zero is writing zero.
pub written-twice :
    (s : Memory) (pmm : Pmm) (u j e : ℕ)
    → written (written s s.pmm u j e) pmm u j 0 ≡ written s pmm u j 0
unfolding write_entry
written-twice s pmm u j e =
    ap (λ (f : ℕ → ℕ → ℕ). record s { pmm = pmm; tables = f })
      (fun_ext (λ x. fun_ext (λ y. ground arith)))

module _ (c : Setting) (spot : ℕ → Option (List ℕ)) (s : Memory) (tree : Tree c spot s) where
  module _ (pmm : Pmm) (same : SamePages s.pmm pmm) (u j e : ℕ) (ρ : List ℕ) (at : spot u ≡ some ρ)
      (leaf : length ρ ≡ c.top_level) where
    -- No table above the leaves is the one that is written.
    higher : (t : ℕ) (π : List ℕ) → spot t ≡ some π → length π < c.top_level → (u == t) ≡ false
    higher t π known above = elim (Bool-cases (u == t)) [
      | inr apart ↦ apart
      | inl equal ↦
          let lengths =
            ap length (some-injective ρ π (sym at ∙ ap spot (==→≡ u t equal) ∙ known)) in
          absurd (omega (arith, lengths, leaf, above))
    ]

    higher-entry :
        (t i : ℕ) (π : List ℕ)
        → spot t ≡ some π
        → length π < c.top_level
        → (written s pmm u j e).tables t i ≡ s.tables t i
    unfolding write_entry
    higher-entry t i π known above = ground (arith, higher t π known above)

    pub written-Tree : Tree c spot (written s pmm u j e)
    unfolding write_entry
    written-Tree = record {
      manager = same.manager;
      same_base = same.base ∙ tree.same_base;
      same_count = same.count ∙ tree.same_count;
      rooted = tree.rooted;
      owned = λ t π known.
          let (n, h, address, used) = tree.owned t π known in (n, h, address, same.used n ∙ used);
      nonnull = tree.nonnull;
      free_nonnull = λ n h free. tree.free_nonnull n h (sym (same.used n) ∙ free);
      children = λ t π i known above index there.
          let kept = higher-entry t i π known above in
          subst (λ x. (bit_and x global_bit ≡ 0) × (spot (child_of c x) ≡ some (i ∷ π))) (sym kept)
            (tree.children t π i known above index (ap entry_is_present (sym kept) ∙ there));
      linked = λ x i π known.
          let (t, place_t, above, small, there, leads) = tree.linked x i π known in
          let kept = higher-entry t i π place_t above in
          (
            t,
            place_t,
            above,
            small,
            ap entry_is_present kept ∙ there,
            ap (child_of c) kept ∙ leads,
          );
      only_top = tree.only_top;
    }

    pub leaf_table-written :
        (w l t : ℕ) (π : List ℕ)
        → spot t ≡ some π
        → l + length π ≡ c.top_level
        → leaf_table c.machine (written s pmm u j e) (mask_of c) w l t
          ≡ leaf_table c.machine s (mask_of c) w l t
    unfolding leaf_table
    leaf_table-written w zero t π known depth = refl
    leaf_table-written w (suc l) t π known depth =
        let i = index_from_virtual_address_at_level w (suc l) in
        let above : length π < c.top_level = omega (arith, depth) in
        let kept = higher-entry t i π known above in
        let s' = written s pmm u j e in
        elim (Bool-cases (entry_is_present (s.tables t i))) [
          | inr missing ↦
              leaf_table-absent c s' w l t (ap entry_is_present kept ∙ missing)
              ∙ sym (leaf_table-absent c s w l t missing)
          | inl there ↦
              let (small, placed) = tree.children t π i known above (index-lt w (suc l)) there in
              leaf_table-present c spot s' w l t π written-Tree known above
                (ap entry_is_present kept ∙ there)
              ∙ ap (λ x. leaf_table c.machine s' (mask_of c) w l (child_of c x)) kept
              ∙ leaf_table-written w l (child_of c (s.tables t i)) (i ∷ π) placed
                  (omega (arith, depth))
              ∙ sym (leaf_table-present c spot s w l t π tree known above there)
        ]

    -- A walk that ends at the entry finds what is written there.
    pub resolve-at :
        (w l t : ℕ) (π : List ℕ)
        → spot t ≡ some π
        → l + length π ≡ c.top_level
        → leaf_table c.machine s (mask_of c) w l t ≡ some u
        → index_from_virtual_address_at_level w 0 ≡ j
        → resolve c (written s pmm u j e) w l t ≡ read_entry c w e
    unfolding translated write_entry
    resolve-at w l t π known depth found index =
        ap (translated (written s pmm u j e) (mask_of c) w)
          (leaf_table-written w l t π known depth ∙ found)
        ∙ ap (read_entry c w) (ground (arith, index))

    -- The other walks find what they found.
    pub resolve-elsewhere :
        (w l t : ℕ) (π : List ℕ)
        → spot t ≡ some π
        → l + length π ≡ c.top_level
        → (leaf_table c.machine s (mask_of c) w l t ≡ some u
            → index_from_virtual_address_at_level w 0 ≢ j)
        → resolve c (written s pmm u j e) w l t ≡ resolve c s w l t
    unfolding translated write_entry
    resolve-elsewhere w l t π known depth other =
        let s' = written s pmm u j e in
        let walk = leaf_table-written w l t π known depth in
        elim (Option-cases (leaf_table c.machine s (mask_of c) w l t)) [
          | inl nothing ↦
              ap (translated s' (mask_of c) w) (walk ∙ nothing)
              ∙ sym (ap (translated s (mask_of c) w) nothing)
          | inr (x, found) ↦
              let i = index_from_virtual_address_at_level w 0 in
              let kept : s'.tables x i ≡ s.tables x i = elim (Bool-cases ((u == x) && (j == i))) [
                | inl this ↦ absurd (
                    other (found ∙ ap some (sym (==→≡ u x (ground (arith, this)))))
                      (sym (==→≡ j i (ground (arith, this)))))
                | inr apart ↦ ground (arith, apart)
              ] in
              ap (translated s' (mask_of c) w) (walk ∙ found)
              ∙ ap (read_entry c w) kept
              ∙ sym (ap (translated s (mask_of c) w) found)
        ]

  -- Zero in place of an entry that is not present changes no walk.
  pub resolve-zero :
      (pmm : Pmm) (same : SamePages s.pmm pmm) (u j : ℕ) (ρ : List ℕ) (at : spot u ≡ some ρ)
      (leaf : length ρ ≡ c.top_level)
      → entry_is_present (s.tables u j) ≡ false
      → (w l t : ℕ) (π : List ℕ) → spot t ≡ some π
      → l + length π ≡ c.top_level
      → resolve c (written s pmm u j 0) w l t ≡ resolve c s w l t
  unfolding translated
  resolve-zero pmm same u j ρ at leaf absent w l t π known depth =
      let i = index_from_virtual_address_at_level w 0 in
      elim (Option-cases (leaf_table c.machine s (mask_of c) w l t)) [
        | inl nothing ↦
            resolve-elsewhere pmm same u j 0 ρ at leaf w l t π known depth
              (λ found. absurd (ground (arith, nothing, found)))
        | inr (x, found) ↦ elim (Bool-cases ((x == u) && (i == j))) [
          | inr apart ↦ resolve-elsewhere pmm same u j 0 ρ at leaf w l t π known depth (λ now index.
              absurd (ground (arith, some-injective x u (sym found ∙ now), index, apart)))
          | inl this ↦
              let xu = ==→≡ x u (ground (arith, this)) in
              let ij = ==→≡ i j (ground (arith, this)) in
              let before : entry_is_present (s.tables x i) ≡ false = rw (xu, ij) absent in
              let zero_read : read_entry c w 0 ≡ none = refl in
              resolve-at pmm same u j 0 ρ at leaf w l t π known depth (found ∙ ap some xu) ij
              ∙ zero_read
              ∙ sym (ap (translated s (mask_of c) w) found ∙ rw before refl)
        ]
      ]
