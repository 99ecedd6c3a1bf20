-- ===== src/Paging/Tables/Progress.antt =====
-- rocinante/src/memory/paging.cpp, `EnsureNextLevelTable` and the descent of `MapPage4KiB`.
use walden.Base.{==→≡, Bool-cases, List, Option, [], ap, arith, bit_and, false, inl, inr, length}
use walden.Base.{none, refl, some, some-injective, subst, sym, true, update, ℕ, ◌&&◌, ◌+◌, ◌<◌}
use walden.Base.{◌==◌, ◌∙◌, ◌∷◌, ◌≡◌, ◌≢◌}
use walden.Base.Word.{word}
use walden.Paging.{encode_table_pointer, entries_per_table, entry_is_present, global_bit}
use walden.Paging.{is_page_aligned, page_table_page_from_physical}
use walden.Paging.Entries.{table_pointer_of_base}
use walden.Paging.Flags.{is_page_aligned_lem, zero-absent}
use walden.Paging.Tables.{Memory, clear_table, ensure_next_level_table, install_table}
use walden.Paging.Tables.{write_entry}
use walden.Paging.Tables.Growth.{Grows, resolve-Grows}
use walden.Paging.Tables.Walks.{Setting, Tree, child_of, frame, list-head, list-tail, mask_of}
use walden.Paging.Tables.Walks.{placed-nonnull, resolve, table_of}
use walden.Pmm.{Pmm, allocate_page, is_page_used, page_index_to_physical, take_page}
use walden.Pmm.Address.{page_index_to_physical_lem}
use walden.Pmm.Allocate.{Takes, allocate_page_cases, from_cursor}

-- From one tree to a later one: the tables keep their places and their present entries, and every walk
-- finds what it found before.
pub record Progress (c : Setting) (spot : ℕ → Option (List ℕ)) (s : Memory)
    (spot' : ℕ → Option (List ℕ)) (s' : Memory) : Type 0 where
  pub tree : Tree c spot' s'
  pub extends : (u : ℕ) (ρ : List ℕ) → spot u ≡ some ρ → spot' u ≡ some ρ
  pub keeps :
      (u j : ℕ) (ρ : List ℕ)
      → spot u ≡ some ρ
      → entry_is_present (s.tables u j) ≡ true
      → s'.tables u j ≡ s.tables u j
  pub walks :
      (v l u : ℕ) (ρ : List ℕ)
      → spot u ≡ some ρ
      → l + length ρ ≡ c.top_level
      → resolve c s' v l u ≡ resolve c s v l u

pub Progress-refl :
    (c : Setting) (spot : ℕ → Option (List ℕ)) (s : Memory)
    → Tree c spot s
    → Progress c spot s spot s
Progress-refl c spot s tree = record {
  tree = tree;
  extends = λ u ρ known. known;
  keeps = λ u j ρ known there. refl;
  walks = λ v l u ρ known depth. refl;
}

pub Progress-trans :
    (c : Setting) (spot₀ : ℕ → Option (List ℕ)) (s₀ : Memory) (spot₁ : ℕ → Option (List ℕ))
    (s₁ : Memory) (spot₂ : ℕ → Option (List ℕ)) (s₂ : Memory)
    → Progress c spot₀ s₀ spot₁ s₁
    → Progress c spot₁ s₁ spot₂ s₂
    → Progress c spot₀ s₀ spot₂ s₂
Progress-trans c spot₀ s₀ spot₁ s₁ spot₂ s₂ p q = record {
  tree = q.tree;
  extends = λ u ρ known. q.extends u ρ (p.extends u ρ known);
  keeps = λ u j ρ known there.
      let kept = p.keeps u j ρ known there in
      q.keeps u j ρ (p.extends u ρ known) (ap entry_is_present kept ∙ there) ∙ kept;
  walks = λ v l u ρ known depth.
      q.walks v l u ρ (p.extends u ρ known) depth ∙ p.walks v l u ρ known depth;
}

-- The state after a page `n` of the manager has become the table below `t` at `i`.
abbrev installed : Setting → Memory → Pmm → ℕ → ℕ → ℕ → Memory
unfolding write_entry clear_table
installed c s pmm t i n =
    write_entry (clear_table (record s { pmm = pmm }) (table_of c n)) t i
      (encode_table_pointer (frame c.base n) (mask_of c))

module _ (c : Setting) (spot : ℕ → Option (List ℕ)) (s : Memory) (tree : Tree c spot s) where
  module _ (t i n : ℕ) (π : List ℕ) (pmm : Pmm) (at : spot t ≡ some π)
      (above : length π < c.top_level) (index : i < entries_per_table)
      (absent : entry_is_present (s.tables t i) ≡ false) (takes : Takes s.pmm n pmm) where
    small_n : n < c.count
    small_n = subst (λ k. n < k) tree.same_count takes.in_range

    -- A free page is no table of the root's.
    fresh : (u : ℕ) (ρ : List ℕ) → spot u ≡ some ρ → (table_of c n == u) ≡ false
    fresh u ρ known = elim (Bool-cases (table_of c n == u)) [
      | inr apart ↦ apart
      | inl same ↦
          let (k, h, e, used) = tree.owned u ρ known in
          let equal = c.apart n k small_n h (==→≡ _ u same ∙ e) in
          absurd (
            ground
              (arith, subst (λ j. is_page_used s.pmm j ≡ true) (sym equal) used, takes.was_free))
    ]

    abbrev next_place : ℕ → Option (List ℕ)
    next_place = update spot (table_of c n) (some (i ∷ π))

    page_lt : frame c.base n < word
    page_lt = omega (arith, c.limit, small_n)

    entry : (installed c s pmm t i n).tables t i ≡ encode_table_pointer (frame c.base n) (mask_of c)
    unfolding installed
    entry = ground arith

    installed-Grows : Grows c spot s t i (table_of c n) (installed c s pmm t i n)
    unfolding installed
    installed-Grows =
        let (there, small, leads) =
          table_pointer_of_base c.physical_bits c.least c.most (frame c.base n) page_lt
            (c.fits n small_n) in
        record {
          elsewhere = λ u j ρ known other. ground (arith, fresh u ρ known, other);
          linked = ap entry_is_present entry ∙ there;
          small = ap (λ e. bit_and e global_bit) entry ∙ small;
          leads = ap (child_of c) entry ∙ ap (page_table_page_from_physical c.machine) leads;
          zeros = λ j. ground (arith, fresh t π at);
        }

    grown : (u : ℕ) (ρ : List ℕ) → spot u ≡ some ρ → next_place u ≡ some ρ
    grown u ρ known = rw (fresh u ρ known) known

    placed_new : next_place (table_of c n) ≡ some (i ∷ π)
    placed_new = ground arith

    installed-owned :
        (u : ℕ) (ρ : List ℕ)
        → next_place u ≡ some ρ
        → (k : ℕ) × (k < c.count) × (u ≡ table_of c k) × (is_page_used pmm k ≡ true)
    installed-owned u ρ known = elim (Bool-cases (table_of c n == u)) [
      | inl new ↦ (n, small_n, sym (==→≡ _ u new), ground (arith, takes.used_after n))
      | inr old ↦
          let (k, h, e, used) = tree.owned u ρ (ground (arith, old, known)) in
          (k, h, e, ground (arith, takes.used_after k, used))
    ]

    installed-nonnull : (u : ℕ) (ρ : List ℕ) → next_place u ≡ some ρ → u ≢ 0
    installed-nonnull u ρ known = elim (Bool-cases (table_of c n == u)) [
      | inl new ↦ subst (λ x. x ≢ 0) (==→≡ _ u new) (tree.free_nonnull n small_n takes.was_free)
      | inr old ↦ tree.nonnull u ρ (ground (arith, old, known))
    ]

    still_free-nonnull : (k : ℕ) → k < c.count → is_page_used pmm k ≡ false → table_of c k ≢ 0
    still_free-nonnull k h free = tree.free_nonnull k h (elim (Bool-cases (n == k)) [
      | inl taken ↦ absurd (ground (arith, takes.used_after k, taken, free))
      | inr other ↦ ground (arith, takes.used_after k, other, free)
    ])

    installed-children :
        (u : ℕ) (ρ : List ℕ) (j : ℕ)
        → next_place u ≡ some ρ
        → length ρ < c.top_level
        → j < entries_per_table
        → entry_is_present ((installed c s pmm t i n).tables u j) ≡ true
        → (bit_and ((installed c s pmm t i n).tables u j) global_bit ≡ 0)
          × (next_place (child_of c ((installed c s pmm t i n).tables u j)) ≡ some (j ∷ ρ))
    installed-children u ρ j known higher small_index there =
        let s' = installed c s pmm t i n in
        elim (Bool-cases (table_of c n == u)) [
          | inl new ↦
              let zero_entry : s'.tables u j ≡ 0 =
                subst (λ x. s'.tables x j ≡ 0) (==→≡ _ u new) (installed-Grows.zeros j) in
              absurd (ground (arith, ap entry_is_present zero_entry ∙ zero-absent, there))
          | inr old ↦
              let before : spot u ≡ some ρ = ground (arith, old, known) in
              elim (Bool-cases ((t == u) && (i == j))) [
                | inr other ↦
                    let same = installed-Grows.elsewhere u j ρ before other in
                    let (small, placed) =
                      tree.children u ρ j before higher small_index
                        (ap entry_is_present (sym same) ∙ there) in
                    subst
                      (λ e. (bit_and e global_bit ≡ 0) × (next_place (child_of c e) ≡ some (j ∷ ρ)))
                      (sym same) (small, grown _ (j ∷ ρ) placed)
                | inl this ↦
                    let tu = ==→≡ t u (ground (arith, this)) in
                    let ij = ==→≡ i j (ground (arith, this)) in
                    let ρπ = some-injective π ρ (sym at ∙ ap spot tu ∙ before) in
                    rw (sym tu, sym ij, sym ρπ)
                      (installed-Grows.small, ap next_place installed-Grows.leads ∙ placed_new)
              ]
        ]

    installed-linked :
        (u k : ℕ) (ρ : List ℕ)
        → next_place u ≡ some (k ∷ ρ)
        → (x : ℕ) × (next_place x ≡ some ρ)
          × (length ρ < c.top_level)
          × (k < entries_per_table)
          × (entry_is_present ((installed c s pmm t i n).tables x k) ≡ true)
          × (child_of c ((installed c s pmm t i n).tables x k) ≡ u)
    installed-linked u k ρ known = elim (Bool-cases (table_of c n == u)) [
      | inl new ↦
          let places : i ∷ π ≡ k ∷ ρ = some-injective _ _ (ground (arith, known, new)) in
          rw (sym (list-head places), sym (list-tail places))
            (
              t,
              grown t π at,
              above,
              index,
              installed-Grows.linked,
              installed-Grows.leads ∙ ==→≡ _ u new,
            )
      | inr old ↦
          let (x, place_x, higher, small, there, leads) =
            tree.linked u k ρ (ground (arith, known, old)) in
          let apart : ((t == x) && (i == k)) ≡ false = elim (Bool-cases ((t == x) && (i == k))) [
            | inr other ↦ other
            | inl this ↦
                let now =
                  subst (λ z. entry_is_present (s.tables z i) ≡ false)
                    (==→≡ t x (ground (arith, this))) absent in
                let now_k =
                  subst (λ z. entry_is_present (s.tables x z) ≡ false)
                    (==→≡ i k (ground (arith, this))) now in
                absurd (ground (arith, now_k, there))
          ] in
          let kept = installed-Grows.elsewhere x k ρ place_x apart in
          (
            x,
            grown x ρ place_x,
            higher,
            small,
            ap entry_is_present kept ∙ there,
            ap (child_of c) kept ∙ leads,
          )
    ]

    installed-Progress : Progress c spot s next_place (installed c s pmm t i n)
    unfolding installed
    installed-Progress = record {
      tree = record {
        manager = takes.well_formed;
        same_base = takes.same_span.0 ∙ tree.same_base;
        same_count = takes.same_span.2 ∙ tree.same_count;
        rooted = grown c.top [] tree.rooted;
        owned = installed-owned;
        nonnull = installed-nonnull;
        free_nonnull = still_free-nonnull;
        children = installed-children;
        linked = installed-linked;
        only_top = λ u known. elim (Bool-cases (table_of c n == u)) [
          | inl new ↦ absurd (ground (arith, known, new))
          | inr old ↦ tree.only_top u (ground (arith, known, old))
        ];
      };
      extends = grown;
      keeps = λ u j ρ known there. elim (Bool-cases ((t == u) && (i == j))) [
        | inr other ↦ installed-Grows.elsewhere u j ρ known other
        | inl this ↦
            let now =
              subst (λ x. entry_is_present (s.tables x i) ≡ false) (==→≡ t u (ground (arith, this)))
                absent in
            let there_i =
              subst (λ x. entry_is_present (s.tables u x) ≡ false) (==→≡ i j (ground (arith, this)))
                now in
            absurd (ground (arith, there_i, there))
      ];
      walks =
          resolve-Grows c spot s tree t i (table_of c n) π (installed c s pmm t i n) at above absent
            installed-Grows;
    }

  -- What `EnsureNextLevelTable` returns at a table of the root above the leaves: the next table down,
  -- which is in its place; or none, where every page of the manager is used.
  pub data Ensures (t i : ℕ) (π : List ℕ) : Option ℕ × Memory → Type 0 where
    exhausted : ((n : ℕ) → n < c.count → is_page_used s.pmm n ≡ true) → Ensures t i π (none, s)
    ensured :
        (child : ℕ) (spot' : ℕ → Option (List ℕ)) (s' : Memory)
        → Progress c spot s spot' s'
        → spot' child ≡ some (i ∷ π)
        → entry_is_present (s'.tables t i) ≡ true
        → child_of c (s'.tables t i) ≡ child
        → Ensures t i π (some child, s')

  installs :
      (t i : ℕ) (π : List ℕ)
      → spot t ≡ some π
      → length π < c.top_level
      → i < entries_per_table
      → entry_is_present (s.tables t i) ≡ false
      → Ensures t i π (install_table c.machine (mask_of c) t i s (allocate_page s.pmm))
  unfolding install_table installed
  installs t i π at above index absent = elim (allocate_page_cases s.pmm tree.manager) [
    | inr (e, used) ↦ rw e (exhausted (λ n h. used n (subst (λ k. n < k) (sym tree.same_count) h)))
    | inl (k, e, takes, earlier) ↦
        let n = from_cursor s.pmm tree.manager k in
        let address : page_index_to_physical s.pmm n ≡ frame c.base n =
          page_index_to_physical_lem s.pmm tree.manager n takes.in_range
          ∙ ap (λ b. frame b n) tree.same_base in
        let aligned : is_page_aligned (frame c.base n) ≡ true = ground (
          arith,
          is_page_aligned_lem (frame c.base n),
          tree.manager.base_aligned,
          tree.same_base,
        ) in
        let pmm = take_page s.pmm n in
        let grows = installed-Grows t i n π pmm at above index absent takes in
        rw (e, address, aligned)
          (ensured (table_of c n) _ _ (installed-Progress t i n π pmm at above index absent takes)
            (placed_new t i n π pmm at above index absent takes) grows.linked grows.leads)
  ]

  pub ensure_next_level_table-Ensures :
      (t i : ℕ) (π : List ℕ)
      → spot t ≡ some π
      → length π < c.top_level
      → i < entries_per_table
      → Ensures t i π (ensure_next_level_table c.machine (mask_of c) s t i)
  unfolding ensure_next_level_table
  ensure_next_level_table-Ensures t i π at above index =
      let some_table = placed-nonnull c spot s t π tree at in
      elim (Bool-cases (entry_is_present (s.tables t i))) [
        | inl there ↦
            let (small, placed) = tree.children t π i at above index there in
            subst (Ensures t i π) (sym (ground (arith, some_table, there, small))) (
              ensured (child_of c (s.tables t i)) spot s (Progress-refl c spot s tree) placed there
                refl)
        | inr absent ↦
            subst (Ensures t i π) (sym (ground (arith, some_table, absent)))
              (installs t i π at above index absent)
      ]
