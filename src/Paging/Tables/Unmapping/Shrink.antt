-- ===== src/Paging/Tables/Unmapping/Shrink.antt =====
-- rocinante/src/memory/paging.cpp, `UnmapPage4KiB`: an empty table leaves the tree.
use walden.Base.{==→≡, Bool-cases, List, Option, [], ap, arith, bit_and, false, inl, inr, length}
use walden.Base.{none, refl, some, some-injective, subst, suc, sym, true, update, zero, ℕ, ◌&&◌}
use walden.Base.{◌+◌, ◌<◌, ◌==◌, ◌∙◌, ◌∷◌, ◌≡◌, ◌≢◌}
use walden.Paging.{entries_per_table, entry_is_present, global_bit}
use walden.Paging.{index_from_virtual_address_at_level}
use walden.Paging.Flags.{zero-absent}
use walden.Paging.Tables.{Memory, leaf_table, translated, write_entry}
use walden.Paging.Tables.Leaves.{written}
use walden.Paging.Tables.Walks.{Setting, Tree, child_of, index-lt, leaf_table-absent}
use walden.Paging.Tables.Walks.{leaf_table-present, leaf_table-step, list-head, list-tail}
use walden.Paging.Tables.Walks.{mask_of, placed-nonnull, resolve, table_of}
use walden.Pmm.{Pmm, is_page_used}
use walden.Pmm.Losing.{LosesOnly}

-- A table has one place, and a place one table.
pub one_place :
    (c : Setting) (spot : ℕ → Option (List ℕ)) (s : Memory)
    → Tree c spot s
    → (π : List ℕ) (t u : ℕ) → spot t ≡ some π
    → spot u ≡ some π
    → t ≡ u
one_place c spot s tree [] t u p q = tree.only_top t p ∙ sym (tree.only_top u q)
one_place c spot s tree (i ∷ π) t u p q =
    let (x, place_x, _, _, _, leads_x) = tree.linked t i π p in
    let (y, place_y, _, _, _, leads_y) = tree.linked u i π q in
    let same = one_place c spot s tree π x y place_x place_y in
    sym leads_x ∙ ap (λ z. child_of c (s.tables z i)) same ∙ leads_y

abbrev pub Empty : Memory → ℕ → Type 0
Empty s u = (j : ℕ) → j < entries_per_table → entry_is_present (s.tables u j) ≡ false

pub resolve-Empty :
    (c : Setting) (s : Memory) (u : ℕ) → Empty s u → (w l : ℕ) → resolve c s w l u ≡ none
unfolding leaf_table translated
resolve-Empty c s u empty w zero = elim (Bool-cases (u == 0)) [
  | inl null ↦ rw null refl
  | inr there ↦ rw (there, empty _ (index-lt w 0)) refl
]
resolve-Empty c s u empty w (suc l) =
    ap (translated s (mask_of c) w) (leaf_table-absent c s w l u (empty _ (index-lt w (suc l))))

module _ (c : Setting) (spot : ℕ → Option (List ℕ)) (s : Memory) (tree : Tree c spot s) where
  module _ (u i n : ℕ) (π : List ℕ) (pmm : Pmm) (at : spot u ≡ some (i ∷ π)) (empty : Empty s u)
      (page : u ≡ table_of c n) (loses : LosesOnly s.pmm n pmm) (t : ℕ)
      (parent : spot t ≡ some π) where
    abbrev pub without : ℕ → Option (List ℕ)
    without = update spot u none

    abbrev pub shrunk : Memory
    shrunk = written s pmm t i 0

    -- Another table of the tree.
    other_table : (x : ℕ) (ρ : List ℕ) → without x ≡ some ρ → ((u == x) ≡ false) × (spot x ≡ some ρ)
    other_table x ρ known = elim (Bool-cases (u == x)) [
      | inl this ↦ absurd (ground (arith, known, this))
      | inr apart ↦ (apart, ground (arith, known, apart))
    ]

    -- The entry that leads to the table is the one that is cleared.
    leads_here : child_of c (s.tables t i) ≡ u
    leads_here =
        let (x, place_x, _, _, _, leads) = tree.linked u i π at in
        ap (λ z. child_of c (s.tables z i)) (one_place c spot s tree π t x parent place_x) ∙ leads

    only_entry :
        (x j : ℕ) (ρ : List ℕ)
        → spot x ≡ some ρ
        → spot u ≡ some (j ∷ ρ)
        → ((t == x) && (i == j)) ≡ true
    only_entry x j ρ place_x place_u =
        let places = some-injective _ _ (sym at ∙ place_u) in
        let same =
          one_place c spot s tree π t x parent (place_x ∙ ap some (sym (list-tail places))) in
        ground (arith, list-head places, same)

    kept_entry : (x j : ℕ) → ((t == x) && (i == j)) ≡ false → shrunk.tables x j ≡ s.tables x j
    unfolding write_entry
    kept_entry x j apart = ground (arith, apart)

    cleared_entry : (x j : ℕ) → ((t == x) && (i == j)) ≡ true → shrunk.tables x j ≡ 0
    unfolding write_entry
    cleared_entry x j this = ground (arith, this)

    above : length π < c.top_level
    above = let (x, _, below_top, _, _, _) = tree.linked u i π at in below_top

    -- A table below another entry is still there.
    still_placed :
        (x j : ℕ) (ρ : List ℕ) (y : ℕ)
        → spot x ≡ some ρ
        → ((t == x) && (i == j)) ≡ false
        → spot y ≡ some (j ∷ ρ)
        → without y ≡ some (j ∷ ρ)
    still_placed x j ρ y place_x apart place_y = elim (Bool-cases (u == y)) [
      | inr other ↦ ground (arith, other, place_y)
      | inl same ↦
          let here = only_entry x j ρ place_x (ap spot (==→≡ u y same) ∙ place_y) in
          absurd (ground (arith, here, apart))
    ]

    resolve-leaf :
        (w x : ℕ) (ρ : List ℕ)
        → spot x ≡ some ρ
        → length ρ ≡ c.top_level
        → resolve c shrunk w 0 x ≡ resolve c s w 0 x
    unfolding leaf_table translated
    resolve-leaf w x ρ known depth =
        let j = index_from_virtual_address_at_level w 0 in
        let apart : ((t == x) && (i == j)) ≡ false = elim (Bool-cases (t == x)) [
          | inr other ↦ ground (arith, other)
          | inl same ↦
              let lengths =
                ap length (some-injective π ρ (sym parent ∙ ap spot (==→≡ t x same) ∙ known)) in
              absurd (omega (arith, lengths, depth, above))
        ] in
        rw (placed-nonnull c spot s x ρ tree known, kept_entry x j apart) refl

    -- A walk through the cleared entry found nothing in the empty table.
    resolve-cleared :
        (w l x : ℕ)
        → ((t == x) && (i == index_from_virtual_address_at_level w (suc l))) ≡ true
        → resolve c shrunk w (suc l) x ≡ resolve c s w (suc l) x
    unfolding translated
    resolve-cleared w l x this =
        let j = index_from_virtual_address_at_level w (suc l) in
        let tx = ==→≡ t x (ground (arith, this)) in
        let ij = ==→≡ i j (ground (arith, this)) in
        let gone =
          leaf_table-absent c shrunk w l x
            (ap entry_is_present (cleared_entry x j this) ∙ zero-absent) in
        let (y, place_y, _, small, there, leads) = tree.linked u i π at in
        let yx : y ≡ x = one_place c spot s tree π y t place_y parent ∙ tx in
        let there_x : entry_is_present (s.tables x j) ≡ true =
          subst (λ z. entry_is_present (s.tables x z) ≡ true) ij
            (subst (λ z. entry_is_present (s.tables z i) ≡ true) yx there) in
        let leads_x : child_of c (s.tables x j) ≡ u =
          subst (λ z. child_of c (s.tables x z) ≡ u) ij
            (subst (λ z. child_of c (s.tables z i) ≡ u) yx leads) in
        let walk =
          leaf_table-present c spot s w l x π tree (subst (λ z. spot z ≡ some π) tx parent) above
            there_x in
        ap (translated shrunk (mask_of c) w) gone
        ∙ sym (
            ap (translated s (mask_of c) w)
              (walk ∙ ap (leaf_table c.machine s (mask_of c) w l) leads_x)
            ∙ resolve-Empty c s u empty w l)

    pub resolve-shrunk :
        (w l x : ℕ) (ρ : List ℕ)
        → without x ≡ some ρ
        → l + length ρ ≡ c.top_level
        → resolve c shrunk w l x ≡ resolve c s w l x
    unfolding translated
    resolve-shrunk w zero x ρ known depth =
        resolve-leaf w x ρ (other_table x ρ known).1 (omega (arith, depth))
    resolve-shrunk w (suc l) x ρ known depth =
        let j = index_from_virtual_address_at_level w (suc l) in
        let (_, place_x) = other_table x ρ known in
        let higher : length ρ < c.top_level = omega (arith, depth) in
        elim (Bool-cases ((t == x) && (i == j))) [
          | inl this ↦ resolve-cleared w l x this
          | inr apart ↦
              let kept = kept_entry x j apart in
              elim (Bool-cases (entry_is_present (s.tables x j))) [
                | inr missing ↦
                    ap (translated shrunk (mask_of c) w)
                      (leaf_table-absent c shrunk w l x (ap entry_is_present kept ∙ missing))
                    ∙ sym (ap (translated s (mask_of c) w) (leaf_table-absent c s w l x missing))
                | inl there ↦
                    let (small, placed) =
                      tree.children x ρ j place_x higher (index-lt w (suc l)) there in
                    let some_table = placed-nonnull c spot s x ρ tree place_x in
                    ap (translated shrunk (mask_of c) w) (
                      leaf_table-step c shrunk w l x some_table
                        (ap (λ e. bit_and e global_bit) kept ∙ small)
                        (ap entry_is_present kept ∙ there)
                      ∙ ap (λ e. leaf_table c.machine shrunk (mask_of c) w l (child_of c e)) kept)
                    ∙ resolve-shrunk w l (child_of c (s.tables x j)) (j ∷ ρ)
                        (still_placed x j ρ _ place_x apart placed) (omega (arith, depth))
                    ∙ sym (
                        ap (translated s (mask_of c) w)
                          (leaf_table-step c s w l x some_table small there))
              ]
        ]

    shrunk-owned :
        (x : ℕ) (ρ : List ℕ)
        → without x ≡ some ρ
        → (k : ℕ) × (k < c.count) × (x ≡ table_of c k) × (is_page_used pmm k ≡ true)
    shrunk-owned x ρ known =
        let (apart, place_x) = other_table x ρ known in
        let (k, h, address, used) = tree.owned x ρ place_x in
        let other : (n == k) ≡ false = elim (Bool-cases (n == k)) [
          | inr differ ↦ differ
          | inl same ↦
              absurd (ground (arith, apart, page ∙ ap (table_of c) (==→≡ n k same) ∙ sym address))
        ] in
        (k, h, address, loses.used k other ∙ used)

    shrunk-nonnull : (k : ℕ) → k < c.count → is_page_used pmm k ≡ false → table_of c k ≢ 0
    shrunk-nonnull k h free = elim (Bool-cases (n == k)) [
      | inl same ↦
          subst (λ x. x ≢ 0) (page ∙ ap (table_of c) (==→≡ n k same)) (tree.nonnull u (i ∷ π) at)
      | inr other ↦ tree.free_nonnull k h (sym (loses.used k other) ∙ free)
    ]

    shrunk-children :
        (x : ℕ) (ρ : List ℕ) (j : ℕ)
        → without x ≡ some ρ
        → length ρ < c.top_level
        → j < entries_per_table
        → entry_is_present (shrunk.tables x j) ≡ true
        → (bit_and (shrunk.tables x j) global_bit ≡ 0)
          × (without (child_of c (shrunk.tables x j)) ≡ some (j ∷ ρ))
    shrunk-children x ρ j known higher index there =
        let (_, place_x) = other_table x ρ known in
        elim (Bool-cases ((t == x) && (i == j))) [
          | inl this ↦
              absurd
                (ground (arith, ap entry_is_present (cleared_entry x j this) ∙ zero-absent, there))
          | inr apart ↦
              let kept = kept_entry x j apart in
              let (small, placed) =
                tree.children x ρ j place_x higher index (ap entry_is_present (sym kept) ∙ there) in
              subst (λ e. (bit_and e global_bit ≡ 0) × (without (child_of c e) ≡ some (j ∷ ρ)))
                (sym kept) (small, still_placed x j ρ _ place_x apart placed)
        ]

    shrunk-linked :
        (x j : ℕ) (ρ : List ℕ)
        → without x ≡ some (j ∷ ρ)
        → (y : ℕ) × (without y ≡ some ρ)
          × (length ρ < c.top_level)
          × (j < entries_per_table)
          × (entry_is_present (shrunk.tables y j) ≡ true)
          × (child_of c (shrunk.tables y j) ≡ x)
    shrunk-linked x j ρ known =
        let (differ, place_x) = other_table x (j ∷ ρ) known in
        let (y, place_y, higher, small, there, leads) = tree.linked x j ρ place_x in
        let y_stays : without y ≡ some ρ = elim (Bool-cases (u == y)) [
          | inr other ↦ ground (arith, other, place_y)
          | inl same ↦ absurd (
              ground (
                arith,
                ap (λ z. entry_is_present (s.tables z j)) (==→≡ u y same),
                empty j small,
                there,
              ))
        ] in
        let apart : ((t == y) && (i == j)) ≡ false = elim (Bool-cases ((t == y) && (i == j))) [
          | inr other ↦ other
          | inl this ↦
              let ty = ==→≡ t y (ground (arith, this)) in
              let ij = ==→≡ i j (ground (arith, this)) in
              let same : u ≡ x =
                sym leads_here
                ∙ ap (λ z. child_of c (s.tables z i)) ty
                ∙ ap (λ z. child_of c (s.tables y z)) ij
                ∙ leads in
              absurd (ground (arith, differ, same))
        ] in
        let kept = kept_entry y j apart in
        (y, y_stays, higher, small, ap entry_is_present kept ∙ there, ap (child_of c) kept ∙ leads)

    pub shrunk-Tree : Tree c without shrunk
    unfolding write_entry
    shrunk-Tree = record {
      manager = loses.manager;
      same_base = loses.base ∙ tree.same_base;
      same_count = loses.count ∙ tree.same_count;
      rooted = elim (Bool-cases (u == c.top)) [
        | inr other ↦ ground (arith, other, tree.rooted)
        | inl same ↦ absurd (ground (arith, sym at ∙ ap spot (==→≡ u c.top same) ∙ tree.rooted))
      ];
      owned = shrunk-owned;
      nonnull = λ x ρ known. tree.nonnull x ρ (other_table x ρ known).1;
      free_nonnull = shrunk-nonnull;
      children = shrunk-children;
      linked = shrunk-linked;
      only_top = λ x known. tree.only_top x (other_table x [] known).1;
    }
