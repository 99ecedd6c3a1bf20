-- ===== src/Paging/Tables/Growth.antt =====
-- rocinante/src/memory/paging.cpp, `EnsureNextLevelTable`: what a new table leaves of the walks.
use walden.Base.{==→≡, Bool-cases, List, Option, ap, arith, bit_and, false, inl, inr, length}
use walden.Base.{none, refl, some, some-injective, subst, suc, sym, true, zero, ℕ, ◌&&◌, ◌+◌, ◌<◌}
use walden.Base.{◌==◌, ◌∙◌, ◌∷◌, ◌≡◌}
use walden.Paging.{entry_is_present, global_bit, index_from_virtual_address_at_level}
use walden.Paging.Tables.{Memory, leaf_table, translated}
use walden.Paging.Tables.Walks.{Setting, Tree, child_of, index-lt, leaf_table-absent}
use walden.Paging.Tables.Walks.{leaf_table-step, mask_of, placed-nonnull, resolve, resolve-zeros}

-- `s'` has the zeroed table `child` in the entry `i` of the table `t`; the other tables are as they were.
pub record Grows (c : Setting) (spot : ℕ → Option (List ℕ)) (s : Memory) (t i child : ℕ)
    (s' : Memory) : Type 0 where
  pub elsewhere :
      (u j : ℕ) (ρ : List ℕ)
      → spot u ≡ some ρ
      → ((t == u) && (i == j)) ≡ false
      → s'.tables u j ≡ s.tables u j
  pub linked : entry_is_present (s'.tables t i) ≡ true
  pub small : bit_and (s'.tables t i) global_bit ≡ 0
  pub leads : child_of c (s'.tables t i) ≡ child
  pub zeros : (j : ℕ) → s'.tables child j ≡ 0

module _ (c : Setting) (spot : ℕ → Option (List ℕ)) (s : Memory) (tree : Tree c spot s) where
  module _ (t i child : ℕ) (π : List ℕ) (s' : Memory) (at : spot t ≡ some π)
      (above : length π < c.top_level) (absent : entry_is_present (s.tables t i) ≡ false)
      (grows : Grows c spot s t i child s') where
    translated-none : (r : Memory) (v : ℕ) → translated r (mask_of c) v none ≡ none
    unfolding translated
    translated-none r v = refl

    not_leaf : (u : ℕ) (ρ : List ℕ) → spot u ≡ some ρ → length ρ ≡ c.top_level → (t == u) ≡ false
    not_leaf u ρ known depth = elim (Bool-cases (t == u)) [
      | inr apart ↦ apart
      | inl same ↦
          let equal = ap length (some-injective π ρ (sym at ∙ ap spot (==→≡ t u same) ∙ known)) in
          absurd (omega (arith, equal, depth, above))
    ]

    at_the_leaves :
        (v u : ℕ) (ρ : List ℕ)
        → spot u ≡ some ρ
        → length ρ ≡ c.top_level
        → resolve c s' v 0 u ≡ resolve c s v 0 u
    unfolding leaf_table translated
    at_the_leaves v u ρ known depth =
        let j = index_from_virtual_address_at_level v 0 in
        let kept = grows.elsewhere u j ρ known (ground (arith, not_leaf u ρ known depth)) in
        rw (placed-nonnull c spot s u ρ tree known, kept) refl

    -- A walk that comes to the new entry found nothing before, and finds nothing in the zeroed table.
    at_the_entry :
        (v l : ℕ)
        → i ≡ index_from_virtual_address_at_level v (suc l)
        → resolve c s' v (suc l) t ≡ resolve c s v (suc l) t
    at_the_entry v l same =
        let step =
          leaf_table-step c s' v l t (placed-nonnull c spot s t π tree at)
            (subst (λ j. bit_and (s'.tables t j) global_bit ≡ 0) same grows.small)
            (subst (λ j. entry_is_present (s'.tables t j) ≡ true) same grows.linked)
          ∙ ap (leaf_table c.machine s' (mask_of c) v l)
              (subst (λ j. child_of c (s'.tables t j) ≡ child) same grows.leads) in
        let before =
          leaf_table-absent c s v l t
            (subst (λ j. entry_is_present (s.tables t j) ≡ false) same absent) in
        ap (translated s' (mask_of c) v) step
        ∙ resolve-zeros c s' v l child grows.zeros
        ∙ sym (ap (translated s (mask_of c) v) before ∙ translated-none s v)

    pub resolve-Grows :
        (v l u : ℕ) (ρ : List ℕ)
        → spot u ≡ some ρ
        → l + length ρ ≡ c.top_level
        → resolve c s' v l u ≡ resolve c s v l u
    unfolding translated
    resolve-Grows v zero u ρ known depth = at_the_leaves v u ρ known (omega (arith, depth))
    resolve-Grows v (suc l) u ρ known depth =
        let j = index_from_virtual_address_at_level v (suc l) in
        let higher : length ρ < c.top_level = omega (arith, depth) in
        elim (Bool-cases ((t == u) && (i == j))) [
          | inl same ↦
              subst (λ x. resolve c s' v (suc l) x ≡ resolve c s v (suc l) x)
                (==→≡ t u (ground (arith, same)))
                (at_the_entry v l (==→≡ i j (ground (arith, same))))
          | inr other ↦
              let kept = grows.elsewhere u j ρ known other in
              elim (Bool-cases (entry_is_present (s.tables u j))) [
                | inr missing ↦
                    ap (translated s' (mask_of c) v)
                      (leaf_table-absent c s' v l u (ap entry_is_present kept ∙ missing))
                    ∙ sym (ap (translated s (mask_of c) v) (leaf_table-absent c s v l u missing))
                | inl there ↦
                    let (small, placed) =
                      tree.children u ρ j known higher (index-lt v (suc l)) there in
                    let some_table = placed-nonnull c spot s u ρ tree known in
                    ap (translated s' (mask_of c) v) (
                      leaf_table-step c s' v l u some_table
                        (ap (λ e. bit_and e global_bit) kept ∙ small)
                        (ap entry_is_present kept ∙ there)
                      ∙ ap (λ e. leaf_table c.machine s' (mask_of c) v l (child_of c e)) kept)
                    ∙ resolve-Grows v l (child_of c (s.tables u j)) (j ∷ ρ) placed
                        (omega (arith, depth))
                    ∙ sym (
                        ap (translated s (mask_of c) v)
                          (leaf_table-step c s v l u some_table small there))
              ]
        ]
