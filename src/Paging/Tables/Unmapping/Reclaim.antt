-- ===== src/Paging/Tables/Unmapping/Reclaim.antt =====
-- rocinante/src/memory/paging.cpp, `UnmapPage4KiB`: the loop that frees empty tables.
use walden.Base.{==→≡, ==→≢, Bool-cases, List, Option, [], ap, arith, false, if◌then◌else◌, inl}
use walden.Base.{inr, length, none, refl, some, some-injective, subst, suc, sym, true, update}
use walden.Base.{zero, ℕ, ◌+◌, ◌<◌, ◌==◌, ◌∙◌, ◌∷◌, ◌≡◌, ◌≤◌}
use walden.Base.Word.{word}
use walden.Paging.{entries_per_table, entry_is_present, page_table_page_from_physical}
use walden.Paging.Flags.{page_table_page_from_physical-injective}
use walden.Paging.Tables.{Memory, empty_from, table_is_empty}
use walden.Paging.Tables.Leaves.{written}
use walden.Paging.Tables.Unmapping.{Frame, reclaim, unlink_freed}
use walden.Paging.Tables.Unmapping.Shrink.{Empty, resolve-shrunk, shrunk, shrunk-Tree}
use walden.Paging.Tables.Walks.{Setting, Tree, frame, resolve, table_of}
use walden.Pmm.{Pmm, free_page}
use walden.Pmm.Boot.Marks.{page}
use walden.Pmm.Losing.{LosesOnly, free_page-LosesOnly, free_page-refused}

-- Tables from one at a place up to the root's.
abbrev pub Chain : Setting → (ℕ → Option (List ℕ)) → List Frame → List ℕ → Type 0
Chain c spot [] π = ⊥
Chain c spot (f ∷ []) π = spot f.table ≡ some π
Chain c spot (f ∷ (g ∷ rest)) [] = ⊥
Chain c spot (f ∷ (g ∷ rest)) (i ∷ π) =
    (spot f.table ≡ some (i ∷ π))
    × (f.table ≡ page_table_page_from_physical c.machine f.physical)
    × (f.physical < word)
    × (g.child_index ≡ i)
    × Chain c spot (g ∷ rest) π

pub Chain-head :
    (c : Setting) (spot : ℕ → Option (List ℕ)) (g : Frame) (rest : List Frame) (π : List ℕ)
    → Chain c spot (g ∷ rest) π
    → spot g.table ≡ some π
Chain-head c spot g [] π chain = chain
Chain-head c spot g (f ∷ rest) [] chain = absurd chain
Chain-head c spot g (f ∷ rest) (i ∷ π) chain = chain.0

-- Without a table at a longer place.
stays :
    (spot : ℕ → Option (List ℕ)) (u x : ℕ) (ρ π : List ℕ)
    → spot u ≡ some ρ
    → length π < length ρ
    → spot x ≡ some π
    → update spot u none x ≡ some π
stays spot u x ρ π at longer known = elim (Bool-cases (u == x)) [
  | inr apart ↦ ground (arith, apart, known)
  | inl same ↦
      let lengths = ap length (some-injective ρ π (sym at ∙ ap spot (==→≡ u x same) ∙ known)) in
      absurd (omega (arith, lengths, longer))
]

Chain-without :
    (c : Setting) (spot : ℕ → Option (List ℕ)) (u : ℕ) (ρ : List ℕ)
    → spot u ≡ some ρ
    → (fs : List Frame) (π : List ℕ) → length π < length ρ
    → Chain c spot fs π
    → Chain c (update spot u none) fs π
Chain-without c spot u ρ at [] π longer chain = absurd chain
Chain-without c spot u ρ at (f ∷ []) π longer chain = stays spot u f.table ρ π at longer chain
Chain-without c spot u ρ at (f ∷ (g ∷ rest)) [] longer chain = absurd chain
Chain-without c spot u ρ at (f ∷ (g ∷ rest)) (i ∷ π) longer
      (place_f, address, small, index, chain) =
    (
      stays spot u f.table ρ (i ∷ π) at longer place_f,
      address,
      small,
      index,
      Chain-without c spot u ρ at (g ∷ rest) π (omega (arith, longer)) chain,
    )

empty_from_lem :
    (entries : ℕ → ℕ) (left i : ℕ)
    → empty_from entries left i ≡ true
    → (j : ℕ) → i ≤ j
    → j < i + left
    → entry_is_present (entries j) ≡ false
unfolding empty_from
empty_from_lem entries zero i e j h k = absurd (omega arith)
empty_from_lem entries (suc left) i e j h k = elim (Bool-cases (entry_is_present (entries i))) [
  | inl there ↦ absurd (ground (arith, e, there))
  | inr absent ↦ elim (Bool-cases (i == j)) [
    | inl now ↦ subst (λ x. entry_is_present (entries x) ≡ false) (==→≡ i j now) absent
    | inr later ↦
        empty_from_lem entries left (i + 1) (ground (arith, e, absent)) j
          (ground (arith, ==→≢ i j later, h)) (omega arith)
  ]
]

table_is_empty-Empty : (s : Memory) (u : ℕ) → table_is_empty s u ≡ true → Empty s u
unfolding table_is_empty
table_is_empty-Empty s u e j h =
    empty_from_lem (s.tables u) entries_per_table 0
      (elim (Bool-cases (u == 0)) [
        | inl null ↦ absurd (
            ground (
              arith,
              subst (λ b. (if b then false else empty_from (s.tables u) entries_per_table 0) ≡ true)
                  null e,
            ))
        | inr there ↦
            subst (λ b. (if b then false else empty_from (s.tables u) entries_per_table 0) ≡ true)
              there e
      ])
      j (omega arith) (omega (arith, h))

module _ (c : Setting) where
  -- The tables form a tree, and every walk finds what it found.
  abbrev pub Same : Memory → Memory → Type 0
  Same s s' =
      ((spot' : ℕ → Option (List ℕ)) × Tree c spot' s')
      × ((w : ℕ) → resolve c s' w c.top_level c.top ≡ resolve c s w c.top_level c.top)

  Same-refl : (spot : ℕ → Option (List ℕ)) (s : Memory) → Tree c spot s → Same s s
  Same-refl spot s tree = ((spot, tree), λ w. refl)

  -- The page of a table.
  page_of :
      (spot : ℕ → Option (List ℕ)) (s : Memory) (f : Frame) (ρ : List ℕ)
      → Tree c spot s
      → spot f.table ≡ some ρ
      → f.table ≡ page_table_page_from_physical c.machine f.physical
      → f.physical < word
      → (n : ℕ) × (f.table ≡ table_of c n) × LosesOnly s.pmm n (free_page s.pmm f.physical).1
  page_of spot s f ρ tree known address small =
      let (n, h, at, used) = tree.owned f.table ρ known in
      let physical : f.physical ≡ frame c.base n =
        page_table_page_from_physical-injective c.machine f.physical (frame c.base n) small
          (omega (arith, c.limit, h)) (sym address ∙ at) in
      (
        n,
        at,
        subst (λ p. LosesOnly s.pmm n (free_page s.pmm p).1)
            (ap (λ b. frame b n) tree.same_base ∙ sym physical)
            (free_page-LosesOnly s.pmm tree.manager n (subst (λ k. n < k) (sym tree.same_count) h)),
      )

  after_shrink :
      (spot : ℕ → Option (List ℕ)) (s : Memory) (tree : Tree c spot s) (u i n : ℕ) (π : List ℕ)
      (pmm : Pmm) (at : spot u ≡ some (i ∷ π)) (empty : Empty s u) (page : u ≡ table_of c n)
      (loses : LosesOnly s.pmm n pmm) (t : ℕ) (parent : spot t ≡ some π) (s' : Memory)
      → Same (shrunk c spot s tree u i n π pmm at empty page loses t parent) s'
      → Same s s'
  after_shrink spot s tree u i n π pmm at empty page loses t parent s' (trees, same) = (
    trees,
    λ w.
        same w
        ∙ resolve-shrunk c spot s tree u i n π pmm at empty page loses t parent w c.top_level c.top
            [] (shrunk-Tree c spot s tree u i n π pmm at empty page loses t parent).rooted
            (omega arith),
  )

  pub reclaim-Same :
      (fs : List Frame) (π : List ℕ) (spot : ℕ → Option (List ℕ)) (s : Memory)
      → Tree c spot s
      → Chain c spot fs π
      → Same s (reclaim fs s).1
  unfolding reclaim unlink_freed
  reclaim-Same [] π spot s tree chain = absurd chain
  reclaim-Same (f ∷ []) π spot s tree chain = Same-refl spot s tree
  reclaim-Same (f ∷ (g ∷ rest)) [] spot s tree chain = absurd chain
  reclaim-Same (f ∷ (g ∷ rest)) (i ∷ π) spot s tree (known, address, small, index, chain) =
      elim (Bool-cases (table_is_empty s f.table)) [
        | inr used ↦ rw used (Same-refl spot s tree)
        | inl empty ↦ elim (Bool-cases (f.physical == 0)) [
          | inl null ↦ rw (empty, null) (Same-refl spot s tree)
          | inr there ↦ elim (Bool-cases (free_page s.pmm f.physical).0) [
            | inr failed ↦
                rw (empty, there, failed)
                  (subst (λ (pmm : Pmm). Same s (record s { pmm = pmm }))
                    (sym (free_page-refused s.pmm tree.manager f.physical failed))
                    (Same-refl spot s tree))
            | inl done ↦
                let (n, page, loses) = page_of spot s f (i ∷ π) tree known address small in
                let pmm = (free_page s.pmm f.physical).1 in
                let zeros = table_is_empty-Empty s f.table empty in
                let parent = Chain-head c spot g rest π chain in
                let t =
                  shrunk c spot s tree f.table i n π pmm known zeros page loses g.table parent in
                let next =
                  reclaim-Same (g ∷ rest) π (update spot f.table none) t
                    (shrunk-Tree c spot s tree f.table i n π pmm known zeros page loses g.table
                      parent)
                    (Chain-without c spot f.table (i ∷ π) known (g ∷ rest) π (omega arith) chain) in
                rw (empty, there, done)
                  (subst (λ k. Same s (reclaim (g ∷ rest) (written s pmm g.table k 0)).1)
                    (sym index)
                    (after_shrink spot s tree f.table i n π pmm known zeros page loses g.table
                      parent _ next))
          ]
        ]
      ]
