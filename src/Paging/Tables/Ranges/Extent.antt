-- ===== src/Paging/Tables/Ranges/Extent.antt =====
-- rocinante/src/memory/paging.cpp: the mappings that `MapRange4KiB` makes and keeps.
use walden.Base.{==→≡, ==→≢, Bool, Bool-cases, List, Option, Option-cases, [], ap, arith, bit_and}
use walden.Base.{false, if◌then◌else◌, inl, inr, none, not, refl, some, subst, suc, sym, true}
use walden.Base.{zero, ℕ, ◌%◌, ◌&&◌, ◌*◌, ◌+◌, ◌-◌, ◌/◌, ◌<◌, ◌==◌, ◌∙◌, ◌≡◌, ◌≤◌, ◌⊎◌}
use walden.Base.Word.{add64, word}
use walden.Paging.{AddressSpaceBits, PagePermissions, PagingLayout, entry_is_present}
use walden.Paging.{index_from_virtual_address_at_level, is_page_aligned, page_offset_mask}
use walden.Paging.{validate_physical_address, validate_virtual_address}
use walden.Paging.Tables.{Memory, leaf_table, map_page, translated}
use walden.Paging.Tables.Mapping.{Maps, SamePage, no_page, occupied, page_mapped, uncounted}
use walden.Paging.Tables.Pages.{Rooted, map_page-Maps}
use walden.Paging.Tables.Progress.{Progress}
use walden.Paging.Tables.Ranges.{map_pages, map_range, map_range_in}
use walden.Paging.Tables.Walks.{Setting, Tree, leaf_table-cong, mask_of, resolve}
use walden.Pmm.{page_size_bytes}
use walden.Pmm.Boot.Marks.{page}

-- Agreement of two functions below a bound is decided.
agree_cases :
    (f g : ℕ → ℕ) (n : ℕ) → ((l : ℕ) → l ≤ n → f l ≡ g l) ⊎ ¬ ((l : ℕ) → l ≤ n → f l ≡ g l)
agree_cases f g zero = elim (Bool-cases (f 0 == g 0)) [
  | inl same ↦ inl (λ l h. subst (λ k. f k ≡ g k) {x = 0} (omega arith) (==→≡ _ _ same))
  | inr other ↦ inr (λ all. ==→≢ _ _ other (all 0 (omega arith)))
]
agree_cases f g (suc n) = elim (Bool-cases (f (suc n) == g (suc n))) [
  | inr other ↦ inr (λ all. ==→≢ _ _ other (all (suc n) (omega arith)))
  | inl same ↦ elim (agree_cases f g n) [
    | inr apart ↦ inr (λ all. apart (λ l h. all l (omega arith)))
    | inl below ↦ inl (λ l h. elim (Bool-cases (l == suc n)) [
      | inl last ↦ subst (λ k. f k ≡ g k) (sym (==→≡ l (suc n) last)) (==→≡ _ _ same)
      | inr earlier ↦ below l (ground (arith, ==→≢ l (suc n) earlier, h))
    ])
  ]
]

module _ (c : Setting) where
  -- What an address leads to, from the root.
  abbrev pub leads_to : Memory → ℕ → Option ℕ
  leads_to s w = resolve c s w c.top_level c.top

  -- Every mapping is kept.
  abbrev pub Keeps : Memory → Memory → Type 0
  Keeps s s' = (w q : ℕ) → leads_to s w ≡ some q → leads_to s' w ≡ some q

  -- The tables form a tree, the mappings are kept, and on success there is the new one.
  abbrev After : ℕ → ℕ → Memory → Bool × Memory → Type 0
  After v p s r =
      ((spot' : ℕ → Option (List ℕ)) × Tree c spot' r.1)
      × Keeps s r.1
      × (r.0 ≡ true → leads_to r.1 v ≡ some (add64 p (bit_and v page_offset_mask)))

  SamePage-none :
      (s : Memory) (w v : ℕ) → SamePage c w v → leads_to s v ≡ none → leads_to s w ≡ none
  unfolding translated
  SamePage-none s w v same nothing =
      let walk = leaf_table-cong c s w v c.top_level c.top same in
      elim (Option-cases (leaf_table c.machine s (mask_of c) v c.top_level c.top)) [
        | inl missing ↦ ap (translated s (mask_of c) w) (walk ∙ missing)
        | inr (x, found) ↦
            let read = sym (ap (translated s (mask_of c) v) found) ∙ nothing in
            ap (translated s (mask_of c) w) (walk ∙ found)
            ∙ elim (Bool-cases
                (entry_is_present (s.tables x (index_from_virtual_address_at_level v 0)))) [
                  | inr absent ↦ rw (same 0 (omega arith), absent) refl
                  | inl there ↦ absurd (ground (arith, there, read))
                ]
      ]

  unchanged :
      (v p : ℕ) (spot : ℕ → Option (List ℕ)) (s : Memory) (spot' : ℕ → Option (List ℕ))
      (s' : Memory)
      → Tree c spot s
      → Progress c spot s spot' s'
      → After v p s (false, s')
  unchanged v p spot s spot' s' tree progress = (
    (spot', progress.tree),
    λ w q before. progress.walks w c.top_level c.top [] tree.rooted (omega arith) ∙ before,
    λ e. absurd (ground (arith, e)),
  )

  map_page-Keeps :
      (bits : AddressSpaceBits) (v p : ℕ) (spot : ℕ → Option (List ℕ)) (s : Memory)
      (r : Bool × Memory)
      → Tree c spot s
      → Maps c bits v p spot s r
      → After v p s r
  map_page-Keeps bits v p spot s r tree (no_page spot' s' progress used) =
      unchanged v p spot s spot' s' tree progress
  map_page-Keeps bits v p spot s r tree (occupied spot' s' q progress e) =
      unchanged v p spot s spot' s' tree progress
  map_page-Keeps bits v p spot s r tree (uncounted spot' s' progress counts e) =
      unchanged v p spot s spot' s' tree progress
  map_page-Keeps bits v p spot s r tree (page_mapped spot' s' after unmapped page rest) = (
    (spot', after),
    λ w q before.
        elim (agree_cases (index_from_virtual_address_at_level w)
          (index_from_virtual_address_at_level v) c.top_level) [
            | inl same ↦ absurd (ground (arith, SamePage-none s w v same unmapped, before))
            | inr other ↦ rest w other ∙ before
          ],
    λ done. page v (λ l h. refl),
  )

module _ (c : Setting) (root : ℕ) (bits : AddressSpaceBits) (l : PagingLayout)
    (rooted : Rooted c root bits l) (permissions : PagePermissions) where
  -- The pages of a range, from the addresses `v` and `p` on.
  abbrev pub Extends : ℕ → ℕ → ℕ → Memory → Bool × Memory → Type 0
  Extends pages v p s r =
      ((spot' : ℕ → Option (List ℕ)) × Tree c spot' r.1)
      × Keeps c s r.1
      × (r.0 ≡ true
          → (k : ℕ) → k < pages
          → leads_to c r.1 ((v + k * page_size_bytes) % word)
            ≡ some ((p + k * page_size_bytes) % word))

  map_page-After :
      (spot : ℕ → Option (List ℕ)) (s : Memory) (v p : ℕ)
      → Tree c spot s
      → v < word
      → p < word
      → Extends 1 v p s (map_page c.machine s root v p permissions bits)
  unfolding is_page_aligned
  map_page-After spot s v p tree hv h =
      elim (map_page-Maps c root bits l rooted spot s tree v p permissions h) [
        | inr (bad, e) ↦
            rw e ((spot, tree), λ w q before. before, λ done. absurd (ground (arith, done)))
        | inl (ok, maps) ↦
            let (after, keeps, new) = map_page-Keeps c bits v p spot s _ tree maps in
            let aligned : bit_and v page_offset_mask ≡ 0 = ground (arith, ok) in
            (
              after,
              keeps,
              λ done k small.
                  let at : (v + k * page_size_bytes) % word ≡ v = omega (arith, small, hv) in
                  let to : add64 p (bit_and v page_offset_mask) ≡ (p + k * page_size_bytes) % word =
                    omega (arith, small, aligned, h) in
                  ap (leads_to c (map_page c.machine s root v p permissions bits).1) at
                  ∙ new done
                  ∙ ap some to,
            )
      ]

  extended :
      (pages v p : ℕ) (s : Memory) (first rest : Bool × Memory)
      → first.0 ≡ true
      → Extends 1 v p s first
      → Extends pages (add64 v page_size_bytes) (add64 p page_size_bytes) first.1 rest
      → Extends (suc pages) v p s rest
  extended pages v p s first rest done (tree, keeps, new) (tree', keeps', more) = (
    tree',
    λ w q before. keeps' w q (keeps w q before),
    λ all k h. elim (Bool-cases (k == 0)) [
      | inl start ↦ keeps' _ _ (new done k (ground (arith, start)))
      | inr later ↦
          let from : (n : ℕ)
              → (add64 n page_size_bytes + (k - 1) * page_size_bytes) % word
                ≡ (n + k * page_size_bytes) % word =
            λ n. ground (arith, later) in
          sym (ap (leads_to c rest.1) (from v))
          ∙ more all (k - 1) (ground (arith, later, h))
          ∙ ap some (from p)
    ],
  )

  map_pages-Extends :
      (pages : ℕ) (spot : ℕ → Option (List ℕ)) (s : Memory) (v p : ℕ)
      → Tree c spot s
      → v < word
      → p < word
      → Extends pages v p s (map_pages c.machine root permissions bits pages v p s)
  unfolding map_pages
  map_pages-Extends zero spot s v p tree hv hp =
      ((spot, tree), λ w q before. before, λ done k h. absurd (omega arith))
  map_pages-Extends (suc pages) spot s v p tree hv hp =
      let first = map_page-After spot s v p tree hv hp in
      elim (Bool-cases (map_page c.machine s root v p permissions bits).0) [
        | inr failed ↦ rw failed (first.0, first.1, λ done. absurd (ground (arith, done)))
        | inl mapped_first ↦ rw mapped_first (
            extended pages v p s (map_page c.machine s root v p permissions bits) _ mapped_first
              first
              (map_pages-Extends pages first.0.0 (map_page c.machine s root v p permissions bits).1
                (add64 v page_size_bytes) (add64 p page_size_bytes) first.0.1 (omega arith)
                (omega arith)))
      ]

  tests :
      {A : Type 0} (v p size above below : Bool) (failure success : A)
      → (if not v
          then failure
          else if not p
          then failure
          else if not size
          then failure
          else if not above
          then failure
          else if not below
          then failure
          else success)
        ≡ (if v && p && size && above && below then success else failure)
  tests v p size above below failure success = ground arith

  -- For the root of a tree and 64-bit addresses `MapRange4KiB` leaves a tree in which every address that led
  -- somewhere leads to the same address, also where it fails on the way. Where it returns true, every page of
  -- the range, in order and with addresses modulo 2 ^ 64, leads to its frame.
  pub map_range-Extends :
      (spot : ℕ → Option (List ℕ)) (s : Memory) (v p size : ℕ)
      → Tree c spot s
      → v < word
      → p < word
      → Extends
          (size / page_size_bytes)
          v
          p
          s
          (map_range c.machine s root v p size permissions bits)
  unfolding map_range map_range_in
  map_range-Extends spot s v p size tree hv hp =
      let pages = size / page_size_bytes in
      let success = map_pages c.machine root permissions bits pages v p s in
      let all =
        is_page_aligned v
        && is_page_aligned p
        && ((size % page_size_bytes) == 0)
        && validate_virtual_address v l
        && validate_physical_address p l in
      rw rooted.layout (
        subst (Extends pages v p s)
          (sym (
            tests (is_page_aligned v) (is_page_aligned p) ((size % page_size_bytes) == 0)
              (validate_virtual_address v l) (validate_physical_address p l) (false, s) success))
          (elim (Bool-cases all) [
            | inl ok ↦ rw ok (map_pages-Extends pages spot s v p tree hv hp)
            | inr bad ↦
                rw bad ((spot, tree), λ w q before. before, λ done. absurd (ground (arith, done)))
          ]))
