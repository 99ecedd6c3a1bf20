-- ===== src/Kva/RoundTrip.antt =====
-- rocinante/src/memory/kernel_va_allocator.h: `Allocate` and then `Free`, and the list that a set of
-- free addresses has.
use walden.Base.{Bool, List, [], ap, arith, false, inl, inr, length, refl, some, subst, suc, sym}
use walden.Base.{true, ℕ, ◌+◌, ◌<◌, ◌∙◌, ◌∷◌, ◌≡◌, ◌≤◌}
use walden.Base.Word.{word}
use walden.Kva.{Allocator, Range, allocate, max_free_ranges, release}
use walden.Kva.Allocation.{Grants, IsWellFormed, allocate_cases}
use walden.Kva.Ranges.{Canonical, covers, covers_below, within}
use walden.Kva.Release.{Releases, Returns, already_free, full, release-Releases, released}
use walden.Kva.Release.{unmanaged}

-- The first range of a canonical list is read off its addresses.
head_eq :
    (lo hi : ℕ) (r q : Range) (rs qs : List Range)
    → Canonical lo hi (r ∷ rs)
    → Canonical lo hi (q ∷ qs)
    → ((x : ℕ) → covers (r ∷ rs) x ≡ covers (q ∷ qs) x)
    → r ≡ q
unfolding covers
head_eq lo hi r q rs qs c d same = ground (
  arith,
  same r.base,
  same q.base,
  same r.limit,
  same q.limit,
  covers_below (suc r.limit) hi rs q.base c.3,
  covers_below (suc q.limit) hi qs r.base d.3,
  covers_below (suc r.limit) hi rs r.limit c.3,
  covers_below (suc q.limit) hi qs q.limit d.3,
  covers_below (suc r.limit) hi rs q.limit c.3,
  covers_below (suc q.limit) hi qs r.limit d.3,
)

tail_eq :
    (lo hi : ℕ) (r : Range) (rs qs : List Range)
    → Canonical lo hi (r ∷ rs)
    → Canonical lo hi (r ∷ qs)
    → ((x : ℕ) → covers (r ∷ rs) x ≡ covers (r ∷ qs) x)
    → (x : ℕ) → covers rs x ≡ covers qs x
unfolding covers
tail_eq lo hi r rs qs c d same x =
    ground (
      arith,
      same x,
      covers_below (suc r.limit) hi rs x c.3,
      covers_below (suc r.limit) hi qs x d.3,
    )

pub Canonical-unique :
    (lo hi : ℕ) (rs qs : List Range)
    → Canonical lo hi rs
    → Canonical lo hi qs
    → ((x : ℕ) → covers rs x ≡ covers qs x)
    → rs ≡ qs
unfolding covers
Canonical-unique lo hi [] [] c d same = refl
Canonical-unique lo hi [] (q ∷ qs) c d same = ground (arith, same q.base)
Canonical-unique lo hi (r ∷ rs) [] c d same = ground (arith, same r.base)
Canonical-unique lo hi (r ∷ rs) (q ∷ qs) c d same =
    let e = head_eq lo hi r q rs qs c d same in
    let d' = subst (λ z. Canonical lo hi (z ∷ qs)) (sym e) d in
    let same' = subst (λ z. (x : ℕ) → covers (r ∷ rs) x ≡ covers (z ∷ qs) x) (sym e) same in
    cc (e, Canonical-unique (suc r.limit) hi rs qs c.3 d'.3 (tail_eq lo hi r rs qs c d' same'))

-- A block that was taken out and put back leaves the allocator as it was.
Grants-Returns :
    (s t u : Allocator) (size alignment b : ℕ)
    → IsWellFormed s
    → Grants s size alignment b t
    → Returns t b size u
    → u ≡ s
Grants-Returns s t u size alignment b v g r =
    let lo = r.same_bounds.1 ∙ g.same_bounds.1 in
    let hi = r.same_bounds.2 ∙ g.same_bounds.2 in
    let canonical : Canonical s.managed_base s.managed_limit u.free_ranges =
      subst (λ l. Canonical l s.managed_limit u.free_ranges) lo
        (subst (λ h. Canonical u.managed_base h u.free_ranges) hi r.well_formed.canonical) in
    let ranges : u.free_ranges ≡ s.free_ranges =
      Canonical-unique s.managed_base s.managed_limit u.free_ranges s.free_ranges canonical
        v.canonical (λ x. ground (arith, g.was_free x, g.free_after x, r.free_after x)) in
    ground (arith, ranges, g.same_bounds, r.same_bounds)

-- With a managed block of used addresses and room in the array, `Free` succeeds.
Releases-success :
    (s : Allocator) (base size : ℕ) {out : Bool × Allocator}
    → Releases s base size out
    → (s.managed_base ≤ base) × (base + size ≤ s.managed_limit)
    → ((x : ℕ) → within base (base + size) x ≡ true → covers s.free_ranges x ≡ false)
    → length s.free_ranges < max_free_ranges
    → (u : Allocator) × (out ≡ (true, u)) × Returns s base size u
Releases-success s base size (released u r) inside used room = (u, refl, r)
Releases-success s base size (unmanaged h) inside used room = absurd (h inside)
Releases-success s base size (already_free x h k) inside used room = absurd (cc (used x h, k))
Releases-success s base size (full e h) inside used room = absurd (omega arith)

-- `Free` of a block that was taken out of a well-formed allocator.
undo :
    (s t : Allocator) (size alignment b : ℕ)
    → IsWellFormed s
    → s.initialized ≡ true
    → 0 < size
    → size < word
    → length t.free_ranges < max_free_ranges
    → Grants s size alignment b t
    → release t b size ≡ (true, s)
undo s t size alignment b v live pos p room g =
    let used : (x : ℕ) → within b (b + size) x ≡ true → covers t.free_ranges x ≡ false =
      λ x h. ground (arith, g.free_after x) in
    let (u, e, r) =
      Releases-success t b size
        (release-Releases t b size g.well_formed (g.same_bounds.0 ∙ live) pos p
          (omega (arith, g.managed, v.limit_word)))
        (omega (arith, g.managed, g.same_bounds.1), omega (arith, g.managed, g.same_bounds.2)) used
        room in
    e ∙ ap (λ z. (true, z)) (Grants-Returns s t u size alignment b v g r)

-- On a well-formed, initialised allocator, where `Allocate` of a positive size returns a block and leaves the array
-- with room for one more range, `Free` of that block succeeds, and the allocator is again exactly what
-- it was.
pub release-allocate :
    (s t : Allocator) (size alignment b : ℕ)
    → IsWellFormed s
    → s.initialized ≡ true
    → 0 < size
    → size < word
    → alignment < word
    → allocate s size alignment ≡ (some b, t)
    → length t.free_ranges < max_free_ranges
    → release t b size ≡ (true, s)
release-allocate s t size alignment b v live pos p q e room =
    elim (allocate_cases s size alignment v live pos p q) [
      | inl (b', t', e', g) ↦
          let same : b' ≡ b = ground (arith, e, e') in
          let state : t' ≡ t = ground (arith, e, e') in
          let granted : Grants s size alignment b t =
            subst (λ z. Grants s size alignment z t) same
              (subst (λ z. Grants s size alignment b' z) state g) in
          undo s t size alignment b v live pos p room granted
      | inr (e', _) ↦ cc (e, e')
    ]
