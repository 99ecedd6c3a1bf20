-- ===== src/Pmm/Boot/Marks.antt =====
-- rocinante/src/memory/pmm.cpp: `_mark_range_free` and `_mark_range_used`, page by page.
use walden.Base.{Bool, Bool-cases, ap, arith, false, if◌then◌else◌, inl, inr, leb, ltb, ltb→le}
use walden.Base.{ltb→lt, refl, subst, suc, sym, true, zero, ℕ, ◌&&◌, ◌*◌, ◌+◌, ◌-◌, ◌<◌, ◌==◌}
use walden.Base.{◌↔◌, ◌∙◌, ◌≡◌, ◌≢◌, ◌≤◌, ◌⊎◌}
use walden.Base.Word.{word}
use walden.Pmm.{Pmm, is_page_used, mark_each, mark_indices, mark_range_free, mark_range_used}
use walden.Pmm.{page_size_bytes, physical_range_to_page_indices, set_page_free, set_page_used}
use walden.Pmm.Bitmap.{bits_with, bits_without, is_page_used-set_page_free}
use walden.Pmm.Bitmap.{is_page_used-set_page_used, set_page_free_lem, set_page_used_lem}
use walden.Pmm.Invariant.{IsSpanned}
use walden.Pmm.Span.{Touches, physical_range_cases}

-- Only the bitmap differs.
abbrev pub Same : Pmm → Pmm → Type 0
Same s t = t ≡ record s { bitmap = t.bitmap }

pub Same-trans : (s t u : Pmm) → Same s t → Same t u → Same s u
Same-trans s t u e f = f ∙ ap (λ (t : Pmm). record t { bitmap = u.bitmap }) e

Same-of : (s t : Pmm) (f : ℕ → ℕ) → t ≡ record s { bitmap = f } → Same s t
Same-of s t f e = e ∙ ap (λ g. record s { bitmap = g }) (sym (ap (λ (t : Pmm). t.bitmap) e))

pub Same-IsSpanned : (s t : Pmm) → Same s t → IsSpanned s → IsSpanned t
Same-IsSpanned s t e v = subst IsSpanned (sym e) (record {
  bitmap_there = v.bitmap_there;
  base_aligned = v.base_aligned;
  span = v.span;
  limit_word = v.limit_word;
  some_page = v.some_page;
})

-- `f` writes the bit of one page.
pub Writes : (Pmm → ℕ → Pmm) → Bool → Type 0
Writes f bit =
    (s : Pmm) (i : ℕ)
    → s.bitmap_size_bytes ≢ 0
    → Same s (f s i)
      × ((j : ℕ) → is_page_used (f s i) j ≡ (if i == j then bit else is_page_used s j))

pub set_page_used-Writes : Writes set_page_used true
unfolding Writes
set_page_used-Writes s i h = (
  Same-of s (set_page_used s i) (bits_with s i) (set_page_used_lem s i h),
  λ j. is_page_used-set_page_used s i j h,
)

pub set_page_free-Writes : Writes set_page_free false
unfolding Writes
set_page_free-Writes s i h = (
  Same-of s (set_page_free s i) (bits_without s i) (set_page_free_lem s i h),
  λ j. is_page_used-set_page_free s i j h,
)

-- A range whose end does not wrap, and that has an address in common with the page at `a`.
abbrev pub Covers : ℕ → ℕ → ℕ → Type 0
Covers b n a = (b + n < word) × Touches a b n

module _ (f : Pmm → ℕ → Pmm) (bit : Bool) (writes : Writes f bit) where
  mark_each_lem :
      (count i : ℕ) (s : Pmm)
      → s.bitmap_size_bytes ≢ 0
      → Same s (mark_each f count i s)
        × ((j : ℕ)
            → is_page_used (mark_each f count i s) j
              ≡ (if leb i j && ltb j (i + count) then bit else is_page_used s j))
  unfolding mark_each Writes
  mark_each_lem zero i s h = (refl, λ j. ground arith)
  mark_each_lem (suc count) i s h =
      let (same, one) = writes s i h in
      let (same', more) =
        mark_each_lem count (i + 1) (f s i) (subst (λ t. t.bitmap_size_bytes ≢ 0) (sym same) h) in
      (
        Same-trans s (f s i) (mark_each f count (i + 1) (f s i)) same same',
        λ j. ground (arith, one j, more j),
      )

  wrapped :
      (s : Pmm) (b n : ℕ)
      → b < word
      → n < word
      → word ≤ b + n
      → mark_indices f s (physical_range_to_page_indices s b n) ≡ s
  unfolding mark_indices physical_range_to_page_indices
  wrapped s b n p q wraps = ground (arith, wraps)

  pub mark_range_lem :
      (s : Pmm) (b n : ℕ)
      → IsSpanned s
      → b < word
      → n < word
      → (t : Pmm) × (mark_indices f s (physical_range_to_page_indices s b n) ≡ t)
        × Same s t
        × ((j : ℕ)
            → j < s.page_count
            → ((is_page_used t j ≡ bit)
                × Covers b n (s.tracked_physical_base + j * page_size_bytes))
              ⊎ ((is_page_used t j ≡ is_page_used s j)
                  × ¬ Covers b n (s.tracked_physical_base + j * page_size_bytes)))
  unfolding mark_indices
  mark_range_lem s b n v p q = elim (Bool-cases (ltb (b + n) word)) [
    | inl fits ↦ elim (physical_range_cases s v b n (ltb→lt (b + n) word fits)) [
      | inl (nowhere, untouched) ↦
          (s, rw nowhere refl, refl, λ j h. inr (refl, λ (_, t). untouched j h t))
      | inr (first, last, at, less, bound, touched) ↦
          let (same, marks) = mark_each_lem (last - first) first s v.bitmap_there in
          (
            mark_each f (last - first) first s,
            rw at refl,
            same,
            λ j h. elim (Bool-cases (leb first j && ltb j last)) [
              | inl inside ↦ inl (
                ground (arith, marks j, inside),
                (ltb→lt (b + n) word fits, ((touched j).0 (ground (arith, inside))).1),
              )
              | inr outside ↦ inr (
                ground (arith, marks j, outside),
                λ (_, t). let (l, m) = (touched j).1 (h, t) in ground (arith, l, m, outside),
              )
            ],
          )
    ]
    | inr wraps ↦ (
      s,
      wrapped s b n p q (ltb→le (b + n) word wraps),
      refl,
      λ j h. inr (refl, λ (fits, _). ground (arith, fits, wraps)),
    )
  ]

used_iff :
    {C : Type 0} {x y : Bool}
    → ((x ≡ true) × C) ⊎ ((x ≡ y) × ¬ C)
    → (x ≡ false) ↔ ((y ≡ false) × ¬ C)
used_iff (inl (used, c)) = (λ e. ground (arith, used, e), λ (_, other). absurd (other c))
used_iff (inr (same, other)) = (λ e. (sym same ∙ e, other), λ (e, _). same ∙ e)

free_iff :
    {C : Type 0} {x y : Bool}
    → ((x ≡ false) × C) ⊎ ((x ≡ y) × ¬ C)
    → (x ≡ false) ↔ ((y ≡ false) ⊎ C)
free_iff (inl (free, c)) = (λ e. inr c, λ _. free)
free_iff (inr (same, other)) =
    (λ e. inl (sym same ∙ e), elim [ inl e ↦ same ∙ e | inr c ↦ absurd (other c) ])

-- The pages of `s0`, in any state `s` that differs in its bitmap only.
module _ (s0 : Pmm) (v : IsSpanned s0) where
  abbrev pub page : ℕ → ℕ
  page j = s0.tracked_physical_base + j * page_size_bytes

  module _ (f : Pmm → ℕ → Pmm) (bit : Bool) (writes : Writes f bit) (s : Pmm)
      (same : Same s0 s) where
    pub mark_range-page :
        (b n : ℕ)
        → b < word
        → n < word
        → Same s0 (mark_indices f s (physical_range_to_page_indices s b n))
          × ((j : ℕ)
              → j < s0.page_count
              → ((is_page_used (mark_indices f s (physical_range_to_page_indices s b n)) j ≡ bit)
                  × Covers b n (page j))
                ⊎ ((is_page_used (mark_indices f s (physical_range_to_page_indices s b n)) j
                      ≡ is_page_used s j)
                    × ¬ Covers b n (page j)))
    mark_range-page b n p q =
        let (t, e, same', marks) =
          mark_range_lem f bit writes s b n (Same-IsSpanned s0 s same v) p q in
        rw e (
          Same-trans s0 s t same same',
          λ j h.
              subst
                (λ base.
                  ((is_page_used t j ≡ bit) × Covers b n (base + j * page_size_bytes))
                  ⊎ ((is_page_used t j ≡ is_page_used s j)
                      × ¬ Covers b n (base + j * page_size_bytes)))
                (ap (λ (u : Pmm). u.tracked_physical_base) same)
                (marks j (subst (λ c. j < c) (sym (ap (λ (u : Pmm). u.page_count) same)) h)),
        )

  pub used_step :
      (s : Pmm)
      → Same s0 s
      → (b n : ℕ) → b < word
      → n < word
      → Same s0 (mark_range_used s b n)
        × ((j : ℕ)
            → j < s0.page_count
            → (is_page_used (mark_range_used s b n) j ≡ false)
              ↔ ((is_page_used s j ≡ false) × ¬ Covers b n (page j)))
  unfolding mark_range_used
  used_step s same b n p q =
      let (kept, marks) = mark_range-page set_page_used true set_page_used-Writes s same b n p q in
      (kept, λ j h. used_iff (marks j h))

  pub free_step :
      (s : Pmm)
      → Same s0 s
      → (b n : ℕ) → b < word
      → n < word
      → Same s0 (mark_range_free s b n)
        × ((j : ℕ)
            → j < s0.page_count
            → (is_page_used (mark_range_free s b n) j ≡ false)
              ↔ ((is_page_used s j ≡ false) ⊎ Covers b n (page j)))
  unfolding mark_range_free
  free_step s same b n p q =
      let (kept, marks) = mark_range-page set_page_free false set_page_free-Writes s same b n p q in
      (kept, λ j h. free_iff (marks j h))
