-- ===== src/Shootdown/Masks.antt =====
-- rocinante/src/memory/tlb_shootdown_state.h: the loops over the cores of a mask.
use walden.Base.{==→≡, ==→≢, Bool, Bool-cases, Option, ap, arith, bit_and, false, if◌then◌else◌}
use walden.Base.{inl, inr, ltb, ltb→le, ltb→lt, none, not, some, subst, suc, sym, true, zero, ℕ}
use walden.Base.{◌&&◌, ◌+◌, ◌<◌, ◌==◌, ◌^◌, ◌≡◌, ◌≤◌, ◌⊎◌}
use walden.Base.Bits.{bit_and-le, bit_and-pow, eq-zero_of_no_bit, pow-lt_word, test_bit}
use walden.Base.Bits.{test_bit-and, test_bit-complement, test_bit-pow, test_bit-zero}
use walden.Base.Word.{not64, word}
use walden.Shootdown.{Request, State, for_targets, is_valid, mask_fuel, publish_request_to_core}
use walden.Shootdown.{publish_request_to_targets}

-- `remaining_mask &= ~current_core_bit`
pub without-bits :
    (r k i : ℕ)
    → k < 64
    → i < 64
    → test_bit (bit_and r (not64 (2 ^ k))) i ≡ (test_bit r i && not (k == i))
without-bits r k i h p = ground (
  arith,
  test_bit-and i r (not64 (2 ^ k)),
  test_bit-complement 64 i (2 ^ k) (pow-lt_word 64 k h) p,
  test_bit-pow k i,
)

pub without-lt_word : (r x : ℕ) → r < word → bit_and r x < word
without-lt_word r x h = omega (arith, bit_and-le r r x (omega arith), h)

-- No bit below `core_id` is left.
abbrev pub Passed : ℕ → ℕ → Type 0
Passed core_id r = (i : ℕ) → i < core_id → test_bit r i ≡ false

pub Passed-bit : (c r : ℕ) → Passed c r → test_bit r c ≡ false → Passed (c + 1) r
Passed-bit c r before e i h = elim (Bool-cases (i == c)) [
  | inl now ↦ subst (λ k. test_bit r k ≡ false) (sym (==→≡ i c now)) e
  | inr past ↦ before i (ground (arith, ==→≢ i c past))
]

pub cleared_bit : (c r : ℕ) → c < 64 → Passed c r → Passed (c + 1) (bit_and r (not64 (2 ^ c)))
cleared_bit c r h before i p =
    ground (arith, without-bits r c i h (omega arith), before i, ==→≡ c i)

pub none_left : (c r : ℕ) → 64 ≤ c → r < word → Passed c r → r ≡ 0
none_left c r h p before = eq-zero_of_no_bit 64 r p (λ i q. before i (omega (arith, q, h)))

-- A mask that has a bit left has not been passed.
pub not_past : (c r : ℕ) → r < word → Passed c r → (r == 0) ≡ false → c < 64
not_past c r p before some_left = elim (Bool-cases (ltb c 64)) [
  | inl below ↦ ltb→lt c 64 below
  | inr above ↦ ground (arith, some_left, none_left c r (ltb→le c 64 above) p before)
]

module _ (P : State → Type 0) where
  abbrev pub Returns : Option (Bool × State) → Type 0
  Returns none = Unit {0}
  Returns (some (done, t)) = P t

  -- What each action keeps, the loop keeps, also where it stops early.
  for_targets-Returns :
      (f : State → ℕ → Bool × State)
      → ((s : State) (c : ℕ) → P s → P (f s c).1)
      → (fuel c r : ℕ) (s : State) → P s
      → Returns (for_targets f fuel c r s)
  unfolding for_targets
  for_targets-Returns f keeps zero c r s p = tt
  for_targets-Returns f keeps (suc fuel) c r s p = elim (Bool-cases (r == 0)) [
    | inl empty ↦ rw empty p
    | inr some_left ↦ rw some_left (elim (Bool-cases (bit_and r (2 ^ c) == 0)) [
      | inl absent ↦ rw absent (for_targets-Returns f keeps fuel (c + 1) r s p)
      | inr present ↦ rw present (elim (Bool-cases (f s c).0) [
        | inl done ↦ rw done (
            for_targets-Returns f keeps fuel (c + 1) (bit_and r (not64 (2 ^ c))) (f s c).1
              (keeps s c p))
        | inr failed ↦ rw failed (keeps s c p)
      ])
    ])
  ]

  checked :
      (valid : Bool) (o : Option (Bool × State)) (s : State)
      → Returns o
      → P s
      → Returns (if valid then o else some (false, s))
  checked true o s all p = all
  checked false o s all p = p

  -- What each posting keeps, a publication to several cores keeps.
  pub publish_request_to_targets-Keeps :
      (q : Request)
      → ((s : State) (c : ℕ) → P s → P (publish_request_to_core q s c).1)
      → (s : State) (r : ℕ) (done : Bool) (t : State)
      → publish_request_to_targets s r q ≡ some (done, t)
      → P s
      → P t
  unfolding publish_request_to_targets
  publish_request_to_targets-Keeps q keeps s r done t e p = subst Returns e (
      checked (is_valid q) _ s
        (for_targets-Returns (publish_request_to_core q) keeps mask_fuel 0 r s p) p)

-- What a loop of tests returns, for a mask `r`.
abbrev pub Tested : State → (ℕ → Bool) → ℕ → Option (Bool × State) → Type 0
Tested s test r o =
    ((o ≡ some (true, s)) × ((i : ℕ) → i < 64 → test_bit r i ≡ true → test i ≡ true))
    ⊎ ((o ≡ some (false, s)) × ((i : ℕ) × (i < 64) × (test_bit r i ≡ true) × (test i ≡ false)))

-- A loop whose action only tests: it always returns, and says whether every core of the mask passes.
module _ (s : State) (test : State → ℕ → Bool) where
  abbrev loop : ℕ → ℕ → ℕ → Option (Bool × State)
  loop fuel c r = for_targets (λ t i. (test t i, t)) fuel c r s

  pass_over :
      (c r : ℕ) (o : Option (Bool × State))
      → c < 64
      → test s c ≡ true
      → Tested s (test s) (bit_and r (not64 (2 ^ c))) o
      → Tested s (test s) r o
  pass_over c r o h passes (inl (e, all)) = inl (
    e,
    λ i p present. elim (Bool-cases (c == i)) [
      | inl now ↦ subst (λ k. test s k ≡ true) (==→≡ c i now) passes
      | inr other ↦ all i p (ground (arith, without-bits r c i h p, present, other))
    ],
  )
  pass_over c r o h passes (inr (e, (i, p, present, fails))) =
      inr (e, (i, p, ground (arith, without-bits r c i h p, present), fails))

  pub for_targets-Tested :
      (fuel c r : ℕ)
      → r < word
      → 65 ≤ fuel + c
      → c ≤ 64
      → Passed c r
      → Tested s (test s) r (loop fuel c r)
  unfolding for_targets
  for_targets-Tested zero c r p enough small before = absurd (omega arith)
  for_targets-Tested (suc fuel) c r p enough small before = elim (Bool-cases (r == 0)) [
    | inl empty ↦ inl (
      ground (arith, empty),
      λ i h e. ground (arith, e, test_bit-zero i, ap (λ x. test_bit x i) (==→≡ r 0 empty)),
    )
    | inr some_left ↦
        let h = not_past c r p before some_left in
        elim (Bool-cases (test_bit r c)) [
          | inr absent ↦
              subst (Tested s (test s) r) (sym (ground (arith, some_left, absent, bit_and-pow c r)))
                (for_targets-Tested fuel (c + 1) r p (omega arith) (omega (arith, h))
                  (Passed-bit c r before absent))
          | inl present ↦ elim (Bool-cases (test s c)) [
            | inr fails ↦
                inr (
                  ground (arith, some_left, present, bit_and-pow c r, fails),
                  (c, h, present, fails),
                )
            | inl passes ↦
                let rest = bit_and r (not64 (2 ^ c)) in
                subst (Tested s (test s) r)
                  (sym (ground (arith, some_left, present, bit_and-pow c r, passes)))
                  (pass_over c r (loop fuel (c + 1) rest) h passes (
                    for_targets-Tested fuel (c + 1) rest (without-lt_word r (not64 (2 ^ c)) p)
                      (omega arith) (omega (arith, h)) (cleared_bit c r h before)))
          ]
        ]
  ]
