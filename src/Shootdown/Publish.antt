-- ===== src/Shootdown/Publish.antt =====
-- rocinante/src/memory/tlb_shootdown_state.h: publication of a request to the cores of a mask.
use walden.Base.{==→≡, Bool-cases, Option, ap, arith, bit_and, false, if◌then◌else◌, inl, inr}
use walden.Base.{none, refl, some, subst, suc, sym, true, update, zero, ℕ, ◌+◌, ◌<◌, ◌==◌, ◌^◌}
use walden.Base.{◌∙◌, ◌≡◌, ◌≤◌}
use walden.Base.Bits.{bit_and-pow, test_bit, test_bit-zero}
use walden.Base.Word.{add64, not64, word}
use walden.Shootdown.{Request, RequestType, State, allocate_generation}
use walden.Shootdown.{are_target_mailboxes_available, build_and_publish, build_request}
use walden.Shootdown.{for_targets, get_acknowledged_generation, if_available}
use walden.Shootdown.{is_mailbox_available_for_core, is_valid, mailbox_of, mask_fuel}
use walden.Shootdown.{publish_request_to_core, publish_request_to_targets, publish_to_targets}
use walden.Shootdown.{published}
use walden.Shootdown.Masks.{Passed, Passed-bit, cleared_bit, for_targets-Tested, not_past}
use walden.Shootdown.Masks.{without-bits, without-lt_word}

-- `t` is `s` with the request in the mailboxes of the cores of `r`.
abbrev pub Posted : State → ℕ → Request → State → Type 0
Posted s r request t =
    (t ≡ record s { mailbox_by_core = t.mailbox_by_core })
    × ((i : ℕ)
        → i < 64
        → t.mailbox_by_core i ≡ (if test_bit r i then mailbox_of request else s.mailbox_by_core i))

abbrev pub AllAvailable : State → ℕ → Type 0
AllAvailable s r = (i : ℕ) → i < 64 → test_bit r i ≡ true → is_mailbox_available_for_core s i ≡ true

module _ (request : Request) (valid : is_valid request ≡ true) where
  abbrev post : State → ℕ → State
  post s c = record s { mailbox_by_core = update s.mailbox_by_core c (mailbox_of request) }

  publish_request_to_core_lem :
      (s : State) (c : ℕ)
      → c < 64
      → is_mailbox_available_for_core s c ≡ true
      → publish_request_to_core request s c ≡ (true, post s c)
  unfolding publish_request_to_core
  publish_request_to_core_lem s c h free = ground (arith, h, free, valid)

  still_available :
      (s : State) (c i : ℕ)
      → (c == i) ≡ false
      → is_mailbox_available_for_core (post s c) i ≡ is_mailbox_available_for_core s i
  unfolding is_mailbox_available_for_core get_acknowledged_generation
  still_available s c i apart = ground (arith, apart)

  Posted-next :
      (s t : State) (c r : ℕ)
      → c < 64
      → test_bit r c ≡ true
      → Posted (post s c) (bit_and r (not64 (2 ^ c))) request t
      → Posted s r request t
  Posted-next s t c r h present (same, boxes) = (
    same,
    λ i p. elim (Bool-cases (c == i)) [
      | inl now ↦
          let set_bit = subst (λ k. test_bit r k ≡ true) (==→≡ c i now) present in
          ground (arith, boxes i p, without-bits r c i h p, now, set_bit)
      | inr other ↦ ground (arith, boxes i p, without-bits r c i h p, other)
    ],
  )

  kept :
      (s : State) (c r : ℕ)
      → c < 64
      → AllAvailable s r
      → AllAvailable (post s c) (bit_and r (not64 (2 ^ c)))
  kept s c r h free i q left =
      let bits = without-bits r c i h q in
      ground (arith, still_available s c i, bits, left, free i q)

  pub for_targets-Posted :
      (fuel c r : ℕ) (s : State)
      → r < word
      → 65 ≤ fuel + c
      → c ≤ 64
      → Passed c r
      → AllAvailable s r
      → (t : State) × (for_targets (publish_request_to_core request) fuel c r s ≡ some (true, t))
        × Posted s r request t
  unfolding for_targets
  for_targets-Posted zero c r s p enough small before free = absurd (omega arith)
  for_targets-Posted (suc fuel) c r s p enough small before free = elim (Bool-cases (r == 0)) [
    | inl empty ↦ (
      s,
      ground (arith, empty),
      (refl, λ i h. ground (arith, test_bit-zero i, ap (λ x. test_bit x i) (==→≡ r 0 empty))),
    )
    | inr some_left ↦
        let h = not_past c r p before some_left in
        elim (Bool-cases (test_bit r c)) [
          | inr absent ↦
              let (t, e, posted) =
                for_targets-Posted fuel (c + 1) r s p (omega arith) (omega (arith, h))
                  (Passed-bit c r before absent) free in
              (t, ground (arith, some_left, absent, bit_and-pow c r, e), posted)
          | inl present ↦
              let rest = bit_and r (not64 (2 ^ c)) in
              let one = publish_request_to_core_lem s c h (free c h present) in
              let (t, e, posted) =
                for_targets-Posted fuel (c + 1) rest (post s c)
                  (without-lt_word r (not64 (2 ^ c)) p) (omega arith) (omega (arith, h))
                  (cleared_bit c r h before) (λ i q set_bit. kept s c r h free i q set_bit) in
              (
                t,
                ground (arith, some_left, present, bit_and-pow c r, one, e),
                Posted-next s t c r h present posted,
              )
        ]
  ]

-- A valid request goes to every core of the mask, if all their mailboxes are available.
pub publish_request_to_targets_lem :
    (s : State) (r : ℕ) (request : Request)
    → r < word
    → is_valid request ≡ true
    → AllAvailable s r
    → (t : State) × (publish_request_to_targets s r request ≡ some (true, t)) × Posted s r request t
unfolding publish_request_to_targets
publish_request_to_targets_lem s r request p valid free =
    let (t, e, posted) =
      for_targets-Posted request valid mask_fuel 0 r s p (omega arith) (omega arith)
        (λ i h. absurd (omega arith)) free in
    (
      t,
      subst
          (λ b.
            (if b
              then for_targets (publish_request_to_core request) mask_fuel 0 r s
              else some (false, s))
            ≡ some (true, t))
          (sym valid) e,
      posted,
    )

-- The request that a publisher builds.
abbrev pub request_for : State → RequestType → ℕ → ℕ → Request
request_for s type address_space_id base = record {
  generation = add64 s.next_generation 1;
  request_type = type;
  address_space_id = address_space_id;
  virtual_address_page_base = base;
}

abbrev pub counted : State → State
counted s = record s { next_generation = add64 s.next_generation 1 }

counted_available :
    (s : State) (i : ℕ)
    → is_mailbox_available_for_core (counted s) i ≡ is_mailbox_available_for_core s i
unfolding is_mailbox_available_for_core get_acknowledged_generation
counted_available s i = refl

-- Core `i` has acknowledged the generation in its mailbox, or a later one; an empty mailbox has generation
-- 0.
abbrev pub HasAcknowledged : State → ℕ → Type 0
HasAcknowledged s i = (s.mailbox_by_core i).published_generation ≤ s.ack_generation_by_core i

pub HasAcknowledged_lem :
    (s : State) (i : ℕ) → i < 64 → is_mailbox_available_for_core s i ≡ true → HasAcknowledged s i
unfolding is_mailbox_available_for_core get_acknowledged_generation
HasAcknowledged_lem s i h e = ground (arith, h, e)

is_mailbox_available_for_core_lem :
    (s : State) (i : ℕ)
    → i < 64
    → is_mailbox_available_for_core s i ≡ false
    → s.ack_generation_by_core i < (s.mailbox_by_core i).published_generation
unfolding is_mailbox_available_for_core get_acknowledged_generation
is_mailbox_available_for_core_lem s i h e = ground (arith, h, e)

-- The results of a publisher.
pub data Publishes (s : State) (r : ℕ) (request : Request)
    : Option (Option Request × State) → Type 0 where
  busy :
      (i : ℕ)
      → i < 64
      → test_bit r i ≡ true
      → s.ack_generation_by_core i < (s.mailbox_by_core i).published_generation
      → Publishes s r request (some (none, s))
  invalid : is_valid request ≡ false → Publishes s r request (some (none, counted s))
  posted :
      (t : State)
      → is_valid request ≡ true
      → ((i : ℕ) → i < 64 → test_bit r i ≡ true → HasAcknowledged s i)
      → Posted (counted s) r request t
      → Publishes s r request (some (some request, t))

-- Every publication to the cores of a 64-bit mask returns, in one of three ways. Some core of the mask has
-- a request in its mailbox whose generation is later than the one it has acknowledged, and nothing
-- changes. Or the request is not valid (an address inside a page, no type, or a generation that wrapped to
-- 0), and only the counter of generations moves. Or every core of the mask had acknowledged the generation
-- in its mailbox or a later one, the request is in all their mailboxes, the other mailboxes are as they
-- were, and of the rest only the counter has moved.
pub publish_to_targets-Publishes :
    (s : State) (r : ℕ) (type : RequestType) (address_space_id base : ℕ)
    → r < word
    → Publishes s r
        (request_for s type address_space_id base)
        (publish_to_targets s r type address_space_id base)
unfolding publish_to_targets are_target_mailboxes_available if_available build_request
    allocate_generation build_and_publish published
publish_to_targets-Publishes s r type asid base p =
    let request = request_for s type asid base in
    elim (for_targets-Tested s is_mailbox_available_for_core mask_fuel 0 r p (omega arith)
      (omega arith) (λ i h. absurd (omega arith))) [
        | inr (e, (i, h, present, blocked)) ↦
            rw e (busy i h present (is_mailbox_available_for_core_lem s i h blocked))
        | inl (e, free) ↦ rw e (elim (Bool-cases (is_valid request)) [
          | inr bad ↦ rw bad (invalid bad)
          | inl valid ↦
              let (t, at, box) =
                publish_request_to_targets_lem (counted s) r request p valid
                  (λ i h e. counted_available s i ∙ free i h e) in
              rw (valid, at) (posted t valid (λ i h e. HasAcknowledged_lem s i h (free i h e)) box)
        ])
      ]
