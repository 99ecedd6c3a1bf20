-- ===== src/Shootdown/Completion.antt =====
-- rocinante/src/memory/tlb_shootdown_state.h: requests that are reported as completed.
use walden.Base.{Bool, Bool-cases, Option, [], ap, arith, false, if◌then◌else◌, inl, inr, leb}
use walden.Base.{none, refl, some, some-injective, subst, sym, true, ℕ, ◌+◌, ◌<◌, ◌^◌, ◌∙◌, ◌≡◌}
use walden.Base.{◌≤◌, ◌⊎◌}
use walden.Base.Bits.{test_bit}
use walden.Base.Word.{add64, word}
use walden.Shootdown.{Request, RequestType, State, get_acknowledged_generation}
use walden.Shootdown.{have_all_targets_acknowledged, is_published_request_completed}
use walden.Shootdown.{is_request_completed_for_targets, is_valid, mailbox_of, mask_fuel}
use walden.Shootdown.{publish_to_targets, reset}
use walden.Shootdown.Delivery.{Runs-Waiting}
use walden.Shootdown.Masks.{for_targets-Tested}
use walden.Shootdown.Order.{Runs-Ordered}
use walden.Shootdown.Publish.{Publishes, busy, invalid, posted, publish_to_targets-Publishes}
use walden.Shootdown.Publish.{request_for}
use walden.Shootdown.Runs.{Logged, Runs, World, same_state, world}

result_of : Option (Option Request × State) → Option Request
result_of none = none
result_of (some (o, t)) = o

-- What a successful publication leaves in a core of the mask.
posted_lem :
    (s : State) (r : ℕ) (q : Request) (p : Option (Option Request × State)) (q' : Request)
    (t : State)
    → Publishes s r q p
    → p ≡ some (some q', t)
    → (i : ℕ) → i < 64
    → test_bit r i ≡ true
    → (q ≡ q')
      × (t.mailbox_by_core i ≡ mailbox_of q)
      × (t.ack_generation_by_core ≡ s.ack_generation_by_core)
unfolding result_of
posted_lem s r q p q' t (busy j h present blocked) e i k target =
    absurd (ground (arith, ap result_of e))
posted_lem s r q p q' t (invalid bad) e i k target = absurd (ground (arith, ap result_of e))
posted_lem s r q p q' t (posted u valid free (same, boxes)) e i k target =
    let to = same_state s u t (some q) (some q') e in
    (
      some-injective q q' (ap result_of e),
      subst (λ (v : State). v.mailbox_by_core i ≡ mailbox_of q) to
          (ground (arith, boxes i k, target)),
      ap (λ (v : State). v.ack_generation_by_core) (sym to ∙ same),
    )

reached :
    (s : State) (i generation : ℕ)
    → i < 64
    → leb generation (get_acknowledged_generation s i) ≡ true
    → generation ≤ s.ack_generation_by_core i
unfolding get_acknowledged_generation
reached s i generation h e = ground (arith, h, e)

not_reached :
    (s : State) (i generation : ℕ)
    → i < 64
    → leb generation (get_acknowledged_generation s i) ≡ false
    → s.ack_generation_by_core i < generation
unfolding get_acknowledged_generation
not_reached s i generation h e = ground (arith, h, e)

-- For a 64-bit mask the loop over the cores returns, with true where the last generation that each core of
-- the mask acknowledged is the given one or a later one, and else with false, and for some core of the
-- mask it is an earlier one. The state stays as it was.
pub have_all_targets_acknowledged_cases :
    (s : State) (r generation : ℕ)
    → r < word
    → ((have_all_targets_acknowledged s r generation ≡ some (true, s))
        × ((i : ℕ) → i < 64 → test_bit r i ≡ true → generation ≤ s.ack_generation_by_core i))
      ⊎ ((have_all_targets_acknowledged s r generation ≡ some (false, s))
          × ((i : ℕ) × (i < 64)
              × (test_bit r i ≡ true)
              × (s.ack_generation_by_core i < generation)))
unfolding have_all_targets_acknowledged
have_all_targets_acknowledged_cases s r generation p =
    elim (for_targets-Tested s (λ t i. leb generation (get_acknowledged_generation t i)) mask_fuel 0
      r p (omega arith) (omega arith) (λ i h. absurd (omega arith))) [
        | inl (e, all) ↦ inl (e, λ i h target. reached s i generation h (all i h target))
        | inr (e, (i, h, target, late)) ↦ inr (e, (i, h, target, not_reached s i generation h late))
      ]

flag_of : Option (Bool × State) → Bool
flag_of none = false
flag_of (some (b, s)) = b

completed_lem :
    (s : State) (r : ℕ) (q : Request)
    → is_valid q ≡ true
    → is_published_request_completed s (record { target_cpu_mask = r; request = q })
      ≡ have_all_targets_acknowledged s r q.generation
unfolding is_published_request_completed is_request_completed_for_targets
completed_lem s r q valid =
    let all = have_all_targets_acknowledged s r q.generation in
    subst (λ b. (if b then (if b then all else some (false, s)) else some (false, s)) ≡ all)
      (sym valid) refl

completed_bad :
    (s : State) (r : ℕ) (q : Request)
    → is_valid q ≡ false
    → is_published_request_completed s (record { target_cpu_mask = r; request = q })
      ≡ some (false, s)
unfolding is_published_request_completed
completed_bad s r q bad =
    let rest = is_request_completed_for_targets s r q in
    subst (λ b. (if b then rest else some (false, s)) ≡ some (false, s)) (sym bad) refl

flag_of-clash :
    (o : Option (Bool × State)) (s u : State)
    → o ≡ some (false, s)
    → o ≡ some (true, u)
    → false ≡ true
unfolding flag_of
flag_of-clash o s u e d = ap flag_of (sym e ∙ d)

acknowledged_of_completed :
    (s u : State) (r : ℕ) (q : Request)
    → r < word
    → is_published_request_completed s (record { target_cpu_mask = r; request = q })
      ≡ some (true, u)
    → (i : ℕ) → i < 64
    → test_bit r i ≡ true
    → q.generation ≤ s.ack_generation_by_core i
acknowledged_of_completed s u r q p done i h target = elim (Bool-cases (is_valid q)) [
  | inr bad ↦ absurd (ground (arith, flag_of-clash _ s u (completed_bad s r q bad) done))
  | inl valid ↦
      let goes_on = completed_lem s r q valid in
      elim (have_all_targets_acknowledged_cases s r q.generation p) [
        | inl (e, all) ↦ all i h target
        | inr (e, at) ↦ absurd (ground (arith, flag_of-clash _ s u e (sym goes_on ∙ done)))
      ]
]

-- Publish a request to the cores of a 64-bit mask, with an address space number below 2 ^ 16, after a
-- reset and a run in which the counter of generations does not run out, and let a further run follow. If
-- the publication succeeds and the request is reported as completed after the further run, then each core
-- of the mask has, in that run, handled this very request, or had the request's generation or a later one
-- acknowledged by a direct call of RecordAcknowledgedGeneration. The runs are of all the operations that
-- change the state but Reset, other publications included, one after the other; in them masks are words,
-- and no direct call acknowledges or posts a generation that is ahead of the counter at that moment.
pub completed-Logged :
    (s : State) (w : World) (r : ℕ) (type : RequestType) (address_space_id base : ℕ) (q : Request)
    (t : State) (v : World) (u : State)
    → Runs (world (reset s) []) w
    → w.state.next_generation + 1 < word
    → r < word
    → address_space_id < 2 ^ 16
    → publish_to_targets w.state r type address_space_id base ≡ some (some q, t)
    → Runs (world t []) v
    → is_published_request_completed v.state (record { target_cpu_mask = r; request = q })
      ≡ some (true, u)
    → (i : ℕ) → i < 64
    → test_bit r i ≡ true
    → Logged i q v.log
completed-Logged s w r type asid base q t v u before room p small done after complete i h target =
    let ordered = Runs-Ordered s w before in
    let (same, box, acks) =
      posted_lem w.state r (request_for w.state type asid base) _ q t
        (publish_to_targets-Publishes w.state r type asid base p) done i h target in
    let generation : add64 w.state.next_generation 1 ≡ q.generation =
      ap (λ (x : Request). x.generation) same in
    let late : t.ack_generation_by_core i < q.generation =
      let ack = ap (λ f. f i) acks in omega (arith, ordered.acked i h, ack, generation, room) in
    let asid_eq : asid ≡ q.address_space_id = ap (λ (x : Request). x.address_space_id) same in
    let small_q : q.address_space_id < 2 ^ 16 = subst (λ x. x < 2 ^ 16) asid_eq small in
    elim (Runs-Waiting i q h (world t []) v small_q after (inr (box ∙ ap mailbox_of same, late))) [
      | inl logged ↦ logged
      | inr (at, still) ↦
          absurd
            (omega (arith, still, acknowledged_of_completed v.state u r q p complete i h target))
    ]
