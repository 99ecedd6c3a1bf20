-- ===== src/Shootdown/Posts.antt =====
-- rocinante/src/memory/tlb_shootdown_state.h: what the other steps of a run leave: a change of the set of
-- CPUs, an allocation of a generation, and a request that is posted directly.
use walden.Base.{==→≡, Bool, Bool-cases, ap, arith, inl, inr, ltb, ltb→lt, refl, subst, sym, true}
use walden.Base.{update, ℕ, ◌+◌, ◌<◌, ◌==◌, ◌∙◌, ◌≡◌, ◌≤◌, ◌⊎◌}
use walden.Base.Word.{word}
use walden.Shootdown.{Request, State, allocate_generation, freeze_online_cpu_mask}
use walden.Shootdown.{is_mailbox_available_for_core, is_valid, mailbox_of}
use walden.Shootdown.{publish_request_to_core, set_cpu_online}
use walden.Shootdown.Publish.{HasAcknowledged, HasAcknowledged_lem}
use walden.Shootdown.Runs.{Change}

-- A change of the set of CPUs and an allocation leave the mailboxes and the acknowledgements.
pub record Kept (s t : State) : Type 0 where
  pub boxes : t.mailbox_by_core ≡ s.mailbox_by_core
  pub acks : t.ack_generation_by_core ≡ s.ack_generation_by_core
  pub counter : s.next_generation ≤ t.next_generation

pub set_cpu_online-Kept :
    (s t : State) (core_id : ℕ) (is_online done : Bool)
    → set_cpu_online s core_id is_online ≡ (done, t)
    → Kept s t
unfolding set_cpu_online
set_cpu_online-Kept s t core_id is_online done e = record {
  boxes = ap (λ (p : Bool × State). p.1.mailbox_by_core) (sym e) ∙ ground arith;
  acks = ap (λ (p : Bool × State). p.1.ack_generation_by_core) (sym e) ∙ ground arith;
  counter =
      let same = ap (λ (p : Bool × State). p.1.next_generation) (sym e) in ground (arith, same);
}

pub freeze_online_cpu_mask-Kept :
    (s t : State) (done : Bool) → freeze_online_cpu_mask s ≡ (done, t) → Kept s t
unfolding freeze_online_cpu_mask
freeze_online_cpu_mask-Kept s t done e = record {
  boxes = ap (λ (p : Bool × State). p.1.mailbox_by_core) (sym e) ∙ ground arith;
  acks = ap (λ (p : Bool × State). p.1.ack_generation_by_core) (sym e) ∙ ground arith;
  counter =
      let same = ap (λ (p : Bool × State). p.1.next_generation) (sym e) in ground (arith, same);
}

pub allocate_generation-Kept :
    (s t : State) (generation : ℕ)
    → s.next_generation + 1 < word
    → allocate_generation s ≡ (generation, t)
    → Kept s t
unfolding allocate_generation
allocate_generation-Kept s t generation room e = record {
  boxes = ap (λ (p : ℕ × State). p.1.mailbox_by_core) (sym e);
  acks = ap (λ (p : ℕ × State). p.1.ack_generation_by_core) (sym e);
  counter = let same = ap (λ (p : ℕ × State). p.1.next_generation) e in omega (arith, same, room);
}

unposted : (s : State) (q : Request) (i : ℕ) → Change s q i s
unposted s q i = record { box = inl refl; acks = refl; counter = omega arith }

publish_request_to_core_cases :
    (s : State) (core_id : ℕ) (q : Request)
    → ((publish_request_to_core q s core_id).1 ≡ s)
      ⊎ (core_id < 64)
        × (is_mailbox_available_for_core s core_id ≡ true)
        × ((publish_request_to_core q s core_id).1
            ≡ record s { mailbox_by_core = update s.mailbox_by_core core_id (mailbox_of q) })
unfolding publish_request_to_core
publish_request_to_core_cases s core_id q = elim (Bool-cases (ltb core_id 64)) [
  | inr above ↦ inl (rw above refl)
  | inl below ↦ elim (Bool-cases (is_valid q)) [
    | inr bad ↦ inl (rw (below, bad) refl)
    | inl valid ↦ elim (Bool-cases (is_mailbox_available_for_core s core_id)) [
      | inr blocked ↦ inl (ground (arith, below, valid, blocked))
      | inl free ↦ inr (ltb→lt _ _ below, free, ground (arith, below, valid, free))
    ]
  ]
]

-- A posted request is in the mailbox of a core that had acknowledged.
pub publish_request_to_core-Change :
    (s : State) (core_id : ℕ) (q : Request)
    → q.generation ≤ s.next_generation
    → (i : ℕ) → i < 64
    → Change s q i (publish_request_to_core q s core_id).1
publish_request_to_core-Change s core_id q old i h =
    elim (publish_request_to_core_cases s core_id q) [
      | inl same ↦ subst (Change s q i) (sym same) (unposted s q i)
      | inr (below, free, at) ↦ subst (Change s q i) (sym at) (record {
        box = elim (Bool-cases (core_id == i)) [
          | inl now ↦ inr (
            subst (HasAcknowledged s) (==→≡ core_id i now)
                (HasAcknowledged_lem s core_id below free),
            ground (arith, now),
            old,
          )
          | inr other ↦ inl (ground (arith, other))
        ];
        acks = refl;
        counter = omega arith;
      })
    ]
