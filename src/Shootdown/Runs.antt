-- ===== src/Shootdown/Runs.antt =====
-- rocinante/src/memory/tlb_shootdown_state.h: runs of the methods that change the state, in which the
-- acknowledgements are kept in a log.
use walden.Base.{Bool, Bool-cases, List, Option, Option-cases, [], ap, arith, false, inl, inr}
use walden.Base.{ltb, ltb→lt, none, refl, some, some-injective, subst, true, ℕ, ◌%◌, ◌+◌, ◌<◌}
use walden.Base.{◌==◌, ◌^◌, ◌∙◌, ◌∷◌, ◌≡◌, ◌≤◌, ◌⊎◌}
use walden.Base.Bits.{test_bit}
use walden.Base.Word.{add64, word}
use walden.Shootdown.{Mailbox, Request, RequestType, State, acknowledge, allocate_generation}
use walden.Shootdown.{decode_request_type, freeze_online_cpu_mask, get_acknowledged_generation}
use walden.Shootdown.{handle_and_acknowledge_pending_request_for_core, is_valid, mailbox_of}
use walden.Shootdown.{pending, publish_request_to_core, publish_request_to_targets}
use walden.Shootdown.{publish_to_targets, record_acknowledged_generation, set_cpu_online}
use walden.Shootdown.{try_read_pending_request_for_core, try_read_published_request_for_core}
use walden.Shootdown.Publish.{HasAcknowledged, Publishes, busy, counted, invalid, posted}

-- An acknowledgement: by a core that handled a request, or by a direct call of
-- `RecordAcknowledgedGeneration`.
pub data Acknowledgement : Type 0 where
  by_handler : ℕ → Request → Acknowledgement
  by_call : ℕ → ℕ → Acknowledgement

pub record World : Type 0 where
  pub state : State
  pub log : List Acknowledgement

abbrev pub world : State → List Acknowledgement → World
world s log = record { state = s; log = log }

-- One public operation other than `Reset`. The counter of generations does not run out, and a direct call
-- acknowledges or posts only a generation that the counter has reached.
pub data Step (w : World) : World → Type 0 where
  allocate :
      (generation : ℕ) (t : State)
      → w.state.next_generation + 1 < word
      → allocate_generation w.state ≡ (generation, t)
      → Step w (world t w.log)
  publish :
      (r : ℕ) (type : RequestType) (address_space_id base : ℕ) (o : Option Request) (t : State)
      → r < word
      → w.state.next_generation + 1 < word
      → publish_to_targets w.state r type address_space_id base ≡ some (o, t)
      → Step w (world t w.log)
  post_to_core :
      (core_id : ℕ) (request : Request) (done : Bool) (t : State)
      → request.generation ≤ w.state.next_generation
      → publish_request_to_core request w.state core_id ≡ (done, t)
      → Step w (world t w.log)
  post_to_targets :
      (r : ℕ) (request : Request) (done : Bool) (t : State)
      → request.generation ≤ w.state.next_generation
      → publish_request_to_targets w.state r request ≡ some (done, t)
      → Step w (world t w.log)
  handle :
      (core_id : ℕ) (handler : Request → Bool) (request : Request) (t : State)
      → try_read_pending_request_for_core w.state core_id ≡ some request
      → handle_and_acknowledge_pending_request_for_core w.state core_id handler ≡ (true, t)
      → Step w (world t (by_handler core_id request ∷ w.log))
  handle_nothing :
      (core_id : ℕ) (handler : Request → Bool) (t : State)
      → handle_and_acknowledge_pending_request_for_core w.state core_id handler ≡ (false, t)
      → Step w (world t w.log)
  acknowledge_directly :
      (core_id generation : ℕ)
      → generation ≤ w.state.next_generation
      → Step w (
          world
            (record_acknowledged_generation w.state core_id generation)
            (by_call core_id generation ∷ w.log))
  set_online :
      (core_id : ℕ) (is_online done : Bool) (t : State)
      → set_cpu_online w.state core_id is_online ≡ (done, t)
      → Step w (world t w.log)
  freeze :
      (done : Bool) (t : State)
      → freeze_online_cpu_mask w.state ≡ (done, t)
      → Step w (world t w.log)

pub data Runs (w : World) : World → Type 0 where
  here : Runs w w
  and_then : {u v : World} → Runs w u → Step u v → Runs w v

-- Core `i` has handled the request, or its generation or a later one was acknowledged for the core by a
-- direct call.
abbrev pub Logged : ℕ → Request → List Acknowledgement → Type 0
Logged i q [] = ⊥
Logged i q (by_handler j r ∷ log) = ((j ≡ i) × (r ≡ q)) ⊎ Logged i q log
Logged i q (by_call j generation ∷ log) = ((j ≡ i) × (q.generation ≤ generation)) ⊎ Logged i q log

-- No generation is ahead of the counter.
pub record Ordered (s : State) : Type 0 where
  pub acked : (i : ℕ) → i < 64 → s.ack_generation_by_core i ≤ s.next_generation
  pub posted_before :
      (i : ℕ) → i < 64 → (s.mailbox_by_core i).published_generation ≤ s.next_generation

-- What posting `q` leaves of a core's mailbox, of the acknowledgements and of the counter.
pub record Change (s : State) (q : Request) (i : ℕ) (t : State) : Type 0 where
  pub box :
      (t.mailbox_by_core i ≡ s.mailbox_by_core i)
      ⊎ HasAcknowledged s i
        × (t.mailbox_by_core i ≡ mailbox_of q)
        × (q.generation ≤ t.next_generation)
  pub acks : t.ack_generation_by_core ≡ s.ack_generation_by_core
  pub counter : s.next_generation ≤ t.next_generation

state_of : State → Option (Option Request × State) → State
state_of s none = s
state_of s (some (o, t)) = t

pub same_state :
    (s u t : State) (o o' : Option Request)
    → ◌≡◌ {A = Option (Option Request × State)} (some (o, u)) (some (o', t))
    → u ≡ t
unfolding state_of
same_state s u t o o' e = ap (state_of s) e

pub publish-Change :
    (s : State) (r : ℕ) (q : Request) (p : Option (Option Request × State)) (o : Option Request)
    (t : State)
    → s.next_generation + 1 < word
    → q.generation ≡ add64 s.next_generation 1
    → Publishes s r q p
    → p ≡ some (o, t)
    → (i : ℕ) → i < 64
    → Change s q i t
publish-Change s r q p o t room new (busy j h present blocked) e i k =
    subst (Change s q i) (same_state s s t none o e)
      (record { box = inl refl; acks = refl; counter = omega arith })
publish-Change s r q p o t room new (invalid bad) e i k =
    subst (Change s q i) (same_state s (counted s) t none o e)
      (record { box = inl refl; acks = refl; counter = omega (arith, room) })
publish-Change s r q p o t room new (posted u valid free (same, boxes)) e i k =
    let count : u.next_generation ≡ add64 s.next_generation 1 =
      ap (λ (v : State). v.next_generation) same in
    subst (Change s q i) (same_state s u t (some q) o e) (record {
      box = elim (Bool-cases (test_bit r i)) [
        | inl target ↦
            inr (free i k target, ground (arith, boxes i k, target), omega (arith, count, new))
        | inr other ↦ inl (ground (arith, boxes i k, other))
      ];
      acks = ap (λ (v : State). v.ack_generation_by_core) same;
      counter = omega (arith, count, room);
    })

abbrev pub request_in : Mailbox → Request
request_in mailbox = record {
  generation = mailbox.published_generation;
  request_type = decode_request_type mailbox.raw_type;
  address_space_id = mailbox.address_space_id % 2 ^ 16;
  virtual_address_page_base = mailbox.virtual_address_page_base;
}

-- The request that a core's mailbox holds.
abbrev pub held : State → ℕ → Request
held s j = request_in (s.mailbox_by_core j)

published_lem :
    (s : State) (j : ℕ) (q : Request)
    → try_read_published_request_for_core s j ≡ some q
    → (j < 64) × (held s j ≡ q)
unfolding try_read_published_request_for_core
published_lem s j q e = elim (Bool-cases (ltb j 64)) [
  | inr above ↦ absurd (ground (arith, above, e))
  | inl below ↦ elim (Bool-cases ((s.mailbox_by_core j).published_generation == 0)) [
    | inl nothing ↦ absurd (ground (arith, below, nothing, e))
    | inr there ↦ elim (Bool-cases (is_valid (held s j))) [
      | inr bad ↦ absurd (ground (arith, below, there, bad, e))
      | inl valid ↦ (ltb→lt j 64 below, some-injective _ _ (ground (arith, below, there, valid, e)))
    ]
  ]
]

-- A pending request is the one in the mailbox, and it is newer than the acknowledgement.
pub pending_lem :
    (s : State) (j : ℕ) (q : Request)
    → try_read_pending_request_for_core s j ≡ some q
    → (j < 64) × (held s j ≡ q) × (s.ack_generation_by_core j < q.generation)
unfolding try_read_pending_request_for_core pending get_acknowledged_generation
pending_lem s j q e = elim (Option-cases (try_read_published_request_for_core s j)) [
  | inl nothing ↦ absurd (ground (arith, nothing, e))
  | inr (found, at) ↦
      let (h, same) = published_lem s j found at in
      elim (Bool-cases (ltb (s.ack_generation_by_core j) found.generation)) [
        | inr old ↦ absurd (ground (arith, h, at, old, e))
        | inl newer ↦
            let it : found ≡ q = some-injective _ _ (ground (arith, h, at, newer, e)) in
            (
              h,
              same ∙ it,
              ltb→lt _ _ (
                  subst (λ (x : Request). ltb (s.ack_generation_by_core j) x.generation ≡ true) it
                    newer),
            )
      ]
]

-- What handling the pending request leaves.
pub handled :
    (s t : State) (j : ℕ) (handler : Request → Bool) (q : Request)
    → try_read_pending_request_for_core s j ≡ some q
    → handle_and_acknowledge_pending_request_for_core s j handler ≡ (true, t)
    → t ≡ record_acknowledged_generation s j q.generation
unfolding handle_and_acknowledge_pending_request_for_core acknowledge
handled s t j handler q e done = elim (Bool-cases (handler q)) [
  | inl success ↦ ground (arith, e, done, success)
  | inr failure ↦ absurd (ground (arith, e, done, failure))
]

pub handled_nothing :
    (s t : State) (j : ℕ) (handler : Request → Bool)
    → handle_and_acknowledge_pending_request_for_core s j handler ≡ (false, t)
    → s ≡ t
unfolding handle_and_acknowledge_pending_request_for_core acknowledge
handled_nothing s t j handler e = elim (Option-cases (try_read_pending_request_for_core s j)) [
  | inl nothing ↦ ground (arith, nothing, e)
  | inr (q, at) ↦ elim (Bool-cases (handler q)) [
    | inl success ↦ absurd (ground (arith, at, e, success))
    | inr failure ↦ ground (arith, at, e, failure)
  ]
]
