-- ===== src/Shootdown/Delivery.antt =====
-- rocinante/src/memory/tlb_shootdown_state.h: what becomes of a published request in a run.
-- The core has acknowledged the request, or the request is in its mailbox and not acknowledged.
use native.Mathlib.Nat.{le_trans}
use walden.Base.{==→≡, Bool, Bool-cases, List, ap, arith, inl, inr, leb, refl, some, subst, sym}
use walden.Base.{ℕ, ◌%◌, ◌<◌, ◌==◌, ◌^◌, ◌∙◌, ◌∷◌, ◌≡◌, ◌≤◌, ◌⊎◌}
use walden.Shootdown.{Mailbox, Request, RequestType, State, decode_request_type, invalidate_asid}
use walden.Shootdown.{invalidate_global_all, invalidate_page, mailbox_of, no_request}
use walden.Shootdown.{publish_request_to_core, publish_request_to_targets, raw_request_type}
use walden.Shootdown.{record_acknowledged_generation, try_read_pending_request_for_core}
use walden.Shootdown.Masks.{publish_request_to_targets-Keeps}
use walden.Shootdown.Posts.{Kept, allocate_generation-Kept, freeze_online_cpu_mask-Kept}
use walden.Shootdown.Posts.{publish_request_to_core-Change, set_cpu_online-Kept}
use walden.Shootdown.Publish.{publish_to_targets-Publishes, request_for}
use walden.Shootdown.Runs.{Acknowledgement, Change, Logged, Runs, Step, World}
use walden.Shootdown.Runs.{acknowledge_directly, allocate, and_then, by_call, by_handler, freeze}
use walden.Shootdown.Runs.{handle, handle_nothing, handled, handled_nothing, held, here}
use walden.Shootdown.Runs.{pending_lem, post_to_core, post_to_targets, publish, publish-Change}
use walden.Shootdown.Runs.{request_in, set_online, world}

abbrev pub Waiting : ℕ → Request → World → Type 0
Waiting i q w =
    Logged i q w.log
    ⊎ ((w.state.mailbox_by_core i ≡ mailbox_of q)
        × (w.state.ack_generation_by_core i < q.generation))

decode-raw_request_type : (x : RequestType) → decode_request_type (raw_request_type x) ≡ x
decode-raw_request_type no_request = refl
decode-raw_request_type invalidate_asid = refl
decode-raw_request_type invalidate_page = refl
decode-raw_request_type invalidate_global_all = refl

held_lem :
    (s : State) (i : ℕ) (q : Request)
    → q.address_space_id < 2 ^ 16
    → s.mailbox_by_core i ≡ mailbox_of q
    → held s i ≡ q
held_lem s i q small box =
    let asid : q.address_space_id % 2 ^ 16 ≡ q.address_space_id = omega (arith, small) in
    ap request_in box ∙ rw (asid, decode-raw_request_type q.request_type) refl

module _ (i : ℕ) (q : Request) (h : i < 64) where
  Change-Waiting :
      (w : World) (q' : Request) (t : State)
      → Change w.state q' i t
      → Waiting i q w
      → Waiting i q (world t w.log)
  Change-Waiting w q' t change (inl logged) = inl logged
  Change-Waiting w q' t change (inr (box, late)) = elim change.box [
    | inl same ↦ inr (same ∙ box, subst (λ f. f i < q.generation) (sym change.acks) late)
    | inr (free, new, reached) ↦
        let generation = ap (λ (m : Mailbox). m.published_generation) box in
        absurd (omega (arith, free, generation, late))
  ]

  handle-Waiting :
      (w : World) (j : ℕ) (request : Request)
      → q.address_space_id < 2 ^ 16
      → try_read_pending_request_for_core w.state j ≡ some request
      → Waiting i q w
      → Waiting i q (
          world
            (record_acknowledged_generation w.state j request.generation)
            (by_handler j request ∷ w.log))
  unfolding record_acknowledged_generation
  handle-Waiting w j request small e (inl logged) = inl (inr logged)
  handle-Waiting w j request small e (inr (box, late)) =
      let (k, same, newer) = pending_lem w.state j request e in
      elim (Bool-cases (j == i)) [
        | inl now ↦
            let at = ==→≡ j i now in
            inl (inl (at, sym same ∙ ap (held w.state) at ∙ held_lem w.state i q small box))
        | inr other ↦ inr (ground (arith, k, box), ground (arith, k, other, late))
      ]

  Kept-Waiting :
      (w : World) (t : State) → Kept w.state t → Waiting i q w → Waiting i q (world t w.log)
  Kept-Waiting w t kept (inl logged) = inl logged
  Kept-Waiting w t kept (inr (box, late)) =
      inr (ap (λ f. f i) kept.boxes ∙ box, subst (λ f. f i < q.generation) (sym kept.acks) late)

  record-Waiting :
      (w : World) (j generation : ℕ)
      → Waiting i q w
      → Waiting i q (
          world
            (record_acknowledged_generation w.state j generation)
            (by_call j generation ∷ w.log))
  unfolding record_acknowledged_generation
  record-Waiting w j generation (inl logged) = inl (inr logged)
  record-Waiting w j generation (inr (box, late)) = elim (Bool-cases (j == i)) [
    | inr other ↦ inr (ground (arith, box), ground (arith, other, late))
    | inl now ↦ elim (Bool-cases (leb q.generation generation)) [
      | inl reached ↦ inl (inl (==→≡ j i now, ground (arith, reached)))
      | inr earlier ↦ inr (ground (arith, box), ground (arith, now, h, earlier))
    ]
  ]

  -- The counter has reached the generation of a request that is posted directly, and stays there.
  WaitingAfter : Request → List Acknowledgement → State → Type 0
  WaitingAfter q' log s = Waiting i q (world s log) × (q'.generation ≤ s.next_generation)

  post-WaitingAfter :
      (q' : Request) (log : List Acknowledgement) (s : State) (core_id : ℕ)
      → WaitingAfter q' log s
      → WaitingAfter q' log (publish_request_to_core q' s core_id).1
  unfolding WaitingAfter
  post-WaitingAfter q' log s core_id (wait, old) =
      let change = publish_request_to_core-Change s core_id q' old i h in
      (
        Change-Waiting (world s log) q' (publish_request_to_core q' s core_id).1 change wait,
        le_trans old change.counter,
      )

  post_to_targets-Waiting :
      (w : World) (r : ℕ) (q' : Request) (done : Bool) (t : State)
      → q'.generation ≤ w.state.next_generation
      → publish_request_to_targets w.state r q' ≡ some (done, t)
      → Waiting i q w
      → Waiting i q (world t w.log)
  unfolding WaitingAfter
  post_to_targets-Waiting w r q' done t old e wait =
      (publish_request_to_targets-Keeps (WaitingAfter q' w.log) q' (post-WaitingAfter q' w.log)
        w.state r done t e (wait, old)).0

  Step-Waiting :
      (w v : World) → q.address_space_id < 2 ^ 16 → Step w v → Waiting i q w → Waiting i q v
  Step-Waiting w v small (allocate generation t room e) wait =
      Kept-Waiting w t (allocate_generation-Kept w.state t generation room e) wait
  Step-Waiting w v small (publish r type asid base o t p room e) wait =
      let q' = request_for w.state type asid base in
      Change-Waiting w q' t
        (publish-Change w.state r q' _ o t room refl
          (publish_to_targets-Publishes w.state r type asid base p) e i h)
        wait
  Step-Waiting w v small (post_to_core j q' done t old e) wait =
      subst (λ u. Waiting i q (world u w.log)) (ap (λ (p : Bool × State). p.1) e)
        (Change-Waiting w q' _ (publish_request_to_core-Change w.state j q' old i h) wait)
  Step-Waiting w v small (post_to_targets r q' done t old e) wait =
      post_to_targets-Waiting w r q' done t old e wait
  Step-Waiting w v small (handle j handler request t e done) wait =
      subst (λ u. Waiting i q (world u (by_handler j request ∷ w.log)))
        (sym (handled w.state t j handler request e done)) (handle-Waiting w j request small e wait)
  Step-Waiting w v small (handle_nothing j handler t e) wait =
      subst (λ u. Waiting i q (world u w.log)) (handled_nothing w.state t j handler e) wait
  Step-Waiting w v small (acknowledge_directly j generation old) wait =
      record-Waiting w j generation wait
  Step-Waiting w v small (set_online j is_online done t e) wait =
      Kept-Waiting w t (set_cpu_online-Kept w.state t j is_online done e) wait
  Step-Waiting w v small (freeze done t e) wait =
      Kept-Waiting w t (freeze_online_cpu_mask-Kept w.state t done e) wait

  pub Runs-Waiting :
      (w v : World) → q.address_space_id < 2 ^ 16 → Runs w v → Waiting i q w → Waiting i q v
  Runs-Waiting w v small here wait = wait
  Runs-Waiting w v small (and_then {u} run step) wait =
      Step-Waiting u v small step (Runs-Waiting w u small run wait)
