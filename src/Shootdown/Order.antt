-- ===== src/Shootdown/Order.antt =====
-- rocinante/src/memory/tlb_shootdown_state.h: generations and their counter in a run.
use native.Mathlib.Nat.{le_trans}
use walden.Base.{Bool, [], ap, arith, inl, inr, refl, some, subst, sym, ℕ, ◌<◌, ◌≡◌, ◌≤◌}
use walden.Shootdown.{Mailbox, Request, State, publish_request_to_core}
use walden.Shootdown.{publish_request_to_targets, record_acknowledged_generation, reset}
use walden.Shootdown.{try_read_pending_request_for_core}
use walden.Shootdown.Masks.{publish_request_to_targets-Keeps}
use walden.Shootdown.Posts.{Kept, allocate_generation-Kept, freeze_online_cpu_mask-Kept}
use walden.Shootdown.Posts.{publish_request_to_core-Change, set_cpu_online-Kept}
use walden.Shootdown.Publish.{publish_to_targets-Publishes, request_for}
use walden.Shootdown.Runs.{Change, Ordered, Runs, Step, World, acknowledge_directly, allocate}
use walden.Shootdown.Runs.{and_then, freeze, handle, handle_nothing, handled, handled_nothing}
use walden.Shootdown.Runs.{here, pending_lem, post_to_core, post_to_targets, publish}
use walden.Shootdown.Runs.{publish-Change, set_online, world}

Change-Ordered :
    (s : State) (q : Request) (t : State)
    → ((i : ℕ) → i < 64 → Change s q i t)
    → Ordered s
    → Ordered t
Change-Ordered s q t change o = record {
  acked = λ i h.
      let c = change i h in
      let same = ap (λ f. f i) c.acks in omega (arith, o.acked i h, same, c.counter);
  posted_before = λ i h.
      let c = change i h in
      elim c.box [
        | inl same ↦
            let generation = ap (λ (m : Mailbox). m.published_generation) same in
            omega (arith, o.posted_before i h, generation, c.counter)
        | inr (free, at, late) ↦
            let generation = ap (λ (m : Mailbox). m.published_generation) at in
            omega (arith, late, generation)
      ];
}

handle-Ordered :
    (s : State) (j : ℕ) (q : Request)
    → try_read_pending_request_for_core s j ≡ some q
    → Ordered s
    → Ordered (record_acknowledged_generation s j q.generation)
unfolding record_acknowledged_generation
handle-Ordered s j q e o =
    let (k, same, newer) = pending_lem s j q e in
    let generation = ap (λ (r : Request). r.generation) same in
    record {
      acked = λ i h. ground (arith, o.acked i h, o.posted_before j k, k, generation);
      posted_before = λ i h. ground (arith, o.posted_before i h, k);
    }

-- An acknowledgement of a generation that the counter has reached.
record-Ordered :
    (s : State) (j generation : ℕ)
    → generation ≤ s.next_generation
    → Ordered s
    → Ordered (record_acknowledged_generation s j generation)
unfolding record_acknowledged_generation
record-Ordered s j generation old o = record {
  acked = λ i h. ground (arith, o.acked i h, old);
  posted_before = λ i h. ground (arith, o.posted_before i h);
}

-- The counter has reached the generation of a request that is posted directly, and stays there.
OrderedAfter : Request → State → Type 0
OrderedAfter q s = Ordered s × (q.generation ≤ s.next_generation)

post-OrderedAfter :
    (q : Request) (s : State) (core_id : ℕ)
    → OrderedAfter q s
    → OrderedAfter q (publish_request_to_core q s core_id).1
unfolding OrderedAfter
post-OrderedAfter q s core_id (o, old) =
    let change = publish_request_to_core-Change s core_id q old in
    (
      Change-Ordered s q (publish_request_to_core q s core_id).1 change o,
      le_trans old (change 0 (omega arith)).counter,
    )

post_to_targets-Ordered :
    (s : State) (r : ℕ) (q : Request) (done : Bool) (t : State)
    → q.generation ≤ s.next_generation
    → publish_request_to_targets s r q ≡ some (done, t)
    → Ordered s
    → Ordered t
unfolding OrderedAfter
post_to_targets-Ordered s r q done t old e o =
    (publish_request_to_targets-Keeps (OrderedAfter q) q (post-OrderedAfter q) s r done t e
      (o, old)).0

Kept-Ordered : (s t : State) → Kept s t → Ordered s → Ordered t
Kept-Ordered s t kept o = record {
  acked =
      λ i h. let same = ap (λ f. f i) kept.acks in omega (arith, o.acked i h, same, kept.counter);
  posted_before = λ i h.
      let same = ap (λ f. (f i).published_generation) kept.boxes in
      omega (arith, o.posted_before i h, same, kept.counter);
}

Step-Ordered : (w v : World) → Step w v → Ordered w.state → Ordered v.state
Step-Ordered w v (allocate generation t room e) wf =
    Kept-Ordered w.state t (allocate_generation-Kept w.state t generation room e) wf
Step-Ordered w v (publish r type asid base o t p room e) wf =
    let q = request_for w.state type asid base in
    Change-Ordered w.state q t
      (publish-Change w.state r q _ o t room refl
        (publish_to_targets-Publishes w.state r type asid base p) e)
      wf
Step-Ordered w v (post_to_core j q done t old e) wf =
    subst Ordered (ap (λ (p : Bool × State). p.1) e)
      (Change-Ordered w.state q _ (publish_request_to_core-Change w.state j q old) wf)
Step-Ordered w v (post_to_targets r q done t old e) wf =
    post_to_targets-Ordered w.state r q done t old e wf
Step-Ordered w v (handle j handler request t e done) wf =
    subst Ordered (sym (handled w.state t j handler request e done))
      (handle-Ordered w.state j request e wf)
Step-Ordered w v (handle_nothing j handler t e) wf =
    subst Ordered (handled_nothing w.state t j handler e) wf
Step-Ordered w v (acknowledge_directly j generation old) wf =
    record-Ordered w.state j generation old wf
Step-Ordered w v (set_online j is_online done t e) wf =
    Kept-Ordered w.state t (set_cpu_online-Kept w.state t j is_online done e) wf
Step-Ordered w v (freeze done t e) wf =
    Kept-Ordered w.state t (freeze_online_cpu_mask-Kept w.state t done e) wf

reset-Ordered : (s : State) → Ordered (reset s)
unfolding reset
reset-Ordered s = record {
  acked = λ i h. ground (arith, h);
  posted_before = λ i h. ground (arith, h);
}

-- In every run from a reset, of publications, of direct posts, of handling that succeeds or fails, of
-- allocations of generations, of direct acknowledgements and of changes to the set of CPUs, no
-- acknowledgement and no mailbox is ahead of the counter of generations, for any core. The conditions on
-- the run are that the counter does not run out, that masks are words, and that a generation which the
-- caller gives, to RecordAcknowledgedGeneration or in a request it posts by PublishRequestToCore or
-- PublishRequestToTargets, is not itself ahead of the counter at that moment.
pub Runs-Ordered : (s : State) (v : World) → Runs (world (reset s) []) v → Ordered v.state
Runs-Ordered s v here = reset-Ordered s
Runs-Ordered s v (and_then {u} run step) = Step-Ordered u v step (Runs-Ordered s u run)
