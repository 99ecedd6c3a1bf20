-- ===== src/Shootdown/Tests.antt =====
-- rocinante/src/memory/tlb_shootdown_state.h on two CPUs.
use walden.Base.{[], arith, false, refl, some, true, update, ℕ, ◌<◌, ◌∷◌, ◌≡◌, ◌≤◌, ◌⊎◌}
use walden.Base.Bits.{test_bit, test_bit-pow}
use walden.Shootdown.{Request, State, acknowledge, allocate_generation}
use walden.Shootdown.{are_target_mailboxes_available, build_and_publish, build_request}
use walden.Shootdown.{empty_mailbox, for_targets, get_acknowledged_generation}
use walden.Shootdown.{handle_and_acknowledge_pending_request_for_core}
use walden.Shootdown.{have_all_targets_acknowledged, if_available, invalidate_asid}
use walden.Shootdown.{invalidate_page, is_mailbox_available_for_core}
use walden.Shootdown.{is_published_request_completed, is_request_completed_for_targets, is_valid}
use walden.Shootdown.{mailbox_of, pending, publish_request_to_core, publish_request_to_targets}
use walden.Shootdown.{publish_to_targets, published, record_acknowledged_generation, reset}
use walden.Shootdown.{try_read_pending_request_for_core, try_read_published_request_for_core}
use walden.Shootdown.Completion.{completed-Logged, have_all_targets_acknowledged_cases}
use walden.Shootdown.Order.{Runs-Ordered}
use walden.Shootdown.Publish.{Publishes, publish_to_targets-Publishes, request_for}
use walden.Shootdown.Runs.{Logged, Ordered, Step, and_then, by_handler, handle, here, publish}
use walden.Shootdown.Runs.{world}

abbrev anything : State
anything = record {
  next_generation = 7;
  online_cpu_mask_bits = 9;
  online_cpu_mask_is_frozen = 1;
  mailbox_by_core = λ i. empty_mailbox;
  ack_generation_by_core = λ i. 5;
}

abbrev start : State
unfolding reset
start = reset anything

publish_to_targets-Publishes_example :
    Publishes start 3
      (request_for start invalidate_page 2 4096)
      (publish_to_targets start 3 invalidate_page 2 4096)
publish_to_targets-Publishes_example =
    publish_to_targets-Publishes start 3 invalidate_page 2 4096 (omega arith)

-- Address space 2 is to be invalidated on CPU 0 ...
abbrev sent : Request
sent = record {
  generation = 1;
  request_type = invalidate_asid;
  address_space_id = 2;
  virtual_address_page_base = 0;
}

abbrev in_flight : State
unfolding reset
in_flight = record (reset anything) {
  next_generation = 1;
  mailbox_by_core = update (reset anything).mailbox_by_core 0 (mailbox_of sent);
}

sending : publish_to_targets (reset anything) 1 invalidate_asid 2 0 ≡ some (some sent, in_flight)
unfolding reset publish_to_targets are_target_mailboxes_available if_available build_request
    allocate_generation build_and_publish published publish_request_to_targets for_targets
    publish_request_to_core is_mailbox_available_for_core get_acknowledged_generation is_valid
    in_flight
sending = refl

-- ... which handles the request.
abbrev handled_state : State
unfolding record_acknowledged_generation in_flight reset
handled_state = record_acknowledged_generation in_flight 0 1

reading : try_read_pending_request_for_core in_flight 0 ≡ some sent
unfolding try_read_pending_request_for_core pending try_read_published_request_for_core
    get_acknowledged_generation is_valid in_flight reset
reading = refl

handling :
    handle_and_acknowledge_pending_request_for_core in_flight 0 (λ q. true) ≡ (true, handled_state)
unfolding handle_and_acknowledge_pending_request_for_core acknowledge
    try_read_pending_request_for_core pending try_read_published_request_for_core
    get_acknowledged_generation is_valid in_flight reset handled_state
    record_acknowledged_generation
handling = refl

completion :
    is_published_request_completed handled_state (record { target_cpu_mask = 1; request = sent })
    ≡ some (true, handled_state)
unfolding is_published_request_completed is_request_completed_for_targets
    have_all_targets_acknowledged for_targets is_valid get_acknowledged_generation in_flight reset
    handled_state record_acknowledged_generation
completion = refl

abbrev handle_sent : Step (world in_flight []) (world handled_state (by_handler 0 sent ∷ []))
handle_sent = handle 0 (λ q. true) sent handled_state reading handling

completed-Logged_example : Logged 0 sent (by_handler 0 sent ∷ [])
unfolding reset
completed-Logged_example =
    completed-Logged anything (world (reset anything) []) 1 invalidate_asid 2 0 sent in_flight
      (world handled_state (by_handler 0 sent ∷ [])) handled_state here (omega arith) (omega arith)
      (omega arith) sending (and_then here handle_sent) completion 0 (omega arith)
      (test_bit-pow 0 0)

-- One request published and handled.
Runs-Ordered_example : Ordered handled_state
unfolding reset
Runs-Ordered_example = Runs-Ordered anything (world handled_state (by_handler 0 sent ∷ [])) (
    and_then
      (and_then here
        (publish 1 invalidate_asid 2 0 (some sent) in_flight (omega arith) (omega arith) sending))
      handle_sent)

have_all_targets_acknowledged_cases_example :
    ((have_all_targets_acknowledged in_flight 1 1 ≡ some (true, in_flight))
      × ((i : ℕ) → i < 64 → test_bit 1 i ≡ true → 1 ≤ in_flight.ack_generation_by_core i))
    ⊎ ((have_all_targets_acknowledged in_flight 1 1 ≡ some (false, in_flight))
        × ((i : ℕ) × (i < 64) × (test_bit 1 i ≡ true) × (in_flight.ack_generation_by_core i < 1)))
have_all_targets_acknowledged_cases_example =
    have_all_targets_acknowledged_cases in_flight 1 1 (omega arith)
