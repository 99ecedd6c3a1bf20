-- ===== src/Shootdown.antt =====
-- rocinante/src/memory/tlb_shootdown_state.h, `TlbShootdown::State`: one request mailbox and one
-- acknowledged generation for each CPU, the mask of CPUs that are online, and the counter of generations.
--
-- A mask is the word `bits` of `CpuMask`. Each operation is one step: the atomic accesses of two operations
-- are not interleaved, so a compare-exchange meets the value that was loaded before it. Out-pointers are
-- not null. Generations, masks and addresses are words below 2 ^ 64.
pub mod Masks
pub mod Publish
pub mod Runs
pub mod Posts
pub mod Delivery
pub mod Order
pub mod Completion
mod Tests
use package.walden.Base.{ℕ, zero, suc, ◌+◌, ◌-◌, ◌%◌, ◌^◌, bit_and, bit_or, update}
use package.walden.Base.{Bool, true, false, not, ◌&&◌, ltb, leb, ◌==◌, if◌then◌else◌}
use package.walden.Base.{Option, none, some}
use package.walden.Base.Word.{add64, not64}

abbrev pub max_cpu_count : ℕ
max_cpu_count = 64

abbrev pub is_representable_core_id : ℕ → Bool
is_representable_core_id core_id = ltb core_id max_cpu_count

pub for_core : ℕ → ℕ
for_core core_id = if is_representable_core_id core_id then 2 ^ core_id else 0

pub contains : ℕ → ℕ → Bool
contains bits core_id = is_representable_core_id core_id && not (bit_and bits (2 ^ core_id) == 0)

pub add : ℕ → ℕ → Bool × ℕ
add bits core_id =
    if is_representable_core_id core_id then (true, bit_or bits (2 ^ core_id)) else (false, bits)

pub remove : ℕ → ℕ → Bool × ℕ
remove bits core_id =
    if is_representable_core_id core_id
    then (true, bit_and bits (not64 (2 ^ core_id)))
    else (false, bits)

pub data RequestType : Type 0 where
  no_request invalidate_asid invalidate_page invalidate_global_all : RequestType

-- The enumerators' values.
abbrev pub raw_request_type : RequestType → ℕ
raw_request_type no_request = 0
raw_request_type invalidate_asid = 1
raw_request_type invalidate_page = 2
raw_request_type invalidate_global_all = 3

abbrev pub decode_request_type : ℕ → RequestType
decode_request_type raw =
    if raw == 1
    then invalidate_asid
    else if raw == 2
    then invalidate_page
    else if raw == 3
    then invalidate_global_all
    else no_request

pub record Request : Type 0 where
  pub generation : ℕ
  pub request_type : RequestType
  pub address_space_id : ℕ
  pub virtual_address_page_base : ℕ

pub is_valid : Request → Bool
is_valid r = if r.generation == 0 then false else elim r.request_type [
  | no_request ↦ false
  | invalidate_page ↦ bit_and r.virtual_address_page_base 4095 == 0
  | invalidate_asid ↦ true
  | invalidate_global_all ↦ true
]

pub record PublishedRequest : Type 0 where
  pub target_cpu_mask : ℕ
  pub request : Request

pub record Mailbox : Type 0 where
  pub raw_type : ℕ
  pub address_space_id : ℕ
  pub virtual_address_page_base : ℕ
  pub published_generation : ℕ

pub record State : Type 0 where
  pub next_generation : ℕ
  pub online_cpu_mask_bits : ℕ
  pub online_cpu_mask_is_frozen : ℕ
  pub mailbox_by_core : ℕ → Mailbox
  pub ack_generation_by_core : ℕ → ℕ

abbrev pub empty_mailbox : Mailbox
empty_mailbox = record {
  raw_type = 0;
  address_space_id = 0;
  virtual_address_page_base = 0;
  published_generation = 0;
}

pub reset : State → State
reset s = record {
  next_generation = 0;
  online_cpu_mask_bits = 0;
  online_cpu_mask_is_frozen = 0;
  mailbox_by_core = λ i. if ltb i max_cpu_count then empty_mailbox else s.mailbox_by_core i;
  ack_generation_by_core = λ i. if ltb i max_cpu_count then 0 else s.ack_generation_by_core i;
}

abbrev pub is_online_cpu_mask_frozen : State → Bool
is_online_cpu_mask_frozen s = not (s.online_cpu_mask_is_frozen == 0)

-- Where the mask is to stay the same the source returns before the exchange, which would store that mask.
pub set_cpu_online : State → ℕ → Bool → Bool × State
set_cpu_online s core_id is_online =
    let bits = s.online_cpu_mask_bits in
    let desired =
      if is_online then bit_or bits (2 ^ core_id) else bit_and bits (not64 (2 ^ core_id)) in
    if not (is_representable_core_id core_id)
    then (false, s)
    else if is_online_cpu_mask_frozen s
    then (false, s)
    else (true, record s { online_cpu_mask_bits = desired })

pub freeze_online_cpu_mask : State → Bool × State
freeze_online_cpu_mask s =
    if is_online_cpu_mask_frozen s
    then (true, s)
    else (true, record s { online_cpu_mask_is_frozen = 1 })

pub get_acknowledged_generation : State → ℕ → ℕ
get_acknowledged_generation s core_id =
    if is_representable_core_id core_id then s.ack_generation_by_core core_id else 0

pub record_acknowledged_generation : State → ℕ → ℕ → State
record_acknowledged_generation s core_id generation =
    if is_representable_core_id core_id
    then record s { ack_generation_by_core = update s.ack_generation_by_core core_id generation }
    else s

pub is_mailbox_available_for_core : State → ℕ → Bool
unfolding get_acknowledged_generation
is_mailbox_available_for_core s core_id =
    let published = (s.mailbox_by_core core_id).published_generation in
    if not (is_representable_core_id core_id)
    then false
    else if published == 0
    then true
    else leb published (get_acknowledged_generation s core_id)

-- The three loops over the cores of a mask, for (core_id = 0; remaining_mask != 0; core_id++), which
-- return false at the first core whose action does; `none` means that the fuel ran out.
pub for_targets : (State → ℕ → Bool × State) → ℕ → ℕ → ℕ → State → Option (Bool × State)
for_targets f zero core_id remaining s = none
for_targets f (suc fuel) core_id remaining s =
    let (done, t) = f s core_id in
    let passed = for_targets f fuel (core_id + 1) remaining s in
    let next = for_targets f fuel (core_id + 1) (bit_and remaining (not64 (2 ^ core_id))) t in
    if remaining == 0
    then some (true, s)
    else if bit_and remaining (2 ^ core_id) == 0
    then passed
    else if done
    then next
    else some (false, t)

-- The 64 bits of a mask, and the round that finds none left.
abbrev pub mask_fuel : ℕ
mask_fuel = 65

pub are_target_mailboxes_available : State → ℕ → Option (Bool × State)
unfolding for_targets is_mailbox_available_for_core
are_target_mailboxes_available s mask =
    for_targets (λ t core_id. (is_mailbox_available_for_core t core_id, t)) mask_fuel 0 mask s

pub allocate_generation : State → ℕ × State
allocate_generation s =
    (add64 s.next_generation 1, record s { next_generation = add64 s.next_generation 1 })

-- The request beside the state, which has counted the generation also where the request is not valid.
pub build_request : State → RequestType → ℕ → ℕ → Option Request × State
unfolding allocate_generation is_valid
build_request s type address_space_id base =
    let (generation, t) = allocate_generation s in
    let request : Request = record {
      generation = generation;
      request_type = type;
      address_space_id = address_space_id;
      virtual_address_page_base = base;
    } in
    (if is_valid request then some request else none, t)

abbrev pub mailbox_of : Request → Mailbox
mailbox_of request = record {
  raw_type = raw_request_type request.request_type;
  address_space_id = request.address_space_id;
  virtual_address_page_base = request.virtual_address_page_base;
  published_generation = request.generation;
}

pub publish_request_to_core : Request → State → ℕ → Bool × State
unfolding is_valid is_mailbox_available_for_core
publish_request_to_core request s core_id =
    if not (is_representable_core_id core_id)
    then (false, s)
    else if not (is_valid request)
    then (false, s)
    else if not (is_mailbox_available_for_core s core_id)
    then (false, s)
    else (
      true,
      record s { mailbox_by_core = update s.mailbox_by_core core_id (mailbox_of request) },
    )

pub publish_request_to_targets : State → ℕ → Request → Option (Bool × State)
unfolding is_valid for_targets publish_request_to_core
publish_request_to_targets s mask request =
    if is_valid request
    then for_targets (publish_request_to_core request) mask_fuel 0 mask s
    else some (false, s)

-- The request is there exactly where the publication returned true.
pub published : Request → Option (Bool × State) → Option (Option Request × State)
published request none = none
published request (some (true, s)) = some (some request, s)
published request (some (false, s)) = some (none, s)

pub build_and_publish : ℕ → Option Request × State → Option (Option Request × State)
unfolding publish_request_to_targets published
build_and_publish mask (none, s) = some (none, s)
build_and_publish mask (some request, s) =
    published request (publish_request_to_targets s mask request)

pub if_available :
    Option (Bool × State)
    → Option (Option Request × State)
    → State
    → Option (Option Request × State)
if_available none next s = none
if_available (some (false, _)) next s = some (none, s)
if_available (some (true, _)) next s = next

-- The bodies of the three public publishers, which differ in the request that they build.
pub publish_to_targets : State → ℕ → RequestType → ℕ → ℕ → Option (Option Request × State)
unfolding are_target_mailboxes_available build_request build_and_publish if_available
publish_to_targets s mask type address_space_id base =
    if_available (are_target_mailboxes_available s mask)
      (build_and_publish mask (build_request s type address_space_id base)) s

pub publish_invalidate_asid_request_to_targets : State → ℕ → ℕ → Option (Option Request × State)
unfolding publish_to_targets
publish_invalidate_asid_request_to_targets s mask address_space_id =
    publish_to_targets s mask invalidate_asid address_space_id 0

pub publish_invalidate_page_request_to_targets : State → ℕ → ℕ → ℕ → Option (Option Request × State)
unfolding publish_to_targets
publish_invalidate_page_request_to_targets s mask address_space_id base =
    publish_to_targets s mask invalidate_page address_space_id base

pub publish_invalidate_global_all_request_to_targets : State → ℕ → Option (Option Request × State)
unfolding publish_to_targets
publish_invalidate_global_all_request_to_targets s mask =
    publish_to_targets s mask invalidate_global_all 0 0

pub with_mask : ℕ → Option (Option Request × State) → Option (Option PublishedRequest × State)
with_mask mask none = none
with_mask mask (some (none, s)) = some (none, s)
with_mask mask (some (some request, s)) =
    some (some (record { target_cpu_mask = mask; request = request }), s)

-- `BuildAndPublishRequestToCurrentOnlineTargets`.
pub publish_to_online : State → RequestType → ℕ → ℕ → Option (Option PublishedRequest × State)
unfolding with_mask publish_invalidate_asid_request_to_targets
    publish_invalidate_page_request_to_targets publish_invalidate_global_all_request_to_targets
publish_to_online s type address_space_id base =
    let mask = s.online_cpu_mask_bits in
    elim type [
      | no_request ↦ some (none, s)
      | invalidate_asid ↦
          with_mask mask (publish_invalidate_asid_request_to_targets s mask address_space_id)
      | invalidate_page ↦
          with_mask mask (publish_invalidate_page_request_to_targets s mask address_space_id base)
      | invalidate_global_all ↦
          with_mask mask (publish_invalidate_global_all_request_to_targets s mask)
    ]

pub try_read_published_request_for_core : State → ℕ → Option Request
unfolding is_valid
try_read_published_request_for_core s core_id =
    let mailbox = s.mailbox_by_core core_id in
    let request : Request = record {
      generation = mailbox.published_generation;
      request_type = decode_request_type mailbox.raw_type;
      address_space_id = mailbox.address_space_id % 2 ^ 16;
      virtual_address_page_base = mailbox.virtual_address_page_base;
    } in
    if not (is_representable_core_id core_id)
    then none
    else if mailbox.published_generation == 0
    then none
    else if is_valid request
    then some request
    else none

pub pending : State → ℕ → Option Request → Option Request
unfolding get_acknowledged_generation
pending s core_id none = none
pending s core_id (some request) =
    if ltb (get_acknowledged_generation s core_id) request.generation then some request else none

pub try_read_pending_request_for_core : State → ℕ → Option Request
unfolding try_read_published_request_for_core pending
try_read_pending_request_for_core s core_id =
    pending s core_id (try_read_published_request_for_core s core_id)

pub acknowledge : State → ℕ → (Request → Bool) → Option Request → Bool × State
unfolding record_acknowledged_generation
acknowledge s core_id handler none = (false, s)
acknowledge s core_id handler (some request) =
    if handler request
    then (true, record_acknowledged_generation s core_id request.generation)
    else (false, s)

-- The handler is a parameter: its result for a request.
pub handle_and_acknowledge_pending_request_for_core : State → ℕ → (Request → Bool) → Bool × State
unfolding try_read_pending_request_for_core acknowledge
handle_and_acknowledge_pending_request_for_core s core_id handler =
    acknowledge s core_id handler (try_read_pending_request_for_core s core_id)

pub have_all_targets_acknowledged : State → ℕ → ℕ → Option (Bool × State)
unfolding for_targets get_acknowledged_generation
have_all_targets_acknowledged s mask generation =
    for_targets (λ t core_id. (leb generation (get_acknowledged_generation t core_id), t)) mask_fuel
      0 mask s

pub is_request_completed_for_targets : State → ℕ → Request → Option (Bool × State)
unfolding is_valid have_all_targets_acknowledged
is_request_completed_for_targets s mask request =
    if is_valid request
    then have_all_targets_acknowledged s mask request.generation
    else some (false, s)

pub is_published_request_completed : State → PublishedRequest → Option (Bool × State)
unfolding is_valid is_request_completed_for_targets
is_published_request_completed s p =
    if is_valid p.request
    then is_request_completed_for_targets s p.target_cpu_mask p.request
    else some (false, s)
