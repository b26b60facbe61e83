-- ===== src/Tests/Served.antt =====
-- Events over the ring of `Tests.Ring`, and the theorems about the backend.
use ovfs.Prelude.{
  ℕ, zero, suc, ◌<◌, ◌≡◌, ◌≢◌, refl, ap, true, false, Option, none, some, [], ◌∷◌, ◌++◌, ◌+◌,
  get_elem?, arith,
}
use ovfs.Prelude.Outcome.{ok, panic, hang}
use ovfs.Stream.Open.{GuestMemory, reader_new, collect, open_slice, checked_sub, writer_new}
use ovfs.Chain.{consume, gather, checked_add, advance}
use ovfs.Filesystem.State.{World, new}
use ovfs.Filesystem.Dispatch.{handle_message}
use ovfs.Backend.Device.{VhostUserFsThread, Serving, update_memory, set_event_idx}
use ovfs.Backend.Queue.{process_queue_serial}
use ovfs.Backend.Event.{Rings, serve_ring, on_vring, handle_event_serial, handle_event}
use ovfs.Backend.Answered.{ServedRing, handle_event-serves}
use ovfs.Backend.Loop.{handle_event-ends}
use ovfs.Backend.Returned.{heads, some_chain, process_queue-returns}
use ovfs.Backend.Malformed.{process_queue-short}
use mathlib.Core.Path.{subst}
use native.Mathlib.Nat.{le_refl}
use ovfs.Backend.Ends.{OptionEnds, MemoryEnds}
use ovfs.Memory.{span, store}
use ovfs.Volatile.{cells}
use ovfs.Chain.Flat.{left}
use ovfs.Chain.Frame.{Apart, Apart-append}
use ovfs.Filesystem.Frame.Requests.{handle_message-Apart}
use ovfs.Stream.{
  read_exact, read_exact_loop, read, read_slices, write_all, write_all_loop, write, write_slices,
  bytes_written,
}
use ovfs.Message.{try_from}
use ovfs.Message.Requests.{in_header_bytes, init_in_bytes, in_header_of, init_in_of}
use ovfs.Message.Replies.{out_header_bytes, init_out_bytes}
use ovfs.Message.Layout.{le, un_le}
use ovfs.Filesystem.State.{from_memory, on_memory, allocate, map_path, opened_file}
use ovfs.Filesystem.Reply.{put, put_some, reply_ok}
use ovfs.Filesystem.Request.{read_obj}
use ovfs.Filesystem.Handlers
use ovfs.Prelude.Exec.{◌>>=◌}
use ovfs.Filesystem.Dispatch.{handle, dispatch}
use ovfs.Prelude.Tests.{bytes_eq}
use ovfs.Prelude.Dict.{lookup, insert, remove}
use ovfs.Backend.Device.{on_ring}
use ovfs.Backend.Queue.{
  used_len_of, signal, notify, return_descriptor, chain_reader, chain_writer, serve_message,
  serve_chain, serve_chains, process_queue_with,
}
use ovfs.Tests.Guest.{guest, guest-IsVolatile, ram, ram-IsGuestMemory}
use ovfs.Tests.Mounted.{host, init_memory, init_reader, reply_writer}
use ovfs.Tests.Ring.{
  RingChain, RingState, ring, ring-UsedRing, ring-RingEnds, ring-Arrivals, host-OperatorEnds,
  ram-MemoryEnds,
}

-- An `init` request at address 0, with room for the reply.
abbrev init_chain : RingChain
init_chain = record {
  head = 4;
  readable = (record { addr = 0; len = 40 }) ∷ (record { addr = 40; len = 16 }) ∷ [];
  writable = (record { addr = 1000; len = 16 }) ∷ (record { addr = 2000; len = 128 }) ∷ [];
}

abbrev short_chain : RingChain
short_chain = record init_chain { readable = (record { addr = 0; len = 39 }) ∷ [] }

abbrev thread : VhostUserFsThread host ring
thread = update_memory ram (
    set_event_idx true (record { mem = none; vu_req = none; event_idx = false; kill_event_fd = 5 }))

-- One chain is available, and one comes later.
abbrev busy : RingState
busy = record { available = init_chain ∷ []; used = (9, 1) ∷ []; later = init_chain ∷ [] }

abbrev unmounted : World host
unmounted = new host init_memory tt

abbrev rings : Rings host ring
rings = record { world = unmounted; vrings = busy ∷ busy ∷ [] }

few_unserved :
    (i : ℕ) (vring : RingState)
    → get_elem? (busy ∷ busy ∷ []) i ≡ some vring
    → ring-Arrivals.unserved vring + 1 < 4
unfolding ring-Arrivals
few_unserved zero vring e =
    let same : busy ≡ vring = cc in subst (λ v. ring-Arrivals.unserved v + 1 < 4) same (le_refl 4)
few_unserved (suc zero) vring e =
    let same : busy ≡ vring = cc in subst (λ v. ring-Arrivals.unserved v + 1 < 4) same (le_refl 4)
few_unserved (suc (suc i)) vring e = cc

abbrev EndsIfSome : Option (GuestMemory guest) → Type 0
EndsIfSome none = Unit
EndsIfSome (some g) = MemoryEnds g

thread-OptionEnds : OptionEnds thread.mem
unfolding update_memory
thread-OptionEnds g e = subst EndsIfSome e ram-MemoryEnds

handle_event-ends_example : (handle_event host ring thread 4 1 1 rings).0 ≢ hang
unfolding update_memory set_event_idx
handle_event-ends_example =
    handle_event-ends host ring host-OperatorEnds ring-RingEnds ring-Arrivals thread
      thread-OptionEnds 4 1 1 rings few_unserved

abbrev served : Serving host ring
served = record { world = unmounted; vring = busy }

process_queue-short_example :
    let s = record served { vring = record busy { available = short_chain ∷ [] } } in
    process_queue_serial host ring (update_memory ram thread) s
    ≡ (panic, record served { vring = record busy { available = [] } })
unfolding reader_new collect open_slice checked_add checked_sub writer_new
process_queue-short_example =
    process_queue-short host ring guest-IsVolatile ram ram-IsGuestMemory thread
      (record served { vring = record busy { available = short_chain ∷ [] } }) refl refl refl
      (omega arith)

-- Two chains are available; the ring takes only the head of the first.
abbrev mixed : RingState
mixed = record {
  available = init_chain ∷ (record init_chain { head = 9 }) ∷ [];
  used = (3, 1) ∷ [];
  later = [];
}

abbrev two_chains : Serving host ring
two_chains = record { world = unmounted; vring = mixed }

abbrev done : Serving host ring
done = (process_queue_serial host ring thread two_chains).1

all_served : (process_queue_serial host ring thread two_chains).0 ≡ ok true
unfolding handle_message dispatch handle Handlers.init read_obj from_memory reply_ok put put_some
    on_memory allocate map_path opened_file ◌>>=◌ in_header_bytes init_in_bytes in_header_of
    init_in_of out_header_bytes init_out_bytes le un_le try_from read_exact read_exact_loop read
    read_slices consume gather checked_add advance span store write_all write_all_loop write
    write_slices bytes_written lookup insert remove bytes_eq on_ring used_len_of signal notify
    return_descriptor chain_reader chain_writer serve_message serve_chain serve_chains
    process_queue_with process_queue_serial update_memory set_event_idx reader_new collect
    open_slice checked_sub writer_new
all_served = refl

process_queue-returns_example :
    (true ≡ some_chain false mixed.available)
    × (heads (ring-UsedRing.used done.vring) ≡ heads (ring-UsedRing.used mixed) ++ (4 ∷ []))
unfolding ring-UsedRing
process_queue-returns_example =
    process_queue-returns host ring ring-UsedRing thread two_chains {chains = mixed.available}
      {s' = done} refl (ap (λ o. (o, done)) all_served)

-- The same device where the guest did not ask for event indices, with an event of the second ring.
abbrev plain_thread : VhostUserFsThread host ring
plain_thread = set_event_idx false thread

abbrev mixed_rings : Rings host ring
mixed_rings = record { world = unmounted; vrings = busy ∷ mixed ∷ [] }

abbrev after : Rings host ring
after = (handle_event host ring plain_thread 1 1 1 mixed_rings).1

event_served : (handle_event host ring plain_thread 1 1 1 mixed_rings).0 ≡ ok tt
unfolding handle_message dispatch handle Handlers.init read_obj from_memory reply_ok put put_some
    on_memory allocate map_path opened_file ◌>>=◌ in_header_bytes init_in_bytes in_header_of
    init_in_of out_header_bytes init_out_bytes le un_le try_from read_exact read_exact_loop read
    read_slices consume gather checked_add advance span store write_all write_all_loop write
    write_slices bytes_written lookup insert remove bytes_eq on_ring used_len_of signal notify
    return_descriptor chain_reader chain_writer serve_message serve_chain serve_chains
    process_queue_with process_queue_serial update_memory set_event_idx serve_ring on_vring
    handle_event_serial handle_event reader_new collect open_slice checked_sub writer_new
event_served = refl

handle_event-serves_example :
    (◌≡◌ {A = ℕ} 1 1)
    × (1 < 2)
    × ServedRing host ring ring-UsedRing plain_thread (4 ∷ 9 ∷ []) 1 mixed mixed_rings after
unfolding set_event_idx
handle_event-serves_example =
    handle_event-serves host ring ring-UsedRing plain_thread 1 1 1 mixed_rings
      {chains = mixed.available} refl refl refl (ap (λ o. (o, after)) event_served)

Apart-span : (a ptr len : ℕ) → a < ptr → Apart a (span ptr len)
unfolding span
Apart-span a ptr zero below = tt
Apart-span a ptr (suc len) below =
    ((λ e. absurd (omega arith)), Apart-span a (suc ptr) len (omega arith))

-- An address of the request.
request-Apart : Apart 5 (left guest reply_writer.buffer)
unfolding cells
request-Apart =
    Apart-append 5 (span 1000 16) _ (Apart-span 5 1000 16 (omega arith))
      (Apart-append 5 (span 2000 128) [] (Apart-span 5 2000 128 (omega arith)) tt)

handle_message-Apart_example :
    (handle_message host init_reader reply_writer unmounted).1.memory 5 ≡ init_memory 5
handle_message-Apart_example =
    handle_message-Apart host guest-IsVolatile init_reader reply_writer unmounted 5 request-Apart
