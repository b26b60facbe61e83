-- ===== src/Lib.antt =====
-- OVFS: a vhost-user file system device that serves FUSE requests from an OpenDAL storage. This
-- library models the program and proves what its parts do.
--
-- The program's parts, and the files that model them:
-- - src/util.rs: `DescriptorChainConsumer` (Chain), a queue of slices of guest memory with `consume`
--   and `split_at`; `Reader` and `Writer` (Stream), which read and write such a chain as a stream of
--   bytes, and are opened from the descriptors of a virtio chain (Stream/Open). The loops `read_exact`
--   and `write_all` of the standard library are written out over `read` and `write`.
-- - src/buffer.rs: `BufferWrapper` (Buffer), the copies between a storage buffer and guest memory.
-- - src/error.rs: `Error` and the conversions between errors (Error).
-- - src/filesystem_message.rs: `Opcode` and the `repr(C)` structures (Message), their bytes
--   (Message/Requests, Message/Replies).
-- - src/filesystem.rs: `Filesystem` (Filesystem). Its state is `World` (Filesystem/State): the inode
--   table `opened_files`, the map from paths to inodes `opened_files_map`, and the writers
--   `opened_files_writer`, with guest memory and the storage's state. The replies are in
--   Filesystem/Reply, the `do_` functions in Filesystem/Operations, the handlers in
--   Filesystem/Handlers and Filesystem/DataHandlers, and `handle_message` in Filesystem/Dispatch.
--   What a client makes of a sequence of writes and of a listing is written out beside the code
--   (Filesystem/Append, Filesystem/Listing).
-- - src/main.rs: the vhost-user backend (Backend). The thread's state is `VhostUserFsThread`, and what
--   an event changes is the file system, guest memory and the rings (Backend/Device);
--   `process_queue_serial` and `return_descriptor` are in Backend/Queue, `handle_event_serial` and
--   `handle_event` in Backend/Event. It runs `handle_message` on each chain that the ring gives.
--
-- Guest memory is a function from addresses to bytes (Memory). A call that changes a state is a
-- function from the state to an outcome and the next state; an outcome is a value, an error, a panic,
-- or `hang` for a loop that uses up its fuel (Prelude/Outcome). The loops on fuel are `read_exact` and
-- `write_all`, whose fuel is the number of bytes to move, as each round moves one at least, and the
-- loop of `handle_event_serial`, which goes on while chains wait in the ring: its fuel is a parameter,
-- and two more than the number of the chains that are not served yet is enough, as each round but the
-- first serves one at least (Backend/Loop). `exit` of the process is a way of its own in which a call
-- ends, beside an error (Backend/Device, `Stop`).
-- Numbers are natural numbers, with the wrap-around or the check of the program written out.
--
-- Parameters, with what their libraries document as hypotheses: slices of guest memory (Volatile,
-- `IsVolatile`), the regions of guest memory (Stream/Open, `IsGuestMemory`), the inode table
-- `sharded_slab::Slab` and the storage `opendal::Operator` (Filesystem/Host, `IsSlab`;
-- Filesystem/Ends/Calls, `OperatorEnds`; Filesystem/Append, `Appends`), `strerror`, and the ring of
-- chains `VringState` (Backend/Vring, `UsedRing`; Backend/Ends, `RingEnds`, `MemoryEnds`;
-- Backend/Arrivals, `Arrivals`). Two hypotheses are about one run and not about a library: that the writes of a run
-- succeed (Filesystem/Append, `AllStored`), and that the guest makes finitely many chains available
-- (`Arrivals`). One is no documented behaviour: `init` takes the key of the second entry of a new table
-- to be 1, and what rests on it takes it as a hypothesis of its own (Filesystem/Host, `SecondKey`).
-- The requests run one after the other, as the program serves its queue, so no lock is contended,
-- and an awaited call of the storage runs to its end.
--
-- Not modelled: the `main` of src/main.rs and its feature bits, which are process set-up; logging;
-- the dirty bitmap of guest memory.
pub mod Prelude
pub mod Libc
pub mod Error
pub mod Memory
pub mod Volatile
pub mod Chain
pub mod Stream
pub mod Buffer
pub mod Message
pub mod Filesystem
pub mod Backend
pub mod Tests
