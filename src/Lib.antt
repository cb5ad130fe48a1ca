-- ===== src/Lib.antt =====
-- Arbitro is a message broker. Producers publish messages under subjects; the server's shards store
-- them, match them against the consumers' patterns, deliver them within limits, and follow their
-- acknowledgements; timeouts come from timing wheels, and identifiers are reused through pools.
--
-- The development models the parts that keep the broker's own state, each as pure functions on
-- records, one function for each method, with the changed state returned.
--
--   Subject: crates/arbitro-engine/src/common/subject.rs. `next_token`, `subject_matches`,
--     `subject_covers`, `subjects_overlap` and `strictly_nested`, on lists of bytes. The three loops
--     are one `walk`, with the `match` of each as its arm, on fuel one above the length of the first
--     argument, of which each round but the last takes at least a byte.
--   SubjectTrie: crates/arbitro-engine/src/common/trie.rs. `insert` is `insert_pattern`; its loop and
--     that of `find_matches` run on fuel, one unit for each byte of the pattern, and `budget` of the
--     subject, which is enough since a token has two links at most. A path from the root stands for
--     the address of a node.
--   MatchTable: crates/arbitro-engine/src/catalog/match_table.rs, with MatchTable/Binding for limits
--     and binds, and MatchTable/Delivery for its clients: what `ensure_subscription` of
--     crates/arbitro-engine/src/catalog/mod.rs registers, and what the drain of
--     crates/arbitro-server/src/shard/drain.rs looks up. `lookup` is `lookup_hash`, `clear` is
--     `clear_table`. The hash of a subject is a parameter; that known subjects have different hashes
--     is a hypothesis (`NoClash`).
--   AckFloor: crates/arbitro-server/src/shard/ack_floor.rs. `FloorSlot::record` is `record_seq`,
--     the slot's part of `AckFloors::seed` is `seed_slot`, their loops are `absorb`; `AckFloors` is a
--     list of optional slots.
--   ConsumerSubjects: crates/arbitro-server/src/shard/consumer_subjects.rs. The map of counts is an
--     association list, the suppression set an ascending list. The drain (shard/drain.rs)
--     asks `is_suppressed` before a delivery, adds what it holds itself to `get` for the limit of a
--     subject, and calls `inc` and `suppress` once the frames are out; `can` is called by tests only.
--     The floor comes from AckFloor.
--   InFlight: crates/arbitro-engine/src/inflight/mod.rs. The two vectors of counters.
--   IdPool: crates/arbitro-common/src/id_pool.rs. The free list is a list whose head is the end of
--     the vector; `replay_free` is `free`.
--   Wheel: crates/arbitro-common/src/wheel.rs. `insert` is `insert_entry`; `advance_into` is
--     `advance`, which returns the buffer.
--   Idempotency: crates/arbitro-server/src/shard/idempotency.rs. `record` is `record_id`,
--     `contains` is `contains_id`; the map is a function from stream and hash, and the wheel is
--     that of Wheel. `advance_by_ms` is a loop on fuel, one above the number of full seconds.
--   Store: crates/arbitro-store/src/store.rs, the entries and errors of the message stores, and
--     MemoryStore: crates/arbitro-store/src/memory.rs. A segment is the list of its used bytes;
--     `get_entry_view` and `segment_slice` are `view_in` and `segment_in`; `append` is `push_entry`;
--     `get` and `for_each` are `read` and `read_range`. MemoryStore/Removal has the operations that
--     remove or mark entries. The answers of the system to the requests for segments, one per entry,
--     and the hash of the subject are parameters. The journal that a reader sees is `log`.
--   Wire: crates/arbitro-proto/src/v2/header.rs, with Wire/Pub (ingress/pub_frame.rs), Wire/BatchPub
--     (ingress/batch_pub_frame.rs) and Wire/Acks (ingress/ack_frame.rs and nack_frame.rs). A buffer is
--     a list of bytes; `ref_from_bytes` reads the fields at the offsets that the comments of the source
--     give. `encode_into` is `encode`, `encode_batch` and `encode_acks`. A loop over `BatchPubIter` is
--     `collect` on fuel; the announced count is enough (`collect_enough`).
--   Backoff: crates/arbitro-client-tokio/src/conn/reconnect.rs. The random number generator is a
--     parameter; `next` answers with a panic where its range is empty. A run of failing attempts is `waits` on fuel, one unit for each attempt.
--   Validate: crates/arbitro-proto/src/validate.rs. `validate_name`, `validate_subject`, and its own
--     `subjects_overlap` as `patterns_overlap`, which nothing in the repository calls but its tests.
--   Rules: crates/arbitro-server/src/transport/rules. The three `on_create` are `on_create_stream`,
--     `on_create_consumer` and `on_create_subscription`; `on_recreate` is
--     `recreate_keeps_its_filter`. They decide with the tests of Subject.
--   AckPending: crates/arbitro-client-tokio/src/ackrel/pending.rs. `ConsumerPending`, whose `record`
--     is `record_pending` and `new` is `new_pending`; the set is an ascending list.
--   AckLog: crates/arbitro-client-tokio/src/ackstore/format.rs, and `scan_bytes` and `apply_replay` of
--     ackstore/wal.rs. The encoders give the bytes of a payload (`seq_op`, `tombstone`, `register_op`,
--     `snapshot_op`) and `frame_finish` is `frame`. A table entry of the check sum is computed when it
--     is used (`shift_out`). The scan runs on fuel, one unit for each byte of the file.
--     AckLog/Rewriting is what ackstore/compact.rs writes. The conversion of bytes to a string is a
--     parameter.
--   Requests: crates/arbitro-client-tokio/src/state/pending.rs. The table of `Pending`; a channel, of
--     a library, is a number in the order of their making, and an answer is an entry of the list of
--     what was sent.
--   ConsumerConfig: crates/arbitro-proto/src/config/consumer.rs. The setters of the builder are the
--     data type `Setting` with `set_one`; `build` and `from_wire` keep their names. The hash of the
--     stream's name, of a library, is a parameter of `new_builder`.
--   Action: crates/arbitro-proto/src/action.rs, and ErrorCode: crates/arbitro-proto/src/error.rs,
--     where `from_u16` and `as_u16` are `error_from_u16` and `error_as_u16`. The match on codes is a
--     table.
--   Common: what these share. Lists with reads and writes by index, ascending lists for `BTreeSet`,
--     association lists for `HashMap`, results, and addition that wraps in 32 and 64 bits, as the
--     release build does.
--
-- In each component the module of that name has the definitions; its children have the proofs, and
-- Tests the runs at concrete values.
--
-- Not modelled: locks and atomics (each call is one step), reserved memory, counts of memory in
-- `usize` (unbounded here), the hash functions (a hash is a number), the network, files, the
-- consensus library and the clients' interfaces.
pub mod Backoff
pub mod Common
pub mod AckFloor
pub mod ConsumerSubjects
pub mod IdPool
pub mod InFlight
pub mod Wheel
pub mod Subject
pub mod SubjectTrie
pub mod MatchTable
pub mod Action
pub mod Validate
pub mod ErrorCode
pub mod AckPending
pub mod Rules
pub mod ConsumerConfig
pub mod MemoryStore
pub mod Store
pub mod Wire
pub mod AckLog
pub mod Idempotency
pub mod Requests
