-- ===== src/Lib.antt =====
-- ch_frb_io: the path of intensity data from the network to the downstream pipeline.
--
-- The network thread appends each UDP packet to a `udp_packet_list`, and hands full lists to the
-- assembler thread through a `udp_packet_ringbuf`. The assembler thread decodes each packet
-- (`intensity_packet::decode`) and gives it to the `assembled_chunk_ringbuf` of its beam, which
-- copies it into one of two active `assembled_chunk`s. A chunk that is complete goes to the
-- telescoping ring buffer: level 0 holds chunks as they were assembled, and each further level holds
-- chunks of twice the length, made by `assembled_chunk::downsample` from two that the level above had
-- no more room for. The downstream thread gets the chunks from level 0 one by one. The memory of a
-- chunk is a slab of the `memory_slab_pool`. Chunks are written to files on request: the
-- `output_device_pool` gives a request to the `output_device` of its file name, whose I/O thread pops it.
-- `intensity_network_stream` owns the two threads on the receiving side, and the list, ring buffer and
-- assemblers between them; `intensity_network_ostream` is the sending side, which cuts chunks into
-- packets (`intensity_packet::encode`) and hands them to its network thread by a ring buffer.
--
-- Which file is about which code (paths from the root of the repository):
--   UdpList (Valid, Packets)          udp_packet_list.cpp
--   UdpRing (Queue, Refine, Oldest, History)  udp_packet_ringbuf.cpp; Queue is the abstract queue
--   Packet (Checks)                   intensity_packet.cpp, struct intensity_packet: decode
--   Packet.Encode                     encode; Sendable, Kept, RoundTrip are proofs on it
--   Chunk (Layout, Fill, RfiMask, Downsample)   assembled_chunk.cpp
--   ChunkRing                         the state of assembled_chunk_ringbuf, ch_frb_io_internals.hpp
--   ChunkRing.Make, Empty             its constructor
--   ChunkRing.Put                     _put_assembled_chunk: `plan` is step 1, `commit` is step 2
--   ChunkRing.Check                   _check_invariants
--   ChunkRing.Assemble                put_unassembled_packet, inject_assembled_chunk, end_stream
--   ChunkRing.Get                     get_assembled_chunk, find_assembled_chunk, get_ringbuf_snapshot
--   ChunkRing.Sizes                   get_ringbuf_size
--   ChunkRing.Slots, Part, Timeline, Place, Checked, Preserve, Invariant, Returns   proofs on Put
--   ChunkRing.Open, Assembling, PacketIn, Packets   proofs on put_unassembled_packet
--   ChunkRing.Delivery                proofs on get_assembled_chunk
--   ChunkRing.Ending                  proofs on end_stream
--   Stream                            the state of intensity_network_stream and its counts of events
--   Stream.Make                       its constructor; Constructed is the proof on it
--   Stream.Control                    start_stream, end_stream, join_threads; Shutdown is
--                                     the proof on it, with a step relation of callers and threads
--   Stream.Network                    the network thread; Reception is the proof on it
--   Stream.Beams                      one packet list in the assembler thread, packet by packet and beam
--                                     by beam; Routing, Ready and Delivery are proofs on it
--   Stream.Assembler                  the loop of the assembler thread and its exit; Exit is the proof
--   Stream.Perhost                    the counts by sender and the packet rates
--   Stream.Query                      calls of other threads; Status is the proof on stream_to_files
--   Ostream                           intensity_network_ostream.cpp: _encode_chunk, send_chunk, end_stream
--   Ostream.Make                      its constructor; Constructed is the proof on it
--   Ostream.Sending                   its network thread; Passes and Drained are proofs on it
--   Ostream.Accepted, Holds, Fills    proofs on _encode_chunk
--   SlabPool (Stack, Users)           memory_slab_pool.cpp
--   OutputDevice (Requests)           output_device.cpp, struct write_chunk_request
--   OutputDevice.Pool                 output_device_pool.cpp
--   Base, Outcome, Constants          lists, tests, windows into ring buffers, results, constants
--
-- How code is modelled: a struct is a record, a method is a function on it. A method ends with
-- `done`, with `throws` and the object as the exception leaves it, or with `waits` where it blocks on
-- a condition variable and would run its loop again. Methods that hold a lock are single steps.
-- uint64_t arithmetic wraps at 2 ^ 64; an `int` is a natural number where the code keeps it
-- non-negative and an integer where the code tests its sign. An `int` that could overflow is bounded by a
-- hypothesis, or makes the model throw (`int_overflow`, as `undefined_behaviour` for other code that C++
-- leaves undefined), or the comment beside the definition says in which range it is taken. Loops are
-- structural recursion, with two exceptions. The search for the assembler of a
-- beam, a loop that the code leaves unbounded, runs on fuel: one more than the number of beams is
-- enough. The loop of the sender's network thread makes a given number of passes: one more than the
-- number of waiting lists is enough. A bounded chunk number (`next + 1 < 2 ^ 64`) keeps chunk numbers
-- from wrapping; the constructor of a chunk accepts only numbers far below that.
--
-- Parameters, `Env` of ChunkRing: the float kernel that halves intensities, whether the memory pool
-- grants a slab, what the output devices throw on a write request, and whether the machine has AVX2.
-- Of OutputDevice: which of the largest entries the priority queue gives. Of Packet.Encode and Ostream:
-- the operations on floats, and the conversion of the port's text. Of Stream: what a receive call
-- delivered, which periodic actions are due, and what fetching the time of frame 0 gave.
-- Of Ostream.Sending: what `send` returns.
--
-- Not modelled: float arithmetic, the AVX2 kernels, sockets, clocks and throttling, the reports of
-- get_statistics and the reading of packet rates, HDF5 and msgpack files, and logging.
pub mod Base
pub mod Chunk
pub mod ChunkRing
pub mod Constants
pub mod Ostream
pub mod Outcome
pub mod OutputDevice
pub mod Packet
pub mod SlabPool
pub mod Stream
pub mod UdpList
pub mod UdpRing
