-- ===== src/Lib.antt =====
-- Verification library of MDFH, a market data feed handler in C++17: it receives 20-byte messages over
-- TCP or a kernel-bypass backend, cuts them out of the byte stream, stamps them, passes them through
-- lock-free ring buffers to a consumer, and keeps counters, latencies and the health of its feeds.
-- It also has a simulator that makes such streams, with encoders for three formats.
--
-- How the parts interact. A network client reads pieces of the stream and hands them to a message
-- parser, which pushes a slot per message into a ring buffer and counts it as received or dropped. A
-- consumer pops the slots and records them in the statistics. With several feeds, each worker owns a
-- parser and a ring buffer, and moves its slots, tagged with the feed's identifier, into one
-- multi-producer buffer, from which the dispatcher's consumer reads; a monitor per feed follows its
-- sequence numbers and its silences. The bypass client calls the same parser from the backend's packet
-- handler and gives the packets back to the backend, which frees them (DPDK) or posts their buffers to
-- the card again (Solarflare). The benchmarks consume what the clients push; the market data server is
-- a source of messages for them.
--
-- Files, and the code they are about (paths from the repository's root):
--   Core            include/mdfh/core.hpp: Msg, its tests, enumerations, is_power_of_two; Core/Log: the
--                   level filter of Logger (src/ring_buffer.cpp).
--   Circular        no code of its own: an array addressed by position & mask between two 64-bit
--                   positions that wrap, which Ring, MultiFeed/Mpsc, Performance and Bypass share.
--   Ring            include/mdfh/ring_buffer.hpp, src/ring_buffer.cpp: RingBuffer as a record, a
--                   function for each method. Ring/Queue is its specification, a bounded queue.
--                   Ring/Block is try_push_or_block, Ring/Spsc the two threads access by access.
--   Ingestion       include/mdfh/ingestion.hpp, src/ingestion.cpp: Stats (IngestionStats), Parser
--                   (MessageParser), Client (NetworkClient::run_io_loop), Benchmark (the consumer);
--                   Stats/Periodic: when the statistics are printed.
--   Encoding        include/mdfh/encoding.hpp, src/encoding.cpp: Binary, Itch, Fix, and Factory.
--   MultiFeed       include/mdfh/multi_feed_ingestion.hpp, src/multi_feed_ingestion.cpp: Config and
--                   FromYaml, Mpsc (MPSCRingBuffer; Race: the consumer against a producer,
--                   Producers: many producers), Monitor, Worker, Dispatcher.
--   Performance     include/mdfh/performance_tracker.hpp, src/performance_tracker.cpp: the samples,
--                   Stats (get_latency_stats), Counters (the cache metrics).
--   Simulator       src/simulator.cpp and the RateLimiter of include/mdfh/timing.hpp; Run: send_batch and
--                   the loop of run, Run/Parsed: with the binary encoder, into the client's parser.
--   Bypass          include/mdfh/kernel_bypass.hpp, src/kernel_bypass.cpp: the configuration, and the
--                   packet handler of BypassIngestionClient with its pending packets; Backend: what it
--                   asks of a backend, with laws, and the two together; Boost, Dpdk and Solarflare: the
--                   three backends; Ingestion: the client's life cycle over the chosen backend.
--   Apps            apps/market_data_server.cpp (Server), apps/bypass_ingestion_benchmark.cpp
--                   (BypassBenchmark), apps/multi_feed_benchmark.cpp (MultiFeedBenchmark).
--   Common          Boolean tests, lists by native numbers, masks, words, bytes in memory.
--
-- Conventions. Machine words are native numbers with their wrap-around written out (u64, u32, sub64);
-- a signed 32-bit quantity is its bit pattern. A double is its bit pattern, and what is computed with
-- doubles (a scaled price, an interval, a percentile's target) is a parameter. An undefined operation
-- and an exception are the value none, or a constructor of their own. The clock is a function from the
-- number of its reading; other threads' actions between two steps are arguments of a round. Atomics are
-- sequentially consistent: weaker orders are not modelled. Names are those of the source.
--
-- Fuel. parse_loop runs on the length of the input, each round taking 20 bytes; the draining loops on
-- the number of entries held, each round taking one out; round_up on 33 rounds, doubling from 1 up to
-- 2^32; catch_up on the distance to the time, spin on the readings of the clock. The theorems say that
-- this is enough. The loops that wait for other threads or for the network run over lists of rounds,
-- and say so when the list is used up.
--
-- Not modelled: printing, sockets, threads' creation and joining, CPU affinity, the libraries of the
-- backends (DPDK, ef_vi, Boost.Asio) and the system calls of the performance counters, whose answers are
-- arguments; the parsing of command lines by CLI11, the signal handler and the pacing of the server;
-- apps/simple_bypass_test.cpp, which calls the library with fixed settings; and the scripts.
pub mod Common
pub mod Core
pub mod Circular
pub mod Ring
pub mod Ingestion
pub mod Encoding
pub mod MultiFeed
pub mod Performance
pub mod Bypass
pub mod Simulator
pub mod Apps
