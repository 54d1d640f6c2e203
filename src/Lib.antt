-- ===== src/Lib.antt =====
-- A model of bpf-program, which captures IEC 61850-9-2 LE sampled-value frames from a network
-- interface, parses them and watches the sample counts for gaps.
--
-- The parts. An eBPF program (bpf/ethernet-parse.c) drops in the kernel what is not wanted. An
-- engine (include/iec_core/engines/bpf_engine.h) reads the kept frames one behind the other into a
-- buffer (include/iec_core/utils/buffer.h) and hands it over through a value exchange
-- (include/iec_core/utils/value_exchange.h) to a handler on another thread
-- (include/iec_core/handlers/number_crusher.h), which gives it to the parser
-- (include/iec_core/iec/iec_parser.h) and the ASDUs that come out to the validator
-- (src/iec_core/iec/validator.cpp).
--
-- Base: numbers, lists and 32-bit signed integers that the parts share.
-- Bytes: src/iec_core/iec/byte_op.cpp. A union is a list of bytes in memory order; the byte order
--   of the machine (__BYTE_ORDER__) is an argument here and wherever an integer is read.
-- Buffer: `StaticBuffer<size>` as its array, `offset` and `written`; `size` is the length of the
--   list. `size_t` has 64 bits and its sums and differences wrap.
-- Asdu, Parser: `IecParser`. The state is the buffer, `sequence` and `internalFrameLength`; each
--   function of the class has one definition of its name in snake case (parse_pdu for parsePDU),
--   except that parseASDU is cut into its paragraphs. A function ends with `done`, with `rejected`
--   for `return false`, or with `fault` for undefined behaviour. `parse` runs its loop on fuel,
--   one round more than there are bytes left: every round moves the offset by at least the
--   Ethernet header, so that this is enough, and running out is a result of its own.
--   Parser/Encode is an encoder written from the frame layout, independent of the parser.
--   Parser/Accepts has a rule for each statement of the parser, from which Parser/Fields,
--   Parser/Asdus, Parser/Lengths and Parser/Grammar build the layout of what it accepts;
--   Parser/Consumes has the rules for the other way.
-- Validator: `Validator`. An exception is a result with the members as they are then. `int`
--   differences are written with their wrap into the unsigned counter.
-- Exchange: `ValueExchange` with its three slots, as functions of whole calls and, in
--   Exchange/Interleaved, as the statements of two threads in any order; and in Exchange/Blocking
--   `ValueExchangeBlocking` as steps of two threads, one for each block under the mutex. In
--   Exchange/Monitor the mutex and the condition variable of the latter are written out, with
--   wake-ups that no notification makes.
-- Filter: the eBPF program with %IFACE_MAC, %SRC_MAC and %SV_ID as settings. The loads that bcc
--   and the kernel provide and the layout of bcc's `ethernet_t` are parameters; Filter/Loads says
--   what is presumed of them. A load outside of the packet ends the program and drops the frame.
-- NativeFilter: `nativeFilter` of benchmarks/common_benchmark/bench_bpf.cpp, which the benchmarks
--   compare that program with. Memory is a list, and a read outside of it gives nothing.
-- Engine: the loop of `BPFEngine::run` over `Socket::readTo`, for a list of what the socket gives
--   in each round; `handed` is what was given to the exchange. A packet longer than the free part
--   of the buffer is cut, as `recvfrom` does.
-- Text, Executor: `replace_all`, `remove_all` and `get_mac_by_iface_name` of
--   src/iec_core/utils/helpers.cpp and, over them, `filterSourceCode` of
--   src/iec_core/engines/bpf_exec.cpp, which puts the settings into the text of the eBPF program.
--   What the file of an interface's address holds is a parameter. Text/Files has `read_file`. The
--   loop of `replace_all` runs on fuel, one round more than there are characters: every round
--   passes an occurrence, which is not empty where the program calls it. An empty text to be found
--   runs on, as in the source.
-- Kernel: the system calls and the calls of bcc, as operations on an unknown state, and in
--   Kernel/Laws what is presumed of them: which ones open and close sockets, and what they do to
--   the flags of an interface.
-- Executor/Device: `getRawSocket`, `attachRawSocket` and `getDeviceSocket`, each cut at its calls;
--   `after_bind`, say, is what follows the binding. Socket: the class of
--   src/iec_core/utils/socket.cpp, whose state is its descriptor. Engine/Setup: the members of
--   `BPFEngine` behind its buffer, its constructor and `setup`. The executor's state is the text of
--   the program, as its formatter keeps it.
-- Points: `convert` and the bit fields of include/iec_core/iec/iec_parser.h, over an interface of
--   f32. Bit fields start at the least significant bit on a little-endian machine and at the most
--   significant one on a big-endian machine.
-- Processing: `findMinMax` of src/iec_core/algo/processing.cpp, over the same interface. What it
--   prints is a report that it returns, and its static counter an argument.
-- Handler: the round of `NumberCrusher::run` (include/iec_core/handlers/number_crusher.h), at the
--   buffer that `get` gives, as `crush`. An exception of the validator leaves the thread's
--   function, which ends the program.
-- Pipeline: `PipelineBuilder` (include/iec_core/pipeline_builder.h) behind a setup that returned
--   true, as steps of three threads in any order: the engine's, the handler's, and the one that
--   calls `stop`, with `ValueExchangeBlocking::reset` as two steps. A wait whose predicate
--   holds can end, but no notification is kept for it: those of `reset` can be lost.
-- Engine/Native: the stub of include/iec_core/engines/native_engine.h. Engine/Pcap: the constructor
--   of src/iec_core/engines/pcap_engine.cpp, over libpcap and the heap as operations on an unknown
--   state.
-- Program: `main` of src/main.cpp up to where both threads run: the members of the builder as they
--   are constructed, `run` and, if that starts no thread, `wait` and the destructors.
-- FastFile: the class of src/iec_core/utils/fast_file.cpp, over the calls of stdio as operations on
--   an unknown state. `std::to_string` is written out for signed and unsigned numbers, on fuel of one
--   more than the number, which has fewer digits.
-- Capture: the eBPF program in front of the engine of the pipeline. The kernel gives the socket the
--   packets for which the program does not return 0.
--
-- Not modelled: printed output; the rest of the benchmarks; `FastFile::write` of floating-point numbers.
pub mod Base
pub mod Bytes
pub mod Buffer
pub mod Asdu
pub mod Parser
pub mod Validator
pub mod Exchange
pub mod Filter
pub mod NativeFilter
pub mod Text
pub mod Executor
pub mod Engine
pub mod Kernel
pub mod Socket
pub mod FastFile
pub mod Points
pub mod Processing
pub mod Program
pub mod Handler
pub mod Pipeline
pub mod Capture
