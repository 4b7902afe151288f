-- ===== src/Lib.antt =====
-- A model of the RISC-V microarchitecture simulator: a five-stage RV32I pipeline with forwarding,
-- branch prediction, a three-level cache hierarchy and a byte-addressed memory, the assembler that
-- makes its programs, and the arithmetic that the programs call.
--
-- The parts, and the sources that they model:
--   Base        numbers, Boolean tests, 32-bit words, and `Run`, the outcome of code that may stop
--               the process (`exit`) or meet what C leaves undefined (`fault`).
--   Bits        masks and fields of words as arithmetic.
--   Alu         src/execution/alu.c. Units: the comparators; Immediate: the immediates as sums of
--               fields.
--   Assembler   the encoders of src/assembler/core/opcode_generator.c. Encode: round trips with
--               the immediate generator. Text: strings and the C library on them. Table: the rows
--               of include/assembler.h and syntax_analyzer.c. Operands: semantics_analyzer.c, with
--               Ranges and Notation. Parser: parser.c, with Tokens, Lines and Buffers. Symbols:
--               symbol_table.c. Opcode: get_opcode. Program: the two passes of main.c, with
--               Layout, Words, Rows, Branches and Safety.
--   Branch      src/branch/.
--   Command     src/main.c: the loop over the arguments, with Reading; Boot: the initial globals, and
--               main as the loaders and the simulation in a row; Running.
--   Config      src/utils/configure.c and src/utils/json_loader.c, with Document and Allocated.
--   Control     src/execution/control.c, with the signals of include/control.h.
--   Cache       src/cache/: State (include/cache.h), Block (cache.c, setters.c), Evict
--               (eviction.c), Access (read.c, write.c). Ways, Shape, Inside, Fill, Victim and Placed
--               hold the proofs about the loops, the tags, the bounds of the array, the filling of
--               a block and its choice.
--   Loader      src/utils/custom_loader.c: Custom; the object file of the assembler: Listing, Object;
--               src/utils/elf_loader.c: Elf, with Segments.
--   Memory      src/memory/memory.c: the instruction port and the data port.
--   Pipeline    src/pipeline/ and src/forwarding/: State (include/pipeline.h), Forward, Execute
--               (ex.c), Decode (id.c), Stages (if.c, ma.c, wb.c).
--   Programs    programs/c/quick_sort.c and programs/c/radix_sort.c: QuickSort with Rearranged,
--               Partition and Sorted; RadixSort with Count, Place and Sorted; Agreement; Array, Sums
--               and Reindex on arrays and their places.
--   Runtime     essentials/stdlib/, essentials/malloc.c and essentials/memcpy.c: Division, Table,
--               Product, Signed, Heap.
--   Simulator   the loop of src/execution/simulator.c, with Registers and Loop; Frame, Order and
--               Cycle set a cycle against program order.
--
-- The globals of the program are the record `Machine`, which holds the `Memory` with its ports and
-- counters, which holds the `Hierarchy` of caches. A function that changes globals takes the state
-- and gives the new one. A cycle is `Simulator.step`: WB, MA, EX, ID and IF in the order of the
-- source, with its flushes and stalls. The static variables of id.c and memory.c are fields.
-- Words are natural numbers below 2 ^ 32 with the wrap-around written out; counters that may be
-- negative are integers.
--
-- Bounds and fuel: `run` and `simulate` take a number of cycles, since the loop of the source ends
-- only with a system call; no theorem takes the loop to end. The writes of the caches call
-- themselves once more after an allocation, and have a fuel of 2. Loops over a set are recursion
-- on the number of ways. The loops of the runtime routines run on a fuel of 32 rounds, or 16 for
-- the product, which are shown to be enough for every operand. The loop of the
-- quick sort and its recursion have a fuel of the number of entries and one more, which is shown to
-- be enough for every array. A 64-bit statistics counter is a
-- number with no bound, except the stall counts, from which the source may subtract.
--
-- The assembler takes the lines that `fgets` gives, as lists of ASCII codes, and gives the words of
-- the object file; a write beyond a token buffer is a `fault`, and a message with a return an `exit`.
-- The token buffers are shared by all lines: to read a token that the line at hand has not written,
-- which would be one of an earlier line, is a `fault` too, so their old contents are not kept.
--
-- What is not code of the repository is a parameter: the lookups of cJSON, whether calloc, malloc
-- and fseek succeed, and the files by their names, together the record `Host` for `main`.
--
-- The simulation is modelled for configurations in which no size or latency is negative and every
-- cache has sets of blocks of whole words (`Config.is_regular`); `main` gives `fault` for the others.
-- The accesses of the radix sort to its three arrays are checked, and its length is an int.
--
-- Not modelled: logging, trace files, the dumps, the printed statistics and configuration, the
-- pipeline visuals, the command line of the assembler and the messages, which are input and output;
-- the copy of cJSON; the other sample programs, which have a few lines each; and the copies of code
-- beside the report.
pub mod Base
pub mod Bits
pub mod Alu
pub mod Assembler
pub mod Branch
pub mod Command
pub mod Config
pub mod Control
pub mod Cache
pub mod Loader
pub mod Memory
pub mod Pipeline
pub mod Programs
pub mod Runtime
pub mod Simulator
