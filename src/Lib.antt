-- ===== src/Lib.antt =====
-- SeeC records what a program does while it runs, as a trace of events, and recreates the states
-- that the program was in. A reader moves through the trace in both directions, so everything that
-- it recreates must be undone exactly. This library models that reader's state: the memory, the
-- dynamic allocations, the streams and directories, and the events that change them.
--
-- The parts, from the bottom:
-- - Common: names of the libraries, Boolean tests, options as the outcome of code that asserts,
--   vectors as lists (Common/Lists) and byte ranges of vectors (Common/Slices).
-- - Interval: include/seec/DSA/Interval.hpp and include/seec/DSA/MemoryArea.hpp. Sums and differences
--   wrap at 2 ^ 64.
-- - StdMap: std::map as an association list in the order of its keys, with the operations that the
--   code calls; llvm::DenseMap is modelled by the same list.
-- - IntervalMap: include/seec/DSA/IntervalMapVector.hpp, with iterators as indices.
-- - Allocation: class MemoryAllocation of include/seec/Trace/MemoryState.hpp and
--   lib/Trace/MemoryState.cpp. `clear_area`, `add_block`, `add_area`, `rewind_area` and `resize` are
--   clearArea, addBlock, addArea, rewindArea and resize. Allocation/Log is the abstract allocation, a
--   list of cells and a history of saved ranges; Allocation/Refine says when the three undo stacks
--   represent a history, and Allocation/Refine/Change is the refinement of each mutator.
-- - Memory: class MemoryState and class MemoryStateRegion of the same files. Memory/View relates a
--   memory to a log of every allocation, Memory/Reversible takes each forward mutator with its
--   backward mutator, Memory/Edits sequences of them, Memory/Edits/Observed is about what regions
--   tell of the log, and Memory/ReadBack about what they give after a change.
-- - Streams: include/seec/Trace/StreamState.hpp, lib/Trace/StreamState.cpp and
--   lib/Trace/TraceStreams.cpp.
-- - Process: class ProcessState of include/seec/Trace/ProcessState.hpp and lib/Trace/ProcessState.cpp.
-- - Events: `addEvent` and `removeEvent` of lib/Trace/ThreadState.cpp, for the events that change the
--   shared process state. An event moves a thread's view, which holds the process state, whose memory
--   is the state of Memory and whose streams are those of Streams.
-- - TraceMemory: include/seec/Trace/TraceMemory.hpp and lib/Trace/TraceMemory.cpp, the shadow memory
--   with which the writer decides what the program may read. TraceMemory/Agreement relates it to the
--   reader's memory, allocation by allocation.
--
-- - ValueStore: lib/Trace/BlockValueStore.cpp and lib/Trace/IsRecordableType.cpp, where the values of
--   a basic block's instructions lie (ValueStore/Layout, ValueStore/Offsets) and the store of them
--   (ValueStore/Store, ValueStore/Values). The C++ types whose values are stored are a parameter, the
--   record Host; ValueStore/LittleEndian is one host.
-- - FunctionState: include/seec/Trace/FunctionState.hpp, lib/Trace/FunctionState.cpp and class
--   FunctionIndex of include/seec/Util/ModuleIndex.hpp. FunctionState/Blocks has the moves of the
--   active instruction, FunctionState/InstructionValues and FunctionState/Signed the values of
--   instructions, which lie in stores of ValueStore, and FunctionState/Areas the areas of a call.
--
-- - CallStack: `addEvent`, `readdEvent` and `removeEvent` of lib/Trace/ThreadState.cpp for the events
--   that change the call stack: a list of calls, each a state of FunctionState, over a memory of
--   Memory. CallStack/Steps, CallStack/Walk and CallStack/Rewinding have the handlers; CallStack/Walk has
--   the walk over the events of a call and include/seec/Trace/TraceSearch.hpp's rfindInFunction, where
--   a thread's events are a list and the start of a call tells the distance of its end.
--   CallStack/Activities is about what a call does, CallStack/Replay what adding and restoring its
--   events have in common, and CallStack/Searches what the search finds.
--
-- - MemoryChecks: lib/Trace/TraceThreadMemCheck.cpp, the checks that the writer makes before an access
--   of the traced program, over the shadow memory of TraceMemory. What the process listener answers
--   is a parameter, the record Process. MemoryChecks/Parameters has the checks of what is passed to a
--   function of the C library; the objects of its pointers are arguments.
--
-- A failed assertion, a read through end(), a null pointer or a memcpy between ranges that overlap is
-- `none`. The loop of
-- forwardingToInstruction has the blocks from its first on as fuel, behind which getNextNode is null
-- (FunctionState/Forwarding); every other loop of the modelled code goes through a list once.
--
-- LLVM's classes are parameters: an `llvm::Type` is a record of the answers to the questions that the
-- code asks, a function is the list of its blocks, and getSignBit and getBitMask are functions of the
-- width.
--
-- An address or a size is a natural number. The theorems ask where it matters that an area ends
-- before 2 ^ 64, which an area of a real address space does.
--
-- Not modelled: most searches in a trace, its files and their encoding, the writer except for its
-- shadow memory, its tables of streams and its memory checks, the mapping to Clang's syntax trees, and
-- the user interfaces. Copying and printing of the classes are left out, and so are locks.
pub mod Common
pub mod Interval
pub mod StdMap
pub mod Allocation
pub mod Memory
pub mod Streams
pub mod IntervalMap
pub mod Process
pub mod Events
pub mod TraceMemory
pub mod ValueStore
pub mod FunctionState
pub mod CallStack
pub mod MemoryChecks
