-- ===== src/Lib.antt =====
-- Verification of parts of cpuinfo, a C library that finds out what processor a program runs on.
--
-- The program. A platform's start code (src/arm/linux/init.c, src/x86/linux/init.c and others)
-- fills global arrays of processors, cores, clusters and caches, which src/api.c hands out. On
-- Linux it asks the kernel through files: src/linux/processors.c names the files and reads single
-- numbers with src/linux/smallfile.c and processor lists with src/linux/cpulist.c; /proc/cpuinfo
-- is read line by line with src/linux/multiline.c. The results are flags and values in one record
-- per logical processor. On ARM, src/arm/linux/clusters.c then finds the clusters of equal cores,
-- and src/arm/midr.h has the operations on the Main ID Register that describes a core.
--
-- The files.
-- - Base: shared notation, lists, Boolean tests, words of 32 bits, and laws of `&` and `|` on
--   variables.
-- - Linux/Flags: the flags of src/linux/api.h that the other files use.
-- - Linux/File: the file interface of POSIX, a parameter of everything that reads. Its two laws
--   are what POSIX promises of a regular file. Linux/File/Memory is a file system that meets them.
-- - Linux/Chunks: the reading loop that cpulist.c and multiline.c share; Pieces has the inner loop
--   on a whole text, Reads shows that the cuts between reads do not matter.
-- - Linux/Number: `is_whitespace` and `parse_number`, which cpulist.c and processors.c both have;
--   Digits has the value of a text, Print the decimal text of a number, as `snprintf` writes it.
-- - Linux/Cpulist: src/linux/cpulist.c (`parse_entry`, `cpuinfo_linux_parse_cpulist`); Entry and
--   Text have the form of lists as the kernel writes them.
-- - Linux/Multiline: src/linux/multiline.c (`cpuinfo_linux_parse_multiline_file`).
-- - Linux/SmallFile: src/linux/smallfile.c (`cpuinfo_linux_parse_small_file`).
-- - Linux/Processors: src/linux/processors.c; Filename has the names of files and their buffers,
--   Value the functions that read one number, Detect those that read lists of processors.
-- - Arm/Midr: src/arm/midr.h; Fields is about its accessors, Scores about the choice of a LITTLE
--   core.
-- - Arm/Processor: `struct cpuinfo_arm_linux_processor` of src/arm/linux/api.h and its
--   comparisons.
-- - Arm/Clusters: src/arm/linux/clusters.c; Details has the checks of a processor against a
--   cluster and what they keep, Heuristic the function
--   `cpuinfo_arm_linux_detect_core_clusters_by_heuristic`, Scan the function
--   `cpuinfo_arm_linux_detect_core_clusters_by_sequential_scan`, Count the function
--   `cpuinfo_arm_linux_count_cluster_processors`.
-- - Arm/Chipset: the name of a chipset, of src/arm/api.h.
-- - Arm/ClusterMidr: src/arm/linux/midr.c; Configs has the table `cluster_configs`, Chipset, BigLittle
--   and Scan the three ways to give the leaders of clusters a register, Detect the function
--   `cpuinfo_arm_linux_detect_cluster_midr` that counts clusters and chooses among them. Below
--   Detect, Invariant and Rounds have what its first loop keeps, and Result what it promises.
-- - Arm/Order: `cmp_arm_linux_processor` of src/arm/linux/init.c; Keys and Laws show what order it is.
-- - Arm/Caches: src/arm/cache.c (`cpuinfo_arm_decode_cache`). Old, Cortex and Custom have the cases of
--   its `switch`, Decode chooses among them; Whole, Chosen and Result show that the sets come out even.
-- - X86/BitLength: `bit_length` of src/cpuinfo/utils.h.
-- - X86/Caches: src/x86/cache/deterministic.c; Encode has the layout of the registers. Stores and
--   Descriptors are src/x86/cache/descriptor.c (`cpuinfo_x86_decode_cache_descriptor`), whose
--   `switch` is a table in Low, Middle and High; Detect is src/x86/cache/init.c
--   (`cpuinfo_x86_detect_cache`).
-- - X86/Topology: src/x86/topology.c (`cpuinfo_x86_detect_topology`); Levels has the loop over leaf
--   0xB, Legacy the processors without it.
-- - X86/Objects: src/x86/linux/init.c (`cpuinfo_x86_linux_init`), which groups the logical processors
--   into cores, clusters, packages and caches. Objects has the masks, the marks and
--   `cpuinfo_x86_count_objects`, Structs and Fill the loop that fills the arrays, Init the function;
--   Runs has what one array goes through, Project, Stores and Steps find it in the loop, Allocated,
--   Counted and Arrays join the loop that counts, Usable has the marks and the sorting, Whole the
--   result.
-- - Linux/Tests, Arm/Tests and X86/Tests: runs at concrete inputs.
--
-- How the code is rendered. Numbers are natural numbers; a uint32_t has its wrap-around written
-- out. A text is the list of its bytes. A callback with a `void* context` is a function from the
-- state behind the context to the new state and the status, so a theorem for every callback holds
-- whatever the callback does. The array of processors that a callback writes by pointers is a list
-- of flags. Global state is not used by the modelled parts. Log messages are left out.
--
-- Fuel. The loops around `read` have fuel. Each round that does not end the loop reads a byte, so
-- a fuel above the number of unread bytes is enough; every theorem on a whole file takes such a
-- fuel and states that there is a result. The heuristic reads an array that is set in part: a read
-- of an element that is not set is a result of its own, and is proved not to happen where the
-- number of processors is right. The loops over the subleaves of CPUID leaves 4, 0xB and 0x8000001D
-- have fuel too: a fuel above the number of the first subleaf that ends the list is enough. All
-- other loops are structural.
--
-- CPUID. The instruction is a parameter, a function of the leaf and the subleaf. Leaf 2 is executed
-- several times, so its results are numbered by the executions. Where a loop ends only at some
-- subleaf, that there is one, below 2 ^ 32, is a hypothesis.
--
-- Assumptions. The theorems on whole files take that no read fails; what a failed read does is in
-- the definitions. The platform's CPU_SETSIZE is a parameter. What a variable that C leaves unset
-- holds is an argument of the model, and the theorems hold for all values of it.
-- On x86 Linux `qsort` is a parameter that changes the order only, the allocations succeed, and
-- /proc/cpuinfo has been parsed.
--
-- Not modelled. The rest of the start code of the platforms, /proc/cpuinfo, the matching of names of
-- chipsets, the table of microarchitectures of ARM, the vendor, model and instruction sets
-- of x86, and the public accessors. The structures of ARM are those of AArch64. Code that only calls
-- the operating system or executes an instruction is left aside, as are the tools, the tests and
-- deps/clog, a copy of another library.
pub mod Base
pub mod Linux
pub mod Arm
pub mod X86
