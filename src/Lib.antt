-- ===== src/Lib.antt =====
-- vsclib: a C utility library. This library models its hash map, UUIDs, checksums, joining and
-- splitting of strings, reading of lines and of whole files, allocation and alignment, the allocator over
-- the system's, byte orders, colours, the writing of sounds, the search in PATH, the groups of a user,
-- error values and the nullifying of streams from the sources, and proves what they do.
--
-- Parts and files
--   Prelude        shared names; lists and words over the native numbers, error values (`Status`, of
--                  vsclib/include/vsclib/error.h), laws of the operations on binary digits
--   HashMap        vsclib/hashmap.c, an open-addressing map with linear probing
--     Types        the structures; `HashMap` has the fields of `struct VscHashMap`
--     Probe        the loops over the buckets: add_or_replace_bucket, find_bucket,
--                  vsc_hashmap_find_by_hash, and the loop of vsc_hashmap_remove
--     Resizing     vsc_hashmap_resize, maybe_resize
--     Api          the other functions of the interface
--     Slots, Scan, Count, Placed
--                  what a bucket list holds, what a scan passes, how many are taken, and the
--                  invariant that every entry can be reached from its home
--     Adding, Finding, Moving, Rehash, Valid, Growing, Inserting, Updating, Lifecycle, Faults,
--     Enumerating  the proofs, by operation
--     Between, Filling, Filled, Removing, Removed
--                  the proof about vsc_hashmap_remove: what a probe passes, the state of the loop, the
--                  loop, the map that is left, and the function
--     Defaults     the procedures for pointers and strings, with vsclib/hash.c; `Strings` has the proof
--   Uuid           vsclib/uuid.c and vsclib/string.c: `Text` has the functions, `RoundTrip` the proof of
--                  what is read back, and `Accepted` and `Soundness` that of what text is taken
--   Crc            vsclib/crc32.c: the tables, the loop, and a CRC one bit at a time
--   Strings        vsclib/stpcpy.c and vsclib/strjoin.c: `Join` has the functions, `Joined` the proofs
--   GetLine        vsclib/getline.c: `Reading` has the functions, `Lines` the proof
--   Delim          vsclib/for_each.c: `Loop` has the function, `Fields` the proof
--   Memory         vsclib/memory.c and the alignment of vsclib/include/vsclib/mem.h and platform.h
--     Allocation   vsc_xalloc_ex and what calls it; `Requests` has the proofs, and `Faked` those of
--                  the reallocation that it makes itself, where the allocator has none
--     Alignment    vsc_align, the macros and their functions; `Powers`, `Rounding` and `Aligning` have
--                  the proofs
--     Blocks       vsc_block_xalloc: `pass1` and `pass2` are its loops; `Layout` says what a layout of
--                  blocks is, and `Placing` proves that there is one
--   SystemAllocator
--                  vsclib/allocator.cpp with allocator_internal.h, and vsclib/ctz.c
--     Bytes        the memory: words, memmove and memset on it
--     Header       the functions; `with_old`, `answer` and `prepare` are the parts of malloc_
--     Trailing     vsc_ctz
--     Blocks, Prepared, Finished
--                  what stands before the data of a block, and that malloc_ writes it
--     Allocated, Moved, Reallocated
--                  the proofs about new blocks and about those that are reallocated
--     Default      the functions of vsclib/memory.c that use this allocator, with their proofs
--   Errors         vsclib/include/vsclib/error.h and vsclib/error.c: `Values` has the macros, `Printing`
--                  vsc_vfperror, `Kinds` the proofs
--   Nullify        vsclib/fnullify.c and the wrappers of vsclib/stdio.c that it calls: `Descriptors` has the
--                  functions, `Nullified` the proof
--   Io             vsclib/include/vsclib/io.h: `Endian` has the functions, `Bytes`, `Orders` and
--                  `Transfer` the proofs
--   Colour         vsclib/colour.c and vsclib/include/vsclib/colourdef.h: `Pixels` has the functions,
--                  `Fields` and `RoundTrip` the proofs
--   Wav            vsclib/wav.c: `Write` has the function, with the writes into its buffer in
--                  `header`; `Fill`, `Header` and `File` have the proofs
--   Freadall       vsclib/freadall.c
--     System       the calls of the system, and the wrappers of vsclib/stdio.c around them
--     Sizes        get_sizes and what it calls
--     Loop         the loop of vsc_freadalla_ex: `reserve`, `read_chunk` and `finish` are its parts
--     Whole        the rest of vsc_freadalla_ex, and vsc_freadalla
--     Owned, Returned
--                  the proofs about the buffer
--     Room, Contents, Ending
--                  the proofs about the bytes that are read
--   SearchPath     vsclib/searchpath.c: `Search` has the functions, `Directories`, `Buffers`, `Widths`
--                  and `Searched` the proofs
--   EnumGroups     vsclib/enum_groups.c: `Loop` has the functions, `Users` says which groups
--                  are the user's, and `Members` has the proof
--   Tests below each part hold runs at concrete inputs.
-- The map, the joining and the reading of lines call the functions of vsclib/memory.c, of which their
-- models take only whether the memory is granted. The map and vsc_for_each_delim call the procedures
-- that their user supplies, and so do Freadall and EnumGroups, which call vsc_xrealloc and vsc_xfree
-- of Memory. Wav calls the writes of Io and a macro that Colour has, and SearchPath takes `memchr` of
-- Delim for strchr. SystemAllocator makes an `Allocator` of Memory, and its `Default` puts the two together.
-- The other parts do not call each other.
--
-- How state and code correspond
--   An operation takes the state and returns the new one beside what the C function returns. A
--   pointer to a key or value is a number, its address, and 0 is NULL. A pointer to a bucket is the
--   index of the bucket. `size_t` has 64 bits, and its arithmetic is written with the wrap-around
--   (Prelude/Words). Whether an allocation succeeds is an argument of the map's operations (`Grants`),
--   so a theorem that quantifies over it covers every outcome. The hash and compare procedures are
--   fields of the map, with laws of equality as the hypothesis `laws`: equal keys have equal hashes,
--   and comparison is an equivalence. The function of xxHash is a parameter of vsclib/hash.c.
--   The assertions (`vsc_assert`, and `validate` that they call) are compiled out, as they are in a
--   release build; `validate` itself is modelled as a function.
--   To vsc_getline a file is the bytes that `getc` still has to give, and whether it then ends or
--   fails. To Freadall it is any type with the operations of `System`, and to Wav any type with an
--   `fwrite`; what these do is a hypothesis of the theorems that need it. The bytes in the buffer of
--   vsc_freadalla_ex are a list beside its address, which a reallocation keeps. An allocator is the
--   record `Allocator` of its procedures over any type of heap.
--   The memory of SystemAllocator gives each address a byte, and a `State` has it beside what the system's
--   allocator knows; vsc_sys_realloc and vsc_sys_free are a `System` on it. An `int` of error.h is its 32
--   bits. To Nullify the world is any type with the calls of `Calls`, and a function says which open file
--   a descriptor denotes.
--   The machine is little-endian, and what the sources do on Linux is modelled.
--   A string is the list of its characters before the NUL; a buffer of bytes is a list, whose length
--   is its size. A byte is a number, and that it is below 256 is the hypothesis `IsBytes`.
--
-- Bounds and fuel
--   The loops over buckets count `num_buckets` rounds, as LOOP_BUCKETS does: it stops when the index
--   comes back to where it began. vsc_for_each_delim takes a character at least from the text in a
--   round, so as many rounds as the text has characters suffice, and its theorem holds of every
--   text; vsc_searchpatha goes through PATH in the same way. The loop of vsc_freadalla_ex reads a byte
--   at least in a round or finds the end, and enlarges its buffer by at least a byte in a round of the
--   inner loop, so twice the number of bytes, and 2, is fuel enough for both. vsc_enum_groupsa needs a
--   round for each group, one for each time that it doubles its buffer, and one more. The loop of
--   vsc_ctz halves a number of 64 bits, 64 times at most. The loop of vsc_hashmap_remove stops at an
--   empty bucket, which its theorem has not beyond the last one, with every entry between at home no
--   later than where it stands. The other loops over bytes and characters are recursions on the list.
--
-- Not modelled
--   The string helpers strdup.c, strdupr.c, strcpy.c and vsprintfa.c, and fopena.c and chdir.c, only pass
--   their arguments to the C library or to functions that are modelled. The functions that only pass the
--   system's allocator or fixed arguments on, as vsc_block_alloc and vsc_freadall do, have no definition of
--   their own, but for those of memory.c. sysmem.c and the clocks only call the operating system, and the
--   Windows files the Windows API. The signed reads and writes of io.h cast to the unsigned ones.
--   vsclib/xxhash.h is another project's. vscpplib is C++.
pub mod Prelude
pub mod HashMap
pub mod Uuid
pub mod Wav
pub mod EnumGroups
pub mod SearchPath
pub mod SystemAllocator
pub mod Errors
pub mod Nullify
pub mod Freadall
pub mod Crc
pub mod Strings
pub mod GetLine
pub mod Delim
pub mod Memory
pub mod Io
pub mod Colour
