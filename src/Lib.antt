-- ===== src/Lib.antt =====
-- the_Foundation: containers and codecs of the C library.
--
-- The library offers C programs containers, text, streams, threads and network access. At its
-- core are containers that own a growing buffer or link nodes that the caller owns, and codecs
-- that read a sequence of bytes. The files here model these parts of it:
--
-- - Array (src/array.c, include/the_Foundation/array.h): a buffer with free room on both sides of
--   its elements. `Array` has the fields of `iArray`; `reserve`, `resize`, `insert_n`, `remove_n`,
--   `set_n`, `take_n` and the others are `reserve_Array`, `resize_Array`, `insertN_Array`,
--   `removeN_Array`, `setN_Array`, `takeN_Array`. Array/Insertion has the three kinds of insertion,
--   Array/Removal the three kinds of removal. Array/Shape says what a well-formed buffer is and what
--   its elements are; Array/Growth, Moves, Update, Insertion/Ends, Insertion/Middle,
--   Insertion/Laws and Removal/Laws have the theorems.
-- - SortedArray (src/sortedarray.c, include/the_Foundation/sortedarray.h): an array with a
--   comparison function, which is a parameter; it uses the operations of Array, and its theorems use
--   theirs. SortedArray/Order says what a comparison has to satisfy and what sorted means.
-- - IntSet (src/intset.c, include/the_Foundation/intset.h): a sorted array of `int` values. A stream
--   is the sequence of the 32-bit words that `write32_Stream` and `read32_Stream` of src/stream.c
--   pass.
-- - Hash (src/hash.c, include/the_Foundation/hash.h): a tree with four children at a branch, chosen
--   by two digits of the 32-bit key, and lists of at most eight nodes at the leaves, but for the
--   deepest ones. The parents of buckets and the links between nodes are the shape of the data, so
--   that `findNode_HashBucket_`, `split_HashBucket_`, `remove_HashBucket_` and
--   `trim_HashBucket_` are recursions on it.
-- - Block (src/block.c, include/the_Foundation/block.h): byte buffers that share their data until one
--   of them is changed. A `World` is the store of all blocks and all data with their counts of
--   references; `detach`, `reserve_data` and `deref` are `detach_Block_`, `reserve_BlockData_` and
--   `deref_BlockData_`, and Block/Edit has the operations that are made of them. Block/Sharing says
--   when the counts are right and what a block reads; `Edited` in Block/Changes is what an operation
--   promises of its block and of all others. What fresh memory contains is a parameter.
-- - Encoding (src/block.c): hexadecimal and Base64 texts of blocks. A byte is a number below 256, a
--   text the list of its characters; the loops are recursions on it.
-- - Vec2 (include/the_Foundation/vec2.h) and Rect (src/rect.c, include/the_Foundation/rect.h): vectors
--   of `int`, and rectangles. An `int` is a word in two's complement; arithmetic wraps around where C
--   leaves an overflow undefined, and `offset` gives the order. Rect/Spans is about one axis.
-- - Stream (src/stream.c, include/the_Foundation/stream.h): the position in a sequence of bytes, and
--   integers in a byte order; Stream/Bytes says which bytes those have. `StreamClass` is the class of a
--   stream with its operations, and `IsStore` what the clients rely on.
-- - Buffer (src/buffer.c, include/the_Foundation/buffer.h): the class of streams in memory; it uses the
--   operations of Block and has the laws of `IsStore`.
-- - Queue (src/queue.c): items that threads put, take and wait for. `Reach` is the step relation of its
--   threads, with what was put and taken and how many threads were woken and left without looking
--   at the items; sections that a mutex guards are its steps. `watch` and `end_watch` are the two
--   of `waitForItems_Queue`.
-- - Crc32 (src/crc32.c): the checksum with its table; Crc32/Bitwise is the shift register that the
--   comment above the table describes.
-- - Garbage (src/garbage.c): the allocations that a thread collects, in nodes of 32, with scopes.
--   Garbage/Stack says that the nodes are one stack, Garbage/Recent which pointers the assertion of
--   `push_Collected_` compares.
-- - LinkedList (src/list.c, include/the_Foundation/list.h): the circular lists of nodes that their
--   owner links in. The links are a store, with 0 for the root of the list; LinkedList/Chain says
--   when they are a list, and that a part of it can be replaced.
-- - Map (src/map.c, include/the_Foundation/map.h): red-black trees of nodes that their owner gives. A
--   node with its parents is a tree with a path: the frames from its parent up to the root, each
--   with the child on the other side, so that the links to parents cannot differ from those to
--   children. Map/Repair has `rotate_MapNode_` and the two repairs, Map/Settling and Map/Remove say
--   what the repair after a removal does to a path.
-- - Md5 (src/md5.c): the hash with its context. Md5/Transform has the transform of a block,
--   Md5/Digest the digest of a message as a whole.
-- - Punycode (src/punycode.c): the decoder, and the integers of variable length that the encoder
--   writes. `read_integer` and `write_integer` are the inner loops of `decode_` and `encode_`, and
--   the case flags are NULL as in both calls.
-- - Base: Boolean tests, lists, signed integers, binary digits, and runs that can fault. `none` is
--   an assertion that fails or an access outside of the memory allocated.
--
-- Numbers: `size_t` values and words are natural numbers, with the modulus written out where the
-- code can exceed it. An allocation has at most 2 ^ 62 elements and an array is asked for at most
-- 2 ^ 61; below that no index arithmetic wraps. The casts `(int)` of array.c are modelled, so that
-- counts, and starts where a resize shifts, are below 2 ^ 31 in the theorems. Elements are counted,
-- not bytes: the product with `elementSize` is not modelled, and a failing `realloc` is not either.
-- Blocks and buffers have fewer than 2 ^ 62 bytes in the theorems, and the counts of references of
-- their data, an atomic `int` in the code, are not bounded. The machine is little-endian and
-- has a signed `char`.
--
-- Fuel: `allocSize_` doubles a size 62 times at most, and `reserve_Array` 64 times at most before it
-- has all the bits of `size_t`, with fuel for 65 rounds; the searches of a sorted array halve a
-- span, and have fuel for its size and one round more; an iteration over a linked list has fuel for
-- its size and one round more, one over a map for its nodes and one round more, and one over a
-- rectangle for its positions; the end of a scope of collected allocations has fuel for those of the
-- scope and its mark; the loop of `update_Md5Context_` has fuel for the blocks of its input and one
-- round more; the adaptation of Punycode has fuel for 7 rounds of dividing a word by 35, the decoder
-- for the characters of its input, each integer taking one at least, and an integer gets less with
-- each digit written. All other loops are structural recursions.
--
-- Not modelled: the iterators but those of linked lists and the constant ones of maps, the outer
-- loops of the Punycode encoder, `sort_Array` (which calls `qsort`), the sorting of linked lists,
-- the text types, files, the object system, threads but for the queue, and the parsers. What calls
-- the operating system, zlib, PCRE, OpenSSL or curl is outside of the model.
pub mod Base
pub mod Array
pub mod Queue
pub mod SortedArray
pub mod Stream
pub mod Vec2
pub mod Rect
pub mod IntSet
pub mod Buffer
pub mod Crc32
pub mod Block
pub mod Encoding
pub mod Hash
pub mod Garbage
pub mod Punycode
pub mod LinkedList
pub mod Map
pub mod Md5
