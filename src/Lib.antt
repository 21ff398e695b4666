-- ===== src/Lib.antt =====
-- Verification of parts of the cplat platform library: its hash table, its line editor, and the parts
-- that handle paths, language tags, byte order, descriptors and times.
--
-- The hash table (prod/libsrc/cplat/hashtable, prod/include/cplat/hashtable) keeps records in two
-- memory regions. A record has a status (0 empty, 1 in use, 2 and more deleted and ageing), a link to
-- the next record of its bucket's chain, a key and a value. A fixed-length field stands in the
-- record's own area. A variable-length string stands in a storage that the records share, and a free
-- list of (offset, length) blocks says which of its bytes are free. Queries walk a chain.
-- Modifications find room for the new fields first, so that a refusal changes nothing, then change the
-- chain, the counters and the fields.
--
-- The line editor (prod/libsrc/cplat/prompt) keeps a buffer with a cursor and a history for each call
-- site. The buffer grows up to a limit; the history is a ring of lines. The other parts have no state.
--
--   Hashtable/Config     configuration and codes (hashtable.h)
--   Hashtable/Arena      the free list: arena_find_fit, arena_take, arena_give and the two validations
--                        of hashtable_arena.c, one function each, on a list of blocks
--   Hashtable/Store      the keys, or the values, of all records: hashtable_key_store,
--                        hashtable_release_key, hashtable_key_storage_find_free and their copies for
--                        values; hashtable_key.c
--   Hashtable/Table      the header and the handle as one record, and the walk over a chain
--   Hashtable/Query      hashtable_query.c; Copy has the functions that copy a field
--   Hashtable/Modify     hashtable_modify.c: Put (hashtable_put), Update (hashtable_update,
--                        hashtable_update_rec), Delete (cplat_hashtable_delete, delete_rec), Purge
--                        (push_deleted, purge_deleted) and InsertDirect
--                        (cplat_hashtable_insert_direct)
--   Hashtable/Run        sequences of the calls of Create, Modify and Query, as a step relation beside the
--                        map from keys to values that they describe
--   Hashtable/Layout     hashtable_layout.c
--   Hashtable/Create     hashtable_create.c up to cplat_hashtable_create, and cplat_hashtable_clear
--   Hashtable/Grow       hashtable_growth_target of hashtable_grow.c
--   Prompt               prod/libsrc/cplat/prompt/prompt.c: the history and the keys of
--                        prompt_readline_core; Prompt/Reach has the runs as a step relation
--   PromptEdit           prod/libsrc/cplat/prompt/prompt_edit.c, which Prompt uses
--   PathName             prod/libsrc/cplat/crt/path_name.c
--   LanguageTag          prod/libsrc/cplat/locale/ui_language_tag.c
--   Descriptor           prod/libsrc/cplat/sync/sync_descriptor.c
--   ByteOrder            prod/libsrc/cplat/net/byteorder.c
--   Result               the result codes and result_from_errno (prod/libsrc/cplat/base/result.c)
--   Timespec             prod/libsrc/cplat/clock/timespec.c
--   Base                 shared tests, lists, 64-bit words, bits and signed integers
--
-- Names are those of the source without the prefix cplat_ or cplat_hashtable_. `uint64_t` and
-- `size_t` are numbers whose sums, differences and products wrap at 2^64. The seconds of a
-- `cplat_timespec` are unbounded integers, because signed overflow is undefined in C. An array is a
-- function of its index, or a list where its length changes. A `uint64_t *link` is the head of a bucket
-- or the link of a record. Pointers that a query returns are the bytes that they point to. A byte
-- string that a caller passes is the list of its bytes, without the NUL of a string. The system clock
-- and the success of an allocation are arguments.
--
-- Proofs stand beside the code that they are about. Arena/Region says what a free list means,
-- Store/Valid when a store holds given fields, Modify/Linked when the chains hold the records, and
-- Modify/Valid collects these into the invariant of a table, `IsTable`, whose last arguments name the
-- chains and the fields of the records. Modify/View reads a table as a finite map (`Maps`). The table
-- uses a store by the four laws of Store/Laws alone.
--
-- The binary search of hashtable_arena_validate_used_block runs on fuel `length + 1`: each round
-- makes the interval shorter. A walk over a chain runs on fuel `capacity + 1`, and its result without
-- fuel says that the chain does not end: with the invariant a chain visits each record at most once,
-- and Modify/Lookup uses that it ends before. The loop that doubles a buffer's capacity runs on fuel
-- `required + 1`: each round raises the capacity (PromptEdit/Laws). The loop over the subtags of a
-- language tag runs on fuel `length + 1`: each round takes a separator at least (LanguageTag/Loop).
--
-- ByteOrder takes the conversion of a word to its bytes in memory and back as arguments, which
-- `IsMachine` describes; LittleEndian is a machine that has it. The C library is that of the "C"
-- locale. An `int` of the line editor is a number: its theorem asks for a history below 2^31 lines.
--
-- Not modelled: NULL arguments, enumerations out of range, byte offsets inside a record, the other
-- functions of hashtable_create.c and hashtable_grow.c, hashtable_validate.c, what the line editor
-- writes to the terminal and how it decodes keys, the option parser, the string catalogue with its
-- filter, the trace, and the parts of the library that call the operating system.
pub mod Base
pub mod ByteOrder
pub mod Descriptor
pub mod Hashtable
pub mod LanguageTag
pub mod PathName
pub mod Prompt
pub mod PromptEdit
pub mod Result
pub mod Timespec
