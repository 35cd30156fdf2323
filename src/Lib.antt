-- ===== src/Lib.antt =====
-- A model of the MaxMind DB reader for Python: its C extension, extension/maxminddb.c, and the reader
-- in Python, maxminddb/reader.py and maxminddb/decoder.py, which open_database chooses between.
--
-- The extension wraps libmaxminddb in a `Reader` type, an iterator over all networks, and a
-- `Metadata` type. A call of Python runs one C function on a Reader object: it takes the reader's
-- lock, calls libmaxminddb, turns the list of entry data into Python objects, gives the lock back
-- and returns an object, or NULL with an exception set.
--
--   Env: what the extension calls and does not implement (libmaxminddb, which is a git submodule,
--     CPython, the C library, the platform), as a record of functions: the theorems hold for each.
--   Runtime: the state of one reader (`World`: rwlock, mmdb, closed), Python's error indicator, the
--     warnings, and counts of what the running code owns: blocks, references, lists. A command
--     returns, meets undefined behaviour (`fault`), waits for a lock (`blocked`) or lacks fuel.
--     Runtime/Outcome holds the postconditions of commands.
--   Lock: reader_lock_init, reader_lock_destroy, reader_acquire_read_lock and the others, under the
--     GIL, SRW locks and pthread locks. Lock/Read, Lock/Write, Lock/Life and Lock/Returns hold rules for
--     them.
--   Address: ip_converter and format_sockaddr. Address/Convert: what an argument stands for.
--   Entry: from_entry_data_list, from_map, from_array, from_uint128; Value: the objects they make.
--     Entry/Resources: references and memory on any list. Entry/Layout: lists that come of a value.
--     Entry/BigEndian: the number of a uint128. Entry/Long: uint32 in a C `long`.
--   Reader: Reader_init, Reader_close, Reader__enter__, Reader__exit__, Reader_dealloc, can_read.
--     Reader/Init, Reader/Close and Reader/Dealloc: what they do to the reader.
--   Closed: the uses of a closed reader.
--   Lookup: Reader_get, Reader_get_with_prefix_len, get_record. Lookup/Resources: the reader after a
--     lookup; Lookup/Answer and Lookup/Get: what is answered.
--   Metadata: Metadata_init, Metadata_dealloc, Reader_metadata. Metadata/Keywords: which dicts make
--     an object; Metadata/Answer: what is returned.
--   Chain: the nodes of the iterator, is_ipv6, the addresses of child nodes.
--   Iter: Reader_iter, ReaderIter_next, ReaderIter_dealloc. Iter/Trie: the search tree as a tree, with
--     its networks in order; Iter/Walk: what a call yields; Iter/Nodes and Iter/Records:
--     search nodes and data records in the loop; Iter/Next: the loop; Iter/All: a whole iteration;
--     Iter/Prefix and Iter/Order: addresses as numbers; Iter/Family: IPv4 in an IPv6 tree;
--     Iter/Dealloc: the memory of an iterator.
--   Threads: several threads that look up and close one reader, as steps that run the code up to where
--     it holds the lock, from there to its end, or as a whole. Threads/Moves and Threads/Counted: what
--     the steps do to the lock; Threads/Safety: closes exclude lookups; Threads/Progress: a close comes
--     to its turn.
--   Extension: the state of the module, maxminddb_exec, maxminddb_traverse, maxminddb_clear and
--     maxminddb_free, over what CPython answers (`Loader`). Extension/Tables: methods, members and
--     slots of the types; Extension/Exec, Extension/Clear: what the functions do to references;
--     Extension/Members: attributes against keywords; Extension/Slots: the choice of the lock by the
--     preprocessor and the slots of the module.
--
-- The reader in Python has functions that return a result or raise an exception (`Result`). Where
-- they call themselves, the depth that Python's stack has left is an argument, and 0 is a
-- RecursionError, as in Python.
--
--   Pure: results and exceptions. Pure/Buffer: slices of bytes and struct.unpack.
--   Pure/Decoder: decoder.py. Pure/Decoder/Format: the format of the data section; Header, Leaves,
--     Pointers and Reads: its parts are read back; RoundTrip: a writer; Cycles: the stack.
--   Pure/Reader: reader.py. Nodes: the bytes of search nodes; Tree and Lookup: walks and lookups;
--     Bits: the bits of an address; Children: the iteration, against the one of the extension.
--   Pure/Init: the constructor, from the bytes of the file on. Pure/Init/Opens: files that it opens.
--   Pure/File: FileBuffer of maxminddb/file.py and the constructor on it. Pure/File/Ends and
--     Pure/File/Same: a file read piece by piece against its bytes in memory.
--   Pure/Session: close and the context manager. Pure/Session/Answers: a whole use of a reader.
--   Pure/Open: open_database of maxminddb/__init__.py, and the buffer of each mode.
--   Tests: a small database (Tests/Data) on which the theorems are applied.
--
-- Loops run on fuel where C recurses or loops without a bound: `from_entry_data_list` has fuel for
-- one call more than the list has nodes, and each call inside it gets a shorter list.
-- `next_loop` has fuel for its rounds: one for each record of the tree that is left, and one more.
--
-- Not modelled: libmaxminddb itself; of the reader in Python, lookups with a closed reader, metadata
-- whose ip_version, node_count or record_size is no natural number, and FileBuffer on platforms
-- without os.pread, where it reads under a lock.
-- Inside one call other threads appear only through the lock's state, and two threads in one iterator
-- are not modelled.
pub mod Base
pub mod Env
pub mod Runtime
pub mod Lock
pub mod Value
pub mod Entry
pub mod Address
pub mod Reader
pub mod Lookup
pub mod Metadata
pub mod Chain
pub mod Iter
pub mod Extension
pub mod Closed
pub mod Pure
pub mod Threads
pub mod Tests
