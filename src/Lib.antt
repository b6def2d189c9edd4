-- ===== src/Lib.antt =====
-- CLE loads the object files of a program, and all that they depend on, into one address space.
-- This library models the parts of it that decide which bytes stand at which address.
--
-- - cle/utils.py: `Utils.Align` has `ALIGN_DOWN`, `ALIGN_UP` and `get_mmaped_data`;
--   `Utils.Bisect` has the four binary searches. Each search loop runs on fuel: `hi`, or the
--   length of the list, which is at least `hi - lo`, the greatest number of rounds.
-- - cle/backends/region.py: `Region` has the records of a region and its methods. The subclasses
--   add names and flags only; of them the model keeps `ELFSection.occupies_memory`, in the field
--   `occupies`.
-- - cle/backends/regions.py: `Regions` has the two lists of a collection and its operations. The
--   identity of a Python object is the field `ident`. `Regions.Lookup` and `Regions.Membership`
--   are about the searches by address, `Regions.Updates` about the operations that change the
--   collection, `Regions.Rebase` about the moves.
-- - cle/address_translator.py: `AddressTranslator`. The owning object is a record of its two
--   bases, its state and the two offset methods, which each backend has its own of.
-- - cle/patched_stream.py: `PatchedStream`, over a file whose bytes are in memory.
-- - cle/memory.py: `Memory`. A `Clemory` is its attributes and its backers, a list of buffers and
--   other memories at their starts. `Memory.Backers` has the state and the generator `backers`,
--   `Memory.Items` the access to single bytes, `Memory.Layout` and `Memory.Change` the operations
--   that change the backers, `Memory.Access` the block and stream operations, `Memory.View` the
--   classes `ClemoryView` and `ClemoryTranslator`. The abstract view, in `Memory.Bytes`, is a
--   partial function from addresses to bytes; the other modules are about the operations against
--   it.
-- - cle/backends/backend.py: `Backend`, an object with its bases, its regions and its caches;
--   `Backend.Lookup` is about the cached lookups, `Backend.Rebase` about the move to another
--   base.
-- - cle/loader.py: `Loader` has the choice of addresses and `_map_object`, `Loader.Search` has
--   `find_object_containing`, and `Loader.Queries` the lookups of segments and sections that
--   start with it. `Loader.Space`, `Loader.Entering`, `Loader.Choosing` and `Loader.Mapping` are
--   about objects that do not overlap, `Loader.Found` about the search, `Loader.Querying` about
--   the lookups. What `pefile` does with a file is a parameter of `map_object`. Step 1.5 of
--   `_internal_load` is `Loader.Order`: the walk over the dependencies and the mapping of names
--   to objects. Its recursion has one round more than there are objects, and each call that goes
--   on has seen one object more. `Loader.Order.Walk` and `Loader.Order.Visiting` are about a
--   call, `Loader.Order.Outcome` about the whole step.
-- - cle/backends/elf/hashtable.py: `HashTable` has both tables and their lookups. The symbol
--   table is a function from indices to names, since pyelftools is not part of the repository.
--   The loop over a chain has one round more than there are chain words; in the GNU table, one
--   more than the stream has bytes. `HashTable.Hashes` is about the hash functions,
--   `HashTable.Chains` about the lookup.
-- - cle/backends/ihex.py and cle/backends/srec.py: `HexFormats` has what both share,
--   `HexFormats.IntelHex` and `HexFormats.Motorola` the records and files of each. The regular
--   expressions are functions on the digits that a line has. `HexFormats.Joining` is about
--   `coalesce_regions`, `HexFormats.Digits`, `HexFormats.RoundTrip`, `HexFormats.Records` and
--   `HexFormats.Files` about records and files that are written the way the formats say,
--   `HexFormats.Extents` about files of any kind.
-- - cle/backends/tls/: `Tls` has the modules and what both managers share, `Tls.Elf` and `Tls.Pe`
--   the registration of objects and the memory of a thread. What archinfo says of an architecture
--   is the record `TlsArch`. `Tls.Blocks` is about the blocks that objects get, `Tls.Areas` about
--   the memory of a thread. That the loader then maps the thread is not modelled.
-- - cle/backends/externs/__init__.py: `Externs` has the allocation of addresses in an
--   `ExternObject` and in those behind it. A new object goes through `_internal_load`, of which
--   the model has the two steps that can fail for it: `register`, with the number of modules that
--   the thread manager has, and the base, which the loader chooses or does not find, and which is
--   a parameter. The recursion of `allocate` takes fuel. A request that fits a new object takes
--   two rounds more than there are objects: one for each, and two for a new one. One that does
--   not fit takes two for each module that the thread manager has room for, one for each object,
--   and one more. `Externs.Room` is about one object, `Externs.Growing` about all of them.
-- - cle/backends/relocation.py, cle/backends/symbol.py and cle/backends/elf/relocation/:
--   `Relocation` has symbols, relocations and the search for the symbol that resolves one, over
--   an extern object whose `make_extern` is a parameter. `Relocation.Generic` has the generic
--   classes, each a record of how it is resolved, its value and how it is applied;
--   `Relocation.X86` (i386, amd64 and s390x), `Relocation.Sparc`, `Relocation.Mips`,
--   `Relocation.Ppc`, `Relocation.Ppc64`, `Relocation.Arm64` and `Relocation.Arm` have those of
--   the architectures with their tables, and `Relocation.Tables` the table of tables.
--   `Relocation.Resolution`, `Relocation.Truncation`, `Relocation.Halves`, `Relocation.Fields`,
--   `Relocation.Pages`, `Relocation.Literals` and `Relocation.Calls` are about them. Words are
--   written through `Memory.Words`. `Relocation.Pe` has the values of the relocations of PE
--   files, cle/backends/pe/relocation/, and how they are applied; the forwarding of symbols is
--   not modelled.
-- - cle/backends/macho/binding.py: `MachO.Leb` has the two readers of numbers, `MachO.Binding`
--   the state and the opcodes, `MachO.Binding.Loop` their handlers and the loops. The bind
--   handler is a parameter, and the binary a value that it changes. The loop runs on a round for
--   each byte of the blob, since each round moves the index on.
--
-- The regions of an object are searched by address through `Utils.Bisect`, and an
-- `AddressTranslator` goes through the offset methods of its owner. An object's bytes are a
-- `Clemory`, and the loader mounts it as a backer in the one `Clemory` of the whole address
-- space; `Memory` models this nesting.
--
-- Python's integers are `Base.Int.ℤ`, and what cannot be negative is a native number; nothing
-- wraps around. Exceptions are values of `Base.Exception` in the result type of `Base`, which
-- also tells a loop that ran out of fuel. Where the source changes an object and then raises, the
-- model returns the changed state beside the error. A memory that two others share is a copy in
-- each, so a change through one of them is not seen in the other; pickling is not modelled.
--
-- Python's bit operations on integers are those of `Base.Twos`, with the laws that reduce them to
-- divisions and remainders; `Base.Splits` has the laws on numbers.
--
-- Not modelled: `Clemory.find`, the parts of the loader that look for files, and the backends
-- that parse the binary formats. The parsers rest on third-party packages (pyelftools, pefile,
-- and others) and on files.
pub mod Base
pub mod Utils
pub mod Region
pub mod AddressTranslator
pub mod Regions
pub mod Backend
pub mod Relocation
pub mod HashTable
pub mod HexFormats
pub mod Tls
pub mod Externs
pub mod Loader
pub mod MachO
pub mod PatchedStream
pub mod Memory
mod Tests
