-- ===== src/PatchedStream.antt =====
-- cle/patched_stream.py: a readable stream that seems to have been changed by patches. The stream
-- underneath is a file in memory: its bytes and its position. Addresses are not negative, and
-- where the source takes `max(0, a - b)` the subtraction here stops at 0.
pub mod Overlay
use cle.Base.{
  ℕ, ◌+◌, ◌-◌, min, Bool, List, [], ◌∷◌, ◌++◌, length, take, drop, ltb, leb, ◌&&◌, ◌||◌,
  if◌then◌else◌, slice, splice, Option, none, some,
}

pub record File : Type 0 where
  pub bytes : List ℕ
  pub position : ℕ

pub record Patch : Type 0 where
  pub addr : ℕ
  pub patch : List ℕ

pub record PatchedStream : Type 0 where
  pub stream : File
  pub patches : List Patch
  pub pos : ℕ

-- What the constructor is given: a plain stream, or one that is patched already.
pub data Source : Type 0 where
  plain : File → Source
  patched : PatchedStream → Source

-- `PatchedStream(stream, patches)`
unfoldable pub new : Source → List Patch → PatchedStream
new (plain f) patches = record { stream = f; patches = patches; pos = f.position }
new (patched s) patches = record {
  stream = s.stream;
  patches = s.patches ++ patches;
  pos = s.stream.position;
}

-- `stream.read(n)` of a file: up to `n` bytes, or all that are left.
abbrev pub file_read : File → Option ℕ → List ℕ × File
file_read f none =
    let rest = drop f.position f.bytes in (rest, record f { position = f.position + length rest })
file_read f (some n) =
    let part = take n (drop f.position f.bytes) in
    (part, record f { position = f.position + length part })

-- The body of the `if` in the loop over the patches: `newpos` is the position after the read.
unfoldable pub overwrite : ℕ → ℕ → List ℕ → Patch → List ℕ
overwrite pos newpos bytes p =
    let inject_start = p.addr - pos in
    let inject_end = min (p.addr + length p.patch - pos) (length bytes) in
    let patch_start = pos - p.addr in
    let patch_end = min (newpos - p.addr) (length p.patch) in
    splice bytes inject_start inject_end (slice p.patch patch_start patch_end)

unfoldable pub inject : ℕ → ℕ → List ℕ → Patch → List ℕ
unfolding overwrite
inject pos newpos bytes p =
    if (leb pos p.addr && ltb p.addr newpos)
      || (leb p.addr pos && ltb pos (p.addr + length p.patch))
    then overwrite pos newpos bytes p
    else bytes

unfoldable pub inject_all : ℕ → ℕ → List ℕ → List Patch → List ℕ
unfolding inject
inject_all pos newpos bytes [] = bytes
inject_all pos newpos bytes (p ∷ ps) = inject_all pos newpos (inject pos newpos bytes p) ps

unfoldable pub read : PatchedStream → Option ℕ → List ℕ × PatchedStream
unfolding inject_all
read s n =
    let (bytes, f) = file_read s.stream n in
    let newpos = s.pos + length bytes in
    (inject_all s.pos newpos bytes s.patches, record s { stream = f; pos = newpos })

-- `seek(n)`, from the start of the file.
unfoldable pub seek : PatchedStream → ℕ → PatchedStream
seek s n = record s { stream = record { bytes = s.stream.bytes; position = n }; pos = n }

unfoldable pub tell : PatchedStream → ℕ
tell s = s.pos
