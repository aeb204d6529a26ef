-- ===== src/Binary.antt =====
-- Binary chunking, packs, manifest merge and pack collection (src/binary.rs), with `ChunkInfo` and
-- `BinaryConflictPolicy` of src/types.rs.
mod Float
pub mod Packs
pub mod Sizes
pub mod Chunks
pub mod Merge
pub mod Gc
mod Tests
use Float.{to_f64}
use rollforward.Prelude.{
  ℕ, ◌+◌, ◌-◌, ◌*◌, ◌%◌, ◌^◌, min, String, Bytes, Bool, true, false, not, List, [], ◌∷◌, ◌++◌, map,
  ltb, leb, ◌==◌, nat_eq, list_eq, if◌then◌else◌, length, take, drop, contains,
}
use rollforward.Errors.{Result, ok, err, ◌>>=◌}

pub record ChunkInfo : Type 0 where
  pub hash : String
  pub offset : ℕ
  pub length : ℕ

pub record PackedChunk : Type 0 where
  pub hash : String
  pub offset : ℕ
  pub length : ℕ

pub record PackIndex : Type 0 where
  pub pack_id : String
  pub chunks : List PackedChunk

-- A sealed pack: its id, its bytes and its index.
pub record Pack : Type 0 where
  pub pack_id : String
  pub bytes : Bytes
  pub index : PackIndex

abbrev pub min_size : ℕ
min_size = 4 * 1024

abbrev pub avg_size : ℕ
avg_size = 16 * 1024

abbrev pub max_size : ℕ
max_size = 64 * 1024

abbrev pub target_pack_size : ℕ
target_pack_size = 4 * 1024 * 1024

abbrev pub u32_max : ℕ
u32_max = 2 ^ 32 - 1

-- `u32::try_from(n).unwrap_or(u32::MAX)`.
abbrev pub to_u32 : ℕ → ℕ
to_u32 n = min n u32_max

-- `&bytes[offset..offset + length]`.
abbrev pub slice : ℕ → ℕ → Bytes → Bytes
slice offset len bytes = take len (drop offset bytes)

module _ (blake3 : Bytes → String) where
  unfoldable pub seal_pack : Bytes → List PackedChunk → Pack
  seal_pack buf chunks =
      let id = blake3 buf in
      record { pack_id = id; bytes = buf; index = record { pack_id = id; chunks = chunks } }

  -- The loop of `build_packs`, from its variables `seen`, `buf` and `chunks`. A pack is put out
  -- where the source pushes it.
  unfoldable pub pack_loop :
      List (ChunkInfo × Bytes) → List String → Bytes → List PackedChunk → List Pack
  pack_loop [] seen [] chunks = []
  pack_loop [] seen (b ∷ buf) chunks = seal_pack (b ∷ buf) chunks ∷ []
  pack_loop ((info, bytes) ∷ rest) seen buf chunks =
      let packed : PackedChunk = record {
        hash = info.hash;
        offset = length buf;
        length = to_u32 (length bytes);
      } in
      let chunks' = chunks ++ (packed ∷ []) in
      let buf' = buf ++ bytes in
      let skipped = pack_loop rest seen buf chunks in
      let sealed = seal_pack buf' chunks' ∷ pack_loop rest (info.hash ∷ seen) [] [] in
      let grown = pack_loop rest (info.hash ∷ seen) buf' chunks' in
      if contains seen info.hash
      then skipped
      else if leb target_pack_size (length buf')
      then sealed
      else grown

  unfoldable pub build_packs : List (ChunkInfo × Bytes) → List Pack
  unfolding pack_loop seal_pack
  build_packs new_chunks = pack_loop new_chunks [] [] []

  -- One chunk of the file.
  unfoldable pub chunk_at : Bytes → ℕ × ℕ → ChunkInfo × Bytes
  chunk_at bytes (offset, len) =
      let chunk = slice offset len bytes in
      (record { hash = blake3 chunk; offset = offset; length = to_u32 len }, chunk)

  -- `FastCDC::new(data, min, avg, max)` gives the offset and length of each chunk.
  unfoldable pub chunk_data : (Bytes → ℕ → ℕ → ℕ → List (ℕ × ℕ)) → Bytes → List (ChunkInfo × Bytes)
  unfolding chunk_at
  chunk_data fast_cdc bytes = map (chunk_at bytes) (fast_cdc bytes min_size avg_size max_size)

  unfoldable pub manifest : (Bytes → ℕ → ℕ → ℕ → List (ℕ × ℕ)) → Bytes → List String
  unfolding chunk_data
  manifest fast_cdc bytes = map (λ (info, _). info.hash) (chunk_data fast_cdc bytes)

  unfoldable pub verify_chunk : String → Bytes → Bool
  verify_chunk expected_hash bytes = blake3 bytes == expected_hash

unfoldable pub reassemble : {E : Type 0} → List String → (String → Result Bytes E) → Result Bytes E
reassemble [] fetch = ok []
reassemble (hash ∷ rest) fetch = do
  bytes ← fetch hash
  more ← reassemble rest fetch
  ok (bytes ++ more)

pub data BinaryConflictPolicy : Type 0 where
  manual keep_local keep_remote keep_both : BinaryConflictPolicy

pub data BinaryMerge : Type 0 where
  unchanged fast_forward : List String → BinaryMerge
  needs_resolution : BinaryMerge
  conflict : (resolved : List String) (needs_copy : Bool) → BinaryMerge

-- The four outcomes of a real divergence.
resolve_by : BinaryConflictPolicy → List String → List String → BinaryMerge
resolve_by manual local remote = needs_resolution
resolve_by keep_local local remote = BinaryMerge.conflict local false
resolve_by keep_remote local remote = BinaryMerge.conflict remote false
resolve_by keep_both local remote = BinaryMerge.conflict local true

unfoldable pub merge_manifests :
    List String → List String → List String → BinaryConflictPolicy → BinaryMerge
unfolding resolve_by
merge_manifests base local remote policy =
    let local_changed = not (local == base) in
    let remote_changed = not (remote == base) in
    if not local_changed
    then (if remote_changed then fast_forward remote else unchanged base)
    else if not remote_changed
    then fast_forward local
    else if local == remote
    then unchanged local
    else resolve_by policy local remote

pub data PackGc : Type 0 where
  keep delete keep_mixed : PackGc
  repack : (live : List String) → PackGc

-- `u64` addition.
abbrev pub add_u64 : ℕ → ℕ → ℕ
add_u64 a b = (a + b) % 2 ^ 64

-- The verdict after the loop. `dead as f64 >= total as f64 * 0.5`, doubled on both sides.
gc_verdict : ℕ → ℕ → List String → PackGc
unfolding to_f64
gc_verdict live_bytes dead_bytes live_hashes =
    let total = add_u64 live_bytes dead_bytes in
    if leb dead_bytes 0
    then keep
    else if leb total 0
    then keep
    else if leb live_bytes 0
    then delete
    else if leb (to_f64 total) (2 * to_f64 dead_bytes)
    then repack live_hashes
    else keep_mixed

-- The loop of `classify_pack`, from its variables.
gc_loop : List PackedChunk → List String → ℕ → ℕ → List String → PackGc
gc_loop [] live live_bytes dead_bytes live_hashes = gc_verdict live_bytes dead_bytes live_hashes
gc_loop (c ∷ chunks) live live_bytes dead_bytes live_hashes =
    let kept =
      gc_loop chunks live (add_u64 live_bytes c.length) dead_bytes (live_hashes ++ (c.hash ∷ [])) in
    let dropped = gc_loop chunks live live_bytes (add_u64 dead_bytes c.length) live_hashes in
    if contains live c.hash then kept else dropped

unfoldable pub classify_pack : List PackedChunk → List String → PackGc
unfolding gc_loop gc_verdict
classify_pack chunks live = gc_loop chunks live 0 0 []
