-- ===== src/Binary/Sizes.antt =====
-- How large the packs of `build_packs` are.
use rollforward.Prelude.{
  ◌+◌, ◌≤◌, ◌<◌, String, Bytes, List, [], ◌∷◌, ◌++◌, arith, nat_eq, list_eq, length, length-append,
}
use rollforward.Binary.{
  ChunkInfo, PackedChunk, Pack, to_u32, target_pack_size, max_size, seal_pack, pack_loop,
  build_packs,
}

-- No chunk is longer than FastCDC's maximum.
abbrev pub AtMostMax : List (ChunkInfo × Bytes) → Type 0
AtMostMax [] = Unit
AtMostMax ((info, bytes) ∷ rest) = (length bytes ≤ max_size) × AtMostMax rest

abbrev pub IsBounded : List Pack → Type 0
IsBounded [] = Unit
IsBounded (pack ∷ packs) = (length pack.bytes < target_pack_size + max_size) × IsBounded packs

-- Every pack but the last has reached the target size, and the last is not empty.
abbrev pub IsFilled : List Pack → Type 0
IsFilled [] = Unit
IsFilled (pack ∷ []) = 0 < length pack.bytes
IsFilled (pack ∷ next ∷ packs) = (target_pack_size ≤ length pack.bytes) × IsFilled (next ∷ packs)

IsFilled-cons :
    (pack : Pack) (packs : List Pack)
    → target_pack_size ≤ length pack.bytes
    → IsFilled packs
    → IsFilled (pack ∷ packs)
IsFilled-cons pack [] h f = omega arith
IsFilled-cons pack (next ∷ packs) h f = (h, f)

module _ (blake3 : Bytes → String) where
  pack_loop-IsBounded :
      (l : List (ChunkInfo × Bytes)) (seen : List String) (buf : Bytes) (chunks : List PackedChunk)
      → AtMostMax l
      → length buf < target_pack_size
      → IsBounded (pack_loop blake3 l seen buf chunks)
  unfolding pack_loop seal_pack
  pack_loop-IsBounded [] seen [] chunks a h = tt
  pack_loop-IsBounded [] seen (b ∷ buf) chunks a h = (omega arith, tt)
  pack_loop-IsBounded ((info, bytes) ∷ rest) seen buf chunks (m, a) h = ground (
    arith,
    length-append buf bytes,
    pack_loop-IsBounded rest seen buf chunks a h,
    pack_loop-IsBounded rest (info.hash ∷ seen) [] [] a,
    pack_loop-IsBounded rest (info.hash ∷ seen) (buf ++ bytes)
        (chunks
          ++ (record { hash = info.hash; offset = length buf; length = to_u32 (length bytes) }
              ∷ []))
        a,
  )

  pack_loop-IsFilled :
      (l : List (ChunkInfo × Bytes)) (seen : List String) (buf : Bytes) (chunks : List PackedChunk)
      → IsFilled (pack_loop blake3 l seen buf chunks)
  unfolding pack_loop seal_pack
  pack_loop-IsFilled [] seen [] chunks = tt
  pack_loop-IsFilled [] seen (b ∷ buf) chunks = omega arith
  pack_loop-IsFilled ((info, bytes) ∷ rest) seen buf chunks =
      let packed : PackedChunk = record {
        hash = info.hash;
        offset = length buf;
        length = to_u32 (length bytes);
      } in
      let chunks' = chunks ++ (packed ∷ []) in
      ground (
        arith,
        pack_loop-IsFilled rest seen buf chunks,
        IsFilled-cons (seal_pack blake3 (buf ++ bytes) chunks')
            (pack_loop blake3 rest (info.hash ∷ seen) [] []),
        pack_loop-IsFilled rest (info.hash ∷ seen) [] [],
        pack_loop-IsFilled rest (info.hash ∷ seen) (buf ++ bytes) chunks',
      )

  -- If no chunk is longer than 64 KiB, every pack is shorter than the 4 MiB target and one such
  -- chunk. Every pack but the last has reached the target, and none is empty.
  pub build_packs_sizes :
      (new_chunks : List (ChunkInfo × Bytes))
      → AtMostMax new_chunks
      → IsBounded (build_packs blake3 new_chunks) × IsFilled (build_packs blake3 new_chunks)
  unfolding build_packs
  build_packs_sizes new_chunks a = (
    pack_loop-IsBounded new_chunks [] [] [] a (omega arith),
    pack_loop-IsFilled new_chunks [] [] [],
  )
