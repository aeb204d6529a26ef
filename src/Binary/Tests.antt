-- ===== src/Binary/Tests.antt =====
-- Instances of the theorems on chunks, packs, merges and collection.
use rollforward.Prelude.{
  ℕ, ◌+◌, ◌≤◌, String, Bytes, true, ◌≡◌, refl, some, List, [], ◌∷◌, arith, length, nat_eq, list_eq,
}
use rollforward.Errors.{Result, ok}
use rollforward.Binary.{
  ChunkInfo, PackedChunk, chunk_data, manifest, reassemble, build_packs, keep_both, merge_manifests,
  classify_pack, repack,
}
use rollforward.Binary.Packs.{unpack, first_occurrences, unpack-build_packs}
use rollforward.Binary.Sizes.{IsBounded, IsFilled, build_packs_sizes}
use rollforward.Binary.Chunks.{Tiles, IsChunker, reassemble-manifest}
use rollforward.Binary.Merge.{merged, wants_copy, merge_manifests-merged}
use rollforward.Binary.Gc.{classify_pack-gc_policy}

-- A digest that is easy to follow: the bytes themselves.
abbrev digest : Bytes → String
digest bytes = bytes

-- A chunker that cuts off one byte at a time.
cuts_from : ℕ → Bytes → List (ℕ × ℕ)
cuts_from pos [] = []
cuts_from pos (b ∷ bytes) = (pos, 1) ∷ cuts_from (pos + 1) bytes

bytewise : Bytes → ℕ → ℕ → ℕ → List (ℕ × ℕ)
unfolding cuts_from
bytewise bytes _ _ _ = cuts_from 0 bytes

cuts_from-Tiles :
    (whole : Bytes) (pos : ℕ) (bytes : Bytes)
    → length whole ≤ pos + length bytes
    → Tiles whole pos (cuts_from pos bytes)
unfolding cuts_from
cuts_from-Tiles whole pos [] h = omega arith
cuts_from-Tiles whole pos (b ∷ bytes) h =
    (refl, cuts_from-Tiles whole (pos + 1) bytes (omega arith))

bytewise-IsChunker : IsChunker bytewise
unfolding bytewise
bytewise-IsChunker bytes = cuts_from-Tiles bytes 0 bytes (omega arith)

abbrev serve : String → Result Bytes String
serve hash = ok hash

reassemble-manifest_example :
    reassemble (manifest digest bytewise (5 ∷ 6 ∷ 5 ∷ [])) serve ≡ ok (5 ∷ 6 ∷ 5 ∷ [])
unfolding chunk_data bytewise
reassemble-manifest_example =
    reassemble-manifest digest bytewise serve (5 ∷ 6 ∷ 5 ∷ []) bytewise-IsChunker
      (refl, (refl, (refl, tt)))

abbrev info : String → ℕ → ChunkInfo
info hash len = record { hash = hash; offset = 0; length = len }

abbrev sample_chunks : List (ChunkInfo × Bytes)
sample_chunks =
    (info (1 ∷ []) 2, 7 ∷ 8 ∷ []) ∷ (info (2 ∷ []) 1, 9 ∷ []) ∷ (info (1 ∷ []) 1, 4 ∷ []) ∷ []

unpack-build_packs_example :
    unpack (build_packs digest sample_chunks) ≡ first_occurrences sample_chunks []
unpack-build_packs_example = unpack-build_packs digest sample_chunks (omega arith)

first_occurrences_lem :
    first_occurrences sample_chunks [] ≡ (1 ∷ [], 7 ∷ 8 ∷ []) ∷ (2 ∷ [], 9 ∷ []) ∷ []
unfolding list_eq nat_eq
first_occurrences_lem = refl

build_packs_sizes_example :
    IsBounded (build_packs digest sample_chunks) × IsFilled (build_packs digest sample_chunks)
build_packs_sizes_example = build_packs_sizes digest sample_chunks (omega arith)

abbrev base : List String
base = (1 ∷ []) ∷ []

abbrev mine : List String
mine = (2 ∷ []) ∷ []

abbrev theirs : List String
theirs = (3 ∷ []) ∷ []

merge_manifests-merged_example :
    (merged (merge_manifests base mine theirs keep_both) ≡ some mine)
    × (wants_copy (merge_manifests base mine theirs keep_both) ≡ true)
unfolding list_eq nat_eq
merge_manifests-merged_example = merge_manifests-merged base mine theirs keep_both

abbrev pack_of : List PackedChunk
pack_of =
    record { hash = 1 ∷ []; offset = 0; length = 100 }
    ∷ record { hash = 2 ∷ []; offset = 100; length = 100 }
    ∷ []

-- A pack exactly at the threshold is repacked.
classify_pack-gc_policy_example : classify_pack pack_of ((1 ∷ []) ∷ []) ≡ repack ((1 ∷ []) ∷ [])
unfolding list_eq nat_eq
classify_pack-gc_policy_example = classify_pack-gc_policy pack_of ((1 ∷ []) ∷ []) (omega arith)
