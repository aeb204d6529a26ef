-- ===== src/Binary/Chunks.antt =====
-- Chunking and reassembly.
use rollforward.Prelude.{
  ℕ, zero, suc, ◌+◌, ◌≤◌, String, Bytes, ◌≡◌, refl, List, [], ◌∷◌, map, arith, length, drop,
  take-append-drop, drop-drop,
}
use rollforward.Errors.{Result, ok}
use rollforward.Binary.{
  ChunkInfo, min_size, avg_size, max_size, chunk_at, chunk_data, manifest, reassemble,
}

-- The chunks follow one another from `pos` to the end of the file.
abbrev pub Tiles : Bytes → ℕ → List (ℕ × ℕ) → Type 0
Tiles bytes pos [] = length bytes ≤ pos
Tiles bytes pos ((offset, len) ∷ cuts) = (offset ≡ pos) × Tiles bytes (pos + len) cuts

-- What FastCDC promises of its cuts.
abbrev pub IsChunker : (Bytes → ℕ → ℕ → ℕ → List (ℕ × ℕ)) → Type 0
IsChunker fast_cdc = (bytes : Bytes) → Tiles bytes 0 (fast_cdc bytes min_size avg_size max_size)

-- The fetcher has each chunk's bytes under its hash.
abbrev pub Serves : {E : Type 0} → (String → Result Bytes E) → List (ChunkInfo × Bytes) → Type 0
Serves fetch [] = Unit
Serves fetch ((info, bytes) ∷ chunks) = (fetch info.hash ≡ ok bytes) × Serves fetch chunks

drop_all : (pos : ℕ) (bytes : Bytes) → length bytes ≤ pos → drop pos bytes ≡ []
drop_all zero [] h = refl
drop_all zero (b ∷ bytes) h = absurd (omega arith)
drop_all (suc pos) [] h = refl
drop_all (suc pos) (b ∷ bytes) h = drop_all pos bytes (omega arith)

module _ {E : Type 0} (blake3 : Bytes → String) (fetch : String → Result Bytes E)
    (bytes : Bytes) where
  reassemble-cuts :
      (pos : ℕ) (cuts : List (ℕ × ℕ))
      → Tiles bytes pos cuts
      → Serves fetch (map (chunk_at blake3 bytes) cuts)
      → reassemble (map (λ (info, _). info.hash) (map (chunk_at blake3 bytes) cuts)) fetch
        ≡ ok (drop pos bytes)
  unfolding reassemble chunk_at
  reassemble-cuts pos [] t s = rw (drop_all pos bytes t)
  reassemble-cuts pos ((offset, len) ∷ cuts) (e, t) (f, s) =
      let f' = rw e at f in
      rw (e, f', reassemble-cuts (pos + len) cuts t s)
        (rw (← drop-drop pos len bytes, take-append-drop))

-- A file that is chunked comes back whole: over a chunker whose cuts cover the file in order, a
-- fetcher that returns each chunk's bytes for its hash makes `reassemble` of the manifest succeed
-- with the bytes of the file.
pub reassemble-manifest :
    {E : Type 0} (blake3 : Bytes → String) (fast_cdc : Bytes → ℕ → ℕ → ℕ → List (ℕ × ℕ))
    (fetch : String → Result Bytes E) (bytes : Bytes)
    → IsChunker fast_cdc
    → Serves fetch (chunk_data blake3 fast_cdc bytes)
    → reassemble (manifest blake3 fast_cdc bytes) fetch ≡ ok bytes
unfolding manifest
reassemble-manifest blake3 fast_cdc fetch bytes c s =
    reassemble-cuts blake3 fetch bytes 0 _ (c bytes) s
