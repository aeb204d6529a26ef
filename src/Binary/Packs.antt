-- ===== src/Binary/Packs.antt =====
-- What the packs that `build_packs` makes hold.
use mathlib.Core.List.{append_assoc}
use rollforward.Prelude.{
  ℕ, ◌+◌, ◌≤◌, ◌<◌, String, Bytes, ◌≡◌, refl, List, [], ◌∷◌, ◌++◌, arith, leb, nat_eq, list_eq,
  if◌then◌else◌, length, length-append, drop, take-append, drop-append, take-length,
  drop-length_append, length-drop, contains, Bool-cases, inl, inr,
}
use rollforward.Binary.{
  ChunkInfo, PackedChunk, Pack, slice, to_u32, u32_max, target_pack_size, seal_pack, pack_loop,
  build_packs,
}

-- The chunks of a list of packs, read back by range.
abbrev pub read_chunks : Bytes → List PackedChunk → List (String × Bytes)
read_chunks buf [] = []
read_chunks buf (c ∷ chunks) = (c.hash, slice c.offset c.length buf) ∷ read_chunks buf chunks

abbrev pub unpack : List Pack → List (String × Bytes)
unpack [] = []
unpack (pack ∷ packs) = read_chunks pack.bytes pack.index.chunks ++ unpack packs

-- The chunks with their hashes, each hash once: where it comes first.
abbrev pub first_occurrences : List (ChunkInfo × Bytes) → List String → List (String × Bytes)
first_occurrences [] seen = []
first_occurrences ((info, bytes) ∷ rest) seen =
    let old = first_occurrences rest seen in
    let new = first_occurrences rest (info.hash ∷ seen) in
    if contains seen info.hash then old else (info.hash, bytes) ∷ new

-- Every chunk lies within the pack.
abbrev Fits : Bytes → List PackedChunk → Type 0
Fits buf [] = Unit
Fits buf (c ∷ chunks) = (c.offset + c.length ≤ length buf) × Fits buf chunks

-- No chunk is empty, and each length is a `u32`.
abbrev pub Sizable : List (ChunkInfo × Bytes) → Type 0
Sizable [] = Unit
Sizable ((info, bytes) ∷ rest) = (0 < length bytes) × (length bytes ≤ u32_max) × Sizable rest

Fits-append :
    (buf more : Bytes) (chunks : List PackedChunk) → Fits buf chunks → Fits (buf ++ more) chunks
Fits-append buf more [] h = tt
Fits-append buf more (c ∷ chunks) (h, hs) =
    (omega (arith, length-append buf more), Fits-append buf more chunks hs)

Fits-push :
    (buf : Bytes) (chunks : List PackedChunk) (c : PackedChunk)
    → Fits buf chunks
    → c.offset + c.length ≤ length buf
    → Fits buf (chunks ++ (c ∷ []))
Fits-push buf [] c h b = (b, tt)
Fits-push buf (d ∷ chunks) c (h, hs) b = (h, Fits-push buf chunks c hs b)

slice-append :
    (buf more : Bytes) (o n : ℕ) → o + n ≤ length buf → slice o n (buf ++ more) ≡ slice o n buf
slice-append buf more o n h =
    rw (drop-append buf more o (omega arith))
      (take-append (drop o buf) more n (omega (arith, length-drop o buf)))

read_chunks-append :
    (buf more : Bytes) (chunks : List PackedChunk)
    → Fits buf chunks
    → read_chunks (buf ++ more) chunks ≡ read_chunks buf chunks
read_chunks-append buf more [] h = refl
read_chunks-append buf more (c ∷ chunks) (h, hs) =
    rw (slice-append buf more c.offset c.length h, read_chunks-append buf more chunks hs)

read_chunks-push :
    (buf : Bytes) (chunks : List PackedChunk) (c : PackedChunk)
    → read_chunks buf (chunks ++ (c ∷ []))
      ≡ read_chunks buf chunks ++ ((c.hash, slice c.offset c.length buf) ∷ [])
read_chunks-push buf [] c = refl
read_chunks-push buf (d ∷ chunks) c = rw (read_chunks-push buf chunks c)

slice_end :
    (buf bytes : Bytes)
    → length bytes ≤ u32_max
    → slice (length buf) (to_u32 (length bytes)) (buf ++ bytes) ≡ bytes
slice_end buf bytes h =
    let e : to_u32 (length bytes) ≡ length bytes = omega arith in
    rw (e, drop-length_append buf bytes) (take-length bytes)

abbrev packed : ChunkInfo → Bytes → Bytes → PackedChunk
packed info buf bytes = record {
  hash = info.hash;
  offset = length buf;
  length = to_u32 (length bytes);
}

read_chunks-packed :
    (info : ChunkInfo) (buf bytes : Bytes) (chunks : List PackedChunk)
    → length bytes ≤ u32_max
    → Fits buf chunks
    → read_chunks (buf ++ bytes) (chunks ++ (packed info buf bytes ∷ []))
      ≡ read_chunks buf chunks ++ ((info.hash, bytes) ∷ [])
read_chunks-packed info buf bytes chunks h fits = rw (
  read_chunks-push (buf ++ bytes) chunks (packed info buf bytes),
  slice_end buf bytes h,
  read_chunks-append buf bytes chunks fits,
)

Fits-packed :
    (info : ChunkInfo) (buf bytes : Bytes) (chunks : List PackedChunk)
    → Fits buf chunks
    → Fits (buf ++ bytes) (chunks ++ (packed info buf bytes ∷ []))
Fits-packed info buf bytes chunks fits =
    Fits-push (buf ++ bytes) chunks (packed info buf bytes) (Fits-append buf bytes chunks fits)
      (omega (arith, length-append buf bytes))

module _ (blake3 : Bytes → String) where
  unpack-pack_loop :
      (l : List (ChunkInfo × Bytes)) (seen : List String) (buf : Bytes) (chunks : List PackedChunk)
      → Sizable l
      → Fits buf chunks
      → (length buf ≡ 0 → chunks ≡ [])
      → unpack (pack_loop blake3 l seen buf chunks)
        ≡ read_chunks buf chunks ++ first_occurrences l seen
  unfolding pack_loop seal_pack
  unpack-pack_loop [] seen [] chunks s f e = rw (e refl)
  unpack-pack_loop [] seen (b ∷ buf) chunks s f e = refl
  unpack-pack_loop ((info, bytes) ∷ rest) seen buf chunks (pos, small, s) f e =
      elim (Bool-cases (contains seen info.hash)) [
        | inl old ↦ rw old (unpack-pack_loop rest seen buf chunks s f e)
        | inr new ↦
            let more = read_chunks-packed info buf bytes chunks small f in
            elim (Bool-cases (leb target_pack_size (length (buf ++ bytes)))) [
              | inl full ↦
                  rw
                    (
                      new,
                      full,
                      more,
                      unpack-pack_loop rest (info.hash ∷ seen) [] [] s tt (λ _. refl),
                    )
                    (rw append_assoc)
              | inr room ↦
                  rw
                    (
                      new,
                      room,
                      unpack-pack_loop rest (info.hash ∷ seen) (buf ++ bytes)
                          (chunks ++ (packed info buf bytes ∷ [])) s
                          (Fits-packed info buf bytes chunks f)
                          (λ z. absurd (omega (arith, length-append buf bytes))),
                      more,
                    )
                    (rw append_assoc)
            ]
      ]

  -- The packs hold exactly the chunks that were given, in order and each hash once: reading every
  -- indexed range of every pack gives each distinct hash with the bytes of its first occurrence.
  -- The chunks are assumed non-empty and shorter than 4 GiB, as FastCDC makes them.
  pub unpack-build_packs :
      (new_chunks : List (ChunkInfo × Bytes))
      → Sizable new_chunks
      → unpack (build_packs blake3 new_chunks) ≡ first_occurrences new_chunks []
  unfolding build_packs
  unpack-build_packs new_chunks s = unpack-pack_loop new_chunks [] [] [] s tt (λ _. refl)

  -- Every pack is addressed by its content, and its index names that address.
  abbrev pub Addressed : List Pack → Type 0
  Addressed [] = Unit
  Addressed (pack ∷ packs) =
      (pack.pack_id ≡ blake3 pack.bytes) × (pack.index.pack_id ≡ pack.pack_id) × Addressed packs

  pack_loop-Addressed :
      (l : List (ChunkInfo × Bytes)) (seen : List String) (buf : Bytes) (chunks : List PackedChunk)
      → Addressed (pack_loop blake3 l seen buf chunks)
  unfolding pack_loop seal_pack
  pack_loop-Addressed [] seen [] chunks = tt
  pack_loop-Addressed [] seen (b ∷ buf) chunks = (refl, refl, tt)
  pack_loop-Addressed ((info, bytes) ∷ rest) seen buf chunks = ground (
    arith,
    pack_loop-Addressed rest seen buf chunks,
    pack_loop-Addressed rest (info.hash ∷ seen) [] [],
    pack_loop-Addressed rest (info.hash ∷ seen) (buf ++ bytes)
        (chunks ++ (packed info buf bytes ∷ [])),
  )
