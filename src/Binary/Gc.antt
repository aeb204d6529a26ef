-- ===== src/Binary/Gc.antt =====
-- What garbage collection decides for a pack.
use mathlib.Core.List.{append_assoc, append-nil}
use native.Mathlib.Nat.{zero-add, add_assoc}
use rollforward.Prelude.{
  ℕ, ◌+◌, ◌%◌, ◌^◌, ◌<◌, String, Bool, true, false, not, ◌≡◌, ◌∙◌, List, [], ◌∷◌, ◌++◌, arith, leb,
  nat_eq, list_eq, if◌then◌else◌, contains, Bool-cases, inl, inr,
}
use rollforward.Binary.{
  PackedChunk, PackGc, keep, delete, keep_mixed, repack, add_u64, gc_verdict, gc_loop,
  classify_pack,
}
use rollforward.Binary.Float.{to_f64-eq_self}

-- The bytes of the chunks that are live, and of those that are not.
abbrev pub bytes_of : Bool → List PackedChunk → List String → ℕ
bytes_of b [] live = 0
bytes_of b (c ∷ chunks) live =
    let rest = bytes_of b chunks live in
    if (if contains live c.hash then b else not b) then c.length + rest else rest

abbrev pub live_hashes : List PackedChunk → List String → List String
live_hashes [] live = []
live_hashes (c ∷ chunks) live =
    let rest = live_hashes chunks live in if contains live c.hash then c.hash ∷ rest else rest

-- The policy in whole numbers: half of the bytes dead is enough to repack.
abbrev pub gc_policy : ℕ → ℕ → List String → PackGc
gc_policy live_bytes dead_bytes hashes =
    if leb dead_bytes 0
    then keep
    else if leb live_bytes 0
    then delete
    else if leb live_bytes dead_bytes
    then repack hashes
    else keep_mixed

gc_loop-gc_verdict :
    (chunks : List PackedChunk) (live : List String) (l d : ℕ) (hashes : List String)
    → l + d + bytes_of true chunks live + bytes_of false chunks live < 2 ^ 64
    → gc_loop chunks live l d hashes
      ≡ gc_verdict
          (l + bytes_of true chunks live)
          (d + bytes_of false chunks live)
          (hashes ++ live_hashes chunks live)
unfolding gc_loop
gc_loop-gc_verdict [] live l d hashes h =
    let e : l + 0 ≡ l = omega arith in let e' : d + 0 ≡ d = omega arith in rw (e, e', append-nil)
gc_loop-gc_verdict (c ∷ chunks) live l d hashes h = elim (Bool-cases (contains live c.hash)) [
  | inl kept ↦
      let h' : l + d + (c.length + bytes_of true chunks live) + bytes_of false chunks live
          < 2 ^ 64 =
        (rw kept at h) in
      let sum : add_u64 l c.length ≡ l + c.length = omega arith in
      let ih =
        gc_loop-gc_verdict chunks live (l + c.length) d (hashes ++ (c.hash ∷ [])) (omega arith) in
      rw (kept, sum, ih, add_assoc l c.length (bytes_of true chunks live)) (rw append_assoc)
  | inr dropped ↦
      let h' : l + d + bytes_of true chunks live + (c.length + bytes_of false chunks live)
          < 2 ^ 64 =
        (rw dropped at h) in
      let sum : add_u64 d c.length ≡ d + c.length = omega arith in
      let ih = gc_loop-gc_verdict chunks live l (d + c.length) hashes (omega arith) in
      rw (dropped, sum, ih) (rw (add_assoc d c.length (bytes_of false chunks live)))
]

gc_verdict-gc_policy :
    (l d : ℕ) (hashes : List String) → l + d < 2 ^ 53 → gc_verdict l d hashes ≡ gc_policy l d hashes
unfolding gc_verdict
gc_verdict-gc_policy l d hashes h =
    let total : (l + d) % 2 ^ 64 ≡ l + d = omega arith in
    rw (total, to_f64-eq_self (l + d) h, to_f64-eq_self d (omega arith)) (ground arith)

-- For a pack of less than 2 ^ 53 bytes the verdict is exact: kept if no byte is dead, deleted if
-- none is live, else repacked with the live chunks in pack order if at least half the bytes are
-- dead, and kept for now if fewer are.
pub classify_pack-gc_policy :
    (chunks : List PackedChunk) (live : List String)
    → bytes_of true chunks live + bytes_of false chunks live < 2 ^ 53
    → classify_pack chunks live
      ≡ gc_policy (bytes_of true chunks live) (bytes_of false chunks live) (live_hashes chunks live)
unfolding classify_pack
classify_pack-gc_policy chunks live h =
    let l = bytes_of true chunks live in
    let d = bytes_of false chunks live in
    gc_loop-gc_verdict chunks live 0 0 [] (omega arith)
    ∙ rw (zero-add l, zero-add d) (gc_verdict-gc_policy l d (live_hashes chunks live) h)
