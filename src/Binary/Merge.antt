-- ===== src/Binary/Merge.antt =====
-- The three-way merge of manifests.
use rollforward.Prelude.{
  String, Bool, true, false, not, ◌&&◌, ◌≡◌, ◌≢◌, List, Option, none, some, arith, ◌==◌, nat_eq,
  list_eq, if◌then◌else◌,
}
use rollforward.Binary.{
  BinaryConflictPolicy, manual, keep_local, keep_remote, keep_both, BinaryMerge, unchanged,
  fast_forward, needs_resolution, merge_manifests,
}

-- The manifest that a merge results in, and whether the other side wants a copy.
abbrev pub merged : BinaryMerge → Option (List String)
merged (unchanged l) = some l
merged (fast_forward l) = some l
merged needs_resolution = none
merged (BinaryMerge.conflict l _) = some l

abbrev pub wants_copy : BinaryMerge → Bool
wants_copy (BinaryMerge.conflict _ copy) = copy
wants_copy _ = false

-- Both sides changed, and differently.
abbrev pub diverged : List String → List String → List String → Bool
diverged base local remote = not (local == base) && (not (remote == base) && not (local == remote))

-- The side that a policy keeps.
abbrev pub kept : BinaryConflictPolicy → List String → List String → Option (List String)
kept manual local remote = none
kept keep_local local remote = some local
kept keep_remote local remote = some remote
kept keep_both local remote = some local

abbrev pub keeps_both : BinaryConflictPolicy → Bool
keeps_both keep_both = true
keeps_both _ = false

-- The merge gives the changed side where one side changed, the common manifest where both agree,
-- and what the policy keeps where they diverged. A copy is wanted exactly for a divergence under
-- `KeepBoth`.
pub merge_manifests-merged :
    (base local remote : List String) (policy : BinaryConflictPolicy)
    → (merged (merge_manifests base local remote policy) ≡ (
        if diverged base local remote
        then kept policy local remote
        else some (if local == base then remote else local)))
      × (wants_copy (merge_manifests base local remote policy)
          ≡ (diverged base local remote && keeps_both policy))
unfolding merge_manifests
merge_manifests-merged base local remote policy = (ground arith, ground arith)

abbrev mirror : BinaryConflictPolicy → BinaryConflictPolicy
mirror manual = manual
mirror keep_local = keep_remote
mirror keep_remote = keep_local
mirror keep_both = keep_both

-- Two clients that merge the same pair from their own sides, under policies that name the same
-- side, get the same result. `KeepBoth`, which prefers the local side, is excepted.
merge_manifests-mirror :
    (base local remote : List String) (policy : BinaryConflictPolicy)
    → policy ≢ keep_both
    → merge_manifests base remote local (mirror policy) ≡ merge_manifests base local remote policy
unfolding merge_manifests
merge_manifests-mirror base local remote policy h = ground arith
