-- ===== src/Planner/Safety.antt =====
-- What `plan_resource` (src/core.rs) replaces: local content on a pull, remote content on a push.
use rollforward.Prelude.{ℤ, String, ◌≡◌, Option, none, some, arith}
use rollforward.Types.{
  ResourceKey, ReplicaState, BaselineState, RemoteResourceState, local_content_id,
  remote_content_id,
}
use rollforward.Foreign.{Hashing}
use rollforward.Planner.{plan_resource}
use rollforward.Planner.ThreeWay.{push, pull, verdict}

-- The content that the last acknowledgement recorded.
abbrev pub baseline_content_id : Option BaselineState → Option String
baseline_content_id (some (BaselineState.present content_id _ _)) = some content_id
baseline_content_id _ = none

module _ (f : Hashing) (now : ℤ) (key : ResourceKey) (local : ReplicaState)
    (baseline : Option BaselineState) (remote : RemoteResourceState) where
  -- A download or a local deletion replaces local content only where that content is the
  -- acknowledged one.
  pub pull_no_lost_edit :
      (c : String)
      → verdict (plan_resource f now key local baseline remote) ≡ pull
      → local_content_id local ≡ some c
      → baseline_content_id baseline ≡ some c
  unfolding plan_resource
  pull_no_lost_edit c p l = ground arith

  -- An upload or a published deletion replaces remote content only where that content is the
  -- acknowledged one.
  pub push_no_lost_edit :
      (c : String)
      → verdict (plan_resource f now key local baseline remote) ≡ push
      → remote_content_id remote ≡ some c
      → baseline_content_id baseline ≡ some c
  unfolding plan_resource
  push_no_lost_edit c p l = ground arith
