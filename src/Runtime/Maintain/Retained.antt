-- ===== src/Runtime/Maintain/Retained.antt =====
-- What `maintain` (src/runtime.rs) never gives up.
use mathlib.Core.List.{foldl}
use rollforward.Prelude.{
  ℕ, ◌<◌, String, Bool, true, false, not, ◌||◌, ◌≡◌, refl, Option, none, some, List, [], ◌∷◌, ◌++◌,
  ◌==◌, arith, list_eq, nat_eq, list_ord, nat_ord, leb, contains, length, filter, map, unwrap_or,
  ==→eq,
}
use rollforward.Collections.BTreeMap
use rollforward.Collections.BTreeMap.{BTreeMap}
use rollforward.Runtime.Additive.Maintaining.{Each}
use rollforward.Collections.BTreeSet
use rollforward.Runtime.Action.{Machine, ◌>>=◌, get_state, modify, return, continue}
use rollforward.Runtime.Action.Yields.{OnValue, Yields, Yields-bind, Yields-return, if-OnValue}
use rollforward.Runtime.Progress.{SyncRuntime}
use rollforward.Types.{encoded, ResourceKey, text, Commit, ResourceAck, key_eq, kind_eq}
use rollforward.Runtime.State.{RuntimeState, StoredCheckpoint, resource_commits}
use rollforward.Runtime.Maintain.{
  retained, newest, pinned, obsolete, active_clients, all_acknowledged, Maintenance, defer,
  drop_checkpoint, make_checkpoint, collect, reclaim, maintain_key, add_obsolete, is_conflicted,
  maintained_kind,
}

or_false : (a b : Bool) → (a || b) ≡ false → (a ≡ false) × (b ≡ false)
or_false a b h = ground (arith, h)

contains-append :
    (xs ys : List String) (id : String)
    → contains (xs ++ ys) id ≡ (contains xs id || contains ys id)
contains-append [] ys id = refl
contains-append (x ∷ xs) ys id = ground (arith, contains-append xs ys id)

contains-map-filter :
    (q : String → Bool) (id : String) (commits : List Commit)
    → contains (map (λ commit. commit.id) (filter (λ commit. not (q commit.id)) commits)) id ≡ true
    → q id ≡ false
contains-map-filter q id [] h = absurd (ground (arith, h))
contains-map-filter q id (commit ∷ commits) h =
    ground (arith, ==→eq commit.id id, contains-map-filter q id commits)

contains-map-member :
    (q : Commit → Bool) (id : String) (commits : List Commit)
    → contains (map (λ commit. commit.id) (filter q commits)) id ≡ true
    → contains (map (λ commit. commit.id) commits) id ≡ true
contains-map-member q id [] h = h
contains-map-member q id (commit ∷ commits) h = ground (arith, contains-map-member q id commits)

-- A predicate on every id of a list.
abbrev pub AllOf : (String → Type 0) → List String → Type 0
AllOf G [] = Unit
AllOf G (id ∷ ids) = G id × AllOf G ids

module _ (G : String → Type 0) where
  contains-AllOf :
      (ids : List String) → ((id : String) → contains ids id ≡ true → G id) → AllOf G ids
  contains-AllOf [] h = tt
  contains-AllOf (i ∷ ids) h =
      (h i (ground arith), contains-AllOf ids (λ id c. h id (ground (arith, c))))

  insert-AllOf :
      (id : String) (ids : List String) → G id → AllOf G ids → AllOf G (BTreeSet.insert id ids)
  unfolding BTreeSet.insert
  insert-AllOf id [] g h = (g, tt)
  insert-AllOf id (i ∷ ids) g (first, rest) = ground (arith, insert-AllOf id ids g rest)

  extend-AllOf :
      (ids s : List String)
      → AllOf G ids
      → AllOf G s
      → AllOf G (foldl (λ set id. BTreeSet.insert id set) s ids)
  extend-AllOf [] s h k = k
  extend-AllOf (id ∷ ids) s (g, h) k =
      extend-AllOf ids (BTreeSet.insert id s) h (insert-AllOf id s g k)

module _ (P : List String → Type 0) where
  insert-Each :
      (scope : String) (ids : List String) (m : BTreeMap String (List String))
      → P ids
      → Each P m
      → Each P (BTreeMap.insert scope ids m)
  unfolding BTreeMap.insert
  insert-Each scope ids [] h k = (h, tt)
  insert-Each scope ids ((j, js) ∷ m) h (first, rest) =
      ground (arith, insert-Each scope ids m h rest)

  get-Each :
      (scope : String) (m : BTreeMap String (List String))
      → P []
      → Each P m
      → P (unwrap_or [] (BTreeMap.get scope m))
  unfolding BTreeMap.get
  get-Each scope [] empty h = empty
  get-Each scope ((j, js) ∷ m) empty (first, rest) = ground (arith, get-Each scope m empty rest)

-- What has to hold for a commit of a resource to be given up: it is one of the resource, which has more commits than are
-- to be retained, one head, no conflict and no running operation, and is no text; its checkpoint is
-- acknowledged by every active client; and the commit is neither among the newest, nor the checkpoint,
-- nor pinned.
pub record Reclaimable (n : ℕ) (acks : List ResourceAck) (client_id : String) (state : RuntimeState)
    (key : ResourceKey) (id : String) : Type 0 where
  pub checkpoint : StoredCheckpoint
  pub member : contains (map (λ commit. commit.id) (resource_commits state key)) id ≡ true
  pub more : n < length (resource_commits state key)
  pub settled : is_conflicted state key ≡ false
  pub no_text : (maintained_kind state key == text) ≡ false
  pub stored : BTreeMap.get (encoded key) state.checkpoints ≡ some checkpoint
  pub acknowledged :
      all_acknowledged state acks key checkpoint.commit_id (active_clients state key client_id)
      ≡ true
  pub old : contains (newest n state key) id ≡ false
  pub other : (checkpoint.commit_id == id) ≡ false
  pub unpinned : contains (pinned acks key) id ≡ false

-- Of an obsolete commit, what is not retained.
obsolete-old :
    (n : ℕ) (state : RuntimeState) (acks : List ResourceAck) (key : ResourceKey)
    (checkpoint id : String)
    → contains (obsolete n state acks key checkpoint) id ≡ true
    → (contains (map (λ commit. commit.id) (resource_commits state key)) id ≡ true)
      × (contains (newest n state key) id ≡ false)
      × ((checkpoint == id) ≡ false)
      × (contains (pinned acks key) id ≡ false)
unfolding obsolete retained
obsolete-old n state acks key checkpoint id h =
    let kept = newest n state key ++ (checkpoint ∷ pinned acks key) in
    let dropped : contains kept id ≡ false =
      contains-map-filter (contains kept) id (resource_commits state key) h in
    let split = contains-append (newest n state key) (checkpoint ∷ pinned acks key) id in
    let member =
      contains-map-member (λ commit. not (contains kept commit.id)) id (resource_commits state key)
        h in
    let kept_out : (contains (newest n state key) id ≡ false)
        × ((checkpoint == id) ≡ false)
        × (contains (pinned acks key) id ≡ false) =
      ground (arith, dropped, split) in
    (member, kept_out.0, kept_out.1, kept_out.2)

-- Every id that is marked as obsolete is one of these.
abbrev pub Marked : (String → Type 0) → Maintenance → Type 0
Marked G acc = Each (AllOf G) acc.obsolete_by_scope

module _ {W : Type 0} (r : SyncRuntime W) (n : ℕ) (acks : List ResourceAck) (key : ResourceKey)
    (acc : Maintenance) (G : String → Type 0) (held : Marked G acc) where
  deferred : Marked G (defer acc)
  unfolding defer
  deferred = held

  Yields-make_checkpoint : Yields (Marked G) (make_checkpoint r key acc)
  unfolding make_checkpoint
  Yields-make_checkpoint = search (Yields-bind, Yields-return, held) depth 20

  Yields-drop : Yields {W = W} (Marked G) (modify (drop_checkpoint key) >>= (λ _. return acc))
  Yields-drop = search (Yields-bind, Yields-return, held)

  added : (scope : String) (ids : List String) → AllOf G ids → Marked G (add_obsolete scope ids acc)
  unfolding add_obsolete
  added scope ids h =
      let before = unwrap_or [] (BTreeMap.get scope acc.obsolete_by_scope) in
      let kept : AllOf G before = get-Each (AllOf G) scope acc.obsolete_by_scope tt held in
      insert-Each (AllOf G) scope _ acc.obsolete_by_scope (extend-AllOf G ids before h kept) held

  Yields-collect : (ids : List String) → AllOf G ids → Yields (Marked G) (collect r key ids acc)
  unfolding collect
  Yields-collect [] h = Yields-drop
  Yields-collect (i ∷ ids) h = Yields-return _ (added key.scope_id (i ∷ ids) h)

  module _ (m : Machine W)
      (may : (id : String) → Reclaimable n acks r.client_id m.state key id → G id) where
    reclaim-Marked :
        n < length (resource_commits m.state key)
        → is_conflicted m.state key ≡ false
        → (maintained_kind m.state key == text) ≡ false
        → (checkpoint : Option StoredCheckpoint)
        → BTreeMap.get (encoded key) m.state.checkpoints ≡ checkpoint
        → OnValue (Marked G) (reclaim r n acks key checkpoint acc m)
    unfolding reclaim get_state ◌>>=◌ continue
    reclaim-Marked more settled no_text none stored = Yields-make_checkpoint.at m
    reclaim-Marked more settled no_text (some checkpoint) stored =
        let id = checkpoint.commit_id in
        if-OnValue (Marked G)
          (all_acknowledged m.state acks key id (active_clients m.state key r.client_id)) _ _ m
          (λ acknowledged.
            (Yields-collect (obsolete n m.state acks key id) (
                contains-AllOf G (obsolete n m.state acks key id) (λ i h.
                  let (member, old, other, unpinned) = obsolete-old n m.state acks key id i h in
                  may i (record {
                    checkpoint = checkpoint;
                    member = member;
                    more = more;
                    settled = settled;
                    no_text = no_text;
                    stored = stored;
                    acknowledged = acknowledged;
                    old = old;
                    other = other;
                    unpinned = unpinned;
                  })))).at
              m)
          (λ _. (Yields-return {W = W} _ deferred).at m)

    -- The body of the loop marks only commits that may be given up.
    pub maintain_key-Marked : OnValue (Marked G) (maintain_key r n acks key acc m)
    unfolding maintain_key get_state ◌>>=◌ continue
    maintain_key-Marked =
        if-OnValue (Marked G) (leb (length (resource_commits m.state key)) n) _ _ m
          (λ _. Yields-drop.at m)
          (λ more.
            if-OnValue (Marked G)
              (is_conflicted m.state key || (maintained_kind m.state key == text)) _ _ m
              (λ _. (Yields-return {W = W} _ deferred).at m)
              (λ clear.
                let (settled, no_text) = or_false _ _ clear in
                reclaim-Marked (ground (arith, more)) settled no_text
                  (BTreeMap.get (encoded key) m.state.checkpoints) refl))
