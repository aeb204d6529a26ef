-- ===== src/Runtime/Refresh/Grows.antt =====
-- The state after `refresh_remote` (src/runtime.rs), on every outcome of the adapter's calls.
use rollforward.Prelude.{
  ◌≤◌, String, Bool, true, false, Bool-cases, ◌⊎◌, inl, inr, ◌≡◌, refl, ◌∙◌, ap, unwrap_or, List,
  [], ◌∷◌, arith, list_eq, nat_eq, pair_eq, list_ord, nat_ord, pair_ord,
}
use rollforward.Collections.BTreeMap
use rollforward.Collections.BTreeMap.Laws.{get-insert}
use rollforward.Collections.Keys.{is_some}
use rollforward.Errors.{ok}
use rollforward.Types.{Commit, CatalogCursor, CatalogDelta, CatalogScanRequest}
use rollforward.Runtime.State.{RuntimeState, record_commit}
use rollforward.Runtime.Action.{Adapters, Machine, ◌>>=◌, get_state, modify, call, continue}
use rollforward.Runtime.Action.Steps.{Keeps, Keeps-bind, Keeps-get_state, Keeps-call, Keeps-modify}
use rollforward.Runtime.Refresh.{
  Stream, cursor_map, count_events, missing_ids, record_all, merge_cursors, refresh_remote,
}
use rollforward.Runtime.Refresh.Cursors.{cursor_at, highest, le-highest, cursor_at-merge_cursors}

-- Whether a commit is recorded.
abbrev pub recorded : String → RuntimeState → Bool
recorded id state = is_some (BTreeMap.get id state.commits)

-- No cursor goes back, and no recorded commit is dropped.
abbrev Grows : RuntimeState → RuntimeState → Type 0
Grows old new =
    ((stream : Stream) → cursor_at stream old ≤ cursor_at stream new)
    × ((id : String) → recorded id old ≡ true → recorded id new ≡ true)

Grows_same : (s : RuntimeState) → Grows s s
Grows_same s = (λ stream. omega arith, λ id h. h)

Grows_then : (s t u : RuntimeState) → Grows s t → Grows t u → Grows s u
Grows_then s t u (c, k) (d, l) =
    (λ stream. omega (arith, c stream, d stream), λ id h. l id (k id h))

Grows-count_events : (delta : CatalogDelta) (s : RuntimeState) → Grows s (count_events delta s)
unfolding count_events
Grows-count_events delta s = (λ stream. omega arith, λ id h. h)

Grows-record_commit : (commit : Commit) (s : RuntimeState) → Grows s (record_commit commit s)
unfolding record_commit
Grows-record_commit commit s =
    (λ stream. omega arith, λ id h. ground (arith, get-insert commit.id id commit s.commits))

Grows-record_all : (commits : List Commit) (s : RuntimeState) → Grows s (record_all commits s)
unfolding record_all
Grows-record_all [] s = Grows_same s
Grows-record_all (commit ∷ commits) s =
    Grows_then s (record_commit commit s) (record_all commits (record_commit commit s))
      (Grows-record_commit commit s) (Grows-record_all commits (record_commit commit s))

Grows-merge_cursors :
    (reported : List CatalogCursor) (s : RuntimeState) → Grows s (merge_cursors reported s)
unfolding merge_cursors
Grows-merge_cursors reported s = (
  λ stream. omega (
    arith,
    cursor_at-merge_cursors stream reported s,
    le-highest stream (cursor_at stream s) reported,
  ),
  λ id h. h,
)

module _ {W : Type 0} (a : Adapters W) (scopes : List String) where
  Grows-refresh_remote : Keeps {W = W} Grows Grows_same Grows_then (refresh_remote a scopes)
  unfolding refresh_remote
  Grows-refresh_remote =
      let changes = Keeps-modify {W = W} Grows Grows_same Grows_then in
      Keeps-bind Grows Grows_same Grows_then _ _ (Keeps-get_state Grows Grows_same Grows_then)
        (λ state.
          Keeps-bind Grows Grows_same Grows_then _ _ (Keeps-call Grows Grows_same Grows_then _)
            (λ delta.
              Keeps-bind Grows Grows_same Grows_then _ _ (changes _ (Grows-count_events delta))
                (λ _.
                  Keeps-bind Grows Grows_same Grows_then _ _
                    (Keeps-call Grows Grows_same Grows_then _)
                    (λ commits.
                      Keeps-bind Grows Grows_same Grows_then _ _
                        (changes _ (Grows-record_all commits))
                        (λ _. changes _ (Grows-merge_cursors delta.cursors))))))

  kept_cases :
      (id : String) (old new : RuntimeState)
      → (recorded id old ≡ true → recorded id new ≡ true)
      → (recorded id old ≡ false) ⊎ (recorded id new ≡ true)
  kept_cases id old new h = elim (Bool-cases (recorded id old)) [
    | inl r ↦ inr (h r)
    | inr n ↦ inl n
  ]

  -- Whatever the remote answers, and whichever of its calls fails: a refresh takes no cursor back, and
  -- a commit is recorded after it, if it was before.
  pub refresh_remote-Grows :
      (m : Machine W) (stream : Stream) (id : String)
      → (cursor_at stream m.state ≤ cursor_at stream (refresh_remote a scopes m).0.state)
        × ((recorded id m.state ≡ false) ⊎ (recorded id (refresh_remote a scopes m).0.state ≡ true))
  refresh_remote-Grows m stream id =
      let (cursors, commits) = Grows-refresh_remote m in
      (cursors stream, kept_cases id m.state (refresh_remote a scopes m).0.state (commits id))

  request : RuntimeState → CatalogScanRequest
  request state = record { scopes = scopes; cursors = state.cursors }

  refreshed : CatalogDelta → List Commit → RuntimeState → RuntimeState
  refreshed delta commits state =
      merge_cursors delta.cursors (record_all commits (count_events delta state))

  refresh_remote-refreshed :
      (m : Machine W) (delta : CatalogDelta) (commits : List Commit) (w v : W)
      → a.scan_catalog (request m.state) m.world ≡ (w, ok delta)
      → a.load_commits (missing_ids m.state delta.events) w ≡ (v, ok commits)
      → refresh_remote a scopes m
        ≡ (record { state = refreshed delta commits m.state; world = v; run = m.run }, ok tt)
  unfolding refresh_remote request refreshed ◌>>=◌ continue get_state call modify
  refresh_remote-refreshed m delta commits w v scanned loaded = rw (scanned, loaded) refl

  cursors-record_all :
      (commits : List Commit) (s : RuntimeState) → (record_all commits s).cursors ≡ s.cursors
  unfolding record_all record_commit
  cursors-record_all [] s = refl
  cursors-record_all (commit ∷ commits) s = cursors-record_all commits (record_commit commit s)

  same_cursors :
      (delta : CatalogDelta) (commits : List Commit) (s : RuntimeState)
      → (record_all commits (count_events delta s)).cursors ≡ s.cursors
  unfolding count_events
  same_cursors delta commits s = cursors-record_all commits (count_events delta s)

  -- Where both calls of the remote succeed, the refresh does, and each stream's cursor is then the
  -- highest of the one before and those that the scan reported.
  pub refresh_remote-cursors :
      (m : Machine W) (delta : CatalogDelta) (commits : List Commit) (w v : W)
      → a.scan_catalog (record { scopes = scopes; cursors = m.state.cursors }) m.world
        ≡ (w, ok delta)
      → a.load_commits (missing_ids m.state delta.events) w ≡ (v, ok commits)
      → (stream : Stream)
      → ((refresh_remote a scopes m).1 ≡ ok tt)
        × (cursor_at stream (refresh_remote a scopes m).0.state
            ≡ highest stream (cursor_at stream m.state) delta.cursors)
  unfolding request refreshed
  refresh_remote-cursors m delta commits w v scanned loaded stream =
      let result = refresh_remote-refreshed m delta commits w v scanned loaded in
      let before = record_all commits (count_events delta m.state) in
      let same : before.cursors ≡ m.state.cursors = same_cursors delta commits m.state in
      (
        ap (λ r. r.1) result,
        ap (λ r. cursor_at stream r.0.state) result
            ∙ cursor_at-merge_cursors stream delta.cursors before
            ∙ ap
                (λ cursors.
                  highest stream (unwrap_or 0 (BTreeMap.get stream (cursor_map cursors)))
                    delta.cursors)
                same,
      )
