-- ===== src/Folder/Scan/Complete.antt =====
-- The events that `scan_catalog` (src/v2_remote.rs) takes from the segments.
use mathlib.Core.List.{Memᴰ, foldl}
use mathlib.Core.List.Memᴰ
use rollforward.Prelude.{
  ℕ, ◌≤◌, ◌<◌, max, String, Bool, true, false, not, ◌&&◌, ◌≡◌, refl, sym, ◌∙◌, ap, List, [], ◌∷◌,
  ◌++◌, arith, list_eq, nat_eq, list_ord, nat_ord, pair_ord, ltb, leb, if◌then◌else◌, filter,
  Bool-cases, inl, inr,
}
use rollforward.Collections.BTreeMap.{BTreeMap}
use rollforward.Collections.Sort.{sort_by, insert_by}
use rollforward.Types.{CatalogEvent, CatalogSnapshot}
use rollforward.Runtime.State.{in_scopes}
use rollforward.Runtime.Refresh.{Stream}
use rollforward.Folder.{CatalogSegment}
use rollforward.Folder.Scan.{
  Scan, counter_at, segment_events, take_segment, scan_all, event_before, delta_of_scan,
}

mem-filter :
    (q : CatalogEvent → Bool) (event : CatalogEvent) (l : List CatalogEvent)
    → Memᴰ event l
    → q event ≡ true
    → Memᴰ event (filter q l)
mem-filter q event [] m h = elim m [ ]
mem-filter q event (x ∷ l) (Memᴰ.head e) h =
    let here : q x ≡ true = ap q (sym e) ∙ h in rw here (Memᴰ.head e)
mem-filter q event (x ∷ l) (Memᴰ.tail m) h =
    let rest = mem-filter q event l m h in
    elim (q x) as (λ b. Memᴰ event (if b then x ∷ filter q l else filter q l)) [
      | true ↦ Memᴰ.tail rest
      | false ↦ rest
    ]

module _ (below : CatalogEvent → CatalogEvent → Bool) where
  mem-insert_by_self : (x : CatalogEvent) (l : List CatalogEvent) → Memᴰ x (insert_by below x l)
  unfolding insert_by
  mem-insert_by_self x [] = Memᴰ.head refl
  mem-insert_by_self x (y ∷ l) =
      let rest = mem-insert_by_self x l in
      elim (below y x) as (λ b. Memᴰ x (if b then y ∷ insert_by below x l else x ∷ y ∷ l)) [
        | true ↦ Memᴰ.tail rest
        | false ↦ Memᴰ.head refl
      ]

  mem-insert_by :
      (event x : CatalogEvent) (l : List CatalogEvent)
      → Memᴰ event l
      → Memᴰ event (insert_by below x l)
  unfolding insert_by
  mem-insert_by event x [] m = elim m [ ]
  mem-insert_by event x (y ∷ l) (Memᴰ.head e) =
      elim (below y x) as (λ b. Memᴰ event (if b then y ∷ insert_by below x l else x ∷ y ∷ l)) [
        | true ↦ Memᴰ.head e
        | false ↦ Memᴰ.tail (Memᴰ.head e)
      ]
  mem-insert_by event x (y ∷ l) (Memᴰ.tail m) =
      let rest = mem-insert_by event x l m in
      elim (below y x) as (λ b. Memᴰ event (if b then y ∷ insert_by below x l else x ∷ y ∷ l)) [
        | true ↦ Memᴰ.tail rest
        | false ↦ Memᴰ.tail (Memᴰ.tail m)
      ]

  mem-sort_by :
      (event : CatalogEvent) (l : List CatalogEvent) → Memᴰ event l → Memᴰ event (sort_by below l)
  unfolding sort_by
  mem-sort_by event [] m = elim m [ ]
  mem-sort_by event (x ∷ l) (Memᴰ.head e) = Memᴰ.cast e (mem-insert_by_self x (sort_by below l))
  mem-sort_by event (x ∷ l) (Memᴰ.tail m) =
      mem-insert_by event x (sort_by below l) (mem-sort_by event l m)

module _ (cursors : BTreeMap Stream ℕ) (scopes : List String) (event : CatalogEvent) where
  take_segment-covered :
      (scan : Scan) (segment : CatalogSegment)
      → (take_segment cursors scopes scan segment).covered ≡ scan.covered
  unfolding take_segment
  take_segment-covered scan segment = ground arith

  -- The counter above which a segment's events are new.
  bound : Scan → CatalogSegment → ℕ
  bound scan segment =
      max (counter_at cursors (segment.client_id, segment.scope_id))
        (counter_at scan.covered (segment.client_id, segment.scope_id))

  module _ (scan : Scan) (segment : CatalogSegment) where
    take_segment-taken :
        in_scopes scopes segment.scope_id ≡ true
        → leb segment.last_counter (bound scan segment) ≡ false
        → (take_segment cursors scopes scan segment).events
          ≡ scan.events ++ segment_events cursors scopes (bound scan segment) segment.events
    unfolding take_segment bound
    take_segment-taken h k = ground (arith, h, k)

    take_segment-left :
        in_scopes scopes segment.scope_id && not (leb segment.last_counter (bound scan segment))
          ≡ false
        → (take_segment cursors scopes scan segment).events ≡ scan.events
    unfolding take_segment bound
    take_segment-left h = ground (arith, h)

  -- What a segment adds stands behind what there was.
  take_segment-keeps :
      (scan : Scan) (segment : CatalogSegment)
      → Memᴰ event scan.events
      → Memᴰ event (take_segment cursors scopes scan segment).events
  take_segment-keeps scan segment m =
      elim (Bool-cases (
        in_scopes scopes segment.scope_id && not (leb segment.last_counter (bound scan segment)))) [
          | inl taken ↦
              let h : in_scopes scopes segment.scope_id ≡ true = ground (arith, taken) in
              let k : leb segment.last_counter (bound scan segment) ≡ false =
                ground (arith, taken) in
              rw (take_segment-taken scan segment h k) (
                Memᴰ.append_left (segment_events cursors scopes (bound scan segment) segment.events)
                  m)
          | inr left ↦ rw (take_segment-left scan segment left) m
        ]

  take_segment-adds :
      (scan : Scan) (segment : CatalogSegment)
      → Memᴰ event segment.events
      → in_scopes scopes segment.scope_id ≡ true
      → in_scopes scopes event.resource.scope_id ≡ true
      → event.counter ≤ segment.last_counter
      → counter_at cursors (segment.client_id, segment.scope_id) < event.counter
      → counter_at scan.covered (segment.client_id, segment.scope_id) < event.counter
      → Memᴰ event (take_segment cursors scopes scan segment).events
  unfolding segment_events bound
  take_segment-adds scan segment m hs he last unseen uncovered =
      let k : leb segment.last_counter (bound scan segment) ≡ false = ground arith in
      let new : ltb (bound scan segment) event.counter && in_scopes scopes event.resource.scope_id
          ≡ true =
        ground (arith, he) in
      rw (take_segment-taken scan segment hs k)
        (Memᴰ.append_right scan.events (mem-filter _ event segment.events m new))

  keeps_all :
      (segments : List CatalogSegment) (scan : Scan)
      → Memᴰ event scan.events
      → Memᴰ event (foldl (take_segment cursors scopes) scan segments).events
  keeps_all [] scan m = m
  keeps_all (segment ∷ segments) scan m =
      keeps_all segments (take_segment cursors scopes scan segment)
        (take_segment-keeps scan segment m)

  adds_all :
      (segments : List CatalogSegment) (scan : Scan) (segment : CatalogSegment)
      → Memᴰ segment segments
      → Memᴰ event segment.events
      → in_scopes scopes segment.scope_id ≡ true
      → in_scopes scopes event.resource.scope_id ≡ true
      → event.counter ≤ segment.last_counter
      → counter_at cursors (segment.client_id, segment.scope_id) < event.counter
      → counter_at scan.covered (segment.client_id, segment.scope_id) < event.counter
      → Memᴰ event (foldl (take_segment cursors scopes) scan segments).events
  adds_all [] scan segment among m hs he last unseen uncovered = elim among [ ]
  adds_all (s ∷ segments) scan segment (Memᴰ.head e) m hs he last unseen uncovered =
      let added = take_segment-adds scan segment m hs he last unseen uncovered in
      keeps_all segments (take_segment cursors scopes scan s) (rw e at added)
  adds_all (s ∷ segments) scan segment (Memᴰ.tail among) m hs he last unseen uncovered =
      adds_all segments (take_segment cursors scopes scan s) segment among m hs he last unseen
        (rw (take_segment-covered scan s) uncovered)

-- The counters up to which the snapshots of a scan stand in for segments.
abbrev pub covered_by : BTreeMap Stream ℕ → List String → List CatalogSnapshot → BTreeMap Stream ℕ
covered_by cursors scopes snapshots = (scan_all cursors scopes snapshots []).covered

-- A scan loses no event of the segments: one in the scopes asked for, above the caller's cursor of its
-- stream and above what the snapshots cover, is in the delta, if its segment's last counter is not
-- below its own.
pub scan_all-complete :
    (cursors : BTreeMap Stream ℕ) (scopes : List String) (snapshots : List CatalogSnapshot)
    (segments : List CatalogSegment) (segment : CatalogSegment) (event : CatalogEvent)
    → Memᴰ segment segments
    → Memᴰ event segment.events
    → in_scopes scopes segment.scope_id ≡ true
    → in_scopes scopes event.resource.scope_id ≡ true
    → event.counter ≤ segment.last_counter
    → counter_at cursors (segment.client_id, segment.scope_id) < event.counter
    → counter_at (covered_by cursors scopes snapshots) (segment.client_id, segment.scope_id)
      < event.counter
    → Memᴰ event (delta_of_scan (scan_all cursors scopes snapshots segments)).events
unfolding delta_of_scan scan_all
scan_all-complete cursors scopes snapshots segments segment event among m hs he last unseen
      uncovered =
    mem-sort_by event_before event _
      (adds_all cursors scopes event segments _ segment among m hs he last unseen uncovered)
