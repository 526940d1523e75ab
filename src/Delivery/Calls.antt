-- ===== src/Delivery/Calls.antt =====
-- What a call of the offset manager does to the entry of each partition.
use raider_worker.OffsetManager.Partition.{track_state, mark_complete}
use raider_worker.Consumer.Dispatch.{place}
use raider_worker.Event.Types.{RawMessage}
use raider_worker.OffsetManager.Manager.{PartitionKey, Manager, key_eq}
use raider_worker.Base.{
  ==_refl, Bool-cases, List, bool_eq, false, if◌then◌else◌, inl, inr, int_eq, list_eq, lookup,
  max_int64, nat_eq, refl, some, unit_eq, ℕ, ℤ, ◌+◌, ◌<ℤ◌, ◌==◌, ◌∷◌, ◌≡◌, arith, eq_of_==, subst,
  sym,
}
use raider_worker.OffsetManager.Manager as Offsets
use raider_worker.Delivery.Worker.{Follows, offsets_at}
use raider_worker.Delivery.Outstanding.{hit}
use raider_worker.Delivery.Ledger.{Entry, Entry-same}
use raider_worker.Delivery.Entries.{one_at, track-Entry, complete-Entry}
use raider_worker.OffsetManager.Refinement.{call, local, lookup-call, tracks, completes, or_new}

hit_here :
    (k : PartitionKey) (o : ℤ) (raw : RawMessage)
    → place raw ≡ k
    → hit k o raw ≡ one_at raw.offset o
unfolding hit
hit_here k o raw h = rw (← h, ==_refl (place raw)) refl

hit_apart :
    (k : PartitionKey) (o : ℤ) (raw : RawMessage) → (place raw == k) ≡ false → hit k o raw ≡ 0
unfolding hit
hit_apart k o raw h = rw h refl

lookup-track :
    (j k : PartitionKey) (o epoch : ℤ) (m : Manager)
    → lookup k (Offsets.track j o epoch m).partitions ≡ (
        if j == k
        then some (track_state o epoch (or_new (lookup j m.partitions)))
        else lookup k m.partitions)
unfolding call local
lookup-track j k o epoch m = lookup-call j k (tracks o epoch) m

lookup-complete :
    (j k : PartitionKey) (o : ℤ) (m : Manager)
    → lookup k (Offsets.complete j o m).partitions ≡ (
        if j == k
        then some (mark_complete o (or_new (lookup j m.partitions)))
        else lookup k m.partitions)
unfolding call local
lookup-complete j k o m = lookup-call j k (completes o) m

module _ (m : Manager) (raw : RawMessage) where
  track_here :
      (fetched : List RawMessage) (epoch : ℤ) (copies : ℤ → ℕ)
      → Follows (offsets_at (place raw) fetched) raw.offset
      → raw.offset <ℤ max_int64
      → Entry (lookup (place raw) m.partitions) (offsets_at (place raw) fetched) copies
      → Entry
          (lookup (place raw) (Offsets.track (place raw) raw.offset epoch m).partitions)
          (offsets_at (place raw) (raw ∷ fetched))
          (λ o. hit (place raw) o raw + copies o)
  unfolding offsets_at
  track_here fetched epoch copies f high e =
      rw (lookup-track (place raw) (place raw) raw.offset epoch m, ==_refl (place raw))
        (Entry-same _ _ (λ o. rw (hit_here (place raw) o raw refl))
          (track-Entry raw.offset epoch e f high))

  complete_here :
      (fetched : List ℤ) (copies : ℤ → ℕ)
      → Entry (lookup (place raw) m.partitions) fetched (λ o. hit (place raw) o raw + copies o)
      → Entry
          (lookup (place raw) (Offsets.complete (place raw) raw.offset m).partitions)
          fetched
          copies
  complete_here fetched copies e =
      rw (lookup-complete (place raw) (place raw) raw.offset m, ==_refl (place raw))
        (complete-Entry raw.offset (Entry-same _ _ (λ o. rw (hit_here (place raw) o raw refl)) e))

  pub track_at :
      (k : PartitionKey) (fetched : List RawMessage) (epoch : ℤ) (copies : ℤ → ℕ)
      → Follows (offsets_at (place raw) fetched) raw.offset
      → raw.offset <ℤ max_int64
      → Entry (lookup k m.partitions) (offsets_at k fetched) copies
      → Entry
          (lookup k (Offsets.track (place raw) raw.offset epoch m).partitions)
          (offsets_at k (raw ∷ fetched))
          (λ o. hit k o raw + copies o)
  unfolding offsets_at
  track_at k fetched epoch copies f high e = elim (Bool-cases (place raw == k)) [
    | inl same ↦
        let is = eq_of_== (place raw) k same in
        subst
          (λ j.
            Entry (lookup j (Offsets.track (place raw) raw.offset epoch m).partitions)
              (offsets_at j (raw ∷ fetched)) (λ o. hit j o raw + copies o))
          is
          (track_here fetched epoch copies f high
            (subst (λ j. Entry (lookup j m.partitions) (offsets_at j fetched) copies) (sym is) e))
    | inr apart ↦
        rw (lookup-track (place raw) k raw.offset epoch m, apart)
          (Entry-same copies _ (λ o. rw (hit_apart k o raw apart) (omega arith)) e)
  ]

  pub complete_at :
      (k : PartitionKey) (fetched : List ℤ) (copies : ℤ → ℕ)
      → Entry (lookup k m.partitions) fetched (λ o. hit k o raw + copies o)
      → Entry (lookup k (Offsets.complete (place raw) raw.offset m).partitions) fetched copies
  complete_at k fetched copies e = elim (Bool-cases (place raw == k)) [
    | inl same ↦
        let is = eq_of_== (place raw) k same in
        subst
          (λ j.
            Entry (lookup j (Offsets.complete (place raw) raw.offset m).partitions) fetched copies)
          is
          (complete_here fetched copies (
            subst (λ j. Entry (lookup j m.partitions) fetched (λ o. hit j o raw + copies o))
              (sym is) e))
    | inr apart ↦
        rw (lookup-complete (place raw) k raw.offset m, apart)
          (Entry-same _ copies (λ o. rw (hit_apart k o raw apart) (omega arith)) e)
  ]
