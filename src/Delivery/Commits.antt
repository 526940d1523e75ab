-- ===== src/Delivery/Commits.antt =====
-- What the worker commits, at any moment, of the records that it has fetched.
use raider_worker.OffsetManager.Progress.{flushed, drained_commit}
use raider_worker.Consumer.Pools.{new_pools}
use raider_worker.Consumer.Dispatch.{Work}
use raider_worker.WorkerPool.Pool.{Pool}
use raider_worker.Config.Load.{WorkerConfig}
use raider_worker.Registry.{VersionKey}
use raider_worker.Event.Types.{Context, Processor}
use raider_worker.Time.{TimeText, Duration}
use raider_worker.Idempotency.{Store}
use raider_worker.OffsetManager.Manager.{PartitionKey, CommitRecord, commit_request, key_eq}
use raider_worker.OffsetManager.Partition.{PartitionState, committable_offset}
use raider_worker.Retry.ScheduleRedis.{ScheduleRedis}
use mathlib.Core.Option.{some-injective}
use raider_worker.Base.{
  Text, List, Map, Option, arith, bool_eq, elem, inl, inr, int_eq, list_eq, nat_eq, pos, some, sym,
  true, unit_eq, ℕ, ℤ, ◌+ℤ◌, ◌∙◌, ◌≡◌, ◌≤ℤ◌, ◌≤◌, +ℤ_parts, none, refl, ==_refl, [], ap, lookup,
  ◌∷◌, count, subst, ◌⊎◌,
}
use raider_worker.OffsetManager.Manager as Offsets
use raider_worker.Delivery.Worker.{Worker, starting, offsets_at}
use raider_worker.Delivery.Interleaving.{Reach}
use raider_worker.Delivery.Outstanding.{outstanding}
use raider_worker.Delivery.Ledger.{Entry, count-le_one, count-elem}
use raider_worker.Delivery.Invariant.{Holds}
use raider_worker.Delivery.Reachable.{starting-Holds, Reach-Holds}
use raider_worker.OffsetManager.FlushAll.{record_for, request_of, flush_all_exact}
use raider_worker.OffsetManager.Safety.{commit_safe, Session-Inv, flush-Flushed}

commit_of :
    (k : PartitionKey) (st : PartitionState) (r : CommitRecord)
    → commit_request k (committable_offset st).1 ≡ some r
    → (committable_offset st).1 ≡ some (r.offset, r.leader_epoch)
commit_of k st r h = go (committable_offset st).1 h
  where
    go : (o : Option (ℤ × ℤ)) → commit_request k o ≡ some r → o ≡ some (r.offset, r.leader_epoch)
    go none h = absurd (cc)
    go (some (offset, epoch)) h =
        let same : record { key = k; offset = offset; leader_epoch = epoch } ≡ r =
          some-injective _ _ h in
        rw (← same) refl

abbrev head_or : ℤ → List ℤ → ℤ
head_or n [] = n
head_or n (x ∷ xs) = x

none_held : (xs : List ℤ) → ((o : ℤ) → count o xs ≡ 0) → xs ≡ []
unfolding count
none_held [] h = refl
none_held (x ∷ xs) h = absurd (ground (arith, h x, ==_refl x))

-- The client is asked to commit an offset of a partition; or the partition's last commit is that
-- offset already, so that an earlier request has asked for it.
abbrev pub Asked : PartitionKey → ℤ → Option PartitionState → Option CommitRecord → Type 0
Asked k n st request =
    ((epoch : ℤ) × (request ≡ some (record { key = k; offset = n; leader_epoch = epoch })))
    ⊎ ((st' : PartitionState) × (st ≡ some st') × (st'.last_committed ≡ n))

module _ {st : Option PartitionState} {fetched : List ℤ} {copies : ℤ → ℕ} where
  Entry-once : Entry st fetched copies → (o : ℤ) → copies o ≤ 1
  Entry-once (inl e) o = rw (e.no_copy o) (omega arith)
  Entry-once (inr e) o = rw (e.copy o) (
      count-le_one o (e.view.newest +ℤ pos 1) e.view.in_work
        ((Session-Inv e.session).work.ordered _ (omega (arith, +ℤ_parts e.view.newest (pos 1)))))

  -- What the record of a request says of the partition's entry.
  Entry-commits :
      (k : PartitionKey) (r : CommitRecord) (first o : ℤ)
      → Entry st fetched copies
      → request_of k st ≡ some r
      → elem first fetched ≡ true
      → first ≤ℤ o
      → o ≤ℤ r.offset
      → (elem o fetched ≡ true) × (copies o ≡ 0)
  Entry-commits k r first o (inl e) h f low high = let none_here = rw e.no_state at h in absurd (cc)
  Entry-commits k r first o (inr e) h f low high =
      let c = commit_of k e.view.state r (rw e.found at h) in
      let (covered, above) = commit_safe e.session r.offset r.leader_epoch c in
      let work = (Session-Inv e.session).work in
      let from : e.start ≤ℤ first =
        ground (arith, e.seen first, work.work_low first, work.done_range first) in
      (
        ground (arith, e.seen o, covered o (omega (arith, from, low)) high),
        ground (arith, e.copy o, count-elem o e.view.in_work, above o),
      )

  -- An entry of which nothing is held, and whose records came without a gap.
  Entry-drained :
      (k : PartitionKey) (n : ℤ) (older : List ℤ)
      → Entry st fetched copies
      → ((o : ℤ) → copies o ≡ 0)
      → fetched ≡ n ∷ older
      → ((a o : ℤ) → elem a fetched ≡ true → a ≤ℤ o → o ≤ℤ n → elem o fetched ≡ true)
      → Asked k n st (request_of k st)
  Entry-drained k n older (inl e) idle f dense = let empty = e.nothing in absurd (cc)
  Entry-drained k n older (inr e) idle f dense =
      let newest : e.view.newest ≡ n = ap (head_or n) (sym e.newest ∙ f) in
      let work : e.view.in_work ≡ [] = none_held e.view.in_work (λ o. sym (e.copy o) ∙ idle o) in
      let last : (flushed e.view).state.last_committed ≡ n =
        drained_commit e.session work
          (λ o low high. e.seen o ∙ dense e.start o e.first low (rw newest at high))
        ∙ newest in
      elim ((flush-Flushed (Session-Inv e.session)).outcome) [
        | inl asked ↦ inl (
          (flushed e.view).state.epoch,
          ap (request_of k) e.found
              ∙ ap (commit_request k) asked.0
              ∙ ap (λ c. commit_request k (some (c, (flushed e.view).state.epoch))) last,
        )
        | inr kept ↦ inr (e.view.state, e.found, sym (ap (λ st. st.last_committed) kept.1) ∙ last)
      ]

module _ (redis : ScheduleRedis) (store : Store) ⦃times : TimeText⦄ (max_retries : ℤ)
    (timeout : Duration) (ctx : Context) (processors : Map VersionKey Processor) (w : WorkerConfig)
    (pools : Map Text (Pool Work)) (sched : redis.State) (claims : store.State) where
  pub worker-Holds :
      (s : Worker redis store)
      → new_pools w ≡ some pools
      → Reach redis store max_retries timeout ctx processors
          (starting redis store pools sched claims)
          s
      → Holds redis store s
  worker-Holds s built r =
      Reach-Holds redis store max_retries timeout ctx processors
        (starting-Holds redis store w pools sched claims built) r

  -- Unless a revocation or a loss leaves records outstanding, which is not among the steps, the
  -- worker never holds a record twice: whatever the poll loop, the lanes, the scheduler, the flush
  -- loop, `Stop` and revocations and losses of partitions without outstanding records have done, in
  -- any interleaving, a record at one offset of a partition is pending, in one lane, in one job that
  -- runs, or nowhere.
  pub held_once :
      (s : Worker redis store) (k : PartitionKey) (o : ℤ)
      → new_pools w ≡ some pools
      → Reach redis store max_retries timeout ctx processors
          (starting redis store pools sched claims)
          s
      → outstanding redis store k o s ≤ 1
  held_once s k o built r = Entry-once ((worker-Holds s built r).entries k) o

  -- Whatever the poll loop, the lanes, the scheduler, the flush loop, `Stop` and revocations and
  -- losses of partitions without outstanding records have done, in any interleaving: when a flush
  -- commits an offset of a partition, every offset from one fetched since its assignment up to the committed one was
  -- fetched, and the worker holds its record no more: it is not pending, waits in no lane and is in
  -- no job that runs.
  pub commits_are_settled :
      (s : Worker redis store) (k : PartitionKey) (r : CommitRecord) (first o : ℤ)
      → new_pools w ≡ some pools
      → Reach redis store max_retries timeout ctx processors
          (starting redis store pools sched claims)
          s
      → record_for k (Offsets.flush_all s.world.offsets).1 ≡ some r
      → elem first (offsets_at k s.fetched) ≡ true
      → first ≤ℤ o
      → o ≤ℤ r.offset
      → (elem o (offsets_at k s.fetched) ≡ true) × (outstanding redis store k o s ≡ 0)
  commits_are_settled s k r first o built reach h f low high =
      let holds = worker-Holds s built reach in
      Entry-commits k r first o (holds.entries k)
        (sym (flush_all_exact s.world.offsets k holds.keyed).1 ∙ h) f low high

  -- Once the worker holds no record of a partition, as after `Stop` has drained the lanes, a flush
  -- asks for the newest fetched offset, if the partition's offsets came without a gap.
  pub idle_partition-Asked :
      (s : Worker redis store) (k : PartitionKey) (n : ℤ) (older : List ℤ)
      → new_pools w ≡ some pools
      → Reach redis store max_retries timeout ctx processors
          (starting redis store pools sched claims)
          s
      → ((o : ℤ) → outstanding redis store k o s ≡ 0)
      → offsets_at k s.fetched ≡ n ∷ older
      → ((a o : ℤ)
          → elem a (offsets_at k s.fetched) ≡ true
          → a ≤ℤ o
          → o ≤ℤ n
          → elem o (offsets_at k s.fetched) ≡ true)
      → Asked k n
          (lookup k s.world.offsets.partitions)
          (record_for k (Offsets.flush_all s.world.offsets).1)
  idle_partition-Asked s k n older built reach idle f dense =
      let holds = worker-Holds s built reach in
      subst (Asked k n (lookup k s.world.offsets.partitions))
        (sym (flush_all_exact s.world.offsets k holds.keyed).1)
        (Entry-drained k n older (holds.entries k) idle f dense)
