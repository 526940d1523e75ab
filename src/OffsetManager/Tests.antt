-- ===== src/OffsetManager/Tests.antt =====
-- Runs of the offset manager on small inputs: two records of three are completed out of order.
use raider_worker.OffsetManager.Drain.{drain_exact, late_complete_hides_work}
use raider_worker.OffsetManager.Waiting.{drain, completions, drain-completions}
use raider_worker.Event.Errors.{here}
use raider_worker.OffsetManager.FlushAll.{
  failed_commit_not_repeated, record_for, request_of, flush_all_exact,
}
use raider_worker.OffsetManager.Progress.{commits_increase, gap_stalls, flushed}
use raider_worker.OffsetManager.Partition.{
  committable_offset, mark_complete, track_state, settle, new_state, advance, bump,
}
use raider_worker.OffsetManager.Safety.{IsFrontier, commit_safe, flush-IsFrontier}
use raider_worker.OffsetManager.Refinement.{
  run, completes, drains, local_run, channels_at, tracks, project, lookup-run,
}
use raider_worker.OffsetManager.Manager.{
  PartitionKey, begin_drain, flush_all, new, drained, Manager, track, complete, forget, waits,
  key_eq,
}
use raider_worker.OffsetManager.Session.{
  Session, remove_one, View, Reach, begin, later, here, completes, tracks,
}
use raider_worker.Base.{
  List, [], add64, arith, bool_eq, contains, delete, elem, insert, int_eq, length, list_eq, lookup,
  nat_eq, none, pos, refl, some, sub64, text, true, unit_eq, ℤ, ◌<ℤ◌, ◌↔◌, ◌∷◌, ◌≡◌, ◌≤ℤ◌, ◌≤◌,
}
use mathlib.Core.Option
use raider_worker.OffsetManager.Refinement

abbrev epoch_7 : ℤ
epoch_7 = pos 7

abbrev three_tracked : View
three_tracked = record {
  newest = pos 2;
  in_work = pos 2 ∷ pos 1 ∷ pos 0 ∷ [];
  done = [];
  state =
      track_state (pos 2) epoch_7
        (track_state (pos 1) epoch_7 (track_state (pos 0) epoch_7 new_state));
}

abbrev two_done : View
two_done = record {
  newest = pos 2;
  in_work = remove_one (pos 0) (remove_one (pos 1) three_tracked.in_work);
  done = pos 0 ∷ pos 1 ∷ [];
  state = mark_complete (pos 0) (mark_complete (pos 1) three_tracked.state);
}

abbrev all_done : View
all_done = record {
  newest = pos 2;
  in_work = remove_one (pos 2) two_done.in_work;
  done = pos 2 ∷ two_done.done;
  state = mark_complete (pos 2) (committable_offset two_done.state).0;
}

three_reached : Reach (begin (pos 0) epoch_7) three_tracked
three_reached =
    later (later here (tracks (pos 1) epoch_7 (omega arith) (omega arith) (omega arith)))
      (tracks (pos 2) epoch_7 (omega arith) (omega arith) (omega arith))

two-Session : Session (pos 0) two_done
unfolding remove_one
two-Session = record {
  epoch = epoch_7;
  low = omega arith;
  high = omega arith;
  reach = later (later three_reached (completes (pos 1) refl)) (completes (pos 0) refl);
}

all_reached : Reach (flushed two_done) all_done
unfolding remove_one
all_reached = later here (completes (pos 2) refl)

committed_1 : (committable_offset two_done.state).1 ≡ some (pos 1, epoch_7)
unfolding committable_offset settle advance bump mark_complete track_state add64 sub64 insert delete
    contains
committed_1 = refl

committed_2 : (committable_offset all_done.state).1 ≡ some (pos 2, epoch_7)
unfolding committable_offset settle advance bump mark_complete track_state add64 sub64 insert delete
    contains
committed_2 = refl

commit_safe_example :
    ((o : ℤ) → pos 0 ≤ℤ o → o ≤ℤ pos 1 → elem o two_done.done ≡ true)
    × ((o : ℤ) → elem o two_done.in_work ≡ true → pos 1 <ℤ o)
commit_safe_example = commit_safe two-Session (pos 1) epoch_7 committed_1

flush-IsFrontier_example :
    IsFrontier (pos 0) two_done.done (committable_offset two_done.state).0.next_commit
flush-IsFrontier_example = flush-IsFrontier two-Session

commits_increase_example : pos 1 <ℤ pos 2
commits_increase_example =
    commits_increase two-Session (pos 1) epoch_7 (pos 2) epoch_7 committed_1 all_reached committed_2

-- Offset 1 is a gap: Kafka has compacted it away.
abbrev gap_tracked : View
gap_tracked = record {
  newest = pos 2;
  in_work = pos 2 ∷ pos 0 ∷ [];
  done = [];
  state = track_state (pos 2) epoch_7 (track_state (pos 0) epoch_7 new_state);
}

abbrev gap_done : View
gap_done = record {
  newest = pos 2;
  in_work = remove_one (pos 0) (remove_one (pos 2) gap_tracked.in_work);
  done = pos 0 ∷ pos 2 ∷ [];
  state = mark_complete (pos 0) (mark_complete (pos 2) gap_tracked.state);
}

gap-Session : Session (pos 0) gap_tracked
gap-Session = record {
  epoch = epoch_7;
  low = omega arith;
  high = omega arith;
  reach = later here (tracks (pos 2) epoch_7 (omega arith) (omega arith) (omega arith));
}

gap_reached : Reach gap_tracked gap_done
unfolding remove_one
gap_reached = later (later here (completes (pos 2) refl)) (completes (pos 0) refl)

-- With all that was tracked done, the flush stops before the gap.
gap_commits_0 : (committable_offset gap_done.state).1 ≡ some (pos 0, epoch_7)
unfolding committable_offset settle advance bump mark_complete track_state add64 sub64 insert delete
    contains
gap_commits_0 = refl

gap_stalls_example : pos 0 <ℤ pos 1
gap_stalls_example =
    gap_stalls gap-Session (pos 1) (pos 0) epoch_7
      (record { after = omega arith; before = omega arith; no_work = refl; not_done = refl })
      gap_reached gap_commits_0

abbrev cases_0 : PartitionKey
cases_0 = record { topic = text "cases"; partition = pos 0 }

abbrev visits_1 : PartitionKey
visits_1 = record { topic = text "visits"; partition = pos 1 }

abbrev managing : View → Manager
managing v = record { partitions = (cases_0, v.state) ∷ []; channels = [] }

found : (v : View) → lookup cases_0 (managing v).partitions ≡ some v.state
unfolding lookup
found v = refl

drain_exact_example :
    ((begin_drain cases_0 (managing two_done)).0 ≡ drained) ↔ (two_done.in_work ≡ [])
drain_exact_example = drain_exact two-Session cases_0 (managing two_done) (found two_done)

late_complete_hides_work_example :
    ((begin_drain cases_0 (
        track cases_0
          (pos 9)
          epoch_7
          (complete cases_0 (pos 2) (forget cases_0 (managing two_done))))).0
      ≡ drained)
    × ((begin_drain cases_0 (track cases_0 (pos 9) epoch_7 (forget cases_0 (managing two_done)))).0
        ≡ waits 0)
late_complete_hides_work_example =
    late_complete_hides_work cases_0 (pos 2) (pos 9) epoch_7 (managing two_done)

drain-completions_example :
    ((drain (completions cases_0 (pos 2 ∷ [])) cases_0 (managing two_done)).1 ≡ none)
    ↔ (1 ≤ length (pos 2 ∷ []))
unfolding mark_complete track_state add64 sub64
drain-completions_example =
    drain-completions cases_0 (managing two_done) two_done.state 1 (pos 2 ∷ []) (found two_done)
      refl (omega arith)

flush_all_exact_example :
    (lookup cases_0 (flush_all (managing two_done)).0.partitions
      ≡ Option.map
          (λ st. (committable_offset st).0)
          (lookup cases_0 (managing two_done).partitions))
    × (record_for cases_0 (flush_all (managing two_done)).1
        ≡ request_of cases_0 (lookup cases_0 (managing two_done).partitions))
unfolding contains lookup
flush_all_exact_example = flush_all_exact (managing two_done) cases_0 (refl, tt)

failed_commit_not_repeated_example : (flush_all (flush_all (managing two_done)).0).1 ≡ []
failed_commit_not_repeated_example = failed_commit_not_repeated (managing two_done)

abbrev schedule : List (PartitionKey × Refinement.Call)
schedule =
    (cases_0, Refinement.tracks (pos 0) epoch_7)
    ∷ (visits_1, Refinement.tracks (pos 5) epoch_7)
    ∷ (cases_0, Refinement.drains)
    ∷ (cases_0, Refinement.completes (pos 0))
    ∷ []

lookup-run_example :
    lookup cases_0 (run new schedule).partitions
    ≡ local_run
        (channels_at cases_0 new schedule)
        (project cases_0 schedule)
        (lookup cases_0 new.partitions)
lookup-run_example = lookup-run cases_0 new schedule
