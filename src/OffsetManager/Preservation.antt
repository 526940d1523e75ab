-- ===== src/OffsetManager/Preservation.antt =====
-- Every call on a partition keeps its invariant.
use raider_worker.Base.{
  add64, add64-suc, arith, bool_eq, contains-insert, elem, inl, inr, int_eq, length, list_eq,
  max_int64, nat_eq, pos, some, true, unit_eq, ℕ, ℤ, ◌<ℤ◌, ◌<◌, ◌∙◌, ◌∷◌, ◌≡◌, +ℤ_parts, ap,
  sub64-pred, ◌+ℤ◌, ◌≤ℤ◌,
}
use raider_worker.OffsetManager.Partition.{
  PartitionState, track_state, mark_complete, committable_offset,
}
use raider_worker.OffsetManager.Session.{
  View, Step, tracks, completes, flushes, drains, Reach, here, later, remove_one,
}
use raider_worker.OffsetManager.Invariant.{
  Below, Settled, WorkInv, Inv, elem-Below, remove_one-Below, elem-remove_one, elem-remove_one_self,
  length-remove_one,
}
use raider_worker.OffsetManager.Cursor.{Bounded}
use raider_worker.OffsetManager.Flush.{Flushed, Outcome, committable-Flushed}

pub WorkInv-Bounded : {start : ℤ} {v : View} → WorkInv start v → Bounded start v.done
WorkInv-Bounded {start} {v} w = record {
  first = w.first;
  below_max = λ o d. let h = (w.done_range o d).1 in let g = w.fits in omega arith;
}

track_active :
    (o epoch : ℤ) (st : PartitionState)
    → st.initialized ≡ true
    → track_state o epoch st ≡ record st { epoch = epoch; in_flight = add64 st.in_flight (pos 1) }
unfolding track_state
track_active o epoch st h = rw h

module _ {start : ℤ} {v : View} (inv : Inv start v) where
  open inv use {work, cursor, settled}

  all-Below : Below (v.newest +ℤ pos 1) v.in_work
  all-Below = work.ordered (v.newest +ℤ pos 1) (omega (arith, +ℤ_parts v.newest (pos 1)))

  work_high : (o : ℤ) → elem o v.in_work ≡ true → o ≤ℤ v.newest
  work_high o h =
      omega
        (arith, elem-Below o (v.newest +ℤ pos 1) v.in_work all-Below h, +ℤ_parts v.newest (pos 1))

  tracks-Inv :
      (o epoch : ℤ)
      → v.newest <ℤ o
      → o <ℤ max_int64
      → length v.in_work < 0x7fffffffffffffff
      → Inv start (record {
        newest = o;
        in_work = o ∷ v.in_work;
        done = v.done;
        state = track_state o epoch v.state;
      })
  tracks-Inv o epoch up fits few = rw (track_active o epoch v.state work.active) (record {
    work = record {
      active = work.active;
      first = work.first;
      grown = let g = work.grown in omega arith;
      fits = fits;
      count = rw (work.count, add64-suc (length v.in_work) few) (ap pos (omega arith));
      few = omega arith;
      ordered = λ b h. (h, work.ordered o up);
      work_low = λ p h. ground (arith, int_eq.beq_iff o p, work.work_low p, work.grown);
      done_range = λ p h. ground (arith, work.done_range p h);
      apart = λ p h. ground (arith, int_eq.beq_iff o p, work.apart p, work.done_range p);
    };
    cursor = record {
      low = cursor.low;
      high = cursor.high;
      passed = cursor.passed;
      pending = cursor.pending;
      handled = cursor.handled;
    };
    settled = settled;
  })

  completes-Inv :
      (o : ℤ)
      → elem o v.in_work ≡ true
      → Inv start (record {
        newest = v.newest;
        in_work = remove_one o v.in_work;
        done = o ∷ v.done;
        state = mark_complete o v.state;
      })
  unfolding mark_complete
  completes-Inv o hit = record {
    work = record {
      active = work.active;
      first = work.first;
      grown = work.grown;
      fits = work.fits;
      count =
          rw (work.count, ← length-remove_one o v.in_work hit)
            (sub64-pred (length (remove_one o v.in_work))
              (omega (arith, work.few, length-remove_one o v.in_work hit)));
      few = omega (arith, work.few, length-remove_one o v.in_work hit);
      ordered = λ b h. remove_one-Below o b v.in_work (work.ordered b h);
      work_low = λ p h. work.work_low p (elem-remove_one o p v.in_work h);
      done_range = λ p h.
          ground
            (arith, int_eq.beq_iff o p, work.done_range p, work.work_low o hit, work_high o hit);
      apart = λ p h. ground (
        arith,
        int_eq.beq_iff o p,
        elem-remove_one o p v.in_work,
        elem-remove_one_self o (v.newest +ℤ pos 1) v.in_work all-Below,
        work.apart p,
      );
    };
    cursor = record {
      low = cursor.low;
      high = cursor.high;
      passed = λ p a b. ground (arith, cursor.passed p a b);
      pending = λ p h. ground (arith, cursor.pending p, contains-insert o p tt v.state.completed);
      handled = λ p h. ground (arith, cursor.handled p, contains-insert o p tt v.state.completed);
    };
    settled = settled;
  }

  flushes-Inv : Inv start (record v { state = (committable_offset v.state).0 })
  flushes-Inv = record {
    work = record {
      active = f.same_active ∙ work.active;
      first = work.first;
      grown = work.grown;
      fits = work.fits;
      count = f.same_count ∙ work.count;
      few = work.few;
      ordered = work.ordered;
      work_low = work.work_low;
      done_range = work.done_range;
      apart = work.apart;
    };
    cursor = f.cursor;
    settled = kept f.outcome;
  }
    where
      f : Flushed start v.done v.state (committable_offset v.state)
      f = committable-Flushed (WorkInv-Bounded work) v.state settled cursor

      kept :
          Outcome v.state (committable_offset v.state)
          → Settled start (committable_offset v.state).0
      kept (inl (_, e, _, _)) = inl e
      kept (inr (_, e)) = rw e settled

  drains-Inv :
      (ch : ℕ)
      → Inv start (record v { state = record v.state { draining = true; drain_ch = some ch } })
  drains-Inv ch = record {
    work = record {
      active = work.active;
      first = work.first;
      grown = work.grown;
      fits = work.fits;
      count = work.count;
      few = work.few;
      ordered = work.ordered;
      work_low = work.work_low;
      done_range = work.done_range;
      apart = work.apart;
    };
    cursor = record {
      low = cursor.low;
      high = cursor.high;
      passed = cursor.passed;
      pending = cursor.pending;
      handled = cursor.handled;
    };
    settled = settled;
  }

pub Step-Inv : {start : ℤ} {v w : View} → Step v w → Inv start v → Inv start w
Step-Inv (tracks o epoch up fits few) inv = tracks-Inv inv o epoch up fits few
Step-Inv (completes o hit) inv = completes-Inv inv o hit
Step-Inv flushes inv = flushes-Inv inv
Step-Inv (drains ch) inv = drains-Inv inv ch

pub Reach-Inv : {start : ℤ} {v w : View} → Inv start v → Reach v w → Inv start w
Reach-Inv inv here = inv
Reach-Inv inv (later r s) = Step-Inv s (Reach-Inv inv r)
