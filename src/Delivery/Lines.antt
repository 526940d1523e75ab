-- ===== src/Delivery/Lines.antt =====
-- The order of all lanes, and what a step that changes one lane, or the pending record, keeps of it.
use mathlib.Core.List.{append-nil}
use mathlib.Core.Option.{some-injective}
use raider_worker.WorkerPool.System.{Placed, Placed-append, set_cases}
use raider_worker.Delivery.Worker.{Follows, offsets_at}
use raider_worker.WorkerPool.Hash.{sum32}
use raider_worker.Consumer.Dispatch.{Work, place}
use raider_worker.WorkerPool.Pool.{Pool, stop, Job, Lane, get_lane}
use raider_worker.Consumer.Pools.{stop_pools}
use raider_worker.Event.Types.{RawMessage}
use raider_worker.Base.{
  Bool-cases, List, Map, Option, Option-cases, Text, [], ap, bool_eq, inl, inr, insert, int_eq,
  length, length-set, list_eq, lookup, lookup-insert, lookup-remap, nat_eq, none, set, some, subst,
  sym, unit_eq, ℕ, ◌%◌, ◌++◌, ◌<◌, ◌==◌, ◌∙◌, ◌∷◌, ◌≡◌,
}
use raider_worker.Delivery.Line.{Line, Line-left, Line-fetch, sources, held, sources-append}

-- A lane of a pool with `n` lanes, at the index `i`: its jobs are of its keys and stand in order.
pub record InLine (n i : ℕ) (fetched : List RawMessage) (pending : Option RawMessage)
    (jobs : List (Job Work)) : Type 0 where
  pub placed : Placed n i jobs
  pub line : Line fetched (sources jobs ++ held pending)

abbrev pub Lines : List RawMessage → Option RawMessage → Map Text (Pool Work) → Type 0
Lines fetched pending pools =
    (t : Text) (p : Pool Work) (i : ℕ)
    → lookup t pools ≡ some p
    → InLine (length p.lanes) i fetched pending (get_lane p.lanes i).jobs

-- What each lane keeps, all lanes keep.
pub Lines-map :
    (fetched fetched' : List RawMessage) (pending pending' : Option RawMessage)
    (pools : Map Text (Pool Work))
    → ((n i : ℕ) (jobs : List (Job Work))
        → InLine n i fetched pending jobs
        → InLine n i fetched' pending' jobs)
    → Lines fetched pending pools
    → Lines fetched' pending' pools
Lines-map fetched fetched' pending pending' pools keep h t p i found =
    keep (length p.lanes) i (get_lane p.lanes i).jobs (h t p i found)

pub InLine-fetch :
    (fetched : List RawMessage) (raw : RawMessage) (n i : ℕ) (jobs : List (Job Work))
    → Follows (offsets_at (place raw) fetched) raw.offset
    → InLine n i fetched none jobs
    → InLine n i (raw ∷ fetched) (some raw) jobs
InLine-fetch fetched raw n i jobs follows h = record {
  placed = h.placed;
  line = Line-fetch fetched raw (sources jobs) (Line-left fetched (sources jobs) [] h.line) follows;
}

-- The pending record leaves the line.
pub InLine-dispatched :
    (fetched : List RawMessage) (pending : Option RawMessage) (n i : ℕ) (jobs : List (Job Work))
    → InLine n i fetched pending jobs
    → InLine n i fetched none jobs
InLine-dispatched fetched pending n i jobs h = record {
  placed = h.placed;
  line =
      subst (Line fetched) (sym (append-nil (sources jobs)))
        (Line-left fetched (sources jobs) (held pending) h.line);
}

-- The pending record becomes the last job of the lane.
pub InLine-queued :
    (fetched : List RawMessage) (raw : RawMessage) (n i : ℕ) (jobs : List (Job Work))
    (job : Job Work)
    → job.execute.source ≡ raw
    → sum32 job.key % n ≡ i
    → InLine n i fetched (some raw) jobs
    → InLine n i fetched none (jobs ++ job ∷ [])
unfolding sources
InLine-queued fetched raw n i jobs job source key h = record {
  placed = Placed-append n i jobs job h.placed key;
  line =
      subst (Line fetched)
        (sym (
          append-nil (sources (jobs ++ job ∷ []))
          ∙ sources-append jobs (job ∷ [])
          ∙ ap (λ r. sources jobs ++ r ∷ []) source))
        h.line;
}

-- The first job leaves the line.
pub InLine-taken :
    (fetched : List RawMessage) (pending : Option RawMessage) (n i : ℕ) (job : Job Work)
    (jobs : List (Job Work))
    → InLine n i fetched pending (job ∷ jobs)
    → InLine n i fetched pending jobs
unfolding sources
InLine-taken fetched pending n i job jobs h = record {
  placed = h.placed.1;
  line = (h.line.0.1, h.line.1.1);
}

pub Lines-change :
    (fetched : List RawMessage) (pending pending' : Option RawMessage)
    (pools : Map Text (Pool Work)) (topic : Text) (p : Pool Work) (i : ℕ) (l : Lane Work)
    → lookup topic pools ≡ some p
    → i < length p.lanes
    → ((n j : ℕ) (jobs : List (Job Work))
        → InLine n j fetched pending jobs
        → InLine n j fetched pending' jobs)
    → InLine (length p.lanes) i fetched pending' l.jobs
    → Lines fetched pending pools
    → Lines fetched pending' (insert topic (record p { lanes = set p.lanes i l }) pools)
Lines-change fetched pending pending' pools topic p i l found small keep new h t q j is =
    elim (Bool-cases (topic == t)) [
      | inr apart ↦
          keep (length q.lanes) j _ (h t q j (sym (lookup-insert topic t _ pools ∙ rw apart) ∙ is))
      | inl here ↦
          let same : record p { lanes = set p.lanes i l } ≡ q =
            some-injective _ _ (sym (lookup-insert topic t _ pools ∙ rw here) ∙ is) in
          subst (λ v. InLine (length v.lanes) j fetched pending' (get_lane v.lanes j).jobs) same
            (subst (λ n. InLine n j fetched pending' (get_lane (set p.lanes i l) j).jobs)
              (sym (length-set p.lanes i l))
              (elim (set_cases p.lanes i j l small) [
                | inl (at, e) ↦
                    subst (λ v. InLine (length p.lanes) j fetched pending' v.jobs) (sym e)
                      (subst (λ a. InLine (length p.lanes) a fetched pending' l.jobs) at new)
                | inr (other, e) ↦
                    subst (λ v. InLine (length p.lanes) j fetched pending' v.jobs) (sym e)
                      (keep (length p.lanes) j _ (h topic p j found))
              ]))
    ]

pub Lines-stop :
    (fetched : List RawMessage) (pending : Option RawMessage) (pools : Map Text (Pool Work))
    → Lines fetched pending pools
    → Lines fetched pending (stop_pools pools)
unfolding stop_pools stop
Lines-stop fetched pending pools h t p i e = elim (Option-cases (lookup t pools)) [
  | inl missing ↦
      let gone : lookup t (stop_pools pools) ≡ none = lookup-remap _ t pools ∙ rw missing in
      absurd (cc)
  | inr (q, found) ↦
      let closed : some (stop q) ≡ some p = sym (lookup-remap _ t pools ∙ rw found) ∙ e in
      rw (← some-injective _ _ closed) (h t q i found)
]
