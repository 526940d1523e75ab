-- ===== src/Delivery/Line.antt =====
-- The order of a lane: the records that wait in it, and then the one that the poll loop holds.
use raider_worker.Event.Types.{RawMessage}
use raider_worker.Consumer.Dispatch.{Work, place}
use raider_worker.WorkerPool.Pool.{Job}
use raider_worker.OffsetManager.Manager.{PartitionKey, key_eq}
use raider_worker.Delivery.Worker.{Follows, offsets_at, without}
use raider_worker.Delivery.Revoked.{offsets_at-without}
use raider_worker.Base.{
  List, Option, [], arith, ap, Bool-cases, bool_eq, eq_of_==, ==_refl, inl, inr, int_eq, list_eq,
  nat_eq, none, refl, some, subst, sym, unit_eq, ℤ, ◌++◌, ◌<ℤ◌, ◌==◌, ◌∙◌, ◌∷◌, ◌≡◌, false,
}

-- The records of jobs.
unfoldable pub sources : List (Job Work) → List RawMessage
sources [] = []
sources (j ∷ js) = j.execute.source ∷ sources js

abbrev pub held : Option RawMessage → List RawMessage
held none = []
held (some raw) = raw ∷ []

-- The second record is at a higher offset, if it is of the first one's partition.
abbrev pub Before : RawMessage → RawMessage → Type 0
Before raw later = place raw ≡ place later → raw.offset <ℤ later.offset

abbrev pub BeforeAll : RawMessage → List RawMessage → Type 0
BeforeAll raw [] = Unit {0}
BeforeAll raw (r ∷ rs) = Before raw r × BeforeAll raw rs

abbrev pub InOrder : List RawMessage → Type 0
InOrder [] = Unit {0}
InOrder (r ∷ rs) = BeforeAll r rs × InOrder rs

-- Every record that its partition may deliver next is at a higher offset.
abbrev pub Passed : List RawMessage → RawMessage → Type 0
Passed fetched raw = (o : ℤ) → Follows (offsets_at (place raw) fetched) o → raw.offset <ℤ o

abbrev pub AllPassed : List RawMessage → List RawMessage → Type 0
AllPassed fetched [] = Unit {0}
AllPassed fetched (r ∷ rs) = Passed fetched r × AllPassed fetched rs

-- A line of a lane and the pending record.
abbrev pub Line : List RawMessage → List RawMessage → Type 0
Line fetched rs = InOrder rs × AllPassed fetched rs

BeforeAll-left :
    (r : RawMessage) (xs ys : List RawMessage) → BeforeAll r (xs ++ ys) → BeforeAll r xs
BeforeAll-left r [] ys h = tt
BeforeAll-left r (x ∷ xs) ys h = (h.0, BeforeAll-left r xs ys h.1)

pub BeforeAll-at :
    (r later : RawMessage) (xs ys : List RawMessage)
    → BeforeAll r (xs ++ later ∷ ys)
    → Before r later
BeforeAll-at r later [] ys h = h.0
BeforeAll-at r later (x ∷ xs) ys h = BeforeAll-at r later xs ys h.1

pub Line-left : (fetched xs ys : List RawMessage) → Line fetched (xs ++ ys) → Line fetched xs
Line-left fetched [] ys h = (tt, tt)
Line-left fetched (x ∷ xs) ys h =
    let rest = Line-left fetched xs ys (h.0.1, h.1.1) in
    ((BeforeAll-left x xs ys h.0.0, rest.0), (h.1.0, rest.1))

-- A record that is fetched is behind those of its partition.
Passed-Before :
    (fetched : List RawMessage) (r raw : RawMessage)
    → Passed fetched r
    → Follows (offsets_at (place raw) fetched) raw.offset
    → Before r raw
Passed-Before fetched r raw passed follows same =
    passed raw.offset (subst (λ k. Follows (offsets_at k fetched) raw.offset) (sym same) follows)

Passed-fetch :
    (fetched : List RawMessage) (r raw : RawMessage)
    → Passed fetched r
    → Follows (offsets_at (place raw) fetched) raw.offset
    → Passed (raw ∷ fetched) r
unfolding offsets_at
Passed-fetch fetched r raw passed follows o next = elim (Bool-cases (place raw == place r)) [
  | inl same ↦
      let high : raw.offset <ℤ o = rw same at next in
      omega (
        arith,
        high,
        Passed-Before fetched r raw passed follows (sym (eq_of_== (place raw) (place r) same)),
      )
  | inr apart ↦ passed o (rw apart at next)
]

Passed-self : (fetched : List RawMessage) (raw : RawMessage) → Passed (raw ∷ fetched) raw
unfolding offsets_at
Passed-self fetched raw o next = rw (==_refl (place raw)) at next

BeforeAll-add :
    (r raw : RawMessage) (xs : List RawMessage)
    → BeforeAll r xs
    → Before r raw
    → BeforeAll r (xs ++ raw ∷ [])
BeforeAll-add r raw [] h b = (b, tt)
BeforeAll-add r raw (x ∷ xs) h b = (h.0, BeforeAll-add r raw xs h.1 b)

pub Line-fetch :
    (fetched : List RawMessage) (raw : RawMessage) (xs : List RawMessage)
    → Line fetched xs
    → Follows (offsets_at (place raw) fetched) raw.offset
    → Line (raw ∷ fetched) (xs ++ raw ∷ [])
Line-fetch fetched raw [] h follows = ((tt, tt), (Passed-self fetched raw, tt))
Line-fetch fetched raw (x ∷ xs) h follows =
    let rest = Line-fetch fetched raw xs (h.0.1, h.1.1) follows in
    (
      (BeforeAll-add x raw xs h.0.0 (Passed-Before fetched x raw h.1.0 follows), rest.0),
      (Passed-fetch fetched x raw h.1.0 follows, rest.1),
    )

-- No record of the partition.
abbrev pub Without : PartitionKey → List RawMessage → Type 0
Without k [] = Unit {0}
Without k (r ∷ rs) = ((place r == k) ≡ false) × Without k rs

pub Line-without :
    (k : PartitionKey) (fetched xs : List RawMessage)
    → Without k xs
    → Line fetched xs
    → Line (without k fetched) xs
Line-without k fetched [] w h = (tt, tt)
Line-without k fetched (x ∷ xs) w h =
    let rest = Line-without k fetched xs w.1 (h.0.1, h.1.1) in
    let apart : (k == place x) ≡ false =
      ground (arith, w.0, key_eq.beq_iff k (place x), key_eq.beq_iff (place x) k) in
    let same : offsets_at (place x) (without k fetched) ≡ offsets_at (place x) fetched =
      offsets_at-without k (place x) fetched ∙ rw apart in
    ((h.0.0, rest.0), (λ o next. h.1.0 o (subst (λ v. Follows v o) same next), rest.1))

pub sources-append : (js ks : List (Job Work)) → sources (js ++ ks) ≡ sources js ++ sources ks
unfolding sources
sources-append [] ks = refl
sources-append (j ∷ js) ks = ap (λ v. j.execute.source ∷ v) (sources-append js ks)
