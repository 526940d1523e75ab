-- ===== src/Samples/Memory.antt =====
-- Redis in memory, as the idempotency store and as the retry scheduler see it.
use raider_worker.Retry.ScheduleRedis.{ScheduleRedis}
use raider_worker.Json.{Payload}
use raider_worker.Event.Errors.{ok, Result, err, message}
use raider_worker.Redis.{Redis}
use raider_worker.Base.{
  Text, Bool, List, Map, Option, [], arith, bool_eq, contains, delete, elem, false, insert, int_eq,
  leb_ℤ, list_eq, lookup, lookup-delete_self, lookup-insert_self, nat_eq, none, refl, some, text,
  true, unit_eq, ℕ, ℤ, ◌&&◌, ◌∷◌, ◌≡◌, ◌≤ℤ◌, Bool-cases, ap, eq_of_==, inl, inr, sym, ◌==◌, ◌∙◌,
  is_some, ==_of_ne, lookup-delete, lookup-insert, ◌≢◌,
}

abbrev pub set_if_free : Bool → Text → Text → Map Text Text → Result Bool × Map Text Text
set_if_free true k v s = (ok false, s)
set_if_free false k v s = (ok true, insert k v s)

abbrev pub set_nx : Text → Text → ℕ → Map Text Text → Result Bool × Map Text Text
set_nx k v ttl s = set_if_free (contains k s) k v s

pub set_fresh :
    (b : Bool) (k v : Text) (s : Map Text Text)
    → contains k s ≡ b
    → (set_if_free b k v s).0 ≡ ok true
    → (contains k s ≡ false) × (contains k (set_if_free b k v s).1 ≡ true)
unfolding contains
set_fresh true k v s c h = absurd (cc)
set_fresh false k v s c h = (c, rw (lookup-insert_self k v s))

pub set_taken :
    (b : Bool) (k v : Text) (s : Map Text Text)
    → contains k s ≡ b
    → (set_if_free b k v s).0 ≡ ok false
    → (contains k s ≡ true) × ((set_if_free b k v s).1 ≡ s)
set_taken true k v s c h = (c, refl)
set_taken false k v s c h = absurd (cc)

pub deleted : (k : Text) (s : Map Text Text) → contains k (delete k s) ≡ false
unfolding contains
deleted k s = rw (lookup-delete_self k s)

unfoldable pub memory : Redis
memory = record {
  State = Map Text Text;
  set_nx = set_nx;
  del = λ k s. (none, delete k s);
  exists = contains;
  set_nx_true = λ k v ttl s h. set_fresh (contains k s) k v s refl h;
  set_nx_false = λ k v ttl s h. set_taken (contains k s) k v s refl h;
  del_removes = λ k s h. deleted k s;
}

-- The values and the one sorted set that the scheduler keeps.
pub record Schedules : Type 0 where
  pub values : Map Text Payload
  pub scores : Map Text ℤ

abbrev pub is_within : ℤ → ℤ → Option ℤ → Bool
is_within min max none = false
is_within min max (some at) = leb_ℤ min at && leb_ℤ at max

abbrev pub keep_if : Bool → Text → List Text → List Text
keep_if true m ms = m ∷ ms
keep_if false m ms = ms

-- The members among `ms` whose score in `scores` is in the range.
abbrev pub within : ℤ → ℤ → Map Text ℤ → Map Text ℤ → List Text
within min max scores [] = []
within min max scores ((m, at) ∷ ms) =
    keep_if (is_within min max (lookup m scores)) m (within min max scores ms)

abbrev pub remove_if : Bool → Text → Schedules → Result ℕ × Schedules
remove_if true m s = (ok 1, record s { scores = delete m s.scores })
remove_if false m s = (ok 0, s)

abbrev pub or_missing : Option Payload → Result Payload
or_missing none = err (message (text "redis: nil"))
or_missing (some v) = ok v

is_within-inv :
    (min max : ℤ) (o : Option ℤ)
    → is_within min max o ≡ true
    → (at : ℤ) × (o ≡ some at) × (min ≤ℤ at) × (at ≤ℤ max)
is_within-inv min max none h = absurd (cc)
is_within-inv min max (some at) h = (at, refl, ground arith, ground arith)

keep_if-inv :
    (P : Text → Bool) (b : Bool) (k m : Text) (ms : List Text)
    → P k ≡ b
    → (elem m ms ≡ true → P m ≡ true)
    → elem m (keep_if b k ms) ≡ true
    → P m ≡ true
keep_if-inv P true k m ms p rest h = elim (Bool-cases (k == m)) [
  | inl same ↦ ap P (sym (eq_of_== k m same)) ∙ p
  | inr apart ↦ rest (ground arith)
]
keep_if-inv P false k m ms p rest h = rest h

within-inv :
    (min max : ℤ) (scores ms : Map Text ℤ) (m : Text)
    → elem m (within min max scores ms) ≡ true
    → is_within min max (lookup m scores) ≡ true
within-inv min max scores [] m h = absurd (cc)
within-inv min max scores ((k, at) ∷ ms) m h =
    keep_if-inv (λ x. is_within min max (lookup x scores)) _ k m (within min max scores ms) refl
      (within-inv min max scores ms m) h

pub range_within :
    (min max : ℤ) (s : Schedules) (due : List Text) (m : Text)
    → ok (within min max s.scores s.scores) ≡ ok due
    → elem m due ≡ true
    → (at : ℤ) × (lookup m s.scores ≡ some at) × (min ≤ℤ at) × (at ≤ℤ max)
range_within min max s due m h e =
    let same : within min max s.scores s.scores ≡ due = cc in
    is_within-inv min max (lookup m s.scores) (within-inv min max s.scores s.scores m (rw same e))

none_of_absent : (o : Option ℤ) → is_some o ≡ false → o ≡ none
none_of_absent none h = refl
none_of_absent (some x) h = absurd (cc)

pub remove_if-removes :
    (b : Bool) (m : Text) (s : Schedules)
    → contains m s.scores ≡ b
    → lookup m (remove_if b m s).1.scores ≡ none
unfolding contains
remove_if-removes true m s c = lookup-delete_self m s.scores
remove_if-removes false m s c = none_of_absent (lookup m s.scores) c

pub remove_if-none :
    (b : Bool) (m : Text) (s : Schedules) (n : ℕ)
    → contains m s.scores ≡ b
    → lookup m s.scores ≡ none
    → (remove_if b m s).0 ≡ ok n
    → (n ≡ 0) × ((remove_if b m s).1 ≡ s)
unfolding contains
remove_if-none true m s n c l h = absurd (cc)
remove_if-none false m s n c l h = (cc, refl)

pub remove_if-keeps :
    (b : Bool) (m k : Text) (s : Schedules)
    → lookup k (remove_if b m s).1.values ≡ lookup k s.values
remove_if-keeps true m k s = refl
remove_if-keeps false m k s = refl

pub remove_if-adds_none :
    (b : Bool) (m j : Text) (s : Schedules)
    → lookup j s.scores ≡ none
    → lookup j (remove_if b m s).1.scores ≡ none
remove_if-adds_none true m j s h = ground (arith, lookup-delete m j s.scores)
remove_if-adds_none false m j s h = h

pub remove_if-others :
    (b : Bool) (m j : Text) (s : Schedules)
    → m ≢ j
    → lookup j (remove_if b m s).1.scores ≡ lookup j s.scores
remove_if-others true m j s apart = lookup-delete m j s.scores ∙ rw (==_of_ne m j apart)
remove_if-others false m j s apart = refl

pub delete_other :
    (k j : Text) (values : Map Text Payload) → k ≢ j → lookup j (delete k values) ≡ lookup j values
delete_other k j values apart = lookup-delete k j values ∙ rw (==_of_ne k j apart)

pub insert_other :
    (at : ℤ) (m j : Text) (scores : Map Text ℤ)
    → m ≢ j
    → lookup j scores ≡ none
    → lookup j (insert m at scores) ≡ none
insert_other at m j scores apart h = lookup-insert m j at scores ∙ rw (==_of_ne m j apart) h

pub or_missing-inv : (o : Option Payload) (v : Payload) → or_missing o ≡ ok v → o ≡ some v
or_missing-inv none v h = absurd (cc)
or_missing-inv (some x) v h = cc

-- One sorted set stands for all, since the scheduler has one.
unfoldable pub schedule_memory : ScheduleRedis
schedule_memory = record {
  State = Schedules;
  set_and_add = λ k v ttl set at m s.
      (none, record { values = insert k v s.values; scores = insert m at s.scores });
  range_by_score = λ set min max count s. ok (within min max s.scores s.scores);
  zrem = λ set m s. remove_if (contains m s.scores) m s;
  get = λ k s. or_missing (lookup k s.values);
  del = λ k s. (none, record s { values = delete k s.values });
  value = λ k s. lookup k s.values;
  score = λ set m s. lookup m s.scores;
  exec_sets =
      λ k v ttl set at m s h. (lookup-insert_self k v s.values, lookup-insert_self m at s.scores);
  range_within = λ set min max count s due m h e. range_within min max s due m h e;
  zrem_removes = λ set m s n h. remove_if-removes (contains m s.scores) m s refl;
  zrem_none = λ set m s n l h. remove_if-none (contains m s.scores) m s n refl l h;
  zrem_keeps = λ set m k s h. remove_if-keeps (contains m s.scores) m k s;
  get_value = λ k s v h. or_missing-inv (lookup k s.values) v h;
  del_removes = λ k s h. lookup-delete_self k s.values;
  del_keeps = λ k set m s h. refl;
  zrem_keeps_others = λ set m j s apart. remove_if-others (contains m s.scores) m j s apart;
  del_keeps_others = λ k j s apart. delete_other k j s.values apart;
  zrem_adds_none = λ set m j s h. remove_if-adds_none (contains m s.scores) m j s h;
  exec_adds_one = λ k v ttl set at m j s apart h. insert_other at m j s.scores apart h;
}
