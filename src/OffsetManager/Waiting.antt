-- ===== src/OffsetManager/Waiting.antt =====
-- `Drain` of internal/offsetmanager/manager.go as a whole: the wait, with what other goroutines do
-- in the meantime.
use raider_worker.Base.{
  List, Option, [], arith, bool_eq, int_eq, length, list_eq, lookup, nat_eq, none, pos, some, suc,
  text, true, unit_eq, ℕ, ℤ, ◌<◌, ◌∷◌, ◌≡◌, ◌≤◌, Bool, ap, false, get_elem?, if◌then◌else◌, nat_beq,
  refl, set, sub64-pred, zero, ◌+◌, ◌↔◌, ◌∙◌, get_elem?-set_self, ◌++◌, if_false, leb_ℤ-false,
  length-append, lookup-insert_self, leb_ℤ, length-set,
}
use raider_worker.Event.Errors.{GoError, message}
use raider_worker.OffsetManager.Partition.{PartitionState, mark_complete}
use raider_worker.OffsetManager.Manager.{
  PartitionKey, key_eq, Manager, DrainStart, drained, waits, begin_drain, receive, put,
}
use raider_worker.OffsetManager.Refinement.{Call, completes, call, local, lookup-call_self}
use raider_worker.OffsetManager.Drain.{complete_wakes, begin_drain_lem, drain_step}

-- The calls of other goroutines, in the order in which they come.
abbrev pub Others : Type 0
Others = List (PartitionKey × Call)

abbrev pub deadline_exceeded : GoError
deadline_exceeded = message (text "context deadline exceeded")

-- The select of `Drain` while the other goroutines go on: it ends by the signal, or with the
-- context's error once the calls that come before the deadline are over.
unfoldable pub await : ℕ → Others → Manager → Manager × Option GoError
await ch [] m = elim (receive ch m) [ none ↦ (m, some deadline_exceeded) | some m' ↦ (m', none) ]
await ch ((k, c) ∷ rest) m =
    let more = await ch rest (call k c m) in
    elim (receive ch m) [ none ↦ more | some m' ↦ (m', none) ]

unfoldable pub wait_for : Others → DrainStart × Manager → Manager × Option GoError
wait_for others (drained, m) = (m, none)
wait_for others (waits ch, m) = await ch others m

-- `Drain`, with the calls that other goroutines make while it waits.
unfoldable pub drain : Others → PartitionKey → Manager → Manager × Option GoError
unfolding wait_for
drain others k m = wait_for others (begin_drain k m)

-- The completions of some offsets of one partition.
abbrev pub completions : PartitionKey → List ℤ → Others
completions k [] = []
completions k (o ∷ os) = (k, completes o) ∷ completions k os

add-one_ap : (n : ℕ) → ◌≡◌ {A = ℤ} (pos (suc n)) (pos (n + 1))
add-one_ap n = ap pos (omega arith)

still_made :
    (cs : List Bool) {ch : ℕ} (b : Bool)
    → ch < length cs
    → ch < length (if b then set cs ch true else cs)
still_made cs {ch} true h = rw (length-set cs ch true) h
still_made cs false h = h

-- A drain that waits on `ch` for `n` records of partition `k`.
pub record Waits (k : PartitionKey) (ch n : ℕ) (st : PartitionState) (m : Manager) : Type 0 where
  pub found : lookup k m.partitions ≡ some st
  pub draining : st.draining ≡ true
  pub channel : st.drain_ch ≡ some ch
  pub count : st.in_flight ≡ pos n
  pub few : n ≤ 0x7fffffffffffffff
  pub made : ch < length m.channels

module _ {k : PartitionKey} {ch n : ℕ} {st : PartitionState} {m : Manager}
    (w : Waits k ch (suc n) st m) (o : ℤ) where
  woken :
      (call k (completes o) m).channels
      ≡ (if nat_beq n 0 then set m.channels ch true else m.channels)
  woken = unfold call in complete_wakes k m st ch n o w.found w.draining w.channel w.count w.few

  next_wait : Waits k ch n (mark_complete o st) (call k (completes o) m)
  next_wait = record {
    found = lookup-call_self k (completes o) m ∙ (unfold local in rw w.found);
    draining = unfold mark_complete in w.draining;
    channel = unfold mark_complete in w.channel;
    count =
        unfold mark_complete in
        rw (w.count, add-one_ap n) (sub64-pred n (let f = w.few in omega arith));
    few = let f = w.few in omega arith;
    made = rw woken (still_made m.channels (nat_beq n 0) w.made);
  }

receive-some :
    (ch : ℕ) (m : Manager)
    → get_elem? m.channels ch ≡ some true
    → receive ch m ≡ some (record m { channels = set m.channels ch false })
unfolding receive
receive-some ch m h = rw (h, receive)

receive-none : (ch : ℕ) (m : Manager) → get_elem? m.channels ch ≡ some false → receive ch m ≡ none
unfolding receive
receive-none ch m h = rw (h, receive)

-- Once the signal is there, the wait is over whatever comes.
await_signalled :
    (ch : ℕ) (others : Others) (m : Manager)
    → get_elem? m.channels ch ≡ some true
    → (await ch others m).1 ≡ none
unfolding await
await_signalled ch [] m h = rw (receive-some ch m h, await)
await_signalled ch ((k, c) ∷ rest) m h = rw (receive-some ch m h, await)

await_timeout :
    (ch : ℕ) (m : Manager)
    → get_elem? m.channels ch ≡ some false
    → (await ch [] m).1 ≡ some deadline_exceeded
unfolding await
await_timeout ch m h = rw (receive-none ch m h, await)

await_later :
    (ch : ℕ) (k : PartitionKey) (c : Call) (rest : Others) (m : Manager)
    → get_elem? m.channels ch ≡ some false
    → await ch ((k, c) ∷ rest) m ≡ await ch rest (call k c m)
unfolding await
await_later ch k c rest m h = rw (receive-none ch m h, await)

later :
    (k : PartitionKey) (ch : ℕ) (o : ℤ) (os : List ℤ) (m : Manager)
    → get_elem? m.channels ch ≡ some false
    → await ch (completions k (o ∷ os)) m ≡ await ch (completions k os) (call k (completes o) m)
later k ch o os m h = await_later ch k (completes o) (completions k os) m h

suc_ne_zero : (n : ℕ) → nat_beq (suc n) 0 ≡ false
suc_ne_zero n = ground arith

await-completions :
    (k : PartitionKey) (ch n : ℕ) (st : PartitionState) (m : Manager) (os : List ℤ)
    → Waits k ch (suc n) st m
    → get_elem? m.channels ch ≡ some false
    → ((await ch (completions k os) m).1 ≡ none) ↔ (n < length os)
await-completions k ch n st m [] w h =
    (λ e. absurd (cc (await_timeout ch m h)), λ lt. absurd (omega (arith, lt)))
await-completions k ch zero st m (o ∷ os) w h = (
  λ _. omega arith,
  λ _. rw (await_later ch k (completes o) (completions k os) m h) (
      await_signalled ch (completions k os) (call k (completes o) m)
        (rw (woken w o) (get_elem?-set_self m.channels ch true w.made))),
)
await-completions k ch (suc n) st m (o ∷ os) w h =
    let ih =
      await-completions k ch n (mark_complete o st) (call k (completes o) m) os (next_wait w o)
        (rw (woken w o ∙ if_false _ _ (suc_ne_zero n)) h) in
    (
      λ e. omega (arith, ih.0 (rw (later k ch o os m h) at e)),
      λ lt. rw (later k ch o os m h) (ih.1 (omega (arith, lt))),
    )

get_elem?-append_last : (cs : List Bool) (v : Bool) → get_elem? (cs ++ v ∷ []) (length cs) ≡ some v
get_elem?-append_last [] v = refl
get_elem?-append_last (c ∷ cs) v = get_elem?-append_last cs v

-- With `n` records in flight, a drain during which `os` are completed and nothing else happens ends
-- without an error exactly when at least `n` of them come before the deadline.
pub drain-completions :
    (k : PartitionKey) (m : Manager) (st : PartitionState) (n : ℕ) (os : List ℤ)
    → lookup k m.partitions ≡ some st
    → st.in_flight ≡ pos n
    → n ≤ 0x7fffffffffffffff
    → ((drain (completions k os) k m).1 ≡ none) ↔ (n ≤ length os)
unfolding drain
drain-completions k m st zero os h f few =
    (λ _. omega arith, λ _. rw (begin_drain_lem k m st h, f) refl)
drain-completions k m st (suc n) os h f few = rw (begin_drain_lem k m st h ∙ busy) (
    let ih =
      await-completions k ch n st' m' os waiting
        (unfold put in get_elem?-append_last m.channels false) in
    (λ e. omega (arith, ih.0 e), λ le. ih.1 (omega (arith, le))))
  where
    ch : ℕ
    ch = length m.channels

    st' : PartitionState
    st' = record st { draining = true; drain_ch = some ch }

    m' : Manager
    m' = put k st' (record m { channels = m.channels ++ false ∷ [] })

    busy : drain_step k st m ≡ (waits ch, m')
    busy =
        if_false {b = leb_ℤ st.in_flight (pos 0)} _ _
          (rw f (leb_ℤ-false (pos (suc n)) (pos 0) (omega arith)))

    waiting : Waits k ch (suc n) st' m'
    waiting = record {
      found = unfold put in lookup-insert_self k st' m.partitions;
      draining = refl;
      channel = refl;
      count = f;
      few = few;
      made = unfold put in omega (arith, length-append m.channels (false ∷ []));
    }
