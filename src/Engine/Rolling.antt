-- ===== src/Engine/Rolling.antt =====
-- crates/engine/src/lib.rs, the rolling buffer: the ring of entries, the sequence numbers of its sync
-- points, and the bytes that it counts. Lookups, appends and the ways entries leave it.
pub mod Valid
pub mod Search
use stream_delay.Base.{
  ℕ, ◌+◌, ◌-◌, Bool, true, false, Option, none, some, List, [], ◌∷◌, ◌++◌, ltb, leb, ◌==◌,
  if◌then◌else◌, is_some_and, and_then, length, get_elem?, take, drop, head?, last?, tail, find,
  rfind, retain, sum_of, min, max,
}
use stream_delay.Flv.{Bytes}
use stream_delay.Engine.{Time, Entry, Buffer}

-- `size_of::<Entry>()`, 88 where pointers have 8 bytes, and 64.
abbrev pub entry_overhead : ℕ
entry_overhead = 88 + 64

abbrev pub cost : ℕ → ℕ
cost len = len + entry_overhead

abbrev pub entry_cost : Entry → ℕ
entry_cost e = cost (length e.payload)

-- `Engine::entry`.
unfoldable pub entry : Buffer → ℕ → Option Entry
entry b seq = if ltb seq b.base_seq then none else get_elem? b.ring (seq - b.base_seq)

-- The end of `ingest`: the entry is appended, and indexed if it is a sync point. Its `seq` is the
-- `next_seq` before.
unfoldable pub push : Buffer → Entry → Buffer
push b e = record b {
  ring = b.ring ++ (e ∷ []);
  syncs = if e.sync then b.syncs ++ (e.seq ∷ []) else b.syncs;
  next_seq = b.next_seq + 1;
  bytes = b.bytes + entry_cost e;
}

-- One `pop_front`, of `f` before `rest`, with what `drop_before` and `evict` do after it.
unfoldable pub popped : Entry → List Entry → Buffer → Buffer
popped f rest b = record b {
  ring = rest;
  syncs = if is_some_and (head? b.syncs) (λ s. s == f.seq) then tail b.syncs else b.syncs;
  base_seq = f.seq + 1;
  bytes = b.bytes - entry_cost f;
}

-- The loop of `drop_before`, and the inner one of `evict`: entries go from the front while their
-- number is below `end`. The list is the ring.
unfoldable pub pop_below : ℕ → List Entry → Buffer → Buffer
pop_below end [] b = record b { ring = [] }
pop_below end (f ∷ rest) b =
    let later = pop_below end rest (popped f rest b) in
    if ltb f.seq end then later else record b { ring = f ∷ rest }

unfoldable pub pop_until : ℕ → Buffer → Buffer
pop_until end b = pop_below end b.ring b

-- `drop_before`, without `forget_headers`.
unfoldable pub drop_before : ℕ → Buffer → Buffer
drop_before seq b =
    let c = pop_until seq b in
    if length c.ring == 0 then record c { base_seq = max c.base_seq (min seq c.next_seq) } else c

-- The buffer's part of `drop_buffer`.
unfoldable pub clear : Buffer → Buffer
clear b = record b { ring = []; syncs = []; bytes = 0; base_seq = b.next_seq }

-- The buffer's part of `replay_instead`: what stands at `cut` and after it goes, and what is recorded
-- next takes its numbers.
unfoldable pub cut_at : ℕ → Buffer → Buffer
cut_at cut b =
    let keep = cut - b.base_seq in
    record b {
      ring = take keep b.ring;
      syncs = retain (λ s. ltb s cut) b.syncs;
      next_seq = cut;
      bytes = b.bytes - sum_of entry_cost (drop keep b.ring);
    }

-- `sync_at_or_before`: the newest sync point at or before `seq`.
unfoldable pub sync_at_or_before : Buffer → ℕ → Option ℕ
sync_at_or_before b seq = rfind (λ s. leb s seq) b.syncs

-- `self.entry(s).is_some_and(|e| e.arrival <= t)`, and the opposite.
abbrev pub arrived_by : Buffer → Time → ℕ → Bool
arrived_by b t s = is_some_and (entry b s) (λ e. leb e.arrival t)

abbrev pub arrived_since : Buffer → Time → ℕ → Bool
arrived_since b t s = is_some_and (entry b s) (λ e. leb t e.arrival)

-- `newest_sync_arrived_by`.
unfoldable pub newest_sync_arrived_by : Buffer → Option Time → Option ℕ
newest_sync_arrived_by b none = none
newest_sync_arrived_by b (some t) = rfind (arrived_by b t) b.syncs

-- `self.syncs.iter().find(|&&s| self.entry(s).is_some_and(|e| e.arrival >= from))`.
unfoldable pub first_sync_since : Buffer → Time → Option ℕ
first_sync_since b from = find (arrived_since b from) b.syncs

-- `self.entry(k).map_or(now, |e| e.arrival)`.
unfoldable pub arrival_or : Buffer → ℕ → Time → Time
arrival_or b k now = elim (entry b k) [ none ↦ now | some e ↦ e.arrival ]

-- `next_session_start`: the first entry of a later session.
unfoldable pub next_session_start : Buffer → ℕ → ℕ
next_session_start b session = elim (find (λ e. ltb session e.session) b.ring) [
  | none ↦ b.next_seq
  | some e ↦ e.seq
]
