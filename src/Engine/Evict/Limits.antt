-- ===== src/Engine/Evict/Limits.antt =====
-- crates/engine/src/lib.rs, `evict`: the memory limit.
use stream_delay.Base.{
  ℕ, zero, suc, ◌≤◌, ◌<◌, ◌≡◌, refl, Bool, false, ◌||◌, Option, none, some, List, [], ◌∷◌, arith,
  ltb, Bool-cases, Option-cases, inl, inr, length, head?, find, find-passes,
}
use stream_delay.Engine.{Time, Entry, Buffer, Engine}
use stream_delay.Engine.Rolling.{popped, pop_below, pop_until}
use stream_delay.Engine.Change.{restart_point}
use stream_delay.Engine.Sound.Dropped.{forget_sessions-OnlySessions}
use stream_delay.Engine.Evict.{
  over_ram, front_group, goes, loses, drop_group, evict_groups, memory_short, evict, keep_from,
}

-- What `pop_below` leaves is no longer, and shorter once the first entry goes.
pop_below-length :
    (end : ℕ) (r : List Entry) (b : Buffer) → length (pop_below end r b).ring ≤ length r
unfolding pop_below
pop_below-length end [] b = omega arith
pop_below-length end (f ∷ rest) b = ground (arith, pop_below-length end rest (popped f rest b))

pop_below-shorter :
    (end : ℕ) (f : Entry) (r : List Entry) (b : Buffer)
    → head? r ≡ some f
    → f.seq < end
    → length (pop_below end r b).ring < length r
unfolding pop_below
pop_below-shorter end f [] b h le = ground arith
pop_below-shorter end f (x ∷ rest) b h le =
    ground (arith, pop_below-length end rest (popped x rest b))

front_group-end :
    (now : Time) (keep restart : Option ℕ) (front : Entry) (g : Engine)
    → front.seq < (front_group now keep restart front g).end
unfolding front_group
front_group-end now keep restart front g =
    elim (Option-cases (find (λ s. ltb front.seq s) g.buffer.syncs)) [
      | inl n ↦ rw (n, front_group) (omega arith)
      | inr s ↦
          let later = find-passes (λ s. ltb front.seq s) g.buffer.syncs {a = s.0} s.1 in
          rw (s.1, front_group) (ground arith)
    ]

-- The buffer of `drop_group`.
drop_group-shorter :
    (now : Time) (keep restart : Option ℕ) (front : Entry) (g : Engine)
    → head? g.buffer.ring ≡ some front
    → length (drop_group (front_group now keep restart front g).end g).buffer.ring
      < length g.buffer.ring
unfolding drop_group pop_until
drop_group-shorter now keep restart front g h =
    let x = front_group now keep restart front g in
    let shorter =
      pop_below-shorter x.end front g.buffer.ring g.buffer h
        (front_group-end now keep restart front g) in
    let same = forget_sessions-OnlySessions (record g { buffer = pop_until x.end g.buffer }) in
    ground arith

-- A ring of at most one entry is not over the limit; nor is one whose front group stays.
short-fits : (g : Engine) → length g.buffer.ring ≤ 1 → over_ram g ≡ false
unfolding over_ram
short-fits g h = ground arith

stays-fits :
    (now : Time) (keep restart : Option ℕ) (front : Entry) (g : Engine)
    → goes (front_group now keep restart front g) ≡ false
    → over_ram g ≡ false
unfolding front_group
stays-fits now keep restart front g h = ground arith

empty-length : (r : List Entry) → head? r ≡ none → length r ≡ 0
empty-length [] h = refl
empty-length (x ∷ r) h = ground arith

evict_groups-fits :
    (fuel : ℕ) (now : Time) (keep restart : Option ℕ) (lost : Bool) (g : Engine)
    → length g.buffer.ring ≤ fuel
    → over_ram (evict_groups fuel now keep restart lost g).0 ≡ false
unfolding evict_groups
evict_groups-fits zero now keep restart lost g h = short-fits g (omega arith)
evict_groups-fits (suc fuel) now keep restart lost g h = elim (Option-cases (head? g.buffer.ring)) [
  | inl n ↦
      rw (n, evict_groups) (let short = empty-length g.buffer.ring n in short-fits g (omega arith))
  | inr f ↦
      rw (f.1, evict_groups)
        (let x = front_group now keep restart f.0 g in
          elim (Bool-cases (goes x)) [
            | inl p ↦ rw (p) (
                let shorter = drop_group-shorter now keep restart f.0 g f.1 in
                evict_groups-fits fuel now keep restart (lost || loses now restart f.0 g x)
                  (drop_group x.end g) (omega arith))
            | inr p ↦ rw (p) (stays-fits now keep restart f.0 g p)
          ])
]

over_ram-memory_short : (now : Time) (g : Engine) → over_ram (memory_short now g) ≡ over_ram g
unfolding over_ram memory_short
over_ram-memory_short now g = ground arith

-- After eviction the buffer and its headers are within the memory limit, or the ring is down to one
-- entry.
pub evict-fits : (now : Time) (g : Engine) → over_ram (evict now g) ≡ false
unfolding evict
evict-fits now g =
    let (g', lost) =
      evict_groups (length g.buffer.ring) now (keep_from now g) (restart_point g) false g in
    let fits =
      evict_groups-fits (length g.buffer.ring) now (keep_from now g) (restart_point g) false g
        (omega arith) in
    let same = over_ram-memory_short now g' in ground arith
