-- ===== src/Engine/Evict/Keeps.antt =====
-- crates/engine/src/lib.rs, `evict` and `memory_short`: what is still to air.
use stream_delay.Base.{
  ℕ, zero, suc, ◌≤◌, ◌≡◌, refl, true, false, Option, none, some, List, [], ◌∷◌, max, arith, leb,
  Bool-cases, Option-cases, inl, inr, ◌⊎◌, subst, sym, length, head?, is_none_or,
}
use stream_delay.Engine.{Time, Entry, Buffer, Engine}
use stream_delay.Engine.Rolling.{entry, popped, pop_below, pop_until}
use stream_delay.Engine.Splice.{set_pending}
use stream_delay.Engine.Change.{restart_point}
use stream_delay.Engine.Sound.Dropped.{forget_sessions-OnlySessions}
use stream_delay.Engine.Evict.{
  front_group, goes, loses, drop_group, evict_groups, memory_short, shorten, evict, keep_from,
}

pop_below-base :
    (end : ℕ) (r : List Entry) (b : Buffer) → (pop_below end r b).base_seq ≤ max b.base_seq end
unfolding pop_below popped
pop_below-base end [] b = omega arith
pop_below-base end (f ∷ rest) b = ground (arith, pop_below-base end rest (popped f rest b))

drop_group-base :
    (end : ℕ) (g : Engine) → (drop_group end g).buffer.base_seq ≤ max g.buffer.base_seq end
unfolding drop_group pop_until
drop_group-base end g =
    let same = forget_sessions-OnlySessions (record g { buffer = pop_until end g.buffer }) in
    ground (arith, pop_below-base end g.buffer.ring g.buffer)

-- A group that goes without a loss ends before the restart point, where nothing after it was to go.
no_loss :
    (now : Time) (keep : Option ℕ) (r : ℕ) (front : Entry) (g : Engine)
    → is_none_or keep (λ k. leb k r) ≡ true
    → goes (front_group now keep (some r) front g) ≡ true
    → loses now (some r) front g (front_group now keep (some r) front g) ≡ false
    → (front_group now keep (some r) front g).end ≤ r
unfolding front_group
no_loss now keep r front g le h k = ground arith

lost_stays :
    (fuel : ℕ) (now : Time) (keep restart : Option ℕ) (g : Engine)
    → (evict_groups fuel now keep restart true g).1 ≡ true
unfolding evict_groups
lost_stays zero now keep restart g = refl
lost_stays (suc fuel) now keep restart g = grind (arith, lost_stays fuel)

evict_groups-keeps :
    (fuel : ℕ) (now : Time) (keep : Option ℕ) (r : ℕ) (g : Engine)
    → is_none_or keep (λ k. leb k r) ≡ true
    → (evict_groups fuel now keep (some r) false g).1 ≡ false
    → (evict_groups fuel now keep (some r) false g).0.buffer.base_seq ≤ max g.buffer.base_seq r
unfolding evict_groups
evict_groups-keeps zero now keep r g le = λ h. omega arith
evict_groups-keeps (suc fuel) now keep r g le = elim (Option-cases (head? g.buffer.ring)) [
  | inl n ↦ rw (n, evict_groups) (λ h. omega arith)
  | inr f ↦
      rw (f.1, evict_groups)
        (let x = front_group now keep (some r) f.0 g in
          elim (Bool-cases (goes x)) [
            | inr p ↦ rw (p) (λ h. omega arith)
            | inl p ↦ rw (p) (elim (Bool-cases (loses now (some r) f.0 g x)) [
              | inl q ↦ rw (q) (λ h.
                  let lost = lost_stays fuel now keep (some r) (drop_group x.end g) in ground arith)
              | inr q ↦ rw (q) (λ h.
                  let within = no_loss now keep r f.0 g le p q in
                  let dropped = drop_group-base x.end g in
                  let later = evict_groups-keeps fuel now keep r (drop_group x.end g) le h in
                  omega arith)
            ])
          ])
]

-- What is kept reaches back to the restart point.
keep_from-le :
    (now : Time) (g : Engine) (r : ℕ)
    → restart_point g ≡ some r
    → is_none_or (keep_from now g) (λ k. leb k r) ≡ true
unfolding keep_from
keep_from-le now g r h = ground arith

base-evict :
    (now : Time) (g : Engine)
    → (evict now g).buffer.base_seq
      ≡ (evict_groups
          (length g.buffer.ring)
          now
          (keep_from now g)
          (restart_point g)
          false
          g).0.buffer.base_seq
unfolding evict memory_short
base-evict now g = grind arith

evict-lost :
    (now : Time) (g : Engine)
    → (evict_groups (length g.buffer.ring) now (keep_from now g) (restart_point g) false g).1 ≡ true
    → evict now g
      ≡ memory_short now
          (evict_groups (length g.buffer.ring) now (keep_from now g) (restart_point g) false g).0
unfolding evict
evict-lost now g h = rw (h) refl

-- The keyframe at the front of the buffer.
abbrev pub front_sync : Buffer → Option Entry
front_sync b = elim (head? b.syncs) [ none ↦ none | some k ↦ entry b k ]

-- The shortage of memory is shown, or there is no keyframe in the buffer.
abbrev pub TakesNote : Engine → Type 0
TakesNote g = (g.out.memory_short ≡ true) ⊎ (front_sync g.buffer ≡ none)

memory_short-TakesNote : (now : Time) (g : Engine) → TakesNote (memory_short now g)
unfolding memory_short shorten set_pending
memory_short-TakesNote now g = elim (Option-cases (head? g.buffer.syncs)) [
  | inl n ↦ rw (n, memory_short) (inr (ground (arith, n)))
  | inr f ↦ elim (Option-cases (entry g.buffer f.0)) [
    | inl n ↦ rw (f.1, memory_short) (rw (n, memory_short) (inr (ground (arith, f.1, n))))
    | inr e ↦ rw (f.1, memory_short) (rw (e.1, memory_short) (inl (ground arith)))
  ]
]

-- While a broadcast runs, with `r` the keyframe that the output would start from again: eviction
-- drops nothing numbered `r` or above, or the engine then shows that memory ran short, or no keyframe is
-- left in the buffer.
pub evict-keeps :
    (now : Time) (g : Engine) (r : ℕ)
    → restart_point g ≡ some r
    → ((evict now g).buffer.base_seq ≤ max g.buffer.base_seq r) ⊎ TakesNote (evict now g)
evict-keeps now g r h =
    let groups = evict_groups (length g.buffer.ring) now (keep_from now g) (some r) false g in
    elim (Bool-cases groups.1) [
      | inl p ↦ inr (
          let lost = evict-lost now g (
            subst
              (λ x. (evict_groups (length g.buffer.ring) now (keep_from now g) x false g).1 ≡ true)
              (sym h) p) in
          subst TakesNote (sym lost) (memory_short-TakesNote now _))
      | inr p ↦ inl (
          let kept =
            evict_groups-keeps (length g.buffer.ring) now (keep_from now g) r g
              (keep_from-le now g r h) p in
          rw (base-evict now g, h) kept)
    ]
