-- ===== src/Engine/Evict.antt =====
-- crates/engine/src/lib.rs, `evict`: whole groups (a keyframe up to the next) leave the front of the
-- ring when they are expired, not needed, or over the memory limit.
pub mod Limits
pub mod Keeps
use stream_delay.Base.{
  ℕ, zero, suc, ◌+◌, ◌-◌, ◌*◌, Bool, true, false, not, ◌&&◌, ◌||◌, Option, none, some, List, min,
  ltb, leb, if◌then◌else◌, is_some_and, is_none_or, length, head?, find, checked_sub,
}
use stream_delay.Engine.{Time, ms, Entry, Buffer, Pending, Output, EngineConfig, Engine}
use stream_delay.Engine.Rolling.{entry, pop_until, newest_sync_arrived_by}
use stream_delay.Engine.Sessions.{forget_sessions}
use stream_delay.Engine.Splice.{set_pending}
use stream_delay.Engine.Change.{keyframe_interval, restart_point, on_out}

abbrev pub with_anchor : Pending → ℕ → ℕ
with_anchor (Pending.mask _ _ (some a) _ _ _) keep = min keep a
with_anchor _ keep = keep

-- `keep_from`.
unfoldable pub keep_from : Time → Engine → Option ℕ
keep_from now g =
    let start = newest_sync_arrived_by g.buffer (checked_sub now g.out.delay) in
    if g.config.keep_history then none else elim (restart_point g) [
      | some r ↦ some (with_anchor g.out.pending r)
      | none ↦ elim start [ none ↦ none | some k ↦ some (with_anchor g.out.pending k) ]
    ]

abbrev pub capacity : EngineConfig → Time
capacity c = (c.max_delay_ms + c.headroom_ms) * ms

-- The group at the front of the ring: the number that follows it, and why it may go.
pub record Group : Type 0 where
  pub end : ℕ
  pub over_ram : Bool
  pub aired : Bool
  pub expired : Bool
  pub not_needed : Bool

unfoldable pub over_ram : Engine → Bool
over_ram g =
    ltb g.config.ram_cap_bytes (g.buffer.bytes + g.session_bytes) && ltb 1 (length g.buffer.ring)

unfoldable pub group_old : Time → Entry → Option ℕ → Engine → Bool
group_old now front (some s) g =
    is_some_and (entry g.buffer s) (λ e. ltb (e.arrival + capacity g.config) now)
group_old now front none g = not front.sync && ltb (front.arrival + capacity g.config) now

abbrev pub reached : Option ℕ → Option ℕ → Bool
reached (some k) (some s) = leb s k
reached _ _ = false

unfoldable pub front_group : Time → Option ℕ → Option ℕ → Entry → Engine → Group
front_group now keep restart front g =
    let next_sync = find (λ s. ltb front.seq s) g.buffer.syncs in
    let end : ℕ = elim next_sync [ none ↦ front.seq + 1 | some s ↦ s ] in
    let aired = is_none_or restart (λ r. leb end r) in
    record {
      end = end;
      over_ram = over_ram g;
      aired = aired;
      expired = aired && group_old now front next_sync g;
      not_needed = reached keep next_sync;
    }

abbrev pub goes : Group → Bool
goes x = x.over_ram || x.expired || x.not_needed

-- Whether a group that goes was still to air, and went for the memory limit alone.
abbrev pub loses : Time → Option ℕ → Entry → Engine → Group → Bool
loses now restart front g x =
    let unaired =
      if is_none_or restart (λ _. false)
      then ltb now (front.arrival + g.out.delay)
      else not x.aired in
    unaired && not x.expired && not x.not_needed

-- The group is popped, and sessions without content are forgotten.
unfoldable pub drop_group : ℕ → Engine → Engine
drop_group end g = forget_sessions (record g { buffer = pop_until end g.buffer })

-- The outer loop of `evict`, with `lost_unaired`. A round takes an entry at least, so fuel for
-- each entry is enough.
unfoldable pub evict_groups : ℕ → Time → Option ℕ → Option ℕ → Bool → Engine → Engine × Bool
evict_groups zero now keep restart lost g = (g, lost)
evict_groups (suc fuel) now keep restart lost g = elim (head? g.buffer.ring) [
  | none ↦ (g, lost)
  | some front ↦
      let x = front_group now keep restart front g in
      let rest : Engine × Bool =
        evict_groups fuel now keep restart (lost || loses now restart front g x)
          (drop_group x.end g) in
      if goes x then rest else (g, lost)
]

abbrev pub lowers : ℕ → Pending → Bool
lowers delay Pending.idle = true
lowers delay (Pending.reduce d) = ltb delay d
lowers delay _ = false

unfoldable pub shorten : ℕ → Output → Output
shorten delay o =
    if not o.started
    then record o { delay = min o.delay delay; memory_short = true }
    else if lowers delay o.pending && ltb delay o.delay
    then set_pending (Pending.reduce delay) (record o { memory_short = true })
    else record o { memory_short = true }

-- `memory_short`.
unfoldable pub memory_short : Time → Engine → Engine
memory_short now g = elim (head? g.buffer.syncs) [
  | none ↦ g
  | some s ↦ elim (entry g.buffer s) [
    | none ↦ g
    | some oldest ↦ on_out (shorten (now - oldest.arrival - keyframe_interval g.stats)) g
  ]
]

-- `evict`.
unfoldable pub evict : Time → Engine → Engine
evict now g =
    let (g', lost) =
      evict_groups (length g.buffer.ring) now (keep_from now g) (restart_point g) false g in
    if lost then memory_short now g' else g'
