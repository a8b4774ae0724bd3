-- ===== src/Engine/Sound/Received.antt =====
-- crates/engine/src/lib.rs: the engine's invariant over the messages and connections of the encoder.
use stream_delay.Base.{
  ℕ, ◌≡◌, refl, Bool, true, false, inl, inr, some, List, [], ◌∷◌, arith, if◌then◌else◌, is_some,
  Bool-cases, Option-cases, sum_of, last?, map_last, length, not, ◌||◌, ◌==◌,
}
use stream_delay.Flv.{Bytes}
use stream_delay.Engine.{Time, Engine, Kind, Session, IngestTracker, new, EngineConfig}
use stream_delay.Engine.Rolling.{push}
use stream_delay.Engine.Rolling.Valid.{push-IsValid, empty-IsValid}
use stream_delay.Engine.Sessions.{session_cost, count_sessions}
use stream_delay.Engine.Ingest.{
  drop_idle_session, fresh_start, ingest_start, ingest_end, ingest_metadata, Reading, reading,
  read_video, read_audio, with_config, new_entry, session_after, appended, append, ingest,
}
use stream_delay.Engine.Sound.{IsSound}
use stream_delay.Engine.Sound.Dropped.{OnlySessions, evict-IsSound, drop_buffer-IsSound}

-- A new engine satisfies the invariant.
pub new-IsSound : (c : EngineConfig) → IsSound (new c)
new-IsSound c = record {
  buffer = empty-IsValid;
  sessions = refl;
  cursor = omega arith;
  mark = refl;
  target = omega arith;
}

-- What is measured of a message that is no configuration does not change what its session counts.
cost-reading :
    (now : Time) (kind : Kind) (ts : ℕ) (payload : Bytes) (s : Session) (t : IngestTracker)
    → session_cost (reading now kind ts payload s t).session ≡ session_cost s
unfolding reading read_video read_audio session_cost
cost-reading now Kind.video ts payload s t = ground arith
cost-reading now Kind.audio ts payload s t = ground arith
cost-reading now Kind.script ts payload s t = refl

cost-map_last :
    (ss : List Session) (s s' : Session)
    → last? ss ≡ some s
    → session_cost s' ≡ session_cost s
    → sum_of session_cost (map_last (λ _. s') ss) ≡ sum_of session_cost ss
cost-map_last [] s s' h e = refl
cost-map_last (x ∷ []) s s' h e = ground arith
cost-map_last (x ∷ y ∷ ss) s s' h e = ground (arith, cost-map_last (y ∷ ss) s s')

-- All but the count of the sessions, which a message of configuration changes.
appended-IsSound :
    (now : Time) (kind : Kind) (ts : ℕ) (payload : Bytes) (r : Reading) (g : Engine) (n : ℕ)
    → n ≡ sum_of session_cost (appended now kind ts payload r g).sessions
    → IsSound g
    → IsSound (record (appended now kind ts payload r g) { session_bytes = n })
unfolding appended
appended-IsSound now kind ts payload r g n h i = record {
  buffer =
      push-IsValid g.buffer (new_entry now kind ts payload r g) i.buffer (unfold new_entry in refl);
  sessions = h;
  cursor = unfold push in omega arith;
  mark = unfold push in ground arith;
  target = i.target;
}

append-IsSound :
    (now : Time) (kind : Kind) (ts : ℕ) (payload : Bytes) (r : Reading) (s : Session) (g : Engine)
    → last? g.sessions ≡ some s
    → session_cost r.session ≡ session_cost s
    → IsSound g
    → IsSound (append now kind ts payload r g)
unfolding append
append-IsSound now kind ts payload r s g l e i = counted (is_some r.config) refl
  where
    same :
        is_some r.config ≡ false
        → g.session_bytes ≡ sum_of session_cost (appended now kind ts payload r g).sessions
    same n =
        unfold appended session_after with_config in
        ground (arith, cost-map_last g.sessions s r.session l e)

    counted :
        (b : Bool)
        → is_some r.config ≡ b
        → IsSound (
            if b
            then count_sessions (appended now kind ts payload r g)
            else appended now kind ts payload r g)
    counted true n = unfold count_sessions in appended-IsSound now kind ts payload r g _ refl i
    counted false n =
        unfold appended in (appended-IsSound now kind ts payload r g g.session_bytes (same n) i)

-- A message that arrives keeps the invariant.
pub ingest-IsSound :
    (now : Time) (kind : Kind) (ts : ℕ) (payload : Bytes) (g : Engine)
    → IsSound g
    → IsSound (ingest now kind ts payload g)
unfolding ingest
ingest-IsSound now kind ts payload g i =
    elim (Bool-cases (not g.ingest_active || length payload == 0)) [
      | inl e ↦ rw e i
      | inr e ↦ rw e (elim (Option-cases (last? g.sessions)) [
        | inl n ↦ rw n i
        | inr l ↦ rw l.1 (
            evict-IsSound now
              (append now kind ts payload (reading now kind ts payload l.0 g.stats) g)
              (append-IsSound now kind ts payload (reading now kind ts payload l.0 g.stats) l.0 g
                l.1 (cost-reading now kind ts payload l.0 g.stats) i))
      ])
    ]

-- So do a publisher that connects or goes, and metadata.
drop_idle-OnlySessions : (g : Engine) → OnlySessions g (drop_idle_session g)
unfolding drop_idle_session
drop_idle-OnlySessions g = ground arith

fresh_start-IsSound : (g : Engine) → IsSound g → IsSound (fresh_start g)
unfolding fresh_start
fresh_start-IsSound g i = ground (arith, drop_buffer-IsSound g i)

pub ingest_start-IsSound : (g : Engine) → IsSound g → IsSound (ingest_start g).0
unfolding ingest_start count_sessions
ingest_start-IsSound g i =
    ground (arith, fresh_start-IsSound g i, drop_idle-OnlySessions (fresh_start g))

pub ingest_end-IsSound : (g : Engine) → IsSound g → IsSound (ingest_end g)
unfolding ingest_end
ingest_end-IsSound g i = ground arith

pub ingest_metadata-IsSound :
    (payload : Bytes) (g : Engine) → IsSound g → IsSound (ingest_metadata payload g)
unfolding ingest_metadata count_sessions
ingest_metadata-IsSound payload g i = ground arith
