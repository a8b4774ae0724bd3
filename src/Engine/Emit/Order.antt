-- ===== src/Engine/Emit/Order.antt =====
-- crates/engine/src/lib.rs, `out_ts` and `emit_entry`: the timestamps of what is sent, kind by kind.
use stream_delay.Base.{
  ℕ, ◌+◌, ◌≤◌, ◌≡◌, refl, false, Option, none, some, List, [], ◌∷◌, ◌++◌, max, arith, ltb,
  if◌then◌else◌, map_or, Bool-cases, inl, inr, Option-cases,
}
use stream_delay.Flv.{Bytes}
use stream_delay.Engine.{
  Time, sec, Kind, kind_eq, KindTs, OutMsg, Entry, Header, Headers, HoldFrame, Output, kind_ts,
  set_kind_ts,
}
use stream_delay.Engine.Splice.{out_time, sent_at}
use stream_delay.Engine.Emit.{
  wrap32, message, metadata_known, emit_metadata, emit_frame, emit_media, skips_leading,
  ends_leading, gated, mark_sent, is_sent, drop_frame, emit_config, emit_configs, emit_headers,
  emit_entry, emit_hold_configs, emit_hold_headers, hold_time, send_hold_frame, emit_hold_frame,
}

-- From the last timestamps `k` on, the messages carry, wrapped to 32 bits, timestamps that do not go
-- back within a kind, and leave the last timestamps `k'`.
pub data Ascends : KindTs → List OutMsg → KindTs → Type 0 where
  rest : {k : KindTs} → Ascends k [] k
  sent :
      {k k' : KindTs} {m : OutMsg} {ms : List OutMsg} (t : ℕ)
      → map_or 0 (λ u. u) (kind_ts k m.kind) ≤ t
      → m.timestamp ≡ wrap32 t
      → Ascends (set_kind_ts k m.kind t) ms k'
      → Ascends k (m ∷ ms) k'

pub Ascends-append :
    {k k' k'' : KindTs} {xs ys : List OutMsg}
    → Ascends k xs k'
    → Ascends k' ys k''
    → Ascends k (xs ++ ys) k''
Ascends-append rest b = b
Ascends-append (sent t h e a) b = sent t h e (Ascends-append a b)

-- No kind's last timestamp is after `t`.
pub record AllBy (k : KindTs) (t : ℕ) : Type 0 where
  pub audio_le : map_or 0 (λ u. u) k.of_audio ≤ t
  pub video_le : map_or 0 (λ u. u) k.of_video ≤ t
  pub script_le : map_or 0 (λ u. u) k.of_script ≤ t

-- No kind's last timestamp is after the latest.
abbrev pub IsTimed : Output → Type 0
IsTimed o = AllBy o.last_kind_ts o.last_out_ts

kind_ts-le : {k : KindTs} {t : ℕ} (kind : Kind) → AllBy k t → map_or 0 (λ u. u) (kind_ts k kind) ≤ t
kind_ts-le Kind.audio h = h.audio_le
kind_ts-le Kind.video h = h.video_le
kind_ts-le Kind.script h = h.script_le

pub AllBy-later : {k : KindTs} {t u : ℕ} → t ≤ u → AllBy k t → AllBy k u
AllBy-later le h = record {
  audio_le = ground arith;
  video_le = ground arith;
  script_le = ground arith;
}

later-max : (a b : ℕ) → b ≤ max a b
later-max a b = omega arith

set_kind_ts-AllBy : (kind : Kind) (t : ℕ) (k : KindTs) → AllBy k t → AllBy (set_kind_ts k kind t) t
set_kind_ts-AllBy kind t k h = ground arith

-- What sending keeps and gives, from the last timestamps `k` on.
pub record Goes (k : KindTs) (ms : List OutMsg) (k' : KindTs) (t : ℕ) : Type 0 where
  pub ascends : Ascends k ms k'
  pub timed : AllBy k' t

-- `sent` is what `o` sends on its way to `o'`.
abbrev pub Sends : Output → Output × List OutMsg → Type 0
Sends o r = Goes o.last_kind_ts r.1 r.0.last_kind_ts r.0.last_out_ts

out_time-ge :
    (o : Output) (kind : Kind) (ts : ℕ)
    → map_or 0 (λ u. u) (kind_ts o.last_kind_ts kind) ≤ out_time o kind ts
unfolding out_time
out_time-ge o kind ts = ground arith

sent_at-IsTimed : (kind : Kind) (t : ℕ) (o : Output) → IsTimed o → IsTimed (sent_at kind t o)
unfolding sent_at
sent_at-IsTimed kind t o h = ground arith

one :
    (kind : Kind) (t : ℕ) (payload : Bytes) (seq : Option ℕ) (k : KindTs)
    → map_or 0 (λ u. u) (kind_ts k kind) ≤ t
    → Ascends k (message kind t payload seq ∷ []) (set_kind_ts k kind t)
one kind t payload seq k h = sent t h refl rest

emit_metadata-Goes :
    (m : Option Bytes) (ts : ℕ) (o : Output) → IsTimed o → Sends o (emit_metadata m ts o)
unfolding emit_metadata sent_at
emit_metadata-Goes none ts o h = record { ascends = rest; timed = h }
emit_metadata-Goes (some m) ts o h = elim (Bool-cases (metadata_known o.sent_metadata m)) [
  | inl p ↦ rw (p) (record { ascends = rest; timed = h })
  | inr p ↦ rw (p) (record {
    ascends =
        one Kind.script (out_time o Kind.script ts) m none o.last_kind_ts
          (out_time-ge o Kind.script ts);
    timed = ground arith;
  })
]

emit_frame-Goes : (e : Entry) (o : Output) → IsTimed o → Sends o (emit_frame e o)
unfolding emit_frame sent_at
emit_frame-Goes e o h = record {
  ascends =
      sent (out_time o e.kind e.ts) (out_time-ge o e.kind e.ts) refl
        (elim (Bool-cases (kind_eq e.kind Kind.video)) [
          | inl p ↦ rw (p) rest
          | inr p ↦ rw (p) rest
        ]);
  timed = grind arith;
}

pub quiet-Goes : {k : KindTs} {t : ℕ} → AllBy k t → Goes k [] k t
quiet-Goes h = record { ascends = rest; timed = h }

pub Goes-append :
    {k k' k'' : KindTs} {t t' : ℕ} {xs ys : List OutMsg}
    → Goes k xs k' t
    → Goes k' ys k'' t'
    → Goes k (xs ++ ys) k'' t'
Goes-append a b = record { ascends = Ascends-append a.ascends b.ascends; timed = b.timed }

emit_media-Goes : (e : Entry) (o : Output) → IsTimed o → Sends o (emit_media e o)
unfolding emit_media
emit_media-Goes e o h = elim (Bool-cases (skips_leading e o)) [
  | inl p ↦ rw (p) (quiet-Goes h)
  | inr p ↦ rw (p) (elim (Bool-cases (ends_leading e o)) [
    | inl q ↦ rw (q) (go (record o { skip_leading_after = none }) h)
    | inr q ↦ rw (q) (go o h)
  ])
]
  where
    go :
        (o' : Output)
        → IsTimed o'
        → Sends o' (if gated e o then (drop_frame o', []) else emit_frame e o')
    go o' h' = elim (Bool-cases (gated e o)) [
      | inl r ↦ rw (r) (quiet-Goes h')
      | inr r ↦ rw (r) (emit_frame-Goes e o' h')
    ]

module _ (fingerprint : Bytes → ℕ) where
  emit_config-Goes :
      (kind : Kind) (class : ℕ) (payload : Bytes) (ts : ℕ) (seq : Option ℕ) (o : Output)
      → IsTimed o
      → Sends o (emit_config fingerprint kind class payload ts seq o)
  unfolding emit_config mark_sent sent_at
  emit_config-Goes kind class payload ts seq o h =
      let marked = mark_sent fingerprint kind class payload o in
      let t = out_time marked kind ts in
      elim (Bool-cases (is_sent fingerprint kind class payload o)) [
        | inl p ↦ rw (p) (quiet-Goes h)
        | inr p ↦ rw (p) (record {
          ascends = one kind t payload seq o.last_kind_ts (out_time-ge marked kind ts);
          timed = ground (arith, sent_at-IsTimed kind t marked h);
        })
      ]

  emit_configs-Goes :
      (hs : List Header) (ts : ℕ) (o : Output)
      → IsTimed o
      → Sends o (emit_configs fingerprint hs ts o)
  unfolding emit_configs
  emit_configs-Goes [] ts o h = quiet-Goes h
  emit_configs-Goes (c ∷ hs) ts o h =
      let first = emit_config-Goes c.kind c.class c.payload ts none o h in
      Goes-append first (emit_configs-Goes hs ts _ first.timed)

  pub emit_headers-Goes :
      (hs : Headers) (ts : ℕ) (o : Output) → IsTimed o → Sends o (emit_headers fingerprint hs ts o)
  unfolding emit_headers
  emit_headers-Goes hs ts o h =
      let first = emit_metadata-Goes hs.metadata ts (record o { pending_headers = false }) h in
      Goes-append first (emit_configs-Goes hs.config ts _ first.timed)

  pub emit_entry-Goes : (e : Entry) (o : Output) → IsTimed o → Sends o (emit_entry fingerprint e o)
  unfolding emit_entry
  emit_entry-Goes e o h = elim (Option-cases e.config) [
    | inl n ↦ simp (n, emit_entry) (emit_media-Goes e o h)
    | inr c ↦ simp (c.1, emit_entry) (emit_config-Goes e.kind c.0 e.payload e.ts (some e.seq) o h)
  ]

  -- The frame held is sent after the configuration it needs, at one timestamp after all that was sent.
  emit_hold_configs-Goes :
      (hs : List Header) (t : ℕ) (o : Output)
      → AllBy o.last_kind_ts t
      → Ascends o.last_kind_ts
          (emit_hold_configs fingerprint hs t o).1
          (emit_hold_configs fingerprint hs t o).0.last_kind_ts
        × AllBy (emit_hold_configs fingerprint hs t o).0.last_kind_ts t
  unfolding emit_hold_configs mark_sent
  emit_hold_configs-Goes [] t o h = (rest, h)
  emit_hold_configs-Goes (c ∷ hs) t o h =
      elim (Bool-cases (is_sent fingerprint c.kind c.class c.payload o)) [
        | inl p ↦ simp (p) (emit_hold_configs-Goes hs t o h)
        | inr p ↦ simp (p) (
            let later =
              emit_hold_configs-Goes hs t _ (set_kind_ts-AllBy c.kind t o.last_kind_ts h) in
            (sent t (kind_ts-le c.kind h) refl later.0, later.1))
      ]

  emit_hold_headers-Goes :
      (hs : Headers) (t : ℕ) (o : Output)
      → AllBy o.last_kind_ts t
      → Goes o.last_kind_ts
          (emit_hold_headers fingerprint hs t o).1
          (emit_hold_headers fingerprint hs t o).0.last_kind_ts
          t
  unfolding emit_hold_headers
  emit_hold_headers-Goes hs t o h = elim (Option-cases hs.metadata) [
    | inl n ↦ simp (n) (
        let configs = emit_hold_configs-Goes hs.config t o h in
        record { ascends = configs.0; timed = configs.1 })
    | inr m ↦ simp (m.1) (
        let configs =
          emit_hold_configs-Goes hs.config t
            (record o {
              sent_metadata = some m.0;
              last_kind_ts = set_kind_ts o.last_kind_ts Kind.script t;
            })
            (set_kind_ts-AllBy Kind.script t o.last_kind_ts h) in
        record { ascends = sent t h.script_le refl configs.0; timed = configs.1 })
  ]

  hold_time-later :
      (now : Time) (f : HoldFrame) (o : Output) → o.last_out_ts + 1 ≤ hold_time fingerprint now f o
  unfolding hold_time
  hold_time-later now f o = ground arith

  send_hold_frame-Goes :
      (now : Time) (f : HoldFrame) (o : Output)
      → IsTimed o
      → Sends o (send_hold_frame fingerprint now f o)
  unfolding send_hold_frame
  send_hold_frame-Goes now f o h =
      let t = hold_time fingerprint now f o in
      let before = AllBy-later (omega (arith, hold_time-later now f o)) h in
      elim (Bool-cases f.needs_headers) [
        | inl p ↦ simp (p) (
            let headers =
              emit_hold_headers-Goes f.headers t
                (record o {
                  fresh = false;
                  hold = some (record f { last = now; next = now + sec; needs_headers = false });
                })
                before in
            record {
              ascends =
                  Ascends-append headers.ascends
                    (one Kind.video t f.payload none _ headers.timed.video_le);
              timed = AllBy-later (later-max _ _) (set_kind_ts-AllBy Kind.video t _ headers.timed);
            })
        | inr p ↦ simp (p) (record {
          ascends = one Kind.video t f.payload none _ before.video_le;
          timed = AllBy-later (later-max _ _) (set_kind_ts-AllBy Kind.video t _ before);
        })
      ]

  pub emit_hold_frame-Goes :
      (now : Time) (o : Output)
      → IsTimed o
      → Goes o.last_kind_ts
          (emit_hold_frame fingerprint now o).1
          (emit_hold_frame fingerprint now o).0.last_kind_ts
          (emit_hold_frame fingerprint now o).0.last_out_ts
  unfolding emit_hold_frame
  emit_hold_frame-Goes now o h = elim (Option-cases o.hold) [
    | inl n ↦ simp (n, emit_hold_frame) (quiet-Goes h)
    | inr f ↦
        simp (f.1, emit_hold_frame)
          (elim (Bool-cases (ltb now f.0.next)) [
            | inl p ↦ simp (p) (quiet-Goes h)
            | inr p ↦ simp (p) (send_hold_frame-Goes now f.0 o h)
          ])
  ]
