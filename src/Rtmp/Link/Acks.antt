-- ===== src/Rtmp/Link/Acks.antt =====
-- crates/rtmp/src/session/mod.rs, `received`: the acknowledgements that a peer's window asks for.
use stream_delay.Base.{
  ℕ, ◌+◌, ◌-◌, ◌%◌, ◌^◌, ◌<◌, ◌≤◌, true, Bool-cases, inl, inr, ◌&&◌, ltb, leb, List, [], ◌∷◌, ◌++◌,
  append-nil, append_assoc, all, sum_of, ◌≡◌, refl, sym, ◌∙◌, arith,
}
use stream_delay.Flv.{Bytes}
use stream_delay.Rtmp.Chunk.Encode.{ChunkEncoder}
use stream_delay.Rtmp.Message.{acknowledgement, write_u32_control}
use stream_delay.Rtmp.Link.{Link, count_received}

-- One call of `received` for each piece that arrives.
abbrev pub receive_all : List ℕ → Link → Link
receive_all [] l = l
receive_all (n ∷ ns) l = receive_all ns (count_received n l)

-- Acknowledgement messages that tell these counts, as they are written.
abbrev pub acks : ChunkEncoder → List ℕ → Bytes
acks enc [] = []
acks enc (c ∷ cs) = write_u32_control enc acknowledgement (c % 2 ^ 32) ++ acks enc cs

-- The count that the peer was told last, `n` if none of these was sent.
abbrev pub last_told : ℕ → List ℕ → ℕ
last_told n [] = n
last_told n (c ∷ cs) = last_told c cs

-- What one piece does: it is counted, and if a window is full its count is told.
record IsCounted (n : ℕ) (l l' : Link) (cs : List ℕ) : Type 0 where
  bytes_in : l'.bytes_in ≡ l.bytes_in + n
  window : l'.ack_window ≡ l.ack_window
  encoder : l'.encoder ≡ l.encoder
  owed : l'.bytes_in - l'.last_ack < l.ack_window
  sent : l'.out ≡ l.out ++ acks l.encoder cs
  told : l'.last_ack ≡ last_told l.last_ack cs
  known : all (λ c. leb c l'.bytes_in) cs ≡ true

count_received-IsCounted :
    (n : ℕ) (l : Link) → 0 < l.ack_window → (cs : List ℕ) × IsCounted n l (count_received n l) cs
unfolding count_received
count_received-IsCounted n l h =
    elim (Bool-cases (ltb 0 l.ack_window && leb l.ack_window (l.bytes_in + n - l.last_ack))) [
      | inl full ↦ (
        (l.bytes_in + n) ∷ [],
        rw (full, count_received)
            (record {
              bytes_in = refl;
              window = refl;
              encoder = refl;
              owed = omega arith;
              sent =
                  rw
                    (append-nil
                      (write_u32_control l.encoder acknowledgement ((l.bytes_in + n) % 2 ^ 32)))
                    refl;
              told = refl;
              known = ground arith;
            }),
      )
      | inr room ↦ (
        [],
        rw (room, count_received)
            (record {
              bytes_in = refl;
              window = refl;
              encoder = refl;
              owed = ground arith;
              sent = sym (append-nil l.out);
              told = refl;
              known = refl;
            }),
      )
    ]

acks-append :
    (enc : ChunkEncoder) (cs ds : List ℕ) → acks enc (cs ++ ds) ≡ acks enc cs ++ acks enc ds
acks-append enc [] ds = refl
acks-append enc (c ∷ cs) ds = rw (acks-append enc cs ds) (
    sym (
      append_assoc (write_u32_control enc acknowledgement (c % 2 ^ 32)) (acks enc cs)
        (acks enc ds)))

last_told-append : (n : ℕ) (cs ds : List ℕ) → last_told n (cs ++ ds) ≡ last_told (last_told n cs) ds
last_told-append n [] ds = refl
last_told-append n (c ∷ cs) ds = last_told-append c cs ds

all-known :
    (a b : ℕ) (cs ds : List ℕ)
    → a ≤ b
    → all (λ c. leb c a) cs ≡ true
    → all (λ c. leb c b) ds ≡ true
    → all (λ c. leb c b) (cs ++ ds) ≡ true
all-known a b [] ds le h k = k
all-known a b (c ∷ cs) ds le h k = ground (arith, all-known a b cs ds le)

acks-joined :
    {out : Bytes} (l l' : Link) (cs ds : List ℕ)
    → l'.encoder ≡ l.encoder
    → l'.out ≡ l.out ++ acks l.encoder cs
    → out ≡ l'.out ++ acks l'.encoder ds
    → out ≡ l.out ++ acks l.encoder (cs ++ ds)
acks-joined l l' cs ds e first second =
    second
    ∙ rw (e, first, acks-append l.encoder cs ds)
        (append_assoc l.out (acks l.encoder cs) (acks l.encoder ds))

-- In whatever pieces bytes arrive, if the peer has set a window (one above 0) and fewer bytes than that
-- were unacknowledged: all bytes are counted; what the link sends is Acknowledgement messages with the
-- counts `cs` (modulo 2^32), none of which is more than was received; and fewer bytes than a window have
-- arrived since the count that the peer was told last.
pub receive_all-acknowledged :
    (ns : List ℕ) (l : Link)
    → 0 < l.ack_window
    → l.bytes_in - l.last_ack < l.ack_window
    → let l' = receive_all ns l in
      (l'.bytes_in ≡ l.bytes_in + sum_of (λ n. n) ns)
      × (cs : List ℕ) × (l'.out ≡ l.out ++ acks l.encoder cs)
      × (all (λ c. leb c l'.bytes_in) cs ≡ true)
      × (l'.bytes_in - last_told l.last_ack cs < l.ack_window)
receive_all-acknowledged [] l h owed = (omega arith, [], sym (append-nil l.out), refl, owed)
receive_all-acknowledged (n ∷ ns) l h owed =
    let (cs, one) = count_received-IsCounted n l h in
    let l₁ = count_received n l in
    let (all_in, ds, sent, known, left) =
      receive_all-acknowledged ns l₁ (omega (arith, one.window))
        (omega (arith, one.owed, one.window)) in
    (
      omega (arith, one.bytes_in),
      cs ++ ds,
      acks-joined l l₁ cs ds (one.encoder) (one.sent) sent,
      all-known l₁.bytes_in _ cs ds (omega arith) one.known known,
      rw (last_told-append l.last_ack cs ds, sym one.told) (omega (arith, left, one.window)),
    )
