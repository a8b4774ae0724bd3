-- ===== src/Engine/Ingest/Room.antt =====
-- crates/engine/src/lib.rs, `ingest`: the decoder configuration that a session keeps, its number and its size.
use stream_delay.Base.{
  ℕ, ◌+◌, ◌≤◌, List, [], ◌∷◌, arith, leb, Bool-cases, inl, inr, length, sum_of, length-append,
  sum_of-append,
}
use stream_delay.Engine.{HeaderRec, max_headers}
use stream_delay.Engine.Rolling.{cost}
use stream_delay.Engine.Sessions.{header_cost}
use stream_delay.Engine.Ingest.{make_room, keep_header}

-- At most `max_headers` headers, which cost at most `budget`.
abbrev pub Fits : ℕ → List HeaderRec → Type 0
Fits budget hs = (length hs ≤ max_headers) × (sum_of header_cost hs ≤ budget)

-- One more header, of the given size, fits in.
make_room-Fits :
    (size budget : ℕ) (hs : List HeaderRec)
    → size ≤ budget
    → (length (make_room size budget hs) + 1 ≤ max_headers)
      × (sum_of header_cost (make_room size budget hs) + size ≤ budget)
unfolding make_room
make_room-Fits size budget [] h = omega arith
make_room-Fits size budget (x ∷ hs) h = ground (arith, make_room-Fits size budget hs h)

-- A session whose headers are within the number and the budget keeps within them, whatever
-- configuration comes.
pub keep_header-Fits :
    (budget : ℕ) (h : HeaderRec) (hs : List HeaderRec)
    → Fits budget hs
    → Fits budget (keep_header budget h hs)
unfolding keep_header
keep_header-Fits budget h hs fits =
    let size = cost (length h.payload) in
    let kept = make_room size budget hs in
    let counted = length-append kept (h ∷ []) in
    let costed = sum_of-append header_cost kept (h ∷ []) in
    elim (Bool-cases (leb size budget)) [
      | inl p ↦ let room = make_room-Fits size budget hs (ground arith) in ground arith
      | inr p ↦ ground arith
    ]
