-- ===== src/Engine/Sessions.antt =====
-- crates/engine/src/lib.rs: the encoder sessions, the decoder configuration that each keeps, and when
-- it is forgotten.
use stream_delay.Base.{
  ℕ, ◌+◌, Bool, false, not, ◌&&◌, ◌||◌, Option, none, some, List, [], ◌∷◌, ◌++◌, map, ltb, leb,
  ◌==◌, if◌then◌else◌, opt_eq, is_some_and, map_or, length, head?, last?, find, retain, any, sum_of,
}
use stream_delay.Engine.{Kind, kind_eq, Header, Headers, HeaderRec, Session, Engine}
use stream_delay.Engine.Rolling.{cost}

abbrev pub header_cost : HeaderRec → ℕ
header_cost h = cost (length h.payload)

-- `Session::cost`.
unfoldable pub session_cost : Session → ℕ
session_cost s = cost (map_or 0 length s.metadata) + sum_of header_cost s.headers

-- `count_sessions`.
unfoldable pub count_sessions : Engine → Engine
count_sessions e = record e { session_bytes = sum_of session_cost e.sessions }

-- A later header that replaces `h` for everything still buffered.
abbrev pub replaces : ℕ → HeaderRec → HeaderRec → Bool
replaces base h n = kind_eq n.kind h.kind && n.class == h.class && ltb n.seq base

-- The `while` loop of `forget_headers` on one session.
unfoldable pub kept_headers : ℕ → List HeaderRec → List HeaderRec
kept_headers base [] = []
kept_headers base (h ∷ hs) =
    if any (replaces base h) hs then kept_headers base hs else h ∷ kept_headers base hs

-- Its `changed`.
unfoldable pub forgets : ℕ → List HeaderRec → Bool
forgets base [] = false
forgets base (h ∷ hs) = any (replaces base h) hs || forgets base hs

abbrev pub forget_session : ℕ → Session → Session
forget_session base s = record s { headers = kept_headers base s.headers }

-- `forget_headers`.
unfoldable pub forget_headers : Engine → Engine
forget_headers e =
    let base = e.buffer.base_seq in
    let e' = record e { sessions = map (forget_session base) e.sessions } in
    if any (λ s. forgets base s.headers) e.sessions then count_sessions e' else e'

-- The sessions that `forget_sessions` keeps: none older than `oldest`, but the current one.
abbrev pub still_needed : ℕ → Option ℕ → Session → Bool
still_needed oldest current s = leb oldest s.id || opt_eq (some s.id) current

abbrev pub session_id : Option Session → Option ℕ
session_id none = none
session_id (some s) = some s.id

unfoldable pub drop_sessions : ℕ → Engine → Engine
drop_sessions oldest e =
    if is_some_and (head? e.sessions) (λ s. ltb s.id oldest)
    then count_sessions (record e {
      sessions = retain (still_needed oldest (session_id (last? e.sessions))) e.sessions;
    })
    else e

-- `forget_sessions`.
unfoldable pub forget_sessions : Engine → Engine
forget_sessions e =
    let e' = forget_headers e in
    elim (head? e'.buffer.ring) [ none ↦ e' | some front ↦ drop_sessions front.session e' ]

abbrev pub find_session : List Session → ℕ → Option Session
find_session sessions id = find (λ s. s.id == id) sessions

-- `frame_ms`.
unfoldable pub frame_ms : List Session → ℕ → ℕ
frame_ms sessions id = elim (find_session sessions id) [ none ↦ 33 | some s ↦ s.frame_ms ]

abbrev pub same_class : Kind → ℕ → Header → Bool
same_class kind class h = kind_eq h.kind kind && h.class == class

-- The loop of `headers_at`: a later version takes the place of an earlier one.
unfoldable pub in_effect : ℕ → List HeaderRec → List Header → List Header
in_effect seq [] config = config
in_effect seq (h ∷ hs) config = in_effect seq hs (
    if ltb h.seq seq
    then retain (λ c. not (same_class h.kind h.class c)) config
      ++ (record { kind = h.kind; class = h.class; payload = h.payload } ∷ [])
    else config)

-- `headers_at`.
unfoldable pub headers_at : List Session → ℕ → ℕ → Headers
headers_at sessions session seq = elim (find_session sessions session) [
  | none ↦ record { metadata = none; config = [] }
  | some s ↦ record { metadata = s.metadata; config = in_effect seq s.headers [] }
]
