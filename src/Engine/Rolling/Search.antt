-- ===== src/Engine/Rolling/Search.antt =====
-- crates/engine/src/lib.rs: lookups in a valid buffer.
use stream_delay.Base.{
  ℕ, zero, suc, ◌+◌, ◌-◌, ◌≤◌, ◌<◌, ◌≡◌, inl, inr, some, List, [], ◌∷◌, arith, ltb, Bool-cases,
  Option-cases, length, get_elem?, find,
}
use stream_delay.Engine.{Entry, Buffer}
use stream_delay.Engine.Rolling.{entry, next_session_start}
use stream_delay.Engine.Rolling.Valid.{Numbered, IsValid}

get_elem?-Numbered :
    (n i : ℕ) (es : List Entry) {e : Entry}
    → Numbered n es
    → get_elem? es i ≡ some e
    → (e.seq ≡ n + i) × (i < length es)
get_elem?-Numbered n zero [] h q = ground arith
get_elem?-Numbered n (suc i) [] h q = ground arith
get_elem?-Numbered n zero (x ∷ es) h q = ground arith
get_elem?-Numbered n (suc i) (x ∷ es) {e} h q =
    omega (arith, get_elem?-Numbered (suc n) i es {e = e} h.1 q)

-- The entry found under `k` carries the number `k`, and the ring holds that number.
pub entry_bounds :
    (b : Buffer) (k : ℕ) {e : Entry}
    → IsValid b
    → entry b k ≡ some e
    → (e.seq ≡ k) × (b.base_seq ≤ k) × (k < b.next_seq)
unfolding entry
entry_bounds b k {e} v q = elim (Bool-cases (ltb k b.base_seq)) [
  | inl t ↦ ground arith
  | inr t ↦
      let found : get_elem? b.ring (k - b.base_seq) ≡ some e = ground arith in
      let facts = get_elem?-Numbered b.base_seq (k - b.base_seq) b.ring v.numbered found in
      ground arith
]

find-Numbered :
    (session n : ℕ) (es : List Entry) {e : Entry}
    → Numbered n es
    → find (λ x. ltb session x.session) es ≡ some e
    → (n ≤ e.seq) × (e.seq < n + length es) × (session < e.session)
find-Numbered session n [] h q = ground arith
find-Numbered session n (x ∷ es) {e} h q = elim (Bool-cases (ltb session x.session)) [
  | inl t ↦ ground arith
  | inr t ↦
      let later : find (λ x. ltb session x.session) es ≡ some e = ground arith in
      omega (arith, find-Numbered session (suc n) es {e = e} h.1 later)
]

-- The start of the next session lies within what was received.
pub next_session_start-le :
    (b : Buffer) (session : ℕ) → IsValid b → next_session_start b session ≤ b.next_seq
unfolding next_session_start
next_session_start-le b session v = elim (Option-cases (find (λ e. ltb session e.session) b.ring)) [
  | inl n ↦ rw (n, next_session_start) (omega arith)
  | inr f ↦
      let facts = find-Numbered session b.base_seq b.ring {e = f.0} v.numbered f.1 in
      rw (f.1, next_session_start) (omega arith)
]
