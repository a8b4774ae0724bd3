-- ===== src/Engine/Rolling/Valid.antt =====
-- crates/engine/src/lib.rs, the rolling buffer: its representation invariant, operation by operation.
use stream_delay.Base.{
  ℕ, zero, suc, ◌+◌, ◌-◌, ◌≤◌, ◌<◌, ◌≡◌, refl, subst, inl, inr, false, List, [], ◌∷◌, ◌++◌, arith,
  ltb, ◌==◌, if◌then◌else◌, is_some_and, Bool-cases, length, take, drop, head?, retain, sum_of, min,
  max, length-append, sum_of-append, length-take,
}
use stream_delay.Engine.{Entry, Buffer, empty_buffer}
use stream_delay.Engine.Rolling.{
  entry_cost, push, popped, pop_below, pop_until, drop_before, clear, cut_at,
}

-- Entries carry consecutive sequence numbers, from `n` on.
abbrev pub Numbered : ℕ → List Entry → Type 0
Numbered n [] = Unit
Numbered n (e ∷ es) = (e.seq ≡ n) × Numbered (suc n) es

-- The sequence numbers of the sync points, in order.
abbrev pub sync_seqs : List Entry → List ℕ
sync_seqs [] = []
sync_seqs (e ∷ es) = if e.sync then e.seq ∷ sync_seqs es else sync_seqs es

-- `syncs` indexes exactly the sync points of the ring, `bytes` is what its entries cost, and the ring
-- holds the numbers from `base_seq` up to `next_seq`.
pub record IsValid (b : Buffer) : Type 0 where
  pub numbered : Numbered b.base_seq b.ring
  pub next : b.next_seq ≡ b.base_seq + length b.ring
  pub counted : b.bytes ≡ sum_of entry_cost b.ring
  pub indexed : b.syncs ≡ sync_seqs b.ring

pub empty-IsValid : IsValid empty_buffer
empty-IsValid = record { numbered = tt; next = refl; counted = refl; indexed = refl }

pub clear-IsValid : (b : Buffer) → IsValid (clear b)
unfolding clear
clear-IsValid b = record { numbered = tt; next = omega arith; counted = refl; indexed = refl }

Numbered-append :
    (n : ℕ) (xs : List Entry) (e : Entry)
    → Numbered n xs
    → e.seq ≡ n + length xs
    → Numbered n (xs ++ (e ∷ []))
Numbered-append n [] e h q = (omega arith, tt)
Numbered-append n (x ∷ xs) e h q = (h.0, Numbered-append (suc n) xs e h.1 (omega arith))

sync_seqs-append :
    (xs : List Entry) (e : Entry)
    → sync_seqs (xs ++ (e ∷ [])) ≡ (if e.sync then sync_seqs xs ++ (e.seq ∷ []) else sync_seqs xs)
sync_seqs-append [] e = ground arith
sync_seqs-append (x ∷ xs) e = ground (arith, sync_seqs-append xs e)

-- Appending the message numbered `next_seq` keeps the invariant.
pub push-IsValid : (b : Buffer) (e : Entry) → IsValid b → e.seq ≡ b.next_seq → IsValid (push b e)
unfolding push
push-IsValid b e v q = record {
  numbered = Numbered-append b.base_seq b.ring e v.numbered (omega arith);
  next = omega (arith, length-append b.ring (e ∷ []));
  counted = omega (arith, sum_of-append entry_cost b.ring (e ∷ []));
  indexed = rw (sync_seqs-append b.ring e, v.indexed);
}

-- No sync point after position `n` has the number `n`.
head-sync_seqs :
    (n : ℕ) (es : List Entry)
    → Numbered (suc n) es
    → is_some_and (head? (sync_seqs es)) (λ s. s == n) ≡ false
head-sync_seqs n es h = go n (suc n) es (omega arith) h
  where
    go :
        (n m : ℕ) (es : List Entry)
        → n < m
        → Numbered m es
        → is_some_and (head? (sync_seqs es)) (λ s. s == n) ≡ false
    go n m [] lt h = refl
    go n m (e ∷ es) lt h = ground (arith, go n (suc m) es)

popped-IsValid :
    (f : Entry) (rest : List Entry) (b : Buffer)
    → IsValid (record b { ring = f ∷ rest })
    → IsValid (popped f rest b)
unfolding popped
popped-IsValid f rest b v = record {
  numbered = subst (λ n. Numbered n rest) step v.numbered.1;
  next = omega arith;
  counted = omega arith;
  indexed = ground (arith, head-sync_seqs b.base_seq rest v.numbered.1);
}
  where
    step : suc b.base_seq ≡ f.seq + 1
    step = omega arith

pop_below-IsValid :
    (end : ℕ) (ring : List Entry) (b : Buffer)
    → IsValid (record b { ring = ring })
    → IsValid (pop_below end ring b)
unfolding pop_below popped
pop_below-IsValid end [] b v = v
pop_below-IsValid end (f ∷ rest) b v = elim (Bool-cases (ltb f.seq end)) [
  | inl e ↦ rw e (pop_below-IsValid end rest (popped f rest b) (popped-IsValid f rest b v))
  | inr e ↦ rw e v
]

-- Dropping the front of the ring keeps the invariant.
pub pop_until-IsValid : (end : ℕ) (b : Buffer) → IsValid b → IsValid (pop_until end b)
unfolding pop_until
pop_until-IsValid end b v = pop_below-IsValid end b.ring b v

-- `drop_before` keeps the invariant, up to the number that comes next.
pub drop_before-IsValid : (seq : ℕ) (b : Buffer) → IsValid b → IsValid (drop_before seq b)
unfolding drop_before
drop_before-IsValid seq b v = emptied (pop_until seq b) (pop_until-IsValid seq b v)
  where
    emptied :
        (c : Buffer)
        → IsValid c
        → IsValid (
            if length c.ring == 0
            then record c { base_seq = max c.base_seq (min seq c.next_seq) }
            else c)
    emptied c w = elim (Bool-cases (length c.ring == 0)) [
      | inl e ↦
          let same : max c.base_seq (min seq c.next_seq) ≡ c.base_seq = ground arith in
          rw (e, same) w
      | inr e ↦ rw e w
    ]

Numbered-take : (k n : ℕ) (es : List Entry) → Numbered n es → Numbered n (take k es)
Numbered-take zero n es h = tt
Numbered-take (suc k) n [] h = tt
Numbered-take (suc k) n (e ∷ es) h = (h.0, Numbered-take k (suc n) es h.1)

sum_of-take-drop :
    (k : ℕ) (es : List Entry)
    → sum_of entry_cost (take k es) + sum_of entry_cost (drop k es) ≡ sum_of entry_cost es
sum_of-take-drop zero es = omega arith
sum_of-take-drop (suc k) [] = omega arith
sum_of-take-drop (suc k) (e ∷ es) = omega (arith, sum_of-take-drop k es)

-- From a position on, every sync point is at or above its number.
retain-above :
    (cut n : ℕ) (es : List Entry)
    → Numbered n es
    → cut ≤ n
    → retain (λ s. ltb s cut) (sync_seqs es) ≡ []
retain-above cut n [] h le = refl
retain-above cut n (e ∷ es) h le = ground (arith, retain-above cut (suc n) es)

retain-sync_seqs :
    (k n cut : ℕ) (es : List Entry)
    → Numbered n es
    → cut ≡ n + k
    → retain (λ s. ltb s cut) (sync_seqs es) ≡ sync_seqs (take k es)
retain-sync_seqs zero n cut es h q = retain-above cut n es h (omega arith)
retain-sync_seqs (suc k) n cut [] h q = refl
retain-sync_seqs (suc k) n cut (e ∷ es) h q = ground (arith, retain-sync_seqs k (suc n) cut es)

-- Cutting the ring at a number that it holds, or at its end, keeps the invariant.
pub cut_at-IsValid :
    (cut : ℕ) (b : Buffer)
    → IsValid b
    → b.base_seq ≤ cut
    → cut ≤ b.next_seq
    → IsValid (cut_at cut b)
unfolding cut_at
cut_at-IsValid cut b v lo hi = record {
  numbered = Numbered-take (cut - b.base_seq) b.base_seq b.ring v.numbered;
  next = omega (arith, length-take (cut - b.base_seq) b.ring);
  counted = omega (arith, sum_of-take-drop (cut - b.base_seq) b.ring);
  indexed =
      rw v.indexed
        (retain-sync_seqs (cut - b.base_seq) b.base_seq cut b.ring v.numbered (omega arith));
}

next-pop_below :
    (end : ℕ) (ring : List Entry) (b : Buffer) → (pop_below end ring b).next_seq ≡ b.next_seq
unfolding pop_below popped
next-pop_below end [] b = refl
next-pop_below end (f ∷ rest) b = ground (arith, next-pop_below end rest (popped f rest b))

-- Popping and dropping change no number that is still to come.
pub next-pop_until : (end : ℕ) (b : Buffer) → (pop_until end b).next_seq ≡ b.next_seq
unfolding pop_until
next-pop_until end b = next-pop_below end b.ring b

pub next-drop_before : (seq : ℕ) (b : Buffer) → (drop_before seq b).next_seq ≡ b.next_seq
unfolding drop_before
next-drop_before seq b = ground (arith, next-pop_until seq b)

pub next-clear : (b : Buffer) → (clear b).next_seq ≡ b.next_seq
unfolding clear
next-clear b = refl

pub base-le-next : (b : Buffer) → IsValid b → b.base_seq ≤ b.next_seq
base-le-next b v = omega arith
