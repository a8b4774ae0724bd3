-- ===== src/Engine/Dump/Discards.antt =====
-- crates/engine/src/lib.rs, `dump`: what is in the buffer after it.
use stream_delay.Base.{
  ℕ, zero, suc, ◌-◌, ◌≤◌, ◌≡◌, refl, Bool, none, List, [], ◌∷◌, arith, inl, inr, ◌⊎◌, subst, sym,
  length, get_elem?, take, length-take,
}
use stream_delay.Engine.{Time, DelayMode, Entry, Buffer, Engine}
use stream_delay.Engine.Rolling.{entry, cut_at, clear}
use stream_delay.Engine.Sessions.{count_sessions}
use stream_delay.Engine.Change.Frame.{splice_to-OnlyOut}
use stream_delay.Engine.Drop.{emptied, drop_buffer}
use stream_delay.Engine.Sound.Dropped.{forget_headers-OnlySessions}
use stream_delay.Engine.Dump.{
  cut, split_session, cut_unaired, replay_at, dump_all, dump_running, dump, retarget,
}

get_elem?-past : (i : ℕ) (es : List Entry) → length es ≤ i → get_elem? es i ≡ none
get_elem?-past i [] h = refl
get_elem?-past zero (x ∷ es) h = ground arith
get_elem?-past (suc i) (x ∷ es) h = get_elem?-past i es (omega arith)

-- From `cut` on there is nothing.
abbrev EndsBefore : ℕ → Buffer → Type 0
EndsBefore cut b = (k : ℕ) → cut ≤ k → entry b k ≡ none

cut_at-EndsBefore : (c : ℕ) (b : Buffer) → EndsBefore c (cut_at c b)
unfolding cut_at entry
cut_at-EndsBefore c b k h =
    let short = length-take (c - b.base_seq) b.ring in
    let past = get_elem?-past (k - b.base_seq) (take (c - b.base_seq) b.ring) (omega arith) in
    ground arith

clear-EndsBefore : (c : ℕ) (b : Buffer) → EndsBefore c (clear b)
unfolding clear entry
clear-EndsBefore c b k h = ground arith

drop_buffer-buffer : (g : Engine) → (drop_buffer g).buffer ≡ clear g.buffer
unfolding drop_buffer emptied count_sessions
drop_buffer-buffer g = let kept = forget_headers-OnlySessions (emptied g) in ground arith

cut_unaired-buffer : (g : Engine) → (cut_unaired g).buffer ≡ cut_at (cut g) g.buffer
unfolding cut_unaired split_session count_sessions
cut_unaired-buffer g = ground arith

replay_at-buffer :
    (now : Time) (delay k : ℕ) (g : Engine)
    → (replay_at now delay k g).buffer ≡ cut_at (cut g) g.buffer
unfolding replay_at
replay_at-buffer now delay k g = grind (arith, splice_to-OnlyOut, cut_unaired-buffer)

dump_all-buffer :
    (now : Time) (delay : ℕ) (cover : Bool) (g : Engine)
    → (dump_all now delay cover g).0.buffer ≡ clear g.buffer
unfolding dump_all
dump_all-buffer now delay cover g = grind (arith, drop_buffer-buffer)

-- What a dump does to the buffer: it is emptied, or cut off at what has not aired.
dump-buffer :
    (now : Time) (mode : DelayMode) (cover : Bool) (g : Engine)
    → (((dump now mode cover g).0.buffer ≡ clear g.buffer)
        ⊎ ((dump now mode cover g).0.buffer ≡ cut_at (cut g) g.buffer))
unfolding dump dump_running retarget
dump-buffer now mode cover g = grind (arith, drop_buffer-buffer, replay_at-buffer, dump_all-buffer)

dump-EndsBefore :
    (now : Time) (mode : DelayMode) (cover : Bool) (g : Engine)
    → EndsBefore (cut g) (dump now mode cover g).0.buffer
dump-EndsBefore now mode cover g = elim (dump-buffer now mode cover g) [
  | inl q ↦ subst (λ b. EndsBefore (cut g) b) (sym q) (clear-EndsBefore (cut g) g.buffer)
  | inr q ↦ subst (λ b. EndsBefore (cut g) b) (sym q) (cut_at-EndsBefore (cut g) g.buffer)
]

-- After a dump the buffer has no entry that had not aired: none at or after the output's cursor, or the
-- ring's front where the cursor fell behind it.
pub entry-dump :
    (now : Time) (mode : DelayMode) (cover : Bool) (g : Engine) (k : ℕ)
    → cut g ≤ k
    → entry (dump now mode cover g).0.buffer k ≡ none
entry-dump now mode cover g k h = dump-EndsBefore now mode cover g k h
