-- ===== src/Engine/Emit/Once.antt =====
-- crates/engine/src/lib.rs, `emit_entry` and `mark_header_sent`: decoder configurations that come again.
use stream_delay.Base.{
  ℕ, ◌≡◌, Bool, true, not, ◌||◌, ◌&&◌, Option, List, [], ◌∷◌, ◌++◌, arith, ◌==◌, Bool-cases, inl,
  inr, any, retain,
}
use stream_delay.Flv.{Bytes}
use stream_delay.Engine.{Kind, kind_eq, SentHeader, Output}
use stream_delay.Engine.Splice.{sent_at}
use stream_delay.Engine.Emit.{mark_sent, is_sent, emit_config}

any-append :
    (p : SentHeader → Bool) (xs : List SentHeader) (y : SentHeader)
    → any p (xs ++ (y ∷ [])) ≡ any p xs || p y
any-append p [] y = ground arith
any-append p (x ∷ xs) y = ground (arith, any-append p xs y)

module _ (fp : Bytes → ℕ) where
  mark_sent-is_sent :
      (kind : Kind) (class : ℕ) (payload : Bytes) (o : Output)
      → is_sent fp kind class payload (mark_sent fp kind class payload o) ≡ true
  unfolding mark_sent
  mark_sent-is_sent kind class payload o =
      let last =
        any-append (λ s. kind_eq s.kind kind && s.class == class && s.print == fp payload)
          (retain (λ s. not (kind_eq s.kind kind && s.class == class)) o.sent_headers)
          (record { kind = kind; class = class; print = fp payload }) in
      rw (last) (ground arith)

  known-quiet :
      (kind : Kind) (class : ℕ) (payload : Bytes) (ts : ℕ) (seq : Option ℕ) (o : Output)
      → is_sent fp kind class payload o ≡ true
      → emit_config fp kind class payload ts seq o ≡ (o, [])
  unfolding emit_config
  known-quiet kind class payload ts seq o h = ground arith

  emit_config-is_sent :
      (kind : Kind) (class : ℕ) (payload : Bytes) (ts : ℕ) (seq : Option ℕ) (o : Output)
      → is_sent fp kind class payload (emit_config fp kind class payload ts seq o).0 ≡ true
  unfolding emit_config sent_at
  emit_config-is_sent kind class payload ts seq o =
      let marked = mark_sent-is_sent kind class payload o in
      elim (Bool-cases (is_sent fp kind class payload o)) [
        | inl p ↦ rw (p) p
        | inr p ↦ rw (p) marked
      ]

  -- Once a configuration is sent, sending it again sends nothing and changes nothing.
  pub emit_config-once :
      (kind : Kind) (class : ℕ) (payload : Bytes) (ts ts' : ℕ) (seq seq' : Option ℕ) (o : Output)
      → let o' = (emit_config fp kind class payload ts seq o).0 in
        emit_config fp kind class payload ts' seq' o' ≡ (o', [])
  emit_config-once kind class payload ts ts' seq seq' o =
      known-quiet kind class payload ts' seq' (emit_config fp kind class payload ts seq o).0
        (emit_config-is_sent kind class payload ts seq o)
