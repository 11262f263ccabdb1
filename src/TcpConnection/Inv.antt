-- ===== src/TcpConnection/Inv.antt =====
-- netlib/net/TcpConnection.cc: what holds of a connection between two handlers.
use netlib.Base.{
  ℕ, ◌+◌, ◌<◌, ◌≡◌, ◌≢◌, inl, inr, refl, sym, ap, ◌∙◌, Bool, true, List, [], ◌∷◌, ◌++◌, some,
  length, ltb, ◌==◌, Bool-cases, length-append, int_limit, arith,
}
use netlib.Buffer.{Buffer, readable_bytes, append}
use netlib.Buffer.Inv.{content, readable_bytes_lem, length-content}
use netlib.Buffer.Inv
use netlib.Buffer.Ops.{append-Shows}
use netlib.Chnnel.{is_writing, enable_writing}
use netlib.TcpConnection.{
  Conn, disconnected, Effect, enqueue, ensure_writing, construct, hight_water_call, updated,
}

-- Both buffers are sound, and a live connection watches for writability exactly while bytes wait.
pub record IsValid (c : Conn) : Type 0 where
  pub input_valid : Inv.IsValid c.input
  pub output_valid : Inv.IsValid c.output
  pub armed : c.state ≢ disconnected → is_writing c.events ≡ ltb 0 (length (content c.output))

pub construct-IsValid :
    (i o : Buffer) → Inv.IsValid i → Inv.IsValid o → content o ≡ [] → IsValid (construct i o)
unfolding construct is_writing
construct-IsValid i o v w e = record { input_valid = v; output_valid = w; armed = λ _. rw e refl }

-- `readAbleBytes() == 0` says that nothing waits.
pub readable_zero :
    (b : Buffer) → Inv.IsValid b → (readable_bytes b == 0) ≡ (length (content b) == 0)
readable_zero b v = ap (λ (n : ℕ). n == 0) (readable_bytes_lem b v ∙ sym (length-content b v))

pub nil_of_length : {A : Type 0} (xs : List A) → length xs ≡ 0 → xs ≡ []
nil_of_length [] h = refl
nil_of_length (x ∷ xs) h = absurd (omega arith)

abbrev pub is_writing_now : Conn → Bool
is_writing_now c = is_writing c.events

module _ (c : Conn) (v : Inv.IsValid c.input) (w : Inv.IsValid c.output) where
  -- What is put behind the waiting bytes is kept in order, and the channel is armed.
  pub enqueue-IsValid :
      (rest : List ℕ) (due : List Effect)
      → 0 < length rest
      → c.output.writer_index + length rest < int_limit
      → (d : Conn) × (es : List Effect) × (enqueue c rest due ≡ some (d, es))
        × IsValid d
        × (d.state ≡ c.state)
        × (content d.output ≡ content c.output ++ rest)
  unfolding enqueue ensure_writing is_writing enable_writing
  enqueue-IsValid rest due h k = elim (Bool-cases (is_writing_now c)) [
    | inl on ↦ (
      record c { output = out.0 },
      due ++ (hight_water_call c (length rest) ++ []),
      rw (out.1, on) refl,
      record { input_valid = v; output_valid = out.2; armed = λ _. on ∙ sym filled },
      refl,
      out.3,
    )
    | inr off ↦ (
      record c { output = out.0; events = enable_writing c.events },
      due ++ (hight_water_call c (length rest) ++ updated (enable_writing c.events) ∷ []),
      rw (out.1, off) refl,
      record { input_valid = v; output_valid = out.2; armed = λ _. sym filled },
      refl,
      out.3,
    )
  ]
    where
      out :
          (o : Buffer) × (append rest c.output ≡ some o)
          × Inv.IsValid o
          × (content o ≡ content c.output ++ rest)
      out = let (o, e, u, _, s) = append-Shows rest c.output w k in (o, e, u, s)

      filled : ltb 0 (length (content out.0)) ≡ true
      filled = rw (out.3, length-append (content c.output) rest) (ground arith)
