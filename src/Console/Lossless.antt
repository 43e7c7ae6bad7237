-- ===== src/Console/Lossless.antt =====
-- A line-buffered writer loses nothing unless it fails.
use taskrunner.Prelude.{
  ℕ, ◌≤◌, ◌≡◌, refl, sym, ap, subst, ◌∙◌, ◌==◌, Bool, true, false, ◌||◌, List, [], ◌∷◌, ◌++◌, Text,
  IsFree, is_empty, length, leb, ltb, All, arith, inl, inr, Bool-cases,
}
use taskrunner.Console.{
  BufferedWriter, buffer_size, flush, put, write_byte, end_line, counted, write_line_buffered,
  write_messages,
}
use taskrunner.Console.Buffered.{joined, IsChunk, fresh, counted-fine, write_messages-taken}
use taskrunner.Console.Stuck.{write_line_buffered-err, write_messages-err}

-- A writer that takes all it is given.
abbrev total : Text → ℕ × Bool
total s = (length s, false)

put-err : (c : ℕ) (b : BufferedWriter) → (put c b).err ≡ false → b.err ≡ false
put-err c b h = ground arith

module _ (deliver : Text → ℕ × Bool) where
  flush-same :
      (b : BufferedWriter) → (flush deliver b).err ≡ false → flush deliver b ≡ flush total b
  unfolding flush
  flush-same b h = elim (Bool-cases b.err) [
    | inl e ↦ absurd (ground arith)
    | inr e ↦ elim (Bool-cases (is_empty b.buf)) [
      | inl n ↦ ground arith
      | inr n ↦ elim (Bool-cases ((deliver b.buf).1 || ltb (deliver b.buf).0 (length b.buf))) [
        | inl f ↦ absurd (ground arith)
        | inr f ↦ ground arith
      ]
    ]
  ]

  write_byte-same :
      (c : ℕ) (b : BufferedWriter)
      → (write_byte deliver c b).err ≡ false
      → write_byte deliver c b ≡ write_byte total c b
  unfolding write_byte
  write_byte-same c b h = elim (Bool-cases b.err) [
    | inl e ↦ rw e refl
    | inr e ↦ elim (Bool-cases (leb buffer_size (length b.buf))) [
      | inr n ↦ rw (e, n) refl
      | inl n ↦
          let mine : write_byte deliver c b ≡ put c (flush deliver b) = rw (e, n) refl in
          let other : write_byte total c b ≡ put c (flush total b) = rw (e, n) refl in
          let fine =
            put-err c (flush deliver b) (sym (ap (λ (w : BufferedWriter). w.err) mine) ∙ h) in
          mine ∙ ap (put c) (flush-same b fine) ∙ sym other
    ]
  ]

  end_line-same :
      (c : ℕ) (b : BufferedWriter)
      → (end_line deliver c b).err ≡ false
      → end_line deliver c b ≡ end_line total c b
  unfolding end_line
  end_line-same c b h = elim (Bool-cases (c == 10)) [
    | inl e ↦
        let mine : end_line deliver c b ≡ flush deliver b = rw e refl in
        let other : end_line total c b ≡ flush total b = rw e refl in
        mine ∙ flush-same b (sym (ap (λ (w : BufferedWriter). w.err) mine) ∙ h) ∙ sym other
    | inr e ↦ rw e refl
  ]

  counted-err :
      (b : BufferedWriter) (r : BufferedWriter × ℕ × Bool)
      → b.err ≡ true
      → (counted b r).0.err ≡ false
      → ⊥
  counted-err b r e h = ground arith

  -- An error stays, so that there is none before an end without one.
  no_err :
      (p : Text) (b : BufferedWriter)
      → (write_line_buffered deliver p b).0.err ≡ false
      → b.err ≡ false
  no_err p b h = elim (Bool-cases b.err) [
    | inr e ↦ e
    | inl e ↦
        let same = ap (λ (w : BufferedWriter). w.err) (write_line_buffered-err deliver p b e) in
        sym same ∙ h
  ]

  no_err_before :
      (messages : List Text) (b : BufferedWriter)
      → (write_messages deliver messages b).err ≡ false
      → b.err ≡ false
  no_err_before messages b h = elim (Bool-cases b.err) [
    | inr e ↦ e
    | inl e ↦
        let same = ap (λ (w : BufferedWriter). w.err) (write_messages-err deliver messages b e) in
        sym same ∙ h
  ]

  write_line_buffered-same :
      (p : Text) (b : BufferedWriter)
      → (write_line_buffered deliver p b).0.err ≡ false
      → (write_line_buffered deliver p b).0 ≡ (write_line_buffered total p b).0
  unfolding write_line_buffered
  write_line_buffered-same [] b h = refl
  write_line_buffered-same (c ∷ p) b h =
      let put_in = write_byte deliver c b in
      let ended = end_line deliver c put_in in
      let rest = write_line_buffered deliver p ended in
      elim (Bool-cases put_in.err) [
        | inl e ↦ absurd (counted-err put_in rest e h)
        | inr e ↦
            let same : (counted put_in rest).0 ≡ rest.0 =
              ap (λ (r : BufferedWriter × ℕ × Bool). r.0) (counted-fine put_in rest e) in
            let fine : rest.0.err ≡ false = sym (ap (λ (w : BufferedWriter). w.err) same) ∙ h in
            let byte = write_byte-same c b e in
            let line = end_line-same c put_in (no_err p ended fine) in
            let both : ended ≡ end_line total c (write_byte total c b) =
              line ∙ ap (end_line total c) byte in
            let rest' = write_line_buffered total p (end_line total c (write_byte total c b)) in
            let err' : (write_byte total c b).err ≡ false =
              sym (ap (λ (w : BufferedWriter). w.err) byte) ∙ e in
            same
            ∙ write_line_buffered-same p ended fine
            ∙ ap (λ x. (write_line_buffered total p x).0) both
            ∙ sym (
                ap (λ (r : BufferedWriter × ℕ × Bool). r.0)
                  (counted-fine (write_byte total c b) rest' err'))
      ]

  write_messages-same :
      (messages : List Text) (b : BufferedWriter)
      → (write_messages deliver messages b).err ≡ false
      → write_messages deliver messages b ≡ write_messages total messages b
  unfolding write_messages
  write_messages-same [] b h = refl
  write_messages-same (message ∷ messages) b h =
      let first = (write_line_buffered deliver message b).0 in
      write_messages-same messages first h
      ∙ ap (write_messages total messages)
          (write_line_buffered-same message b (no_err_before messages first h))

  -- Whatever the writer below does, unless a line-buffered writer ends with an error it has passed on
  -- all messages that were written to it, byte for byte in their order, each time a whole line with its
  -- end or a full buffer of a longer line; what it still holds back is the begin of a line, and
  -- fits into the buffer.
  pub write_messages_lem :
      (messages : List Text)
      → (write_messages deliver messages fresh).err ≡ false
      → let b = write_messages deliver messages fresh in
        (joined b.sent ++ b.buf ≡ joined messages)
        × All IsChunk b.sent
        × IsFree 10 b.buf
        × (length b.buf ≤ buffer_size)
  write_messages_lem messages h =
      subst
        (λ (b : BufferedWriter).
          (joined b.sent ++ b.buf ≡ joined messages)
          × All IsChunk b.sent
          × IsFree 10 b.buf
          × (length b.buf ≤ buffer_size))
        (sym (write_messages-same messages fresh h))
        (write_messages-taken total messages (λ s. ground arith))
