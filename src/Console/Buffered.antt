-- ===== src/Console/Buffered.antt =====
-- A line-buffered writer above one that takes all it is given.
use taskrunner.Prelude.{
  ℕ, suc, ◌≤◌, ◌<◌, ◌≡◌, ◌⊎◌, refl, sym, ap, subst, ◌∙◌, ◌==◌, if◌then◌else◌, Bool, true, false,
  not, ◌&&◌, List, [], ◌∷◌, ◌++◌, append-nil, Text, IsFree, length, length-append, append_one, leb,
  All, All-append, arith, inl, inr, Bool-cases,
}
use mathlib.Core.List.{append_assoc}
use taskrunner.Console.{
  counted, BufferedWriter, buffer_size, flush, put, write_byte, end_line, write_line_buffered,
  write_messages,
}

abbrev pub joined : List Text → Text
joined [] = []
joined (s ∷ texts) = s ++ joined texts

joined-append : (xs : List Text) (s : Text) → joined (xs ++ s ∷ []) ≡ joined xs ++ s
joined-append [] s = append-nil s
joined-append (x ∷ xs) s =
    ap (λ t. x ++ t) (joined-append xs s) ∙ sym (append_assoc x (joined xs) s)

-- A whole line with its end, or a full buffer of a line that is longer.
abbrev pub IsChunk : Text → Type 0
IsChunk s =
    (IsFree 10 s × (length s ≡ buffer_size))
    ⊎ ((line : Text) × (s ≡ line ++ 10 ∷ []) × IsFree 10 line × (length line < buffer_size))

abbrev pub fresh : BufferedWriter
fresh = record { buf = []; err = false; sent = [] }

-- All that was written to a writer.
abbrev pub contents : BufferedWriter → Text
contents b = joined b.sent ++ b.buf

pub counted-fine :
    (b : BufferedWriter) (r : BufferedWriter × ℕ × Bool)
    → b.err ≡ false
    → counted b r ≡ (r.0, suc r.1, r.2)
counted-fine b r h = ground arith

module _ (deliver : Text → ℕ × Bool) where
  abbrev pub takes : Text → Bool
  takes s = let (n, failed) = deliver s in not failed && leb (length s) n

  record IsGood (b : BufferedWriter) : Type 0 where
    no_err : b.err ≡ false
    free : IsFree 10 b.buf
    fits : length b.buf ≤ buffer_size
    chunks : All IsChunk b.sent

  module _ (all : (s : Text) → takes s ≡ true) where
    flush-taken :
        (c : ℕ) (s : Text) (b : BufferedWriter)
        → b.err ≡ false
        → b.buf ≡ c ∷ s
        → flush deliver b ≡ record { buf = []; err = false; sent = b.sent ++ (c ∷ s) ∷ [] }
    unfolding flush
    flush-taken c s b h e = ground (arith, all b.buf)

    flushed_full :
        (b : BufferedWriter)
        → IsGood b
        → length b.buf ≡ buffer_size
        → IsGood (flush deliver b)
          × (contents (flush deliver b) ≡ contents b)
          × ((flush deliver b).buf ≡ [])
    flushed_full b g h = full b.buf refl
      where
        full :
            (s : Text)
            → b.buf ≡ s
            → IsGood (flush deliver b)
              × (contents (flush deliver b) ≡ contents b)
              × ((flush deliver b).buf ≡ [])
        full [] e = absurd (omega (arith, ap length e))
        full (c ∷ s) e =
            subst (λ b'. IsGood b' × (contents b' ≡ contents b) × (b'.buf ≡ []))
              (sym (flush-taken c s b g.no_err e))
              (
                record {
                  no_err = refl;
                  free = tt;
                  fits = omega arith;
                  chunks =
                      All-append IsChunk b.sent ((c ∷ s) ∷ []) g.chunks (
                        inl (subst (λ t. IsFree 10 t × (length t ≡ buffer_size)) e (g.free, h)),
                        tt,
                      );
                },
                append-nil (joined (b.sent ++ (c ∷ s) ∷ []))
                    ∙ joined-append b.sent (c ∷ s)
                    ∙ ap (λ t. joined b.sent ++ t) (sym e),
                refl,
              )

    -- What a step leaves of `b`: a good writer that has taken `s` as well.
    abbrev Takes : BufferedWriter → Text → BufferedWriter → Type 0
    Takes b s b' = IsGood b' × (contents b' ≡ contents b ++ s)

    abbrev make_room : BufferedWriter → BufferedWriter
    make_room b = if leb buffer_size (length b.buf) then flush deliver b else b

    make_room_lem :
        (b : BufferedWriter)
        → IsGood b
        → Takes b [] (make_room b) × (length (make_room b).buf < buffer_size)
    make_room_lem b g = elim (Bool-cases (leb buffer_size (length b.buf))) [
      | inl e ↦
          let (good, same, empty) = flushed_full b g (full_length b.buf g.fits e) in
          rw e ((good, same ∙ sym (append-nil (contents b))), shorter (flush deliver b).buf empty)
      | inr e ↦ rw e ((g, sym (append-nil (contents b))), not_full b.buf e)
    ]
      where
        full_length :
            (s : Text)
            → length s ≤ buffer_size
            → leb buffer_size (length s) ≡ true
            → length s ≡ buffer_size
        full_length s h e = ground arith

        shorter : (s : Text) → s ≡ [] → length s < buffer_size
        shorter s e = omega (arith, ap length e)

        not_full : (s : Text) → leb buffer_size (length s) ≡ false → length s < buffer_size
        not_full s e = ground arith

    -- A byte that is put into a writer with room.
    put_lem : (c : ℕ) (b : BufferedWriter) → IsGood b → put c b ≡ record b { buf = b.buf ++ c ∷ [] }
    put_lem c b g = rw (g.no_err) refl

    end_line_newline :
        (b : BufferedWriter)
        → IsGood b
        → length b.buf < buffer_size
        → Takes b (10 ∷ []) (flush deliver (record b { buf = b.buf ++ 10 ∷ [] }))
    end_line_newline b g h = ended b.buf refl
      where
        chunk : IsChunk (b.buf ++ 10 ∷ [])
        chunk = inr (b.buf, refl, g.free, h)

        taken :
            (c : ℕ) (s : Text)
            → b.buf ++ 10 ∷ [] ≡ c ∷ s
            → Takes b (10 ∷ []) (flush deliver (record b { buf = b.buf ++ 10 ∷ [] }))
        taken c s e =
            subst (Takes b (10 ∷ []))
              (sym (flush-taken c s (record b { buf = b.buf ++ 10 ∷ [] }) g.no_err e))
              (
                record {
                  no_err = refl;
                  free = tt;
                  fits = omega arith;
                  chunks =
                      All-append IsChunk b.sent ((c ∷ s) ∷ []) g.chunks (subst IsChunk e chunk, tt);
                },
                append-nil (joined (b.sent ++ (c ∷ s) ∷ []))
                    ∙ joined-append b.sent (c ∷ s)
                    ∙ ap (λ t. joined b.sent ++ t) (sym e)
                    ∙ sym (append_assoc (joined b.sent) b.buf (10 ∷ [])),
              )

        ended :
            (s : Text)
            → b.buf ≡ s
            → Takes b (10 ∷ []) (flush deliver (record b { buf = b.buf ++ 10 ∷ [] }))
        ended [] e = taken 10 [] (ap (λ t. t ++ 10 ∷ []) e)
        ended (c ∷ s) e = taken c (s ++ 10 ∷ []) (ap (λ t. t ++ 10 ∷ []) e)

    end_line-Takes :
        (c : ℕ) (b : BufferedWriter)
        → IsGood b
        → length b.buf < buffer_size
        → Takes b (c ∷ []) (end_line deliver c (record b { buf = b.buf ++ c ∷ [] }))
    unfolding end_line
    end_line-Takes c b g h = elim (Bool-cases (c == 10)) [
      | inl e ↦ let newline : c ≡ 10 = ground arith in rw (e, newline) (end_line_newline b g h)
      | inr e ↦ rw e (
        record {
          no_err = g.no_err;
          free = All-append (λ a. (a == 10) ≡ false) b.buf (c ∷ []) g.free (e, tt);
          fits = omega (arith, length-append b.buf (c ∷ []));
          chunks = g.chunks;
        },
        sym (append_assoc (joined b.sent) b.buf (c ∷ [])),
      )
    ]

    write_byte-Takes :
        (c : ℕ) (b : BufferedWriter)
        → IsGood b
        → ((write_byte deliver c b).err ≡ false)
          × Takes b (c ∷ []) (end_line deliver c (write_byte deliver c b))
    unfolding write_byte
    write_byte-Takes c b g =
        let ((good, same), room) = make_room_lem b g in
        let step : write_byte deliver c b
            ≡ record (make_room b) { buf = (make_room b).buf ++ c ∷ [] } =
          if_not b.err g.no_err b (put c (make_room b)) ∙ put_lem c (make_room b) good in
        let (good', same') = end_line-Takes c (make_room b) good room in
        (
          ap (λ (w : BufferedWriter). w.err) step ∙ good.no_err,
          subst (λ w. Takes b (c ∷ []) (end_line deliver c w)) (sym step)
              (good', same' ∙ ap (λ t. t ++ c ∷ []) (same ∙ append-nil (contents b))),
        )
      where
        if_not : (x : Bool) → x ≡ false → (u v : BufferedWriter) → (if x then u else v) ≡ v
        if_not x h u v = ground arith

    abbrev Written : Text → BufferedWriter → BufferedWriter × ℕ × Bool → Type 0
    Written p b r = Takes b p r.0 × (r.1 ≡ length p) × (r.2 ≡ false)

    write_line_buffered-Written :
        (p : Text) (b : BufferedWriter) → IsGood b → Written p b (write_line_buffered deliver p b)
    unfolding write_line_buffered
    write_line_buffered-Written [] b g = ((g, sym (append-nil (contents b))), refl, refl)
    write_line_buffered-Written (c ∷ p) b g =
        let (fine, (good, same)) = write_byte-Takes c b g in
        let (later, n, failed) =
          write_line_buffered-Written p (end_line deliver c (write_byte deliver c b)) good in
        subst (Written (c ∷ p) b)
          (sym (
            counted-fine (write_byte deliver c b)
              (write_line_buffered deliver p (end_line deliver c (write_byte deliver c b))) fine))
          (
            (later.0, later.1 ∙ ap (λ t. t ++ p) same ∙ append_one (contents b) c p),
            ap suc n,
            failed,
          )

    write_messages-Takes :
        (messages : List Text) (b : BufferedWriter)
        → IsGood b
        → Takes b (joined messages) (write_messages deliver messages b)
    unfolding write_messages
    write_messages-Takes [] b g = (g, sym (append-nil (contents b)))
    write_messages-Takes (message ∷ messages) b g =
        let (first, n, failed) = write_line_buffered-Written message b g in
        let rest =
          write_messages-Takes messages (write_line_buffered deliver message b).0 first.0 in
        (
          rest.0,
          rest.1
              ∙ ap (λ t. t ++ joined messages) first.1
              ∙ append_assoc (contents b) message (joined messages),
        )

  pub write_messages-taken :
      (messages : List Text)
      → ((s : Text) → takes s ≡ true)
      → let b = write_messages deliver messages fresh in
        (joined b.sent ++ b.buf ≡ joined messages)
        × All IsChunk b.sent
        × IsFree 10 b.buf
        × (length b.buf ≤ buffer_size)
  write_messages-taken messages all =
      let (good, same) =
        write_messages-Takes all messages fresh
          (record { no_err = refl; free = tt; fits = omega arith; chunks = tt }) in
      (same, good.chunks, good.free, good.fits)
