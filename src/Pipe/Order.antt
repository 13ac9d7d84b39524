-- ===== src/Pipe/Order.antt =====
-- A pipe delivers the bytes in the order in which they were written.
use mit_jos_f22_advanced_os.Base.{
  ℕ, zero, suc, ◌+◌, ◌-◌, ◌%◌, ◌^◌, ◌≤◌, ◌<◌, ◌≡◌, refl, ap, ◌∙◌, sym, Bool, not, ◌&&◌, inl, inr,
  List, [], ◌∷◌, ◌++◌, leb, ◌==◌, if◌then◌else◌, arith, Bool-cases, length, length-append,
}
use mathlib.Core.List.{append_assoc, append-nil}
use mit_jos_f22_advanced_os.Pipe.Ring.{
  Pipe, Outcome, returned, waiting, take_byte, put_byte, devpipe_read, devpipe_write, st_size,
  ring_index,
}
use mit_jos_f22_advanced_os.Pipe.Window.{
  IsPipe, window, contents, is_full-small, st_size-small, contents-put, contents-take,
  length-window,
}

-- What a read of `n` bytes after the first `i` leaves: the bytes it gives and the unread ones
-- together are the unread ones of before, oldest first.
pub record IsRead (n i : ℕ) (closed : Bool) (p : Pipe) (o : Outcome) (out : List ℕ) (p' : Pipe)
    : Type 0 where
  pub order : out ++ contents p' ≡ contents p
  pub count : length out ≡ (if leb n (st_size p) then n else st_size p)
  pub sound : IsPipe p'
  pub ending : o ≡ (
      if not (n == 0) && (st_size p == 0) && (i == 0)
      then (if closed then returned 0 else waiting 0)
      else returned (i + length out))

-- A read of `n` bytes on a sound pipe keeps it sound and gives the oldest unread bytes, `n` or all
-- there are, in their order; the others stay. With nothing to give at the start it returns 0 if
-- the writers are gone and waits otherwise; it returns the count in all other cases.
pub devpipe_read-IsRead :
    (n i : ℕ) (closed : Bool) (p : Pipe)
    → IsPipe p
    → let (o, out, p') = devpipe_read n i closed p in IsRead n i closed p o out p'
unfolding devpipe_read
devpipe_read-IsRead zero i closed p v = record {
  order = refl;
  count = ground arith;
  sound = v;
  ending = ground arith;
}
devpipe_read-IsRead (suc n) i closed p v =
    let size = st_size-small p v.ahead v.small in
    elim (Bool-cases (p.p_rpos == p.p_wpos)) [
      | inl e ↦
          let none_left : st_size p ≡ 0 = ground (arith, size, e) in
          rw e (record {
            order = refl;
            count = ground (arith, none_left);
            sound = v;
            ending = ground (arith, none_left);
          })
      | inr ne ↦
          let lt : p.p_rpos < p.p_wpos = ground (arith, v.ahead) in
          let next : IsPipe (take_byte p) = record {
            ahead = omega (arith, lt, v.small);
            room = omega (arith, v.room, lt, v.small);
            small = v.small;
          } in
          let left = st_size-small (take_byte p) next.ahead next.small in
          let one_less : st_size p ≡ suc (st_size (take_byte p)) =
            omega (arith, size, left, lt, v.small) in
          let ih = devpipe_read-IsRead n (i + 1) closed (take_byte p) next in
          rw ne (record {
            order =
                ap (λ l. p.p_buf (ring_index p.p_rpos) ∷ l) ih.order ∙ sym (contents-take p v lt);
            count = ground (arith, ih.count, one_less);
            sound = ih.sound;
            ending = ground (arith, ih.ending, one_less);
          })
    ]

-- What a write of the bytes `bytes` after the first `i` leaves: those stored follow the unread
-- ones of before, the others are `left`.
pub record IsWritten (bytes : List ℕ) (i : ℕ) (closed : Bool) (p : Pipe) (o : Outcome)
    (left : List ℕ) (p' : Pipe) : Type 0 where
  pub order : contents p' ++ left ≡ contents p ++ bytes
  pub count : length left ≡ length bytes - (32 - st_size p)
  pub sound : IsPipe p'
  pub ending : o ≡ (
      if length left == 0
      then returned (i + length bytes)
      else if closed
      then returned 0
      else waiting (i + (32 - st_size p)))

-- A write of `bytes` on a sound pipe, with no wrap of the writer's position, keeps it sound and appends to the unread bytes as many of
-- `bytes` as there is room for, in their order. It returns the count when all are stored, and
-- otherwise 0 if the readers are gone or waits with the bytes that are left.
pub devpipe_write-IsWritten :
    (bytes : List ℕ) (i : ℕ) (closed : Bool) (p : Pipe)
    → IsPipe p
    → p.p_wpos + length bytes < 2 ^ 31
    → let (o, left, p') = devpipe_write bytes i closed p in IsWritten bytes i closed p o left p'
unfolding devpipe_write st_size
devpipe_write-IsWritten [] i closed p v few = record {
  order = refl;
  count = ground arith;
  sound = v;
  ending = ground arith;
}
devpipe_write-IsWritten (b ∷ bytes) i closed p v few =
    let test = is_full-small p (omega (arith, v.ahead, v.small)) v.small in
    rw test (elim (Bool-cases (leb (p.p_rpos + 32) p.p_wpos)) [
      | inl full ↦ rw full (record {
        order = refl;
        count = ground (arith, v.room, v.ahead, v.small);
        sound = v;
        ending = ground (arith, v.room, v.ahead, v.small);
      })
      | inr some_room ↦
          let lt : p.p_wpos < p.p_rpos + 32 = ground arith in
          let next : IsPipe (put_byte b p) = record {
            ahead = omega (arith, v.ahead, few);
            room = omega (arith, lt, few);
            small = omega (arith, few);
          } in
          let fits : (p.p_wpos + 1) % 2 ^ 32 + length bytes < 2 ^ 31 = omega (arith, few) in
          let ih = devpipe_write-IsWritten bytes (i + 1) closed (put_byte b p) next fits in
          rw some_room (record {
            order =
                ih.order
                ∙ ap (λ l. l ++ bytes) (contents-put b p v lt)
                ∙ append_assoc (contents p) (b ∷ []) bytes;
            count = ground (arith, ih.count, v.ahead, few);
            sound = ih.sound;
            ending = ground (arith, ih.ending, ih.count, v.ahead, few);
          })
    ])

nil_of : (xs : List ℕ) → length xs ≡ 0 → xs ≡ []
nil_of [] h = refl
nil_of (x ∷ xs) h = absurd (omega (arith, h))

nothing_left : (xs ys zs : List ℕ) → xs ++ ys ≡ zs → length xs ≡ length zs → xs ≡ zs
nothing_left [] ys [] e h = refl
nothing_left [] ys (z ∷ zs) e h = absurd (omega (arith, h))
nothing_left (x ∷ xs) ys [] e h = absurd (omega (arith, h))
nothing_left (x ∷ xs) ys (z ∷ zs) e h =
    let ih = nothing_left xs ys zs (ap tail e) (omega (arith, h)) in ground (arith, ih, ap head e)
  where
    tail : List ℕ → List ℕ
    tail [] = []
    tail (x ∷ xs) = xs

    head : List ℕ → ℕ
    head [] = 0
    head (x ∷ xs) = x

-- Bytes that fit into an empty pipe are all written, as long as the writer's position stays below
-- 2^31, and a read of as many then gives exactly them and leaves the pipe empty.
pub devpipe_write-devpipe_read :
    (bytes : List ℕ) (closed : Bool) (p : Pipe)
    → p.p_rpos ≡ p.p_wpos
    → length bytes ≤ 32
    → p.p_wpos + length bytes < 2 ^ 31
    → (p₁ : Pipe) × (p₂ : Pipe) × (devpipe_write bytes 0 closed p
        ≡ (returned (length bytes), [], p₁))
      × (devpipe_read (length bytes) 0 closed p₁ ≡ (returned (length bytes), bytes, p₂))
      × (st_size p₂ ≡ 0)
unfolding st_size
devpipe_write-devpipe_read bytes closed p e few low =
    let (o₁, left, p₁) = devpipe_write bytes 0 closed p in
    let w =
      devpipe_write-IsWritten bytes 0 closed p
        (record { ahead = omega (arith, e); room = omega (arith, e); small = omega (arith, low) })
        low in
    let (o₂, out, p₂) = devpipe_read (length bytes) 0 closed p₁ in
    let r = devpipe_read-IsRead (length bytes) 0 closed p₁ w.sound in
    let start : st_size p ≡ 0 = omega (arith, e, low) in
    let start' : p.p_wpos - p.p_rpos ≡ 0 = omega (arith, e) in
    let none_left : left ≡ [] = nil_of left (omega (arith, w.count, start, few)) in
    let all : contents p₁ ≡ bytes =
      sym (append-nil (contents p₁))
      ∙ ap (λ l. contents p₁ ++ l) (sym none_left)
      ∙ w.order
      ∙ ap (λ k. window k p.p_rpos p.p_buf ++ bytes) start' in
    let full : st_size p₁ ≡ length bytes =
      st_size-small p₁ w.sound.ahead w.sound.small
      ∙ sym (length-window (p₁.p_wpos - p₁.p_rpos) p₁.p_rpos p₁.p_buf)
      ∙ ap length all in
    let count : length out ≡ length bytes = ground (arith, r.count, full) in
    let same : out ≡ bytes = nothing_left out (contents p₂) bytes (r.order ∙ all) count in
    let sizes = length-append out (contents p₂) in
    let rest : st_size p₂ ≡ 0 = omega (
      arith,
      length-window (p₂.p_wpos - p₂.p_rpos) p₂.p_rpos p₂.p_buf,
      st_size-small p₂ r.sound.ahead r.sound.small,
      sizes,
      ap length (r.order ∙ all),
      count,
    ) in
    let written : o₁ ≡ returned (length bytes) = ground (arith, w.ending, ap length none_left) in
    let read : o₂ ≡ returned (length bytes) = ground (arith, r.ending, full, count) in
    (p₁, p₂, (λ i. (written i, none_left i, p₁)), (λ i. (read i, same i, p₂)), rest)
