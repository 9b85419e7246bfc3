-- ===== src/BufferSync/Put.antt =====
-- `oprofile_put_buff` of driver/buffer_sync.c: a circular buffer is copied into the event buffer.
use rrprofile.Prelude.{
  ℕ, zero, suc, ◌+◌, ◌-◌, ◌^◌, ◌<◌, ◌≤◌, ◌≡◌, arith, List, [], ◌∷◌, ◌++◌, true, false, leb, ◌==◌,
  if◌then◌else◌, get_or, some, Bool-cases, inl, inr,
}
use rrprofile.EventBuffer.{EventBuffer, add_event_entry}
use rrprofile.EventBuffer.Log.{add_entries}
use rrprofile.BufferSync.{put_buff_from, oprofile_put_buff}

-- `n` words of `buf` from `i` on
abbrev pub slice : List ℕ → ℕ → ℕ → List ℕ
slice buf i zero = []
slice buf i (suc n) = get_or buf i 0 ∷ slice buf (i + 1) n

-- the words from `start` to `stop`, around the end at `max`
abbrev pub circular : List ℕ → (start stop max : ℕ) → List ℕ
circular buf start stop max =
    if leb start stop
    then slice buf start (stop - start)
    else slice buf start (max - start) ++ slice buf 0 stop

put_buff_end :
    (fuel : ℕ) (e : EventBuffer) (buf : List ℕ) (i stop max : ℕ)
    → stop ≡ i
    → put_buff_from fuel e buf i stop max ≡ some e
unfolding put_buff_from
put_buff_end zero e buf i stop max h = ground arith
put_buff_end (suc fuel) e buf i stop max h = ground arith

put_buff_forward :
    (n fuel : ℕ) (e : EventBuffer) (buf : List ℕ) (i stop max : ℕ)
    → stop ≡ i + n
    → stop < max
    → max < 2 ^ 31
    → n ≤ fuel
    → put_buff_from fuel e buf i stop max ≡ some (add_entries e (slice buf i n))
unfolding put_buff_from
put_buff_forward zero fuel e buf i stop max at h small enough =
    put_buff_end fuel e buf i stop max (omega arith)
put_buff_forward (suc n) zero e buf i stop max at h small enough = absurd (omega arith)
put_buff_forward (suc n) (suc fuel) e buf i stop max at h small enough =
    let going : (i == stop) ≡ false = ground arith in
    let defined : leb (2 ^ 31 - 1) i ≡ false = ground arith in
    let inside : leb max (i + 1) ≡ false = ground arith in
    rw (going, defined, inside)
      (put_buff_forward n fuel (add_event_entry e (get_or buf i 0)) buf (i + 1) stop max
        (omega arith) h small (omega arith))

put_buff_around :
    (n fuel : ℕ) (e : EventBuffer) (buf : List ℕ) (i stop max : ℕ)
    → max ≡ i + suc n
    → stop < i
    → max < 2 ^ 31
    → n + stop < fuel
    → put_buff_from fuel e buf i stop max
      ≡ some (add_entries e (slice buf i (suc n) ++ slice buf 0 stop))
unfolding put_buff_from
put_buff_around n zero e buf i stop max h before small enough = absurd (omega arith)
put_buff_around zero (suc fuel) e buf i stop max h before small enough =
    let going : (i == stop) ≡ false = ground arith in
    let defined : leb (2 ^ 31 - 1) i ≡ false = ground arith in
    let last : leb max (i + 1) ≡ true = ground arith in
    rw (going, defined, last)
      (put_buff_forward stop fuel (add_event_entry e (get_or buf i 0)) buf 0 stop max (omega arith)
        (omega arith) small (omega arith))
put_buff_around (suc n) (suc fuel) e buf i stop max h before small enough =
    let going : (i == stop) ≡ false = ground arith in
    let defined : leb (2 ^ 31 - 1) i ≡ false = ground arith in
    let inside : leb max (i + 1) ≡ false = ground arith in
    rw (going, defined, inside)
      (put_buff_around n fuel (add_event_entry e (get_or buf i 0)) buf (i + 1) stop max
        (omega arith) (omega arith) small (omega arith))

-- For a start and a stop below `max`, which is below 2 ^ 31, as its index is an int:
-- `oprofile_put_buff` ends, and has added exactly the words from `start` to `stop`, around the end of
-- the circular buffer where `stop` comes first.
pub oprofile_put_buff_lem :
    (e : EventBuffer) (buf : List ℕ) (start stop max : ℕ)
    → start < max
    → stop < max
    → max < 2 ^ 31
    → oprofile_put_buff e buf start stop max ≡ some (add_entries e (circular buf start stop max))
unfolding oprofile_put_buff
oprofile_put_buff_lem e buf start stop max in_start in_stop small =
    elim (Bool-cases (leb start stop)) [
      | inl forward ↦
          let le : start ≤ stop = ground arith in
          rw forward (
            put_buff_forward (stop - start) max e buf start stop max (omega arith) in_stop small
              (omega arith))
      | inr around ↦
          let lt : stop < start = ground arith in
          let left : max - start ≡ suc (max - start - 1) = omega arith in
          rw (around, left)
            (put_buff_around (max - start - 1) max e buf start stop max (omega arith) lt small
              (omega arith))
    ]
