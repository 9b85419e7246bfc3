-- ===== src/EventBuffer/Log.antt =====
-- The event buffer as a log of bounded size: what is recorded, what is lost, and when the reader is
-- woken.
use rrprofile.Prelude.{
  ℕ, suc, ◌+◌, ◌-◌, ◌≤◌, ◌<◌, ◌≡◌, ◌≢◌, refl, sym, ap, ◌∙◌, arith, List, [], ◌∷◌, ◌++◌, ◌==◌,
  length, take, take_of_le, take-set, take-nil, length-set, add_int, ulong_mod, ◌*◌, ◌%◌, true,
  Bool-cases, inl, inr, false, Bool,
}
use mathlib.Core.List.{append_assoc, append-nil}
use rrprofile.EventBuffer.{EventBuffer, add_event_entry, event_buffer_read, sleeps}

-- the words that the next read returns
abbrev pub recorded : EventBuffer → List ℕ
recorded e = take e.buffer_pos e.event_buffer

abbrev pub room : EventBuffer → ℕ
room e = e.buffer_size - e.buffer_pos

-- An allocated buffer, with the watershed inside.
pub record IsLog (e : EventBuffer) : Type 0 where
  pub storage : length e.event_buffer ≡ e.buffer_size
  pub pos_in : e.buffer_pos ≤ e.buffer_size
  pub shed : e.buffer_watershed < e.buffer_size
  pub small : e.buffer_size < ulong_mod

-- Past the watershed the reader has been told that the buffer is ready.
abbrev pub Told : EventBuffer → Type 0
Told e = e.buffer_size ≤ e.buffer_pos + e.buffer_watershed → e.buffer_ready ≡ 1

pub add_event_entry-Told : (e : EventBuffer) (v : ℕ) → IsLog e → Told e → Told (add_event_entry e v)
unfolding add_event_entry
add_event_entry-Told e v h t = ground arith

pub add_event_entry-IsLog : (e : EventBuffer) (v : ℕ) → IsLog e → IsLog (add_event_entry e v)
unfolding add_event_entry
add_event_entry-IsLog e v h = ground (arith, length-set e.event_buffer e.buffer_pos v)

add_event_entry-room :
    (e : EventBuffer) (v : ℕ)
    → IsLog e
    → e.buffer_pos < e.buffer_size
    → (recorded (add_event_entry e v) ≡ recorded e ++ (v ∷ []))
      × ((add_event_entry e v).stats ≡ e.stats)
      × ((add_event_entry e v).buffer_pos ≡ suc e.buffer_pos)
unfolding add_event_entry
add_event_entry-room e v h p = ground (arith, take-set e.event_buffer e.buffer_pos v)

add_event_entry-full :
    (e : EventBuffer) (v : ℕ)
    → e.buffer_pos ≡ e.buffer_size
    → (recorded (add_event_entry e v) ≡ recorded e)
      × ((add_event_entry e v).stats.event_lost_overflow ≡ add_int e.stats.event_lost_overflow 1)
      × ((add_event_entry e v).buffer_pos ≡ e.buffer_pos)
unfolding add_event_entry
add_event_entry-full e v p = ground arith

-- The size, the watershed and the other counters are as they were.
pub record SameFrame (e f : EventBuffer) : Type 0 where
  pub size : f.buffer_size ≡ e.buffer_size
  pub watershed : f.buffer_watershed ≡ e.buffer_watershed
  pub dump : f.buffer_dump ≡ e.buffer_dump
  pub opened : f.buffer_opened ≡ e.buffer_opened
  pub bt_lost : f.stats.bt_lost_no_mapping ≡ e.stats.bt_lost_no_mapping

add_event_entry-SameFrame : (e : EventBuffer) (v : ℕ) → SameFrame e (add_event_entry e v)
unfolding add_event_entry
add_event_entry-SameFrame e v = ground arith

-- calls of `add_event_entry` in a row
abbrev pub add_entries : EventBuffer → List ℕ → EventBuffer
add_entries e [] = e
add_entries e (v ∷ vs) = add_entries (add_event_entry e v) vs

pub add_entries-append :
    (e : EventBuffer) (vs ws : List ℕ)
    → add_entries e (vs ++ ws) ≡ add_entries (add_entries e vs) ws
add_entries-append e [] ws = refl
add_entries-append e (v ∷ vs) ws = add_entries-append (add_event_entry e v) vs ws

pub add_entries-IsLog : (e : EventBuffer) (vs : List ℕ) → IsLog e → IsLog (add_entries e vs)
add_entries-IsLog e [] h = h
add_entries-IsLog e (v ∷ vs) h =
    add_entries-IsLog (add_event_entry e v) vs (add_event_entry-IsLog e v h)

pub add_entries-Told : (e : EventBuffer) (vs : List ℕ) → IsLog e → Told e → Told (add_entries e vs)
add_entries-Told e [] h t = t
add_entries-Told e (v ∷ vs) h t =
    add_entries-Told (add_event_entry e v) vs (add_event_entry-IsLog e v h)
      (add_event_entry-Told e v h t)

pub add_entries-SameFrame : (e : EventBuffer) (vs : List ℕ) → SameFrame e (add_entries e vs)
add_entries-SameFrame e [] = record {
  size = refl;
  watershed = refl;
  dump = refl;
  opened = refl;
  bt_lost = refl;
}
add_entries-SameFrame e (v ∷ vs) =
    let p = add_event_entry-SameFrame e v in
    let q = add_entries-SameFrame (add_event_entry e v) vs in
    record {
      size = q.size ∙ p.size;
      watershed = q.watershed ∙ p.watershed;
      dump = q.dump ∙ p.dump;
      opened = q.opened ∙ p.opened;
      bt_lost = q.bt_lost ∙ p.bt_lost;
    }

-- A full buffer records nothing more and counts each word as lost.
add_entries-full :
    (e : EventBuffer) (vs : List ℕ)
    → e.buffer_pos ≡ e.buffer_size
    → (recorded (add_entries e vs) ≡ recorded e)
      × (add_int (add_entries e vs).stats.event_lost_overflow 0
          ≡ add_int e.stats.event_lost_overflow (length vs))
add_entries-full e [] p = (refl, refl)
add_entries-full e (v ∷ vs) p =
    let (same, lost, pos) = add_event_entry-full e v p in
    let size = (add_event_entry-SameFrame e v).size in
    let (same', lost') = add_entries-full (add_event_entry e v) vs (pos ∙ p ∙ sym size) in
    (same' ∙ same, omega (arith, lost, lost'))

-- `add_event_entry` keeps a prefix of what it is given, as long as the room that was left, in order;
-- it counts the rest as lost.
pub recorded-add_entries :
    (e : EventBuffer) (vs : List ℕ)
    → IsLog e
    → (recorded (add_entries e vs) ≡ recorded e ++ take (room e) vs)
      × (add_int (add_entries e vs).stats.event_lost_overflow 0
          ≡ add_int e.stats.event_lost_overflow (length vs - room e))
recorded-add_entries e [] h =
    (rw (take-nil {A = ℕ} (room e)) (sym (append-nil (recorded e))), omega arith)
recorded-add_entries e (v ∷ vs) h = elim (Bool-cases (e.buffer_pos == e.buffer_size)) [
  | inl full ↦
      let end : room e ≡ 0 = ground arith in
      let (same, lost) = add_entries-full e (v ∷ vs) (ground arith) in
      (rw end (same ∙ sym (append-nil (recorded e))), omega (arith, lost, end))
  | inr free ↦
      let (one, stats, pos) = add_event_entry-room e v h (ground arith) in
      let (rest, lost) =
        recorded-add_entries (add_event_entry e v) vs (add_event_entry-IsLog e v h) in
      let size = (add_event_entry-SameFrame e v).size in
      let more : room e ≡ suc (room (add_event_entry e v)) = ground arith in
      (
        rw more (
            rest
            ∙ ap (λ t. t ++ take (room (add_event_entry e v)) vs) one
            ∙ append_assoc (recorded e) (v ∷ []) (take (room (add_event_entry e v)) vs)),
        omega (arith, lost, more, ap (λ s. s.event_lost_overflow) stats),
      )
]

-- A short run of words is recorded whole, and nothing is counted as lost.
pub recorded-add_entries_of_le :
    (e : EventBuffer) (vs : List ℕ)
    → IsLog e
    → length vs ≤ room e
    → recorded (add_entries e vs) ≡ recorded e ++ vs
recorded-add_entries_of_le e vs h fits =
    (recorded-add_entries e vs h).0 ∙ ap (λ t. recorded e ++ t) (take_of_le (room e) vs fits)

-- When a run of `add_event_entry` on a well-formed event buffer that is marked ready if it is past its
-- watershed already ends at or past the watershed, the next `read` at offset 0 with no signal pending
-- does not sleep, whatever its size and whether or not the copy faults.
pub event_buffer_read-add_entries :
    (e : EventBuffer) (vs : List ℕ) (count : ℕ) (unmapped : Bool)
    → IsLog e
    → Told e
    → e.buffer_size ≤ (add_entries e vs).buffer_pos + e.buffer_watershed
    → (event_buffer_read (add_entries e vs) count 0 false unmapped).1 ≢ sleeps
unfolding event_buffer_read
event_buffer_read-add_entries e vs count unmapped h t past =
    let frame = add_entries-SameFrame e vs in
    let ready = add_entries-Told e vs h t in ground (arith, frame.size, frame.watershed)

add_event_entry_quiet :
    (e : EventBuffer) (v : ℕ)
    → IsLog e
    → e.buffer_size ≤ e.buffer_pos + e.buffer_watershed
    → e.buffer_ready ≡ 0
    → let e' = add_event_entry e v in
      (e'.buffer_size ≤ e'.buffer_pos + e'.buffer_watershed) × (e'.buffer_ready ≡ 0)
unfolding add_event_entry
add_event_entry_quiet e v h past quiet = ground arith

-- Past the watershed, with the buffer not ready, no word that is added makes it ready.
add_entries_quiet :
    (e : EventBuffer) (vs : List ℕ)
    → IsLog e
    → e.buffer_size ≤ e.buffer_pos + e.buffer_watershed
    → e.buffer_ready ≡ 0
    → (add_entries e vs).buffer_ready ≡ 0
add_entries_quiet e [] h past quiet = quiet
add_entries_quiet e (v ∷ vs) h past quiet =
    let (past', quiet') = add_event_entry_quiet e v h past quiet in
    add_entries_quiet (add_event_entry e v) vs (add_event_entry-IsLog e v h) past' quiet'

-- After a `read` of the right size at offset 0 whose copy to user space faults while a ready and
-- well-formed event buffer is past its watershed, no run of `add_event_entry` makes the next `read`
-- return, as long as nobody asks for a dump and no signal is pending: it sleeps, although the buffer
-- holds the same data.
pub fault_stalls :
    (e : EventBuffer) (vs : List ℕ) (count : ℕ)
    → IsLog e
    → count ≡ (e.buffer_size * 8) % ulong_mod
    → e.buffer_size ≤ e.buffer_pos + e.buffer_watershed
    → e.buffer_dump ≡ 0
    → e.buffer_ready ≢ 0
    → let e' = (event_buffer_read e count 0 false true).0 in
      (recorded e' ≡ recorded e)
      × ((event_buffer_read (add_entries e' vs) count 0 false false).1 ≡ sleeps)
unfolding event_buffer_read
fault_stalls e vs count h sized past dump ready =
    let e' : EventBuffer = record e { buffer_ready = 0 } in
    let log : IsLog e' = record {
      storage = h.storage;
      pos_in = h.pos_in;
      shed = h.shed;
      small = h.small;
    } in
    let frame = add_entries-SameFrame e' vs in
    ground (arith, add_entries_quiet e' vs log past refl, frame.size, frame.dump)
