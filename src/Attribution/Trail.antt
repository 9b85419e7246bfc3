-- ===== src/Attribution/Trail.antt =====
-- The entries that a run of calls of `log_sample` leaves in the ring.
use rrprofile.Prelude.{ℕ, ◌+◌, ◌≤◌, ◌≡◌, ap, arith, List, [], ◌∷◌, ◌++◌, length, length-append}
use mathlib.Core.List.{append_assoc}
use rrprofile.CpuBuffer.{OprofileCpuBuffer, OpSample, truth, nr_available_slots, log_sample}
use rrprofile.CpuBuffer.Window.{IsRing, nr_available_slots-add-used}
use rrprofile.CpuBuffer.Append.{Appends, Appends-refl, Appends-trans}
use rrprofile.CpuBuffer.Logging.{
  sample, kernel_note, task_note, notes, record_of, Notes, log_sample-Notes,
}
use rrprofile.Attribution.{Call, task_at, log_all, AllPlain}

module _ (tgid pid : ℕ → ℕ) where
  -- the entries for the calls, when mode `k` and task `t` were the last noted
  abbrev pub trail : ℕ → ℕ → List Call → List OpSample
  trail k t [] = []
  trail k t (x ∷ xs) =
      (kernel_note k (truth x.is_kernel) ++ task_note t (task_at tgid pid x.task))
      ++ (sample x.pc x.event 0 ∷ trail (truth x.is_kernel) x.task xs)

  -- With room for the entries and two more, all calls are logged.
  pub log_all-Appends :
      (b : OprofileCpuBuffer) (xs : List Call)
      → IsRing b
      → AllPlain xs
      → length (trail b.last_is_kernel b.last_task xs) + 2 ≤ nr_available_slots b
      → Appends b (log_all tgid pid b xs) (trail b.last_is_kernel b.last_task xs)
  log_all-Appends b [] v plain room = Appends-refl b v
  log_all-Appends b (x ∷ xs) v plain room =
      let task = task_at tgid pid x.task in
      let k = truth x.is_kernel in
      let due = notes b task k in
      let rest = trail k x.task xs in
      let all = length-append due (sample x.pc x.event 0 ∷ rest) in
      let one = length-append due (sample x.pc x.event 0 ∷ []) in
      let d : OprofileCpuBuffer = (log_sample task b x.pc x.is_kernel x.event).0 in
      let n : Notes b d (record_of task b x.pc x.is_kernel x.event) k x.task =
        (log_sample-Notes task b x.pc x.is_kernel x.event v plain.0.legal (omega arith)
          (omega arith)).1 in
      let same : trail d.last_is_kernel d.last_task xs ≡ rest =
        λ i. trail (n.mode i) (n.task i) xs in
      let before = nr_available_slots-add-used b v in
      let after = nr_available_slots-add-used d n.appends.ring in
      let left : length (trail d.last_is_kernel d.last_task xs) + 2 ≤ nr_available_slots d =
        omega (arith, ap length same, n.appends.count, n.appends.size) in
      let later = log_all-Appends d xs n.appends.ring plain.1 left in
      rw (← append_assoc due (sample x.pc x.event 0 ∷ []) rest, ← same)
        (Appends-trans n.appends later)
