-- ===== src/Journal/Scans.antt =====
-- The scan of journal_recover (kernel/journal.c), on any device.
use aurora_os_live.Base.{
  inl, inr, ℕ, zero, suc, ◌+◌, ◌-◌, ◌%◌, ◌^◌, ◌≤◌, ◌<◌, ◌≡◌, refl, ap, sym, ◌∙◌, Bool, true, false,
  Option, none, some, List, ltb, leb, ◌==◌, Ensures, Bool-cases, Option-cases, arith,
}
use mathlib.Core.Path.{subst}
use aurora_os_live.Base.Int.{pos}
use aurora_os_live.Journal.{Driver, Machine, is_committed, journal_read_block, called}
use aurora_os_live.Journal.Layout.{word_at, journal_magic_desc}
use aurora_os_live.Journal.Recovery.{
  scan_transaction, scan_round, go_on, scan_journal, journal_recover,
}
use aurora_os_live.Journal.Recovered.{recover_scanned, scan_step}
use aurora_os_live.Journal.Kept.{write_jsb_kept}

-- The next position of the scan, if there is one, is further on.
abbrev Later : ℕ → Option ℕ → Type 0
Later at none = Unit {0}
Later at (some next) = at < next

module _ {D : Type 0} (dev : Driver D) (kmalloc : ℕ → Bool) where
  scan_transaction-Later :
      (at commit_pos : ℕ) (o : Option (List ℕ)) (m : Machine D)
      → at < commit_pos
      → commit_pos < 2 ^ 63
      → Later at (scan_transaction dev kmalloc at commit_pos o m).1
  unfolding scan_transaction
  scan_transaction-Later at commit_pos none m l h = tt
  scan_transaction-Later at commit_pos (some cmt) m l h = elim (Bool-cases (is_committed cmt)) [
    | inl good ↦ elim (Option-cases (journal_read_block dev at m)) [
      | inl e ↦ rw (good, scan_transaction, e) tt
      | inr (buf, e) ↦ rw (good, scan_transaction, e) (omega arith)
    ]
    | inr bad ↦ rw bad (omega arith)
  ]

  scan_round-Later :
      (at end : ℕ) (o : Option (List ℕ)) (m : Machine D)
      → at < end
      → end < 2 ^ 63
      → Later at (scan_round dev kmalloc at end o m).1
  unfolding scan_round
  scan_round-Later at end none m l h = tt
  scan_round-Later at end (some hdr) m l h =
      let commit_pos = (at + 1 + word_at 12 4 hdr) % 2 ^ 64 in
      let later : at < commit_pos = omega arith in
      elim (Bool-cases (word_at 0 4 hdr == journal_magic_desc)) [
        | inl desc ↦ elim (Bool-cases (leb end commit_pos)) [
          | inl out ↦ rw (desc, out) tt
          | inr within ↦
              rw (desc, within)
                (scan_transaction-Later at commit_pos (journal_read_block dev commit_pos m) m later
                  (ground (arith, within)))
        ]
        | inr other ↦ rw other (omega arith)
      ]

  scan_stops :
      (fuel at end : ℕ) (m : Machine D)
      → end ≤ at
      → Ensures (scan_journal dev kmalloc fuel at end m) (λ m'. Unit {0})
  unfolding scan_journal
  scan_stops zero at end m h = let stop : ltb at end ≡ false = ground arith in rw stop tt
  scan_stops (suc fuel) at end m h = let stop : ltb at end ≡ false = ground arith in rw stop tt

  scan_total :
      (fuel at end : ℕ) (m : Machine D)
      → end ≤ fuel + at
      → end < 2 ^ 63
      → Ensures (scan_journal dev kmalloc fuel at end m) (λ m'. Unit {0})
  scan_total zero at end m h b = scan_stops 0 at end m (omega arith)
  scan_total (suc fuel) at end m h b = elim (Bool-cases (ltb at end)) [
    | inl go ↦
        let l : at < end = ground (arith, go) in
        let r = scan_round dev kmalloc at end (journal_read_block dev at m) m in
        let later = scan_round-Later at end (journal_read_block dev at m) m l b in
        subst (λ o. Ensures o (λ m'. Unit {0})) (sym (scan_step dev kmalloc fuel at end m l))
          (next_total r later (λ at' m' k. scan_total fuel at' end m' (omega arith) b))
    | inr stop ↦ scan_stops (suc fuel) at end m (ground (arith, stop))
  ]
    where
      next_total :
          (r : Machine D × Option ℕ)
          → Later at r.1
          → ((at' : ℕ) (m' : Machine D)
              → at < at'
              → Ensures (scan_journal dev kmalloc fuel at' end m') (λ m'. Unit {0}))
          → Ensures (go_on (λ at' m'. scan_journal dev kmalloc fuel at' end m') r) (λ m'. Unit {0})
      next_total (m', none) l k = tt
      next_total (m', some at') l k = k at' m' l

  -- journal_recover of an initialized journal returns 0 where its buffer is there, and leaves the journal
  -- clean and empty, whatever blocks the device holds, which reads and writes fail, which of the calls of
  -- kmalloc in the scan fail, and whatever stands in memory behind the buffer. The head is below 2 ^ 63.
  pub journal_recover_returns :
      (m : Machine D)
      → m.journal.initialized ≡ true
      → kmalloc m.calls ≡ true
      → m.journal.head < 2 ^ 63
      → Ensures
          (journal_recover dev kmalloc m)
          (λ r. (r.1 ≡ pos 0) × (r.0.journal.dirty ≡ false) × (r.0.journal.tail ≡ r.0.journal.head))
  journal_recover_returns m i k h =
      let j = m.journal in
      let o = scan_journal dev kmalloc (j.head - j.tail) j.tail j.head (called m) in
      let t = scan_total (j.head - j.tail) j.tail j.head (called m) (omega arith) h in
      elim (Option-cases o) [
        | inl e ↦ absurd (rw e at t)
        | inr (m', e) ↦
            let m2 : Machine D = record m' {
              journal = record m'.journal { tail = m'.journal.head; dirty = false };
            } in
            let kept = write_jsb_kept dev kmalloc m2 in
            rw (recover_scanned dev kmalloc m m' i k e)
              (refl, ap (λ q. q.dirty) kept, ap (λ q. q.tail) kept ∙ sym (ap (λ q. q.head) kept))
      ]
