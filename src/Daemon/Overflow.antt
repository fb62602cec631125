-- ===== src/Daemon/Overflow.antt =====
-- `read_proc` reads as many bytes as its buffer has, and then appends the end mark.
use lepd.Base.{
  ℕ, ◌≤◌, ◌≡◌, refl, some, List, [], ◌∷◌, String, take, arith, length-take, ltb, if◌then◌else◌,
  Bool-cases, inl, inr,
}
use lepd.Base.CString.{strlen}
use lepd.Daemon.{
  World, acquires, Lock, fault, proc_buff_size, proc_path, lookup_func, answer_locked, read_proc,
}
use lepd.Daemon.Answers.{replied, read_proc-eq}
use lepd.Daemon.EndMark.{answer_past}

-- `read_proc` writes past its buffer, with the lock held, if the text of the first 8192 bytes of the
-- file is of 8179 bytes or more.
read_proc_past :
    (w : World) (d : String) (contents : List ℕ)
    → w.file (proc_path d) ≡ some contents
    → 8179 ≤ strlen (take proc_buff_size contents)
    → read_proc w (some d) ≡ record { outcome = fault; trace = acquires Lock.proc_lock ∷ [] }
unfolding read_proc lookup_func answer_locked
read_proc_past w d contents opens long =
    rw
      (
        opens,
        answer_past proc_buff_size (take proc_buff_size contents)
            (omega (arith, length-take proc_buff_size contents)) (omega arith),
        answer_locked,
      )
      refl

-- Of a file that opens, `read_proc` answers the text of the first 8192 bytes with the end mark if
-- that text is shorter than 8179 bytes; else it writes past its buffer, with the lock held.
pub read_proc-bounds :
    (w : World) (d : String) (contents : List ℕ)
    → w.file (proc_path d) ≡ some contents
    → read_proc w (some d) ≡ (
        if ltb (strlen (take proc_buff_size contents)) 8179
        then replied Lock.proc_lock (take proc_buff_size contents)
        else record { outcome = fault; trace = acquires Lock.proc_lock ∷ [] })
read_proc-bounds w d contents opens =
    elim (Bool-cases (ltb (strlen (take proc_buff_size contents)) 8179)) [
      | inl short ↦ rw short (read_proc-eq w d contents opens (ground arith))
      | inr long ↦ rw long (read_proc_past w d contents opens (ground arith))
    ]
