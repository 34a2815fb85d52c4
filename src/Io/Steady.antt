-- ===== src/Io/Steady.antt =====
-- write_all leaves the variables alone, so it keeps whatever they have.
use over.Base.{ℕ, zero, suc, ◌+◌, ltb, length, drop}
use over.Kernel.{Fd, Bytes, Kernel}
use over.Run.{Keeps-if, Keeps-option, Steady, keeps, spends}
use over.Io.{write_loop, write_all}

module _ (k : Kernel) {S : Type 0} (I : S → Type 0) (fd : Fd) where
  write_loop-Steady : (f : ℕ) (buf : Bytes) (offset : ℕ) → Steady I (write_loop k f fd buf offset)
  unfolding write_loop
  write_loop-Steady zero buf offset m h = spends
  write_loop-Steady (suc f) buf offset m h =
      Keeps-if (ltb offset (length buf)) _ _
        (λ _.
          Keeps-option (k.write m.log fd (drop offset buf)) _ _ (λ _. keeps h)
            λ n _. write_loop-Steady f buf (offset + n) _ h)
        (λ _. keeps h)

  pub write_all-Steady : (buf : Bytes) → Steady I (write_all k fd buf)
  unfolding write_all
  write_all-Steady buf = write_loop-Steady (suc (length buf)) buf 0
