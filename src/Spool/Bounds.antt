-- ===== src/Spool/Bounds.antt =====
-- What a write to the spool keeps, and what it loses.
use aiman.Base.{ℕ, ◌≤◌, ◌≡◌, refl, true, none, length, length-append, arith, if-elim}
use aiman.Base.Text.{Bytes}
use aiman.Spool.{SpoolWriter, Answers, contents, open_spool, rotate, append, write_open, write}

-- The open file has the size that the writer counted, and it is no longer than the limit allows.
pub record IsSynced (limit : ℕ) (w : SpoolWriter) : Type 0 where
  pub counted : w.handle ≡ true → w.size ≡ length (contents w.spool)
  pub bounded : length (contents w.spool) ≤ limit

module _ (limit : ℕ) (a : Answers) (bytes : Bytes) where
  write_open-IsSynced :
      (w : SpoolWriter)
      → a.short ≡ none
      → w.handle ≡ true
      → IsSynced limit w
      → IsSynced limit (write_open limit a bytes w)
  unfolding write_open append rotate contents
  write_open-IsSynced w full opened s = record {
    counted = ground (arith, s.counted, s.bounded, length-append (contents w.spool) bytes);
    bounded = ground (arith, s.counted, s.bounded, length-append (contents w.spool) bytes);
  }

  open_spool-IsSynced :
      (w : SpoolWriter) → a.stat_ok ≡ true → IsSynced limit w → IsSynced limit (open_spool a w)
  unfolding open_spool contents
  open_spool-IsSynced w stat s = record {
    counted = ground (arith, s.bounded);
    bounded = ground (arith, s.bounded);
  }

  -- While sizes can be read and every write is taken whole, the size that the writer counts is that
  -- of the open file, and the active segment never grows past the limit.
  pub write-IsSynced :
      (w : SpoolWriter)
      → a.stat_ok ≡ true
      → a.short ≡ none
      → IsSynced limit w
      → IsSynced limit (write limit a bytes w)
  unfolding write
  write-IsSynced w stat full s =
      if-elim (IsSynced limit) w.handle (λ h. write_open-IsSynced w full h s)
        λ _.
          if-elim (IsSynced limit) a.open_ok
            (λ _.
              write_open-IsSynced (open_spool a w) full (unfold open_spool in refl)
                (open_spool-IsSynced w stat s))
            (λ _. s)
