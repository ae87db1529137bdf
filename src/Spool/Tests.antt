-- ===== src/Spool/Tests.antt =====
-- A spool with a limit of five bytes.
use aiman.Base.{
  ◌≡◌, refl, true, false, [], ◌∷◌, none, some, arith, length, ◌+◌, ◌≤◌, ◌++◌, if◌then◌else◌,
}
use aiman.Base.Text.{Bytes}
use aiman.Spool.{SpoolWriter, Answers, contents, open_spool, rotate, append, write_open, write}
use aiman.Spool.Bounds.{IsSynced, write-IsSynced}
use aiman.Spool.Rotation.{write_rotated}

abbrev works : Answers
works = record { open_ok = true; stat_ok = true; short = none; remove_ok = true; rename_ok = true }

abbrev fresh : SpoolWriter
fresh = record { spool = none; old = none; handle = false; size = 0 }

abbrev three : SpoolWriter
three = record { spool = some (1 ∷ 2 ∷ 3 ∷ []); old = none; handle = true; size = 3 }

first_write : write 5 works (1 ∷ 2 ∷ 3 ∷ []) fresh ≡ three
unfolding write open_spool contents append write_open
first_write = refl

after_rotation :
    write 5 works (7 ∷ []) (write 5 works (4 ∷ 5 ∷ 6 ∷ []) three)
    ≡ record { spool = some (7 ∷ []); old = some (1 ∷ 2 ∷ 3 ∷ []); handle = true; size = 1 }
unfolding write open_spool contents append write_open rotate
after_rotation = refl

three-IsSynced : IsSynced 5 three
unfolding contents
three-IsSynced = record { counted = λ _. refl; bounded = omega arith }

write-IsSynced_example : IsSynced 5 (write 5 works (4 ∷ 5 ∷ 6 ∷ []) three)
write-IsSynced_example = write-IsSynced 5 works (4 ∷ 5 ∷ 6 ∷ []) three refl refl three-IsSynced

abbrev stays : Answers
stays = record works { rename_ok = false }

abbrev segment : Bytes
segment = 1 ∷ 2 ∷ 3 ∷ []

abbrev more : Bytes
more = 7 ∷ 8 ∷ []

write_rotated_example :
    let next = write 5 works more (write 5 stays (4 ∷ 5 ∷ 6 ∷ []) three) in
    (stays.rename_ok ≡ true
      → next ≡ record { spool = some more; old = some segment; handle = true; size = length more })
    × (stays.rename_ok ≡ false
        → length segment + length more ≤ 5
        → next ≡ record {
          spool = some (segment ++ more);
          old = if stays.remove_ok then none else none;
          handle = true;
          size = length segment + length more;
        })
write_rotated_example =
    write_rotated 5 stays segment none 3 works (4 ∷ 5 ∷ 6 ∷ []) more (omega arith) (omega arith)
      refl refl refl
