-- ===== src/Applets/OnFat.antt =====
-- The interface of the applets, filled by the operations of src/hal/fat32.rs on a mounted volume.
-- `fuel` bounds the walks along cluster chains.
use planck_os.Prelude.{ℕ, Option, none, some, length, get_or, slice}
use planck_os.Fat.{Disk, Volume, File, Run, M, ok, err, hang}
use planck_os.Fat.Transfer.{Io, f_read, f_write}
use planck_os.Fat.Manage.{f_open, f_lseek, f_unlink}
use planck_os.Fat.Entries.{Dir, Cursor, f_stat, f_opendir, f_readdir, f_mkdir}
use planck_os.Fat.Text.{f_size, f_sync}
use planck_os.Applets.{FileSystem}

-- An operation on a file, with the buffer that is written from or read into.
abbrev on_file : {A B : Type 0} → M Io A → (ℕ → ℕ) → (A → (ℕ → ℕ) → B) → M (Disk × File) B
on_file m buf f at = elim (m (record { disk = at.0; file = at.1; buf = buf })) [
  | ok a io ↦ ok (f a io.buf) (io.disk, io.file)
  | err e io ↦ err e (io.disk, io.file)
  | hang ↦ hang
]

abbrev on_dir : {A : Type 0} → M Cursor A → M (Disk × Dir) A
on_dir m at = elim (m (record { disk = at.0; dir = at.1 })) [
  | ok a c ↦ ok a (c.disk, c.dir)
  | err e c ↦ err e (c.disk, c.dir)
  | hang ↦ hang
]

-- A panic of `f_sync` does not go on.
abbrev synced : {S : Type 0} → Run S (Option (Unit {0})) → Run S (Unit {0})
synced (ok none s) = hang
synced (ok (some u) s) = ok u s
synced (err e s) = err e s
synced hang = hang

-- A buffer starts as zeros; what `f_read` has put into it are the bytes that it has read.
unfoldable pub fat : ℕ → Option Volume → FileSystem Disk File Dir
fat fuel vol = record {
  f_stat = f_stat fuel vol;
  f_opendir = f_opendir fuel vol;
  f_readdir = on_dir (f_readdir fuel vol);
  f_unlink = f_unlink fuel vol;
  f_mkdir = f_mkdir fuel vol;
  f_open = f_open fuel vol;
  f_read = λ len. on_file (f_read vol len) (λ j. 0) (λ n buf. slice buf 0 n);
  f_write =
      λ bytes. on_file (f_write vol (length bytes) (λ j. get_or bytes j 0)) (λ j. 0) (λ n buf. n);
  f_sync = λ at. synced (on_file (f_sync vol) (λ j. 0) (λ o buf. o) at);
  f_lseek = λ offset. on_file (f_lseek vol offset) (λ j. 0) (λ u buf. tt);
  f_size = f_size;
}
