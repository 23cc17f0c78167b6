-- ===== src/Sys/Calls.antt =====
-- The system calls that the source makes. Each takes one entry of the fault list: at `fail e` it
-- raises `OSError` number e and changes nothing (but `close` gives the descriptor up also then).
use safeatomic.Prelude.{
  ℕ, zero, suc, ◌+◌, Bool, true, false, ◌&&◌, ◌||◌, ltb, drop, Str, Option, none, some, List, [],
  ◌∷◌, ◌++◌, Bytes, length, take, if◌then◌else◌,
}
use Prim.Native.Nat.{◌%◌}
use safeatomic.Prelude.Eq.{◌==◌, nat_eq, list_eq}
use safeatomic.Sys.Errors.{
  Errno, enoent, eexist, exdev, ebadf, other_errno, os_error, unicode_error,
}
use safeatomic.Sys.Fs.{Dir, FilePath, path_eq, Fs, update}
use safeatomic.Sys.World.{Fault, pass, short, fail, Handle, file, folder, World}
use safeatomic.Sys.Exec.{Result, ok, raised, Exec, pure, raise, gets, finally, modify, ◌>>=◌, ◌>>◌}

-- What a call answers when the kernel lets it pass.
pub data Reply {ℓ} (A : Type ℓ) : Type ℓ where
  done : A → Fs → Reply A
  refused : Errno → Reply A

abbrev pub first_fault : List Fault → Fault
first_fault [] = pass
first_fault (f ∷ fs) = f

abbrev pub later_faults : List Fault → List Fault
later_faults [] = []
later_faults (f ∷ fs) = fs

module _ {ℓ} {A : Type ℓ} where
  abbrev pub settle : Reply A → World → Result A × World
  settle (done a fs) w = (ok a, record w { fs = fs; trace = fs ∷ w.trace })
  settle (refused e) w = (raised (os_error e), w)

  abbrev pub attempt : Fault → (Fs → Reply A) → World → Result A × World
  attempt (fail e) op w = (raised (os_error e), w)
  attempt pass op w = settle (op w.fs) w
  attempt (short n) op w = settle (op w.fs) w

  unfoldable pub call : (Fs → Reply A) → Exec A
  call op w = attempt (first_fault w.faults) op (record w { faults = later_faults w.faults })

abbrev pub lookup_fd : ℕ → List (ℕ × Handle) → Option Handle
lookup_fd k [] = none
lookup_fd k ((j, h) ∷ fds) = if k == j then some h else lookup_fd k fds

abbrev pub erase_fd : ℕ → List (ℕ × Handle) → List (ℕ × Handle)
erase_fd k [] = []
erase_fd k ((j, h) ∷ fds) = if k == j then fds else (j, h) ∷ erase_fd k fds

unfoldable pub new_fd : Handle → Exec ℕ
new_fd h w = (ok w.next_fd, record w { fds = (w.next_fd, h) ∷ w.fds; next_fd = w.next_fd + 1 })

abbrev pub with_entry : FilePath → Fs → Fs
with_entry p fs = record fs {
  names = update fs.names p (some fs.next);
  body = update fs.body fs.next [];
  saved_body = update fs.saved_body fs.next [];
  next = fs.next + 1;
}

-- `O_CREAT | O_EXCL`: the answer is the new inode.
unfoldable pub create_excl : FilePath → Fs → Reply ℕ
create_excl p fs =
    if fs.is_dir p.dir
    then elim (fs.names p) [ none ↦ done fs.next (with_entry p fs) | some i ↦ refused eexist ]
    else refused enoent

-- `os.open(p, O_CREAT | O_EXCL | O_WRONLY, mode)`
unfoldable pub open_excl : FilePath → Exec ℕ
unfolding create_excl
open_excl p = do i ← call (create_excl p); new_fd (file i)

-- `os.open(d, O_RDONLY)` of a directory
unfoldable pub open_dir : Dir → Exec ℕ
open_dir d = do call (λ fs. if fs.is_dir d then done tt fs else refused enoent); new_fd (folder d)

-- `O_CREAT | O_TRUNC`, the mode "w"
unfoldable pub create_trunc : FilePath → Fs → Reply ℕ
create_trunc p fs =
    if fs.is_dir p.dir
    then elim (fs.names p) [
      | none ↦ done fs.next (with_entry p fs)
      | some i ↦ done i (record fs { body = update fs.body i [] })
    ]
    else refused enoent

unfoldable pub open_trunc : FilePath → Exec ℕ
unfolding create_trunc
open_trunc p = do i ← call (create_trunc p); new_fd (file i)

abbrev pub append_body : ℕ → Bytes → Fs → Fs
append_body i text fs = record fs { body = update fs.body i (fs.body i ++ text) }

-- A write may be cut short, but writes a byte at least.
abbrev pub granted : Fault → Bytes → Bytes
granted (short n) text = take (suc n) text
granted _ text = text

abbrev pub write_to : Option Handle → Bytes → Exec ℕ
write_to (some (file i)) text w =
    let part = granted (first_fault w.faults) text in
    call (λ fs. done (length part) (append_body i part fs)) w
write_to (some (folder d)) text w = (raised (os_error ebadf), w)
write_to none text w = (raised (os_error ebadf), w)

-- `os.write(fd, text)`, at the end of the file: the answer is the number of bytes written.
unfoldable pub write : ℕ → Bytes → Exec ℕ
write fd text w = write_to (lookup_fd fd w.fds) text w

-- Python's buffered writer: it writes until nothing is left. Each round writes a byte at least, so
-- as many rounds as bytes are enough.
unfoldable pub write_out : ℕ → ℕ → Bytes → Exec (Unit {0})
write_out zero fd rest = pure tt
write_out (suc fuel) fd [] = pure tt
write_out (suc fuel) fd (b ∷ rest) = do
  n ← write fd (b ∷ rest)
  write_out fuel fd (drop n (b ∷ rest))

abbrev pub sync_body : ℕ → Fs → Fs
sync_body i fs = record fs { saved_body = update fs.saved_body i (fs.body i) }

abbrev pub sync_dir : Dir → Fs → Fs
sync_dir d fs = record fs { saved_names = λ p. if d == p.dir then fs.names p else fs.saved_names p }

abbrev pub fsync_of : Option Handle → Exec (Unit {0})
fsync_of (some (file i)) = call (λ fs. done tt (sync_body i fs))
fsync_of (some (folder d)) = call (λ fs. done tt (sync_dir d fs))
fsync_of none = raise (os_error ebadf)

-- `os.fsync(fd)`
unfoldable pub fsync : ℕ → Exec (Unit {0})
fsync fd w = fsync_of (lookup_fd fd w.fds) w

abbrev pub close_of : ℕ → Option Handle → Exec (Unit {0})
close_of fd (some h) = do
  modify (λ w. record w { fds = erase_fd fd w.fds })
  call (λ fs. done tt fs)
close_of fd none = raise (os_error ebadf)

-- `os.close(fd)`
unfoldable pub close : ℕ → Exec (Unit {0})
close fd w = close_of fd (lookup_fd fd w.fds) w

unfoldable pub remove_entry : FilePath → Fs → Reply (Unit {0})
remove_entry p fs = elim (fs.names p) [
  | none ↦ refused enoent
  | some i ↦ done tt (record fs { names = update fs.names p none })
]

-- `p.unlink()`
unfoldable pub unlink : FilePath → Exec (Unit {0})
unfolding remove_entry
unlink p = call (remove_entry p)

abbrev pub rename : FilePath → FilePath → ℕ → Fs → Fs
rename src dst i fs = record fs { names = update (update fs.names src none) dst (some i) }

unfoldable pub replace_entry : FilePath → FilePath → Fs → Reply (Unit {0})
replace_entry src dst fs = elim (fs.names src) [
  | none ↦ refused enoent
  | some i ↦
      if fs.is_dir dst.dir
      then if fs.device src.dir == fs.device dst.dir
        then done tt (rename src dst i fs)
        else refused exdev
      else refused enoent
]

-- `src.replace(dst)`, `os.replace(src, dst)`
unfoldable pub replace : FilePath → FilePath → Exec (Unit {0})
unfolding replace_entry
replace src dst = call (replace_entry src dst)

abbrev pub is_some {ℓ} : {A : Type ℓ} → Option A → Bool
is_some none = false
is_some (some a) = true

abbrev pub present : FilePath → Fs → Bool
present p fs = is_some (fs.names p) || fs.is_dir (p.name ∷ p.dir)

-- The errors by which the kernel says that there is no such path: `ENOENT`, `EBADF`, `ENOTDIR` and
-- `ELOOP`. Then the answer is what the file system says.
abbrev pub says_missing : Errno → Bool
says_missing enoent = true
says_missing ebadf = true
says_missing (other_errno n) = n == 20 || n == 40
says_missing _ = false

abbrev pub stat_answer : Fault → FilePath → Exec Bool
stat_answer (fail e) p w =
    if says_missing e then (ok (present p w.fs), w) else (raised (os_error e), w)
stat_answer _ p w = (ok (present p w.fs), w)

-- `p.exists()`: up to Python 3.13 it raises every other error of `stat`.
unfoldable pub exists : FilePath → Exec Bool
exists p w = stat_answer (first_fault w.faults) p (record w { faults = later_faults w.faults })

-- `p.stat().st_dev`
unfoldable pub stat_device : FilePath → Exec ℕ
stat_device p = call (λ fs. if present p fs then done (fs.device p.dir) fs else refused enoent)

unfoldable pub stat_dir : Dir → Exec ℕ
stat_dir d = call (λ fs. if fs.is_dir d then done (fs.device d) fs else refused enoent)

-- `p.stat().st_mode & 0o777`, the low bits of the attributes
unfoldable pub stat_mode : FilePath → Exec ℕ
stat_mode p =
    call
      (λ fs. elim (fs.names p) [ none ↦ refused enoent | some i ↦ done (fs.attributes i % 512) fs ])

-- `p.read_bytes()`
unfoldable pub read_bytes : FilePath → Exec Bytes
read_bytes p =
    call (λ fs. elim (fs.names p) [ none ↦ refused enoent | some i ↦ done (fs.body i) fs ])

-- `p.open("rb")`
unfoldable pub open_read : FilePath → Exec ℕ
open_read p = do
  i ← call (λ fs. elim (fs.names p) [ none ↦ refused enoent | some i ↦ done i fs ])
  new_fd (file i)

abbrev pub read_of : Option Handle → ℕ → Exec Bytes
read_of (some (file i)) position = call (λ fs. done (drop position (fs.body i)) fs)
read_of (some (folder d)) position = raise (os_error ebadf)
read_of none position = raise (os_error ebadf)

-- All that the open file holds from a position on.
unfoldable pub read_from : ℕ → ℕ → Exec Bytes
read_from fd position w = read_of (lookup_fd fd w.fds) position w

abbrev pub copy_attributes : ℕ → ℕ → Fs → Fs
copy_attributes i j fs = record fs { attributes = update fs.attributes j (fs.attributes i) }

abbrev pub copystat_of : Option ℕ → Option ℕ → Fs → Reply (Unit {0})
copystat_of (some i) (some j) fs = done tt (copy_attributes i j fs)
copystat_of _ _ fs = refused enoent

-- `shutil.copystat(src, dst)`
unfoldable pub copystat : FilePath → FilePath → Exec (Unit {0})
copystat src dst = call (λ fs. copystat_of (fs.names src) (fs.names dst) fs)

-- `time.sleep(delay)`: the clock runs on, and other processes do their next piece of work.
abbrev pub others_work : List (Fs → Fs) → World → World
others_work [] w = w
others_work (f ∷ later) w = record w { fs = f w.fs; trace = f w.fs ∷ w.trace; others = later }

unfoldable pub sleep : ℕ → Exec (Unit {0})
sleep delay = modify (λ w. others_work w.others (record w { clock = w.clock + delay }))

-- `datetime.now(tz=UTC)`
unfoldable pub now : Exec ℕ
now = gets (λ w. w.clock)

abbrev pub is_ascii : Str → Bool
is_ascii [] = true
is_ascii (c ∷ s) = ltb c 128 && is_ascii s

-- `p.write_text(s, encoding="ascii")`: the file is emptied before the text is encoded.
unfoldable pub write_text : FilePath → Str → Exec (Unit {0})
unfolding write_out
write_text p s = do
  fd ← open_trunc p
  finally (if is_ascii s then write_out (length s) fd s else raise unicode_error) (close fd)

abbrev pub replace_bytes : Bytes → Str
replace_bytes [] = []
replace_bytes (b ∷ rest) = (if ltb b 128 then b else 65533) ∷ replace_bytes rest

-- Line ends as a text file gives them: a carriage return, and one with a line feed, is a line feed.
-- The flag says that the character before was a carriage return.
abbrev pub newlines : Bool → Str → Str
newlines after_return [] = []
newlines after_return (c ∷ s) =
    let rest = newlines (c == 13) s in
    if c == 13 then 10 ∷ rest else if after_return && c == 10 then rest else c ∷ rest

-- `p.read_text(encoding="ascii", errors="replace")`
unfoldable pub read_text : FilePath → Exec Str
read_text p = do content ← read_bytes p; pure (newlines false (replace_bytes content))
