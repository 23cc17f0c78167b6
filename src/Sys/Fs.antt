-- ===== src/Sys/Fs.antt =====
-- A POSIX file system with names, inodes and what of them has reached the disk.
use safeatomic.Prelude.{
  ℕ, ◌≡◌, refl, ◌≢◌, false, ◌↔◌, Bool, ◌&&◌, true, Option, none, some, List, Str, Bytes, arith,
  if◌then◌else◌,
}
use safeatomic.Prelude.Eq.{Equality, ◌==◌, nat_eq, list_eq, list_beq_iff}

-- A directory by its names, the innermost first. The root is [].
abbrev pub Dir : Type 0
Dir = List Str

-- A resolved path that has a name.
pub record FilePath : Type 0 where
  pub dir : Dir
  pub name : Str

unfoldable pub path_beq : FilePath → FilePath → Bool
path_beq p q = p.dir == q.dir && p.name == q.name

pub path_beq_iff : (p q : FilePath) → (path_beq p q ≡ true) ↔ (p ≡ q)
unfolding path_beq
path_beq_iff p q = ground (arith, list_beq_iff p.dir q.dir, list_beq_iff p.name q.name)

instance abbrev pub path_eq : Equality FilePath
path_eq = record { same = path_beq; decides = path_beq_iff }

pub path_beq-ne : (p q : FilePath) → p ≢ q → path_beq p q ≡ false
path_beq-ne p q h = ground (arith, path_beq_iff p q)

pub path_beq-ne_symm : (p q : FilePath) → p ≢ q → path_beq q p ≡ false
path_beq-ne_symm p q h = ground (arith, path_beq_iff q p)

pub ne-of_path_beq : (p q : FilePath) → path_beq p q ≡ false → q ≢ p
ne-of_path_beq p q h e = ground (arith, path_beq_iff p q)

-- A function changed at one point.
abbrev pub update {ℓ κ} : {K : Type ℓ} {V : Type κ} ⦃q : Equality K⦄ → (K → V) → K → V → K → V
update f k v j = if k == j then v else f j

pub update-ne {κ} :
    {V : Type κ} (f : FilePath → V) (p : FilePath) (v : V) (q : FilePath)
    → p ≢ q
    → update f p v q ≡ f q
update-ne f p v q h = rw (path_beq-ne p q h)

pub update_self {κ} : {V : Type κ} (f : FilePath → V) (p : FilePath) (v : V) → update f p v p ≡ v
update_self f p v = rw ((path_beq_iff p p).1 refl)

-- `names` and `body` are what processes see, `saved_names` and `saved_body` what is on the disk.
-- `attributes` holds an inode's mode and times, `device` the `st_dev` of a directory.
pub record Fs : Type 0 where
  pub names : FilePath → Option ℕ
  pub saved_names : FilePath → Option ℕ
  pub body : ℕ → Bytes
  pub saved_body : ℕ → Bytes
  pub attributes : ℕ → ℕ
  pub next : ℕ
  pub is_dir : Dir → Bool
  pub device : Dir → ℕ

abbrev pub text_at : (ℕ → Bytes) → Option ℕ → Option Bytes
text_at body none = none
text_at body (some i) = some (body i)

-- The text that a name leads to.
abbrev pub view : (FilePath → Option ℕ) → (ℕ → Bytes) → FilePath → Option Bytes
view names body p = text_at body (names p)

-- What a reader of `p` gets now.
abbrev pub visible : Fs → FilePath → Option Bytes
visible fs p = view fs.names fs.body p

-- What a reader gets after a crash, if the entry of `p` had not reached the disk, and if it had.
abbrev pub crashed_early : Fs → FilePath → Option Bytes
crashed_early fs p = view fs.saved_names fs.saved_body p

abbrev pub crashed_late : Fs → FilePath → Option Bytes
crashed_late fs p = view fs.names fs.saved_body p
