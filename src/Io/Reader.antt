-- ===== src/Io/Reader.antt =====
-- The class `AtomicReader`. What its methods assign is the state; the arguments that `__init__`
-- keeps are parameters. The file object reads at its position, and what Python buffers ahead is not
-- told apart from what the open file holds.
pub mod Snapshot
pub mod Open
pub mod Lines
pub mod Closed
use safeatomic.Prelude.{
  ℕ, zero, suc, ◌+◌, ℤ, pos, negsuc, Bool, Option, none, some, List, [], ◌∷◌, Str, Bytes, length,
  take, if◌then◌else◌,
}
use safeatomic.Prelude.Eq.{◌==◌, nat_eq, list_eq}
use safeatomic.Constants.{SafetyPolicy}
use safeatomic.Sys.Errors.{runtime_error, value_error}
use safeatomic.Sys.Fs.{FilePath}
use safeatomic.Sys.Exec.{Exec, pure, suppress_os, when}
use safeatomic.Sys.Calls.{open_read, read_from, close}
use safeatomic.Sys.Method.{Method, return, throw, lift, assign, with_self, ◌>>=◌, ◌>>◌}
use safeatomic.Host.{Host}
use safeatomic.Capabilities.{node}
use safeatomic.Io.Safety.{check_safety}
use safeatomic.Io.Read.{required_by}
use safeatomic.Io.Verify.{verify_checksum_before_open}

-- `BinaryIO`: the descriptor and the position in the file.
pub record FileObject : Type 0 where
  pub descriptor : ℕ
  pub position : ℕ

pub record AtomicReader : Type 0 where
  pub fobj : Option FileObject
  pub fd : Option ℕ

-- `__init__`
abbrev pub new_reader : AtomicReader
new_reader = record { fobj = none; fd = none }

abbrev pub Reading : Type 0 → Type 0
Reading = Method AtomicReader

abbrev pub fobj_or_raise : {A : Type 0} → Option FileObject → (FileObject → Reading A) → Reading A
fobj_or_raise none f = throw runtime_error
fobj_or_raise (some o) f = f o

-- The bytes up to the first line feed, and with it.
abbrev pub line_of : Bytes → Bytes
line_of [] = []
line_of (b ∷ rest) = if b == 10 then b ∷ [] else b ∷ line_of rest

-- A piece of what is left, after which the position is behind it.
unfoldable pub advance : FileObject → (Bytes → Bytes) → Reading Bytes
advance o choose = do
  rest ← lift (read_from o.descriptor o.position)
  assign (λ s. record s { fobj = some (record o { position = o.position + length (choose rest) }) })
  return (choose rest)

-- `self._fobj.read(n)`: all that is left at -1, and `ValueError` below that.
abbrev pub read_size : FileObject → ℤ → Reading Bytes
read_size o (pos n) = advance o (take n)
read_size o (negsuc zero) = advance o (λ rest. rest)
read_size o (negsuc (suc n)) = throw value_error

unfoldable pub read : ℤ → Reading Bytes
read n = with_self λ s. fobj_or_raise s.fobj λ o. read_size o n

unfoldable pub readline : Reading Bytes
readline = with_self λ s. fobj_or_raise s.fobj λ o. advance o line_of

-- The lines that are left, until one is empty. Each round reads a byte at least, so a round more
-- than bytes are left is enough.
unfoldable pub lines_left : ℕ → Reading (List Bytes)
lines_left zero = return []
lines_left (suc fuel) = readline >>= λ line. elim line [
  | [] ↦ return []
  | b ∷ more ↦ lines_left fuel >>= λ lines. return ((b ∷ more) ∷ lines)
]

-- `__iter__`, run to its end
unfoldable pub iterate : ℕ → Reading (List Bytes)
iterate fuel = with_self λ s. fobj_or_raise s.fobj λ o. lines_left fuel

abbrev pub number_or_raise : Option ℕ → Reading ℕ
number_or_raise none = throw runtime_error
number_or_raise (some fd) = return fd

unfoldable pub fileno : Reading ℕ
fileno = with_self λ s. number_or_raise s.fd

abbrev pub close_object : Option FileObject → Exec (Unit {0})
close_object none = pure tt
close_object (some o) = suppress_os (close o.descriptor)

-- `__exit__`
unfoldable pub exit : Reading (Unit {0})
exit = do with_self (λ s. lift (close_object s.fobj)); assign (λ s. new_reader)

module _ (host : Host) (chunk_size : ℕ) (target : FilePath) (check_checksum : Bool)
    (checksum_algo : Str) (safety : SafetyPolicy) where
  -- `__enter__`
  unfoldable pub enter : Reading (Unit {0})
  enter = do
    lift (check_safety host (node target) (required_by host check_checksum) safety)
    lift (when check_checksum (verify_checksum_before_open host chunk_size target checksum_algo))
    fd ← lift (open_read target)
    assign (λ s. record { fobj = some (record { descriptor = fd; position = 0 }); fd = some fd })
