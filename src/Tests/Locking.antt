-- ===== src/Tests/Locking.antt =====
-- Locks on the small disk.
use safeatomic.Prelude.{
  ℕ, ◌≤◌, ◌≡◌, ◌↔◌, ◌⊎◌, refl, ap, sym, ◌∙◌, pos, pos_part, true, false, none, some, [], ◌∷◌, ◌++◌,
  Bytes, codes, arith,
}
use mathlib.Core.Option.{some-injective}
use safeatomic.Prelude.Eq.{nat_eq, list_eq, list_beq}
use safeatomic.Sys.Fs.{FilePath, path_beq, visible}
use safeatomic.Sys.World.{World}
use safeatomic.Sys.Logic.Ends.{Ends}
use safeatomic.Text.{decimal}
use safeatomic.Paths.{lock_path}
use safeatomic.Locks.Payload.{
  LockFields, parse_lock_payload, build_payload, fields, get_member, parse_timestamp, document,
}
use safeatomic.Locks.Info.{LockInfo, dead}
use safeatomic.Locks.Release.{release_lock, judge_stale}
use safeatomic.Locks.Ownership.{Foreign, release_lock-Foreign}
use safeatomic.Locks.Stale.{Died, Expired, judge_stale_iff}
use safeatomic.Locks.RoundTrip.{Codecs, Ours, parse_lock_payload-build_payload}
use safeatomic.Constants.{SafetyPolicy, strict, unrecognised}
use safeatomic.Locks.Acquire.{try_acquire_lock}
use safeatomic.Locks.Cycle.{release_lock-try_acquire_lock}
use safeatomic.Locks.Waiting.{try_acquire_lock-Waited}
use safeatomic.Tests.Machine.{machine}
use safeatomic.Host.{Host}
use safeatomic.Tests.Disk.{at_root, two_files, world_of, second-Ready}

abbrev pub file_a : FilePath
file_a = at_root (codes "a")

-- The payload of another process of the machine.
abbrev other : Host
other = record machine { pid = 8 }

abbrev theirs : Bytes
theirs = other.dumps (document other none 40) ++ 10 ∷ []

theirs-parsed : parse_lock_payload machine theirs ≡ some (Ours other none 40)
unfolding parse_lock_payload fields get_member parse_timestamp list_beq decimal
theirs-parsed = refl

theirs-Foreign : Foreign machine theirs
theirs-Foreign doc e p h =
    let same : Ours other none 40 ≡ doc = some-injective _ _ (sym theirs-parsed ∙ e) in
    let pid : some (pos 8) ≡ some (pos 7) = ap (λ (d : LockFields). d.pid) same ∙ p in
    omega (arith, ap pos_part (some-injective _ _ pid))

abbrev start : World
start = world_of (two_files file_a (codes "old") (lock_path file_a) theirs) []

lock-visible : visible start.fs (lock_path file_a) ≡ some theirs
lock-visible = (second-Ready file_a (lock_path file_a) (codes "old") theirs []).settled.seen

release_lock-Foreign_example :
    Ends
      (λ b w'. (b ≡ false) × (w'.fs ≡ start.fs))
      (λ e w'. w'.fs ≡ start.fs)
      (release_lock machine file_a start)
release_lock-Foreign_example =
    release_lock-Foreign machine file_a theirs start lock-visible theirs-Foreign

abbrev abandoned : LockInfo
abandoned = record {
  path = file_a;
  lock_path = lock_path file_a;
  exists = true;
  pid = some (pos 9);
  hostname = some (codes "alpha");
  session_hash = none;
  timestamp = some 40;
  alive = some dead;
  corrupt = false;
  raw = none;
}

judge_stale_iff_example : (judge_stale machine none abandoned 50 ≡ true) ↔ (
    (abandoned.exists ≡ true)
    × (abandoned.corrupt ≡ false)
    × (Died machine abandoned ⊎ Expired none abandoned 50))
judge_stale_iff_example = judge_stale_iff machine none abandoned 50

machine-Codecs : Codecs machine (some (codes "s1")) 40
unfolding decimal
machine-Codecs = record { utf8 = λ s b e. sym e; json = refl; iso = refl }

parse_lock_payload-build_payload_example :
    Ends
      (λ payload w'.
        (parse_lock_payload machine payload ≡ some (Ours machine (some (codes "s1")) 40))
        × (w' ≡ start))
      (λ e w'.
        machine.encode
          (codes "utf-8")
          (machine.dumps (document machine (some (codes "s1")) 40) ++ 10 ∷ [])
        ≡ none)
      (build_payload machine (some (codes "s1")) 40 start)
parse_lock_payload-build_payload_example =
    parse_lock_payload-build_payload machine (some (codes "s1")) 40 start machine-Codecs

abbrev pub free : World
free = world_of (two_files file_a (codes "old") (at_root (codes "b")) []) []

-- The machine's own payload at the time of that world.
abbrev our_text : Bytes
our_text = machine.dumps (document machine none 50) ++ 10 ∷ []

our_text-parsed : parse_lock_payload machine our_text ≡ some (Ours machine none 50)
unfolding parse_lock_payload fields get_member parse_timestamp list_beq decimal
our_text-parsed = refl

pub root_is_dir : free.fs.is_dir (lock_path file_a).dir ≡ true
unfolding list_beq lock_path
root_is_dir = refl

pub no_lock_yet : free.fs.names (lock_path file_a) ≡ none
unfolding lock_path list_beq path_beq
no_lock_yet = refl

release_lock-try_acquire_lock_example :
    Ends
      (λ b w'.
        (b ≡ true)
        × (visible w'.fs (lock_path file_a) ≡ some our_text)
        × Ends
            (λ c u. (c ≡ true) × (u.fs.names (lock_path file_a) ≡ none))
            (λ e u. ⊥)
            (release_lock machine file_a w'))
      (λ e w'. ⊥)
      (try_acquire_lock machine file_a none (pos 2) (pos 0) strict free)
release_lock-try_acquire_lock_example =
    release_lock-try_acquire_lock file_a machine our_text (Ours machine none 50) 2 0 strict free
      (λ word e. omega (arith, ap rank e)) refl root_is_dir no_lock_yet refl our_text-parsed refl
      refl
  where
    rank : SafetyPolicy → ℕ
    rank (unrecognised word) = 1
    rank _ = 0

-- The sidecar of another process stands.
abbrev taken_by_other : World
taken_by_other = world_of (two_files (lock_path file_a) theirs (at_root (codes "b")) []) []

try_acquire_lock-Waited_example :
    Ends
      (λ taken w'. ((50 ≤ w'.clock) × (w'.clock ≤ 56)) × ((taken ≡ true) ⊎ (w'.clock ≡ 56)))
      (λ e w'. (50 ≤ w'.clock) × (w'.clock ≤ 56))
      (try_acquire_lock machine file_a none (pos 2) (pos 3) strict taken_by_other)
try_acquire_lock-Waited_example =
    try_acquire_lock-Waited machine file_a none 2 3 strict taken_by_other
