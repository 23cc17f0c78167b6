-- ===== src/Lib.antt =====
-- A model of the safeatomic package (src/safeatomic): files that are written whole or not at all,
-- with cooperative locks, checksum sidecars and a report of what the file system can promise.
--
-- The program and its parts:
--   Sys           the machine under the package: Sys/Fs is a POSIX file system with names, inodes and
--                 what of both has reached the disk; Sys/World adds open descriptors, the clock and a
--                 list of faults, one for each call to come; Sys/Exec is the monad of code that may
--                 raise; Sys/Calls has the system calls of the source. After a crash a file shows its
--                 synced text, under its old directory entry or under the new one.
--   Host          what the process gets from outside: hash functions, codecs, JSON, dates, random
--                 names, os.kill and the mount table. They are parameters.
--   Constants, Environment, Sys/Errors
--                 _constants.py, the types of _capabilities.py, _exceptions.py
--   Paths         _paths.py: lock_path, checksum_path, tmp_path_for, is_tmp_name
--   Config        _config.py: safeatomic_config, resolve_config, _validate
--   Capabilities  _capabilities.py: detect_environment (detect_environment, detect_at,
--                 lookup_or_probe), the mount table (Mounts), the classes (Classify), the probes (Probe)
--   Guarantees    _guarantees.py: the matrix, GuaranteeReport, inspect_guarantees
--   Checksum      _checksum.py; the sidecar's text is in Checksum/Sidecar
--   Locks         _locks.py: Payload (_build_payload, _parse_lock_payload), Info (LockInfo,
--                 inspect_lock), Acquire (try_acquire_lock), Release (release_lock,
--                 release_stale_lock); Contest sets their calls against the lock of
--                 formal/SafeAtomicLock.tla
--   Io            _io_core.py: Safety (_check_safety), Fsync (_fsync_dir), Write (_write_core,
--                 write_atomic, write_atomic_bytes), Read (_read_core, read_atomic), Move
--                 (move_atomic), Writer (AtomicWriter), Verify and Reader (AtomicReader). A method of
--                 these two classes is a Method of Sys/Method: it also takes and gives the object's
--                 fields, and what it assigned before a raise stays assigned.
--   Formats       _formats_json.py, _formats_toml.py, _formats_yaml.py (Yaml and Ruamel). The
--                 third-party serialisers are parameters.
--   Doctor        _doctor.py: Report (the reports and _evaluate_require), Probe (the checks and the
--                 probes), Run (doctor). os.access is a parameter.
--
-- How they interact: write_core asks the gate (Io/Safety, which asks Guarantees, which asks
-- Capabilities), takes the lock (Locks), writes a temporary file, moves it over the target, gives the
-- lock back, syncs the directory and writes the sidecar (Checksum). Each of these is a call of the
-- model's function of that name, and each system call of them takes one entry of the fault list, so a
-- theorem for every world is one for every way in which the calls can fail.
--
-- The proofs: Sys/Logic has the rules for invariants (Keeps) and for ends (Triple, Ends) of actions;
-- Sys/Files has the invariant of one file and shows that every call on other files keeps it;
-- Capabilities/Frame, Locks/Frame and Io/Frame lift that to the operations; Io/Staged follows the
-- temporary file from its creation to the rename; Io/Visibility, Io/Durability and Io/Exclusion put the
-- whole write together, Io/Bystander is about other files, and Io/Returns follows a write where no
-- call fails. Sys/Method has the same rules for methods (Sat), and those for an object whose fields are
-- known (Shape); Io/Writer and Io/Reader use them: Phases, Abort, Commit, Enter and Block follow a writer
-- through its block, Lifecycle its fields over any calls, and Snapshot a reader whose file is replaced
-- under it. Formats/Stored is a write followed by a read. Doctor/Frame shows that the probes leave
-- other files alone. Ordinary has the file names that the theorems are about: none that the package makes up
-- for a temporary file or a probe.
--
-- Bounds: numbers are natural numbers without a limit, as in Python. The loop over partial writes
-- runs on as much fuel as bytes are left, since each round writes a byte at least, and the loop over
-- chunks on as much as there are bytes, so neither runs out. The
-- loop over lock attempts is a recursion on their number; Locks/Waiting follows the clock through it. `time.sleep` lets other processes do one
-- piece of work each time (World.others).
--
-- Iteration over a reader takes fuel, and a round more than the file has bytes is enough.
--
-- Not modelled: DoctorReport.summary and to_dict, GuaranteeReport.__str__ and the texts of messages,
-- which only format; logging; symbolic links; KeyboardInterrupt between two calls; the thread lock
-- around the cache; what a BufferedReader has read ahead; the mode that a new file is created with
-- (its attributes are the file system's choice); an OverflowError of os.kill for a process number
-- that no system has. The chunks of compute_hash_file are read in one call, with one fault. The walk
-- of detect_environment and the doctor ask for directories without an error; Path.exists of a file
-- raises as up to Python 3.13. ENOTSUP, ENOTDIR and ELOOP have Linux's numbers. Delays are in
-- microseconds. Text methods are exact on ASCII.
pub mod Prelude
pub mod Constants
pub mod Environment
pub mod Sys
pub mod Host
pub mod Text
pub mod Paths
pub mod Config
pub mod Capabilities
pub mod Guarantees
pub mod Checksum
pub mod Ordinary
pub mod Locks
pub mod Io
pub mod Formats
pub mod Doctor
mod Tests
