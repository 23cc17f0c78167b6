-- ===== src/Tests/Contests.antt =====
-- Processes that contend for a lock on the small disk.
use safeatomic.Prelude.{ℕ, Option, none, some, List, [], ◌∷◌, ◌++◌, Str, Bytes}
use safeatomic.Sys.Logic.Ends.{Ends}
use safeatomic.Host.{Host, Stamp, aware}
use safeatomic.Locks.Payload.{document}
use safeatomic.Locks.Contest.Holding.{Act, acquire, release, force, recover}
use safeatomic.Tests.Machine.{machine}

abbrev stamp_of : Str → Option Stamp
stamp_of [] = none
stamp_of (t ∷ rest) = some (aware t)

-- A time is written as one character.
abbrev process : ℕ → Host
process i = record machine { pid = i; isoformat = λ t. t ∷ []; fromisoformat = stamp_of }

abbrev written : ℕ → ℕ → Bytes
written i t = (process i).dumps (document (process i) none t) ++ 10 ∷ []

abbrev acts : List Act
acts =
    acquire 1
    ∷ acquire 2
    ∷ release 2
    ∷ release 1
    ∷ acquire 2
    ∷ recover 1
    ∷ acquire 7
    ∷ recover 1
    ∷ force 1
    ∷ []
