-- ===== src/Locks/Contest/Holding.antt =====
-- The lock of formal/SafeAtomicLock.tla for any number of processes: it has one holder or none.
use safeatomic.Prelude.{ℕ, ◌≢◌, Bool, true, false, Option, none, some, List, [], ◌∷◌}

-- A call of the process with this number.
pub data Act : Type 0 where
  acquire release force recover : ℕ → Act

-- What a call returns, and how the holder changes, where one process may find that another is gone.
pub data Turn (Gone : ℕ → ℕ → Type 0) : Option ℕ → Act → Bool → Option ℕ → Type 0 where
  takes : {i : ℕ} → Turn Gone none (acquire i) true (some i)
  denied : {i j : ℕ} → Turn Gone (some j) (acquire i) false (some j)
  gives_back : {i : ℕ} → Turn Gone (some i) (release i) true none
  keeps : {i j : ℕ} → i ≢ j → Turn Gone (some j) (release i) false (some j)
  finds_none : {i : ℕ} → Turn Gone none (release i) false none
  clears : {i j : ℕ} → Turn Gone (some j) (force i) true none
  clears_none : {i : ℕ} → Turn Gone none (force i) false none
  reclaims : {i j : ℕ} → Gone i j → Turn Gone (some j) (recover i) true none
  spares : {i j : ℕ} → ¬ Gone i j → Turn Gone (some j) (recover i) false (some j)
  recovers_none : {i : ℕ} → Turn Gone none (recover i) false none

abbrev pub Log : Type 0
Log = List (Act × Bool)

-- The turns of a whole log, from one holder to another.
pub data Turns (Gone : ℕ → ℕ → Type 0) : Option ℕ → Log → Option ℕ → Type 0 where
  over : {h : Option ℕ} → Turns Gone h [] h
  turn :
      {h h' h'' : Option ℕ} {act : Act} {b : Bool} {log : Log}
      → Turn Gone h act b h'
      → Turns Gone h' log h''
      → Turns Gone h ((act, b) ∷ log) h''
