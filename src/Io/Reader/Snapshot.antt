-- ===== src/Io/Reader/Snapshot.antt =====
-- A reader that has its file open goes on to read that file, whatever becomes of the name.
use safeatomic.Prelude.{
  ℕ, ◌+◌, ◌≡◌, refl, ◌∙◌, ap, inl, inr, pos, negsuc, some, List, [], ◌∷◌, ◌++◌, Bytes, All, length,
  length-append, take, drop, append-take-drop, Bool-cases, if◌then◌else◌,
}
use mathlib.Core.List.{append-nil, append_assoc}
use safeatomic.Prelude.Eq.{◌==◌, nat_eq}
use safeatomic.Sys.Fs.{Fs}
use safeatomic.Sys.World.{file, World}
use safeatomic.Sys.Exec.{modify}
use safeatomic.Sys.Calls.{read_from, lookup_fd}
use safeatomic.Sys.Logic.Returns.{Returns, answered_call}
use safeatomic.Sys.Method.{return, lift, ◌>>=◌, ◌>>◌}
use safeatomic.Sys.Method.Sat.{Sat, Sat-bind, Sat-return, Sat-weaken, Sat-assign}
use safeatomic.Sys.Method.Shape.{At, At-lift, At-with_self}
use safeatomic.Io.Staged.Fill.{drop-length-append}
use safeatomic.Io.Reader.{AtomicReader, Reading, line_of, advance, read, readline}

-- A call of the reader, or work of other processes between two calls.
pub data ReadStep : Type 0 where
  read_step : ℕ → ReadStep
  line_step : ReadStep
  others_step : (Fs → Fs) → ReadStep

-- The work leaves the bytes of this inode alone. What it does to names is free.
abbrev pub IsHarmless : ℕ → ReadStep → Type 0
IsHarmless i (others_step f) = (fs : Fs) → (f fs).body i ≡ fs.body i
IsHarmless i _ = Unit

unfoldable pub perform : ReadStep → Reading Bytes
perform (read_step n) = read (pos n)
perform line_step = readline
perform (others_step f) =
    lift (modify (λ w. record w { fs = f w.fs; trace = f w.fs ∷ w.trace })) >> return []

-- The pieces that the calls return, joined.
unfoldable pub perform_all : List ReadStep → Reading Bytes
perform_all [] = return []
perform_all (step ∷ steps) = do
  piece ← perform step
  pieces ← perform_all steps
  return (piece ++ pieces)

-- The same, and then `read()`.
unfoldable pub read_to_end : List ReadStep → Reading Bytes
read_to_end steps = do pieces ← perform_all steps; rest ← read (negsuc 0); return (pieces ++ rest)

unfoldable pub after_line : Bytes → Bytes
after_line [] = []
after_line (b ∷ rest) = if b == 10 then rest else after_line rest

pub line_of-after_line : (rest : Bytes) → line_of rest ++ after_line rest ≡ rest
unfolding after_line
line_of-after_line [] = refl
line_of-after_line (b ∷ rest) = elim (Bool-cases (b == 10)) [
  | inl e ↦ rw e refl
  | inr e ↦ rw e (ap (λ (t : Bytes). b ∷ t) (line_of-after_line rest))
]

module _ (fd i : ℕ) (text : Bytes) where
  abbrev pub on_file : ℕ → AtomicReader
  on_file p = record { fobj = some (record { descriptor = fd; position = p }); fd = some fd }

  -- The file is open, no call fails, and it holds the text.
  pub record Here (w : World) : Type 0 where
    pub quiet : w.faults ≡ []
    pub opened : lookup_fd fd w.fds ≡ some (file i)
    pub holds : w.fs.body i ≡ text

  abbrev pub Behind : Bytes → AtomicReader → World → Type 0
  Behind sofar = At (on_file (length sofar)) Here

  read_from-Here :
      (sofar rest : Bytes)
      → sofar ++ rest ≡ text
      → Returns Here (read_from fd (length sofar)) (λ x w. (x ≡ rest) × Here w)
  unfolding read_from
  read_from-Here sofar rest e = record {
    at = λ w h. rw h.opened (
        (answered_call (λ u. u ≡ w) (λ x w. (x ≡ rest) × Here w) _ (λ u f. rw f h.quiet)
            (λ u f. (
              drop (length sofar) (u.fs.body i),
              u.fs,
              refl,
              (
                rw f (rw (h.holds, ← e) (drop-length-append sofar rest)),
                rw f (record { quiet = refl; opened = h.opened; holds = h.holds }),
              ),
            ))).at
          w refl);
  }

  pub advance-Behind :
      (sofar rest : Bytes) (choose : Bytes → Bytes)
      → sofar ++ rest ≡ text
      → Sat
          (Behind sofar)
          (advance (record { descriptor = fd; position = length sofar }) choose)
          (λ piece s w. (piece ≡ choose rest) × Behind (sofar ++ piece) s w)
          (λ e s w. ⊥)
  unfolding advance
  advance-Behind sofar rest choose e =
      Sat-bind _ _
        (Sat-weaken _ (At-lift (on_file (length sofar)) _ (read_from-Here sofar rest e))
          (λ x s w h. h) (λ e s w h. absurd h.1))
        (λ x.
          Sat-bind {Q = λ u s w. (x ≡ rest) × Behind (sofar ++ choose x) s w} _ _
            (Sat-assign _ (λ s w h. (
              h.1.0,
              (
                rw (length-append sofar (choose x)) (
                    ap
                      (λ (s : AtomicReader). record s {
                        fobj = some (record {
                          descriptor = fd;
                          position = length sofar + length (choose x);
                        });
                      })
                      h.0),
                h.1.1,
              ),
            )))
            (λ u. Sat-return _ (λ s w h. (ap choose h.0, h.1))))

  abbrev Remaining : Bytes → Bytes → Bytes → AtomicReader → World → Type 0
  Remaining sofar rest piece s w =
      (rest' : Bytes) × (piece ++ rest' ≡ rest) × Behind (sofar ++ piece) s w

  chosen :
      (sofar rest : Bytes) (choose : Bytes → Bytes) (rest' : Bytes)
      → choose rest ++ rest' ≡ rest
      → (piece : Bytes) (s : AtomicReader) (w : World)
      → (piece ≡ choose rest) × Behind (sofar ++ piece) s w
      → Remaining sofar rest piece s w
  chosen sofar rest choose rest' e piece s w h = (rest', rw h.0 e, h.1)

  perform-Remaining :
      (sofar rest : Bytes) (step : ReadStep)
      → sofar ++ rest ≡ text
      → IsHarmless i step
      → Sat (Behind sofar) (perform step) (Remaining sofar rest) (λ e s w. ⊥)
  unfolding perform read readline modify
  perform-Remaining sofar rest (read_step n) e h = At-with_self (on_file (length sofar)) _ (
      Sat-weaken _ (advance-Behind sofar rest (take n) e)
        (chosen sofar rest (take n) (drop n rest) (append-take-drop n rest)) (λ x s w k. k))
  perform-Remaining sofar rest line_step e h = At-with_self (on_file (length sofar)) _ (
      Sat-weaken _ (advance-Behind sofar rest line_of e)
        (chosen sofar rest line_of (after_line rest) (line_of-after_line rest)) (λ x s w k. k))
  perform-Remaining sofar rest (others_step f) e h =
      Sat-bind _ _
        (Sat-weaken _
          (At-lift (on_file (length sofar)) {Q = λ u. Here} {R = λ e w. ⊥} _ (record {
            at = λ w k. record { quiet = k.quiet; opened = k.opened; holds = h w.fs ∙ k.holds };
          }))
          (λ u s w k. k) (λ x s w k. absurd k.1))
        (λ u. Sat-return [] (λ s w k. (rest, refl, rw (append-nil sofar) k)))

  perform_all-Remaining :
      (sofar rest : Bytes) (steps : List ReadStep)
      → sofar ++ rest ≡ text
      → All (IsHarmless i) steps
      → Sat (Behind sofar) (perform_all steps) (Remaining sofar rest) (λ e s w. ⊥)
  unfolding perform_all
  perform_all-Remaining sofar rest [] e h =
      Sat-return [] (λ s w k. (rest, refl, rw (append-nil sofar) k))
  perform_all-Remaining sofar rest (step ∷ steps) e h =
      Sat-bind _ _ (perform-Remaining sofar rest step e h.0) (λ piece. record {
        at = λ s w k.
            (Sat-bind _ _
                (perform_all-Remaining (sofar ++ piece) k.0 steps
                  (append_assoc sofar piece k.0 ∙ ap (λ (t : Bytes). sofar ++ t) k.1 ∙ e) h.1)
                (λ pieces. Sat-return _ (λ s w m. (
                  m.0,
                  append_assoc piece pieces m.0 ∙ ap (λ (t : Bytes). piece ++ t) m.1 ∙ k.1,
                  rw (← append_assoc sofar piece pieces) m.2,
                )))).at
              s w k.2;
      })

  pub read_to_end-Here :
      (sofar rest : Bytes) (steps : List ReadStep)
      → sofar ++ rest ≡ text
      → All (IsHarmless i) steps
      → Sat (Behind sofar) (read_to_end steps) (λ x s w. x ≡ rest) (λ e s w. ⊥)
  unfolding read_to_end read
  read_to_end-Here sofar rest steps e h =
      Sat-bind _ _ (perform_all-Remaining sofar rest steps e h) (λ pieces. record {
        at = λ s w k.
            (Sat-bind _ _
                (At-with_self (on_file (length (sofar ++ pieces))) _ (
                  advance-Behind (sofar ++ pieces) k.0 (λ r. r)
                    (append_assoc sofar pieces k.0 ∙ ap (λ (t : Bytes). sofar ++ t) k.1 ∙ e)))
                (λ last. Sat-return _ (λ s w m. ap (λ (t : Bytes). pieces ++ t) m.0 ∙ k.1))).at
              s w k.2;
      })
