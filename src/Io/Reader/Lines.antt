-- ===== src/Io/Reader/Lines.antt =====
-- Iteration over a reader, and the lines of a text.
use safeatomic.Prelude.{
  ℕ, zero, suc, ◌≤◌, ◌<◌, ◌≡◌, refl, ◌∙◌, ap, inl, inr, false, some, List, [], ◌∷◌, ◌++◌, Bytes,
  Str, length, length-append, Bool-cases, if◌then◌else◌, arith,
}
use mathlib.Core.List.{append_assoc}
use safeatomic.Prelude.Eq.{◌==◌, nat_eq}
use safeatomic.Constants.{best_effort}
use safeatomic.Sys.Fs.{FilePath}
use safeatomic.Sys.World.{World}
use safeatomic.Sys.Method.{return, ◌>>=◌, ◌>>◌}
use safeatomic.Sys.Method.Sat.{EndsWith, Sat, Sat-bind, Sat-return, Sat-weaken}
use safeatomic.Sys.Method.Shape.{At-with_self}
use safeatomic.Host.{Host}
use safeatomic.Io.Reader.{new_reader, line_of, readline, lines_left, iterate, enter}
use safeatomic.Io.Reader.Snapshot.{after_line, line_of-after_line, Behind, on_file, advance-Behind}
use safeatomic.Io.Reader.Open.{enter-Behind}

abbrev attach : ℕ → List Bytes → List Bytes
attach b [] = (b ∷ []) ∷ []
attach b (line ∷ lines) = (b ∷ line) ∷ lines

-- The lines of a text, each with its line feed, by recursion on the text.
unfoldable pub split_lines : Bytes → List Bytes
split_lines [] = []
split_lines (b ∷ rest) =
    if b == 10 then (b ∷ []) ∷ split_lines rest else attach b (split_lines rest)

-- The first line, and the lines of what follows it.
split_step :
    (b : ℕ) (rest : Bytes)
    → split_lines (b ∷ rest) ≡ line_of (b ∷ rest) ∷ split_lines (after_line (b ∷ rest))
unfolding split_lines after_line
split_step b [] = elim (Bool-cases (b == 10)) [ inl e ↦ rw e refl | inr e ↦ rw e refl ]
split_step b (c ∷ more) = elim (Bool-cases (b == 10)) [
  | inl e ↦ rw e refl
  | inr e ↦ rw e (ap (attach b) (split_step c more))
]

line_of-cons : (b : ℕ) (rest : Bytes) → (more : Bytes) × (line_of (b ∷ rest) ≡ b ∷ more)
line_of-cons b rest = elim (Bool-cases (b == 10)) [
  | inl e ↦ ([], rw e refl)
  | inr e ↦ (line_of rest, rw e refl)
]

after_line-le : (b : ℕ) (rest : Bytes) → length (after_line (b ∷ rest)) ≤ length rest
after_line-le b rest =
    let (more, e) = line_of-cons b rest in
    omega (
      arith,
      ap (λ (t : Bytes). length t) (line_of-after_line (b ∷ rest)),
      length-append (line_of (b ∷ rest)) (after_line (b ∷ rest)),
      ap (λ (t : Bytes). length t) e,
    )

module _ (fd i : ℕ) (text : Bytes) where
  readline-Behind :
      (sofar rest : Bytes)
      → sofar ++ rest ≡ text
      → Sat
          (Behind fd i text sofar)
          readline
          (λ piece s w. (piece ≡ line_of rest) × Behind fd i text (sofar ++ piece) s w)
          (λ e s w. ⊥)
  unfolding readline
  readline-Behind sofar rest e =
      At-with_self (on_file fd i text (length sofar)) _
        (advance-Behind fd i text sofar rest line_of e)

  lines_left-Behind :
      (fuel : ℕ) (sofar rest : Bytes)
      → sofar ++ rest ≡ text
      → length rest < fuel
      → Sat
          (Behind fd i text sofar)
          (lines_left fuel)
          (λ lines s w. lines ≡ split_lines rest)
          (λ e s w. ⊥)
  unfolding lines_left
  lines_left-Behind zero sofar rest e l = absurd (omega arith)
  lines_left-Behind (suc fuel) sofar [] e l =
      Sat-bind _ _ (readline-Behind sofar [] e)
        (λ line. record { at = λ s w h. rw h.0 (unfold return split_lines in refl) })
  lines_left-Behind (suc fuel) sofar (b ∷ rest) e l =
      Sat-bind _ _ (readline-Behind sofar (b ∷ rest) e) (λ line. record {
        at = λ s w h.
            rw (h.0, (line_of-cons b rest).1) ((next (lines_left-Behind fuel) line h.0).at s w h.1);
      })
    where
      next :
          ((sofar rest : Bytes)
            → sofar ++ rest ≡ text
            → length rest < fuel
            → Sat
                (Behind fd i text sofar)
                (lines_left fuel)
                (λ lines s w. lines ≡ split_lines rest)
                (λ e s w. ⊥))
          → (line : Bytes) → line ≡ line_of (b ∷ rest)
          → Sat
              (Behind fd i text (sofar ++ line))
              (lines_left fuel >>= λ lines. return ((b ∷ (line_of-cons b rest).0) ∷ lines))
              (λ lines s w. lines ≡ split_lines (b ∷ rest))
              (λ e s w. ⊥)
      next ih line f =
          Sat-bind _ _
            (ih (sofar ++ line) (after_line (b ∷ rest))
              (append_assoc sofar line _
                ∙ ap (λ (t : Bytes). sofar ++ t) (rw f (line_of-after_line (b ∷ rest)))
                ∙ e)
              (omega (arith, after_line-le b rest)))
            (λ lines. Sat-return _ (λ s w h.
              rw (split_step b rest, (line_of-cons b rest).1)
                (ap (λ (ls : List Bytes). (b ∷ (line_of-cons b rest).0) ∷ ls) h)))

abbrev pub join : List Bytes → Bytes
join [] = []
join (line ∷ lines) = line ++ join lines

join-attach : (b : ℕ) (lines : List Bytes) → join (attach b lines) ≡ b ∷ join lines
join-attach b [] = refl
join-attach b (line ∷ lines) = refl

join-split_lines : (text : Bytes) → join (split_lines text) ≡ text
unfolding split_lines
join-split_lines [] = refl
join-split_lines (b ∷ rest) = elim (Bool-cases (b == 10)) [
  | inl e ↦ rw e (ap (λ (t : Bytes). b ∷ t) (join-split_lines rest))
  | inr e ↦
      rw e (join-attach b (split_lines rest) ∙ ap (λ (t : Bytes). b ∷ t) (join-split_lines rest))
]

-- Let a name lead to an inode, and no call fail. A reader without a gate and a checksum that opens
-- it and iterates ends after at most one round more than the file has bytes, without an error; the
-- lines that it yields are those of `split_lines`, a recursion on the text that ends a line behind
-- each line feed, and joined they are the text.
pub iterate-split_lines :
    (target : FilePath) (host : Host) (chunk_size : ℕ) (checksum_algo : Str) (i fuel : ℕ)
    (w : World)
    → w.faults ≡ []
    → w.fs.names target ≡ some i
    → length (w.fs.body i) < fuel
    → EndsWith
        (λ lines s w'. (lines ≡ split_lines (w.fs.body i)) × (join lines ≡ w.fs.body i))
        (λ e s w'. ⊥)
        ((enter host chunk_size target false checksum_algo best_effort >> iterate fuel) new_reader
          w)
unfolding iterate
iterate-split_lines target host chunk_size checksum_algo i fuel w q n l =
    (Sat-bind _ _ (enter-Behind target i (w.fs.body i) host chunk_size checksum_algo) (λ u. record {
      at = λ s w' k.
          (Sat-weaken _
              (At-with_self (on_file k.0 i (w.fs.body i) 0) _
                (lines_left-Behind k.0 i (w.fs.body i) fuel [] (w.fs.body i) refl l))
              (λ lines s w' h. (h, ap join h ∙ join-split_lines (w.fs.body i))) (λ e s w' h. h)).at
            s w' k.1;
    })).at
      new_reader w (refl, record { quiet = q; named = n; holds = refl })
