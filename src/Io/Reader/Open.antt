-- ===== src/Io/Reader/Open.antt =====
-- A block that opens its file and reads it to the end.
use safeatomic.Prelude.{ℕ, ◌≡◌, refl, some, List, [], false, Str, Bytes, All}
use safeatomic.Prelude.Eq.{==_refl, nat_eq, list_eq}
use safeatomic.Constants.{best_effort}
use safeatomic.Sys.Fs.{FilePath, path_eq}
use safeatomic.Sys.World.{World}
use safeatomic.Sys.Exec.{Exec}
use safeatomic.Sys.Calls.{open_read, new_fd}
use safeatomic.Sys.Logic.Ends.{Triple-bind, Triple-pure}
use safeatomic.Sys.Logic.Returns.{Returns, answered_call}
use safeatomic.Sys.Method.{lift, ◌>>◌}
use safeatomic.Sys.Method.Sat.{EndsWith, Sat, Sat-bind, Sat-weaken}
use safeatomic.Sys.Method.Shape.{At, At-lift, At-assign}
use safeatomic.Host.{Host}
use safeatomic.Io.Safety.{check_safety}
use safeatomic.Io.Reader.{new_reader, enter}
use safeatomic.Io.Reader.Snapshot.{
  ReadStep, IsHarmless, read_to_end, Here, Behind, read_to_end-Here,
}

module _ (target : FilePath) (i : ℕ) (text : Bytes) where
  -- The name leads to the inode, which holds the text, and no call fails.
  pub record Present (w : World) : Type 0 where
    pub quiet : w.faults ≡ []
    pub named : w.fs.names target ≡ some i
    pub holds : w.fs.body i ≡ text

  open_read-Here : Returns Present (open_read target) (λ fd. Here fd i text)
  unfolding open_read new_fd
  open_read-Here =
      Triple-bind _ _
        (answered_call Present (λ j w. (j ≡ i) × Present w) _ (λ w h. h.quiet)
          (λ w h. (
            i,
            w.fs,
            rw h.named refl,
            (refl, record { quiet = refl; named = h.named; holds = h.holds }),
          )))
        (λ j. record {
          at = λ w h. record {
            quiet = h.1.quiet;
            opened = rw (==_refl w.next_fd, h.0) refl;
            holds = h.1.holds;
          };
        })

  module _ (host : Host) (chunk_size : ℕ) (checksum_algo : Str) where
    -- `__enter__` without a gate and a checksum
    pub enter-Behind :
        Sat
          (At new_reader Present)
          (enter host chunk_size target false checksum_algo best_effort)
          (λ u s w. (fd : ℕ) × Behind fd i text [] s w)
          (λ e s w. ⊥)
    unfolding enter check_safety
    enter-Behind =
        Sat-bind {Q = λ u. At new_reader Present} _ _ (answered (Triple-pure _ (λ w h. h))) (λ u.
          Sat-bind {Q = λ u. At new_reader Present} _ _ (answered (Triple-pure tt (λ w h. h))) (λ u.
            Sat-bind _ _ (answered open_read-Here)
              (λ fd. Sat-weaken _ (At-assign new_reader _) (λ u s w h. (fd, h)) (λ e s w h. h))))
      where
        answered :
            {A : Type 0} {m : Exec A} {Q : A → World → Type 0}
            → Returns Present m Q
            → Sat (At new_reader Present) (lift m) (λ a. At new_reader (Q a)) (λ e s w. ⊥)
        answered t = Sat-weaken _ (At-lift new_reader _ t) (λ a s w h. h) (λ e s w h. absurd h.1)

-- Let a name lead to an inode, and no call fail. A reader without a gate and a checksum opens it
-- and makes any sequence of `read(n)` and `readline` calls, between which other processes do what
-- they like but write into this inode: they may replace the name, as a `write_atomic` does, or
-- unlink it. Then the block returns, and the pieces that the calls and a last `read()` give, joined,
-- are the text that the inode held when it was opened.
pub read_to_end_snapshot :
    (target : FilePath) (host : Host) (chunk_size : ℕ) (checksum_algo : Str) (i : ℕ)
    (steps : List ReadStep) (w : World)
    → w.faults ≡ []
    → w.fs.names target ≡ some i
    → All (IsHarmless i) steps
    → EndsWith
        (λ x s w'. x ≡ w.fs.body i)
        (λ e s w'. ⊥)
        ((enter host chunk_size target false checksum_algo best_effort >> read_to_end steps)
          new_reader w)
read_to_end_snapshot target host chunk_size checksum_algo i steps w q n h =
    (Sat-bind _ _ (enter-Behind target i (w.fs.body i) host chunk_size checksum_algo)
        (λ u. record { at = λ s w k. (read_to_end-Here k.0 i _ [] _ steps refl h).at s w k.1 })).at
      new_reader w (refl, record { quiet = q; named = n; holds = refl })
