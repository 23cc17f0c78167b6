-- ===== src/Locks/Cycle/Take.antt =====
-- One attempt at a free lock where no call fails.
use safeatomic.Prelude.{
  ℕ, suc, ◌≡◌, refl, ap, true, ◌&&◌, none, some, List, [], ◌∷◌, ◌++◌, Bytes, codes, length,
  if◌then◌else◌, ltb,
}
use safeatomic.Prelude.Eq.{==_refl, nat_eq, list_eq}
use safeatomic.Sys.Fs.{FilePath, path_eq, update_self}
use safeatomic.Sys.World.{Fault, file, World}
use safeatomic.Sys.Exec.{Exec, pure, gets, modify, ◌>>=◌, ◌>>◌}
use safeatomic.Sys.Calls.{
  first_fault, granted, lookup_fd, erase_fd, new_fd, create_excl, open_excl, with_entry, write,
  append_body, close, now, sleep,
}
use safeatomic.Sys.Logic.Ends.{Triple, Triple-bind, Triple-pure, Triple-finally, Triple-try_except}
use safeatomic.Sys.Logic.Returns.{Returns, answered_call}
use safeatomic.Host.{Host}
use safeatomic.Locks.Payload.{document, build_payload}
use safeatomic.Locks.Acquire.{Opened, contended, opened, open_lock, fill_lock, acquire_loop}

pub never : {A : Type 0} {Q : A → World → Type 0} (m : Exec A) → Triple (λ w. ⊥) m Q (λ e w. ⊥)
never m = record { at = λ w h. absurd h }

descriptor : Opened → ℕ
descriptor contended = 0
descriptor (opened fd) = fd

same_descriptor : (m n : ℕ) → opened m ≡ opened n → m ≡ n
unfolding descriptor
same_descriptor m n e = ap descriptor e

module _ (lf : FilePath) where
  -- No fault is to come and the lock is free, at the time `t`.
  abbrev pub Free : ℕ → World → Type 0
  Free t w = (w.faults ≡ []) × (w.clock ≡ t) × (w.fs.is_dir lf.dir ≡ true) × (w.fs.names lf ≡ none)

  -- The lock's sidecar holds this text.
  pub record Mine (text : Bytes) (w : World) : Type 0 where
    pub quiet : w.faults ≡ []
    pub inode : ℕ
    pub named : w.fs.names lf ≡ some inode
    pub filled : w.fs.body inode ≡ text
    pub folder : w.fs.is_dir lf.dir ≡ true

  -- No fault is to come and the lock is free.
  pub record Vacant (w : World) : Type 0 where
    pub quiet : w.faults ≡ []
    pub folder : w.fs.is_dir lf.dir ≡ true
    pub unnamed : w.fs.names lf ≡ none

  pub record Filling (text : Bytes) (fd : ℕ) (w : World) : Type 0 where
    pub mine : Mine text w
    pub opened : lookup_fd fd w.fds ≡ some (file mine.inode)

  open-Filling : (t : ℕ) → Returns (Free t) (open_excl lf) (Filling [])
  unfolding open_excl create_excl new_fd
  open-Filling t =
      Triple-bind _ _
        (answered_call (Free t)
          (λ i w.
            (w.faults ≡ [])
            × (w.fs.names lf ≡ some i)
            × (w.fs.body i ≡ [])
            × (w.fs.is_dir lf.dir ≡ true))
          (create_excl lf) (λ w h. h.0)
          (λ w h. (
            w.fs.next,
            with_entry lf w.fs,
            rw (h.2, h.3, create_excl) refl,
            (refl, update_self w.fs.names lf (some w.fs.next), rw (==_refl w.fs.next) refl, h.2),
          )))
        (λ i. record {
          at = λ w h. record {
            mine = record { quiet = h.0; inode = i; named = h.1; filled = h.2; folder = h.3 };
            opened = rw (==_refl w.next_fd) refl;
          };
        })

  write-Filling :
      (fd : ℕ) (text : Bytes) → Returns (Filling [] fd) (write fd text) (λ n. Filling text fd)
  unfolding write
  write-Filling fd text = record {
    at = λ w h.
        let part : Bytes = granted (first_fault w.faults) text in
        rw h.opened (
          (answered_call (λ u. u ≡ w) (λ n. Filling text fd) _ (λ u e. rw e h.mine.quiet)
              (λ u e. (
                length part,
                append_body h.mine.inode part u.fs,
                refl,
                rw e (record {
                  mine = record {
                    quiet = refl;
                    inode = h.mine.inode;
                    named = h.mine.named;
                    filled = rw (==_refl h.mine.inode, h.mine.filled) (whole w.faults h.mine.quiet);
                    folder = h.mine.folder;
                  };
                  opened = h.opened;
                }),
              ))).at
            w refl);
  }
    where
      whole : (faults : List Fault) → faults ≡ [] → granted (first_fault faults) text ≡ text
      whole faults e = rw e refl

  close-Mine : (fd : ℕ) (text : Bytes) → Returns (Filling text fd) (close fd) (λ u. Mine text)
  unfolding close modify ◌>>=◌
  close-Mine fd text = record {
    at = λ w h.
        let w₁ : World = record w { fds = erase_fd fd w.fds } in
        rw h.opened (
          (answered_call (λ u. u ≡ w₁) (λ x. Mine text) _ (λ u e. rw e h.mine.quiet)
              (λ u e. (
                tt,
                u.fs,
                refl,
                rw e (record {
                  quiet = refl;
                  inode = h.mine.inode;
                  named = h.mine.named;
                  filled = h.mine.filled;
                  folder = h.mine.folder;
                }),
              ))).at
            w₁ refl);
  }

  fill_lock-Mine :
      (fd : ℕ) (text : Bytes) → Returns (Filling [] fd) (fill_lock lf fd text) (λ u. Mine text)
  unfolding fill_lock
  fill_lock-Mine fd text =
      Triple-try_except {R = λ e w. ⊥} _ _
        (Triple-finally {R = λ e w. ⊥} _ _
          (Triple-bind _ _ (write-Filling fd text) (λ n. Triple-pure tt (λ w h. h)))
          (λ u. close-Mine fd text) (λ e. never _))
        (λ e. never _)

  open_lock-Filling :
      (t : ℕ)
      → Returns (Free t) (open_lock lf) (λ r w. (fd : ℕ) × (r ≡ opened fd) × Filling [] fd w)
  unfolding open_lock
  open_lock-Filling t =
      Triple-try_except {R = λ e w. ⊥} _ _
        (Triple-bind _ _ (open-Filling t) (λ fd. Triple-pure _ (λ w h. (fd, refl, h))))
        (λ e. never _)

  module _ (host : Host) (text : Bytes) (t : ℕ)
      (encoded : host.encode (codes "utf-8") (host.dumps (document host none t) ++ 10 ∷ [])
        ≡ some text) where
    payload-built : Returns (Free t) (build_payload host none t) (λ x w. Free t w × (x ≡ text))
    unfolding build_payload pure
    payload-built = record { at = λ w h. rw (encoded, build_payload) (h, refl) }

    clock-read : Returns (Free t) now (λ u w. Free t w × (u ≡ t))
    unfolding now gets
    clock-read = record { at = λ w h. (h, h.1) }

    pub loop-Mine :
        (attempts delay : ℕ)
        → Returns
            (Free t)
            (acquire_loop host (suc attempts) lf none delay)
            (λ b w. (b ≡ true) × Mine text w)
    unfolding acquire_loop
    loop-Mine attempts delay = Triple-bind _ _ clock-read (λ u. record {
      at = λ w h. rw h.1 (
          (Triple-bind _ _ payload-built (λ x. record {
            at = λ w' k. (Triple-bind _ _ (open_lock-Filling t) (take x k.1)).at w' k.0;
          })).at
            w h.0);
    })
      where
        take :
            (x : Bytes)
            → x ≡ text
            → (result : Opened)
            → Returns
                (λ w. (fd : ℕ) × (result ≡ opened fd) × Filling [] fd w)
                (elim result [
                  | contended ↦ (do
                    if (ltb 0 attempts && ltb 0 delay) then sleep delay else pure tt
                    acquire_loop host attempts lf none delay)
                  | opened fd ↦ (do fill_lock lf fd x; pure true)
                ])
                (λ b w. (b ≡ true) × Mine text w)
        take x e contended = record { at = λ w h. absurd (cc h.1) }
        take x e (opened fd) = record {
          at = λ w h.
              (Triple-bind _ _ (fill_lock-Mine fd x)
                  (λ u. Triple-pure true (λ w' k. (refl, rw (← e) k)))).at
                w (rw (same_descriptor fd h.0 h.1) h.2);
        }
