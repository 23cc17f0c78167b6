-- ===== src/Sys/Files/Steps.antt =====
-- The changes that the calls make to files other than the target keep the target settled.
use safeatomic.Prelude.{
  ℕ, ◌+◌, ◌≡◌, ◌≢◌, ◌∙◌, inl, inr, refl, Option, none, some, [], Bytes, arith, Bool-cases,
}
use safeatomic.Prelude.Eq.{◌==◌, nat_eq, list_eq}
use safeatomic.Sys.Fs.{Dir, FilePath, path_beq, update-ne, path_eq, Fs, update, view}
use safeatomic.Sys.Calls.{rename, copy_attributes, sync_dir, with_entry, append_body, sync_body}
use safeatomic.Sys.Files.{Below, Apart, OneOf, Anchored, Settled}

-- The text of an inode to which the name does not lead does not matter.
pub view-update :
    (names : FilePath → Option ℕ) (body : ℕ → Bytes) (i : ℕ) (text : Bytes) (p : FilePath)
    → Apart (names p) i
    → view names (update body i text) p ≡ view names body p
view-update names body i text p h = ground arith

pub Apart-of_Below : (o : Option ℕ) (n : ℕ) → Below o n → Apart o n
Apart-of_Below none n h = tt
Apart-of_Below (some i) n h = omega arith

pub Below-suc : (o : Option ℕ) (n : ℕ) → Below o n → Below o (n + 1)
Below-suc none n h = tt
Below-suc (some i) n h = omega arith

module _ {target : FilePath} {a b v : Option Bytes} {fs : Fs} (s : Settled target a b v fs) where
  pub append_body-Settled :
      (i : ℕ) (text : Bytes)
      → Apart (fs.names target) i
      → Settled target a b v (append_body i text fs)
  append_body-Settled i text h = record {
    seen = view-update fs.names fs.body i _ target h ∙ s.seen;
    late = s.late;
    early = s.early;
    low = s.low;
    low_saved = s.low_saved;
    alone = s.alone;
    alone_saved = s.alone_saved;
  }

  pub sync_body-Settled :
      (i : ℕ)
      → Apart (fs.names target) i
      → Apart (fs.saved_names target) i
      → Settled target a b v (sync_body i fs)
  sync_body-Settled i h k = record {
    seen = s.seen;
    late = view-update fs.names fs.saved_body i _ target h ∙ s.late;
    early = rw (view-update fs.saved_names fs.saved_body i _ target k) s.early;
    low = s.low;
    low_saved = s.low_saved;
    alone = s.alone;
    alone_saved = s.alone_saved;
  }

  pub with_entry-Settled : (p : FilePath) → p ≢ target → Settled target a b v (with_entry p fs)
  with_entry-Settled p h = record {
    seen = rw (update-ne fs.names p (some fs.next) target h) (
        view-update fs.names fs.body fs.next [] target (Apart-of_Below _ _ (s.low target))
        ∙ s.seen);
    late = rw (update-ne fs.names p (some fs.next) target h) (
        view-update fs.names fs.saved_body fs.next [] target (Apart-of_Below _ _ (s.low target))
        ∙ s.late);
    early =
        rw
          (view-update fs.saved_names fs.saved_body fs.next [] target
            (Apart-of_Below _ _ s.low_saved))
          s.early;
    low = λ q. elim (Bool-cases (path_beq p q)) [
      | inl e ↦ rw e (omega arith)
      | inr e ↦ rw e (Below-suc _ _ (s.low q))
    ];
    low_saved = Below-suc _ _ s.low_saved;
    alone = λ q hq.
        rw (update-ne fs.names p (some fs.next) target h) (elim (Bool-cases (path_beq p q)) [
          | inl e ↦ rw e (Apart-of_Below _ _ (s.low target))
          | inr e ↦ rw e (s.alone q hq)
        ]);
    alone_saved = λ q hq. elim (Bool-cases (path_beq p q)) [
      | inl e ↦ rw e (Apart-of_Below _ _ s.low_saved)
      | inr e ↦ rw e (s.alone_saved q hq)
    ];
  }

  pub truncate-Settled :
      (i : ℕ)
      → Apart (fs.names target) i
      → Settled target a b v (record fs { body = update fs.body i [] })
  truncate-Settled i h = record {
    seen = view-update fs.names fs.body i [] target h ∙ s.seen;
    late = s.late;
    early = s.early;
    low = s.low;
    low_saved = s.low_saved;
    alone = s.alone;
    alone_saved = s.alone_saved;
  }

  pub copy_attributes-Settled : (i j : ℕ) → Settled target a b v (copy_attributes i j fs)
  copy_attributes-Settled i j = record {
    seen = s.seen;
    late = s.late;
    early = s.early;
    low = s.low;
    low_saved = s.low_saved;
    alone = s.alone;
    alone_saved = s.alone_saved;
  }

  pub unlink-Settled :
      (p : FilePath)
      → p ≢ target
      → Settled target a b v (record fs { names = update fs.names p none })
  unlink-Settled p h = record {
    seen = rw (update-ne fs.names p none target h) s.seen;
    late = rw (update-ne fs.names p none target h) s.late;
    early = s.early;
    low = λ q. elim (Bool-cases (path_beq p q)) [ inl e ↦ rw e tt | inr e ↦ rw e (s.low q) ];
    low_saved = s.low_saved;
    alone = λ q hq.
        rw (update-ne fs.names p none target h)
          (elim (Bool-cases (path_beq p q)) [ inl e ↦ rw e tt | inr e ↦ rw e (s.alone q hq) ]);
    alone_saved = λ q hq. elim (Bool-cases (path_beq p q)) [
      | inl e ↦ rw e tt
      | inr e ↦ rw e (s.alone_saved q hq)
    ];
  }

  -- A rename between other files.
  pub rename-Settled :
      (src dst : FilePath) (i : ℕ)
      → src ≢ target
      → dst ≢ target
      → fs.names src ≡ some i
      → Settled target a b v (rename src dst i fs)
  rename-Settled src dst i hs hd e = record {
    seen =
        rw (update-ne (update fs.names src none) dst (some i) target hd)
          (rw (update-ne fs.names src none target hs) s.seen);
    late =
        rw (update-ne (update fs.names src none) dst (some i) target hd)
          (rw (update-ne fs.names src none target hs) s.late);
    early = s.early;
    low = λ q. elim (Bool-cases (path_beq dst q)) [
      | inl f ↦ rw f (rw e at (s.low src))
      | inr f ↦ rw f ((unlink-Settled src hs).low q)
    ];
    low_saved = s.low_saved;
    alone = λ q hq.
        rw (update-ne (update fs.names src none) dst (some i) target hd)
          (elim (Bool-cases (path_beq dst q)) [
            | inl f ↦ rw (f, update-ne fs.names src none target hs) (rw e at (s.alone src hs))
            | inr f ↦ rw f ((unlink-Settled src hs).alone q hq)
          ]);
    alone_saved = λ q hq. elim (Bool-cases (path_beq dst q)) [
      | inl f ↦ rw f (rw e at (s.alone_saved src hs))
      | inr f ↦ rw f ((unlink-Settled src hs).alone_saved q hq)
    ];
  }

  -- A directory reaches the disk. If it is the target's, a crash no longer shows the old entry.
  pub sync_dir-Settled : (d : Dir) → OneOf a b v → Settled target a b v (sync_dir d fs)
  sync_dir-Settled d h = record {
    seen = s.seen;
    late = s.late;
    early = elim (Bool-cases (d == target.dir)) [ inl e ↦ rw (e, s.late) h | inr e ↦ rw e s.early ];
    low = s.low;
    low_saved = elim (Bool-cases (d == target.dir)) [
      | inl e ↦ rw e (s.low target)
      | inr e ↦ rw e s.low_saved
    ];
    alone = s.alone;
    alone_saved = λ q hq. elim (Bool-cases (d == target.dir)) [
      | inl e ↦ rw e (s.alone q hq)
      | inr e ↦ rw e (s.alone_saved q hq)
    ];
  }

  pub sync_dir-Anchored : (d : Dir) → Anchored target fs (sync_dir d fs)
  sync_dir-Anchored d = record {
    same = refl;
    same_saved = elim (Bool-cases (d == target.dir)) [ inl e ↦ inr (rw e) | inr e ↦ inl (rw e) ];
    grows = omega arith;
  }

  pub with_entry-Anchored : (p : FilePath) → p ≢ target → Anchored target fs (with_entry p fs)
  with_entry-Anchored p h = record {
    same = update-ne fs.names p (some fs.next) target h;
    same_saved = inl refl;
    grows = omega arith;
  }
