-- ===== src/Tests/Disk.antt =====
-- A file system with two files in the root, and the worlds that start from it.
use safeatomic.Prelude.{
  ℕ, ◌≡◌, ◌≢◌, refl, sym, ◌∙◌, inl, inr, Option, none, some, List, [], Str, Bytes, arith,
  Bool-cases, if◌then◌else◌,
}
use safeatomic.Prelude.Eq.{◌==◌, nat_eq, list_eq}
use safeatomic.Sys.Fs.{
  FilePath, Fs, path_beq, path_eq, path_beq-ne_symm, update, update_self, update-ne,
}
use safeatomic.Sys.World.{Fault, World}
use safeatomic.Sys.Files.{Distinct, Below}
use safeatomic.Io.Promises.{Ready}

abbrev pub at_root : Str → FilePath
at_root name = record { dir = []; name = name }

abbrev pub names_of : FilePath → FilePath → FilePath → Option ℕ
names_of p q = update (update (λ x. none) p (some 0)) q (some 1)

abbrev pub texts_of : Bytes → Bytes → ℕ → Bytes
texts_of a b i = if i == 0 then a else b

-- `p` with the text `a` and `q` with the text `b`, all of it on the disk.
abbrev pub two_files : FilePath → Bytes → FilePath → Bytes → Fs
two_files p a q b = record {
  names = names_of p q;
  saved_names = names_of p q;
  body = texts_of a b;
  saved_body = texts_of a b;
  attributes = λ i. 0;
  next = 2;
  is_dir = λ d. d == [];
  device = λ d. 1;
}

abbrev pub world_of : Fs → List Fault → World
world_of fs faults = record {
  fs = fs;
  trace = [];
  faults = faults;
  others = [];
  fds = [];
  next_fd = 3;
  clock = 50;
  drawn = 0;
  warned = 0;
  cache = λ st_dev. none;
}

low : (p q x : FilePath) → Below (names_of p q x) 2
low p q x = elim (Bool-cases (path_beq q x)) [
  | inl e ↦ rw e (omega arith)
  | inr e ↦ rw e (elim (Bool-cases (path_beq p x)) [ inl f ↦ rw f (omega arith) | inr f ↦ rw f tt ])
]

apart_first : (p q x : FilePath) → x ≢ p → Distinct (some 0) (names_of p q x)
apart_first p q x ne = elim (Bool-cases (path_beq q x)) [
  | inl e ↦ rw e (λ h. absurd (omega arith))
  | inr e ↦ rw (e, path_beq-ne_symm x p ne) tt
]

apart_second : (p q x : FilePath) → x ≢ q → Distinct (some 1) (names_of p q x)
apart_second p q x ne = rw (path_beq-ne_symm x q ne) (elim (Bool-cases (path_beq p x)) [
  | inl f ↦ rw f (λ h. absurd (omega arith))
  | inr f ↦ rw f tt
])

module _ (p q : FilePath) (a b : Bytes) (faults : List Fault) where
  first_name : p ≢ q → names_of p q p ≡ some 0
  first_name ne =
      update-ne (update (λ x. none) p (some 0)) q (some 1) p (λ e. ne (sym e))
      ∙ update_self (λ x. none) p (some 0)

  pub first-Ready : p ≢ q → Ready p (some a) (world_of (two_files p a q b) faults)
  first-Ready ne = record {
    settled = record {
      seen = rw (first_name ne) refl;
      late = rw (first_name ne) refl;
      early = inl (rw (first_name ne) refl);
      low = low p q;
      low_saved = low p q p;
      alone = λ x h. rw (first_name ne) (apart_first p q x h);
      alone_saved = λ x h. rw (first_name ne) (apart_first p q x h);
    };
    clear = tt;
    held = tt;
    fresh = refl;
    calm = tt;
  }

  second_name : names_of p q q ≡ some 1
  second_name = update_self (update (λ x. none) p (some 0)) q (some 1)

  pub second-Ready : Ready q (some b) (world_of (two_files p a q b) faults)
  second-Ready = record {
    settled = record {
      seen = rw second_name refl;
      late = rw second_name refl;
      early = inl (rw second_name refl);
      low = low p q;
      low_saved = low p q q;
      alone = λ x h. rw second_name (apart_second p q x h);
      alone_saved = λ x h. rw second_name (apart_second p q x h);
    };
    clear = tt;
    held = tt;
    fresh = refl;
    calm = tt;
  }
