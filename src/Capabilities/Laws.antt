-- ===== src/Capabilities/Laws.antt =====
-- Which mount, which ancestor and which cached environment the detection takes.
use safeatomic.Prelude.{
  ℕ, ◌≤◌, ◌≡◌, refl, sym, ap, inl, inr, true, false, ◌&&◌, Option, none, some, List, [], ◌∷◌, ◌++◌,
  Str, length, length-append, ltb, arith, and_true, Bool-cases, Option-cases,
}
use mathlib.Core.List.{Memᴰ, append-nil, append_assoc}
use mathlib.Core.List.Memᴰ as Memᴰ
use safeatomic.Prelude.Eq.{==_refl, nat_eq}
use safeatomic.Environment.{Environment}
use safeatomic.Sys.Fs.{Dir, Fs}
use safeatomic.Sys.World.{World}
use safeatomic.Sys.Exec.{Exec, Result, ok, raised, pure, gets, modify, ◌>>=◌}
use safeatomic.Sys.Logic.Ends.{Ends, Triple, Triple-bind}
use safeatomic.Host.{Host}
use safeatomic.Capabilities.{
  node_exists, existing_ancestor, cache_get, cache_put, lookup_or_probe, detect_at,
}
use safeatomic.Capabilities.Mounts.{Mount, covers, best_of}

-- No mount point of the list that covers the path is longer than `n`.
abbrev pub AtMost : Str → List Mount → ℕ → Type 0
AtMost path mounts n =
    (mount fstype : Str) → Memᴰ (mount, fstype) mounts → covers mount path ≡ true → length mount ≤ n

-- The best pair so far is an entry of the list.
abbrev Taken : Str → List Mount → Str → Option Str → Type 0
Taken path mounts mount none = Unit
Taken path mounts mount (some fstype) = Memᴰ (mount, fstype) mounts × (covers mount path ≡ true)

-- An entry that covers the path and that no other that does is longer than.
abbrev pub Longest : Str → List Mount → Str → Str → Type 0
Longest path mounts mount fstype =
    Memᴰ (mount, fstype) mounts × (covers mount path ≡ true) × AtMost path mounts (length mount)

abbrev pub Found : Str → List Mount → Option Str → Type 0
Found path mounts none = AtMost path mounts 0
Found path mounts (some fstype) = (mount : Str) × Longest path mounts mount fstype

AtMost-snoc :
    (path : Str) (seen : List Mount) (m f : Str) (n : ℕ)
    → AtMost path seen n
    → (covers m path ≡ true → length m ≤ n)
    → AtMost path (seen ++ (m, f) ∷ []) n
AtMost-snoc path seen m f n h k mount fstype mem c = elim (Memᴰ.append_cases seen mem) [
  | inl a ↦ h mount fstype a c
  | inr b ↦ let e = ap (λ (p : Mount). p.0) (Memᴰ.eq_of_singleton b) in rw e (k (rw e at c))
]

AtMost-le :
    (path : Str) (seen : List Mount) (m n : ℕ) → m ≤ n → AtMost path seen m → AtMost path seen n
AtMost-le path seen m n l h mount fstype mem c = omega (arith, h mount fstype mem c)

Taken-snoc :
    (path : Str) (seen : List Mount) (p : Mount) (best : Str) (fstype : Option Str)
    → Taken path seen best fstype
    → Taken path (seen ++ p ∷ []) best fstype
Taken-snoc path seen p best none t = tt
Taken-snoc path seen p best (some f) t = (Memᴰ.append_left _ t.0, t.1)

module _ (path : Str) where
  finished :
      (seen : List Mount) (best : Str) (fstype : Option Str)
      → Taken path seen best fstype
      → (fstype ≡ none → best ≡ [])
      → AtMost path seen (length best)
      → Found path seen fstype
  finished seen best none t z h =
      λ mount f mem c. omega (arith, h mount f mem c, ap (λ (s : Str). length s) (z refl))
  finished seen best (some f) t z h = (best, (t.0, t.1, h))

  best_of-Found :
      (mounts seen : List Mount) (best : Str) (fstype : Option Str)
      → Taken path seen best fstype
      → (fstype ≡ none → best ≡ [])
      → AtMost path seen (length best)
      → Found path (seen ++ mounts) (best_of path mounts best fstype)
  unfolding best_of
  best_of-Found [] seen best fstype t z h = rw append-nil (finished seen best fstype t z h)
  best_of-Found ((m, f) ∷ mounts) seen best fstype t z h =
      rw (sym (append_assoc seen ((m, f) ∷ []) mounts))
        (elim (Bool-cases (covers m path && ltb (length best) (length m))) [
          | inl e ↦
              let (c, l) = and_true _ _ e in
              rw e (
                best_of-Found mounts (seen ++ (m, f) ∷ []) m (some f)
                  (Memᴰ.append_right seen (Memᴰ.head refl), c) (λ n. absurd (cc n))
                  (AtMost-snoc path seen m f (length m)
                    (AtMost-le path seen (length best) (length m) (ground arith) h)
                    (λ k. omega arith)))
          | inr e ↦ rw e (
              best_of-Found mounts (seen ++ (m, f) ∷ []) best fstype
                (Taken-snoc path seen (m, f) best fstype t) z
                (AtMost-snoc path seen m f (length best) h (λ k. not_longer (rw k at e))))
        ])
    where
      not_longer : ltb (length best) (length m) ≡ false → length m ≤ length best
      not_longer e = ground arith

-- Where the scan of a mount table returns a type, it is the type of an entry that covers the path
-- and than which no covering entry is longer; where it returns none, no mount point of positive
-- length covers the path.
pub best_of-longest :
    (path : Str) (mounts : List Mount) → Found path mounts (best_of path mounts [] none)
best_of-longest path mounts =
    best_of-Found path mounts [] [] none tt (λ e. refl) (λ mount f m c. absurd (Memᴰ.not-nil m))

inner : Dir → Dir
inner [] = []
inner (x ∷ t) = t

-- `q` is `p` or above it.
abbrev pub Above : Dir → Dir → Type 0
Above q p = (below : Dir) × (below ++ q ≡ p)

Above-le : (q p : Dir) → Above q p → length q ≤ length p
Above-le q p (below, e) = omega (arith, ap (λ (d : Dir). length d) e, length-append below q)

-- Let the root be a directory. Then the ancestor at which the detection stops is the path or above it,
-- it exists, and no other path above that exists is deeper.
pub existing_ancestor-deepest :
    (p : Dir) (fs : Fs)
    → fs.is_dir [] ≡ true
    → (node_exists (existing_ancestor p fs) fs ≡ true)
      × Above (existing_ancestor p fs) p
      × ((q : Dir)
          → Above q p
          → node_exists q fs ≡ true
          → length q ≤ length (existing_ancestor p fs))
unfolding existing_ancestor inner
existing_ancestor-deepest [] fs root = (root, ([], refl), λ q a e. Above-le q [] a)
existing_ancestor-deepest (n ∷ d) fs root = elim (Bool-cases (node_exists (n ∷ d) fs)) [
  | inl e ↦ rw e (e, ([], refl), λ q a f. Above-le q (n ∷ d) a)
  | inr e ↦
      let (x, y, z) = existing_ancestor-deepest d fs root in
      rw e (x, (n ∷ y.0, ap (λ (t : Dir). n ∷ t) y.1), λ q a f. z q (inside q a f e) f)
]
  where
    inside :
        (q : Dir)
        → Above q (n ∷ d)
        → node_exists q fs ≡ true
        → node_exists (n ∷ d) fs ≡ false
        → Above q d
    inside q ([], a) f e = absurd (cc (f, e, ap (λ (t : Dir). node_exists t fs) a))
    inside q (b ∷ below, a) f e = (below, ap inner a)

any_end : {A : Type 0} (x : Result A × World) → Ends (λ a w. Unit {0}) (λ e w. Unit {0}) x
any_end (ok a, w) = tt
any_end (raised e, w) = tt

run_any : {A : Type 0} (m : Exec A) → Triple (λ w. Unit) m (λ a w. Unit) (λ e w. Unit)
run_any m = record { at = λ w h. any_end (m w) }

module _ (host : Host) (st_dev : ℕ) where
  abbrev Again : Environment → World → Type 0
  Again env w = (p probe_dir : Dir) → detect_at host p probe_dir (some st_dev) w ≡ (ok env, w)

  hit : (env : Environment) (w : World) → w.cache st_dev ≡ some env → Again env w
  unfolding detect_at cache_get gets lookup_or_probe pure ◌>>=◌
  hit env w e p probe_dir = rw (e, detect_at, lookup_or_probe) refl

  put_hit :
      (env : Environment) (w : World)
      → Ends Again (λ e w'. Unit) ((cache_put st_dev env >>= λ u. pure env) w)
  unfolding cache_put modify pure ◌>>=◌
  put_hit env w = hit env _ (rw (==_refl st_dev) refl)

  miss :
      (p probe_dir : Dir) (w : World)
      → Ends Again (λ e w'. Unit) (lookup_or_probe host p probe_dir st_dev none w)
  unfolding lookup_or_probe
  miss p probe_dir w =
      (Triple-bind _ _ (run_any _)
          (λ b. Triple-bind _ _ (run_any _) (λ env. record { at = λ w' h. put_hit env w' }))).at
        w tt

-- Once a detection has returned an environment for a device, another for the same device, of any
-- path, returns that environment and changes nothing.
pub detect_at_again :
    (host : Host) (st_dev : ℕ) (p probe_dir : Dir) (w : World)
    → Ends
        (λ env w'. (q probe : Dir) → detect_at host q probe (some st_dev) w' ≡ (ok env, w'))
        (λ e w'. Unit)
        (detect_at host p probe_dir (some st_dev) w)
unfolding detect_at cache_get gets ◌>>=◌ lookup_or_probe pure
detect_at_again host st_dev p probe_dir w = elim (Option-cases (w.cache st_dev)) [
  | inl e ↦ rw e (miss host st_dev p probe_dir w)
  | inr (env, e) ↦ rw e (hit host st_dev env w e)
]
