-- ===== src/Io/Staged/Fill.antt =====
-- Steps 6 to 8: all the bytes go to the temporary file, they reach the disk, and it is closed.
use safeatomic.Prelude.{
  ℕ, zero, suc, ◌+◌, ◌<◌, ◌≤◌, ◌≡◌, ◌≢◌, refl, ◌∙◌, ap, true, false, Option, some, List, [], ◌∷◌,
  ◌++◌, Bytes, length, length-append, take, drop, append-take-drop, ltb, arith,
}
use mathlib.Core.List.{append-nil, append_assoc}
use safeatomic.Prelude.Eq.{==_refl, nat_eq}
use safeatomic.Sys.Fs.{FilePath, Fs}
use safeatomic.Sys.World.{Fault, pass, short, fail, Handle, file, World}
use safeatomic.Sys.Exec.{pure}
use safeatomic.Sys.Calls.{write, granted, first_fault, append_body, lookup_fd, done}
use safeatomic.Sys.Logic.Ends.{Ends, Ends-both, Ends-bind, Ends-weaken}
use safeatomic.Sys.Files.Outcome.{Stands, call-Answered}
use safeatomic.Sys.Files.Descriptors.{Keeps-write}
use safeatomic.Io.Write.{write_loop, write_bytes_to_fd}
use safeatomic.Io.Staged.{Before, before, IsTmp, Staged}

drop-length-take : (n : ℕ) (text : Bytes) → drop (length (take n text)) text ≡ drop n text
drop-length-take zero text = refl
drop-length-take (suc n) [] = refl
drop-length-take (suc n) (x ∷ text) = drop-length-take n text

drop-length : (text : Bytes) → drop (length text) text ≡ []
drop-length [] = refl
drop-length (x ∷ text) = drop-length text

-- What follows a prefix.
pub drop-length-append : (xs ys : Bytes) → drop (length xs) (xs ++ ys) ≡ ys
drop-length-append [] ys = refl
drop-length-append (x ∷ xs) ys = drop-length-append xs ys

-- What the kernel takes of a write and what it leaves make up the text.
granted-split :
    (f : Fault) (text : Bytes) → granted f text ++ drop (length (granted f text)) text ≡ text
granted-split pass text = rw drop-length (rw append-nil)
granted-split (short n) text = rw drop-length-take (append-take-drop (suc n) text)
granted-split (fail e) text = rw drop-length (rw append-nil)

granted-pos : (f : Fault) (x : ℕ) (rest : Bytes) → 0 < length (granted f (x ∷ rest))
granted-pos pass x rest = omega arith
granted-pos (short n) x rest = omega arith
granted-pos (fail e) x rest = omega arith

module _ (target tmp : FilePath) (old new : Option Bytes) (i fd : ℕ)
    (rest : List (ℕ × Handle)) where
  abbrev pub Open : Bytes → World → Type 0
  Open text = Staged target tmp old new i ((fd, file i) ∷ rest) text

  pub lookup-Open : (text : Bytes) (w : World) → Open text w → lookup_fd fd w.fds ≡ some (file i)
  lookup-Open text w h = rw (h.opened, ==_refl fd)

  append_body-IsTmp :
      (fs : Fs) (text part : Bytes)
      → IsTmp target tmp i text fs
      → IsTmp target tmp i (text ++ part) (append_body i part fs)
  append_body-IsTmp fs text part t = record {
    named = t.named;
    free = t.free;
    sole = t.sole;
    filled = rw (==_refl i, t.filled);
  }

  written-Open :
      (fs : Fs) (text part : Bytes) (w w' : World)
      → Open text w
      → Before target old new w'
      → Stands w' (append_body i part w.fs) w
      → Open (text ++ part) w'
  written-Open fs text part w w' h k s = record {
    holds = k;
    at = rw s.files (append_body-IsTmp w.fs text part h.at);
    opened = s.fds ∙ h.opened;
  }

  abbrev Wrote : Bytes → Bytes → ℕ → World → Type 0
  Wrote text more n w =
      (part : Bytes) × Open (text ++ part) w
      × (n ≡ length part)
      × (part ++ drop n more ≡ more)
      × (more ≢ [] → 0 < length part)

  write-Open :
      (text more : Bytes) (w : World)
      → Open text w
      → Ends (Wrote text more) (λ e. Before target old new) (write fd more w)
  write-Open text more w h =
      Ends-weaken
        (λ n w'.
          Before target old new w' × ((n ≡ length part) × Stands w' (append_body i part w.fs) w))
        (Wrote text more) (λ e w'. Before target old new w' × Stands w' w.fs w)
        (λ e. Before target old new) (write fd more w)
        (Ends-both (Before target old new) _ _ (write fd more w)
          ((Keeps-write (before old new) fd more).at w h.holds)
          (unfold write in
            rw (lookup-Open text w h)
              (call-Answered (λ fs. done (length part) (append_body i part fs)) w)))
        (λ n w' k. (
          part,
          written-Open w.fs text part w w' h k.0 k.1.1,
          k.1.0,
          rw k.1.0 (granted-split (first_fault w.faults) more),
          granted-pos_of_ne more,
        ))
        (λ e w' k. k.0)
    where
      part : Bytes
      part = granted (first_fault w.faults) more

      granted-pos_of_ne : (m : Bytes) → m ≢ [] → 0 < length (granted (first_fault w.faults) m)
      granted-pos_of_ne [] ne = absurd (ne refl)
      granted-pos_of_ne (x ∷ m) ne = granted-pos (first_fault w.faults) x m

  rest-le :
      (fuel n : ℕ) (part more : Bytes)
      → part ++ drop n more ≡ more
      → 0 < length part
      → length more ≤ suc fuel
      → length (drop n more) ≤ fuel
  rest-le fuel n part more e h l =
      omega (arith, ap (λ (t : Bytes). length t) e, length-append part (drop n more))

  resume :
      (fuel : ℕ) (base t t' : Bytes) (k k' : ℕ) (w : World)
      → t ≡ t'
      → k ≡ k'
      → Ends (λ y. Open (base ++ t)) (λ e. Before target old new) (write_loop fuel fd t k w)
      → Ends (λ y. Open (base ++ t')) (λ e. Before target old new) (write_loop fuel fd t' k' w)
  resume fuel base t t' k k' w e f h = rw (← e, ← f) h

  -- With as many rounds as bytes are left the loop ends with all of them written, behind what the
  -- file held already.
  loop-Open :
      (fuel : ℕ) (base text more : Bytes) (w : World)
      → length more ≤ fuel
      → Open (base ++ text) w
      → Ends
          (λ x. Open (base ++ (text ++ more)))
          (λ e. Before target old new)
          (write_loop fuel fd (text ++ more) (length text) w)
  unfolding write_loop pure
  loop-Open zero base text [] w l h = rw (append-nil text) h
  loop-Open zero base text (x ∷ m) w l h = absurd (omega arith)
  loop-Open (suc fuel) base text [] w l h = rw (append-nil text) (rw (stop (length text)) h)
    where
      stop : (n : ℕ) → ltb n n ≡ false
      stop n = ground arith
  loop-Open (suc fuel) base text (x ∷ m) w l h =
      rw (go_on, drop-length-append text (x ∷ m))
        (Ends-bind (Wrote (base ++ text) (x ∷ m)) (λ e. Before target old new)
          (λ u. Open (base ++ (text ++ x ∷ m))) (λ e. Before target old new) (write fd (x ∷ m)) _ w
          (write-Open (base ++ text) (x ∷ m) w h) (next (loop-Open fuel base)) (λ e w' k. k))
    where
      go_on : ltb (length text) (length (text ++ x ∷ m)) ≡ true
      go_on = ground (arith, length-append text (x ∷ m))

      nonempty : x ∷ m ≢ []
      nonempty e = cc

      next :
          ((t more : Bytes) (u : World)
            → length more ≤ fuel
            → Open (base ++ t) u
            → Ends
                (λ y. Open (base ++ (t ++ more)))
                (λ e. Before target old new)
                (write_loop fuel fd (t ++ more) (length t) u))
          → (n : ℕ) (w' : World) → Wrote (base ++ text) (x ∷ m) n w'
          → Ends
              (λ u. Open (base ++ (text ++ x ∷ m)))
              (λ e. Before target old new)
              (write_loop fuel fd (text ++ x ∷ m) (length text + n) w')
      next ih n w' (part, o, en, es, pos) =
          resume fuel base _ _ _ _ w'
            (append_assoc text part (drop n (x ∷ m)) ∙ ap (λ (t : Bytes). text ++ t) es)
            (omega (arith, length-append text part))
            (ih (text ++ part) (drop n (x ∷ m)) w' (rest-le fuel n part (x ∷ m) es (pos nonempty) l)
              (rw (← append_assoc base text part) o))

  -- The loop writes all of the text behind what the file holds.
  pub write_bytes_to_fd-Open :
      (base text : Bytes) (w : World)
      → Open base w
      → Ends (λ x. Open (base ++ text)) (λ e. Before target old new) (write_bytes_to_fd fd text w)
  unfolding write_bytes_to_fd
  write_bytes_to_fd-Open base text w h =
      loop-Open (length text) base [] text w (omega arith) (rw (append-nil base) h)
