-- ===== src/Sys/Logic/Exists.antt =====
-- `exists` and what no fault touches.
use safeatomic.Prelude.{◌≡◌, refl, inl, inr, Bool, Bool-cases}
use safeatomic.Sys.Fs.{FilePath}
use safeatomic.Sys.World.{Fault, pass, short, fail, World}
use safeatomic.Sys.Calls.{exists, stat_answer, says_missing, present, first_fault}
use safeatomic.Sys.Logic.Keeps.{Keeps}
use safeatomic.Sys.Logic.Ends.{Ends, Triple, Triple-weaken, Keeps-of_Triple}
use safeatomic.Sys.Logic.Move.{later}

-- The file is there or not, as it was asked.
abbrev pub Asked : (World → Type 0) → FilePath → Bool → World → Type 0
Asked P p b w = P w × (b ≡ present p w.fs)

stat_answer-Asked :
    (P : World → Type 0) (f : Fault) (p : FilePath) (w : World)
    → P w
    → Ends (Asked P p) (λ e. P) (stat_answer f p w)
stat_answer-Asked P pass p w h = (h, refl)
stat_answer-Asked P (short n) p w h = (h, refl)
stat_answer-Asked P (fail e) p w h = elim (Bool-cases (says_missing e)) [
  | inl f ↦ rw f (h, refl)
  | inr f ↦ rw f h
]

module _ (P : World → Type 0) (stable : (w : World) → P w → P (later w)) (p : FilePath) where
  pub exists-Asked : Triple P (exists p) (Asked P p) (λ e. P)
  unfolding exists
  exists-Asked = record {
    at = λ w h. stat_answer-Asked P (first_fault w.faults) p (later w) (stable w h);
  }

  pub exists-Keeps : Keeps P (exists p)
  exists-Keeps = Keeps-of_Triple _ (Triple-weaken _ exists-Asked (λ b w h. h.0) (λ e w h. h))
