-- ===== src/Tests/Sidecars.antt =====
-- Checksum sidecars and scoped options at concrete inputs.
use safeatomic.Prelude.{ℕ, ◌≡◌, refl, ap, pos, none, some, [], ◌∷◌, Str, codes, length, arith}
use safeatomic.Sys.Errors.{key_error}
use safeatomic.Sys.Exec.{Result, ok, raised}
use safeatomic.Sys.Fs.{FilePath, visible}
use safeatomic.Sys.World.{World, pass}
use safeatomic.Sys.Logic.Ends.{Ends}
use safeatomic.Text.{lower, is_space, is_line_end}
use safeatomic.Checksum.{compute_hash_file, compute_hash_data}
use safeatomic.Prelude.{true, ◌↔◌}
use safeatomic.Prelude.Eq.{list_beq}
use safeatomic.Text.{decimal}
use safeatomic.Tests.Machine.{sum}
use safeatomic.Checksum.{verify_checksum}
use safeatomic.Checksum.Verification.{verify_checksum_iff}
use safeatomic.Checksum.Laws.{compute_hash_file-compute_hash_data}
use safeatomic.Checksum.Sidecar.{parse_sidecar, print_sidecar}
use safeatomic.Checksum.RoundTrip.{parse_sidecar-print_sidecar}
use safeatomic.Config.{Arguments, Context, int, str, validate, safeatomic_config}
use safeatomic.Config.Laws.{layered, restored, safeatomic_config_restores}
use safeatomic.Tests.Machine.{machine}
use safeatomic.Tests.Disk.{at_root, two_files, world_of, second-Ready}

parse_sidecar-print_sidecar_example :
    parse_sidecar (print_sidecar (codes "3F") (codes "my file") (codes "sha256") (codes "50"))
    ≡ some (record {
      digest = lower (codes "3F");
      algo = some (codes "sha256");
      timestamp = some (codes "50");
    })
unfolding is_space is_line_end
parse_sidecar-print_sidecar_example =
    parse_sidecar-print_sidecar (codes "3F") (codes "my file") (codes "sha256") (codes "50")
      (λ e. omega (arith, ap (λ (s : Str). length s) e)) (refl, (refl, tt))
      (refl, (refl, (refl, (refl, (refl, (refl, (refl, tt)))))))
      (refl, (refl, (refl, (refl, (refl, (refl, tt)))))) (refl, (refl, tt))

abbrev file_b : FilePath
file_b = at_root (codes "b")

abbrev start : World
start = world_of (two_files (at_root (codes "a")) [] file_b (codes "content")) (pass ∷ [])

b-visible : visible start.fs file_b ≡ some (codes "content")
b-visible = (second-Ready (at_root (codes "a")) file_b [] (codes "content") []).settled.seen

compute_hash_file-compute_hash_data_example :
    Ends
      (λ h w'.
        (compute_hash_data machine (codes "content") (codes "sha256") start ≡ (ok h, start))
        × (w'.fs ≡ start.fs))
      (λ e w'. w'.fs ≡ start.fs)
      (compute_hash_file machine 3 file_b (codes "sha256") start)
compute_hash_file-compute_hash_data_example =
    compute_hash_file-compute_hash_data machine 3 file_b (codes "content") (codes "sha256") start
      (omega arith) b-visible

abbrev outer : Arguments
outer = record {
  encoding = some (str (codes "ascii"));
  checksum_algo = none;
  retries = some (int (pos 4));
  delay = none;
}

abbrev inner : Arguments
inner = record { encoding = none; checksum_algo = none; retries = some (int (pos 2)); delay = none }

abbrev outer_values : Context
outer_values = record {
  encoding = some (codes "ascii");
  checksum_algo = none;
  retries = some (pos 4);
  delay = none;
}

abbrev inner_values : Context
inner_values = record {
  encoding = none;
  checksum_algo = none;
  retries = some (pos 2);
  delay = none;
}

outer-valid : validate outer ≡ ok outer_values
unfolding validate
outer-valid = refl

-- A body that sets a variable of its own and raises.
abbrev body : Context → Result ℕ × Context
body c = (raised key_error, record c { delay = some (pos 9); retries = some (pos 1) })

safeatomic_config_restores_example : safeatomic_config outer body inner_values ≡ (
  (body (layered outer_values inner_values)).0,
  restored outer_values inner_values (body (layered outer_values inner_values)).1,
)
safeatomic_config_restores_example = safeatomic_config_restores outer body inner_values outer-valid

verify_checksum_iff_example :
    Ends
      (λ b w'.
        ((b ≡ true) ↔ (lower (decimal (sum (codes "content"))) ≡ lower (codes "758")))
        × (w'.fs ≡ start.fs))
      (λ e w'. w'.fs ≡ start.fs)
      (verify_checksum machine 3 file_b (some (codes "758")) (codes "sha256") start)
unfolding list_beq
verify_checksum_iff_example =
    verify_checksum_iff machine 3 file_b (codes "content") (codes "758") (codes "sha256")
      (λ b. decimal (sum b)) start refl (omega arith) b-visible
