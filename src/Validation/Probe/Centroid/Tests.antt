-- ===== src/Validation/Probe/Centroid/Tests.antt =====
-- A probe from a file of two vectors, with a blank line between them.
use aptp.Prelude.{◌↔◌, ◌≡◌, refl, String, some, List, [], ◌∷◌, str_eq, if◌then◌else◌}
use aptp.Float.{Fixed, fixed_float, fixed_double}
use aptp.Error.{Result, ok, err}
use aptp.Validation.Probe.{SafetyProbe, not_blank, load}
use aptp.Validation.Probe.Lines.{lines}
use aptp.Validation.Probe.Centroid.{IsMeanOf}
use aptp.Validation.Probe.Centroid.Exact.{load_exact}
use aptp.Validation.Probe.Centroid.Sums.{parse_all}

abbrev file : String → Result String String
file path = ok "a\n \nb\n"

abbrev json : String → Result String (List Fixed)
json line =
    if str_eq line "a"
    then ok (some 2 ∷ some 0 ∷ [])
    else if str_eq line "b"
    then ok (some 4 ∷ [])
    else err "json"

abbrev probe : SafetyProbe Fixed
probe = record { centroid = some 1 ∷ some 0 ∷ []; dim = 2 }

loaded : load Fixed file json "probe.jsonl" ≡ ok probe
unfolding load lines aptp.Validation.Probe.tally_lines not_blank
    aptp.Validation.Probe.Lines.is_blank aptp.Validation.Probe.finish
    aptp.Validation.Probe.tally_line aptp.Validation.Probe.normalise aptp.Float.l2_norm
loaded = refl

load_exact_example : (load Fixed file json "probe.jsonl" ≡ ok probe) ↔ (
    (raw : String) × (vecs : List (List Fixed)) × (file "probe.jsonl" ≡ ok raw)
    × (parse_all {F = Fixed} json (not_blank (lines raw)) ≡ ok vecs)
    × IsMeanOf Fixed vecs probe)
load_exact_example = load_exact Fixed file json "probe.jsonl" probe
