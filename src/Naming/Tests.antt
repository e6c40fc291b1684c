-- ===== src/Naming/Tests.antt =====
-- Concrete names.
use wiremirage.Prelude.Text.{codes, starts_with, ends_with, str_eq}
use wiremirage.Prelude.{true, false, ◌≡◌, refl, arith}
use wiremirage.Naming.{generate, is_valid_label, label_byte}
use wiremirage.Naming.Labels.{generate-label}

label_tests :
    (is_valid_label (codes "my-group") ≡ true)
    × (is_valid_label (codes "") ≡ false)
    × (is_valid_label (codes "-x") ≡ false)
    × (is_valid_label (codes "x-") ≡ false)
    × (is_valid_label (codes "My") ≡ false)
unfolding is_valid_label starts_with ends_with str_eq label_byte
label_tests = (refl, refl, refl, refl, refl)

generate-label_example : is_valid_label (generate 1 127) ≡ true
generate-label_example = generate-label 1 127 (omega arith) (omega arith)
