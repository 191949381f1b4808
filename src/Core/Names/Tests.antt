-- ===== src/Core/Names/Tests.antt =====
-- The rule for file names on a concrete text (sanitiseFileName of src/core/security.ts), with nothing to normalise.
use wildbloom.Prelude.{◌≡◌, refl}
use wildbloom.Prelude.Text.{Text, codes}
use wildbloom.Core.Names.{sanitise_file_name}
use wildbloom.Core.Names.Shape.{IsName, sanitise_file_name-IsName}
use wildbloom.Core.Names.FixedPoint.{sanitise_file_name_twice}

abbrev path : Text
path = codes "C:\\temp/ ..re<port>.txt  "

sanitise_file_name-IsName_example : IsName (sanitise_file_name (λ s. s) path)
sanitise_file_name-IsName_example = sanitise_file_name-IsName (λ s. s) path (λ s h. h)

sanitise_file_name_twice_example :
    sanitise_file_name (λ s. s) (sanitise_file_name (λ s. s) path)
    ≡ sanitise_file_name (λ s. s) path
sanitise_file_name_twice_example =
    sanitise_file_name_twice (λ s. s) path (λ s h. h) (λ s. refl) (λ s h. refl) (λ c s h. refl)
      (λ s ys h. refl) (λ s h. refl)
