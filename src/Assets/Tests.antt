-- ===== src/Assets/Tests.antt =====
-- A large photo, with roundings on fractions.
use graffi_tab_backend.Prelude.{ℕ, ◌+◌, ◌*◌, ◌/◌, ◌≡◌, ◌≤◌, refl, some}
use graffi_tab_backend.Errors.{ok}
use graffi_tab_backend.Assets.Scaling.{Size, or_source, scale_image, scale_image_bounds}

abbrev times_ratio : Size → ℕ → ℕ
times_ratio source x = (2 * source.height * x + source.width) / (2 * source.width)

abbrev over_ratio : Size → ℕ → ℕ
over_ratio source x = (2 * source.width * x + source.height) / (2 * source.height)

abbrev photo : Size
photo = record { width = 4000; height = 3000 }

thumbnail_size :
    scale_image times_ratio over_ratio photo (some 200) (some 200)
    ≡ ok (record { width = 200; height = 150 })
unfolding scale_image
thumbnail_size = refl

scale_image_bounds_example :
    (output : Size) × (scale_image times_ratio over_ratio photo (some 1024) (some 768) ≡ ok output)
    × (output.width ≤ or_source (some 1024) photo.width)
    × (output.height ≤ or_source (some 768) photo.height)
scale_image_bounds_example = scale_image_bounds times_ratio over_ratio photo (some 1024) (some 768)
