-- ===== src/Assets/Scaling.antt =====
-- `scaleImage` of service/image/ImageUtilsService.java: the size of the image that it writes.
use graffi_tab_backend.Prelude.{
  ℕ, ◌≡◌, ◌≤◌, inl, inr, true, false, ◌||◌, ltb, Option, none, some, if◌then◌else◌, arith,
  Bool-cases,
}
use graffi_tab_backend.Errors.{Result, ok, err, illegal_state}

pub record Size : Type 0 where
  pub width : ℕ
  pub height : ℕ

-- `requested != null ? requested : source`
abbrev pub or_source : Option ℕ → ℕ → ℕ
or_source none source = source
or_source (some requested) source = requested

-- `source > requested ? requested : source`
abbrev pub at_most : ℕ → ℕ → ℕ
at_most requested source = if ltb requested source then requested else source

at_most_le : (requested source : ℕ) → at_most requested source ≤ requested
at_most_le requested source = elim (Bool-cases (ltb requested source)) [
  | inl e ↦ ground arith
  | inr e ↦ ground arith
]

-- The two roundings of floating point: `(int) (aspectRatio * x + 0.5)` and
-- `(int) (x / aspectRatio + 0.5)`, for the aspect ratio of a source.
module _ (times_ratio over_ratio : Size → ℕ → ℕ) where
  -- The width fixed first, then the height where it is still too large.
  abbrev pub fitted : Size → Size → Size
  fitted source requested =
      let width = at_most requested.width source.width in
      let height = times_ratio source width in
      elim (ltb requested.height height) [
        | false ↦ record { width = width; height = height }
        | true ↦
            let height' = at_most requested.height source.height in
            record { width = over_ratio source height'; height = height' }
      ]

  -- The size of the output, or the exception of the last test.
  unfoldable pub scale_image : Size → Option ℕ → Option ℕ → Result Size
  scale_image source requested_width requested_height =
      let requested : Size = record {
        width = or_source requested_width source.width;
        height = or_source requested_height source.height;
      } in
      elim (ltb requested.width source.width || ltb requested.height source.height) [
        | false ↦ ok source
        | true ↦
            let f = fitted source requested in
            let output : Size = record {
              width = at_most requested.width f.width;
              height = f.height;
            } in
            elim (ltb requested.width output.width || ltb requested.height output.height) [
              | true ↦ err illegal_state
              | false ↦ ok output
            ]
      ]

  fitted_height : (source requested : Size) → (fitted source requested).height ≤ requested.height
  fitted_height source requested =
      let bound = at_most_le requested.height source.height in
      elim (Bool-cases
        (ltb requested.height (times_ratio source (at_most requested.width source.width)))) [
          | inl e ↦ ground (arith, bound)
          | inr e ↦ ground (arith, bound)
        ]

  -- However the floating point rounds, the scaling returns a size that is within the requested
  -- one on both sides: the test of the result never fails.
  pub scale_image_bounds :
      (source : Size) (requested_width requested_height : Option ℕ)
      → (output : Size) × (scale_image source requested_width requested_height ≡ ok output)
        × (output.width ≤ or_source requested_width source.width)
        × (output.height ≤ or_source requested_height source.height)
  unfolding scale_image
  scale_image_bounds source requested_width requested_height =
      let requested : Size = record {
        width = or_source requested_width source.width;
        height = or_source requested_height source.height;
      } in
      let f = fitted source requested in
      let wide = at_most_le requested.width f.width in
      let high = fitted_height source requested in
      elim (Bool-cases (ltb requested.width source.width || ltb requested.height source.height)) [
        | inl large ↦ (
          record { width = at_most requested.width f.width; height = f.height },
          ground arith,
          wide,
          high,
        )
        | inr small ↦ (source, ground arith, ground arith, ground arith)
      ]
