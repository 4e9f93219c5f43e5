-- ===== src/BenchCharts/Bars.antt =====
-- `renderGroupedBars` of internal/testutil/cmd/benchcharts/main.go and what it calls, over the
-- arithmetic of float64 and the escaping of `encoding/xml`.
use postgres_sqlguard.Common.{
  ℕ, suc, ◌-◌, ◌*◌, ◌||◌, List, [], ◌∷◌, ◌++◌, GoString, ascii, str_eq, length, if◌then◌else◌,
}
use postgres_sqlguard.BenchCharts.Float.{Float64, FloatOps}

pub record ChartCase : Type 0 where
  pub label : GoString
  pub cgo : Float64
  pub no_cgo : Float64

-- `fmt`, `math` and `xml.EscapeText` of Go's library.
pub record Drawing : Type 0 where
  pub floats : FloatOps
  pub escape_text : GoString → GoString

-- The parts of a text, joined.
abbrev pub join : List GoString → GoString
join [] = []
join (s ∷ parts) = s ++ join parts

-- Constants of the source, as float64.
abbrev pub ratio_0_28 : Float64
ratio_0_28 = 0x3fd1eb851eb851ec

abbrev pub ratio_0_5 : Float64
ratio_0_5 = 0x3fe0000000000000

abbrev pub ratio_1_1 : Float64
ratio_1_1 = 0x3ff199999999999a

abbrev pub mebibyte : ℕ
mebibyte = 1024 * 1024

abbrev pub plot_top : ℕ
plot_top = 92

abbrev pub plot_bottom : ℕ
plot_bottom = 390

abbrev pub plot_left : ℕ
plot_left = 92

abbrev pub plot_right : ℕ
plot_right = 928

-- " · ", whose dot takes two bytes.
abbrev pub separator : GoString
separator = 32 ∷ 0xc2 ∷ 0xb7 ∷ 32 ∷ []

module _ (draw : Drawing) where
  open draw use {floats, escape_text}
  open floats use {add, sub, mul, div, max, min, of_int, fixed}

  -- `escape`, which drops the error.
  unfoldable pub escape : GoString → GoString
  escape value = escape_text value

  -- `formatValue`
  unfoldable pub format_value : Float64 → GoString → ℕ → GoString
  format_value value unit precision =
      if str_eq unit (ascii "ns/op") || str_eq unit (ascii "B/op")
      then fixed 0 value
      else fixed precision value

  -- `writeBar`: what it appends to the output.
  unfoldable pub write_bar :
      Float64 → Float64 → Float64 → Float64 → GoString → GoString → ℕ → GoString
  unfolding format_value
  write_bar x width value maximum color unit precision =
      let height = mul (div value maximum) (of_int (plot_bottom - plot_top)) in
      let y = sub (of_int plot_bottom) height in
      join (
        ascii "<rect x=\""
        ∷ fixed 1 x
        ∷ ascii "\" y=\""
        ∷ fixed 1 y
        ∷ ascii "\" width=\""
        ∷ fixed 1 width
        ∷ ascii "\" height=\""
        ∷ fixed 1 height
        ∷ ascii "\" rx=\"4\" fill=\""
        ∷ color
        ∷ ascii "\"/>"
        ∷ ascii "<text x=\""
        ∷ fixed 1 (add x (div width (of_int 2)))
        ∷ ascii "\" y=\""
        ∷ fixed 1 (sub y (of_int 8))
        ∷ ascii
            "\" text-anchor=\"middle\" fill=\"#f0f6fc\" font-family=\"system-ui,sans-serif\" font-size=\"12\">"
        ∷ format_value value unit precision
        ∷ ascii "</text>"
        ∷ [])

  -- The loop for the maximum.
  unfoldable pub maximum_of : Float64 → List ChartCase → Float64
  maximum_of maximum [] = maximum
  maximum_of maximum (c ∷ cases) = maximum_of (max (max maximum c.cgo) c.no_cgo) cases

  -- The loop for the bars, from an index on.
  unfoldable pub write_groups :
      ℕ → Float64 → Float64 → Float64 → GoString → ℕ → List ChartCase → GoString
  unfolding write_bar escape
  write_groups index group_width bar_width maximum unit precision [] = []
  write_groups index group_width bar_width maximum unit precision (c ∷ cases) =
      let center = add (of_int plot_left) (mul group_width (add (of_int index) ratio_0_5)) in
      join (
        write_bar (sub (sub center bar_width) (of_int 3)) bar_width c.cgo maximum (ascii "#58a6ff")
          unit precision
        ∷ write_bar (add center (of_int 3)) bar_width c.no_cgo maximum (ascii "#d29922") unit
            precision
        ∷ ascii "<text x=\""
        ∷ fixed 1 center
        ∷ ascii
            "\" y=\"420\" text-anchor=\"middle\" fill=\"#c9d1d9\" font-family=\"system-ui,sans-serif\" font-size=\"13\">"
        ∷ escape c.label
        ∷ ascii "</text>"
        ∷ [])
      ++ write_groups (suc index) group_width bar_width maximum unit precision cases

  -- `renderGroupedBars`
  unfoldable pub render_grouped_bars :
      GoString → GoString → GoString → GoString → List ChartCase → ℕ → GoString
  unfolding maximum_of write_groups escape
  render_grouped_bars title description unit metadata cases precision =
      let maximum = mul (maximum_of 0 cases) ratio_1_1 in
      let group_width = div (of_int (plot_right - plot_left)) (of_int (length cases)) in
      let bar_width = min (of_int 70) (mul group_width ratio_0_28) in
      join (
        ascii
          "<svg xmlns=\"http://www.w3.org/2000/svg\" width=\"960\" height=\"480\" viewBox=\"0 0 960 480\" role=\"img\" aria-labelledby=\"title desc\">"
        ∷ ascii "<title id=\"title\">"
        ∷ escape title
        ∷ ascii "</title>"
        ∷ ascii "<desc id=\"desc\">"
        ∷ escape (
            description
            ++ ascii ". CGO is blue and no-CGO is amber. Values are in "
            ++ unit
            ++ ascii ".")
        ∷ ascii "</desc>"
        ∷ ascii "<rect width=\"960\" height=\"480\" rx=\"16\" fill=\"#0d1117\"/>"
        ∷ ascii
            "<text x=\"40\" y=\"42\" fill=\"#f0f6fc\" font-family=\"system-ui,sans-serif\" font-size=\"24\" font-weight=\"700\">"
        ∷ escape title
        ∷ ascii "</text>"
        ∷ ascii
            "<text x=\"40\" y=\"68\" fill=\"#8b949e\" font-family=\"system-ui,sans-serif\" font-size=\"13\">"
        ∷ escape (metadata ++ separator ++ unit)
        ∷ ascii "</text>"
        ∷ ascii "<line x1=\"92\" y1=\"390\" x2=\"928\" y2=\"390\" stroke=\"#30363d\"/>"
        ∷ ascii "<rect x=\"730\" y=\"28\" width=\"12\" height=\"12\" rx=\"2\" fill=\"#58a6ff\"/>"
        ∷ ascii
            "<text x=\"748\" y=\"39\" fill=\"#c9d1d9\" font-family=\"system-ui,sans-serif\" font-size=\"13\">CGO</text>"
        ∷ ascii "<rect x=\"805\" y=\"28\" width=\"12\" height=\"12\" rx=\"2\" fill=\"#d29922\"/>"
        ∷ ascii
            "<text x=\"823\" y=\"39\" fill=\"#c9d1d9\" font-family=\"system-ui,sans-serif\" font-size=\"13\">no-CGO</text>"
        ∷ write_groups 0 group_width bar_width maximum unit precision cases
        ∷ ascii "</svg>"
        ∷ [])
