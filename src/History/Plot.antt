-- ===== src/History/Plot.antt =====
-- BuildCPUMEMHistoryPlot of src/HistoryLogger.cxx: what is written to History/Display/feGEM/<name>.
use fe_gem.Common.{
  ℕ, zero, suc, ◌+◌, ◌-◌, ◌%◌, List, [], ◌∷◌, ◌++◌, Bytes, codes, ltb, if◌then◌else◌, length, take,
  get_or, to_string,
}

-- f 0, f 1, ..., f (n - 1)
unfoldable pub for_each : ℕ → (ℕ → Bytes) → List Bytes
for_each zero f = []
for_each (suc n) f = for_each n f ++ f n ∷ []

unfoldable pub plot_variables : Bytes → ℕ → List Bytes
unfolding for_each to_string
plot_variables eq_name nvars =
    let path = eq_name ++ codes "/CPUMEM" in
    let short = if ltb 31 (length path) then take 31 path else path in
    for_each nvars (λ i. short ++ codes ":CPUMEM[" ++ to_string i ++ codes "]")

unfoldable pub plot_labels : ℕ → List Bytes
unfolding for_each to_string
plot_labels nvars =
    if ltb 2 nvars
    then for_each (nvars - 1) (λ i. codes "CPU " ++ to_string (i + 1) ++ codes " Load (%)")
      ++ codes "Memory Usage (%)" ∷ []
    else codes "All CPU Load (%)" ∷ codes "Memory Usage (%)" ∷ []

abbrev pub colour_list : List Bytes
colour_list =
    codes "#00AAFF"
    ∷ codes "#FF9000"
    ∷ codes "#FF00A0"
    ∷ codes "#00C030"
    ∷ codes "#A0C0D0"
    ∷ codes "#D0A060"
    ∷ codes "#C04010"
    ∷ codes "#807060"
    ∷ codes "#F0C000"
    ∷ codes "#2090A0"
    ∷ codes "#D040D0"
    ∷ codes "#90B000"
    ∷ codes "#B0B040"
    ∷ codes "#B0B0FF"
    ∷ codes "#FFA0A0"
    ∷ codes "#A0FFA0"
    ∷ codes "#808080"
    ∷ []

unfoldable pub plot_colours : ℕ → List Bytes
unfolding for_each
plot_colours nvars = for_each nvars (λ i. get_or colour_list (i % 16) [])

-- The writes of one plot, in order.
pub data PlotWrite : Type 0 where
  string_array : Bytes → List Bytes → ℕ → PlotWrite
  string_value : Bytes → Bytes → PlotWrite
  float_value : Bytes → ℕ → PlotWrite

unfoldable pub build_cpumem_history_plot : Bytes → ℕ → List PlotWrite
unfolding plot_variables plot_labels plot_colours
build_cpumem_history_plot eq_name nvars =
    string_array (codes "Variables") (plot_variables eq_name nvars) 64
    ∷ string_array (codes "Label") (plot_labels nvars) 32
    ∷ string_array (codes "Colour") (plot_colours nvars) 32
    ∷ string_value (codes "Timescale") (codes "1h")
    ∷ float_value (codes "Minimum") 0
    ∷ float_value (codes "Maximum") 100
    ∷ []
