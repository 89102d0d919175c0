-- ===== src/Server/Measures.antt =====
-- server.go: the measures that a Server keeps in total and for each path (AddMeasure).
use iip.Prelude.{
  ℕ, ◌≡◌, refl, inl, inr, sym, ap, ◌∙◌, List, [], ◌∷◌, Option, none, some, if◌then◌else◌, if_true,
  if_false, Bool-cases, arith,
}
use iip.Prelude.Texts.{is_same, find}
use iip.Statis.{Measure, add_measure, add_int64}

-- The measures of a Server.
pub record Measures : Type 0 where
  pub measure : Measure
  pub path_measure : List (List ℕ × Measure)

-- The measure of the path, if it is registered.
unfoldable pub add_path_measure : List ℕ → ℕ → ℕ → List (List ℕ × Measure) → List (List ℕ × Measure)
unfolding is_same add_measure
add_path_measure path count duration [] = []
add_path_measure path count duration ((known, old) ∷ rest) =
    if is_same known path
    then (known, add_measure old count duration) ∷ rest
    else (known, old) ∷ add_path_measure path count duration rest

-- Once the path's measure has been looked up.
unfoldable pub add_found : Measures → List ℕ → ℕ → ℕ → Option Measure → Measures
unfolding add_path_measure add_measure
add_found m path count duration none = m
add_found m path count duration (some old) = record m {
  measure = add_measure m.measure count duration;
  path_measure = add_path_measure path count duration m.path_measure;
}

unfoldable pub add_server_measure : Measures → List ℕ → ℕ → ℕ → Measures
unfolding find add_found
add_server_measure m path count duration =
    add_found m path count duration (find path m.path_measure)

-- The requests of all paths, an int64 as each is.
abbrev sum_requests : List (List ℕ × Measure) → ℕ
sum_requests [] = 0
sum_requests ((path, m) ∷ rest) = add_int64 m.all_requests (sum_requests rest)

path-sum :
    (path : List ℕ) (count duration : ℕ) (ms : List (List ℕ × Measure)) (old : Measure)
    → find path ms ≡ some old
    → sum_requests (add_path_measure path count duration ms) ≡ add_int64 (sum_requests ms) count
unfolding add_path_measure find add_measure
path-sum path count duration [] old e = cc
path-sum path count duration ((known, m) ∷ rest) old e = elim (Bool-cases (is_same known path)) [
  | inl same ↦ ap sum_requests (if_true (is_same known path) _ _ same) ∙ omega arith
  | inr other ↦
      let later =
        path-sum path count duration rest old (sym (if_false (is_same known path) _ _ other) ∙ e) in
      ap sum_requests (if_false (is_same known path) _ _ other) ∙ omega (arith, later)
]

found-sum :
    (m : Measures) (path : List ℕ) (count duration : ℕ) (found : Option Measure)
    → find path m.path_measure ≡ found
    → m.measure.all_requests ≡ sum_requests m.path_measure
    → (add_found m path count duration found).measure.all_requests
      ≡ sum_requests (add_found m path count duration found).path_measure
unfolding add_found add_measure
found-sum m path count duration none e same = same
found-sum m path count duration (some old) e same =
    ap (λ (n : ℕ). add_int64 n count) same ∙ sym (path-sum path count duration m.path_measure old e)

-- A server whose total counts the requests of all its paths still does after AddMeasure, of a path
-- that is registered or not.
total-sum_requests :
    (m : Measures) (path : List ℕ) (count duration : ℕ)
    → m.measure.all_requests ≡ sum_requests m.path_measure
    → (add_server_measure m path count duration).measure.all_requests
      ≡ sum_requests (add_server_measure m path count duration).path_measure
unfolding add_server_measure
total-sum_requests m path count duration same =
    found-sum m path count duration (find path m.path_measure) refl same
