-- ===== src/Metrics.antt =====
-- app/core/metrics.py: counters, gauges and a histogram. A labelled collector is a dictionary by its
-- sorted labels; the numbers are of any type with the operations of a float, `show` is `str` of one.
pub mod Histograms
use nexus_ai.Base.{
  ℕ, zero, suc, ◌+◌, Bool, true, false, List, [], ◌∷◌, ◌++◌, map, if◌then◌else◌, sorted_desc,
  Option, none, some, list_eq, pair_eq, nat_eq,
}
use nexus_ai.Base.Dict
use nexus_ai.Base.Dict.{Dict}
use nexus_ai.Base.Float.{FloatOps}
use nexus_ai.Base.Text.{Text, codes, join, decimal}

-- `_Labels`, sorted already by `_key`
abbrev pub Labels : Type 0
Labels = List (Text × Text)

-- `f'{k}="{v}"'`, with the quotation mark as a code
abbrev pub label_text : Text × Text → Text
label_text (k, v) = k ++ (61 ∷ 34 ∷ v) ++ 34 ∷ []

-- `_Scalar`
pub record Scalar (F : Type 0) : Type 0 where
  pub name : Text
  pub help : Text
  pub kind : Text
  pub amounts : Dict Labels F

pub record Histogram (F : Type 0) : Type 0 where
  pub name : Text
  pub help : Text
  pub buckets : List F
  pub counts : List ℕ
  pub total : F
  pub observations : ℕ

pub record MetricsRegistry (F : Type 0) : Type 0 where
  pub http_requests : Scalar F
  pub http_errors : Scalar F
  pub http_in_flight : Scalar F
  pub http_duration : Histogram F
  pub llm_tokens : Scalar F
  pub llm_cost_usd : Scalar F

module _ {F : Type 0} (fl : FloatOps F) (show : F → Text) where
  -- `_fmt`
  unfoldable pub line_for : Text → Labels → Text → Text
  unfolding join
  line_for name [] value = name ++ codes " " ++ value
  line_for name (l ∷ ls) value =
      name ++ codes "{" ++ join (codes ",") (map label_text (l ∷ ls)) ++ codes "} " ++ value

  -- `_add`
  unfoldable pub add_amount : F → Labels → Scalar F → Scalar F
  add_amount amount labels s = record s {
    amounts =
        Dict.insert labels (fl.add (Dict.get_or labels s.amounts fl.zero_float) amount) s.amounts;
  }

  -- `Counter.inc` and `Gauge.inc`; `Gauge.dec` adds the negated amount
  unfoldable pub dec : F → Labels → Scalar F → Scalar F
  unfolding add_amount
  dec amount labels = add_amount (fl.sub fl.zero_float amount) labels

  -- `Gauge.set`
  unfoldable pub set_value : F → Labels → Scalar F → Scalar F
  set_value value labels s = record s { amounts = Dict.insert labels value s.amounts }

  abbrev heading : Text → Text → Text → List Text
  heading name help kind =
      (codes "# HELP " ++ name ++ codes " " ++ help)
      ∷ (codes "# TYPE " ++ name ++ codes " " ++ kind)
      ∷ []

  abbrev lines_for : Text → Dict Labels F → List Text
  lines_for name [] = line_for name [] (show fl.zero_float) ∷ []
  lines_for name (e ∷ es) = map (λ x. line_for name x.0 (show x.1)) (e ∷ es)

  -- `_Scalar.render`
  unfoldable pub render_scalar : Scalar F → List Text
  unfolding line_for
  render_scalar s = heading s.name s.help s.kind ++ lines_for s.name s.amounts

  unfoldable pub new_histogram : Text → Text → List F → Histogram F
  new_histogram name help buckets =
      let bounds = sorted_desc (λ a b. fl.leq b a) buckets in
      record {
        name = name;
        help = help;
        buckets = bounds;
        counts = map (λ b. 0) bounds;
        total = fl.zero_float;
        observations = 0;
      }

  unfoldable pub new_scalar : Text → Text → Text → Scalar F
  new_scalar name help kind = record { name = name; help = help; kind = kind; amounts = [] }

  -- `self._counts[i] += 1` for each bound that the value does not pass
  unfoldable pub bump : F → List F → List ℕ → List ℕ
  bump value (b ∷ bs) (n ∷ ns) = (if fl.leq value b then n + 1 else n) ∷ bump value bs ns
  bump value _ _ = []

  unfoldable pub observe : F → Histogram F → Histogram F
  unfolding bump
  observe value h = record h {
    total = fl.add h.total value;
    observations = h.observations + 1;
    counts = bump value h.buckets h.counts;
  }

  abbrev bucket_lines : Text → List F → List ℕ → List Text
  bucket_lines name (b ∷ bs) (n ∷ ns) =
      line_for (name ++ codes "_bucket") ((codes "le", show b) ∷ []) (decimal n)
      ∷ bucket_lines name bs ns
  bucket_lines name _ _ = []

  -- `Histogram.render`
  unfoldable pub render_histogram : Histogram F → List Text
  unfolding line_for decimal
  render_histogram h =
      heading h.name h.help (codes "histogram")
      ++ bucket_lines h.name h.buckets h.counts
      ++ line_for (h.name ++ codes "_bucket") ((codes "le", codes "+Inf") ∷ [])
          (decimal h.observations)
        ∷ line_for (h.name ++ codes "_sum") [] (show h.total)
        ∷ line_for (h.name ++ codes "_count") [] (decimal h.observations)
        ∷ []

  -- `buckets` are the values of `_DEFAULT_BUCKETS`.
  unfoldable pub new_registry : List F → MetricsRegistry F
  unfolding new_scalar new_histogram
  new_registry buckets = record {
    http_requests =
        new_scalar (codes "nexus_http_requests_total") (codes "Total HTTP requests.")
          (codes "counter");
    http_errors =
        new_scalar (codes "nexus_http_errors_total") (codes "Total HTTP 5xx responses.")
          (codes "counter");
    http_in_flight =
        new_scalar (codes "nexus_http_requests_in_flight") (codes "In-flight HTTP requests.")
          (codes "gauge");
    http_duration =
        new_histogram (codes "nexus_http_request_duration_seconds")
          (codes "HTTP request duration (s).") buckets;
    llm_tokens =
        new_scalar (codes "nexus_llm_tokens_total") (codes "Total LLM tokens processed.")
          (codes "counter");
    llm_cost_usd =
        new_scalar (codes "nexus_llm_cost_usd_total") (codes "Total estimated LLM cost (USD).")
          (codes "counter");
  }

  unfoldable pub render : MetricsRegistry F → Text
  unfolding render_scalar render_histogram join
  render r =
      join (10 ∷ []) (
        render_scalar r.http_requests
        ++ (render_scalar r.http_errors
            ++ (render_scalar r.http_in_flight
                ++ (render_histogram r.http_duration
                    ++ (render_scalar r.llm_tokens ++ render_scalar r.llm_cost_usd)))))
      ++ 10 ∷ []
