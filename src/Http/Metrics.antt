-- ===== src/Http/Metrics.antt =====
-- internal/transport/http/metrics.go over the Prometheus client library as a parameter. A panic of the
-- library is `none`.
pub mod Series
use pet_urls.Prelude.{String, Bytes, codes, Option, none, some, List, [], ◌∷◌}

pub data Kind : Type 0 where
  counter histogram : Kind

-- `CounterOpts` or `HistogramOpts` with the names of the labels. The buckets of the histogram are the
-- library's default.
pub record Collector : Type 0 where
  pub kind : Kind
  pub name : Bytes
  pub help : Bytes
  pub labels : List Bytes

-- `MustRegister` of a registerer, and `WithLabelValues` with `Inc` or with `Observe` of a number `F`.
pub record Prometheus (W F : Type 0) : Type 0 where
  pub must_register : Collector → W → Option W
  pub inc : Collector → List Bytes → W → Option W
  pub observe : Collector → List Bytes → F → W → Option W

-- The struct `metrics`.
pub record Metrics : Type 0 where
  pub total_requests : Collector
  pub total_duration : Collector

abbrev pub metric_labels : List Bytes
metric_labels = codes "method" ∷ codes "path" ∷ codes "code" ∷ []

abbrev pub http_metrics : Metrics
http_metrics = record {
  total_requests = record {
    kind = counter;
    name = codes "http_requests_total";
    help = codes "Total number of HTTP requests";
    labels = metric_labels;
  };
  total_duration = record {
    kind = histogram;
    name = codes "http_request_duration_seconds";
    help = codes "Request duration";
    labels = metric_labels;
  };
}

infixl 5 ◌>>=◌
abbrev pub ◌>>=◌ : {A B : Type 0} → Option A → (A → Option B) → Option B
none >>= k = none
some a >>= k = k a

module _ {W F : Type 0} (prom : Prometheus W F) where
  unfoldable pub setup_metrics : W → Option (Metrics × W)
  setup_metrics w = do
    w1 ← prom.must_register http_metrics.total_requests w
    w2 ← prom.must_register http_metrics.total_duration w1
    some (http_metrics, w2)

  unfoldable pub observe_request : Metrics → Bytes → Bytes → Bytes → F → W → Option W
  observe_request m method path code duration w = do
    w1 ← prom.inc m.total_requests (method ∷ path ∷ code ∷ []) w
    prom.observe m.total_duration (method ∷ path ∷ code ∷ []) duration w1
