-- ===== src/Http/Metrics/Series.antt =====
-- What the metrics of internal/transport/http/metrics.go count.
use pet_urls.Prelude.{
  ℕ, suc, ◌≡◌, ◌≢◌, refl, sym, ap, ◌∙◌, Bytes, Bool, true, false, none, some, List, [], ◌∷◌, length,
  ◌&&◌, ◌||◌, ◌==◌, leb, codes, All,
}
use pet_urls.Auth.Jwt.{valid_string}
use pet_urls.Http.Metrics.{
  Collector, Prometheus, Metrics, http_metrics, setup_metrics, observe_request,
}

abbrev is_name_start : ℕ → Bool
is_name_start b = (leb b'a' b && leb b b'z') || (leb b'A' b && leb b b'Z') || (b == b'_')

abbrev are_name_bytes : Bytes → Bool
are_name_bytes [] = true
are_name_bytes (b ∷ bs) = (is_name_start b || (leb b'0' b && leb b b'9')) && are_name_bytes bs

-- The names that every version of the library takes for a metric and for a label: letters, digits
-- and underscores, with no digit in front.
unfoldable pub is_plain_name : Bytes → Bool
is_plain_name [] = false
is_plain_name (b ∷ bs) = is_name_start b && are_name_bytes bs

-- A collector with such a name and the labels `method`, `path` and `code`.
pub record IsDescribed (c : Collector) : Type 0 where
  pub name : is_plain_name c.name ≡ true
  pub labels : c.labels ≡ codes "method" ∷ codes "path" ∷ codes "code" ∷ []

-- A value for every label, each of them in UTF-8: the library panics on any other text.
pub record AreValues (c : Collector) (vs : List Bytes) : Type 0 where
  pub count : length vs ≡ length c.labels
  pub utf8 : All (λ v. valid_string v ≡ true) vs

-- What the library documents, by two views of the world: whether a collector with that name is
-- registered, and how often the series of a collector with these label values has been counted or
-- observed.
pub record PrometheusLaws {W F : Type 0} (prom : Prometheus W F) (registered : W → Bytes → Bool)
    (total : W → Bytes → List Bytes → ℕ) : Type 0 where
  -- `MustRegister` of a valid collector panics exactly where the name is taken.
  pub register_fresh :
      (c : Collector) (w : W)
      → IsDescribed c
      → registered w c.name ≡ false
      → (w' : W) × (prom.must_register c w ≡ some w')
  pub register_taken :
      (c : Collector) (w : W) → registered w c.name ≡ true → prom.must_register c w ≡ none
  pub register_own :
      (c : Collector) (w w' : W) → prom.must_register c w ≡ some w' → registered w' c.name ≡ true
  pub register_others :
      (c : Collector) (w w' : W) (n : Bytes)
      → prom.must_register c w ≡ some w'
      → n ≢ c.name
      → registered w' n ≡ registered w n
  -- With such values `WithLabelValues` does not panic, and the series grows by one.
  pub inc_done :
      (c : Collector) (vs : List Bytes) (w : W)
      → IsDescribed c
      → AreValues c vs
      → (w' : W) × (prom.inc c vs w ≡ some w') × (total w' c.name vs ≡ suc (total w c.name vs))
  pub inc_others :
      (c : Collector) (vs us : List Bytes) (w w' : W) (n : Bytes)
      → prom.inc c vs w ≡ some w'
      → ¬ ((n ≡ c.name) × (us ≡ vs))
      → total w' n us ≡ total w n us
  pub observe_done :
      (c : Collector) (vs : List Bytes) (x : F) (w : W)
      → IsDescribed c
      → AreValues c vs
      → (w' : W) × (prom.observe c vs x w ≡ some w')
        × (total w' c.name vs ≡ suc (total w c.name vs))
  pub observe_others :
      (c : Collector) (vs us : List Bytes) (x : F) (w w' : W) (n : Bytes)
      → prom.observe c vs x w ≡ some w'
      → ¬ ((n ≡ c.name) × (us ≡ vs))
      → total w' n us ≡ total w n us

abbrev requests : Bytes
requests = http_metrics.total_requests.name

abbrev durations : Bytes
durations = http_metrics.total_duration.name

requests-IsDescribed : IsDescribed http_metrics.total_requests
unfolding is_plain_name
requests-IsDescribed = record { name = refl; labels = refl }

durations-IsDescribed : IsDescribed http_metrics.total_duration
unfolding is_plain_name
durations-IsDescribed = record { name = refl; labels = refl }

names_differ : requests ≢ durations
names_differ same = cc

module _ {W F : Type 0} (prom : Prometheus W F) (registered : W → Bytes → Bool)
    (total : W → Bytes → List Bytes → ℕ) (laws : PrometheusLaws prom registered total) where
  -- Each of both collectors has one more entry under these label values, and nothing else has changed.
  pub record IsCounted (vs : List Bytes) (w w' : W) : Type 0 where
    pub request : total w' requests vs ≡ suc (total w requests vs)
    pub duration : total w' durations vs ≡ suc (total w durations vs)
    pub others :
        (n : Bytes) (us : List Bytes)
        → ¬ ((n ≡ requests) × (us ≡ vs))
        → ¬ ((n ≡ durations) × (us ≡ vs))
        → total w' n us ≡ total w n us

  setup_metrics_once :
      (w : W)
      → registered w requests ≡ false
      → registered w durations ≡ false
      → (w2 : W) × (setup_metrics prom w ≡ some (http_metrics, w2)) × (setup_metrics prom w2 ≡ none)
  unfolding setup_metrics
  setup_metrics_once w first second =
      let (w1, one) =
        laws.register_fresh http_metrics.total_requests w requests-IsDescribed first in
      let kept =
        laws.register_others http_metrics.total_requests w w1 durations one
          (λ same. names_differ (sym same)) in
      let (w2, two) =
        laws.register_fresh http_metrics.total_duration w1 durations-IsDescribed (kept ∙ second) in
      let own = laws.register_own http_metrics.total_requests w w1 one in
      let still =
        laws.register_others http_metrics.total_duration w1 w2 requests two names_differ in
      (
        w2,
        rw (one, two) refl,
        rw (laws.register_taken http_metrics.total_requests w2 (still ∙ own)) refl,
      )

  observe_request-IsCounted :
      (method path code : Bytes) (d : F) (w : W)
      → valid_string method ≡ true
      → valid_string path ≡ true
      → valid_string code ≡ true
      → (w2 : W) × (observe_request prom http_metrics method path code d w ≡ some w2)
        × IsCounted (method ∷ path ∷ code ∷ []) w w2
  unfolding observe_request
  observe_request-IsCounted method path code d w hm hp hc =
      let vs = method ∷ path ∷ code ∷ [] in
      let (w1, one, grown) =
        laws.inc_done http_metrics.total_requests vs w requests-IsDescribed
          (record { count = refl; utf8 = (hm, (hp, (hc, tt))) }) in
      let (w2, two, grown') =
        laws.observe_done http_metrics.total_duration vs d w1 durations-IsDescribed
          (record { count = refl; utf8 = (hm, (hp, (hc, tt))) }) in
      let counted : IsCounted vs w w2 = record {
        request =
            laws.observe_others http_metrics.total_duration vs vs d w1 w2 requests two
              (λ same. names_differ same.0)
            ∙ grown;
        duration =
            grown'
            ∙ ap suc (
                laws.inc_others http_metrics.total_requests vs vs w w1 durations one
                  (λ same. names_differ (sym same.0)));
        others = λ n us no_request no_duration.
            laws.observe_others http_metrics.total_duration vs us d w1 w2 n two no_duration
            ∙ laws.inc_others http_metrics.total_requests vs us w w1 n one no_request;
      } in
      (w2, rw (one, two) refl, counted)

  -- Where the library does what it documents and neither name is registered: setupMetrics succeeds
  -- once, and panics when it is called again on the same registry; after it every observeRequest whose
  -- method, path and code are in UTF-8 comes back with no panic, and adds one to the count and one
  -- observation to the durations of exactly the series of these three.
  pub observe_request-setup_metrics :
      (w : W)
      → registered w requests ≡ false
      → registered w durations ≡ false
      → (m : Metrics) × (w2 : W) × (setup_metrics prom w ≡ some (m, w2))
        × (setup_metrics prom w2 ≡ none)
        × ((method path code : Bytes) (d : F) (v : W)
            → valid_string method ≡ true
            → valid_string path ≡ true
            → valid_string code ≡ true
            → (v2 : W) × (observe_request prom m method path code d v ≡ some v2)
              × IsCounted (method ∷ path ∷ code ∷ []) v v2)
  observe_request-setup_metrics w first second =
      let (w2, once, again) = setup_metrics_once w first second in
      (http_metrics, w2, once, again, observe_request-IsCounted)
