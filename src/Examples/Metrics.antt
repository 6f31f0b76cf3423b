-- ===== src/Examples/Metrics.antt =====
-- The metrics over a registry in memory.
use pet_urls.Prelude.{
  ℕ, suc, ◌≡◌, ◌≢◌, refl, sym, ap, ◌∙◌, inl, inr, Bytes, Bool, true, false, ◌&&◌, Option, none,
  some, List, [], ◌∷◌, ◌=b=◌, =b=_sound, =b=_refl, if◌then◌else◌, Bool-cases,
}
use pet_urls.Auth.Jwt.{valid_string}
use pet_urls.Http.Metrics.{Collector, Prometheus, Metrics, setup_metrics, observe_request}
use pet_urls.Http.Metrics.Series.{PrometheusLaws, IsCounted, observe_request-setup_metrics}

record Registry : Type 0 where
  names : Bytes → Bool
  totals : Bytes → List Bytes → ℕ

abbrev same_values : List Bytes → List Bytes → Bool
same_values [] [] = true
same_values [] (u ∷ us) = false
same_values (v ∷ vs) [] = false
same_values (v ∷ vs) (u ∷ us) = (v =b= u) && same_values vs us

both_true : (a b : Bool) → (a && b) ≡ true → (a ≡ true) × (b ≡ true)
both_true true b h = (refl, h)
both_true false b h = cc

same_values_sound : (vs us : List Bytes) → same_values vs us ≡ true → vs ≡ us
same_values_sound [] [] h = refl
same_values_sound [] (u ∷ us) h = cc
same_values_sound (v ∷ vs) [] h = cc
same_values_sound (v ∷ vs) (u ∷ us) h =
    let (one, rest) = both_true (v =b= u) (same_values vs us) h in
    let here = =b=_sound v u one in let there = same_values_sound vs us rest in cc

same_values_refl : (vs : List Bytes) → same_values vs vs ≡ true
same_values_refl [] = refl
same_values_refl (v ∷ vs) = rw (=b=_refl v) (same_values_refl vs)

abbrev with_name : Collector → Registry → Registry
with_name c w = record w { names = λ n. if c.name =b= n then true else w.names n }

abbrev register : Collector → Registry → Option Registry
register c w = if w.names c.name then none else some (with_name c w)

abbrev grow : Collector → List Bytes → Registry → Registry
grow c vs w = record w {
  totals =
      λ n us. if (c.name =b= n) && same_values vs us then suc (w.totals n us) else w.totals n us;
}

abbrev memory_prometheus : Prometheus Registry ℕ
memory_prometheus = record {
  must_register = register;
  inc = λ c vs w. some (grow c vs w);
  observe = λ c vs x w. some (grow c vs w);
}

grown :
    (c : Collector) (vs : List Bytes) (w : Registry)
    → (grow c vs w).totals c.name vs ≡ suc (w.totals c.name vs)
grown c vs w = rw (=b=_refl c.name, same_values_refl vs) refl

grow_others :
    (c : Collector) (vs us : List Bytes) (w w' : Registry) (n : Bytes)
    → some (grow c vs w) ≡ some w'
    → ¬ ((n ≡ c.name) × (us ≡ vs))
    → w'.totals n us ≡ w.totals n us
grow_others c vs us w w' n done other =
    let same : grow c vs w ≡ w' = cc in
    ap (λ (x : Registry). x.totals n us) (sym same)
    ∙ elim (Bool-cases ((c.name =b= n) && same_values vs us)) [
      | inl hit ↦
          let (one, rest) = both_true (c.name =b= n) (same_values vs us) hit in
          absurd (other (sym (=b=_sound c.name n one), sym (same_values_sound vs us rest)))
      | inr miss ↦ rw miss refl
    ]

refused_or_some :
    {A : Type 0} (b : Bool) (a a' : A) → (if b then none else some a) ≡ some a' → a ≡ a'
refused_or_some true a a' h = cc
refused_or_some false a a' h = cc

register_own : (c : Collector) (w w' : Registry) → register c w ≡ some w' → w'.names c.name ≡ true
register_own c w w' done =
    ap (λ (x : Registry). x.names c.name)
      (sym (refused_or_some (w.names c.name) (with_name c w) w' done))
    ∙ rw (=b=_refl c.name) refl

register_others :
    (c : Collector) (w w' : Registry) (n : Bytes)
    → register c w ≡ some w'
    → n ≢ c.name
    → w'.names n ≡ w.names n
register_others c w w' n done other =
    ap (λ (x : Registry). x.names n)
      (sym (refused_or_some (w.names c.name) (with_name c w) w' done))
    ∙ elim (Bool-cases (c.name =b= n)) [
      | inl same ↦ absurd (other (sym (=b=_sound c.name n same)))
      | inr miss ↦ rw miss refl
    ]

memory_prometheus-PrometheusLaws :
    PrometheusLaws memory_prometheus (λ (w : Registry). w.names) (λ (w : Registry). w.totals)
memory_prometheus-PrometheusLaws = record {
  register_fresh = λ c w plain fresh. (with_name c w, rw fresh refl);
  register_taken = λ c w taken. rw taken refl;
  register_own = register_own;
  register_others = register_others;
  inc_done = λ c vs w plain fits. (grow c vs w, refl, grown c vs w);
  inc_others = λ c vs us w w' n done other. grow_others c vs us w w' n done other;
  observe_done = λ c vs x w plain fits. (grow c vs w, refl, grown c vs w);
  observe_others = λ c vs us x w w' n done other. grow_others c vs us w w' n done other;
}

abbrev empty_registry : Registry
empty_registry = record { names = λ n. false; totals = λ n us. 0 }

observe_request-setup_metrics_example :
    (m : Metrics) × (w2 : Registry) × (setup_metrics memory_prometheus empty_registry
      ≡ some (m, w2))
    × (setup_metrics memory_prometheus w2 ≡ none)
    × ((method path code : Bytes) (d : ℕ) (v : Registry)
        → valid_string method ≡ true
        → valid_string path ≡ true
        → valid_string code ≡ true
        → (v2 : Registry) × (observe_request memory_prometheus m method path code d v ≡ some v2)
          × IsCounted memory_prometheus
              (λ (w : Registry). w.names)
              (λ (w : Registry). w.totals)
              memory_prometheus-PrometheusLaws
              (method ∷ path ∷ code ∷ [])
              v
              v2)
observe_request-setup_metrics_example =
    observe_request-setup_metrics memory_prometheus (λ (w : Registry). w.names)
      (λ (w : Registry). w.totals) memory_prometheus-PrometheusLaws empty_registry refl refl
