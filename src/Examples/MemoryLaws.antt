-- ===== src/Examples/MemoryLaws.antt =====
-- The small world against the promises that the theorems ask for.
use pet_urls.Prelude.{
  ◌≡◌, refl, sym, ap, ◌∙◌, ◌⊎◌, inl, inr, Bytes, false, Option, none, some, ◌=b=◌, =b=_sound,
  =b=_refl, Bool-cases,
}
use pet_urls.Errors.{GoError, ok, err, ok-injective, err-injective, chain_not_found}
use mathlib.Core.Path.{subst}
use pet_urls.Prelude.Int.{to_micros}
use pet_urls.Shortener.Types.{UrlToken, kept_row}
use pet_urls.Shortener.Interface.{Quiet, Quiet-refl, EnvLaws}
use pet_urls.Postgres.ShortenerRepo.{row}
use pet_urls.Postgres.ShortenerRepo.Sql.{DatabaseLaws, Adds}
use pet_urls.Redis.Promises.{RedisLaws}
use pet_urls.Examples.Memory.{
  Memory, Columns, row_at, stored, cached, update, insert_into, columns, value_of, memory_db,
  patient, memory_redis, ticking,
}

abbrev NoChange : Memory → Memory → Type 0
NoChange = Quiet stored cached

pub ticking-EnvLaws : EnvLaws stored cached ticking
ticking-EnvLaws = record {
  now_quiet = λ w. record { rows = λ k. refl; entries = λ k. inl refl };
  rand_quiet = λ n w. Quiet-refl stored cached w;
}

pub update_cases :
    {A : Type 0} (t : Bytes) (v : A) (f : Bytes → A) (k : Bytes)
    → (update t v f k ≡ f k) ⊎ ((k ≡ t) × (update t v f k ≡ v))
update_cases t v f k = elim (Bool-cases (t =b= k)) [
  | inl same ↦ inr (sym (=b=_sound t k same), rw same)
  | inr other ↦ inl (rw other)
]

pub update_self : {A : Type 0} (t : Bytes) (v : A) (f : Bytes → A) → update t v f t ≡ v
update_self t v f = rw (=b=_refl t)

insert_into-Adds :
    (r : UrlToken) (o : Option Columns) (w : Memory)
    → w.rows r.token ≡ o
    → Adds patient memory_db stored cached r w
        (insert_into r.token (r.url, to_micros r.expires_at, r.owner_id) o w).1
insert_into-Adds r none w free = record {
  rows = λ k.
      elim (update_cases r.token (some (r.url, to_micros r.expires_at, r.owner_id)) w.rows k) [
        | inl same ↦ inl (ap (row_at k) same)
        | inr (here, added) ↦ inr (
          here,
          ap (row_at k) (ap w.rows here ∙ free),
          ap (row_at k) added
              ∙ ap (λ t. some (row t (r.url, to_micros r.expires_at, r.owner_id))) here,
        )
      ];
  entries = λ k. inl refl;
}
insert_into-Adds r (some s) w taken = record { rows = λ k. inl refl; entries = λ k. inl refl }

insert_into_done :
    (r : UrlToken) (o : Option Columns) (w : Memory) (u : Unit {0})
    → w.rows r.token ≡ o
    → (insert_into r.token (r.url, to_micros r.expires_at, r.owner_id) o w).0 ≡ ok u
    → (stored w r.token ≡ none)
      × (stored (insert_into r.token (r.url, to_micros r.expires_at, r.owner_id) o w).1 r.token
          ≡ some (kept_row r))
insert_into_done r none w u free h = (
  ap (row_at r.token) free,
  ap (row_at r.token)
      (update_self r.token (some (r.url, to_micros r.expires_at, r.owner_id)) w.rows),
)
insert_into_done r (some s) w u taken h = cc

columns_row :
    (t : Bytes) (o : Option Columns) (u : Columns) → columns o ≡ ok u → row_at t o ≡ some (row t u)
columns_row t none u h = cc
columns_row t (some v) u h = ap (λ c. row_at t (some c)) (ok-injective h)

columns-none :
    (t : Bytes) (o : Option Columns) (e : GoError) → columns o ≡ err e → row_at t o ≡ none
columns-none t none e h = refl
columns-none t (some r) e h = cc

columns_foreign : (o : Option Columns) (e : GoError) → columns o ≡ err e → chain_not_found e ≡ false
unfolding chain_not_found
columns_foreign none e h = subst (λ f. chain_not_found f ≡ false) (err-injective h) refl
columns_foreign (some r) e h = cc

pub memory_db-DatabaseLaws : DatabaseLaws patient memory_db stored cached
memory_db-DatabaseLaws = record {
  ping_quiet = Quiet-refl stored cached;
  sleep_quiet = λ pause. Quiet-refl stored cached;
  insert_adds = λ r w. insert_into-Adds r (w.rows r.token) w refl;
  insert_done = λ r w u h. insert_into_done r (w.rows r.token) w u refl h;
  select_quiet = λ t. Quiet-refl stored cached;
  select_row = λ t w u h. columns_row t (w.rows t) u h;
  select_none = λ t w e h missing. columns-none t (w.rows t) e h;
  delete_removes = λ t w. record {
    rows = λ k. elim (update_cases t none w.rows k) [
      | inl same ↦ inl (ap (row_at k) same)
      | inr (here, gone) ↦ inr (here, ap (row_at k) gone)
    ];
    entries = λ k. inl refl;
  };
  delete_done = λ t w u h. ap (row_at t) (update_self t none w.rows);
  select_foreign = λ t w e h. columns_foreign (w.rows t) e h;
  delete_foreign = λ t w e h. cc;
  context_foreign = λ w e h. cc;
  sleep_foreign = λ pause w e h. cc;
}

value_of-some : (o : Option Bytes) (v : Bytes) → value_of o ≡ ok v → o ≡ some v
value_of-some none v h = cc
value_of-some (some u) v h = ap some (ok-injective h)

pub memory_redis-RedisLaws : RedisLaws memory_redis stored cached
memory_redis-RedisLaws = record {
  ping_quiet = Quiet-refl stored cached;
  get_quiet = λ k. Quiet-refl stored cached;
  get_value = λ k v w h. value_of-some (w.entries k) v h;
  set_rows = λ k v ttl w j. refl;
  set_entry = λ k v ttl w j. elim (update_cases k (some v) w.entries j) [
    | inl same ↦ inl same
    | inr (here, put) ↦ inr (inr (here, put))
  ];
  del_quiet = λ k w. record {
    rows = λ j. refl;
    entries = λ j. elim (update_cases k none w.entries j) [
      | inl same ↦ inl same
      | inr (here, gone) ↦ inr gone
    ];
  };
  del_done = λ k w h. update_self k none w.entries;
}
