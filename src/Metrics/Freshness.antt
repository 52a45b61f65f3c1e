-- ===== src/Metrics/Freshness.antt =====
-- How old an answer of internal/metrics/cache.go can be.
use fusion_index.Prelude.{
  ℕ, ◌-◌, ◌<◌, ◌≡◌, ◌⊎◌, inl, inr, refl, Option, none, some, ltb, ltb→lt, Bool-cases,
}
use mathlib.Core.Path.{subst}
use fusion_index.Session.{World}
use fusion_index.Handlers.{Step, next, failed, Handler}
use fusion_index.Metrics.{Snapshot, fresh, refreshed, get_or_load, get_metrics}

none-ne-some : (s : Snapshot) → none ≡ some s → ⊥
none-ne-some s e = cc

fresh-younger :
    (ttl now : ℕ) (cache : Option Snapshot) (s : Snapshot)
    → fresh ttl now cache ≡ some s
    → (cache ≡ some s) × (now - s.cached_at < ttl)
unfolding fresh
fresh-younger ttl now none s e = cc
fresh-younger ttl now (some t) s e = elim (Bool-cases (ltb (now - t.cached_at) ttl)) [
  | inl young ↦
      let same : some t ≡ some s = rw young at e in
      let row : t ≡ s = cc same in
      (
        same,
        subst (λ (x : Snapshot). now - x.cached_at < ttl) row
            (ltb→lt (now - t.cached_at) ttl young),
      )
  | inr old ↦ absurd (none-ne-some s (rw old at e))
]

-- From the cache, or loaded.
abbrev FromCache : ℕ → Option Snapshot → World → Step Snapshot × World × Option Snapshot → Type 0
FromCache ttl cache w r =
    (s : Snapshot) × (cache ≡ some s) × (w.now - s.cached_at < ttl) × (r ≡ (next s, w, cache))

abbrev Loaded :
    Option Snapshot → Step Snapshot × World → Step Snapshot × World × Option Snapshot → Type 0
Loaded cache l r =
    (r.0 ≡ l.0)
    × (r.1 ≡ l.1)
    × ((s : Snapshot) → l.0 ≡ next s → r.2 ≡ some s)
    × ((code : ℕ) → l.0 ≡ failed code → r.2 ≡ cache)

refreshed-Loaded :
    (cache : Option Snapshot) (l : Step Snapshot × World) → Loaded cache l (refreshed cache l)
unfolding refreshed
refreshed-Loaded cache (next s, w) = (refl, refl, (λ t e. cc e), λ code e. cc)
refreshed-Loaded cache (failed n, w) = (refl, refl, (λ t e. cc), λ code e. refl)

-- An answer is the cached snapshot, younger than the time to live, with no statement run and the
-- cache kept; or it is what the load answers, which is then cached if it is a snapshot, while a load
-- that fails leaves the cache as it was.
get_metrics-Fresh :
    (load : Handler Snapshot) (ttl : ℕ) (cache : Option Snapshot) (w : World)
    → FromCache ttl cache w (get_metrics load ttl cache w)
      ⊎ Loaded cache (load w) (get_metrics load ttl cache w)
unfolding get_metrics get_or_load
get_metrics-Fresh load ttl cache w = answer (fresh ttl w.now cache) refl
  where
    answer :
        (o : Option Snapshot)
        → fresh ttl w.now cache ≡ o
        → FromCache ttl cache w (get_or_load load cache o w)
          ⊎ Loaded cache (load w) (get_or_load load cache o w)
    answer none e = inr (refreshed-Loaded cache (load w))
    answer (some s) e =
        let (kept, young) = fresh-younger ttl w.now cache s e in inl (s, kept, young, refl)
