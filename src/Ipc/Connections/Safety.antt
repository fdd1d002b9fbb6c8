-- ===== src/Ipc/Connections/Safety.antt =====
-- The connection limit holds in every interleaving (core-runtime/src/ipc/connections.rs).
use gg_core.Prelude.{
  ℕ, ◌+◌, ◌%◌, ◌≤◌, ◌<◌, ◌≡◌, refl, ap, subst, sym, ◌∙◌, true, false, some, List, [], ◌∷◌, ◌++◌,
  All, arith, ◌==◌, Bool-cases, inl, inr,
}
use gg_core.Ipc.Connections.{
  ConnectionConfig, ConnectionPool, Tasks, Step, Steps, start, new, look, exchange, release, word,
}

-- What tasks have loaded lies below the limit, and the counter is the number of guards, within it.
record IsCounted (config : ConnectionConfig) (t : Tasks) : Type 0 where
  same_config : t.pool.config ≡ config
  counted : t.pool.active ≡ t.guards
  within : t.guards ≤ config.max_connections
  below : All (λ n. n < config.max_connections) t.seen

All-taken :
    (k : ℕ) (before after : List ℕ) (n : ℕ)
    → All (λ i. i < k) (before ++ n ∷ after)
    → (n < k) × All (λ i. i < k) (before ++ after)
All-taken k [] after n (h, all) = (h, all)
All-taken k (x ∷ before) after n (h, all) =
    let (a, rest) = All-taken k before after n all in (a, (h, rest))

look-below : (n : ℕ) (p : ConnectionPool) → look p ≡ some n → n < p.config.max_connections
unfolding look
look-below n p e = ground (arith, e)

abbrev exchanged : ℕ → ConnectionPool → ConnectionPool
exchanged n p = record p { active = (n + 1) % word }

exchange-same :
    (n : ℕ) (p : ConnectionPool) → (p.active == n) ≡ true → exchange n p ≡ (true, exchanged n p)
unfolding exchange
exchange-same n p e = rw (e, exchange)

exchange-other : (n : ℕ) (p : ConnectionPool) → (p.active == n) ≡ false → exchange n p ≡ (false, p)
unfolding exchange
exchange-other n p e = rw (e, exchange)

exchange-won :
    (n : ℕ) (p q : ConnectionPool) → exchange n p ≡ (true, q) → (p.active ≡ n) × (exchanged n p ≡ q)
exchange-won n p q e = elim (Bool-cases (p.active == n)) [
  | inl same ↦ (ground arith, ap (λ r. r.1) (sym (exchange-same n p same) ∙ e))
  | inr other ↦ absurd (cc (ap (λ r. r.0) (sym (exchange-other n p other) ∙ e)))
]

exchange-lost : (n : ℕ) (p q : ConnectionPool) → exchange n p ≡ (false, q) → p ≡ q
exchange-lost n p q e = elim (Bool-cases (p.active == n)) [
  | inl same ↦ absurd (cc (ap (λ r. r.0) (sym (exchange-same n p same) ∙ e)))
  | inr other ↦ ap (λ r. r.1) (sym (exchange-other n p other) ∙ e)
]

module _ (config : ConnectionConfig) (small : config.max_connections < word) where
  Step-IsCounted : {t u : Tasks} → Step t u → IsCounted config t → IsCounted config u
  Step-IsCounted (Step.load {t} n e) v = record {
    same_config = v.same_config;
    counted = v.counted;
    within = v.within;
    below = (
      let low = look-below n t.pool e in
          let cap = ap (λ k. k.max_connections) v.same_config in omega (arith, low, cap),
      v.below,
    );
  }
  Step-IsCounted (Step.won {t} before after n p e swap) v =
      let (same, result) = exchange-won n t.pool p swap in
      let (low, rest) =
        All-taken config.max_connections before after n
          (subst (All (λ i. i < config.max_connections)) e v.below) in
      let now : p.active ≡ (n + 1) % word = ap (λ q. q.active) (sym result) in
      record {
        same_config = ap (λ q. q.config) (sym result) ∙ v.same_config;
        counted = omega (arith, now, same, v.counted, low, small);
        within = omega (arith, same, v.counted, low);
        below = rest;
      }
  Step-IsCounted (Step.lost {t} before after n p e swap) v =
      let result = exchange-lost n t.pool p swap in
      let (low, rest) =
        All-taken config.max_connections before after n
          (subst (All (λ i. i < config.max_connections)) e v.below) in
      record {
        same_config = ap (λ q. q.config) (sym result) ∙ v.same_config;
        counted = ap (λ q. q.active) (sym result) ∙ v.counted;
        within = v.within;
        below = rest;
      }
  Step-IsCounted (Step.drop_guard n e) v =
      unfold release in
      record {
        same_config = v.same_config;
        counted = omega (arith, v.counted, e, v.within, small);
        within = omega (arith, v.within, e);
        below = v.below;
      }

  reachable-IsCounted : {t : Tasks} → Steps (start config) t → IsCounted config t
  unfolding new
  reachable-IsCounted Steps.done = record {
    same_config = refl;
    counted = refl;
    within = omega arith;
    below = tt;
  }
  reachable-IsCounted (Steps.next path step) = Step-IsCounted step (reachable-IsCounted path)

  -- In every interleaving the counter is the number of connections that are held, and at most the
  -- limit, where the limit is a machine word.
  pub connections_bounded :
      {t : Tasks}
      → Steps (start config) t
      → (t.pool.active ≡ t.guards) × (t.guards ≤ config.max_connections)
  connections_bounded path = let v = reachable-IsCounted path in (v.counted, v.within)
