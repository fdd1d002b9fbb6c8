-- ===== src/Scheduler/Batch/Limits.antt =====
-- Batches (core-runtime/src/scheduler/batch.rs) keep every request, in order, within the limits.
use gg_core.Prelude.{
  ℕ, ◌+◌, ◌≤◌, ◌<◌, ◌≡◌, refl, sym, ap, ◌∙◌, ◌⊎◌, inl, inr, true, false, List, [], ◌∷◌, ◌++◌,
  length, ◌==◌, arith, Bool-cases, All, length-append, append-nil, append_assoc, All-append,
  empty_of_length,
}
use gg_core.Scheduler.Queue.{QueuedRequest}
use gg_core.Scheduler.Batch.{
  BatchConfig, RequestBatch, empty_batch, estimated_tokens, can_add, add, add_next, batch_loop,
  close, create_batches,
}

-- The requests of a list of batches, in order.
abbrev pub contents : List RequestBatch → List QueuedRequest
contents [] = []
contents (b ∷ bs) = b.requests ++ contents bs

abbrev pub tokens : List QueuedRequest → ℕ
tokens [] = 0
tokens (r ∷ rs) = estimated_tokens r + tokens rs

-- A batch counts its tokens, has a request, and obeys both limits unless it is one request alone.
pub record IsFit (config : BatchConfig) (b : RequestBatch) : Type 0 where
  pub counted : b.total_tokens ≡ tokens b.requests
  pub filled : 0 < length b.requests
  pub limited :
      (length b.requests ≡ 1)
      ⊎ ((length b.requests ≤ config.max_batch_size) × (b.total_tokens ≤ config.max_total_tokens))

tokens-append : (xs ys : List QueuedRequest) → tokens (xs ++ ys) ≡ tokens xs + tokens ys
tokens-append [] ys = omega arith
tokens-append (x ∷ xs) ys = omega (arith, tokens-append xs ys)

contents-append :
    (bs : List RequestBatch) (b : RequestBatch)
    → contents (bs ++ b ∷ []) ≡ contents bs ++ b.requests
contents-append [] b = append-nil b.requests
contents-append (x ∷ bs) b =
    ap (◌++◌ x.requests) (contents-append bs b)
    ∙ sym (append_assoc x.requests (contents bs) b.requests)

-- What the loop keeps: the requests so far, in order, and the limits.
record Loop (config : BatchConfig) (done : List QueuedRequest)
    (s : List RequestBatch × RequestBatch) : Type 0 where
  content : contents s.0 ++ s.1.requests ≡ done
  fit : All (IsFit config) s.0
  current : (s.1 ≡ empty_batch) ⊎ IsFit config s.1

added-limited :
    (config : BatchConfig) (b : RequestBatch) (r : QueuedRequest)
    → (length b.requests ≡ 0) ⊎ (can_add config b r ≡ true)
    → (length (b.requests ++ r ∷ []) ≡ 1)
      ⊎ ((length (b.requests ++ r ∷ []) ≤ config.max_batch_size)
          × (b.total_tokens + estimated_tokens r ≤ config.max_total_tokens))
unfolding can_add
added-limited config b r (inl none_yet) = inl (omega (arith, length-append b.requests (r ∷ [])))
added-limited config b r (inr room) =
    inr (let l = length-append b.requests (r ∷ []) in ground arith, ground arith)

add-IsFit :
    (config : BatchConfig) (b : RequestBatch) (r : QueuedRequest)
    → b.total_tokens ≡ tokens b.requests
    → (length b.requests ≡ 0) ⊎ (can_add config b r ≡ true)
    → IsFit config (add b r)
unfolding add
add-IsFit config b r counted why = record {
  counted = omega (arith, counted, tokens-append b.requests (r ∷ []));
  filled = omega (arith, length-append b.requests (r ∷ []));
  limited = added-limited config b r why;
}

current_counted :
    (config : BatchConfig) (b : RequestBatch)
    → (b ≡ empty_batch) ⊎ IsFit config b
    → b.total_tokens ≡ tokens b.requests
current_counted config b (inl e) = rw e refl
current_counted config b (inr fit) = fit.counted

extended :
    (config : BatchConfig) (done : List QueuedRequest) (batches : List RequestBatch)
    (current : RequestBatch) (r : QueuedRequest)
    → Loop config done (batches, current)
    → (length current.requests ≡ 0) ⊎ (can_add config current r ≡ true)
    → Loop config (done ++ r ∷ []) (batches, add current r)
extended config done batches current r v why = record {
  content =
      unfold add in
      sym (append_assoc (contents batches) current.requests (r ∷ []))
      ∙ ap (λ xs. xs ++ r ∷ []) v.content;
  fit = v.fit;
  current = inr (add-IsFit config current r (current_counted config current v.current) why);
}

closed :
    (config : BatchConfig) (done : List QueuedRequest) (batches : List RequestBatch)
    (current : RequestBatch) (r : QueuedRequest)
    → Loop config done (batches, current)
    → IsFit config current
    → Loop config (done ++ r ∷ []) (batches ++ current ∷ [], add empty_batch r)
closed config done batches current r v fit = record {
  content = unfold add in ap (λ xs. xs ++ r ∷ []) (contents-append batches current ∙ v.content);
  fit = All-append (IsFit config) batches current v.fit fit;
  current = inr (add-IsFit config empty_batch r refl (inl refl));
}

filled_IsFit :
    (config : BatchConfig) (b : RequestBatch)
    → (b ≡ empty_batch) ⊎ IsFit config b
    → (length b.requests == 0) ≡ false
    → IsFit config b
filled_IsFit config b (inl e) h = let l = ap (λ c. length c.requests) e in absurd (ground arith)
filled_IsFit config b (inr fit) h = fit

add_next-Loop :
    (config : BatchConfig) (done : List QueuedRequest) (s : List RequestBatch × RequestBatch)
    (r : QueuedRequest)
    → Loop config done s
    → Loop config (done ++ r ∷ []) (add_next config s r)
unfolding add_next
add_next-Loop config done (batches, current) r v = elim (Bool-cases (can_add config current r)) [
  | inl room ↦ rw (room, add_next) (extended config done batches current r v (inr room))
  | inr tight ↦ elim (Bool-cases (length current.requests == 0)) [
    | inl empty ↦
        rw (tight, empty, add_next) (extended config done batches current r v (inl (ground arith)))
    | inr filled ↦
        rw (tight, filled, add_next)
          (closed config done batches current r v (filled_IsFit config current v.current filled))
  ]
]

batch_loop-Loop :
    (config : BatchConfig) (rs done : List QueuedRequest) (s : List RequestBatch × RequestBatch)
    → Loop config done s
    → Loop config (done ++ rs) (batch_loop config rs s)
unfolding batch_loop
batch_loop-Loop config [] done s v = rw (append-nil done) v
batch_loop-Loop config (r ∷ rs) done s v = rw⁻¹ (append_assoc done (r ∷ []) rs) (
    batch_loop-Loop config rs (done ++ r ∷ []) (add_next config s r)
      (add_next-Loop config done s r v))

close-Loop :
    (config : BatchConfig) (done : List QueuedRequest) (s : List RequestBatch × RequestBatch)
    → Loop config done s
    → (contents (close s) ≡ done) × All (IsFit config) (close s)
close-Loop config done (batches, current) v = elim (Bool-cases (length current.requests == 0)) [
  | inl empty ↦
      let none_left : current.requests ≡ [] = empty_of_length current.requests (ground arith) in
      let all : contents batches ++ [] ≡ done =
        ap (λ xs. contents batches ++ xs) (sym none_left) ∙ v.content in
      rw empty (sym (append-nil (contents batches)) ∙ all, v.fit)
  | inr filled ↦ rw filled (
    contents-append batches current ∙ v.content,
    All-append (IsFit config) batches current v.fit (filled_IsFit config current v.current filled),
  )
]

-- The batches hold the requests in their order; every batch counts its tokens, holds a request, and
-- obeys the limits on requests and tokens unless it is one request alone.
pub create_batches_lem :
    (config : BatchConfig) (requests : List QueuedRequest)
    → (contents (create_batches config requests) ≡ requests)
      × All (IsFit config) (create_batches config requests)
unfolding create_batches
create_batches_lem config requests = close-Loop config requests _ (
    batch_loop-Loop config requests [] ([], empty_batch)
      (record { content = refl; fit = tt; current = inl refl }))
