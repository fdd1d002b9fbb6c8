-- ===== src/Memory/PromptCache/Prefix.antt =====
-- The longest cached prefix (core-runtime/src/memory/prompt_cache.rs).
use gg_core.Prelude.{
  ℕ, ◌+◌, ◌%◌, ◌≤◌, ◌<◌, ◌≡◌, ◌≢◌, refl, sym, ap, subst, ◌∙◌, inl, inr, Bool, true, false, Option,
  none, some, List, [], ◌∷◌, ◌++◌, length, take, take-append, append_assoc, append-nil,
  length-append, if◌then◌else◌, Bool-cases, Option-cases, dec_le, arith,
}
use gg_core.Prelude.HashMap as HashMap
use gg_core.Prelude.Bytes.{to_le_bytes}
use gg_core.Memory.PromptCache.{
  word, Sha256, CachedKv, PromptCache, hash_from, hash_tokens, touched, touch, prefix_loop,
  find_prefix,
}

module _ (sha : Sha256) where
  open sha use {State, Digest, same, init, update, finalize}

  hash_from-append :
      (s : State) (xs ys : List ℕ)
      → hash_from sha s (xs ++ ys) ≡ hash_from sha (hash_from sha s xs) ys
  unfolding hash_from
  hash_from-append s [] ys = refl
  hash_from-append s (x ∷ xs) ys = hash_from-append (update s (to_le_bytes x)) xs ys

  hash_from-snoc :
      (s : State) (xs : List ℕ) (t : ℕ)
      → hash_from sha s (xs ++ t ∷ []) ≡ update (hash_from sha s xs) (to_le_bytes t)
  unfolding hash_from
  hash_from-snoc s xs t = hash_from-append s xs (t ∷ [])

  -- Whether the first n tokens have an entry.
  abbrev pub is_cached : List (Digest × CachedKv Digest) → List ℕ → ℕ → Bool
  is_cached entries tokens n = HashMap.contains_key same (hash_tokens sha (take n tokens)) entries

  -- The best match among the first n prefixes.
  IsBest : List (Digest × CachedKv Digest) → List ℕ → ℕ → Option (ℕ × Digest) → Type 0
  IsBest entries tokens n none = (m : ℕ) → 0 < m → m ≤ n → is_cached entries tokens m ≡ false
  IsBest entries tokens n (some (len, hash)) =
      (0 < len)
      × (len ≤ n)
      × (hash ≡ hash_tokens sha (take len tokens))
      × (is_cached entries tokens len ≡ true)
      × ((m : ℕ) → len < m → m ≤ n → is_cached entries tokens m ≡ false)

  hash_next :
      (front rest : List ℕ) (t : ℕ)
      → finalize (update (hash_from sha init front) (to_le_bytes t))
        ≡ hash_tokens sha (take (length front + 1) (front ++ t ∷ rest))
  unfolding hash_tokens hash_from
  hash_next front rest t =
      let longer = front ++ t ∷ [] in
      let len : length longer ≡ length front + 1 = omega (arith, length-append front (t ∷ [])) in
      ap finalize (
        sym (hash_from-append init front (t ∷ []))
        ∙ ap (hash_from sha init) (
            sym (take-append longer rest)
            ∙ ap (λ xs. take (length longer) xs) (append_assoc front (t ∷ []) rest)
            ∙ ap (λ (n : ℕ). take n (front ++ t ∷ rest)) len))

  extend :
      (entries : List (Digest × CachedKv Digest)) (tokens : List ℕ) (n : ℕ) (hash : Digest)
      (best : Option (ℕ × Digest))
      → hash ≡ hash_tokens sha (take (n + 1) tokens)
      → IsBest entries tokens n best
      → IsBest entries tokens
          (n + 1)
          (if HashMap.contains_key same hash entries then some (n + 1, hash) else best)
  unfolding IsBest
  extend entries tokens n hash best e h =
      elim (Bool-cases (HashMap.contains_key same hash entries)) [
        | inl hit ↦ rw hit (
          omega arith,
          omega arith,
          e,
          ap (λ x. HashMap.contains_key same x entries) (sym e) ∙ hit,
          λ m lt le. absurd (omega arith),
        )
        | inr miss ↦
            rw miss (older best h (ap (λ x. HashMap.contains_key same x entries) (sym e) ∙ miss))
      ]
    where
      last :
          (m : ℕ)
          → n < m
          → m ≤ n + 1
          → is_cached entries tokens (n + 1) ≡ false
          → is_cached entries tokens m ≡ false
      last m lt le miss = subst (λ (k : ℕ). is_cached entries tokens k ≡ false) (omega arith) miss

      older :
          (b : Option (ℕ × Digest))
          → IsBest entries tokens n b
          → is_cached entries tokens (n + 1) ≡ false
          → IsBest entries tokens (n + 1) b
      older none f miss = λ m pos le. elim (dec_le m n) [
        | yes small ↦ f m pos small
        | no big ↦ last m (omega arith) le miss
      ]
      older (some (len, hash)) (pos, le, same_hash, hit, f) miss = (
        pos,
        omega arith,
        same_hash,
        hit,
        λ m lt le'. elim (dec_le m n) [
          | yes small ↦ f m lt small
          | no big ↦ last m (omega arith) le' miss
        ],
      )

  -- The loop over the rest, behind a front whose bytes the hasher has taken.
  prefix_loop-IsBest :
      (entries : List (Digest × CachedKv Digest)) (tokens front rest : List ℕ) (hasher : State)
      (n : ℕ) (best : Option (ℕ × Digest))
      → tokens ≡ front ++ rest
      → hasher ≡ hash_from sha init front
      → n ≡ length front
      → IsBest entries tokens n best
      → IsBest entries tokens (length tokens) (prefix_loop sha entries hasher n best rest)
  unfolding prefix_loop
  prefix_loop-IsBest entries tokens front [] hasher n best whole taken count h =
      let all : n ≡ length tokens = count ∙ ap length (sym (whole ∙ append-nil front)) in
      subst (λ (k : ℕ). IsBest entries tokens k best) all h
  prefix_loop-IsBest entries tokens front (t ∷ rest) hasher n best whole taken count h =
      let hasher' = update hasher (to_le_bytes t) in
      let here : finalize hasher' ≡ hash_tokens sha (take (n + 1) tokens) =
        rw (taken, count, whole) (hash_next front rest t) in
      prefix_loop-IsBest entries tokens (front ++ t ∷ []) rest hasher' (n + 1)
        (if HashMap.contains_key same (finalize hasher') entries
          then some (n + 1, finalize hasher')
          else best)
        (whole ∙ sym (append_assoc front (t ∷ []) rest))
        (ap (λ s. update s (to_le_bytes t)) taken ∙ sym (hash_from-snoc init front t))
        (omega (arith, count, length-append front (t ∷ [])))
        (extend entries tokens n (finalize hasher') best here h)

  found :
      (hash : Digest) (entries : List (Digest × CachedKv Digest))
      → HashMap.contains_key same hash entries ≡ true
      → (e : CachedKv Digest) × (HashMap.get same hash entries ≡ some e)
  found hash entries hit = elim (Option-cases (HashMap.get same hash entries)) [
    | inl e ↦ absurd (cc (hit, HashMap.contains_key-none same hash entries e))
    | inr there ↦ there
  ]

  -- What find_prefix returns: no prefix of the tokens has an entry and nothing changes, or the longest
  -- one that has, with its entry marked as used.
  abbrev pub FindsLongest :
      List ℕ → PromptCache Digest → Option (ℕ × CachedKv Digest) × PromptCache Digest → Type 0
  FindsLongest tokens c (none, c') =
      (c' ≡ c) × ((m : ℕ) → 0 < m → m ≤ length tokens → is_cached c.entries tokens m ≡ false)
  FindsLongest tokens c (some (len, e), c') =
      let hash = hash_tokens sha (take len tokens) in
      (0 < len)
      × (len ≤ length tokens)
      × ((m : ℕ) → len < m → m ≤ length tokens → is_cached c.entries tokens m ≡ false)
      × ((old : CachedKv Digest) × (HashMap.get same hash c.entries ≡ some old)
          × (e ≡ record old { last_used = (c.access_counter + 1) % word }))
      × (HashMap.get same hash c'.entries ≡ some e)
      × ((q : Digest) → q ≢ hash → HashMap.get same q c'.entries ≡ HashMap.get same q c.entries)

  -- A prefix of the tokens counts as cached where the digest of its bytes has an entry. find_prefix
  -- returns none exactly where no prefix of at least one token is cached, and leaves the cache as it is;
  -- else it returns the length of the longest cached prefix with its entry, whose time of use is the
  -- next number, and the other entries are as before.
  pub find_prefix_lem :
      (tokens : List ℕ) (c : PromptCache Digest) → FindsLongest tokens c (find_prefix sha tokens c)
  unfolding find_prefix IsBest hash_from
  find_prefix_lem tokens c =
      let best =
        prefix_loop-IsBest c.entries tokens [] tokens init 0 none refl refl refl
          (λ m pos le. absurd (omega arith)) in
      elim (Option-cases (prefix_loop sha c.entries init 0 none tokens)) [
        | inl e ↦ rw (e, find_prefix) (refl, subst (IsBest c.entries tokens (length tokens)) e best)
        | inr ((len, hash), e) ↦
            let (pos, le, as_hash, hit, longer) =
              subst (IsBest c.entries tokens (length tokens)) e best in
            let (old, there) = found (hash_tokens sha (take len tokens)) c.entries hit in
            let counter = (c.access_counter + 1) % word in
            rw (e, find_prefix, as_hash, touch, there)
              (
                pos,
                le,
                longer,
                (old, there, refl),
                HashMap.get-modify_self same _ (touched sha counter) c.entries old there,
                λ q ne.
                    HashMap.get-modify_ne same _ q (touched sha counter) c.entries
                      (λ p. ne (sym p)),
              )
      ]
